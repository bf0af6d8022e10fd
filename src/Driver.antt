-- ===== src/Driver.antt =====
-- src/main.c: the front end: `lex`, `parse` with the imports of a module, and `type_check`. The front
-- end calls itself for a file that is imported, with a unit of fuel.
mod Yields
pub mod Accepted
pub mod State
pub mod FrontEnd
use luka.Prelude.{
  ℕ, zero, suc, ◌+◌, ◌==◌, Bool, true, false, List, [], ◌∷◌, ◌++◌, Option, none, some, Bytes,
  str_eq, get_elem?, if◌then◌else◌,
}
use luka.ReturnCode.{
  Outcome, ok, returned, fault, out_of_fuel, parser_failed, type_check_error, ◌>>=◌,
}
use luka.Token.{Token}
use luka.Ast.{Node, Body, no_body, body, Nodes, nil, cons, Module, Store}
use luka.Lexer.Tokenize.{tokenize_source}
use luka.Parser.File.{initialize_parser, parse_file}
use luka.Checker.{check_function}
use luka.Passes.Aliases.{Aliases}
use luka.Passes.LastExpression.{fix_last_expression}
use luka.Passes.FillVariables.{fill_variable_types, fill_parameter_types}
use luka.Passes.FixTypes.{fix_types}
use luka.Passes.TreeAliases.{resolve_aliases}
use luka.Driver.State.{World, Context, put_module, set_entry}

-- A pass over each node of a vector, with a state that is handed on.
unfoldable pub each :
    {S : Type 0} → (Node → S → Outcome (Node × S)) → Nodes → S → Outcome (Nodes × S)
each pass nil s = ok (nil, s)
each pass (cons n ns) s = do (n', s1) ← pass n s; (ns', s2) ← each pass ns s1; ok (cons n' ns', s2)

unfoldable pub each_in :
    {S : Type 0} → (Node → S → Outcome (Node × S)) → Body → S → Outcome (Body × S)
unfolding each
each_in pass no_body s = fault
each_in pass (body ns) s = do (ns', s') ← each pass ns s; ok (body ns', s')

-- The passes of the first loop over the functions. They look at the prototypes and the structs of the
-- module only, which they leave as they are.
unfoldable pub first_passes : Store → ℕ → ℕ → Node → Unit {0} → Outcome (Node × Unit {0})
unfolding fix_last_expression fill_parameter_types fill_variable_types
first_passes store limit m n s = do
  n1 ← fix_last_expression n
  n2 ← fill_parameter_types store limit m n1
  n3 ← fill_variable_types store limit m limit n2
  ok (n3, s)

-- The passes of the last loops.
unfoldable pub last_passes : Store → ℕ → ℕ → Node → Aliases → Outcome (Node × Aliases)
unfolding fix_types resolve_aliases
last_passes store limit m n aliases = do
  n1 ← fix_types store limit m n
  resolve_aliases limit n1 aliases

-- The loop over the functions in `type_check`.
unfoldable pub check_functions : Store → ℕ → ℕ → Nodes → Outcome (Unit {0})
unfolding check_function
check_functions store limit m nil = ok tt
check_functions store limit m (cons n ns) = do
  success ← check_function store limit m n
  let later = check_functions store limit m ns
  if success then later else returned type_check_error
