-- ===== src/Passes/Aliases.antt =====
-- src/ast.c: `ast_resolve_type`, which puts the types that aliases stand for in the place of their names. The types in the table are changed too, as their inner types are stored back.
-- One alias leads to the next with a unit of fuel; where the source would never return, the model runs
-- out of it at every amount.
pub mod Clean
pub mod Circle
use luka.Prelude.{
  ℕ, zero, suc, Bool, true, false, List, [], ◌∷◌, Option, none, some, Bytes, str_eq, if◌then◌else◌,
}
use luka.ReturnCode.{Outcome, ok, exited, fault, out_of_fuel, type_check_error, ◌>>=◌}
use luka.Types.Base.{BaseType, type_alias, Payload, no_payload, text, size, Ty, null, type, base_eq}
use luka.Types.Dup.{dup_type}
use luka.Parser.State.{TypeAlias}
use luka.Ast.{
  Node, null as no_node, prototype, function, cast_expr, variable, let_stmt, assignment_expr,
  call_expr, expression_stmt, struct_definition, get_expr, Body, no_body, body, Nodes, nil, cons,
  Prototype, StructField,
}

abbrev pub Aliases : Type 0
Aliases = List TypeAlias

-- The loop over the table: the type of the first alias with the name.
unfoldable pub find_alias : Bytes → Aliases → Option Ty
unfolding str_eq
find_alias name [] = none
find_alias name (a ∷ aliases) =
    let later = find_alias name aliases in if str_eq name a.name then some a.type else later

-- What becomes of the type that the same entry points to.
unfoldable pub set_alias : Bytes → Ty → Aliases → Aliases
unfolding str_eq
set_alias name t [] = []
set_alias name t (a ∷ aliases) =
    let later = set_alias name t aliases in
    if str_eq name a.name then record a { type = t } ∷ aliases else a ∷ later

-- What a call returns, what it has made of the type that it was given, and what of the table.
pub record Resolved : Type 0 where
  pub answer : Ty
  pub object : Ty
  pub aliases : Aliases

-- The name that is looked for. Without an alias to compare with, the payload is not read.
unfoldable pub alias_name : Payload → Aliases → Outcome Bytes
alias_name (text s) aliases = ok s
alias_name p [] = exited type_check_error
alias_name p (a ∷ aliases) = fault

-- The call on the type of an alias.
unfoldable pub resolve_found :
    (Ty → Aliases → Outcome Resolved) → Bytes → Ty → Aliases → Option Ty → Outcome Resolved
unfolding set_alias dup_type
resolve_found call name object aliases none = exited type_check_error
resolve_found call name object aliases (some t) = do
  r ← call t aliases
  copy ← dup_type r.answer
  ok (record { answer = copy; object = object; aliases = set_alias name r.object r.aliases })

unfoldable pub resolve_alias :
    (Ty → Aliases → Outcome Resolved) → Payload → Ty → Aliases → Outcome Resolved
unfolding alias_name resolve_found find_alias
resolve_alias call p object aliases = do
  name ← alias_name p aliases
  resolve_found call name object aliases (find_alias name aliases)

-- What is done behind the inner type.
unfoldable pub resolve_object :
    (Ty → Aliases → Outcome Resolved) → BaseType → Payload → Ty → Aliases → Outcome Resolved
unfolding resolve_alias base_eq
resolve_object call b p object aliases =
    let named = resolve_alias call p object aliases in
    if base_eq b type_alias
    then named
    else ok (record { answer = object; object = object; aliases = aliases })

unfoldable pub resolve_with : (Ty → Aliases → Outcome Resolved) → Ty → Aliases → Outcome Resolved
unfolding resolve_object
resolve_with call null aliases = fault
resolve_with call (type b null p m) aliases = resolve_object call b p (type b null p m) aliases
resolve_with call (type b inner p m) aliases = do
  r ← resolve_with call inner aliases
  resolve_object call b p (type b r.answer p m) r.aliases

-- `ast_resolve_type`
unfoldable pub resolve_type : ℕ → Ty → Aliases → Outcome Resolved
unfolding resolve_with
resolve_type zero = resolve_with (λ t aliases. out_of_fuel)
resolve_type (suc fuel) = resolve_with (resolve_type fuel)
