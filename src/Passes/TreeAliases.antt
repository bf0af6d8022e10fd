-- ===== src/Passes/TreeAliases.antt =====
-- src/ast.c: `AST_resolve_type_aliases`. The table of aliases is handed from type to type. The warning on the
-- nodes that are not visited is left out.
pub mod Places
pub mod Clear
use luka.Prelude.{ℕ, zero, suc, List, [], ◌∷◌, none, some}
use luka.ReturnCode.{Outcome, ok, fault, ◌>>=◌}
use luka.Types.Base.{Ty, null}
use luka.Ast.{
  Node, null as no_node, prototype, function, cast_expr, variable, let_stmt, assignment_expr,
  call_expr, expression_stmt, struct_definition, get_expr, Body, no_body, body, Nodes, nil, cons,
  Prototype, StructField,
}
use luka.Passes.Aliases.{Aliases, resolve_type}

module _ (fuel : ℕ) where
  unfoldable pub resolve_one : Ty → Aliases → Outcome (Ty × Aliases)
  unfolding resolve_type
  resolve_one t aliases = do r ← resolve_type fuel t aliases; ok (r.answer, r.aliases)

  -- A variable's type may be NULL.
  unfoldable pub resolve_optional : Ty → Aliases → Outcome (Ty × Aliases)
  unfolding resolve_one
  resolve_optional null aliases = ok (null, aliases)
  resolve_optional t aliases = resolve_one t aliases

  -- The loop over the first so many entries of `types`.
  unfoldable pub resolve_parameters : ℕ → List Ty → Aliases → Outcome (List Ty × Aliases)
  unfolding resolve_one
  resolve_parameters zero ts aliases = ok (ts, aliases)
  resolve_parameters (suc n) [] aliases = fault
  resolve_parameters (suc n) (t ∷ ts) aliases = do
    (t', aliases1) ← resolve_one t aliases
    (ts', aliases2) ← resolve_parameters n ts aliases1
    ok (t' ∷ ts', aliases2)

  unfoldable pub resolve_prototype : Prototype → Aliases → Outcome (Prototype × Aliases)
  unfolding resolve_parameters resolve_one
  resolve_prototype p aliases = do
    (types', aliases1) ← resolve_parameters p.arity p.types aliases
    (return_type', aliases2) ← resolve_one p.return_type aliases1
    ok (record p { types = types'; return_type = return_type' }, aliases2)

  unfoldable pub resolve_fields : List StructField → Aliases → Outcome (List StructField × Aliases)
  unfolding resolve_one
  resolve_fields [] aliases = ok ([], aliases)
  resolve_fields (f ∷ fs) aliases = do
    (type', aliases1) ← resolve_one f.type aliases
    (fs', aliases2) ← resolve_fields fs aliases1
    ok (record f { type = type' } ∷ fs', aliases2)

  -- A child that may be NULL, with the outcome of its visit.
  unfoldable pub resolve_child :
      (Aliases → Outcome (Node × Aliases)) → Node → Aliases → Outcome (Node × Aliases)
  resolve_child visit no_node aliases = ok (no_node, aliases)
  resolve_child visit n aliases = visit aliases

  unfoldable mutual
    unfolding resolve_one resolve_optional resolve_prototype resolve_fields resolve_child

    pub resolve_aliases : Node → Aliases → Outcome (Node × Aliases)
    resolve_aliases no_node aliases = fault
    resolve_aliases (prototype p) aliases = do
      (p', aliases') ← resolve_prototype p aliases
      ok (prototype p', aliases')
    resolve_aliases (cast_expr expr t) aliases = do
      (t', aliases') ← resolve_one t aliases
      ok (cast_expr expr t', aliases')
    resolve_aliases (variable name t mut) aliases = do
      (t', aliases') ← resolve_optional t aliases
      ok (variable name t' mut, aliases')
    resolve_aliases (function p b) aliases = do
      (p', aliases1) ← resolve_aliases p aliases
      (b', aliases2) ← resolve_body b aliases1
      ok (function p' b', aliases2)
    resolve_aliases (let_stmt var expr is_global) aliases = do
      (var', aliases') ← resolve_child (resolve_aliases var) var aliases
      ok (let_stmt var' expr is_global, aliases')
    resolve_aliases (expression_stmt expr) aliases = do
      (expr', aliases') ← resolve_child (resolve_aliases expr) expr aliases
      ok (expression_stmt expr', aliases')
    resolve_aliases (assignment_expr lhs rhs) aliases = do
      (lhs', aliases1) ← resolve_child (resolve_aliases lhs) lhs aliases
      (rhs', aliases2) ← resolve_child (resolve_aliases rhs) rhs aliases1
      ok (assignment_expr lhs' rhs', aliases2)
    resolve_aliases (get_expr v key is_enum) aliases = do
      (v', aliases') ← resolve_child (resolve_aliases v) v aliases
      ok (get_expr v' key is_enum, aliases')
    resolve_aliases (call_expr callable args) aliases = do
      (callable', aliases1) ← resolve_child (resolve_aliases callable) callable aliases
      (args', aliases2) ← resolve_body args aliases1
      ok (call_expr callable' args', aliases2)
    resolve_aliases (struct_definition name none functions) aliases = fault
    resolve_aliases (struct_definition name (some fields) functions) aliases = do
      (fields', aliases') ← resolve_fields fields aliases
      ok (struct_definition name (some fields') functions, aliases')
    resolve_aliases n aliases = ok (n, aliases)

    pub resolve_body : Body → Aliases → Outcome (Body × Aliases)
    resolve_body no_body aliases = ok (no_body, aliases)
    resolve_body (body ns) aliases = do
      (ns', aliases') ← resolve_nodes ns aliases
      ok (body ns', aliases')

    -- The loop over a vector of nodes.
    pub resolve_nodes : Nodes → Aliases → Outcome (Nodes × Aliases)
    resolve_nodes nil aliases = ok (nil, aliases)
    resolve_nodes (cons n ns) aliases = do
      (n', aliases1) ← resolve_aliases n aliases
      (ns', aliases2) ← resolve_nodes ns aliases1
      ok (cons n' ns', aliases2)
