-- ===== src/Passes/FixTypes.antt =====
-- src/ast.c: `ast_fix_type` and `AST_fix_types`, which make struct and enum types of the aliases that name
-- a struct or an enum which the module sees. The warning on the nodes that are not visited is left out.
pub mod Again
use luka.Prelude.{
  ℕ, zero, suc, Bool, true, false, List, [], ◌∷◌, Option, none, some, Bytes, if◌then◌else◌,
}
use luka.ReturnCode.{Outcome, ok, fault, ◌>>=◌}
use luka.Types.Base.{
  BaseType, type_struct, type_enum, type_alias, Payload, no_payload, text, size, Ty, null, type,
  base_eq,
}
use luka.Ast.{
  Node, null as no_node, prototype, function, cast_expr, variable, let_stmt, assignment_expr,
  call_expr, expression_stmt, struct_definition, get_expr, Body, no_body, body, Nodes, nil, cons,
  Store, Prototype, StructField,
}
use luka.Modules.Names.{is_struct_name, is_enum_name}

-- A child that may be NULL, with the outcome of its visit.
unfoldable pub visit_child : Node → Outcome Node → Outcome Node
visit_child no_node visited = ok no_node
visit_child n visited = visited

module _ (store : Store) (fuel m : ℕ) where
  -- The base type of an alias with that name.
  unfoldable pub named_base : Bytes → Outcome BaseType
  unfolding is_struct_name is_enum_name
  named_base name =
      let second = is_enum_name store fuel m name none >>= λ is_enum.
      ok (if is_enum then type_enum else type_alias) in
      is_struct_name store fuel m name none >>= λ is_struct.
      if is_struct then ok type_struct else second

  -- The base type of a type with that payload.
  unfoldable pub fix_base : BaseType → Payload → Outcome BaseType
  unfolding base_eq named_base
  fix_base b no_payload = ok b
  fix_base b (text name) =
      let found = named_base name in if base_eq b type_alias then found else ok b
  fix_base b (size n) = if base_eq b type_alias then fault else ok b

  unfoldable pub fix_type : Ty → Outcome Ty
  unfolding fix_base
  fix_type null = ok null
  fix_type (type b inner p mut) = do
    inner' ← fix_type inner
    b' ← fix_base b p
    ok (type b' inner' p mut)

  -- The loop over the first so many entries of `types`.
  unfoldable pub fix_parameters : ℕ → List Ty → Outcome (List Ty)
  unfolding fix_type
  fix_parameters zero ts = ok ts
  fix_parameters (suc n) [] = fault
  fix_parameters (suc n) (t ∷ ts) = do t' ← fix_type t; ts' ← fix_parameters n ts; ok (t' ∷ ts')

  unfoldable pub fix_prototype : Prototype → Outcome Prototype
  unfolding fix_parameters fix_type
  fix_prototype p = do
    types' ← fix_parameters p.arity p.types
    return_type' ← fix_type p.return_type
    ok (record p { types = types'; return_type = return_type' })

  -- The loop over the fields of a struct.
  unfoldable pub fix_fields : List StructField → Outcome (List StructField)
  unfolding fix_type
  fix_fields [] = ok []
  fix_fields (f ∷ fs) = do
    type' ← fix_type f.type
    fs' ← fix_fields fs
    ok (record f { type = type' } ∷ fs')

  unfoldable mutual
    unfolding visit_child fix_type fix_prototype fix_fields

    pub fix_types : Node → Outcome Node
    fix_types no_node = fault
    fix_types (let_stmt var expr is_global) = do
      var' ← visit_child var (fix_types var)
      ok (let_stmt var' expr is_global)
    fix_types (expression_stmt expr) = do
      expr' ← visit_child expr (fix_types expr)
      ok (expression_stmt expr')
    fix_types (assignment_expr lhs rhs) = do
      lhs' ← visit_child lhs (fix_types lhs)
      rhs' ← visit_child rhs (fix_types rhs)
      ok (assignment_expr lhs' rhs')
    fix_types (get_expr v key is_enum) = do
      v' ← visit_child v (fix_types v)
      ok (get_expr v' key is_enum)
    fix_types (call_expr callable args) = do
      callable' ← visit_child callable (fix_types callable)
      args' ← fix_body args
      ok (call_expr callable' args')
    fix_types (cast_expr expr t) = do t' ← fix_type t; ok (cast_expr expr t')
    fix_types (variable name t mut) = do t' ← fix_type t; ok (variable name t' mut)
    fix_types (prototype p) = do p' ← fix_prototype p; ok (prototype p')
    fix_types (function p b) = do p' ← fix_types p; b' ← fix_body b; ok (function p' b')
    fix_types (struct_definition name none functions) = fault
    fix_types (struct_definition name (some fields) functions) = do
      fields' ← fix_fields fields
      ok (struct_definition name (some fields') functions)
    fix_types n = ok n

    pub fix_body : Body → Outcome Body
    fix_body no_body = ok no_body
    fix_body (body ns) = do ns' ← fix_nodes ns; ok (body ns')

    -- The loop over a vector of nodes.
    pub fix_nodes : Nodes → Outcome Nodes
    fix_nodes nil = ok nil
    fix_nodes (cons n ns) = do n' ← fix_types n; ns' ← fix_nodes ns; ok (cons n' ns')
