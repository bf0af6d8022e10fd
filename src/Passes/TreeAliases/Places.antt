-- ===== src/Passes/TreeAliases/Places.antt =====
-- The types in a tree that `AST_resolve_type_aliases` goes to.
use luka.Prelude.{ℕ, zero, suc, ◌≡◌, Bool, true, false, List, ◌∷◌, none, some, Bytes, All}
use luka.Types.Base.{Ty}
use luka.Ast.{
  Node, null as no_node, prototype, function, cast_expr, variable, let_stmt, assignment_expr,
  call_expr, expression_stmt, struct_definition, get_expr, Body, no_body, body, Nodes, nil, cons,
  Prototype, StructField,
}

-- The first so many types satisfy `P`.
pub data First (P : Ty → Type 0) : ℕ → List Ty → Type 0 where
  all_read : (ts : List Ty) → First P zero ts
  one_read : {n : ℕ} {t : Ty} {ts : List Ty} → P t → First P n ts → First P (suc n) (t ∷ ts)

-- The nodes that the pass goes into.
abbrev pub is_visited : Node → Bool
is_visited no_node = true
is_visited (prototype p) = true
is_visited (cast_expr e t) = true
is_visited (variable s t mut) = true
is_visited (function p b) = true
is_visited (let_stmt v e g) = true
is_visited (expression_stmt e) = true
is_visited (assignment_expr l r) = true
is_visited (get_expr v key is_enum) = true
is_visited (call_expr c args) = true
is_visited (struct_definition s fields functions) = true
is_visited _ = false

-- `P` holds of every type in the tree that the pass goes to.
module _ (P : Ty → Type 0) where
  abbrev pub InPrototype : Prototype → Type 0
  InPrototype p = First P p.arity p.types × P p.return_type

  mutual
    pub data InTree : Node → Type 0 where
      no_child : InTree no_node
      at_prototype : {p : Prototype} → InPrototype p → InTree (prototype p)
      at_cast : (e : Node) {t : Ty} → P t → InTree (cast_expr e t)
      at_variable : {t : Ty} (s : Bytes) (mut : Bool) → P t → InTree (variable s t mut)
      in_function : {p : Node} {b : Body} → InTree p → InBody b → InTree (function p b)
      in_let : {v : Node} (e : Node) (g : Bool) → InTree v → InTree (let_stmt v e g)
      in_statement : {e : Node} → InTree e → InTree (expression_stmt e)
      in_assignment : {l r : Node} → InTree l → InTree r → InTree (assignment_expr l r)
      in_get :
          {v : Node} (key : Bytes) (is_enum : Bool) → InTree v → InTree (get_expr v key is_enum)
      in_call : {c : Node} {args : Body} → InTree c → InBody args → InTree (call_expr c args)
      in_struct :
          {fields : List StructField} (s : Bytes) (functions : Body)
          → All (λ f. P f.type) fields
          → InTree (struct_definition s (some fields) functions)
      no_fields : (s : Bytes) (functions : Body) → InTree (struct_definition s none functions)
      unvisited : {n : Node} → is_visited n ≡ false → InTree n

    pub data InBody : Body → Type 0 where
      no_stmts : InBody no_body
      stmts : {ns : Nodes} → InNodes ns → InBody (body ns)

    pub data InNodes : Nodes → Type 0 where
      end_nodes : InNodes nil
      node : {n : Node} {ns : Nodes} → InTree n → InNodes ns → InNodes (cons n ns)
