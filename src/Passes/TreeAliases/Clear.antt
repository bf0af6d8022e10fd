-- ===== src/Passes/TreeAliases/Clear.antt =====
-- src/ast.c: where aliases lead down, `AST_resolve_type_aliases` ends, and leaves no alias where it goes.
use luka.Prelude.{ℕ, zero, suc, ◌≤◌, ◌≡◌, refl, false, List, [], ◌∷◌, none, some, Bytes, All}
use luka.ReturnCode.{ok}
use luka.Types.Base.{Ty, null, type}
use luka.Ast.{
  Node, null as no_node, prototype, function, cast_expr, variable, let_stmt, assignment_expr,
  call_expr, expression_stmt, struct_definition, get_expr, Body, no_body, body, Nodes, nil, cons,
  Prototype, StructField,
}
use luka.Passes.Post.{Post, gives, faults, ◌⟫◌}
use luka.Passes.Aliases.{Aliases}
use luka.Passes.Aliases.Clean.{IsResolved, nothing, Below, Ranked, resolve_type-Clean}
use luka.Passes.TreeAliases.Places.{
  is_visited, First, all_read, one_read, InPrototype, InTree, no_child, at_prototype, at_cast,
  at_variable, in_function, in_let, in_statement, in_assignment, in_get, in_call, in_struct,
  unvisited, InBody, no_stmts, stmts, InNodes, end_nodes, node,
}
use luka.Passes.TreeAliases.{
  resolve_one, resolve_optional, resolve_parameters, resolve_prototype, resolve_fields,
  resolve_child, resolve_aliases, resolve_body, resolve_nodes,
}

module _ (rank : Bytes → ℕ) (fuel k : ℕ) (enough : k ≤ fuel) where
  -- A result with nothing left to resolve, and a table that leads down.
  abbrev pub Clear : {A : Type 0} → (A → Type 0) → A × Aliases → Type 0
  Clear Q (a, aliases) = Q a × Ranked rank aliases

  one-Clear :
      (t : Ty) (aliases : Aliases)
      → Below rank k t
      → Ranked rank aliases
      → Post (Clear IsResolved) (resolve_one fuel t aliases)
  unfolding resolve_one
  one-Clear t aliases h ranked = resolve_type-Clean rank fuel k t aliases enough h ranked ⟫ λ r c.
      gives (c.answer_is, c.aliases_are)

  optional-Clear :
      (t : Ty) (aliases : Aliases)
      → Below rank k t
      → Ranked rank aliases
      → Post (Clear IsResolved) (resolve_optional fuel t aliases)
  unfolding resolve_optional
  optional-Clear null aliases h ranked = gives (nothing, ranked)
  optional-Clear (type b i p m) aliases h ranked = one-Clear (type b i p m) aliases h ranked

  parameters-Clear :
      (n : ℕ) (ts : List Ty) (aliases : Aliases)
      → First (Below rank k) n ts
      → Ranked rank aliases
      → Post (Clear (First IsResolved n)) (resolve_parameters fuel n ts aliases)
  unfolding resolve_parameters
  parameters-Clear zero ts aliases h ranked = gives (all_read ts, ranked)
  parameters-Clear (suc n) [] aliases h ranked = faults
  parameters-Clear (suc n) (t ∷ ts) aliases (one_read h hs) ranked =
      one-Clear t aliases h ranked ⟫ λ (t', a1) (c, r1).
      parameters-Clear n ts a1 hs r1 ⟫ λ (ts', a2) (cs, r2). gives (one_read c cs, r2)

  prototype-Clear :
      (p : Prototype) (aliases : Aliases)
      → InPrototype (Below rank k) p
      → Ranked rank aliases
      → Post (Clear (InPrototype IsResolved)) (resolve_prototype fuel p aliases)
  unfolding resolve_prototype
  prototype-Clear p aliases (h, q) ranked =
      parameters-Clear p.arity p.types aliases h ranked ⟫ λ (ts, a1) (cs, r1).
      one-Clear p.return_type a1 q r1 ⟫ λ (t, a2) (c, r2). gives ((cs, c), r2)

  fields-Clear :
      (fs : List StructField) (aliases : Aliases)
      → All (λ f. Below rank k f.type) fs
      → Ranked rank aliases
      → Post (Clear (All (λ f. IsResolved f.type))) (resolve_fields fuel fs aliases)
  unfolding resolve_fields
  fields-Clear [] aliases h ranked = gives (tt, ranked)
  fields-Clear (f ∷ fs) aliases (h, hs) ranked =
      one-Clear f.type aliases h ranked ⟫ λ (t, a1) (c, r1).
      fields-Clear fs a1 hs r1 ⟫ λ (fs', a2) (cs, r2). gives ((c, cs), r2)

  -- The visit of a child, which may be NULL.
  child-Clear :
      (n : Node) (aliases : Aliases)
      → Ranked rank aliases
      → Post (Clear (InTree IsResolved)) (resolve_aliases fuel n aliases)
      → Post (Clear (InTree IsResolved)) (resolve_child fuel (resolve_aliases fuel n) n aliases)
  unfolding resolve_child
  child-Clear no_node aliases ranked h = gives (no_child, ranked)
  child-Clear _ aliases ranked h = h

  pass_by :
      (n : Node) (aliases : Aliases)
      → is_visited n ≡ false
      → resolve_aliases fuel n aliases ≡ ok (n, aliases)
  unfolding resolve_aliases
  pass_by no_node aliases h = cc
  pass_by (prototype p) aliases h = cc
  pass_by (cast_expr e t) aliases h = cc
  pass_by (variable s t mut) aliases h = cc
  pass_by (function p b) aliases h = cc
  pass_by (let_stmt v e g) aliases h = cc
  pass_by (expression_stmt e) aliases h = cc
  pass_by (assignment_expr l r) aliases h = cc
  pass_by (get_expr v key is_enum) aliases h = cc
  pass_by (call_expr c args) aliases h = cc
  pass_by (struct_definition s fields functions) aliases h = cc
  pass_by _ aliases h = refl

  mutual
    unfolding resolve_aliases resolve_body resolve_nodes

    tree-Clear :
        (n : Node) (aliases : Aliases)
        → InTree (Below rank k) n
        → Ranked rank aliases
        → Post (Clear (InTree IsResolved)) (resolve_aliases fuel n aliases)
    tree-Clear n aliases (unvisited q) ranked =
        rw (pass_by n aliases q) (gives (unvisited q, ranked))
    tree-Clear no_node aliases h ranked = faults
    tree-Clear (prototype p) aliases (at_prototype h) ranked =
        prototype-Clear p aliases h ranked ⟫ λ (p', a) (c, r). gives (at_prototype c, r)
    tree-Clear (cast_expr e t) aliases (at_cast _ h) ranked =
        one-Clear t aliases h ranked ⟫ λ (t', a) (c, r). gives (at_cast e c, r)
    tree-Clear (variable s t mut) aliases (at_variable _ _ h) ranked =
        optional-Clear t aliases h ranked ⟫ λ (t', a) (c, r). gives (at_variable s mut c, r)
    tree-Clear (function p b) aliases (in_function h q) ranked =
        tree-Clear p aliases h ranked ⟫ λ (p', a1) (c, r1).
        body-Clear b a1 q r1 ⟫ λ (b', a2) (d, r2). gives (in_function c d, r2)
    tree-Clear (let_stmt v e g) aliases (in_let _ _ h) ranked =
        child-Clear v aliases ranked (tree-Clear v aliases h ranked) ⟫ λ (v', a) (c, r).
        gives (in_let e g c, r)
    tree-Clear (expression_stmt e) aliases (in_statement h) ranked =
        child-Clear e aliases ranked (tree-Clear e aliases h ranked) ⟫ λ (e', a) (c, r).
        gives (in_statement c, r)
    tree-Clear (assignment_expr l r) aliases (in_assignment h q) ranked =
        child-Clear l aliases ranked (tree-Clear l aliases h ranked) ⟫ λ (l', a1) (c, r1).
        child-Clear r a1 r1 (tree-Clear r a1 q r1) ⟫ λ (r', a2) (d, r2).
        gives (in_assignment c d, r2)
    tree-Clear (get_expr v key e) aliases (in_get _ _ h) ranked =
        child-Clear v aliases ranked (tree-Clear v aliases h ranked) ⟫ λ (v', a) (c, r).
        gives (in_get key e c, r)
    tree-Clear (call_expr f args) aliases (in_call h q) ranked =
        child-Clear f aliases ranked (tree-Clear f aliases h ranked) ⟫ λ (f', a1) (c, r1).
        body-Clear args a1 q r1 ⟫ λ (args', a2) (d, r2). gives (in_call c d, r2)
    tree-Clear (struct_definition s none fs) aliases h ranked = faults
    tree-Clear (struct_definition s (some fields) fs) aliases (in_struct _ _ h) ranked =
        fields-Clear fields aliases h ranked ⟫ λ (fields', a) (c, r). gives (in_struct s fs c, r)

    body-Clear :
        (b : Body) (aliases : Aliases)
        → InBody (Below rank k) b
        → Ranked rank aliases
        → Post (Clear (InBody IsResolved)) (resolve_body fuel b aliases)
    body-Clear no_body aliases h ranked = gives (no_stmts, ranked)
    body-Clear (body ns) aliases (stmts h) ranked =
        nodes-Clear ns aliases h ranked ⟫ λ (ns', a) (c, r). gives (stmts c, r)

    nodes-Clear :
        (ns : Nodes) (aliases : Aliases)
        → InNodes (Below rank k) ns
        → Ranked rank aliases
        → Post (Clear (InNodes IsResolved)) (resolve_nodes fuel ns aliases)
    nodes-Clear nil aliases h ranked = gives (end_nodes, ranked)
    nodes-Clear (cons n ns) aliases (node h hs) ranked =
        tree-Clear n aliases h ranked ⟫ λ (n', a1) (c, r1).
        nodes-Clear ns a1 hs r1 ⟫ λ (ns', a2) (d, r2). gives (node c d, r2)

  -- With as much fuel as the types of the tree have rank, the pass over it ends, and no alias is left in
  -- a type that it goes to. It does not go into conditions and blocks of if and while, into returns, unary
  -- and binary expressions, array accesses and literals, struct values and defers, nor to the initialiser
  -- of a let statement, the operand of a cast and the methods of a struct: an alias there is left. The
  -- aliases of the table stand for types of lower rank.
  pub resolve_aliases-Clear :
      (n : Node) (aliases : Aliases)
      → InTree (Below rank k) n
      → Ranked rank aliases
      → Post (Clear (InTree IsResolved)) (resolve_aliases fuel n aliases)
  resolve_aliases-Clear = tree-Clear
