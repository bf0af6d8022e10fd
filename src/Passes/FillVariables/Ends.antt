-- ===== src/Passes/FillVariables/Ends.antt =====
-- src/ast.c: `AST_fill_parameter_types` and `AST_fill_variable_types` end, and change nothing but the types
-- of variables.
use native.Mathlib.Nat.{le-max_left, le-max_right}
use luka.Prelude.{
  ℕ, zero, suc, ◌+◌, ◌<◌, ◌≤◌, ◌≡◌, refl, ap, ◌∙◌, sym, none, List, [], ◌∷◌, Bytes, ◌⊎◌, inl, inr,
  arith,
}
use luka.ReturnCode.{Outcome, Ends}
use luka.Types.Base.{Ty}
use luka.Ast.{
  Node, null, prototype, function, if_expr, while_expr, variable, let_stmt, defer_stmt, Body,
  no_body, body, Nodes, nil, cons, count, get_node, Store,
}
use luka.Modules.Resolve.{resolve}
use luka.Passes.Post.{Post, gives, faults, ◌⟫◌, weaken}
use luka.Passes.Shape.{shape, shape_body, shape_nodes, depth, depth_body, depth_nodes, depth-shape}
use luka.Passes.FillTypes.Shape.{fill_let-shape, fill_type-shape}
use luka.Passes.FillVariables.{
  Place, first_block, else_block, stmts_in, block_stmts, set_node, set_in, set_stmt, fill_declared,
  fill_stmt, fill_block, fill_blocks, fill_variable_types, fill_parameters, fill_parameter_types,
}

-- A tree that is another but for the types of variables.
abbrev pub Same : Node → Node → Type 0
Same n r = shape r ≡ shape n

set_node-shape :
    (i : ℕ) (s : Node) (ns : Nodes)
    → Same (get_node ns i) s
    → shape_nodes (set_node i s ns) ≡ shape_nodes ns
unfolding set_node get_node shape_nodes
set_node-shape i s nil h = refl
set_node-shape zero s (cons n ns) h = rw h
set_node-shape (suc i) s (cons n ns) h = rw (set_node-shape i s ns h)

set_in-shape :
    (i : ℕ) (s : Node) (b : Body)
    → Same (get_node (stmts_in b) i) s
    → shape_body (set_in i s b) ≡ shape_body b
unfolding set_in stmts_in shape_body
set_in-shape i s no_body h = refl
set_in-shape i s (body ns) h = rw (set_node-shape i s ns h)

set_stmt-shape :
    (place : Place) (i : ℕ) (s n : Node)
    → Same (get_node (block_stmts place n) i) s
    → Same n (set_stmt place i s n)
unfolding set_stmt block_stmts shape
set_stmt-shape first_block i s (function p b) h = rw (set_in-shape i s b h)
set_stmt-shape first_block i s (while_expr c b) h = rw (set_in-shape i s b h)
set_stmt-shape first_block i s (if_expr c t e) h = rw (set_in-shape i s t h)
set_stmt-shape first_block i s (defer_stmt b) h = rw (set_in-shape i s b h)
set_stmt-shape else_block i s (if_expr c t e) h = rw (set_in-shape i s e h)
set_stmt-shape first_block i s _ h = refl
set_stmt-shape else_block i s _ h = refl

get_node-depth : (ns : Nodes) (i : ℕ) → depth (get_node ns i) ≤ depth_nodes ns
unfolding get_node depth depth_nodes
get_node-depth nil i = omega arith
get_node-depth (cons n ns) zero = le-max_left (depth n) (depth_nodes ns)
get_node-depth (cons n ns) (suc i) =
    omega (arith, get_node-depth ns i, le-max_right (depth n) (depth_nodes ns))

stmts_in-depth : (b : Body) (i : ℕ) → depth (get_node (stmts_in b) i) ≤ depth_body b
unfolding stmts_in depth_body get_node depth
stmts_in-depth no_body i = omega arith
stmts_in-depth (body ns) i = get_node-depth ns i

-- A statement in a block is not as deep as the node that has the block.
block-depth :
    (place : Place) (n : Node) (i : ℕ)
    → (get_node (block_stmts place n) i ≡ null)
      ⊎ (depth (get_node (block_stmts place n) i) < depth n)
unfolding block_stmts get_node depth
block-depth first_block (function p b) i = inr (omega (arith, stmts_in-depth b i))
block-depth first_block (while_expr c b) i = inr (omega (arith, stmts_in-depth b i))
block-depth first_block (defer_stmt b) i = inr (omega (arith, stmts_in-depth b i))
block-depth first_block (if_expr c t e) i =
    inr (omega (arith, stmts_in-depth t i, le-max_left (depth_body t) (depth_body e)))
block-depth else_block (if_expr c t e) i =
    inr (omega (arith, stmts_in-depth e i, le-max_right (depth_body t) (depth_body e)))
block-depth first_block _ i = inl refl
block-depth else_block _ i = inl refl

Same-depth : (n r : Node) → Same n r → depth r ≡ depth n
Same-depth n r h = cc (depth-shape n, depth-shape r, ap depth h)

module _ (store : Store) (fuel m : ℕ)
    (looks : (name : Bytes) → Ends (resolve store fuel m name none)) where
  fill_declared-shape : (var n : Node) → Post (Same n) (fill_declared store fuel m var n)
  unfolding fill_declared
  fill_declared-shape (variable name t mut) n = fill_type-shape store fuel m looks name t n
  fill_declared-shape _ n = faults

  fill_stmt-shape :
      (call : Node → Outcome Node) (place : Place) (i : ℕ) (s n : Node)
      → get_node (block_stmts place n) i ≡ s
      → (s ≡ null) ⊎ Post (Same s) (call s)
      → Post (Same n) (fill_stmt store fuel m call place i s n)
  unfolding fill_stmt
  fill_stmt-shape call place i null n e h = faults
  fill_stmt-shape call place i (let_stmt var expr g) n e h =
      fill_let-shape store fuel m looks var expr ⟫ λ var' q.
      weaken
        (λ r same.
          same ∙ set_stmt-shape place i (let_stmt var' expr g) n (unfold shape in rw e (rw q)))
        (fill_declared-shape var' (set_stmt place i (let_stmt var' expr g) n))
  fill_stmt-shape call place i s n e (inl h) = absurd (cc h)
  fill_stmt-shape call place i s n e (inr h) =
      h ⟫ λ s' q. gives (set_stmt-shape place i s' n (q ∙ ap shape (sym e)))

  module _ (call : Node → Outcome Node) (bound : ℕ)
      (calls : (s : Node) → depth s < bound → Post (Same s) (call s)) where
    -- The loop, on a node that the bound is enough for.
    fill_block-shape :
        (place : Place) (rounds i : ℕ) (n : Node)
        → depth n ≤ bound
        → Post (Same n) (fill_block store fuel m call place rounds i n)
    unfolding fill_block
    fill_block-shape place zero i n h = gives refl
    fill_block-shape place (suc rounds) i n h =
        fill_stmt-shape call place i (get_node (block_stmts place n) i) n refl
          (reach (block-depth place n i))
        ⟫ λ n' q.
            weaken (λ r same. same ∙ q)
              (fill_block-shape place rounds (i + 1) n' (omega (arith, h, Same-depth n n' q)))
      where
        reach :
            (get_node (block_stmts place n) i ≡ null)
              ⊎ (depth (get_node (block_stmts place n) i) < depth n)
            → (get_node (block_stmts place n) i ≡ null)
              ⊎ Post
                  (Same (get_node (block_stmts place n) i))
                  (call (get_node (block_stmts place n) i))
        reach (inl e) = inl e
        reach (inr less) = inr (calls _ (omega (arith, less, h)))

    fill_blocks-shape :
        (n : Node) → depth n ≤ bound → Post (Same n) (fill_blocks store fuel m call n)
    unfolding fill_blocks
    fill_blocks-shape (function p b) h = fill_block-shape first_block _ 0 (function p b) h
    fill_blocks-shape (while_expr c b) h = fill_block-shape first_block _ 0 (while_expr c b) h
    fill_blocks-shape (defer_stmt b) h = fill_block-shape first_block _ 0 (defer_stmt b) h
    fill_blocks-shape (if_expr c no_body e) h = gives refl
    fill_blocks-shape (if_expr c (body ts) e) h =
        fill_block-shape first_block (count ts) 0 (if_expr c (body ts) e) h ⟫ λ n' q.
        weaken (λ r same. same ∙ q)
          (fill_block-shape else_block _ 0 n'
            (omega (arith, h, Same-depth (if_expr c (body ts) e) n' q)))
    fill_blocks-shape _ h = gives refl

  -- The pass on the variables ends with as much fuel as the blocks are deep and one more, and what it gives
  -- is the tree it was given but for the types of variables. The look-up of functions must end.
  pub fill_variable_types-shape :
      (limit : ℕ) (n : Node)
      → depth n < limit
      → Post (Same n) (fill_variable_types store fuel m limit n)
  unfolding fill_variable_types
  fill_variable_types-shape zero n h = absurd (omega arith)
  fill_variable_types-shape (suc limit) n h =
      fill_blocks-shape (fill_variable_types store fuel m limit) limit
        (λ s less. fill_variable_types-shape limit s less) n (omega arith)

  fill_parameters-shape :
      (arity : ℕ) (args : List Bytes) (types : List Ty) (n : Node)
      → Post (Same n) (fill_parameters store fuel m arity args types n)
  unfolding fill_parameters
  fill_parameters-shape zero args types n = gives refl
  fill_parameters-shape (suc arity) [] types n = faults
  fill_parameters-shape (suc arity) (arg ∷ args) [] n = faults
  fill_parameters-shape (suc arity) (arg ∷ args) (t ∷ types) n =
      fill_type-shape store fuel m looks arg t n ⟫ λ n' q.
      weaken (λ r same. same ∙ q) (fill_parameters-shape arity args types n')

  -- The same for the pass on the parameters, which needs no fuel of its own.
  pub fill_parameter_types-shape : (n : Node) → Post (Same n) (fill_parameter_types store fuel m n)
  unfolding fill_parameter_types
  fill_parameter_types-shape null = gives refl
  fill_parameter_types-shape (function null b) = gives refl
  fill_parameter_types-shape (function p no_body) = gives refl
  fill_parameter_types-shape (function (prototype p) b) =
      fill_parameters-shape p.arity p.args p.types (function (prototype p) b)
  fill_parameter_types-shape (function _ b) = faults
  fill_parameter_types-shape _ = faults
