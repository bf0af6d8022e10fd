-- ===== src/Passes/FillVariables.antt =====
-- src/ast.c: `AST_fill_parameter_types` and `AST_fill_variable_types`. The second goes down the blocks of a
-- function with a unit of fuel for each; while it loops over a block it fills the whole node that the
-- block belongs to, so a round takes its statement from what the rounds before have left.
pub mod Ends
use luka.Prelude.{ℕ, zero, suc, ◌+◌, List, [], ◌∷◌, Bytes}
use luka.ReturnCode.{Outcome, ok, fault, out_of_fuel, ◌>>=◌}
use luka.Types.Base.{Ty}
use luka.Ast.{
  Node, null, prototype, function, if_expr, while_expr, variable, let_stmt, defer_stmt, Body,
  no_body, body, Nodes, nil, cons, count, get_node, Store,
}
use luka.Passes.FillTypes.{fill_let, fill_type}

-- The blocks that a node has.
pub data Place : Type 0 where
  first_block else_block : Place

unfoldable pub stmts_in : Body → Nodes
stmts_in no_body = nil
stmts_in (body ns) = ns

unfoldable pub block_stmts : Place → Node → Nodes
unfolding stmts_in
block_stmts first_block (function p b) = stmts_in b
block_stmts first_block (while_expr c b) = stmts_in b
block_stmts first_block (if_expr c t e) = stmts_in t
block_stmts first_block (defer_stmt b) = stmts_in b
block_stmts else_block (if_expr c t e) = stmts_in e
block_stmts place n = nil

-- A store through a pointer to a statement.
unfoldable pub set_node : ℕ → Node → Nodes → Nodes
set_node i stmt nil = nil
set_node zero stmt (cons n ns) = cons stmt ns
set_node (suc i) stmt (cons n ns) = cons n (set_node i stmt ns)

unfoldable pub set_in : ℕ → Node → Body → Body
unfolding set_node
set_in i stmt no_body = no_body
set_in i stmt (body ns) = body (set_node i stmt ns)

unfoldable pub set_stmt : Place → ℕ → Node → Node → Node
unfolding set_in
set_stmt first_block i stmt (function p b) = function p (set_in i stmt b)
set_stmt first_block i stmt (while_expr c b) = while_expr c (set_in i stmt b)
set_stmt first_block i stmt (if_expr c t e) = if_expr c (set_in i stmt t) e
set_stmt first_block i stmt (defer_stmt b) = defer_stmt (set_in i stmt b)
set_stmt else_block i stmt (if_expr c t e) = if_expr c t (set_in i stmt e)
set_stmt place i stmt n = n

module _ (store : Store) (fuel m : ℕ) where
  -- The variable of a declaration that has been filled is filled in everywhere in the node.
  unfoldable pub fill_declared : Node → Node → Outcome Node
  unfolding fill_type
  fill_declared (variable name t mut) n = fill_type store fuel m name t n
  fill_declared _ n = fault

  -- A round of the loop, on the statement at an index of a block.
  unfoldable pub fill_stmt : (Node → Outcome Node) → Place → ℕ → Node → Node → Outcome Node
  unfolding fill_let fill_declared set_stmt
  fill_stmt call place i null n = fault
  fill_stmt call place i (let_stmt var expr is_global) n = do
    var' ← fill_let store fuel m var expr
    fill_declared var' (set_stmt place i (let_stmt var' expr is_global) n)
  fill_stmt call place i stmt n = do stmt' ← call stmt; ok (set_stmt place i stmt' n)

  -- The loop, from an index on.
  unfoldable pub fill_block : (Node → Outcome Node) → Place → ℕ → ℕ → Node → Outcome Node
  unfolding fill_stmt block_stmts
  fill_block call place zero i n = ok n
  fill_block call place (suc rounds) i n = do
    n' ← fill_stmt call place i (get_node (block_stmts place n) i) n
    fill_block call place rounds (i + 1) n'

  unfoldable pub fill_blocks : (Node → Outcome Node) → Node → Outcome Node
  unfolding fill_block block_stmts
  fill_blocks call (function p b) =
      fill_block call first_block (count (stmts_in b)) 0 (function p b)
  fill_blocks call (while_expr c b) =
      fill_block call first_block (count (stmts_in b)) 0 (while_expr c b)
  fill_blocks call (defer_stmt b) =
      fill_block call first_block (count (stmts_in b)) 0 (defer_stmt b)
  fill_blocks call (if_expr c no_body e) = ok (if_expr c no_body e)
  fill_blocks call (if_expr c (body ts) e) = do
    n ← fill_block call first_block (count ts) 0 (if_expr c (body ts) e)
    fill_block call else_block (count (block_stmts else_block n)) 0 n
  fill_blocks call n = ok n

  -- `AST_fill_variable_types`
  unfoldable pub fill_variable_types : ℕ → Node → Outcome Node
  unfolding fill_blocks
  fill_variable_types zero n = out_of_fuel
  fill_variable_types (suc depth) n = fill_blocks (fill_variable_types depth) n

  -- The loop over the parameters.
  unfoldable pub fill_parameters : ℕ → List Bytes → List Ty → Node → Outcome Node
  unfolding fill_type
  fill_parameters zero args types n = ok n
  fill_parameters (suc arity) (arg ∷ args) (t ∷ types) n = do
    n' ← fill_type store fuel m arg t n
    fill_parameters arity args types n'
  fill_parameters (suc arity) _ _ n = fault

  -- `AST_fill_parameter_types`
  unfoldable pub fill_parameter_types : Node → Outcome Node
  unfolding fill_parameters
  fill_parameter_types null = ok null
  fill_parameter_types (function null b) = ok (function null b)
  fill_parameter_types (function p no_body) = ok (function p no_body)
  fill_parameter_types (function (prototype p) b) =
      fill_parameters p.arity p.args p.types (function (prototype p) b)
  fill_parameter_types _ = fault
