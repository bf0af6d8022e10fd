-- ===== src/Checker/Blind.antt =====
-- What the type checker does not look at.
use luka.Prelude.{ℕ, ◌≡◌, refl}
use luka.Types.GetType.{get_type}
use luka.Ast.{BinOp, Node, binary_expr, Store}
use luka.Checker.{check_operands, check_expr}

module _ (store : Store) (fuel m : ℕ) where
  operands-get_type :
      (lhs lhs' rhs : Node)
      → get_type store fuel m lhs ≡ get_type store fuel m lhs'
      → check_operands store fuel m lhs rhs ≡ check_operands store fuel m lhs' rhs
  unfolding check_operands
  operands-get_type lhs lhs' rhs h = rw h refl

  -- The left operand of a binary expression is never checked: operands of one type, however ill-formed,
  -- may stand for each other, and so may the operators.
  pub check_expr-binary_expr :
      (op op' : BinOp) (lhs lhs' rhs : Node)
      → get_type store fuel m lhs ≡ get_type store fuel m lhs'
      → check_expr store fuel m (binary_expr op lhs rhs)
        ≡ check_expr store fuel m (binary_expr op' lhs' rhs)
  unfolding check_expr
  check_expr-binary_expr op op' lhs lhs' rhs h = rw (operands-get_type lhs lhs' rhs h) refl
