-- ===== src/Parser/Levels.antt =====
-- src/parser.c: the levels of binary operators, `parser_parse_assignment` to `parser_parse_factor`.
pub mod Operators
pub mod Grammar
use luka.Prelude.{Bool, true, false, not, List, Option, none, some, if◌then◌else◌}
use luka.ReturnCode.{general_error}
use luka.Token.{
  Token, TokType, t_star, t_slash, t_percent, t_plus, t_minus, t_open_ang, t_close_ang, t_leq,
  t_geq, t_eqeq, t_neq, t_shl, t_shr, t_ampercent, t_pipe, t_caret, t_equals,
}
use luka.Ast.{
  BinOp, binop_add, binop_subtract, binop_multiply, binop_divide, binop_modulos, binop_lesser,
  binop_greater, binop_equals, binop_neq, binop_leq, binop_geq, binop_shl, binop_shr, binop_band,
  binop_bxor, binop_bor, unop_deref, Node, unary_expr, binary_expr, variable, assignment_expr,
  get_expr, array_deref,
}
use luka.Parser.State.{Parse, pure, ◌>>=◌, ◌>>◌, stop_exited, current, match, advance}

-- What the `switch` of each level makes of a token.
unfoldable pub factor_operator : TokType → Option BinOp
factor_operator t_slash = some binop_divide
factor_operator t_star = some binop_multiply
factor_operator t_percent = some binop_modulos
factor_operator _ = none

unfoldable pub term_operator : TokType → Option BinOp
term_operator t_minus = some binop_subtract
term_operator t_plus = some binop_add
term_operator _ = none

unfoldable pub shift_operator : TokType → Option BinOp
shift_operator t_shl = some binop_shl
shift_operator t_shr = some binop_shr
shift_operator _ = none

unfoldable pub comparison_operator : TokType → Option BinOp
comparison_operator t_close_ang = some binop_greater
comparison_operator t_geq = some binop_geq
comparison_operator t_open_ang = some binop_lesser
comparison_operator t_leq = some binop_leq
comparison_operator _ = none

unfoldable pub equality_operator : TokType → Option BinOp
equality_operator t_neq = some binop_neq
equality_operator t_eqeq = some binop_equals
equality_operator _ = none

unfoldable pub band_operator : TokType → Option BinOp
band_operator t_ampercent = some binop_band
band_operator _ = none

unfoldable pub bxor_operator : TokType → Option BinOp
bxor_operator t_caret = some binop_bxor
bxor_operator _ = none

unfoldable pub bor_operator : TokType → Option BinOp
bor_operator t_pipe = some binop_bor
bor_operator _ = none

-- What may stand to the left of `=`.
unfoldable pub is_assignment_target : Node → Bool
is_assignment_target (variable name t m) = true
is_assignment_target (unary_expr unop_deref e m) = true
is_assignment_target (get_expr v key is_enum) = true
is_assignment_target (array_deref v index) = true
is_assignment_target _ = false

module _ (tokens : List Token) where
  -- A level with its operators, and the level below for both sides; `rest` is what follows the left one.
  unfoldable pub binary_rest : Option BinOp → Parse Node → Node → Parse Node
  binary_rest none operand lhs = pure lhs
  binary_rest (some op) operand lhs = do
    advance tokens
    rhs ← operand
    pure (binary_expr op lhs rhs)

  unfoldable pub binary_level : (TokType → Option BinOp) → Parse Node → Parse Node
  binary_level operator operand = do
    lhs ← operand
    token ← current tokens
    binary_rest (operator token.type) operand lhs

  unfoldable pub parse_factor : Parse Node → Parse Node
  parse_factor unary = binary_level factor_operator unary

  unfoldable pub parse_term : Parse Node → Parse Node
  parse_term unary = binary_level term_operator (parse_factor unary)

  unfoldable pub parse_shift : Parse Node → Parse Node
  parse_shift unary = binary_level shift_operator (parse_term unary)

  unfoldable pub parse_comparison : Parse Node → Parse Node
  parse_comparison unary = binary_level comparison_operator (parse_shift unary)

  unfoldable pub parse_equality : Parse Node → Parse Node
  parse_equality unary = binary_level equality_operator (parse_comparison unary)

  unfoldable pub parse_band : Parse Node → Parse Node
  parse_band unary = binary_level band_operator (parse_equality unary)

  unfoldable pub parse_bxor : Parse Node → Parse Node
  parse_bxor unary = binary_level bxor_operator (parse_band unary)

  unfoldable pub parse_bor : Parse Node → Parse Node
  parse_bor unary = binary_level bor_operator (parse_bxor unary)

  -- `parser_parse_assignment`; the target is looked at behind the right side.
  unfoldable pub parse_assignment : Parse Node → Parse Node → Parse Node
  parse_assignment unary expression = do
    lhs ← parse_bor unary
    assigns ← match tokens t_equals
    if not assigns then pure lhs else do
      advance tokens
      rhs ← expression
      if is_assignment_target lhs then pure (assignment_expr lhs rhs) else stop_exited general_error
