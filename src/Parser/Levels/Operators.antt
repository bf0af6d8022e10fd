-- ===== src/Parser/Levels/Operators.antt =====
-- The operators of the levels by how loosely they bind, and the `switch`es of src/parser.c against that.
use luka.Prelude.{ℕ, ◌==◌, ◌≡◌, refl, Option, none, some, if◌then◌else◌}
use luka.Token.{
  TokType, t_star, t_slash, t_percent, t_plus, t_minus, t_open_ang, t_close_ang, t_leq, t_geq,
  t_eqeq, t_neq, t_shl, t_shr, t_ampercent, t_pipe, t_caret,
}
use luka.Ast.{
  BinOp, binop_add, binop_subtract, binop_multiply, binop_divide, binop_modulos, binop_lesser,
  binop_greater, binop_equals, binop_neq, binop_leq, binop_geq, binop_shl, binop_shr, binop_band,
  binop_bxor, binop_bor,
}
use luka.Parser.Levels.{
  factor_operator, term_operator, shift_operator, comparison_operator, equality_operator,
  band_operator, bxor_operator, bor_operator,
}

-- The operator that a token stands for.
unfoldable pub operator_of : TokType → Option BinOp
operator_of t_star = some binop_multiply
operator_of t_slash = some binop_divide
operator_of t_percent = some binop_modulos
operator_of t_plus = some binop_add
operator_of t_minus = some binop_subtract
operator_of t_shl = some binop_shl
operator_of t_shr = some binop_shr
operator_of t_open_ang = some binop_lesser
operator_of t_close_ang = some binop_greater
operator_of t_leq = some binop_leq
operator_of t_geq = some binop_geq
operator_of t_eqeq = some binop_equals
operator_of t_neq = some binop_neq
operator_of t_ampercent = some binop_band
operator_of t_caret = some binop_bxor
operator_of t_pipe = some binop_bor
operator_of _ = none

-- How loosely an operator binds; a unary expression has level 0.
unfoldable pub level : BinOp → ℕ
level binop_multiply = 1
level binop_divide = 1
level binop_modulos = 1
level binop_add = 2
level binop_subtract = 2
level binop_shl = 3
level binop_shr = 3
level binop_lesser = 4
level binop_greater = 4
level binop_leq = 4
level binop_geq = 4
level binop_equals = 5
level binop_neq = 5
level binop_band = 6
level binop_bxor = 7
level binop_bor = 8

-- An operator, if it is one of the level.
unfoldable pub at_level : ℕ → Option BinOp → Option BinOp
unfolding level
at_level k none = none
at_level k (some op) = if level op == k then some op else none

-- The `switch` of a level has the operators of the level.
abbrev pub IsLevel : ℕ → (TokType → Option BinOp) → Type 0
IsLevel k operator = (t : TokType) → operator t ≡ at_level k (operator_of t)

pub factor-IsLevel : IsLevel 1 factor_operator
unfolding factor_operator operator_of at_level level
factor-IsLevel t_star = refl
factor-IsLevel _ = refl

pub term-IsLevel : IsLevel 2 term_operator
unfolding term_operator operator_of at_level level
term-IsLevel t_plus = refl
term-IsLevel _ = refl

pub shift-IsLevel : IsLevel 3 shift_operator
unfolding shift_operator operator_of at_level level
shift-IsLevel t_shl = refl
shift-IsLevel _ = refl

pub comparison-IsLevel : IsLevel 4 comparison_operator
unfolding comparison_operator operator_of at_level level
comparison-IsLevel t_leq = refl
comparison-IsLevel _ = refl

pub equality-IsLevel : IsLevel 5 equality_operator
unfolding equality_operator operator_of at_level level
equality-IsLevel t_eqeq = refl
equality-IsLevel _ = refl

pub band-IsLevel : IsLevel 6 band_operator
unfolding band_operator operator_of at_level level
band-IsLevel t_ampercent = refl
band-IsLevel _ = refl

pub bxor-IsLevel : IsLevel 7 bxor_operator
unfolding bxor_operator operator_of at_level level
bxor-IsLevel t_caret = refl
bxor-IsLevel _ = refl

pub bor-IsLevel : IsLevel 8 bor_operator
unfolding bor_operator operator_of at_level level
bor-IsLevel t_pipe = refl
bor-IsLevel _ = refl
