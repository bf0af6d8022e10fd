-- ===== src/Parser/Progress/Levels.antt =====
-- src/parser.c: an expression of binary operators goes past a token if its operands do.
use luka.Prelude.{ℕ, suc, ◌≤◌, List, Option, none, some, arith}
use luka.Token.{Token, TokType}
use luka.Ast.{BinOp, Node}
use luka.Parser.State.{Parse}
use luka.Parser.Levels.{
  binary_rest, binary_level, parse_factor, parse_term, parse_shift, parse_comparison,
  parse_equality, parse_band, parse_bxor, parse_bor, parse_assignment,
}
use luka.Parser.Progress.{
  Goes, Advances, stay, done, either, step, From-stop_exited, From-current, From-advance,
  From-match,
}

module _ (tokens : List Token) {b : ℕ} where
  binary_rest-From :
      (o : Option BinOp) {operand : Parse Node} (lhs : Node) {k : ℕ}
      → Advances tokens b operand
      → b ≤ k
      → Goes tokens k k (binary_rest tokens o operand lhs)
  unfolding binary_rest
  binary_rest-From none lhs h le = stay _
  binary_rest-From (some op) lhs h le =
      step (From-advance _) λ _. step (h.at _ (omega arith)) λ rhs. done _ (omega arith)

  pub binary_level-Advances :
      (operator : TokType → Option BinOp) {operand : Parse Node}
      → Advances tokens b operand
      → Advances tokens b (binary_level tokens operator operand)
  unfolding binary_level
  binary_level-Advances operator h = record {
    at = λ k le.
        step (h.at k le)
          λ lhs. step (From-current _) λ t. binary_rest-From (operator t.type) lhs h (omega arith);
  }

  bor-Advances :
      {unary : Parse Node} → Advances tokens b unary → Advances tokens b (parse_bor tokens unary)
  unfolding parse_bor parse_bxor parse_band parse_equality parse_comparison parse_shift parse_term
      parse_factor
  bor-Advances h =
      let term = binary_level-Advances _ (binary_level-Advances _ h) in
      let comparison = binary_level-Advances _ (binary_level-Advances _ term) in
      let band = binary_level-Advances _ (binary_level-Advances _ comparison) in
      binary_level-Advances _ (binary_level-Advances _ band)

  pub parse_assignment-Advances :
      {unary expression : Parse Node}
      → Advances tokens b unary
      → Advances tokens (suc b) expression
      → Advances tokens b (parse_assignment tokens unary expression)
  unfolding parse_assignment
  parse_assignment-Advances hu he = record {
    at = λ k le. step ((bor-Advances hu).at k le) λ lhs. step (From-match _ _) λ x.
        either _ (stay _) (
          step (From-advance _) λ _.
            step (he.at _ (omega arith))
              λ rhs. either _ (done _ (omega arith)) (From-stop_exited _));
  }
