-- ===== src/Parser/Progress/Statements.antt =====
-- src/parser.c: expressions and statements go past a token, and the recursion ends within its fuel.
use luka.Prelude.{ℕ, zero, suc, ◌+◌, ◌≤◌, ◌<◌, Bool, List, length, arith}
use luka.Token.{Token, TokType, t_if, t_while, t_return, t_let, t_break, t_struct, t_enum, t_defer}
use luka.Parser.State.{Libc, Parser}
use luka.Parser.Primary.{Parsers}
use luka.Parser.Statements.{
  parse_else, parse_condition, expression_of, parse_expression, parse_let, parse_return,
  parse_break, parse_defer, parse_expression_statement, statement_of, parse_statement,
  more_statements, parse_statements, parsers_at,
}
use luka.Parser.Progress.{
  Goes, Advances, Within, weaken, beyond, stay, done, either, step, From-back, From-current,
  From-stop_exited, From-advance, From-match, From-expect, From-expect_advance, From-match_advance,
}
use luka.Parser.Progress.Types.{parse_type-From_true, parse_type-From_false}
use luka.Parser.Progress.Levels.{parse_assignment-Advances}
use luka.Parser.Progress.Primary.{Ready}
use luka.Parser.Progress.Unary.{parse_unary-Advances}
use luka.Parser.Progress.Declarations.{parse_struct_definition-From, parse_enum_definition-From}

module _ (libc : Libc) (tokens : List Token) (parsers : Parsers) {b : ℕ}
    (r : Ready tokens (suc (suc b)) parsers) where
  else-From : {k : ℕ} → suc b ≤ k → Goes tokens k k (parse_else libc tokens parsers)
  unfolding parse_else
  else-From l = step (From-expect _ _) λ x. either _ (stay _) (
      step (From-advance _) λ _. step (From-expect _ _) λ y.
        either y
          (step (From-advance _)
            λ _. step (r.expression.at _ (omega arith)) λ e. done _ (omega arith))
          (step (r.statements _ (omega arith)) λ stmts. done _ (omega arith)))

  condition-From :
      {k : ℕ} → suc b ≤ k → Goes tokens k (suc (suc k)) (parse_condition libc tokens parsers)
  unfolding parse_condition
  condition-From l = step (From-advance _) λ _. step (From-match_advance _ _) λ _.
      step (r.expression.at _ (omega arith)) λ cond.
        step (From-match_advance _ _)
          λ _. step From-back λ _. step (r.statements _ (omega arith)) λ stmts. done _ (omega arith)

  expression_of-From :
      (t : TokType) {k : ℕ}
      → suc b ≤ k
      → Goes tokens k (suc k) (expression_of libc tokens parsers t)
  unfolding expression_of
  expression_of-From t_if l = step (condition-From l) λ x.
      step (else-From (omega arith))
        λ e. step From-back λ _. step (From-advance _) λ _. done _ (omega arith)
  expression_of-From t_while l = step (condition-From l) λ x. done _ (omega arith)
  expression_of-From _ l =
      (parse_assignment-Advances tokens (parse_unary-Advances libc tokens parsers r)
          r.expression).at
        _ l

  pub parse_expression-Advances : Advances tokens (suc b) (parse_expression libc tokens parsers)
  unfolding parse_expression
  parse_expression-Advances = record {
    at = λ k l. step (From-current _) λ t. step (expression_of-From t.type l) λ n.
        step (From-match _ _) λ x. either _ (stay _) (
          step (parse_type-From_false libc tokens)
            λ u. step (From-advance _) λ _. done _ (omega arith));
  }

  pub parse_let-From :
      (is_global : Bool) {k : ℕ}
      → b ≤ k
      → Goes tokens k (suc (suc k)) (parse_let libc tokens parsers is_global)
  unfolding parse_let
  parse_let-From g l = step (From-expect _ _) λ m.
      step (either m (weaken (From-advance _) (omega arith)) (stay _)) λ _.
        step (From-expect_advance _ _) λ _. step (From-current _) λ name.
          step (From-expect _ _) λ x.
            step (either x (parse_type-From_true libc tokens) (stay _)) λ t.
              step (From-expect_advance _ _) λ _. step (From-advance _) λ _.
                step (r.expression.at _ (omega arith))
                  λ e. step (From-match_advance _ _) λ _. done _ (omega arith)

  return-From : {k : ℕ} → suc b ≤ k → Goes tokens k (suc k) (parse_return libc tokens parsers)
  unfolding parse_return
  return-From l = step (From-advance _) λ _.
      step (r.expression.at _ (omega arith))
        λ e. step (From-match_advance _ _) λ _. done _ (omega arith)

  break-From : {k : ℕ} → Goes tokens k (suc k) (parse_break libc tokens parsers)
  unfolding parse_break
  break-From = step (From-expect_advance _ _) λ _. step (From-advance _) λ _. done _ (omega arith)

  defer-From : {k : ℕ} → suc (suc b) ≤ k → Goes tokens k (suc k) (parse_defer libc tokens parsers)
  unfolding parse_defer
  defer-From l = step (From-advance _) λ _. step (From-match _ _) λ x.
      either x
        (step From-back λ _.
          weaken
            (step (r.statements _ (omega arith)) λ stmts. step (From-match_advance _ _) λ _. stay _)
            (omega arith))
        (step (r.expression.at _ (omega arith))
          λ e. step (From-match_advance _ _) λ _. done _ (omega arith))

  expression_statement-From :
      {k : ℕ}
      → suc (suc b) ≤ k
      → Goes tokens k (suc k) (parse_expression_statement libc tokens parsers)
  unfolding parse_expression_statement
  expression_statement-From l = step (r.expression.at _ l) λ e. step (From-current _) λ t.
      either _ (step (From-advance _) λ _. done _ (omega arith))
        (either _ (stay _) (From-stop_exited _))

  statement_of-From :
      (t : TokType) {k : ℕ}
      → suc (suc b) ≤ k
      → Goes tokens k (suc k) (statement_of libc tokens parsers t)
  unfolding statement_of
  statement_of-From t_return l = return-From (omega arith)
  statement_of-From t_let l = weaken (parse_let-From _ (omega arith)) (omega arith)
  statement_of-From t_break l = break-From
  statement_of-From t_struct l =
      weaken (parse_struct_definition-From libc tokens parsers r (omega arith)) (omega arith)
  statement_of-From t_enum l =
      weaken (parse_enum_definition-From libc tokens parsers r (omega arith)) (omega arith)
  statement_of-From t_defer l = defer-From l
  statement_of-From _ l = expression_statement-From l

  more_statements-From :
      (fuel : ℕ) {k : ℕ}
      → suc b ≤ k
      → length tokens < fuel + k
      → Goes tokens k k (more_statements libc tokens parsers fuel)
  unfolding more_statements parse_statement
  more_statements-From zero l h = beyond (omega arith)
  more_statements-From (suc fuel) l h = step (From-expect _ _) λ x. either x (stay _) (
      step (From-advance _) λ _.
        step (step (From-current _) λ t. statement_of-From t.type (omega arith)) λ stmt.
          step From-back λ _.
            step (more_statements-From fuel (omega arith) (omega arith))
              λ stmts. done _ (omega arith))

  pub parse_statements-From :
      {k : ℕ} → suc b ≤ k → Goes tokens k (suc (suc k)) (parse_statements libc tokens parsers)
  unfolding parse_statements
  parse_statements-From l = step (From-expect_advance _ _) λ _.
      step (more_statements-From (suc (length tokens)) (omega arith) (omega arith))
        λ stmts. step (From-advance _) λ _. stay _

-- With as much fuel as there are tokens left, the calls make their progress.
pub parsers_at-Ready :
    (libc : Libc) (tokens : List Token) (fuel b : ℕ)
    → length tokens < fuel + suc b
    → Ready tokens (suc b) (parsers_at libc tokens fuel)
unfolding parsers_at
parsers_at-Ready libc tokens zero b h = record {
  unary = record { at = λ k l. beyond (omega arith) };
  expression = record { at = λ k l. beyond (omega arith) };
  statements = λ k l. beyond (omega arith);
}
parsers_at-Ready libc tokens (suc fuel) b h =
    let r = parsers_at-Ready libc tokens fuel (suc b) (omega arith) in
    record {
      unary = parse_unary-Advances libc tokens _ r;
      expression = parse_expression-Advances libc tokens _ r;
      statements = λ k l. parse_statements-From libc tokens _ r l;
    }

-- Reading an expression from a token that is not the file's first: the program stops, or the cursor is
-- left behind where it began and on a token of the file.
pub expression-Within :
    (libc : Libc) (tokens : List Token) (p : Parser)
    → 1 ≤ p.index
    → p.index < length tokens
    → Within
        (length tokens)
        (suc p.index)
        ((parsers_at libc tokens (suc (length tokens))).expression p)
expression-Within libc tokens p h u =
    let r = parsers_at-Ready libc tokens (suc (length tokens)) 0 (omega arith) in
    (r.expression.at p.index h).run p (omega arith) u
