-- ===== src/Parser/Progress/Unary.antt =====
-- src/parser.c: `parser_parse_primary` and `parser_parse_unary` go past a token.
use luka.Prelude.{ℕ, zero, suc, ◌≤◌, List, arith, Bytes}
use luka.Token.{
  Token, TokType, t_identifier, t_number, t_char, t_string, t_null, t_true, t_false, t_builtin,
  t_open_paren, t_open_bracket, t_bang, t_minus, t_ampercent, t_star, t_tilde,
}
use luka.Ast.{Node}
use luka.Parser.State.{Libc}
use luka.Parser.Literal.{is_type_token}
use luka.Parser.Primary.{Parsers}
use luka.Parser.Unary.{
  one_token, parse_type_expr, primary_of, parse_primary, unary_operand, parse_reference, unary_of,
  parse_unary,
}
use luka.Parser.Progress.{
  Goes, Advances, weaken, stay, done, either, step, From-back, From-current, From-stop_exited,
  From-advance, From-match,
}
use luka.Parser.Progress.Types.{parse_type-From_false}
use luka.Parser.Progress.Primary.{
  Ready, call_if-From, parse_paren-From, parse_array_literal-From, parse_ident-From,
}

module _ (libc : Libc) (tokens : List Token) (parsers : Parsers) where
  one_token-From : (n : Node) {k : ℕ} → Goes tokens k (suc k) (one_token libc tokens parsers n)
  unfolding one_token
  one_token-From n = step (From-advance _) λ _. stay _

  -- The type is read from one token back; the first token of a file starts no expression.
  type_expr-From : (k : ℕ) → 1 ≤ k → Goes tokens k (suc k) (parse_type_expr libc tokens parsers)
  unfolding parse_type_expr
  type_expr-From zero l = absurd (omega arith)
  type_expr-From (suc k) l =
      step From-back
        λ _. step (parse_type-From_false libc tokens) λ t. step (From-advance _) λ _. stay _

  module _ {b : ℕ} (r : Ready tokens (suc (suc b)) parsers) where
    primary_of-From :
        (content : Bytes) (t : TokType) {k : ℕ}
        → suc b ≤ k
        → Goes tokens k (suc k) (primary_of libc tokens parsers content t)
    unfolding primary_of
    primary_of-From content t_identifier l = parse_ident-From libc tokens parsers r l
    primary_of-From content t_number l = one_token-From _
    primary_of-From content t_char l = one_token-From _
    primary_of-From content t_open_paren l = parse_paren-From libc tokens parsers r l
    primary_of-From content t_open_bracket l = parse_array_literal-From libc tokens parsers r l
    primary_of-From content t_string l = one_token-From _
    primary_of-From content t_null l = one_token-From _
    primary_of-From content t_true l = one_token-From _
    primary_of-From content t_false l = one_token-From _
    primary_of-From content t_builtin l =
        step (From-advance _) λ _. call_if-From libc tokens parsers r _ (omega arith)
    primary_of-From content t l =
        either (is_type_token t) (type_expr-From _ (omega arith)) (From-stop_exited _)

    pub parse_primary-Advances : Advances tokens (suc b) (parse_primary libc tokens parsers)
    unfolding parse_primary
    parse_primary-Advances = record {
      at = λ k l. step (From-current _) λ t. primary_of-From t.content t.type l;
    }

    unary_operand-From :
        (make : Node → Node) {k : ℕ}
        → suc b ≤ k
        → Goes tokens k (suc k) (unary_operand libc tokens parsers make)
    unfolding unary_operand
    unary_operand-From make l =
        step (From-advance _) λ _. step (r.unary.at _ (omega arith)) λ e. done _ (omega arith)

    reference-From :
        {k : ℕ} → suc b ≤ k → Goes tokens k (suc k) (parse_reference libc tokens parsers)
    unfolding parse_reference
    reference-From l = step (From-advance _) λ _. step (From-match _ _) λ x.
        step (either x (weaken (From-advance _) (omega arith)) (stay _))
          λ _. step (r.unary.at _ (omega arith)) λ e. done _ (omega arith)

    unary_of-From :
        (t : TokType) {k : ℕ} → suc b ≤ k → Goes tokens k (suc k) (unary_of libc tokens parsers t)
    unfolding unary_of
    unary_of-From t_bang l = unary_operand-From _ l
    unary_of-From t_minus l = unary_operand-From _ l
    unary_of-From t_ampercent l = reference-From l
    unary_of-From t_star l = unary_operand-From _ l
    unary_of-From t_tilde l = unary_operand-From _ l
    unary_of-From _ l = parse_primary-Advances.at _ l

    pub parse_unary-Advances : Advances tokens (suc b) (parse_unary libc tokens parsers)
    unfolding parse_unary
    parse_unary-Advances = record { at = λ k l. step (From-current _) λ t. unary_of-From t.type l }
