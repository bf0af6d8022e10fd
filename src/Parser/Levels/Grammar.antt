-- ===== src/Parser/Levels/Grammar.antt =====
-- The levels of binary operators as a grammar over tokens, and src/parser.c against it. Of the levels
-- design/grammer.ebnf has those without shifts and bitwise operators.
use luka.Prelude.{
  ℕ, suc, ◌+◌, ◌<◌, ◌≡◌, ◌↔◌, refl, sym, ap, ◌∙◌, Bool, true, false, Option, none, some, List,
  length, get_elem?, ltb, arith, if◌then◌else◌,
}
use mathlib.Core.Path.{subst}
use luka.ReturnCode.{ok, exited, returned, fault, out_of_fuel, Outcome}
use luka.Token.{Token, TokType}
use luka.Ast.{BinOp, Node, binary_expr}
use luka.Parser.State.{Parser, Parse, pure, bind, ◌>>=◌, found, token_ahead, current, advance}
use luka.Parser.Behind.{bind-ok}
use luka.Parser.Levels.{
  binary_rest, binary_level, parse_factor, parse_term, parse_shift, parse_comparison,
  parse_equality, parse_band, parse_bxor, parse_bor, factor_operator, term_operator, shift_operator,
  comparison_operator, equality_operator, band_operator, bxor_operator, bor_operator,
}
use luka.Parser.Levels.Operators.{
  operator_of, at_level, IsLevel, factor-IsLevel, term-IsLevel, shift-IsLevel, comparison-IsLevel,
  equality-IsLevel, band-IsLevel, bxor-IsLevel, bor-IsLevel,
}

-- The cursor behind the token that it is on.
abbrev pub stepped : Parser → Parser
stepped p = record p { index = p.index + 1 }

-- What is read from a cursor to another as an expression of a level. A unary expression has level 0. One of
-- a higher level is one of the level below, with no operator of the level behind it; or one of the level
-- below, an operator of the level, a token behind that and again one of the level below: each level has
-- one operator at most.
module _ (tokens : List Token) (unary : Parse Node) where
  pub data Level : ℕ → Parser → Node → Parser → Type 0 where
    leaf : {n : Node} {p q : Parser} → unary p ≡ ok (n, q) → Level 0 p n q
    lower :
        {k : ℕ} {n : Node} {p q : Parser} (t : Token)
        → Level k p n q
        → get_elem? tokens (q.index + 0) ≡ some t
        → at_level (suc k) (operator_of t.type) ≡ none
        → Level (suc k) p n q
    binary :
        {k : ℕ} {l r : Node} {p q q' : Parser} (t : Token) (op : BinOp)
        → Level k p l q
        → get_elem? tokens (q.index + 0) ≡ some t
        → at_level (suc k) (operator_of t.type) ≡ some op
        → q.index + 1 < length tokens
        → Level k (stepped q) r q'
        → Level (suc k) p (binary_expr op l r) q'

-- What two steps give comes from what the first one gives.
outcome-bind :
    {A B : Type 0} (f : A → Parse B) (r : Outcome (A × Parser)) {s : B × Parser}
    → bind f r ≡ ok s
    → (a : A) × (q : Parser) × (r ≡ ok (a, q)) × (f a q ≡ ok s)
unfolding bind
outcome-bind f (ok (a, q)) e = (a, q, refl, e)
outcome-bind f (returned c) e = cc
outcome-bind f (exited c) e = cc
outcome-bind f fault e = cc
outcome-bind f out_of_fuel e = cc

steps :
    {A B : Type 0} (m : Parse A) (f : A → Parse B) (p : Parser) {s : B × Parser}
    → (m >>= f) p ≡ ok s
    → (a : A) × (q : Parser) × (m p ≡ ok (a, q)) × (f a q ≡ ok s)
unfolding ◌>>=◌
steps m f p e = outcome-bind f (m p) e

module _ (tokens : List Token) where
  found-some :
      (o : Option Token) (p : Parser) {t : Token} {q : Parser}
      → ◌≡◌ {A = Outcome (Token × Parser)} (found o p) (ok (t, q))
      → (o ≡ some t) × (p ≡ q)
  unfolding found
  found-some none p e = cc
  found-some (some u) p e = (cc, cc)

  current-get_elem? :
      (p q : Parser) (t : Token)
      → ◌≡◌ {A = Outcome (Token × Parser)} (current tokens p) (ok (t, q))
      → (get_elem? tokens (p.index + 0) ≡ some t) × (p ≡ q)
  unfolding current token_ahead found
  current-get_elem? p q t e = found-some (get_elem? tokens (p.index + 0)) p e

  get_elem?-current :
      (p : Parser) (t : Token)
      → get_elem? tokens (p.index + 0) ≡ some t
      → current tokens p ≡ ok (t, p)
  unfolding current token_ahead found
  get_elem?-current p t e = rw e refl

  advance-stepped :
      (p q : Parser)
      → ◌≡◌ {A = Outcome (Unit {0} × Parser)} (advance tokens p) (ok (tt, q))
      → (p.index + 1 < length tokens) × (stepped p ≡ q)
  unfolding advance
  advance-stepped p q e = go (ltb (p.index + 1) (length tokens)) refl e
    where
      go :
          (b : Bool)
          → ltb (p.index + 1) (length tokens) ≡ b
          → ◌≡◌ {A = Outcome (Unit {0} × Parser)}
              (if b then ok (tt, stepped p) else fault)
              (ok (tt, q))
          → (p.index + 1 < length tokens) × (stepped p ≡ q)
      go true l e = (ground (arith, l), cc)
      go false l e = cc

  stepped-advance :
      (p : Parser) → p.index + 1 < length tokens → advance tokens p ≡ ok (tt, stepped p)
  unfolding advance
  stepped-advance p less = ground arith

  module _ (unary : Parse Node) where
    -- `m` reads the expressions of a level, and only these.
    record Reads (k : ℕ) (m : Parse Node) : Type 0 where
      only : (p : Parser) (n : Node) (q : Parser) → m p ≡ ok (n, q) → Level tokens unary k p n q
      every : (p : Parser) (n : Node) (q : Parser) → Level tokens unary k p n q → m p ≡ ok (n, q)

    unary-Reads : Reads 0 unary
    unary-Reads = record { only = λ p n q e. leaf e; every = λ p n q h. at_leaf h }
      where
        at_leaf :
            {p : Parser} {n : Node} {q : Parser} → Level tokens unary 0 p n q → unary p ≡ ok (n, q)
        at_leaf (leaf e) = e

    module _ (k : ℕ) (operator : TokType → Option BinOp) (operand : Parse Node)
        (is_level : IsLevel (suc k) operator) (h : Reads k operand) where
      -- What stands behind the left side.
      rest-only :
          (p : Parser) (l : Node) (q : Parser) (t : Token) (o : Option BinOp) (n : Node)
          (q' : Parser)
          → Level tokens unary k p l q
          → get_elem? tokens (q.index + 0) ≡ some t
          → at_level (suc k) (operator_of t.type) ≡ o
          → binary_rest tokens o operand l q ≡ ok (n, q')
          → Level tokens unary (suc k) p n q'
      unfolding binary_rest pure
      rest-only p l q t none n q' left at is e =
          let same_node : l ≡ n = (cc) in
          let same_parser : q ≡ q' = (cc) in
          subst (λ x. Level tokens unary (suc k) p x q') same_node
            (subst (λ x. Level tokens unary (suc k) p l x) same_parser (lower t left at is))
      rest-only p l q t (some op) n q' left at is e =
          let (u, q1, e1, e2) = steps (advance tokens) _ q e in
          let over = advance-stepped q q1 e1 in
          let (r, q2, e3, e4) = steps operand _ q1 e2 in
          let node : binary_expr op l r ≡ n = (cc) in
          let parser : q2 ≡ q' = (cc) in
          let right = h.only (stepped q) r q2 (ap operand over.1 ∙ e3) in
          subst (λ x. Level tokens unary (suc k) p x q') node
            (subst (λ x. Level tokens unary (suc k) p (binary_expr op l r) x) parser
              (binary t op left at is over.0 right))

      binary_only :
          (p : Parser) (n : Node) (q : Parser)
          → binary_level tokens operator operand p ≡ ok (n, q)
          → Level tokens unary (suc k) p n q
      unfolding binary_level
      binary_only p n q' e =
          let (l, q, e1, e2) = steps operand _ p e in
          let (t, q1, e3, e4) = steps (current tokens) _ q e2 in
          let at = current-get_elem? q q1 t e3 in
          rest-only p l q t _ n q' (h.only p l q e1) at.0 refl (
            subst (λ x. binary_rest tokens x operand l q ≡ ok (n, q')) (is_level t.type)
              (subst (λ x. binary_rest tokens (operator t.type) operand l x ≡ ok (n, q')) (sym at.1)
                e4))

      binary_every :
          {p : Parser} {n : Node} {q : Parser}
          → Level tokens unary (suc k) p n q
          → binary_level tokens operator operand p ≡ ok (n, q)
      unfolding binary_level binary_rest pure
      binary_every {p} {n} {q} (lower t below at no_operator) =
          bind-ok operand _ p (h.every p n q below)
          ∙ bind-ok (current tokens) _ q (get_elem?-current q t at)
          ∙ rw (is_level t.type ∙ no_operator) refl
      binary_every {p} {q = q'} (binary {l = l} {r = r} {q = q} t op left at is less right) =
          bind-ok operand _ p (h.every p l q left)
          ∙ bind-ok (current tokens) _ q (get_elem?-current q t at)
          ∙ rw (is_level t.type ∙ is) (
              bind-ok (advance tokens) _ q (stepped-advance q less)
              ∙ bind-ok operand _ (stepped q) (h.every (stepped q) r q' right))

      binary_level-Reads : Reads (suc k) (binary_level tokens operator operand)
      binary_level-Reads = record { only = binary_only; every = λ p n q h. binary_every h }

    bor-Reads : Reads 8 (parse_bor tokens unary)
    unfolding parse_bor parse_bxor parse_band parse_equality parse_comparison parse_shift parse_term
        parse_factor
    bor-Reads = binary_level-Reads 7 bor_operator _ bor-IsLevel (
        binary_level-Reads 6 bxor_operator _ bxor-IsLevel (
          binary_level-Reads 5 band_operator _ band-IsLevel (
            binary_level-Reads 4 equality_operator _ equality-IsLevel (
              binary_level-Reads 3 comparison_operator _ comparison-IsLevel (
                binary_level-Reads 2 shift_operator _ shift-IsLevel (
                  binary_level-Reads 1 term_operator _ term-IsLevel
                    (binary_level-Reads 0 factor_operator _ factor-IsLevel unary-Reads)))))))

-- The parser of binary operators gives a node exactly when the tokens from the cursor to where it is left
-- are an expression of the grammar's highest level, over what `unary` reads, and the node is its tree: the
-- operators are those of the tokens, each level binds tighter than the next and has one operator at most,
-- and a level without an operator is not followed by one of its own.
pub parse_bor-Level :
    (tokens : List Token) (unary : Parse Node) (p : Parser) (n : Node) (q : Parser)
    → (parse_bor tokens unary p ≡ ok (n, q)) ↔ Level tokens unary 8 p n q
parse_bor-Level tokens unary p n q = let h = bor-Reads tokens unary in (h.only p n q, h.every p n q)
