-- ===== src/Parser/Behind.antt =====
-- src/parser.c: the steps on the cursor, where the tokens behind it are known.
use luka.Prelude.{
  ℕ, zero, suc, ◌+◌, ◌<◌, ◌≡◌, refl, ap, ◌∙◌, Bool, true, List, [], ◌∷◌, ◌++◌, some, length,
  get_elem?, drop, arith,
}
use luka.ReturnCode.{ok, Outcome}
use luka.Token.{Token, TokType, toktype_eq, toktype_eq_refl}
use luka.Parser.State.{
  Parser, Parse, pure, bind, ◌>>=◌, ◌>>◌, found, token_ahead, next, expect, advance, expect_advance,
}

drop-get_elem? :
    (xs : List Token) (i : ℕ) {t : Token} {ts : List Token}
    → drop i xs ≡ t ∷ ts
    → get_elem? xs i ≡ some t
drop-get_elem? [] zero e = cc
drop-get_elem? [] (suc i) e = cc
drop-get_elem? (x ∷ xs) zero e = cc
drop-get_elem? (x ∷ xs) (suc i) e = drop-get_elem? xs i e

drop-suc :
    (xs : List Token) (i : ℕ) {t : Token} {ts : List Token}
    → drop i xs ≡ t ∷ ts
    → drop (suc i) xs ≡ ts
drop-suc [] zero e = cc
drop-suc [] (suc i) e = cc
drop-suc (x ∷ xs) zero e = cc
drop-suc (x ∷ xs) (suc i) e = drop-suc xs i e

drop_next :
    (xs : List Token) (i : ℕ) {t : Token} {ts : List Token}
    → drop i xs ≡ t ∷ ts
    → drop (i + 1) xs ≡ ts
drop_next xs i e = let n : i + 1 ≡ suc i = omega arith in rw n (drop-suc xs i e)

pub drop-lt :
    (xs : List Token) (i : ℕ) {t : Token} {ts : List Token} → drop i xs ≡ t ∷ ts → i < length xs
drop-lt [] zero e = cc
drop-lt [] (suc i) e = cc
drop-lt (x ∷ xs) zero e = omega arith
drop-lt (x ∷ xs) (suc i) e = omega (arith, drop-lt xs i e)

-- A step with a known result.
pub bind-ok :
    {A B : Type 0} (m : Parse A) (f : A → Parse B) (p : Parser) {a : A} {q : Parser}
    → ◌≡◌ {A = Outcome (A × Parser)} (m p) (ok (a, q))
    → (m >>= f) p ≡ f a q
unfolding ◌>>=◌ bind
bind-ok m f p e = rw e refl

module _ (tokens : List Token) where
  -- The tokens behind the cursor.
  abbrev pub Behind : Parser → List Token → Type 0
  Behind p ts = drop (p.index + 1) tokens ≡ ts

  pub next-Behind :
      (p : Parser) {t : Token} {ts : List Token} → Behind p (t ∷ ts) → next tokens p ≡ ok (t, p)
  unfolding next token_ahead found
  next-Behind p e = rw (drop-get_elem? tokens (p.index + 1) e) refl

  pub advance-Behind :
      (p : Parser) {t : Token} {ts : List Token}
      → Behind p (t ∷ ts)
      → advance tokens p ≡ ok (tt, record p { index = p.index + 1 })
  unfolding advance
  advance-Behind p e = let l = drop-lt tokens (p.index + 1) e in ground arith

  -- The token that an advance has gone to.
  unfoldable pub moved : Parser → Parser
  moved p = record p { index = p.index + 1 }

  pub moved-Behind :
      (p : Parser) {t : Token} {ts : List Token} → Behind p (t ∷ ts) → Behind (moved p) ts
  unfolding moved
  moved-Behind p e = drop_next tokens (p.index + 1) e

  -- A step over a token that is known.
  pub over :
      {B : Type 0} (f : Parse B) (p : Parser) {t : Token} {ts : List Token}
      → Behind p (t ∷ ts)
      → (advance tokens >> f) p ≡ f (moved p)
  unfolding moved
  over f p e = bind-ok (advance tokens) (λ _. f) p (advance-Behind p e)

  pub seen :
      {B : Type 0} (f : Token → Parse B) (p : Parser) {t : Token} {ts : List Token}
      → Behind p (t ∷ ts)
      → (next tokens >>= f) p ≡ f t p
  seen f p e = bind-ok (next tokens) f p (next-Behind p e)

  -- The cursor on the last of the tokens.
  unfoldable pub ahead : List Token → Parser → Parser
  ahead [] p = p
  ahead (t ∷ ts) p = ahead ts (moved p)

  pub ahead-append : (ts ss : List Token) (p : Parser) → ahead (ts ++ ss) p ≡ ahead ss (ahead ts p)
  unfolding ahead
  ahead-append [] ss p = refl
  ahead-append (t ∷ ts) ss p = ahead-append ts ss (moved p)

  pub ahead-length :
      (ts : List Token) (p : Parser) → ahead ts p ≡ record p { index = p.index + length ts }
  unfolding ahead moved
  ahead-length [] p = ap (λ i. record p { index = i }) (omega arith)
  ahead-length (t ∷ ts) p =
      ahead-length ts (moved p) ∙ ap (λ i. record p { index = i }) (omega arith)

  pub ahead-Behind :
      (ts : List Token) (p : Parser) {rest : List Token}
      → Behind p (ts ++ rest)
      → Behind (ahead ts p) rest
  unfolding ahead
  ahead-Behind [] p e = e
  ahead-Behind (t ∷ ts) p e = ahead-Behind ts (moved p) (moved-Behind p e)

  pub expect-Behind :
      (t : TokType) (p : Parser) {u : Token} {ts : List Token} (b : Bool)
      → Behind p (u ∷ ts)
      → toktype_eq u.type t ≡ b
      → expect tokens t p ≡ ok (b, p)
  unfolding expect pure
  expect-Behind t p b h e = seen _ p h ∙ rw e refl

  pub expect_advance-Behind :
      (t : TokType) (p : Parser) {u : Token} {ts : List Token}
      → Behind p (u ∷ ts)
      → u.type ≡ t
      → expect_advance tokens t p ≡ ok (tt, moved p)
  unfolding expect_advance moved
  expect_advance-Behind t p {u} h e =
      let x : toktype_eq u.type t ≡ true = rw e (toktype_eq_refl t) in
      bind-ok (expect tokens t) _ p (expect-Behind t p true h x) ∙ advance-Behind p h
