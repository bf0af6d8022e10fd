-- ===== src/Parser/Numerals.antt =====
-- src/lexer.c with src/parser.c: what a numeral of a file becomes in the tree.
use luka.Prelude.{
  ℕ, ◌≡◌, refl, ◌%◌, ◌^◌, ◌==◌, true, false, [], ◌∷◌, ◌++◌, Bytes, if◌then◌else◌, arith,
}
use mathlib.Core.Path.{subst}
use luka.ReturnCode.{Outcome, ok}
use luka.Lexer.Ctype.{is_digit, terminator}
use luka.Lexer.Runs.{Passes}
use luka.Lexer.Number.{lex_number}
use luka.Lexer.Number.Exact.{NumberOutcome, whole, fraction, broken, lex_number-outcome}
use luka.Types.Base.{type_f64, type_sint32, initialize_type}
use luka.Ast.{number}
use luka.Parser.State.{Libc}
use luka.Parser.Literal.{is_floating_point, last_byte, number_node}

last_byte-append : (xs : Bytes) (y : ℕ) (ys : Bytes) → last_byte (xs ++ y ∷ ys) ≡ last_byte (y ∷ ys)
unfolding last_byte
last_byte-append [] y ys = refl
last_byte-append (x ∷ []) y ys = refl
last_byte-append (x ∷ x' ∷ xs) y ys = last_byte-append (x' ∷ xs) y ys

-- No digit is an `f`.
last_byte-Passes :
    (d : ℕ) (ds : Bytes) → Passes is_digit (d ∷ ds) → (last_byte (d ∷ ds) == b'f') ≡ false
unfolding last_byte is_digit
last_byte-Passes d [] h = ground (arith, h.0)
last_byte-Passes d (e ∷ ds) h = last_byte-Passes e ds h.1

content-eq : {a b : Bytes} {m n : ℕ} → ◌≡◌ {A = Outcome (Bytes × ℕ)} (ok (a, m)) (ok (b, n)) → a ≡ b
content-eq e = cc

outcome-last_byte :
    (d : ℕ) (s content : Bytes) (n : ℕ)
    → is_digit d ≡ true
    → NumberOutcome d s (ok (content, n))
    → (last_byte content == b'f') ≡ false
unfolding last_byte
outcome-last_byte d s content n h (whole ds left e p a l r) =
    let c : content ≡ d ∷ ds = content-eq r in rw c (last_byte-Passes d ds (h, p))
outcome-last_byte d s content n h (fraction ds f fs left e p q a r) =
    let c : content ≡ (d ∷ ds) ++ b'.' ∷ f ∷ fs = content-eq r in
    rw (c, last_byte-append (d ∷ ds) b'.' (f ∷ fs)) (last_byte-Passes f fs q)
outcome-last_byte d s content n h (broken ds left e p a r) = cc

-- A numeral that the lexer has read is an `f64` if there is a point in it and an `s32` if not. The parser
-- looks for an `f` at the end to make an `f32`, but the lexer has left the `f` of the source out.
pub number_node-lex_number :
    (libc : Libc) (d : ℕ) (s content : Bytes) (n : ℕ)
    → is_digit d ≡ true
    → lex_number (d ∷ s ++ terminator) ≡ ok (content, n)
    → number_node libc content ≡ (
        if is_floating_point content
        then number (initialize_type type_f64) (libc.strtod content)
        else number (initialize_type type_sint32) (libc.strtol content % 2 ^ 32))
unfolding number_node
number_node-lex_number libc d s content n h e =
    let o : NumberOutcome d s (ok (content, n)) =
      subst (NumberOutcome d s) e (lex_number-outcome d s) in
    rw (outcome-last_byte d s content n h o) refl
