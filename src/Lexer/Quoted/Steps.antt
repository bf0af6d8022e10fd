-- ===== src/Lexer/Quoted/Steps.antt =====
-- One round of each pass of `lexer_lex_string`, whatever stands behind it; and a text that never ends.
use luka.Prelude.{
  ℕ, suc, ◌≡◌, ap, ◌∙◌, true, false, [], ◌∷◌, ◌++◌, some, arith, ◌==◌, Bytes, All, ◌≢◌,
}
use luka.ReturnCode.{ok, fault, ◌>>=◌}
use luka.Lexer.Ctype.{terminator}
use luka.Lexer.Quoted.{
  is_escape, measure, one_byte, two_bytes, unescape, prepend, decode, lex_string,
}

module _ (c : ℕ) (plain : (c == b'\\') ≡ false) where
  pub measure-cons :
      (end : ℕ) (w : Bytes)
      → (c == end) ≡ false
      → measure end (c ∷ w) ≡ (measure end w >>= one_byte)
  unfolding measure
  measure-cons end [] h = rw h
  measure-cons end (e ∷ w) h = rw (h, plain)

  pub decode-cons : (n : ℕ) (w : Bytes) → decode (suc n) (c ∷ w) ≡ (decode n w >>= prepend c)
  unfolding decode
  decode-cons n [] = rw plain
  decode-cons n (e ∷ w) = rw plain

pub measure-escape_cons :
    (end e : ℕ) (w : Bytes)
    → (b'\\' == end) ≡ false
    → is_escape e ≡ true
    → measure end (b'\\' ∷ e ∷ w) ≡ (measure end w >>= two_bytes)
unfolding measure
measure-escape_cons end e w h v = rw (h, v)

pub decode-escape_cons :
    (n e x : ℕ) (w : Bytes)
    → unescape e ≡ some x
    → decode (suc n) (b'\\' ∷ e ∷ w) ≡ (decode n w >>= prepend x)
unfolding decode
decode-escape_cons n e x w u = rw u

pub measure_end : (end : ℕ) (w : Bytes) → measure end (end ∷ w) ≡ ok (0, 0)
unfolding measure
measure_end end [] = ground arith
measure_end end (e ∷ w) = ground arith

-- Neither the closing byte nor a backslash.
abbrev pub IsPlain : ℕ → ℕ → Type 0
IsPlain end c = (c ≢ end) × (c ≢ b'\\')

measure-open :
    (end : ℕ) (s : Bytes) → 0 ≢ end → All (IsPlain end) s → measure end (s ++ terminator) ≡ fault
unfolding measure
measure-open end [] z h = ground arith
measure-open end (c ∷ s) z h =
    measure-cons c (ground arith) end (s ++ terminator) (ground arith)
    ∙ ap (λ m. m >>= one_byte) (measure-open end s z h.1)

-- A quoted text with no closing byte: where the source ends within a text that holds neither the
-- closing byte nor a backslash, the routine reads past the terminator, out of the source's memory.
pub lex_string-unclosed :
    (end : ℕ) (s : Bytes) → 0 ≢ end → All (IsPlain end) s → lex_string (s ++ terminator) end ≡ fault
unfolding lex_string
lex_string-unclosed end s z h = rw (measure-open end s z h)
