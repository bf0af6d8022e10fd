-- ===== src/Lexer/Quoted/Passes.antt =====
-- The two passes of `lexer_lex_string` agree: where the first reaches the closing byte, the second
-- reads within the memory, meets only escapes that it knows, and fills the buffer.
use luka.Prelude.{
  ℕ, suc, ◌≡◌, refl, ap, inl, inr, true, false, [], ◌∷◌, none, some, arith, ◌==◌, ==_iff, ◌≢◌,
  Bool-cases, Option-cases, Bytes, length, get_elem?,
}
use luka.ReturnCode.{Outcome, ok, ◌>>=◌, >>=-eq-ok}
use luka.Lexer.Quoted.{is_escape, measure, one_byte, two_bytes, unescape, decode, lex_string}

-- Every escape that the first pass accepts is one that the second stores.
unescape-is_escape : (e : ℕ) → is_escape e ≡ true → unescape e ≢ none
unfolding is_escape unescape
unescape-is_escape e h = ground arith

-- What the first pass promises of the second, with `n` characters up to the closing byte at `k`.
record Agrees (end : ℕ) (w : Bytes) (n k : ℕ) : Type 0 where
  text : Bytes
  decoded : decode n w ≡ ok text
  filled : length text ≡ n
  closed : get_elem? w k ≡ some end

module _ (end : ℕ) where
  Agrees-eq :
      (w : Bytes) {n k n' k' : ℕ}
      → Agrees end w n k
      → ◌≡◌ {A = Outcome (ℕ × ℕ)} (ok (n, k)) (ok (n', k'))
      → Agrees end w n' k'
  Agrees-eq w a h = record {
    text = a.text;
    decoded = ground (arith, a.decoded);
    filled = ground (arith, a.filled);
    closed = ground (arith, a.closed);
  }

  Agrees-here : (c : ℕ) (w : Bytes) → (c == end) ≡ true → Agrees end (c ∷ w) 0 0
  unfolding decode
  Agrees-here c w h = record {
    text = [];
    decoded = refl;
    filled = refl;
    closed = ground (arith, ==_iff c end);
  }

  Agrees-plain :
      (c e : ℕ) (w : Bytes) {n k : ℕ}
      → (c == b'\\') ≡ false
      → Agrees end (e ∷ w) n k
      → Agrees end (c ∷ e ∷ w) (suc n) (suc k)
  unfolding decode
  Agrees-plain c e w h a = record {
    text = c ∷ a.text;
    decoded = rw (h, a.decoded);
    filled = ap suc a.filled;
    closed = a.closed;
  }

  Agrees-escape :
      (c e x : ℕ) (w : Bytes) {n k : ℕ}
      → (c == b'\\') ≡ true
      → unescape e ≡ some x
      → Agrees end w n k
      → Agrees end (c ∷ e ∷ w) (suc n) (suc (suc k))
  unfolding decode
  Agrees-escape c e x w h u a = record {
    text = x ∷ a.text;
    decoded = rw (h, u, a.decoded);
    filled = ap suc a.filled;
    closed = a.closed;
  }

  measure-plain :
      (c e : ℕ) (w : Bytes) {n k : ℕ}
      → (c == b'\\') ≡ false
      → ((n' k' : ℕ) → measure end (e ∷ w) ≡ ok (n', k') → Agrees end (e ∷ w) n' k')
      → (measure end (e ∷ w) >>= one_byte) ≡ ok (n, k)
      → Agrees end (c ∷ e ∷ w) n k
  measure-plain c e w slash ih h =
      let ((n', k'), m, q) = >>=-eq-ok (measure end (e ∷ w)) one_byte h in
      Agrees-eq _ (Agrees-plain c e w slash (ih n' k' m)) q

  measure-escape :
      (c e : ℕ) (w : Bytes) {n k : ℕ}
      → (c == b'\\') ≡ true
      → is_escape e ≡ true
      → ((n' k' : ℕ) → measure end w ≡ ok (n', k') → Agrees end w n' k')
      → (measure end w >>= two_bytes) ≡ ok (n, k)
      → Agrees end (c ∷ e ∷ w) n k
  measure-escape c e w slash valid ih h =
      let ((n', k'), m, q) = >>=-eq-ok (measure end w) two_bytes h in
      elim (Option-cases (unescape e)) [
        | inl u ↦ absurd (unescape-is_escape e valid u)
        | inr (x, u) ↦ Agrees-eq _ (Agrees-escape c e x w slash u (ih n' k' m)) q
      ]

  measure-Agrees : (w : Bytes) (n k : ℕ) → measure end w ≡ ok (n, k) → Agrees end w n k
  unfolding measure
  measure-Agrees [] n k h = cc
  measure-Agrees (c ∷ []) n k h = elim (Bool-cases (c == end)) [
    | inl e ↦ Agrees-eq _ (Agrees-here c [] e) (rw e at h)
    | inr e ↦ let h' = rw e at h in cc
  ]
  measure-Agrees (c ∷ e ∷ w) n k h = elim (Bool-cases (c == end)) [
    | inl here ↦ Agrees-eq _ (Agrees-here c (e ∷ w) here) (rw here at h)
    | inr there ↦ elim (Bool-cases (c == b'\\')) [
      | inl slash ↦ elim (Bool-cases (is_escape e)) [
        | inl valid ↦
            measure-escape c e w slash valid (measure-Agrees w) (rw (there, slash, valid) at h)
        | inr bad ↦ let h' = rw (there, slash, bad) at h in cc
      ]
      | inr plain ↦ measure-plain c e w plain (measure-Agrees (e ∷ w)) (rw (there, plain) at h)
    ]
  ]

-- The passes of `lexer_lex_string` agree: where the first counts `n` characters up to a closing byte
-- at distance `k`, the second succeeds, so the routine returns a text of `n` characters and `k`.
pub lex_string-measure :
    (end : ℕ) (w : Bytes) {n k : ℕ}
    → measure end w ≡ ok (n, k)
    → (s : Bytes) × (lex_string w end ≡ ok (s, k)) × (length s ≡ n) × (get_elem? w k ≡ some end)
unfolding lex_string
lex_string-measure end w h =
    let a = measure-Agrees end w _ _ h in (a.text, rw (h, a.decoded), a.filled, a.closed)
