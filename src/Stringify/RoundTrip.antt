-- ===== src/Stringify/RoundTrip.antt =====
-- What `LIB_stringify` writes, read again by `lexer_lex_string`.
use luka.Prelude.{
  ℕ, suc, ◌+◌, ◌≤◌, ◌≡◌, ◌≢◌, refl, sym, ap, ◌∙◌, true, false, [], ◌∷◌, ◌++◌, map, some, arith,
  append_assoc, ◌==◌, if◌then◌else◌, Bool-cases, inl, inr, Bytes, length, length-append, All,
}
use luka.ReturnCode.{ok}
use luka.Lexer.Quoted.{is_escape, measure, unescape, decode, lex_string}
use luka.Lexer.Quoted.Steps.{
  measure-cons, decode-cons, measure-escape_cons, decode-escape_cons, measure_end,
}
use luka.Stringify.{needs_escape, count_chars, escape_byte, fill, stringify}

-- Every byte written as `escape_byte` says, with no bound.
abbrev pub escaped : Bytes → Bytes
escaped [] = []
escaped (c ∷ s) = escape_byte c ++ escaped s

length-escape_byte : (c : ℕ) → length (escape_byte c) ≡ (if needs_escape c then 2 else 1)
unfolding escape_byte needs_escape
length-escape_byte c = ground arith

fill-escaped :
    (char_count pos : ℕ) (s : Bytes)
    → pos + count_chars s ≤ char_count
    → fill char_count pos s ≡ escaped s
unfolding fill count_chars
fill-escaped char_count pos [] h = refl
fill-escaped char_count pos (c ∷ s) h =
    let e = length-escape_byte c in
    ground (arith, fill-escaped char_count (pos + length (escape_byte c)) s)

-- The count of the first loop is the length of what the second writes: nothing is cut off.
pub stringify-escaped : (s : Bytes) → stringify s ≡ escaped s
unfolding stringify
stringify-escaped s = fill-escaped (count_chars s) 0 s (omega arith)

-- What becomes of a byte: a double quote is read back as a single one.
abbrev pub reread : ℕ → ℕ
reread c = if c == b'"' then b'\'' else c

-- The two forms of what is written for a byte.
data Written (c : ℕ) : Bytes → Type 0 where
  two : (e : ℕ) → is_escape e ≡ true → unescape e ≡ some (reread c) → Written c (b'\\' ∷ e ∷ [])
  one : (c == b'\\') ≡ false → (c == b'"') ≡ false → Written c (c ∷ [])

escape_byte-Written : (c : ℕ) → Written c (escape_byte c)
unfolding escape_byte is_escape unescape
escape_byte-Written c = elim (Bool-cases (c == b'\n')) [
  | inl h ↦ rw h (two b'n' refl (ground arith))
  | inr n ↦ elim (Bool-cases (c == b'\t')) [
    | inl h ↦ rw (n, h) (two b't' refl (ground arith))
    | inr t ↦ elim (Bool-cases (c == b'\\')) [
      | inl h ↦ rw (n, t, h) (two b'\\' refl (ground arith))
      | inr b ↦ elim (Bool-cases (c == b'"')) [
        | inl h ↦ rw (n, t, b, h) (two b'"' refl (ground arith))
        | inr q ↦ rw (n, t, b, q) (one b q)
      ]
    ]
  ]
]

measure-Written :
    {c : ℕ} {t : Bytes} (w : Bytes) {n k : ℕ}
    → Written c t
    → measure b'"' w ≡ ok (n, k)
    → measure b'"' (t ++ w) ≡ ok (suc n, length t + k)
measure-Written w (two e v u) h = rw (measure-escape_cons b'"' e w refl v, h) (ground arith)
measure-Written {c} w (one b q) h = rw (measure-cons c b b'"' w q, h) (ground arith)

decode-Written :
    {c : ℕ} {t : Bytes} (n : ℕ) (w : Bytes) {s : Bytes}
    → Written c t
    → decode n w ≡ ok s
    → decode (suc n) (t ++ w) ≡ ok (reread c ∷ s)
decode-Written {c} n w (two e v u) h = rw (decode-escape_cons n e (reread c) w u, h)
decode-Written {c} n w (one b q) h = rw (decode-cons c b n w, h, q)

measure-escaped :
    (s rest : Bytes) → measure b'"' (escaped s ++ b'"' ∷ rest) ≡ ok (length s, length (escaped s))
measure-escaped [] rest = measure_end b'"' rest
measure-escaped (c ∷ s) rest = rw append_assoc (
    measure-Written _ (escape_byte-Written c) (measure-escaped s rest)
    ∙ ap (λ k. ok (suc (length s), k)) (sym (length-append (escape_byte c) (escaped s))))

decode-escaped : (s rest : Bytes) → decode (length s) (escaped s ++ b'"' ∷ rest) ≡ ok (map reread s)
unfolding decode
decode-escaped [] rest = refl
decode-escaped (c ∷ s) rest =
    rw append_assoc (decode-Written _ _ (escape_byte-Written c) (decode-escaped s rest))

-- Reading a stringified text as a string literal gives the text back, but for its double quotes, each
-- of which comes back as a single quote; `*index` ends on the closing quote.
pub lex_string-stringify :
    (s rest : Bytes)
    → lex_string (stringify s ++ b'"' ∷ rest) b'"' ≡ ok (map reread s, length (stringify s))
unfolding lex_string
lex_string-stringify s rest =
    rw (stringify-escaped s, measure-escaped s rest, decode-escaped s rest)

map-reread : (s : Bytes) → All (λ c. c ≢ b'"') s → map reread s ≡ s
map-reread [] h = refl
map-reread (c ∷ s) h = ground (arith, map-reread s h.1)

-- A text with no double quote survives the trip unchanged.
pub lex_string-stringify_id :
    (s rest : Bytes)
    → All (λ c. c ≢ b'"') s
    → lex_string (stringify s ++ b'"' ∷ rest) b'"' ≡ ok (s, length (stringify s))
lex_string-stringify_id s rest h = lex_string-stringify s rest ∙ rw (map-reread s h)
