-- ===== src/Lexer/Scan/Spelled.antt =====
-- The `switch` of the lexer reads each of the written forms of tokens.
use luka.Prelude.{
  ◌+◌, if◌then◌else◌, ℕ, ◌≡◌, ◌≢◌, refl, sym, ap, ◌∙◌, true, false, [], ◌∷◌, ◌++◌, none, some,
  arith, ◌==◌, inl, inr, Bytes, codes, length, get_elem?, All, append_assoc, Option-cases,
  length-append, All-get_elem?,
}
use luka.ReturnCode.{ok}
use luka.Token.{TokType, keywords, keyword_types, t_string, t_builtin, t_char, t_number}
use luka.Lexer.Ctype.{is_digit, is_space}
use luka.Lexer.Identifier.{is_ident_start, is_ident_part}
use luka.Lexer.Identifier.Exact.{IsName, lex_identifier-name}
use luka.Lexer.Keyword.{is_keyword}
use luka.Lexer.Keyword.Exact.{is_keyword-get_elem?}
use luka.Lexer.Number.Exact.{lex_number-stop, lex_number-fraction}
use luka.Lexer.Runs.{Passes}
use luka.Lexer.Scan.{
  lexeme, single_char, lex_default, lex_longer, lex_token, identifier_type, lex_builtin,
  lex_string_literal, lex_char_literal,
}
use luka.Lexer.Quoted.{lex_string, decode}
use luka.Lexer.Quoted.Steps.{measure-cons, decode-cons, measure_end}
use luka.Stringify.{stringify}
use luka.Stringify.RoundTrip.{lex_string-stringify_id}
use luka.Lexer.Scan.Symbols.{symbols-Scans}
use luka.Lexer.Scan.Spelling.{
  symbols, Spells, symbol, keyword, name, number, fraction, single, builtin, string, char, Scans,
}

single_char-name : (c : ℕ) → is_ident_start c ≡ true → single_char c ≡ none
unfolding is_ident_start single_char
single_char-name c h = ground arith

lex_longer-name : (c : ℕ) (w : Bytes) → is_ident_start c ≡ true → lex_longer c w ≡ lex_default c w
unfolding is_ident_start lex_longer
lex_longer-name c w h = ground arith

single_char-digit : (c : ℕ) → is_digit c ≡ true → single_char c ≡ none
unfolding is_digit single_char
single_char-digit c h = ground arith

lex_longer-digit : (c : ℕ) (w : Bytes) → is_digit c ≡ true → lex_longer c w ≡ lex_default c w
unfolding is_digit lex_longer
lex_longer-digit c w h = ground arith

-- White space ends a name and a number.
space_ends :
    (g : ℕ)
    → is_space g ≡ true
    → (is_ident_part g ≡ false) × (is_digit g ≡ false) × ((g == b'.') ≡ false)
unfolding is_space is_ident_part is_digit
space_ends g h = ground arith

name-space : (c : ℕ) → is_ident_start c ≡ true → (is_space c ≡ false) × (is_digit c ≡ false)
unfolding is_space is_ident_start is_digit
name-space c h = ground arith

space-ne-f : (g : ℕ) → is_space g ≡ true → (g == b'f') ≡ false
unfolding is_space
space-ne-f g h = ground arith

digit-space : (c : ℕ) → is_digit c ≡ true → is_space c ≡ false
unfolding is_space is_digit
digit-space c h = ground arith

name-Scans : (s : Bytes) {t : TokType} → IsName s → identifier_type (is_keyword s) ≡ t → Scans t s s
unfolding lex_token lex_default
name-Scans [] {t} h e = h
name-Scans (c ∷ s) {t} h e = λ g w space. (
  (name-space c h.0).0,
  rw
      (
        single_char-name c h.0,
        lex_longer-name c (c ∷ (s ++ g ∷ w)) h.0,
        (name-space c h.0).1,
        h.0,
        lex_identifier-name (c ∷ s) g w false h (space_ends g space).0,
        e,
      )
      (ap (λ k. ok (lexeme t (c ∷ s) k)) (omega arith)),
)

number-Scans : (d : ℕ) (ds : Bytes) → Passes is_digit (d ∷ ds) → Scans t_number (d ∷ ds) (d ∷ ds)
unfolding lex_token lex_default
number-Scans d ds h = λ g w space. (
  digit-space d h.0,
  rw (
    single_char-digit d h.0,
    lex_longer-digit d (d ∷ (ds ++ g ∷ w)) h.0,
    h.0,
    lex_number-stop d ds h.1 g w (space_ends g space).1 (space_ends g space).2,
  ),
)

-- A number with a point, with a byte behind it that is no digit.
lex_token-fraction :
    (d : ℕ) (ds : Bytes) (f : ℕ) (fs : Bytes) (c : ℕ) (w : Bytes)
    → Passes is_digit (d ∷ ds)
    → Passes is_digit (f ∷ fs)
    → is_digit c ≡ false
    → lex_token d (d ∷ (ds ++ b'.' ∷ f ∷ (fs ++ c ∷ w)))
      ≡ ok (
          lexeme t_number
            (d ∷ (ds ++ b'.' ∷ f ∷ fs))
            (length ds + 2 + length fs + (if c == b'f' then 1 else 0)))
unfolding lex_token lex_default
lex_token-fraction d ds f fs c w h k e =
    rw
      (
        single_char-digit d h.0,
        lex_longer-digit d (d ∷ (ds ++ b'.' ∷ f ∷ (fs ++ c ∷ w))) h.0,
        h.0,
        lex_number-fraction d ds h.1 f fs c w k e,
      )
      refl

fraction-Scans :
    (d : ℕ) (ds : Bytes) (f : ℕ) (fs : Bytes)
    → Passes is_digit (d ∷ ds)
    → Passes is_digit (f ∷ fs)
    → Scans t_number (d ∷ ds ++ b'.' ∷ f ∷ fs) (d ∷ ds ++ b'.' ∷ f ∷ fs)
fraction-Scans d ds f fs h k = λ g w space. (
  digit-space d h.0,
  rw (append_assoc ds) (
      lex_token-fraction d ds f fs g w h k (space_ends g space).1
      ∙ ap (λ n. ok (lexeme t_number (d ∷ (ds ++ b'.' ∷ f ∷ fs)) n))
          (ground (arith, space-ne-f g space, length-append ds (b'.' ∷ f ∷ fs)))),
)

single-Scans :
    (d : ℕ) (ds : Bytes) (f : ℕ) (fs : Bytes)
    → Passes is_digit (d ∷ ds)
    → Passes is_digit (f ∷ fs)
    → Scans t_number (d ∷ ds ++ b'.' ∷ f ∷ fs) (d ∷ (ds ++ b'.' ∷ f ∷ (fs ++ b'f' ∷ [])))
unfolding is_digit
single-Scans d ds f fs h k = λ g w space. (
  digit-space d h.0,
  rw (append_assoc ds, append_assoc fs)
      (lex_token-fraction d ds f fs b'f' (g ∷ w) h k refl
        ∙ ap (λ n. ok (lexeme t_number (d ∷ (ds ++ b'.' ∷ f ∷ fs)) n))
            (omega (
              arith,
              length-append ds (b'.' ∷ f ∷ (fs ++ b'f' ∷ [])),
              length-append fs (b'f' ∷ []),
            ))),
)

builtin-Scans : (s : Bytes) → IsName s → Scans t_builtin (b'@' ∷ s) (b'@' ∷ s)
unfolding lex_token single_char lex_longer lex_builtin is_space
builtin-Scans [] h = absurd h
builtin-Scans (c ∷ s) h = λ g w space. (
  refl,
  rw (lex_identifier-name (c ∷ s) g w true h (space_ends g space).0)
      (ap (λ k. ok (lexeme t_builtin (b'@' ∷ c ∷ s) k)) (omega arith)),
)

string-Scans :
    (s : Bytes) → All (λ c. c ≢ b'"') s → Scans t_string s (b'"' ∷ (stringify s ++ b'"' ∷ []))
unfolding lex_token single_char lex_longer lex_string_literal is_space
string-Scans s h = λ g w space. (
  refl,
  rw (append_assoc (stringify s) (b'"' ∷ []), lex_string-stringify_id s (g ∷ w) h)
      (ap (λ k. ok (lexeme t_string s k)) (sym (length-append (stringify s) (b'"' ∷ [])))),
)

lex_string-char :
    (c : ℕ) (w : Bytes) → c ≢ b'\\' → c ≢ b'\'' → lex_string (c ∷ b'\'' ∷ w) b'\'' ≡ ok (c ∷ [], 1)
unfolding lex_string decode
lex_string-char c w b q =
    rw
      (
        measure-cons c (ground arith) b'\'' (b'\'' ∷ w) (ground arith),
        measure_end b'\'' w,
        decode-cons c (ground arith) 0 (b'\'' ∷ w),
      )
      refl

char-Scans : (c : ℕ) → c ≢ b'\\' → c ≢ b'\'' → Scans t_char (c ∷ []) (b'\'' ∷ c ∷ b'\'' ∷ [])
unfolding lex_token single_char lex_longer lex_char_literal is_space
char-Scans c b q = λ g w space. (refl, rw (lex_string-char c (g ∷ w) b q) refl)

keywords-IsName : (i : ℕ) {s : Bytes} → get_elem? keywords i ≡ some s → IsName s
unfolding keywords
keywords-IsName i h = All-get_elem? IsName keywords i table h
  where
    table : All IsName keywords
    table = unfold is_ident_start is_ident_part in ground arith

keyword_type :
    (i : ℕ) {t : TokType} → get_elem? keyword_types i ≡ some t → identifier_type (some i) ≡ t
unfolding identifier_type
keyword_type i h = ground arith

pub Spells-Scans :
    {t : TokType} {content text : Bytes} → Spells t content text → Scans t content text
Spells-Scans (symbol i t s h) =
    All-get_elem? (λ (t, s). Scans t (codes s) (codes s)) symbols i symbols-Scans h
Spells-Scans (keyword i t s h k) =
    name-Scans s (keywords-IsName i h)
      (ap identifier_type ((is_keyword-get_elem? s i).1 h) ∙ keyword_type i k)
Spells-Scans (name s h n) = name-Scans s h (elim (Option-cases (is_keyword s)) [
  | inl e ↦ unfold identifier_type in rw e
  | inr (i, e) ↦ absurd (n i ((is_keyword-get_elem? s i).0 e))
])
Spells-Scans (number d ds h) = number-Scans d ds h
Spells-Scans (fraction d ds f fs h k) = fraction-Scans d ds f fs h k
Spells-Scans (single d ds f fs h k) = single-Scans d ds f fs h k
Spells-Scans (builtin s h) = builtin-Scans s h
Spells-Scans (string s h) = string-Scans s h
Spells-Scans (char c b q n) = char-Scans c b q
