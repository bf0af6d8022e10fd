-- ===== src/Lexer/Scan/Spelling.antt =====
-- The written forms of tokens.
use luka.Prelude.{
  ℕ, ◌≡◌, ◌≢◌, true, false, List, [], ◌∷◌, ◌++◌, some, Bytes, String, codes, length, get_elem?, All,
}
use luka.ReturnCode.{ok}
use luka.Token.{
  TokType, keywords, keyword_types, t_open_paren, t_close_paren, t_open_brace, t_close_brace,
  t_open_bracket, t_close_bracket, t_semi_colon, t_comma, t_plus, t_minus, t_star, t_percent,
  t_ampercent, t_pipe, t_caret, t_tilde, t_colon, t_double_colon, t_slash, t_equals, t_eqeq,
  t_open_ang, t_leq, t_shl, t_close_ang, t_geq, t_shr, t_bang, t_neq, t_string, t_dot, t_three_dots,
  t_builtin, t_char, t_number, t_identifier,
}
use luka.Lexer.Ctype.{is_digit, is_space}
use luka.Lexer.Identifier.Exact.{IsName}
use luka.Lexer.Runs.{Passes}
use luka.Lexer.Scan.{lexeme, lex_token}
use luka.Stringify.{stringify}

-- The tokens that have one spelling, but for the keywords.
abbrev pub symbols : List (TokType × String)
symbols =
    (t_open_paren, "(")
    ∷ (t_close_paren, ")")
    ∷ (t_open_brace, "{")
    ∷ (t_close_brace, "}")
    ∷ (t_open_bracket, "[")
    ∷ (t_close_bracket, "]")
    ∷ (t_semi_colon, ";")
    ∷ (t_comma, ",")
    ∷ (t_plus, "+")
    ∷ (t_minus, "-")
    ∷ (t_star, "*")
    ∷ (t_slash, "/")
    ∷ (t_percent, "%")
    ∷ (t_equals, "=")
    ∷ (t_bang, "!")
    ∷ (t_open_ang, "<")
    ∷ (t_close_ang, ">")
    ∷ (t_eqeq, "==")
    ∷ (t_neq, "!=")
    ∷ (t_leq, "<=")
    ∷ (t_geq, ">=")
    ∷ (t_ampercent, "&")
    ∷ (t_pipe, "|")
    ∷ (t_caret, "^")
    ∷ (t_tilde, "~")
    ∷ (t_shl, "<<")
    ∷ (t_shr, ">>")
    ∷ (t_colon, ":")
    ∷ (t_double_colon, "::")
    ∷ (t_dot, ".")
    ∷ (t_three_dots, "...")
    ∷ []

-- `Spells t content text`: `text` is a written form of the token of type `t` with that content.
pub data Spells : TokType → Bytes → Bytes → Type 0 where
  symbol :
      (i : ℕ) (t : TokType) (s : String)
      → get_elem? symbols i ≡ some (t, s)
      → Spells t (codes s) (codes s)
  keyword :
      (i : ℕ) (t : TokType) (s : Bytes)
      → get_elem? keywords i ≡ some s
      → get_elem? keyword_types i ≡ some t
      → Spells t s s
  name :
      (s : Bytes) → IsName s → ((i : ℕ) → get_elem? keywords i ≢ some s) → Spells t_identifier s s
  number : (d : ℕ) (ds : Bytes) → Passes is_digit (d ∷ ds) → Spells t_number (d ∷ ds) (d ∷ ds)
  fraction :
      (d : ℕ) (ds : Bytes) (f : ℕ) (fs : Bytes)
      → Passes is_digit (d ∷ ds)
      → Passes is_digit (f ∷ fs)
      → Spells t_number (d ∷ ds ++ b'.' ∷ f ∷ fs) (d ∷ ds ++ b'.' ∷ f ∷ fs)
  -- A fraction of single precision: the suffix is no part of the content.
  single :
      (d : ℕ) (ds : Bytes) (f : ℕ) (fs : Bytes)
      → Passes is_digit (d ∷ ds)
      → Passes is_digit (f ∷ fs)
      → Spells t_number (d ∷ ds ++ b'.' ∷ f ∷ fs) (d ∷ (ds ++ b'.' ∷ f ∷ (fs ++ b'f' ∷ [])))
  builtin : (s : Bytes) → IsName s → Spells t_builtin (b'@' ∷ s) (b'@' ∷ s)
  string :
      (s : Bytes) → All (λ c. c ≢ b'"') s → Spells t_string s (b'"' ∷ (stringify s ++ b'"' ∷ []))
  char :
      (c : ℕ) → c ≢ b'\\' → c ≢ b'\'' → c ≢ b'\n' → Spells t_char (c ∷ []) (b'\'' ∷ c ∷ b'\'' ∷ [])

-- The `switch` reads `text`, with white space `g` behind it, as that token.
abbrev pub Scans : TokType → Bytes → Bytes → Type 0
Scans t content [] = ⊥
Scans t content (c ∷ text) =
    (g : ℕ) (w : Bytes)
    → is_space g ≡ true
    → (is_space c ≡ false)
      × (lex_token c (c ∷ (text ++ g ∷ w)) ≡ ok (lexeme t content (length text)))
