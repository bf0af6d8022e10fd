-- ===== src/Lexer/Scan.antt =====
-- src/lexer.c: the `switch` in the body of `LEXER_tokenize_source`, for one character that is no space.
pub mod Spelling
pub mod Spelled
pub mod Symbols
use luka.Prelude.{
  ℕ, ◌+◌, ◌-◌, ◌<◌, Bool, true, false, ◌&&◌, ◌||◌, [], ◌∷◌, Option, none, some, Bytes, ◌==◌,
  if◌then◌else◌, ltb, length, drop, codes,
}
use luka.ReturnCode.{Outcome, ok, returned, exited, fault, lexer_failed, ◌>>=◌}
use luka.Token.{
  TokType, t_open_paren, t_close_paren, t_open_brace, t_close_brace, t_open_bracket,
  t_close_bracket, t_semi_colon, t_comma, t_plus, t_minus, t_star, t_percent, t_ampercent, t_pipe,
  t_caret, t_tilde, t_colon, t_double_colon, t_slash, t_equals, t_eqeq, t_open_ang, t_leq, t_shl,
  t_close_ang, t_geq, t_shr, t_bang, t_neq, t_string, t_char, t_dot, t_three_dots, t_builtin, t_eof,
  t_number, t_identifier, toktype_of_number,
}
use luka.Lexer.Ctype.{is_digit, read}
use luka.Lexer.Keyword.{is_keyword}
use luka.Lexer.Number.{lex_number}
use luka.Lexer.Identifier.{is_ident_start, lex_identifier}
use luka.Lexer.Quoted.{lex_string}

-- What the `switch` leaves: a token to push or, for a comment, `continue`. The last number is how far
-- `i` and `offset` have moved.
pub data Lexeme : Type 0 where
  lexeme : TokType → Bytes → ℕ → Lexeme
  comment : ℕ → Lexeme

-- The cases whose token is the character itself.
unfoldable pub single_char : ℕ → Option TokType
single_char c =
    if c == b'('
    then some t_open_paren
    else if c == b')'
    then some t_close_paren
    else if c == b'{'
    then some t_open_brace
    else if c == b'}'
    then some t_close_brace
    else if c == b'['
    then some t_open_bracket
    else if c == b']'
    then some t_close_bracket
    else if c == b';'
    then some t_semi_colon
    else if c == b','
    then some t_comma
    else if c == b'+'
    then some t_plus
    else if c == b'-'
    then some t_minus
    else if c == b'*'
    then some t_star
    else if c == b'%'
    then some t_percent
    else if c == b'&'
    then some t_ampercent
    else if c == b'|'
    then some t_pipe
    else if c == b'^'
    then some t_caret
    else if c == b'~'
    then some t_tilde
    else none

-- `while ('\n' != source[i + 1]) ++i` behind the two slashes: how many bytes it passes.
unfoldable pub comment_length : Bytes → Outcome ℕ
comment_length [] = fault
comment_length (c ∷ w) = if c == b'\n' then ok 0 else (comment_length w >>= λ n. ok (n + 1))

-- A case that looks for one of two characters behind `c`, and takes `c` alone if it is neither.
unfoldable pub two_chars : ℕ → Bytes → TokType → ℕ → TokType → ℕ → TokType → Outcome Lexeme
two_chars c w alone d with_d e with_e = do
  next ← read w 1
  ok (
      if next == d
      then lexeme with_d (c ∷ d ∷ []) 1
      else if next == e
      then lexeme with_e (c ∷ e ∷ []) 1
      else lexeme alone (c ∷ []) 0)

-- The same for a single second character.
unfoldable pub one_or_two : ℕ → Bytes → TokType → ℕ → TokType → Outcome Lexeme
unfolding two_chars
one_or_two c w alone d with_d = two_chars c w alone d with_d d with_d

-- `case '/'`
unfoldable pub lex_slash : Bytes → Outcome Lexeme
unfolding comment_length
lex_slash w = do
  next ← read w 1
  let skipped = (comment_length (drop 2 w) >>= λ n. ok (comment (n + 1)))
  if next == b'/' then skipped else ok (lexeme t_slash (codes "/") 0)

-- `case '.'`; the third character is read only if the second is a point.
unfoldable pub lex_dot : Bytes → Outcome Lexeme
lex_dot w = do
  next ← read w 1
  let dots = (do
    third ← read w 2
    ok (if third == b'.' then lexeme t_three_dots (codes "...") 2 else lexeme t_dot (codes ".") 0))
  if next == b'.' then dots else ok (lexeme t_dot (codes ".") 0)

-- `case '"'`
unfoldable pub lex_string_literal : Bytes → Outcome Lexeme
lex_string_literal w = do (s, k) ← lex_string (drop 1 w) b'"'; ok (lexeme t_string s (k + 1))

-- `case '\''`
unfoldable pub lex_char_literal : Bytes → Outcome Lexeme
lex_char_literal w = do
  (s, k) ← lex_string (drop 1 w) b'\''
  if ltb 1 (length s) then returned lexer_failed else ok (lexeme t_char s (k + 1))

-- `case '@'`
unfoldable pub lex_builtin : Bytes → Outcome Lexeme
unfolding lex_identifier
lex_builtin w = do (s, k) ← lex_identifier (drop 1 w) true; ok (lexeme t_builtin s (k + 1))

unfoldable pub identifier_type : Option ℕ → TokType
unfolding toktype_of_number
identifier_type (some number) = toktype_of_number number
identifier_type none = t_identifier

-- `default`
unfoldable pub lex_default : ℕ → Bytes → Outcome Lexeme
lex_default c w =
    if is_digit c
    then (lex_number w >>= λ (s, k). ok (lexeme t_number s k))
    else if is_ident_start c
    then (lex_identifier w false >>= λ (s, k). ok (lexeme (identifier_type (is_keyword s)) s k))
    else exited lexer_failed

-- The byte that `(char) EOF` is.
abbrev pub eof_byte : ℕ
eof_byte = 255

-- The cases that look ahead.
unfoldable pub lex_longer : ℕ → Bytes → Outcome Lexeme
lex_longer c w =
    if c == b':'
    then one_or_two c w t_colon b':' t_double_colon
    else if c == b'/'
    then lex_slash w
    else if c == b'='
    then one_or_two c w t_equals b'=' t_eqeq
    else if c == b'<'
    then two_chars c w t_open_ang b'=' t_leq b'<' t_shl
    else if c == b'>'
    then two_chars c w t_close_ang b'=' t_geq b'>' t_shr
    else if c == b'!'
    then one_or_two c w t_bang b'=' t_neq
    else if c == b'"'
    then lex_string_literal w
    else if c == b'\''
    then lex_char_literal w
    else if c == b'.'
    then lex_dot w
    else if c == b'@'
    then lex_builtin w
    else if c == eof_byte
    then ok (lexeme t_eof (codes "~EOF~") 0)
    else lex_default c w

abbrev pub single_or : Option TokType → ℕ → Outcome Lexeme → Outcome Lexeme
single_or (some t) c other = ok (lexeme t (c ∷ []) 0)
single_or none c other = other

-- The whole `switch` on `c`, the first byte of `w`.
unfoldable pub lex_token : ℕ → Bytes → Outcome Lexeme
lex_token c w = let other = lex_longer c w in single_or (single_char c) c other
