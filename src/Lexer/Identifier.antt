-- ===== src/Lexer/Identifier.antt =====
-- src/lexer.c: `lexer_lex_identifier`.
pub mod Exact
use luka.Prelude.{ℕ, ◌+◌, ◌-◌, Bool, ◌||◌, [], ◌∷◌, Bytes, ◌==◌, if◌then◌else◌, drop, take}
use luka.ReturnCode.{Outcome, ok, ◌>>=◌}
use luka.Lexer.Ctype.{is_alpha, is_alnum, read, count_while}

unfoldable pub is_ident_start : ℕ → Bool
unfolding is_alpha
is_ident_start c = is_alpha c || c == b'_'

unfoldable pub is_ident_part : ℕ → Bool
unfolding is_alnum
is_ident_part c = is_alnum c || c == b'_'

-- The name, with an `@` in front for a builtin, and the distance to its last byte. Where no name
-- starts the text is empty and the index stays.
unfoldable pub lex_identifier : Bytes → Bool → Outcome (Bytes × ℕ)
lex_identifier w builtin = do
  c ← read w 0
  let named = (do
    n ← count_while is_ident_part (drop 1 w)
    let name = take (n + 1) w
    ok (if builtin then b'@' ∷ name else name, n + 1 - 1))
  if is_ident_start c then named else ok ([], 0)
