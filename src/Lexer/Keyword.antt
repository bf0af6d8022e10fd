-- ===== src/Lexer/Keyword.antt =====
-- src/lexer.c: `lexer_is_keyword`.
pub mod Exact
use luka.Prelude.{ℕ, suc, List, [], ◌∷◌, Option, none, some, Bytes, str_eq, if◌then◌else◌}
use luka.Token.{keywords}

-- The loop over the table from index `i` on.
unfoldable pub find_keyword : Bytes → ℕ → List Bytes → Option ℕ
find_keyword identifier i [] = none
find_keyword identifier i (k ∷ ks) =
    if str_eq identifier k then some i else find_keyword identifier (suc i) ks

-- `none` is the source's -1.
unfoldable pub is_keyword : Bytes → Option ℕ
unfolding find_keyword str_eq keywords
is_keyword identifier = find_keyword identifier 0 keywords
