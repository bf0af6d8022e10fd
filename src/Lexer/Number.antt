-- ===== src/Lexer/Number.antt =====
-- src/lexer.c: `lexer_lex_number`.
pub mod Exact
use luka.Prelude.{ℕ, ◌+◌, ◌-◌, Bytes, ◌==◌, if◌then◌else◌, drop, take}
use luka.ReturnCode.{Outcome, ok, exited, lexer_failed, ◌>>=◌}
use luka.Lexer.Ctype.{is_digit, read, count_while}

-- The part from `'.' == source[*index]` on, with the point at `k`: at least one digit must follow, and
-- an `f` behind the digits is passed over.
unfoldable pub lex_fraction : Bytes → ℕ → Outcome (Bytes × ℕ)
lex_fraction w k = do
  d ← read w (k + 1)
  let rest = (do
    m ← count_while is_digit (drop (k + 2) w)
    let end = k + 2 + m
    f ← read w end
    ok (take end w, (if f == b'f' then end + 1 else end) - 1))
  if is_digit d then rest else exited lexer_failed

-- The digits' text and the distance to the last byte that belongs to the number. The first byte is
-- not tested: the caller has done so.
unfoldable pub lex_number : Bytes → Outcome (Bytes × ℕ)
unfolding lex_fraction
lex_number w = do
  n ← count_while is_digit (drop 1 w)
  c ← read w (n + 1)
  if c == b'.' then lex_fraction w (n + 1) else ok (take (n + 1) w, n + 1 - 1)
