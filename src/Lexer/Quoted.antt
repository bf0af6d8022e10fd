-- ===== src/Lexer/Quoted.antt =====
-- src/lexer.c: `lexer_lex_string`, its two passes over a quoted text.
pub mod Passes
pub mod Steps
use luka.Prelude.{
  ℕ, zero, suc, ◌+◌, Bool, ◌||◌, [], ◌∷◌, Option, none, some, Bytes, ◌==◌, if◌then◌else◌,
}
use luka.ReturnCode.{Outcome, ok, exited, fault, lexer_failed, ◌>>=◌}

-- The escapes that the first pass lets through.
unfoldable pub is_escape : ℕ → Bool
is_escape e =
    e == b'n' || e == b't' || e == b'\\' || e == b'"' || e == b'\'' || e == b'0' || e == b'r'

-- One more character, of one byte or of two.
abbrev pub one_byte : ℕ × ℕ → Outcome (ℕ × ℕ)
one_byte (n, d) = ok (suc n, suc d)

abbrev pub two_bytes : ℕ × ℕ → Outcome (ℕ × ℕ)
two_bytes (n, d) = ok (suc n, suc (suc d))

-- The first pass: `char_count`, and the distance to the closing byte.
unfoldable pub measure : ℕ → Bytes → Outcome (ℕ × ℕ)
unfolding is_escape
measure end [] = fault
measure end (c ∷ []) = if c == end then ok (0, 0) else fault
measure end (c ∷ e ∷ w) =
    let plain = (measure end (e ∷ w) >>= one_byte) in
    let escaped = (if is_escape e then (measure end w >>= two_bytes) else exited lexer_failed) in
    if c == end then ok (0, 0) else (if c == b'\\' then escaped else plain)

-- What the second pass's `switch` stores for an escape. `'"'` and `'0'` have no `break`: the store of
-- the case below overwrites theirs.
unfoldable pub unescape : ℕ → Option ℕ
unescape e =
    if e == b'n'
    then some b'\n'
    else if e == b't'
    then some b'\t'
    else if e == b'\\'
    then some b'\\'
    else if e == b'"'
    then some b'\''
    else if e == b'\''
    then some b'\''
    else if e == b'0'
    then some b'\r'
    else if e == b'r'
    then some b'\r'
    else none

abbrev pub prepend : ℕ → Bytes → Outcome Bytes
prepend c s = ok (c ∷ s)

abbrev pub store : Option ℕ → Outcome Bytes → Outcome Bytes
store none rest = exited lexer_failed
store (some x) rest = rest >>= prepend x

-- The second pass: `char_count` characters, decoded.
unfoldable pub decode : ℕ → Bytes → Outcome Bytes
unfolding unescape
decode zero w = ok []
decode (suc n) [] = fault
decode (suc n) (c ∷ []) =
    let plain = (decode n [] >>= prepend c) in if c == b'\\' then fault else plain
decode (suc n) (c ∷ e ∷ w) =
    let plain = (decode n (e ∷ w) >>= prepend c) in
    let escaped = store (unescape e) (decode n w) in if c == b'\\' then escaped else plain

-- The text, and the distance to the closing byte.
unfoldable pub lex_string : Bytes → ℕ → Outcome (Bytes × ℕ)
unfolding measure decode
lex_string w end = do (n, k) ← measure end w; s ← decode n w; ok (s, k)
