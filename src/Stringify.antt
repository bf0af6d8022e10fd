-- ===== src/Stringify.antt =====
-- src/lib.c: `LIB_stringify`, which writes a text with the escapes of a string literal.
pub mod RoundTrip
use luka.Prelude.{ℕ, ◌+◌, Bool, ◌||◌, [], ◌∷◌, ◌++◌, Bytes, ◌==◌, if◌then◌else◌, ltb, length}

-- The bytes for which the first loop counts one more and the second writes two.
unfoldable pub needs_escape : ℕ → Bool
needs_escape c = c == b'\n' || c == b'\t' || c == b'\\' || c == b'"'

-- The first loop.
unfoldable pub count_chars : Bytes → ℕ
unfolding needs_escape
count_chars [] = 0
count_chars (c ∷ s) = (if needs_escape c then 2 else 1) + count_chars s

-- What the second loop writes for one byte.
unfoldable pub escape_byte : ℕ → Bytes
escape_byte c =
    if c == b'\n'
    then b'\\' ∷ b'n' ∷ []
    else if c == b'\t'
    then b'\\' ∷ b't' ∷ []
    else if c == b'\\'
    then b'\\' ∷ b'\\' ∷ []
    else if c == b'"'
    then b'\\' ∷ b'"' ∷ []
    else c ∷ []

-- The second loop, from position `pos = i + off` of the buffer on; it stops at `char_count`.
unfoldable pub fill : ℕ → ℕ → Bytes → Bytes
unfolding escape_byte
fill char_count pos [] = []
fill char_count pos (c ∷ s) =
    let written = escape_byte c in
    let rest = written ++ fill char_count (pos + length written) s in
    if ltb pos char_count then rest else []

unfoldable pub stringify : Bytes → Bytes
unfolding count_chars fill
stringify source = fill (count_chars source) 0 source
