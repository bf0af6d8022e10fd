-- ===== src/Paths.antt =====
-- src/io.c: the tests on paths and the extension of source files, with `/` as the separator.
pub mod Kinds
pub mod Ends
pub mod Import
use luka.Prelude.{
  zero, ◌+◌, ◌-◌, ◌++◌, ℕ, suc, Bool, true, false, ◌||◌, ◌&&◌, [], ◌∷◌, Bytes, codes, length, ltb,
  ◌==◌, if◌then◌else◌,
}
use luka.ReturnCode.{Outcome, ok, ◌>>=◌}
use luka.Lexer.Ctype.{is_alpha, read, terminator}

-- The loop of `io_starts_with`: the value of `i` behind it. It stops behind the last byte of `start`.
unfoldable pub matched : Bytes → Bytes → ℕ
matched path [] = 0
matched [] (s ∷ start) = 0
matched (p ∷ path) (s ∷ start) = let more = suc (matched path start) in if p == s then more else 0

unfoldable pub starts_with : Bytes → Bytes → Bool
unfolding matched
starts_with path start =
    if ltb (length path) (length start) then false else matched path start == length start

-- `io_is_absolute`, on a string of no byte, of one, of two or of more.
unfoldable pub is_absolute : Bytes → Bool
unfolding is_alpha
is_absolute [] = false
is_absolute (a ∷ []) = a == b'/'
is_absolute (a ∷ b ∷ []) = a == b'/'
is_absolute (a ∷ b ∷ c ∷ path) = a == b'/' || (is_alpha a && (b == b':' && c == b'\\'))

unfoldable pub is_relative : Bytes → Bool
unfolding starts_with
is_relative path = starts_with path (codes "./") || starts_with path (codes "../")

-- The loop of `io_ends_with`, in its last `n` rounds: the value of `i` behind it. The first round
-- compares the terminators.
unfoldable pub ends_loop : ℕ → ℕ → Bytes → Bytes → Outcome ℕ
ends_loop zero i path end = ok i
ends_loop (suc n) i path end = do
  let more = ends_loop n (i + 1) path end
  a ← read (path ++ terminator) (length path - i)
  b ← read (end ++ terminator) (length end - i)
  if a == b then more else ok i

unfoldable pub ends_with : Bytes → Bytes → Outcome Bool
unfolding ends_loop
ends_with path end =
    let compared = (ends_loop (length end + 1) 0 path end >>= λ i. ok (i - 1 == length end)) in
    if ltb (length path) (length end) then ok false else compared

-- `io_ends_with` and `io_append_path` with the extension of source files.
unfoldable pub add_extension : Bytes → Outcome Bytes
unfolding ends_with
add_extension path = do
  e ← ends_with path (codes ".luka")
  ok (if e then path else path ++ codes ".luka")
