-- ===== src/ErrorLine.antt =====
-- src/io.c: the line of the source that `IO_print_error` shows. The lines of tokens are counted from 1.
pub mod Exact
use luka.Prelude.{
  ℕ, zero, suc, ◌-◌, ◌==◌, Bool, true, false, [], ◌∷◌, Option, Bytes, take, if◌then◌else◌,
}
use luka.ReturnCode.{Outcome, ok, fault, of_option, ◌>>=◌}
use luka.Files.{file_contents}

-- The loop over the newlines in front of the line, with the lines that are still to be passed.
unfoldable pub skip_lines : ℕ → Bytes → Bytes
skip_lines k [] = []
skip_lines zero (c ∷ s) = c ∷ s
skip_lines (suc k) (c ∷ s) =
    let next_line = skip_lines k s in
    let same_line = skip_lines (suc k) s in if c == b'\n' then next_line else same_line

-- `io_linelen`
unfoldable pub line_length : Bytes → ℕ
line_length [] = 1
line_length (c ∷ s) = let rest = line_length s in if c == b'\n' then 1 else suc rest

-- What is copied with `strncpy`.
unfoldable pub line_of : ℕ → Bytes → Bytes
unfolding skip_lines line_length
line_of line contents = let rest = skip_lines (line - 1) contents in take (line_length rest) rest

-- The line that `IO_print_error` prints; the length of a file that is not there is asked for through NULL.
unfoldable pub error_line : ℕ → Option Bytes → Outcome Bytes
unfolding line_of file_contents
error_line line file = do contents ← of_option (file_contents file); ok (line_of line contents)
