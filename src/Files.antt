-- ===== src/Files.antt =====
-- src/io.c: `IO_get_file_contents`.
use luka.Prelude.{◌==◌, [], ◌∷◌, ◌++◌, Option, none, some, Bytes, if◌then◌else◌}

-- The C string at the front of some bytes.
unfoldable pub c_string : Bytes → Bytes
c_string [] = []
c_string (c ∷ s) = let rest = c_string s in if c == 0 then [] else c ∷ rest

-- `IO_get_file_contents`, which puts the byte of EOF behind the file.
unfoldable pub file_contents : Option Bytes → Option Bytes
unfolding c_string
file_contents none = none
file_contents (some s) = some (c_string (s ++ (255 ∷ [])))
