-- ===== src/Paths/Import.antt =====
-- src/io.c: `IO_resolve_path`, on a file system that is a parameter.
pub mod Ends
use luka.Prelude.{
  ◌-◌, Bool, true, false, not, ◌&&◌, List, [], ◌∷◌, ◌++◌, Option, none, some, Bytes, codes, length,
  leb, ◌==◌, if◌then◌else◌,
}
use luka.ReturnCode.{Outcome, ok, fault, ◌>>=◌, of_option}
use luka.Lexer.Ctype.{read}
use luka.Paths.{is_absolute, is_relative, add_extension}

-- What the C library says of paths: `realpath`, with `none` for NULL, `dirname`, which may be given
-- NULL, and whether `stat` finds the file.
pub record FileSystem : Type 0 where
  pub realpath : Bytes → Option Bytes
  pub dirname : Option Bytes → Bytes
  pub file_exists : Bytes → Bool

abbrev pub system_paths : List Bytes
system_paths = codes "/usr/local/lib/luka/" ∷ codes "/usr/lib/luka/" ∷ []

module _ (fs : FileSystem) where
  -- The loop over the system's paths.
  unfoldable pub find_system : List Bytes → Bytes → Outcome (Option Bytes)
  unfolding add_extension
  find_system [] requested = ok none
  find_system (dir ∷ dirs) requested = do
    let later = find_system dirs requested
    path ← add_extension (dir ++ requested)
    if fs.file_exists path then ok (some path) else later

  -- What is in front of the requested path if the system has no such file.
  unfoldable pub directory : Bytes → Bool → Outcome Bytes
  directory current true = ok (fs.dirname (fs.realpath current))
  directory current false = of_option (fs.realpath current)

  -- `path[strlen(path) - 1] != PATH_SEPERATOR`
  unfoldable pub add_separator : Bytes → Outcome Bytes
  add_separator [] = fault
  add_separator (c ∷ path) = do
    last ← read (c ∷ path) (length (c ∷ path) - 1)
    ok (if last == b'/' then c ∷ path else (c ∷ path) ++ codes "/")

  -- The file beside the current one.
  unfoldable pub beside : Bytes → Bytes → Bool → Outcome Bytes
  unfolding directory add_separator add_extension
  beside requested current in_import = do
    dir ← directory current in_import
    prefix ← add_separator dir
    add_extension (prefix ++ requested)

  -- The path that is returned, with `none` for NULL.
  unfoldable pub absolute : Bytes → Option Bytes
  absolute path = elim (fs.realpath path) [
    | some p ↦ some p
    | none ↦ if fs.file_exists path then some path else none
  ]

  -- A path that is absolute is copied to a buffer of `PATH_MAX` bytes.
  unfoldable pub complete_path : Bytes → Outcome (Option Bytes)
  unfolding add_extension
  complete_path requested = do
    path ← if leb 4096 (length requested) then fault else add_extension requested
    ok (some path)

  -- A path that is looked for, in the system first.
  unfoldable pub search_path : Bytes → Bytes → Bool → Outcome (Option Bytes)
  unfolding is_relative find_system beside absolute
  search_path requested current in_import = do
    system ←
        if in_import && not (is_relative requested)
        then find_system system_paths requested
        else ok none
    path ← elim system [ some path ↦ ok path | none ↦ beside requested current in_import ]
    ok (absolute path)

  -- `IO_resolve_path`
  unfoldable pub resolve_path : Bytes → Bytes → Bool → Outcome (Option Bytes)
  unfolding is_absolute complete_path search_path
  resolve_path requested current in_import =
      let completed = complete_path requested in
      let searched = search_path requested current in_import in
      if is_absolute requested then completed else searched
