-- ===== src/Paths/Import/Ends.antt =====
-- src/io.c: `IO_resolve_path` ends.
use luka.Prelude.{
  ℕ, zero, suc, ◌+◌, Bool, true, false, if-ne, Option, none, some, List, [], ◌∷◌, Bytes, ◌++◌, ◌-◌,
  ◌==◌, length, get_elem?, ltb, leb, codes, not, ◌&&◌, if◌then◌else◌,
}
use luka.ReturnCode.{ok, fault, Ends, of_option, >>=-ne-out_of_fuel}
use luka.Lexer.Ctype.{terminator}
use luka.Paths.{is_absolute, is_relative, ends_loop, ends_with, add_extension}
use luka.Paths.Import.{
  FileSystem, find_system, system_paths, directory, add_separator, beside, absolute, complete_path,
  search_path, resolve_path,
}

ok-Ends : {A : Type 0} (a : A) → Ends (ok a)
ok-Ends a = cc

of_option-Ends : {A : Type 0} (o : Option A) → Ends (of_option o)
of_option-Ends none = cc
of_option-Ends (some a) = cc

ends_loop-Ends : (n i : ℕ) (path end : Bytes) → Ends (ends_loop n i path end)
unfolding ends_loop
ends_loop-Ends zero i path end = cc
ends_loop-Ends (suc n) i path end =
    >>=-ne-out_of_fuel _ _ (of_option-Ends (get_elem? (path ++ terminator) (length path - i))) λ a.
      >>=-ne-out_of_fuel _ _ (of_option-Ends (get_elem? (end ++ terminator) (length end - i)))
        λ b. if-ne (a == b) (ends_loop-Ends n (i + 1) path end) (ok-Ends i)

ends_with-Ends : (path end : Bytes) → Ends (ends_with path end)
unfolding ends_with
ends_with-Ends path end = if-ne (ltb (length path) (length end)) (ok-Ends false) (
    >>=-ne-out_of_fuel (ends_loop (length end + 1) 0 path end) _
      (ends_loop-Ends (length end + 1) 0 path end) λ i. ok-Ends (i - 1 == length end))

add_extension-Ends : (path : Bytes) → Ends (add_extension path)
unfolding add_extension
add_extension-Ends path =
    >>=-ne-out_of_fuel (ends_with path (codes ".luka")) _ (ends_with-Ends path (codes ".luka"))
      λ e. ok-Ends (if e then path else path ++ codes ".luka")

module _ (fs : FileSystem) where
  find_system-Ends : (dirs : List Bytes) (s : Bytes) → Ends (find_system fs dirs s)
  unfolding find_system
  find_system-Ends [] s = cc
  find_system-Ends (dir ∷ dirs) s =
      >>=-ne-out_of_fuel _ _ (add_extension-Ends (dir ++ s))
        λ path. if-ne (fs.file_exists path) (ok-Ends (some path)) (find_system-Ends dirs s)

  directory-Ends : (current : Bytes) (x : Bool) → Ends (directory fs current x)
  unfolding directory
  directory-Ends current true = cc
  directory-Ends current false = of_option-Ends (fs.realpath current)

  add_separator-Ends : (path : Bytes) → Ends (add_separator fs path)
  unfolding add_separator
  add_separator-Ends [] = cc
  add_separator-Ends (c ∷ path) =
      >>=-ne-out_of_fuel _ _ (of_option-Ends (get_elem? (c ∷ path) (length (c ∷ path) - 1)))
        λ l. ok-Ends (if l == b'/' then c ∷ path else (c ∷ path) ++ codes "/")

  beside-Ends : (s current : Bytes) (x : Bool) → Ends (beside fs s current x)
  unfolding beside
  beside-Ends s current x = >>=-ne-out_of_fuel _ _ (directory-Ends current x) λ dir.
      >>=-ne-out_of_fuel _ _ (add_separator-Ends dir) λ prefix. add_extension-Ends (prefix ++ s)

  complete_path-Ends : (s : Bytes) → Ends (complete_path fs s)
  unfolding complete_path
  complete_path-Ends s =
      >>=-ne-out_of_fuel (if leb 4096 (length s) then fault else add_extension s) _
        (if-ne (leb 4096 (length s)) (cc) (add_extension-Ends s)) λ path. ok-Ends (some path)

  found-Ends :
      (s current : Bytes) (x : Bool) (o : Option Bytes)
      → Ends (elim o [ some path ↦ ok path | none ↦ beside fs s current x ])
  found-Ends s current x none = beside-Ends s current x
  found-Ends s current x (some path) = cc

  search_path-Ends : (s current : Bytes) (x : Bool) → Ends (search_path fs s current x)
  unfolding search_path
  search_path-Ends s current x =
      >>=-ne-out_of_fuel
        (if x && not (is_relative s) then find_system fs system_paths s else ok none) _
        (if-ne (x && not (is_relative s)) (find_system-Ends system_paths s) (ok-Ends none))
        λ o. >>=-ne-out_of_fuel _ _ (found-Ends s current x o) λ path. ok-Ends (absolute fs path)

  pub resolve_path-Ends : (s current : Bytes) (x : Bool) → Ends (resolve_path fs s current x)
  unfolding resolve_path
  resolve_path-Ends s current x =
      if-ne (is_absolute s) (complete_path-Ends s) (search_path-Ends s current x)
