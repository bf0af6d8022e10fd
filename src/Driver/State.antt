-- ===== src/Driver/State.antt =====
-- src/main_internal.h: `t_main_context`, as far as the front end uses it, and what it takes from elsewhere.
use luka.Prelude.{ℕ, ◌≡◌, ◌⊎◌, ◌==◌, List, [], ◌∷◌, Option, some, Bytes, if◌then◌else◌}
use luka.Token.{Token}
use luka.Ast.{Module, Store}
use luka.Parser.State.{Libc}
use luka.Paths.Import.{FileSystem}
use luka.Passes.Aliases.{Aliases}

-- The vector library, the hash table of the imported modules by their paths, and the contents of files.
pub record World : Type 1 where
  pub libc : Libc
  pub files : FileSystem
  pub read_file : Bytes → Option Bytes
  pub Vector : Type 0
  pub empty_vector : Vector
  pub push_back : Vector → Token → Option Vector
  pub elements : Vector → List Token
  pub Table : Type 0
  pub find : Table → Bytes → Option ℕ
  pub add : Bytes → ℕ → Table → Table

-- What is found in a table behind an addition was added, or was there before.
pub record IsTable (W : World) : Type 0 where
  pub find-add :
      (t : W.Table) (path : Bytes) (m : ℕ) (other : Bytes) (k : ℕ)
      → W.find (W.add path m t) other ≡ some k
      → ((other ≡ path) × (k ≡ m)) ⊎ (W.find t other ≡ some k)

-- `modules` has an entry for each file of the command line, which is NULL before the file is parsed. The
-- modules lie in the store, below `next`.
pub record Context (W : World) : Type 0 where
  pub store : Store
  pub next : ℕ
  pub modules : List (Option ℕ)
  pub file_index : ℕ
  pub current_module : Option ℕ
  pub imported_modules : W.Table
  pub type_aliases : Aliases

unfoldable pub put_module : ℕ → Module → Store → Store
put_module m module_ store k = if k == m then module_ else store k

-- A store through an element of `modules`.
unfoldable pub set_entry : ℕ → ℕ → List (Option ℕ) → List (Option ℕ)
set_entry i m [] = []
set_entry ℕ.zero m (e ∷ es) = some m ∷ es
set_entry (ℕ.suc i) m (e ∷ es) = e ∷ set_entry i m es
