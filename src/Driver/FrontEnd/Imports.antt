-- ===== src/Driver/FrontEnd/Imports.antt =====
-- src/main.c: the imports of a module are the modules of its import paths.
use native.Mathlib.Nat.{le_trans}
use luka.Prelude.{
  ℕ, ◌<◌, ◌≤◌, ◌≡◌, refl, sym, ap, ◌∙◌, Bool, true, false, map, Option, none, some, Bytes, ◌==◌,
  ==_iff, All, arith, if◌then◌else◌,
}
use luka.Ast.{Module, Store}
use luka.Driver.State.{World, IsTable, Context, put_module}

-- The entry of `modules` is a module below a bound.
pub data Entered (bound : ℕ) : Option ℕ → Type 0 where
  not_yet : Entered bound none
  entered : {m : ℕ} → m < bound → Entered bound (some m)

pub Entered-weaken : {a b : ℕ} {e : Option ℕ} → a ≤ b → Entered a e → Entered b e
Entered-weaken le not_yet = not_yet
Entered-weaken le (entered h) = entered (omega (arith, h, le))

pub put_module-same :
    (m : ℕ) (module_ : Module) (store : Store) → put_module m module_ store m ≡ module_
unfolding put_module
put_module-same m module_ store = rw ((==_iff m m).1 refl) refl

pub put_module-other :
    (m : ℕ) (module_ : Module) (store : Store) (k : ℕ)
    → (k ≡ m → ⊥)
    → put_module m module_ store k ≡ store k
unfolding put_module
put_module-other m module_ store k differs = go (k == m) refl
  where
    go : (b : Bool) → (k == m) ≡ b → (if b then module_ else store k) ≡ store k
    go true e = absurd (differs ((==_iff k m).0 e))
    go false e = refl

-- The path of a module does not change with what else is put there.
pub put_module-path :
    (m : ℕ) (module_ : Module) (store : Store) (k : ℕ)
    → module_.file_path ≡ (store m).file_path
    → (put_module m module_ store k).file_path ≡ (store k).file_path
unfolding put_module
put_module-path m module_ store k h = go (k == m) refl
  where
    go :
        (b : Bool) → (k == m) ≡ b → (if b then module_ else store k).file_path ≡ (store k).file_path
    go true e = h ∙ ap (λ x. (store x).file_path) (sym ((==_iff k m).0 e))
    go false e = refl

module _ (W : World) (lawful : IsTable W) where
  -- The table leads from a path to a module of that path.
  pub record Inv (c : Context W) : Type 0 where
    pub table_is :
        (path : Bytes) (k : ℕ)
        → W.find c.imported_modules path ≡ some k
        → (k < c.next) × ((c.store k).file_path ≡ path)
    pub modules_are : All (Entered c.next) c.modules

  -- From `c` to `d` modules keep their paths, and those below `low` stay as they are.
  pub record Grows (low : ℕ) (c d : Context W) : Type 0 where
    pub up : c.next ≤ d.next
    pub paths : (k : ℕ) → k < c.next → (d.store k).file_path ≡ (c.store k).file_path
    pub same : (k : ℕ) → k < low → d.store k ≡ c.store k

  pub Grows-trans :
      {low high : ℕ} {c d e : Context W}
      → low ≤ high
      → Grows low c d
      → Grows high d e
      → Grows low c e
  Grows-trans le g h = record {
    up = le_trans g.up h.up;
    paths = λ k less. h.paths k (omega (arith, less, g.up)) ∙ g.paths k less;
    same = λ k less. h.same k (omega (arith, less, le)) ∙ g.same k less;
  }

  -- What is there behind a call for a path: its module is the current one.
  pub record Called (path : Bytes) (c d : Context W) : Type 0 where
    pub inv : Inv d
    pub grows : Grows c.next c d
    pub current : ℕ
    pub current_is : d.current_module ≡ some current
    pub inside : current < d.next
    pub has_path : (d.store current).file_path ≡ path

  -- The import paths of a module are the paths of its imports, in their order, and the imports are there.
  pub record Linked (d : Context W) (m : ℕ) : Type 0 where
    pub paths_are : map (λ k. (d.store k).file_path) (d.store m).imports ≡ (d.store m).import_paths
    pub imports_in : All (λ k. k < d.next) (d.store m).imports
