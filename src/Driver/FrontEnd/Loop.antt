-- ===== src/Driver/FrontEnd/Loop.antt =====
-- src/main.c: what the loop over the import paths in `parse` keeps.
use mathlib.Core.Path.{subst}
use luka.Prelude.{
  ℕ, zero, suc, ◌<◌, ◌≡◌, refl, sym, ap, ◌∙◌, Bool, true, false, List, [], ◌∷◌, ◌++◌, map, Option,
  none, some, Bytes, str_eq, str_eq_iff, All, All-imp, arith, if◌then◌else◌,
}
use luka.Ast.{Module, Store}
use luka.Passes.Aliases.{Aliases}
use luka.Driver.State.{World, IsTable, Context, put_module}
use luka.Driver.Yields.{Yields, yields, faults, ◌⟫◌}
use luka.Driver.FrontEnd.{later_or, find_circular}
use luka.Driver.FrontEnd.Imports.{
  Entered, entered, put_module-same, put_module-other, put_module-path, Inv, Grows, Called,
}

pub All-snoc : (P : ℕ → Type 0) (xs : List ℕ) (x : ℕ) → All P xs → P x → All P (xs ++ (x ∷ []))
All-snoc P [] x h p = (p, tt)
All-snoc P (y ∷ ys) x h p = (h.0, All-snoc P ys x h.1 p)

-- Two functions that agree on the elements of a list have the same values on it.
pub map-All : (f g : ℕ → Bytes) (xs : List ℕ) → All (λ k. f k ≡ g k) xs → map f xs ≡ map g xs
map-All f g [] h = refl
map-All f g (x ∷ xs) h = let e = h.0 in let es = map-All f g xs h.1 in cc

pub map-snoc :
    (f : ℕ → Bytes) (xs : List ℕ) (x : ℕ) → map f (xs ++ (x ∷ [])) ≡ map f xs ++ (f x ∷ [])
map-snoc f [] x = refl
map-snoc f (y ∷ ys) x = ap (λ l. f y ∷ l) (map-snoc f ys x)

-- A module of that path, or none.
unfoldable pub FoundAt : Store → ℕ → Bytes → Option ℕ → Type 0
FoundAt store bound path none = Unit
FoundAt store bound path (some k) = (k < bound) × ((store k).file_path ≡ path)

FoundAt-test :
    (store : Store) (bound : ℕ) (path : Bytes) (m : ℕ)
    → m < bound
    → FoundAt store bound path (if str_eq path (store m).file_path then some m else none)
unfolding FoundAt
FoundAt-test store bound path m less = go (str_eq path (store m).file_path) refl
  where
    go :
        (b : Bool)
        → str_eq path (store m).file_path ≡ b
        → FoundAt store bound path (if b then some m else none)
    go true e = (less, sym ((str_eq_iff path _).0 e))
    go false e = tt

FoundAt-later_or :
    (store : Store) (bound : ℕ) (path : Bytes) (a b : Option ℕ)
    → FoundAt store bound path a
    → FoundAt store bound path b
    → FoundAt store bound path (later_or a b)
unfolding later_or
FoundAt-later_or store bound path none b h k = k
FoundAt-later_or store bound path (some m) b h k = h

-- What the loop over `modules` finds has the path that is looked for.
pub find_circular-FoundAt :
    (store : Store) (bound : ℕ) (path : Bytes) (rounds : ℕ) (ms : List (Option ℕ))
    → All (Entered bound) ms
    → Yields (FoundAt store bound path) (find_circular store path rounds ms)
unfolding find_circular
find_circular-FoundAt store bound path rounds [] h = faults
find_circular-FoundAt store bound path rounds (none ∷ ms) h = faults
find_circular-FoundAt store bound path zero (some m ∷ ms) h =
    yields (FoundAt-test store bound path m (below h.0))
  where
    below : {m : ℕ} → Entered bound (some m) → m < bound
    below (entered less) = less
find_circular-FoundAt store bound path (suc rounds) (some m ∷ ms) h =
    find_circular-FoundAt store bound path rounds ms h.1 ⟫ λ later found.
    yields (
      FoundAt-later_or store bound path later _ found (FoundAt-test store bound path m (below h.0)))
  where
    below : {m : ℕ} → Entered bound (some m) → m < bound
    below (entered less) = less

module _ (W : World) (lawful : IsTable W) where
  -- The module with the number `c0.next` is parsed, and the imports of the paths `seen` are behind it.
  pub record Loop (path : Bytes) (all : List Bytes) (c0 : Context W) (seen : List Bytes)
      (c : Context W) : Type 0 where
    pub inv : Inv W lawful c
    pub grows : Grows W lawful c0.next c0 c
    pub own_in : c0.next < c.next
    pub own_path : (c.store c0.next).file_path ≡ path
    pub import_paths_are : (c.store c0.next).import_paths ≡ all
    pub paths_are : map (λ k. (c.store k).file_path) (c.store c0.next).imports ≡ seen
    pub imports_in : All (λ k. k < c.next) (c.store c0.next).imports

  -- The module is put there again, with other declarations.
  pub Loop-put :
      (path : Bytes) (all : List Bytes) (c0 : Context W) (seen : List Bytes) (c : Context W)
      (m : Module) (aliases : Aliases) (now : Option ℕ)
      → Loop path all c0 seen c
      → m.file_path ≡ (c.store c0.next).file_path
      → m.import_paths ≡ (c.store c0.next).import_paths
      → m.imports ≡ (c.store c0.next).imports
      → Loop path all c0 seen (record c {
        store = put_module c0.next m c.store;
        type_aliases = aliases;
        current_module = now;
      })
  Loop-put path all c0 seen c m aliases now l same_path same_import_paths same_imports =
      let own = c0.next in
      let after = put_module own m c.store in
      let paths : (k : ℕ) → (after k).file_path ≡ (c.store k).file_path =
        λ k. put_module-path own m c.store k same_path in
      let here : after own ≡ m = put_module-same own m c.store in
      record {
        inv = record {
          table_is = λ p k e. ((l.inv.table_is p k e).0, paths k ∙ (l.inv.table_is p k e).1);
          modules_are = l.inv.modules_are;
        };
        grows = record {
          up = l.grows.up;
          paths = λ k less. paths k ∙ l.grows.paths k less;
          same = λ k less.
              put_module-other own m c.store k (λ e. omega (arith, e, less)) ∙ l.grows.same k less;
        };
        own_in = l.own_in;
        own_path = paths own ∙ l.own_path;
        import_paths_are = ap (λ x. x.import_paths) here ∙ same_import_paths ∙ l.import_paths_are;
        paths_are =
            ap (λ x. map (λ k. (after k).file_path) x.imports) here
            ∙ ap (λ x. map (λ k. (after k).file_path) x) same_imports
            ∙ map-All _ _ _ (All-imp (λ k. k < c.next) _ _ (λ k _. paths k) l.imports_in)
            ∙ l.paths_are;
        imports_in =
            subst (λ x. All (λ k. k < c.next) x) (sym (ap (λ x. x.imports) here ∙ same_imports))
              l.imports_in;
      }

  pub found-Called :
      (path : Bytes) (c : Context W) (m : ℕ)
      → Inv W lawful c
      → m < c.next
      → (c.store m).file_path ≡ path
      → Called W lawful path c (record c { current_module = some m })
  found-Called path c m inv less e = record {
    inv = record { table_is = inv.table_is; modules_are = inv.modules_are };
    grows = record { up = omega arith; paths = λ k _. refl; same = λ k _. refl };
    current = m;
    current_is = refl;
    inside = less;
    has_path = e;
  }
