-- ===== src/Driver/FrontEnd/Entry.antt =====
-- src/main.c: `parse`, how the module of a file is parsed and gets its place.
use mathlib.Core.Path.{subst}
use luka.Prelude.{
  ℕ, ◌+◌, ◌<◌, ◌≡◌, refl, sym, ap, ◌∙◌, List, [], ◌∷◌, map, Option, none, some, Bytes, All, arith,
}
use luka.ReturnCode.{ok}
use luka.Token.{Token}
use luka.Ast.{Module}
use luka.Passes.Aliases.{Aliases}
use luka.Parser.File.{parse_file, initialize_module}
use luka.Parser.Progress.{Head}
use luka.Parser.Progress.File.{parse_file-Head}
use luka.Driver.State.{World, IsTable, Context, put_module, set_entry}
use luka.Driver.Yields.{Yields, yields, returns, faults, ◌⟫◌, known_only}
use luka.Driver.FrontEnd.{none_failed, parse_tokens, enter_module}
use luka.Driver.FrontEnd.Imports.{
  Entered, entered, Entered-weaken, put_module-same, put_module-other, Inv,
}
use luka.Driver.FrontEnd.Loop.{Loop}

entries-weaken : (b : ℕ) (es : List (Option ℕ)) → All (Entered b) es → All (Entered (b + 1)) es
entries-weaken b [] h = tt
entries-weaken b (e ∷ es) h = (Entered-weaken (omega arith) h.0, entries-weaken b es h.1)

set_entry-Entered :
    {b : ℕ} (i m : ℕ) (es : List (Option ℕ))
    → m < b
    → All (Entered b) es
    → All (Entered b) (set_entry i m es)
unfolding set_entry
set_entry-Entered i m [] less h = tt
set_entry-Entered ℕ.zero m (e ∷ es) less h = (entered less, h.1)
set_entry-Entered (ℕ.suc i) m (e ∷ es) less h = (h.0, set_entry-Entered i m es less h.1)

none_failed-Head :
    (k : Module) (parsed : Option Module)
    → ((m : Module) → parsed ≡ some m → Head k m)
    → Yields (Head k) (none_failed parsed)
unfolding none_failed
none_failed-Head k none h = returns
none_failed-Head k (some m) h = yields (h m refl)

module _ (W : World) (lawful : IsTable W) (limit : ℕ) where
  pub parse_tokens-Head :
      (path : Bytes) (tokens : List Token) (aliases : Aliases)
      → Yields (λ r. Head (initialize_module path) r.0) (parse_tokens W limit path tokens aliases)
  unfolding parse_tokens none_failed
  parse_tokens-Head path tokens aliases = known_only (parse_file W.libc W.files tokens _) ⟫ λ r e.
      none_failed-Head _ r.0 (λ m same.
        parse_file-Head W.libc W.files tokens path aliases m r.1 (e ∙ ap (λ x. ok (x, r.1)) same))
      ⟫ λ m h. yields h

  -- A module gets the number `c.next`, and has no imports yet.
  put_first-Loop :
      (path : Bytes) (module_ : Module) (c : Context W) (entries : List (Option ℕ))
      → Inv W lawful c
      → Head (initialize_module path) module_
      → All (Entered (c.next + 1)) entries
      → Loop W lawful path module_.import_paths c [] (record c {
        store = put_module c.next module_ c.store;
        next = c.next + 1;
        modules = entries;
      })
  unfolding Head initialize_module
  put_first-Loop path module_ c entries inv h entries_are =
      let after = put_module c.next module_ c.store in
      let here : after c.next ≡ module_ = put_module-same c.next module_ c.store in
      let other : (k : ℕ) → k < c.next → after k ≡ c.store k =
        λ k less. put_module-other c.next module_ c.store k (λ e. omega (arith, e, less)) in
      let none_yet : (after c.next).imports ≡ [] = ap (λ x. x.imports) here ∙ h.1 in
      record {
        inv = record {
          table_is = λ p k e.
              let old = inv.table_is p k e in
              (omega (arith, old.0), ap (λ x. x.file_path) (other k old.0) ∙ old.1);
          modules_are = entries_are;
        };
        grows = record {
          up = omega arith;
          paths = λ k less. ap (λ x. x.file_path) (other k less);
          same = other;
        };
        own_in = omega arith;
        own_path = ap (λ x. x.file_path) here ∙ h.0;
        import_paths_are = ap (λ x. x.import_paths) here;
        paths_are = ap (λ x. map (λ k. (after k).file_path) x) none_yet;
        imports_in = subst (λ x. All (λ k. k < c.next + 1) x) (sym none_yet) tt;
      }

  pub enter_module-Loop :
      (path : Bytes) (module_ : Module) (c : Context W) (entry : Option (Option ℕ))
      → Inv W lawful c
      → Head (initialize_module path) module_
      → Yields (Loop W lawful path module_.import_paths c []) (enter_module W limit module_ c entry)
  unfolding enter_module
  enter_module-Loop path module_ c none inv h = faults
  enter_module-Loop path module_ c (some (some m)) inv h =
      yields
        (put_first-Loop path module_ c c.modules inv h (entries-weaken c.next _ inv.modules_are))
  enter_module-Loop path module_ c (some none) inv h = yields (
      put_first-Loop path module_ c _ inv h (
        set_entry-Entered c.file_index c.next _ (omega arith)
          (entries-weaken c.next _ inv.modules_are)))
