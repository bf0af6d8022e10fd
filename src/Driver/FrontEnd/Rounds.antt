-- ===== src/Driver/FrontEnd/Rounds.antt =====
-- src/main.c: the rounds of the loop over the import paths in `parse`.
use mathlib.Core.Path.{subst}
use luka.Prelude.{
  ℕ, ◌<◌, ◌≡◌, refl, sym, ap, ◌∙◌, inl, inr, List, [], ◌∷◌, ◌++◌, map, append_assoc, append-nil,
  Option, none, some, Bytes, All, All-imp, arith,
}
use luka.ReturnCode.{Outcome}
use luka.Driver.State.{World, IsTable, Context, put_module}
use luka.Driver.Yields.{Yields, yields, Yields-some, ◌⟫◌}
use luka.Driver.FrontEnd.{
  unless_found, current_import, add_imported, push_import, import_one, import_all,
}
use luka.Driver.FrontEnd.Imports.{
  put_module-same, put_module-other, put_module-path, Inv, Grows, Grows-trans, Called,
}
use luka.Driver.FrontEnd.Loop.{
  FoundAt, find_circular-FoundAt, Loop, found-Called, All-snoc, map-All, map-snoc,
}

module _ (W : World) (lawful : IsTable W) where
  module _ (limit : ℕ) (call : Bytes → Context W → Outcome (Context W))
      (spec : (path : Bytes) (c : Context W)
        → Inv W lawful c
        → Yields (Called W lawful path c) (call path c)) where
    unless_found-Called :
        (path : Bytes) (c : Context W) (found : Option ℕ)
        → Inv W lawful c
        → FoundAt c.store c.next path found
        → Yields (Called W lawful path c) (unless_found W limit call path c found)
    unfolding unless_found FoundAt
    unless_found-Called path c none inv h = spec path c inv
    unless_found-Called path c (some m) inv h = yields (found-Called W lawful path c m inv h.0 h.1)

    -- Wherever the module of an import comes from, it has the path of the import.
    current_import-Called :
        (path : Bytes) (c : Context W) (found : Option ℕ)
        → Inv W lawful c
        → W.find c.imported_modules path ≡ found
        → Yields (Called W lawful path c) (current_import W limit call path c found)
    unfolding current_import
    current_import-Called path c (some m) inv e =
        let h = inv.table_is path m e in yields (found-Called W lawful path c m inv h.0 h.1)
    current_import-Called path c none inv e =
        find_circular-FoundAt c.store c.next path c.file_index c.modules inv.modules_are
        ⟫ λ found h. unless_found-Called path c found inv h

    -- The loop goes on behind a call for an import.
    Called-Loop :
        (file : Bytes) (all : List Bytes) (c0 : Context W) (seen : List Bytes) (c d : Context W)
        (path : Bytes) (l : Loop W lawful file all c0 seen c) (h : Called W lawful path c d)
        → Loop W lawful file all c0 (seen ++ (path ∷ [])) (push_import W limit c0.next h.current d)
    unfolding push_import
    Called-Loop file all c0 seen c d path l h =
        let own = c0.next in
        let m = record (d.store own) { imports = (d.store own).imports ++ (h.current ∷ []) } in
        let after = put_module own m d.store in
        let paths : (k : ℕ) → (after k).file_path ≡ (d.store k).file_path =
          λ k. put_module-path own m d.store k refl in
        let here : after own ≡ m = put_module-same own m d.store in
        let same : d.store own ≡ c.store own = h.grows.same own l.own_in in
        let grown : Grows W lawful own c0 d =
          Grows-trans W lawful (omega (arith, l.own_in)) l.grows h.grows in
        let path_of : ℕ → Bytes = λ k. (after k).file_path in
        let imports_are : (after own).imports ≡ (c.store own).imports ++ (h.current ∷ []) =
          ap (λ x. x.imports) here ∙ ap (λ x. x.imports ++ (h.current ∷ [])) same in
        record {
          inv = record {
            table_is = λ p k e. ((h.inv.table_is p k e).0, paths k ∙ (h.inv.table_is p k e).1);
            modules_are = h.inv.modules_are;
          };
          grows = record {
            up = grown.up;
            paths = λ k less. paths k ∙ grown.paths k less;
            same = λ k less.
                put_module-other own m d.store k (λ e. omega (arith, e, less)) ∙ grown.same k less;
          };
          own_in = omega (arith, l.own_in, h.grows.up);
          own_path = paths own ∙ ap (λ x. x.file_path) same ∙ l.own_path;
          import_paths_are =
              ap (λ x. x.import_paths) here ∙ ap (λ x. x.import_paths) same ∙ l.import_paths_are;
          paths_are =
              ap (map path_of) imports_are
              ∙ map-snoc path_of (c.store own).imports h.current
              ∙ ap (λ x. x ++ (path_of h.current ∷ []))
                  (map-All _ _ _ (
                      All-imp (λ k. k < c.next) _ _ (λ k less. paths k ∙ h.grows.paths k less)
                        l.imports_in)
                    ∙ l.paths_are)
              ∙ ap (λ x. seen ++ (x ∷ [])) (paths h.current ∙ h.has_path);
          imports_in =
              subst (λ x. All (λ k. k < d.next) x) (sym imports_are)
                (All-snoc _ _ _
                  (All-imp (λ k. k < c.next) _ _ (λ k less. omega (arith, less, h.grows.up))
                    l.imports_in)
                  h.inside);
        }

    added-Loop :
        (file : Bytes) (all : List Bytes) (c0 : Context W) (seen : List Bytes) (c : Context W)
        (path : Bytes) (m : ℕ) (found : Option ℕ)
        → Loop W lawful file all c0 seen c
        → m < c.next
        → (c.store m).file_path ≡ path
        → Loop W lawful file all c0 seen (add_imported W limit path m c found)
    unfolding add_imported
    added-Loop file all c0 seen c path m (some k) l less e = l
    added-Loop file all c0 seen c path m none l less e = record {
      inv = record {
        table_is = λ other k found. elim (lawful.find-add c.imported_modules path m other k found) [
          | inl same ↦
              (omega (arith, same.1, less), ap (λ x. (c.store x).file_path) same.1 ∙ e ∙ sym same.0)
          | inr before ↦ l.inv.table_is other k before
        ];
        modules_are = l.inv.modules_are;
      };
      grows = record { up = l.grows.up; paths = l.grows.paths; same = l.grows.same };
      own_in = l.own_in;
      own_path = l.own_path;
      import_paths_are = l.import_paths_are;
      paths_are = l.paths_are;
      imports_in = l.imports_in;
    }

    import_one-Loop :
        (file : Bytes) (all : List Bytes) (c0 : Context W) (seen : List Bytes) (c : Context W)
        (path : Bytes)
        → Loop W lawful file all c0 seen c
        → Yields
            (Loop W lawful file all c0 (seen ++ (path ∷ [])))
            (import_one W limit call file c0.next path c)
    unfolding import_one push_import
    import_one-Loop file all c0 seen c path l = current_import-Called path c _ l.inv refl ⟫ λ d h.
        Yields-some _ h.current_is (
          yields (
            added-Loop file all c0 _ _ path h.current _ (Called-Loop file all c0 seen c d path l h)
              h.inside (put_module-path c0.next _ d.store h.current refl ∙ h.has_path)))

    -- Behind the loop there is an import for each path.
    pub import_all-Loop :
        (file : Bytes) (all : List Bytes) (c0 : Context W) (seen paths : List Bytes) (c : Context W)
        → Loop W lawful file all c0 seen c
        → Yields
            (Loop W lawful file all c0 (seen ++ paths))
            (import_all W limit call file c0.next paths c)
    unfolding import_all
    import_all-Loop file all c0 seen [] c l =
        yields (subst (λ x. Loop W lawful file all c0 x c) (sym (append-nil seen)) l)
    import_all-Loop file all c0 seen (path ∷ paths) c l =
        import_one-Loop file all c0 seen c path l ⟫ λ d k.
        subst
          (λ x. Yields (Loop W lawful file all c0 x) (import_all W limit call file c0.next paths d))
          (append_assoc seen (path ∷ []) paths)
          (import_all-Loop file all c0 (seen ++ (path ∷ [])) paths d k)
