-- ===== src/Driver/FrontEnd/Fuel.antt =====
-- src/main.c: how deep `frontend` calls itself.
use mathlib.Core.Path.{subst}
use luka.Prelude.{
  ℕ, zero, suc, ◌<◌, ◌≡◌, refl, sym, ap, ◌∙◌, List, [], ◌∷◌, Option, none, some, Bytes, All,
  All-imp, arith,
}
use luka.ReturnCode.{Outcome, ok, returned, exited, fault, out_of_fuel, ◌>>=◌}
use luka.Token.{Token}
use luka.Ast.{Module}
use luka.Passes.Aliases.{Aliases}
use luka.Driver.{each_in, first_passes}
use luka.Driver.State.{World, Context}
use luka.Driver.Yields.{Yields, yields, faults, value_of, ◌⟫◌, known_only}
use luka.Driver.FrontEnd.{
  lex, parse_tokens, enter_module, complete_functions, fix_module, unless_found, current_import,
  find_circular, import_one, import_all, parse, type_check, frontend, frontend_above,
}
use luka.Driver.FrontEnd.Imports.{put_module-same}

-- Two runs that go on alike behind the same start are the same.
>>=-cong :
    {A B : Type 0} (o : Outcome A) (f g : A → Outcome B)
    → ((a : A) → o ≡ ok a → f a ≡ g a)
    → (o >>= f) ≡ (o >>= g)
>>=-cong (ok a) f g h = h a refl
>>=-cong (returned c) f g h = refl
>>=-cong (exited c) f g h = refl
>>=-cong fault f g h = refl
>>=-cong out_of_fuel f g h = refl

module _ (W : World) (limit : ℕ) where
  module _ (call call' : Bytes → Context W → Outcome (Context W)) where
    -- The calls for a path are the same.
    abbrev Agree : Bytes → Type 0
    Agree path = (c : Context W) → call path c ≡ call' path c

    unless_found-Agree :
        (path : Bytes) (c : Context W) (found : Option ℕ)
        → Agree path
        → unless_found W limit call path c found ≡ unless_found W limit call' path c found
    unfolding unless_found
    unless_found-Agree path c none h = h c
    unless_found-Agree path c (some m) h = refl

    current_import-Agree :
        (path : Bytes) (c : Context W) (found : Option ℕ)
        → Agree path
        → current_import W limit call path c found ≡ current_import W limit call' path c found
    unfolding current_import
    current_import-Agree path c (some m) h = refl
    current_import-Agree path c none h =
        >>=-cong (find_circular c.store path c.file_index c.modules) _ _
          λ found e. unless_found-Agree path c found h

    import_one-Agree :
        (file : Bytes) (own : ℕ) (path : Bytes) (c : Context W)
        → Agree path
        → import_one W limit call file own path c ≡ import_one W limit call' file own path c
    unfolding import_one
    import_one-Agree file own path c h =
        rw (current_import-Agree path c (W.find c.imported_modules path) h) refl

    -- The loop over the import paths makes calls for these only.
    import_all-Agree :
        (file : Bytes) (own : ℕ) (paths : List Bytes) (c : Context W)
        → All Agree paths
        → import_all W limit call file own paths c ≡ import_all W limit call' file own paths c
    unfolding import_all
    import_all-Agree file own [] c h = refl
    import_all-Agree file own (path ∷ paths) c h =
        ap (λ o. o >>= import_all W limit call file own paths)
          (import_one-Agree file own path c h.0)
        ∙ >>=-cong (import_one W limit call' file own path c) _ _
            λ d e. import_all-Agree file own paths d h.1

  enter_module-import_paths :
      (module_ : Module) (c : Context W) (entry : Option (Option ℕ))
      → Yields
          (λ d. (d.store c.next).import_paths ≡ module_.import_paths)
          (enter_module W limit module_ c entry)
  unfolding enter_module
  enter_module-import_paths module_ c none = faults
  enter_module-import_paths module_ c (some (some m)) =
      yields (ap (λ x. x.import_paths) (put_module-same c.next module_ c.store))
  enter_module-import_paths module_ c (some none) =
      yields (ap (λ x. x.import_paths) (put_module-same c.next module_ c.store))

  complete_functions-import_paths :
      (own : ℕ) (c : Context W)
      → Yields
          (λ d. (d.store own).import_paths ≡ (c.store own).import_paths)
          (complete_functions W limit own c)
  unfolding complete_functions
  complete_functions-import_paths own c =
      known_only (each_in (first_passes c.store limit own) (c.store own).functions tt) ⟫ λ r e.
      yields (
        ap (λ x. x.import_paths)
          (put_module-same own (record (c.store own) { functions = r.0 }) c.store))

  -- The same for two runs over any two bottoms.
  above-Agree :
      (rank : Bytes → ℕ)
      → ((path : Bytes) (tokens : List Token) (aliases aliases' : Aliases) (module_ : Module)
          → lex W limit path ≡ ok tokens
          → parse_tokens W limit path tokens aliases ≡ ok (module_, aliases')
          → All (λ import_path. rank import_path < rank path) module_.import_paths)
      → (bottom bottom' : Bytes → Context W → Outcome (Context W)) (fuel more : ℕ) (path : Bytes)
        (c : Context W)
      → rank path < fuel
      → rank path < more
      → frontend_above W limit bottom fuel path c ≡ frontend_above W limit bottom' more path c
  unfolding frontend_above parse
  above-Agree rank falls bottom bottom' zero more path c l l' = absurd (omega arith)
  above-Agree rank falls bottom bottom' (suc fuel) zero path c l l' = absurd (omega arith)
  above-Agree rank falls bottom bottom' (suc fuel) (suc more) path c l l' =
      let below = frontend_above W limit bottom fuel in
      let below' = frontend_above W limit bottom' more in
      >>=-cong (lex W limit path) _ _ λ tokens lexed.
        ap (λ o. o >>= type_check W limit)
          (>>=-cong (parse_tokens W limit path tokens c.type_aliases) _ _ λ r parsed.
            >>=-cong (enter_module W limit r.0 _ _) _ _ λ c1 e1.
              >>=-cong (complete_functions W limit c.next c1) _ _ λ c2 e2.
                ap (λ o. o >>= fix_module W limit c.next)
                  (import_all-Agree below below' path c.next (c2.store c.next).import_paths c2 (
                    let paths_are =
                      value_of (complete_functions-import_paths c.next c1) e2
                      ∙ value_of (enter_module-import_paths r.0 _ _) e1 in
                    subst (All (Agree below below')) (sym paths_are) (
                      All-imp _ _ r.0.import_paths
                        (λ q lower d.
                          above-Agree rank falls bottom bottom' fuel more q d (omega arith)
                            (omega arith))
                        (falls path tokens c.type_aliases r.1 r.0 lexed parsed)))))

  -- If no file leads back to itself, so that the paths that a file imports have a lower rank than its own
  -- path, the front end calls itself no deeper than the rank of a path: with more fuel than that, what a
  -- call below the fuel would do makes no difference, whatever it is, and nor does more fuel.
  pub frontend-fuel :
      (rank : Bytes → ℕ)
      → ((path : Bytes) (tokens : List Token) (aliases aliases' : Aliases) (module_ : Module)
          → lex W limit path ≡ ok tokens
          → parse_tokens W limit path tokens aliases ≡ ok (module_, aliases')
          → All (λ import_path. rank import_path < rank path) module_.import_paths)
      → (bottom : Bytes → Context W → Outcome (Context W)) (fuel more : ℕ) (path : Bytes)
        (c : Context W)
      → rank path < fuel
      → rank path < more
      → frontend_above W limit bottom fuel path c ≡ frontend W limit more path c
  unfolding frontend
  frontend-fuel rank falls bottom = above-Agree rank falls bottom _
