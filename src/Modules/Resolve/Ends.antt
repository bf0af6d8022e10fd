-- ===== src/Modules/Resolve/Ends.antt =====
-- Whether `LIB_resolve_func_name` comes to an end: it does where imports lead down, and does not where
-- first imports lead around behind the original module.
use luka.Prelude.{
  ℕ, zero, suc, ◌<◌, ◌≡◌, ◌≢◌, refl, false, List, [], ◌∷◌, Option, some, Bytes, if-ne, All, arith,
}
use luka.ReturnCode.{Ends, Outcome, ok, out_of_fuel, >>=-ne-out_of_fuel}
use luka.Ast.{Node, null, break_stmt, Body, no_body, body, Nodes, Store}
use luka.Modules.Resolve.{
  or_search, find_in_structs, find_local, find_imported, is_original, original_of, resolve_in,
  resolve,
}

or_search-Ends : (a : Node) (l : Outcome Node) → Ends l → Ends (or_search a l)
or_search-Ends null l h = h
or_search-Ends break_stmt l h = cc
or_search-Ends _ l h = cc

find_in_structs-Ends : (name : Bytes) (b : Body) → Ends (find_in_structs name b)
unfolding find_in_structs
find_in_structs-Ends name no_body = cc
find_in_structs-Ends name (body ss) = cc

find_local-Ends : (name : Bytes) (fs : Nodes) (b : Body) → Ends (find_local name fs b)
unfolding find_local
find_local-Ends name fs b = or_search-Ends _ _ (find_in_structs-Ends name b)

find_imported-Ends :
    (call : ℕ → Outcome Node) (is : List ℕ)
    → All (λ i. Ends (call i)) is
    → Ends (find_imported call is)
unfolding find_imported
find_imported-Ends call [] h = cc
find_imported-Ends call (i ∷ is) h =
    >>=-ne-out_of_fuel (call i) _ h.0 λ r. or_search-Ends r _ (find_imported-Ends call is h.1)

pub All-map {ℓ} :
    {A : Type ℓ} (P Q : A → Type 0) (xs : List A) → ((x : A) → P x → Q x) → All P xs → All Q xs
All-map P Q [] f h = tt
All-map P Q (x ∷ xs) f h = (f x h.0, All-map P Q xs f h.1)

module _ (store : Store) (name : Bytes) where
  resolve_in-Ends :
      (m : ℕ) (b : Body) (call : ℕ → Outcome Node)
      → All (λ i. Ends (call i)) (store m).imports
      → Ends (resolve_in store m name b call)
  unfolding resolve_in
  resolve_in-Ends m no_body call h = cc
  resolve_in-Ends m (body fs) call h =
      >>=-ne-out_of_fuel (find_local name fs (store m).structs) _ (find_local-Ends name fs _)
        λ r. or_search-Ends r _ (find_imported-Ends call _ h)

  -- Where every import has a lower rank than its module, the look-up ends, with fuel above the rank.
  pub resolve-ranked :
      (rank : ℕ → ℕ)
      → ((m : ℕ) → All (λ i. rank i < rank m) (store m).imports)
      → (fuel m : ℕ) (original : Option ℕ) → rank m < fuel
      → resolve store fuel m name original ≢ out_of_fuel
  unfolding resolve
  resolve-ranked rank down zero m original h = absurd (omega arith)
  resolve-ranked rank down (suc fuel) m original h = resolve_in-Ends m (store m).functions _ (
      All-map (λ i. rank i < rank m) _ (store m).imports
        (λ i lower.
          if-ne (is_original store original i) (cc)
            (resolve-ranked rank down fuel i (some (original_of store original m)) (omega arith)))
        (down m))

  -- A module of a cycle: it has no match itself, and its first import, which is not the original
  -- module, is again in the cycle.
  pub record Circles (C : ℕ → Type 0) (original m : ℕ) : Type 0 where
    pub functions : Nodes
    pub next : ℕ
    pub others : List ℕ
    pub has_functions : (store m).functions ≡ body functions
    pub no_match : find_local name functions (store m).structs ≡ ok null
    pub imports_next : (store m).imports ≡ next ∷ others
    pub next_in : C next
    pub not_original : is_original store (some original) next ≡ false

  -- On a cycle that the first import of each module leads around, that does not lead through the original
  -- module and whose modules do not declare the name, the look-up never returns: no amount of fuel is
  -- enough.
  pub resolve-cycle :
      (C : ℕ → Type 0) (original : ℕ)
      → ((m : ℕ) → C m → Circles C original m)
      → (fuel m : ℕ) → C m
      → resolve store fuel m name (some original) ≡ out_of_fuel
  unfolding resolve resolve_in find_imported
  resolve-cycle C original circles zero m c = refl
  resolve-cycle C original circles (suc fuel) m c =
      let k = circles m c in
      rw (
        k.has_functions,
        k.no_match,
        k.imports_next,
        k.not_original,
        resolve-cycle C original circles fuel k.next k.next_in,
      )
