-- ===== src/Modules/Names/Ends.antt =====
-- `LIB_is_struct_name` and `LIB_is_enum_name` end where imports lead down.
use luka.Prelude.{
  ℕ, zero, suc, ◌<◌, ◌≢◌, arith, Bool, true, false, List, [], ◌∷◌, Option, some, Bytes,
  if◌then◌else◌, if-ne, All,
}
use luka.ReturnCode.{Ends, Outcome, ok, out_of_fuel, >>=-ne-out_of_fuel}
use luka.Ast.{Node, Body, no_body, body, Module, Store}
use luka.Modules.Resolve.{is_original}
use luka.Modules.Resolve.Ends.{All-map}
use luka.Modules.Names.{
  struct_label, enum_label, any_name, any_imported, name_in, is_name, is_struct_name, is_enum_name,
}

found-Ends : (b : Bool) (r : Outcome Bool) → Ends r → Ends (if b then ok true else r)
found-Ends true r h = cc
found-Ends false r h = h

any_imported-Ends :
    (call : ℕ → Outcome Bool) (is : List ℕ)
    → All (λ i. Ends (call i)) is
    → Ends (any_imported call is)
unfolding any_imported
any_imported-Ends call [] h = cc
any_imported-Ends call (i ∷ is) h =
    >>=-ne-out_of_fuel (call i) _ h.0 λ b. found-Ends b _ (any_imported-Ends call is h.1)

name_in-Ends :
    (label : Node → Option Bytes) (name : Bytes) (b : Body) (imports : List ℕ)
    (call : ℕ → Outcome Bool)
    → All (λ i. Ends (call i)) imports
    → Ends (name_in label name b imports call)
unfolding name_in
name_in-Ends label name no_body imports call h = cc
name_in-Ends label name (body ns) imports call h =
    found-Ends (any_name label name ns) _ (any_imported-Ends call imports h)

module _ (store : Store) (rank : ℕ → ℕ)
    (down : (m : ℕ) → All (λ i. rank i < rank m) (store m).imports) where
  is_name-ranked :
      (vector : Module → Body) (label : Node → Option Bytes) (fuel m : ℕ) (name : Bytes)
      (original : Option ℕ)
      → rank m < fuel
      → Ends (is_name store vector label fuel m name original)
  unfolding is_name
  is_name-ranked vector label zero m name original h = absurd (omega arith)
  is_name-ranked vector label (suc fuel) m name original h =
      name_in-Ends label name (vector (store m)) (store m).imports _ (
        All-map (λ i. rank i < rank m) _ (store m).imports
          (λ i lower.
            if-ne (is_original store original i) (cc)
              (is_name-ranked vector label fuel i name (some m) (omega arith)))
          (down m))

  -- Where every import has a lower rank than its module, both searches end, with fuel above the rank.
  is_name_ends :
      (fuel m : ℕ) (name : Bytes) (original : Option ℕ)
      → rank m < fuel
      → (is_struct_name store fuel m name original ≢ out_of_fuel)
        × (is_enum_name store fuel m name original ≢ out_of_fuel)
  unfolding is_struct_name is_enum_name
  is_name_ends fuel m name original h = (
    is_name-ranked (λ md. md.structs) struct_label fuel m name original h,
    is_name-ranked (λ md. md.enums) enum_label fuel m name original h,
  )
