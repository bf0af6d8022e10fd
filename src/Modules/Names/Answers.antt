-- ===== src/Modules/Names/Answers.antt =====
-- What the answers of `LIB_is_struct_name`, `LIB_is_enum_name` and `LIB_module_in_list` mean.
use luka.Prelude.{
  ℕ, zero, suc, ◌≡◌, ◌≢◌, ◌↔◌, refl, Bool, true, false, List, [], ◌∷◌, Option, some, Bytes, ◌++◌,
  str_eq, str_eq_iff, is_prefix, is_prefix_sound, is_prefix-append, Bool-cases, Option-cases, inl,
  inr, ◌⊎◌, if◌then◌else◌,
}
use luka.ReturnCode.{Outcome, ok, >>=-eq-ok}
use luka.Ast.{Node, Body, no_body, body, Nodes, nil, cons, Module, Store}
use luka.Modules.Resolve.{is_original}
use luka.Modules.Resolve.Sound.{In, head, tail, Imports, first, later}
use luka.Modules.Names.{
  struct_label, enum_label, any_name, any_imported, name_in, module_in_list, is_name,
  is_struct_name, is_enum_name,
}

module _ (store : Store) (vector : Module → Body) (label : Node → Option Bytes) (name : Bytes) where
  -- What a search that starts in module `m`, and was led there from `original`, comes by: a definition
  -- with the name in the module or, on from an import whose path is not that of `original`, with `m` in
  -- its place. A module without a vector of definitions hides its imports.
  pub data Visible : Option ℕ → ℕ → Type 0 where
    here :
        {original : Option ℕ} {m : ℕ} {ns : Nodes}
        → vector (store m) ≡ body ns
        → (n : Node) → In n ns
        → label n ≡ some name
        → Visible original m
    through :
        {original : Option ℕ} {m : ℕ} {ns : Nodes}
        → vector (store m) ≡ body ns
        → (i : ℕ) → Imports i (store m).imports
        → is_original store original i ≡ false
        → Visible (some m) i
        → Visible original m

  any_name-In :
      (ns : Nodes) → any_name label name ns ≡ true → (n : Node) × In n ns × (label n ≡ some name)
  unfolding any_name
  any_name-In nil h = cc
  any_name-In (cons k ns) h = elim (Option-cases (label k)) [
    | inl e ↦ let (n, i, q) = any_name-In ns (rw (e, any_name) at h) in (n, tail k i, q)
    | inr (s, e) ↦ elim (Bool-cases (str_eq name s)) [
      | inl y ↦ let q : name ≡ s = (str_eq_iff name s).0 y in (k, head ns, rw q e)
      | inr y ↦ let (n, i, q) = any_name-In ns (rw (e, any_name, y) at h) in (n, tail k i, q)
    ]
  ]

  In-any_name :
      (n : Node) (ns : Nodes) → label n ≡ some name → In n ns → any_name label name ns ≡ true
  unfolding any_name
  In-any_name n ns e (head rest) =
      let q : str_eq name name ≡ true = (str_eq_iff name name).1 refl in rw (e, any_name, q) refl
  In-any_name n ns e (tail k {rest = rest} i) = elim (Option-cases (label k)) [
    | inl x ↦ rw (x, any_name) (In-any_name n rest e i)
    | inr (s, x) ↦ elim (Bool-cases (str_eq name s)) [
      | inl y ↦ rw (x, any_name, y) refl
      | inr y ↦ rw (x, any_name, y) (In-any_name n rest e i)
    ]
  ]

  found-true :
      (b : Bool) (r : Outcome Bool)
      → (if b then ok true else r) ≡ ok true
      → (b ≡ true) ⊎ (r ≡ ok true)
  found-true true r h = inl refl
  found-true false r h = inr h

  found-false :
      (b : Bool) (r : Outcome Bool)
      → (if b then ok true else r) ≡ ok false
      → (b ≡ false) × (r ≡ ok false)
  found-false true r h = cc
  found-false false r h = (refl, h)

  any_imported-true :
      (call : ℕ → Outcome Bool) (is : List ℕ)
      → any_imported call is ≡ ok true
      → (i : ℕ) × Imports i is × (call i ≡ ok true)
  unfolding any_imported
  any_imported-true call [] h = cc
  any_imported-true call (i ∷ is) h =
      let (b, e, q) = >>=-eq-ok (call i) _ h in
      elim (found-true b (any_imported call is) q) [
        | inl t ↦ (i, first is, cc)
        | inr r ↦ let (j, x, y) = any_imported-true call is r in (j, later i x, y)
      ]

  any_imported-false :
      (call : ℕ → Outcome Bool) (i : ℕ) (is : List ℕ)
      → any_imported call is ≡ ok false
      → Imports i is
      → call i ≡ ok false
  unfolding any_imported
  any_imported-false call i is h (first rest) =
      let (b, e, q) = >>=-eq-ok (call i) _ h in
      let (f, _) = found-false b (any_imported call rest) q in cc
  any_imported-false call i is h (later k {is = rest} x) =
      let (b, e, q) = >>=-eq-ok (call k) _ h in
      let (_, r) = found-false b (any_imported call rest) q in any_imported-false call i rest r x

  name_in-true :
      (b : Body) (imports : List ℕ) (call : ℕ → Outcome Bool)
      → name_in label name b imports call ≡ ok true
      → (ns : Nodes) × (b ≡ body ns)
        × ((any_name label name ns ≡ true) ⊎ (any_imported call imports ≡ ok true))
  unfolding name_in
  name_in-true no_body imports call h = cc
  name_in-true (body ns) imports call h = elim (Bool-cases (any_name label name ns)) [
    | inl e ↦ (ns, refl, inl e)
    | inr e ↦ (ns, refl, inr (rw e at h))
  ]

  name_in-false :
      (ns : Nodes) (imports : List ℕ) (call : ℕ → Outcome Bool)
      → name_in label name (body ns) imports call ≡ ok false
      → (any_name label name ns ≡ false) × (any_imported call imports ≡ ok false)
  unfolding name_in
  name_in-false ns imports call h = elim (Bool-cases (any_name label name ns)) [
    | inl e ↦ let h' = rw e at h in cc
    | inr e ↦ (e, rw e at h)
  ]

  is_name-Visible :
      (fuel m : ℕ) (original : Option ℕ)
      → is_name store vector label fuel m name original ≡ ok true
      → Visible original m
  unfolding is_name
  is_name-Visible zero m original h = cc
  is_name-Visible (suc fuel) m original h =
      let (ns, q, found) = name_in-true (vector (store m)) (store m).imports _ h in
      elim found [
        | inl e ↦ let (n, i, x) = any_name-In ns e in here q n i x
        | inr e ↦
            let (i, x, c) = any_imported-true _ (store m).imports e in
            elim (Bool-cases (is_original store original i)) [
              | inl y ↦ let c' = rw y at c in cc
              | inr y ↦ through q i x y (is_name-Visible fuel i (some m) (rw y at c))
            ]
      ]

  Visible-ne-false :
      (fuel m : ℕ) (original : Option ℕ)
      → Visible original m
      → is_name store vector label fuel m name original ≢ ok false
  unfolding is_name
  Visible-ne-false zero m original v h = cc
  Visible-ne-false (suc fuel) m original (here {ns} q n i x) h =
      let (none_here, _) = name_in-false ns (store m).imports _ (rw q at h) in
      let e = In-any_name n ns x i in cc
  Visible-ne-false (suc fuel) m original (through {ns} q i x y v) h =
      let (_, none_there) = name_in-false ns (store m).imports _ (rw q at h) in
      let c = any_imported-false _ i (store m).imports none_there x in
      Visible-ne-false fuel i (some m) v (rw y at c)

-- `LIB_is_struct_name` says yes only if the search comes by a struct with the name, and no only if it
-- comes by none.
pub is_struct_name-Visible :
    (store : Store) (fuel m : ℕ) (name : Bytes) (original : Option ℕ)
    → (is_struct_name store fuel m name original ≡ ok true
        → Visible store (λ md. md.structs) struct_label name original m)
      × (Visible store (λ md. md.structs) struct_label name original m
          → is_struct_name store fuel m name original ≢ ok false)
unfolding is_struct_name
is_struct_name-Visible store fuel m name original = (
  is_name-Visible store (λ md. md.structs) struct_label name fuel m original,
  Visible-ne-false store (λ md. md.structs) struct_label name fuel m original,
)

-- `LIB_is_enum_name` says yes only if the search comes by an enum with the name, and no only if it comes
-- by none.
pub is_enum_name-Visible :
    (store : Store) (fuel m : ℕ) (name : Bytes) (original : Option ℕ)
    → (is_enum_name store fuel m name original ≡ ok true
        → Visible store (λ md. md.enums) enum_label name original m)
      × (Visible store (λ md. md.enums) enum_label name original m
          → is_enum_name store fuel m name original ≢ ok false)
unfolding is_enum_name
is_enum_name-Visible store fuel m name original = (
  is_name-Visible store (λ md. md.enums) enum_label name fuel m original,
  Visible-ne-false store (λ md. md.enums) enum_label name fuel m original,
)

prefix-module_in_list :
    (store : Store) (m v : ℕ) (rest : Bytes)
    → (store v).file_path ≡ (store m).file_path ++ rest
    → (vs : List ℕ) → Imports v vs
    → module_in_list store vs m ≡ true
unfolding module_in_list
prefix-module_in_list store m v rest e vs (first vs') =
    rw (e, is_prefix-append (store m).file_path rest) refl
prefix-module_in_list store m v rest e vs (later w {is = vs'} x) =
    elim (Bool-cases (is_prefix (store m).file_path (store w).file_path)) [
      | inl y ↦ rw (y, module_in_list) refl
      | inr y ↦ rw (y, module_in_list) (prefix-module_in_list store m v rest e vs' x)
    ]

-- A module is taken to be in a list exactly when the path of some module of the list begins with its
-- path: a module whose path is a front of another's counts as that one.
module_in_list_iff :
    (store : Store) (vs : List ℕ) (m : ℕ)
    → (module_in_list store vs m ≡ true) ↔ (
        (v : ℕ) × Imports v vs
        × ((rest : Bytes) × ((store v).file_path ≡ (store m).file_path ++ rest)))
unfolding module_in_list
module_in_list_iff store vs m =
    (front vs, λ (v, x, (rest, e)). prefix-module_in_list store m v rest e vs x)
  where
    front :
        (vs : List ℕ)
        → module_in_list store vs m ≡ true
        → (v : ℕ) × Imports v vs
          × ((rest : Bytes) × ((store v).file_path ≡ (store m).file_path ++ rest))
    front [] h = cc
    front (v ∷ vs) h = elim (Bool-cases (is_prefix (store m).file_path (store v).file_path)) [
      | inl e ↦ (v, first vs, is_prefix_sound (store m).file_path (store v).file_path e)
      | inr e ↦ let (w, x, q) = front vs (rw (e, module_in_list) at h) in (w, later v x, q)
    ]
