-- ===== src/Modules/Resolve/Sound.antt =====
-- A function that `LIB_resolve_func_name` finds is declared, under the name asked for, in a module that
-- the first one reaches through imports.
use luka.Prelude.{
  ℕ, zero, suc, ◌≡◌, ◌≢◌, ◌⊎◌, refl, sym, List, [], ◌∷◌, Option, some, Bytes, str_eq, str_eq_iff,
  Bool-cases, Option-cases, inl, inr,
}
use luka.ReturnCode.{Outcome, ok, >>=-eq-ok}
use luka.Ast.{
  Node, null, break_stmt, struct_definition, StructField, Body, no_body, body, Nodes, nil, cons,
  Module, Store,
}
use luka.Modules.Resolve.{
  function_name, find_function, method_name, or_else, find_method, or_search, find_in_structs,
  find_local, find_imported, is_original, original_of, resolve_in, resolve,
}

-- A node of a vector.
pub data In (n : Node) : Nodes → Type 0 where
  head : (rest : Nodes) → In n (cons n rest)
  tail : (m : Node) {rest : Nodes} → In n rest → In n (cons m rest)

-- A function of the vector whose name, made full, is the one asked for.
pub record Has (full : Bytes → Bytes) (name : Bytes) (func : Node) (fs : Nodes) : Type 0 where
  pub among : In func fs
  pub short : Bytes
  pub called : function_name func ≡ some short
  pub matches : full short ≡ name

pub data Declares (m : Module) (name : Bytes) (func : Node) : Type 0 where
  by_function :
      (fs : Nodes) → m.functions ≡ body fs → Has (λ f. f) name func fs → Declares m name func
  by_method :
      (ss fs : Nodes) (s : Bytes) (fields : Option (List StructField))
      → m.structs ≡ body ss
      → In (struct_definition s fields (body fs)) ss
      → Has (method_name s) name func fs
      → Declares m name func

pub data Imports (i : ℕ) : List ℕ → Type 0 where
  first : (is : List ℕ) → Imports i (i ∷ is)
  later : (j : ℕ) {is : List ℕ} → Imports i is → Imports i (j ∷ is)

pub data Reaches (store : Store) (name : Bytes) (func : Node) : ℕ → Type 0 where
  here : {m : ℕ} → Declares (store m) name func → Reaches store name func m
  through :
      {m i : ℕ}
      → Imports i (store m).imports
      → Reaches store name func i
      → Reaches store name func m

Has-cons :
    {full : Bytes → Bytes} {name : Bytes} {func : Node} {fs : Nodes} (m : Node)
    → Has full name func fs
    → Has full name func (cons m fs)
Has-cons m h = record {
  among = tail m h.among;
  short = h.short;
  called = h.called;
  matches = h.matches;
}

find_function-Has :
    (full : Bytes → Bytes) (name : Bytes) (fs : Nodes) (func : Node)
    → find_function full name fs ≡ func
    → func ≢ null
    → Has full name func fs
unfolding find_function
find_function-Has full name nil func e n = absurd (n (sym e))
find_function-Has full name (cons g fs) func e n = elim (Option-cases (function_name g)) [
  | inl x ↦ Has-cons g (find_function-Has full name fs func (rw (x, find_function) at e) n)
  | inr (f, x) ↦ elim (Bool-cases (str_eq name (full f))) [
    | inl y ↦
        let g-eq : g ≡ func = rw (x, find_function, y) at e in
        rw (← g-eq) (record {
          among = head fs;
          short = f;
          called = x;
          matches = sym ((str_eq_iff name (full f)).0 y);
        })
    | inr y ↦ Has-cons g (find_function-Has full name fs func (rw (x, find_function, y) at e) n)
  ]
]

pub or_else-cases :
    (a b : Node) {r : Node} → or_else a b ≡ r → ((a ≡ null) × (b ≡ r)) ⊎ ((a ≢ null) × (a ≡ r))
or_else-cases null b h = inl (refl, h)
or_else-cases break_stmt b h = inr ((λ e. cc), h)
or_else-cases _ b h = inr ((λ e. cc), h)

pub or_search-cases :
    (a : Node) (l : Outcome Node) {r : Node}
    → or_search a l ≡ ok r
    → ((a ≡ null) × (l ≡ ok r)) ⊎ ((a ≢ null) × (a ≡ r))
or_search-cases null l h = inl (refl, h)
or_search-cases break_stmt l h = inr ((λ e. cc), cc)
or_search-cases _ l h = inr ((λ e. cc), cc)

-- What is declared by the methods of the structs `ss`, some of those of the module.
module _ (m : Module) (name : Bytes) (func : Node) (all : Nodes) (q : m.structs ≡ body all) where
  find_method-Declares :
      (ss : Nodes)
      → ((n : Node) → In n ss → In n all)
      → find_method name ss ≡ func
      → func ≢ null
      → Declares m name func
  unfolding find_method
  find_method-Declares nil sub e n = absurd (n (sym e))
  find_method-Declares (cons (struct_definition s fields (body fs)) ss) sub e n =
      elim (or_else-cases (find_function (method_name s) name fs) (find_method name ss) e) [
        | inl (_, rest) ↦ find_method-Declares ss (λ k i. sub k (tail _ i)) rest n
        | inr (_, found) ↦
            by_method all fs s fields q (sub _ (head ss))
              (find_function-Has (method_name s) name fs func found n)
      ]
  find_method-Declares (cons _ ss) sub e n = find_method-Declares ss (λ k i. sub k (tail _ i)) e n

find_local-Declares :
    (m : Module) (name : Bytes) (func : Node) (fs : Nodes)
    → m.functions ≡ body fs
    → find_local name fs m.structs ≡ ok func
    → func ≢ null
    → Declares m name func
unfolding find_local
find_local-Declares m name func fs q e n =
    elim (or_search-cases (find_function (λ f. f) name fs) (find_in_structs name m.structs) e) [
      | inr (_, found) ↦ by_function fs q (find_function-Has (λ f. f) name fs func found n)
      | inl (_, rest) ↦ go m.structs refl rest
    ]
  where
    go : (b : Body) → m.structs ≡ b → find_in_structs name b ≡ ok func → Declares m name func
    go no_body x h = cc
    go (body ss) x h = find_method-Declares m name func ss x ss (λ k i. i) (cc) n

module _ (store : Store) (name : Bytes) (func : Node) (n : func ≢ null) where
  find_imported-Reaches :
      (m : ℕ) (call : ℕ → Outcome Node)
      → ((i : ℕ) → call i ≡ ok func → Reaches store name func i)
      → (is : List ℕ) → ((i : ℕ) → Imports i is → Imports i (store m).imports)
      → find_imported call is ≡ ok func
      → Reaches store name func m
  unfolding find_imported
  find_imported-Reaches m call ih [] sub e = absurd (n (cc))
  find_imported-Reaches m call ih (i ∷ is) sub e =
      let (r, c, h) = >>=-eq-ok (call i) (λ f. or_search f (find_imported call is)) e in
      elim (or_search-cases r (find_imported call is) h) [
        | inl (_, rest) ↦ find_imported-Reaches m call ih is (λ j x. sub j (later i x)) rest
        | inr (_, found) ↦ through (sub i (first is)) (ih i (cc))
      ]

  resolve_in-Reaches :
      (m : ℕ) (b : Body) (call : ℕ → Outcome Node)
      → (store m).functions ≡ b
      → ((i : ℕ) → call i ≡ ok func → Reaches store name func i)
      → resolve_in store m name b call ≡ ok func
      → Reaches store name func m
  unfolding resolve_in
  resolve_in-Reaches m no_body call q ih e = absurd (n (cc))
  resolve_in-Reaches m (body fs) call q ih e =
      let imports = (store m).imports in
      let (r, c, h) =
        >>=-eq-ok (find_local name fs (store m).structs)
          (λ f. or_search f (find_imported call imports)) e in
      elim (or_search-cases r (find_imported call imports) h) [
        | inl (_, rest) ↦ find_imported-Reaches m call ih imports (λ i x. x) rest
        | inr (_, found) ↦ here (find_local-Declares (store m) name func fs q (cc) n)
      ]

  -- A function that is returned is declared, under the name asked for, in the module or in one that it
  -- imports, at any depth.
  pub resolve-Reaches :
      (fuel m : ℕ) (original : Option ℕ)
      → resolve store fuel m name original ≡ ok func
      → Reaches store name func m
  unfolding resolve
  resolve-Reaches zero m original e = cc
  resolve-Reaches (suc fuel) m original e =
      resolve_in-Reaches m (store m).functions _ refl
        (λ i h. elim (Bool-cases (is_original store original i)) [
          | inl x ↦ absurd (n (let h' = rw x at h in cc))
          | inr x ↦ resolve-Reaches fuel i (some (original_of store original m)) (rw x at h)
        ])
        e
