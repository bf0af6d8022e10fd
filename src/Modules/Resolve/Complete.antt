-- ===== src/Modules/Resolve/Complete.antt =====
-- Where `LIB_resolve_func_name` returns NULL, its search came by no function with the name.
use luka.Prelude.{
  ℕ, zero, suc, ◌≡◌, ◌≢◌, sym, false, List, Option, some, Bytes, str_eq, str_eq_iff, Bool-cases,
  Option-cases, inl, inr,
}
use luka.ReturnCode.{Outcome, ok, >>=-eq-ok}
use luka.Ast.{Node, null, struct_definition, body, Nodes, cons, StructField, Store}
use luka.Modules.Resolve.{
  function_name, find_function, method_name, find_method, or_search, find_in_structs, find_local,
  find_imported, is_original, original_of, resolve_in, resolve,
}
use luka.Modules.Resolve.Sound.{
  In, head, tail, Has, Declares, by_function, by_method, Imports, first, later, or_else-cases,
  or_search-cases,
}

-- What a search that starts in module `m` comes by: a function that the module declares or, on from an
-- import whose path is not that of the original module, what is found there. A module without a vector
-- of functions hides all the rest.
pub data Visible (store : Store) (name : Bytes) : Option ℕ → ℕ → Type 0 where
  here :
      {original : Option ℕ} {m : ℕ} (func : Node) (fs : Nodes)
      → (store m).functions ≡ body fs
      → Declares (store m) name func
      → Visible store name original m
  through :
      {original : Option ℕ} {m : ℕ} (fs : Nodes) (i : ℕ)
      → (store m).functions ≡ body fs
      → Imports i (store m).imports
      → is_original store original i ≡ false
      → Visible store name (some (original_of store original m)) i
      → Visible store name original m

named-ne-null : (func : Node) {s : Bytes} → function_name func ≡ some s → func ≢ null
unfolding function_name
named-ne-null func h e = let h' = rw e at h in cc

In-find_function :
    (full : Bytes → Bytes) (name short : Bytes) (func : Node) (fs : Nodes)
    → function_name func ≡ some short
    → full short ≡ name
    → In func fs
    → find_function full name fs ≢ null
unfolding find_function
In-find_function full name short func fs c e (head rest) h =
    let q = (str_eq_iff name (full short)).1 (sym e) in
    named-ne-null func c (rw (c, find_function, q) at h)
In-find_function full name short func fs c e (tail k {rest = rest} i) h =
    elim (Option-cases (function_name k)) [
      | inl x ↦ In-find_function full name short func rest c e i (rw (x, find_function) at h)
      | inr (s, x) ↦ elim (Bool-cases (str_eq name (full s))) [
        | inl y ↦ named-ne-null k x (rw (x, find_function, y) at h)
        | inr y ↦ In-find_function full name short func rest c e i (rw (x, find_function, y) at h)
      ]
    ]

Has-find_function :
    (full : Bytes → Bytes) (name : Bytes) (func : Node) (fs : Nodes)
    → Has full name func fs
    → find_function full name fs ≢ null
Has-find_function full name func fs h =
    In-find_function full name h.short func fs h.called h.matches h.among

find_method-rest :
    (name : Bytes) (n : Node) (rest : Nodes)
    → find_method name (cons n rest) ≡ null
    → find_method name rest ≡ null
unfolding find_method
find_method-rest name (struct_definition s fields (body fs)) rest h =
    elim (or_else-cases (find_function (method_name s) name fs) (find_method name rest) h) [
      | inl (_, q) ↦ q
      | inr (n, q) ↦ absurd (n q)
    ]
find_method-rest name _ rest h = h

Has-find_method :
    (name : Bytes) (func : Node) (s : Bytes) (fields : Option (List StructField)) (fs ss : Nodes)
    → Has (method_name s) name func fs
    → In (struct_definition s fields (body fs)) ss
    → find_method name ss ≢ null
unfolding find_method
Has-find_method name func s fields fs ss h (head rest) e =
    elim (or_else-cases (find_function (method_name s) name fs) (find_method name rest) e) [
      | inl (q, _) ↦ Has-find_function (method_name s) name func fs h q
      | inr (n, q) ↦ n q
    ]
Has-find_method name func s fields fs ss h (tail k {rest = rest} i) e =
    Has-find_method name func s fields fs rest h i (find_method-rest name k rest e)

or_search-null :
    (a : Node) (l : Outcome Node) → or_search a l ≡ ok null → (a ≡ null) × (l ≡ ok null)
or_search-null a l h = elim (or_search-cases a l h) [ inl q ↦ q | inr (n, q) ↦ absurd (n q) ]

module _ (store : Store) (name : Bytes) where
  Declares-find_local :
      (m : ℕ) (func : Node) (fs : Nodes)
      → (store m).functions ≡ body fs
      → Declares (store m) name func
      → find_local name fs (store m).structs ≢ ok null
  unfolding find_local find_in_structs
  Declares-find_local m func fs q (by_function fs' q' h) e =
      let (none_here, _) = or_search-null (find_function (λ f. f) name fs) _ e in
      let same : fs ≡ fs' = cc in Has-find_function (λ f. f) name func fs' h (rw same at none_here)
  Declares-find_local m func fs q (by_method ss fs' s fields q' i h) e =
      let (_, none_there) = or_search-null (find_function (λ f. f) name fs) _ e in
      let there = rw q' at none_there in Has-find_method name func s fields fs' ss h i (cc)

  find_imported-null :
      (call : ℕ → Outcome Node) (i : ℕ) (is : List ℕ)
      → find_imported call is ≡ ok null
      → Imports i is
      → call i ≡ ok null
  unfolding find_imported
  find_imported-null call i is h (first rest) =
      let (r, e, q) = >>=-eq-ok (call i) _ h in
      let (n, _) = or_search-null r (find_imported call rest) q in cc
  find_imported-null call i is h (later k {is = rest} x) =
      let (r, e, q) = >>=-eq-ok (call k) _ h in
      let (_, none_later) = or_search-null r (find_imported call rest) q in
      find_imported-null call i rest none_later x

  resolve_in-null :
      (m : ℕ) (fs : Nodes) (call : ℕ → Outcome Node)
      → resolve_in store m name (body fs) call ≡ ok null
      → (find_local name fs (store m).structs ≡ ok null)
        × (find_imported call (store m).imports ≡ ok null)
  unfolding resolve_in
  resolve_in-null m fs call h =
      let (r, e, q) = >>=-eq-ok (find_local name fs (store m).structs) _ h in
      let (n, rest) = or_search-null r (find_imported call (store m).imports) q in (cc, rest)

  -- NULL is returned only if the search comes by no function with the name: what is visible from the
  -- module is not passed over.
  pub resolve-ne-null :
      (fuel m : ℕ) (original : Option ℕ)
      → Visible store name original m
      → resolve store fuel m name original ≢ ok null
  unfolding resolve
  resolve-ne-null zero m original v h = cc
  resolve-ne-null (suc fuel) m original (here func fs q d) h =
      Declares-find_local m func fs q d (resolve_in-null m fs _ (rw q at h)).0
  resolve-ne-null (suc fuel) m original (through fs i q x y v) h =
      let none_there = (resolve_in-null m fs _ (rw q at h)).1 in
      let c = find_imported-null _ i (store m).imports none_there x in
      resolve-ne-null fuel i (some (original_of store original m)) v (rw y at c)
