-- ===== src/Passes/Aliases/Clean.antt =====
-- src/ast.c: where aliases lead down, `ast_resolve_type` ends, and leaves no alias in what it gives.
use luka.Prelude.{
  ℕ, zero, suc, ◌<◌, ◌≤◌, ◌≡◌, refl, Bool, true, false, [], ◌∷◌, Option, none, some, Bytes, str_eq,
  str_eq_iff, All, arith, if◌then◌else◌,
}
use mathlib.Core.Path.{subst, sym}
use luka.ReturnCode.{Outcome, ok, out_of_fuel}
use luka.Types.Base.{BaseType, type_alias, Payload, text, Ty, null, type, base_eq}
use luka.Types.Dup.{dup_type, dup_payload, dup_payload-Ends}
use luka.Passes.Post.{Post, gives, exits, faults, ◌⟫◌, Ends-Post}
use luka.Passes.Aliases.{
  Aliases, find_alias, set_alias, Resolved, alias_name, resolve_found, resolve_alias,
  resolve_object, resolve_with, resolve_type,
}

-- There is no alias in the type.
pub data IsResolved : Ty → Type 0 where
  nothing : IsResolved null
  resolved :
      {b : BaseType} {i : Ty} (p : Payload) (m : Bool)
      → base_eq b type_alias ≡ false
      → IsResolved i
      → IsResolved (type b i p m)

dup_type-IsResolved : (t : Ty) → IsResolved t → Post IsResolved (dup_type t)
unfolding dup_type
dup_type-IsResolved null h = gives nothing
dup_type-IsResolved (type b i p m) (resolved _ _ h q) = dup_type-IsResolved i q ⟫ λ i' r.
    Ends-Post (dup_payload b p) (dup_payload-Ends b p) ⟫ λ p' _. gives (resolved p' m h r)

module _ (rank : Bytes → ℕ) where
  -- The names of aliases in the type have ranks below `k`.
  pub data Below (k : ℕ) : Ty → Type 0 where
    end : Below k null
    other :
        {b : BaseType} {i : Ty} (p : Payload) (m : Bool)
        → base_eq b type_alias ≡ false
        → Below k i
        → Below k (type b i p m)
    alias :
        {b : BaseType} {i : Ty} (s : Bytes) (m : Bool)
        → rank s < k
        → Below k i
        → Below k (type b i (text s) m)

  -- Every alias stands for a type with names of lower rank.
  abbrev pub Ranked : Aliases → Type 0
  Ranked = All (λ a. Below (rank a.name) a.type)

  resolved-Below : (k : ℕ) {t : Ty} → IsResolved t → Below k t
  resolved-Below k nothing = end
  resolved-Below k (resolved p m h q) = other p m h (resolved-Below k q)

  inner-Below :
      {k : ℕ} {b : BaseType} {i : Ty} {p : Payload} {m : Bool} → Below k (type b i p m) → Below k i
  inner-Below (other p m h q) = q
  inner-Below (alias s m h q) = q

  change_inner :
      {k : ℕ} {b : BaseType} {i j : Ty} {p : Payload} {m : Bool}
      → Below k j
      → Below k (type b i p m)
      → Below k (type b j p m)
  change_inner l (other p m h q) = other p m h l
  change_inner l (alias s m h q) = alias s m h l

  data FoundBelow (s : Bytes) : Option Ty → Type 0 where
    missing : FoundBelow s none
    found : {t : Ty} → Below (rank s) t → FoundBelow s (some t)

  find_alias-Below :
      (s : Bytes) (aliases : Aliases) → Ranked aliases → FoundBelow s (find_alias s aliases)
  unfolding find_alias
  find_alias-Below s [] h = missing
  find_alias-Below s (a ∷ aliases) h = go (str_eq s a.name) refl (find_alias-Below s aliases h.1)
    where
      go :
          (b : Bool)
          → str_eq s a.name ≡ b
          → FoundBelow s (find_alias s aliases)
          → FoundBelow s (if b then some a.type else find_alias s aliases)
      go true e later =
          found (subst (λ name. Below (rank name) a.type) (sym ((str_eq_iff s a.name).0 e)) h.0)
      go false e later = later

  set_alias-Ranked :
      (s : Bytes) (t : Ty) (aliases : Aliases)
      → Below (rank s) t
      → Ranked aliases
      → Ranked (set_alias s t aliases)
  unfolding set_alias
  set_alias-Ranked s t [] low h = tt
  set_alias-Ranked s t (a ∷ aliases) low h =
      go (str_eq s a.name) refl (set_alias-Ranked s t aliases low h.1)
    where
      go :
          (b : Bool)
          → str_eq s a.name ≡ b
          → Ranked (set_alias s t aliases)
          → Ranked (if b then record a { type = t } ∷ aliases else a ∷ set_alias s t aliases)
      go true e later = (subst (λ name. Below (rank name) t) ((str_eq_iff s a.name).0 e) low, h.1)
      go false e later = (h.0, later)

  -- What a call on a type below `k` leaves.
  pub record Clean (k : ℕ) (r : Resolved) : Type 0 where
    pub answer_is : IsResolved r.answer
    pub object_is : Below k r.object
    pub aliases_are : Ranked r.aliases

  module _ (call : Ty → Aliases → Outcome Resolved) (bound : ℕ)
      (calls : (j : ℕ) (t : Ty) (aliases : Aliases)
        → j < bound
        → Below j t
        → Ranked aliases
        → Post (Clean j) (call t aliases)) where
    resolve_found-Clean :
        (k : ℕ) (s : Bytes) (object : Ty) (aliases : Aliases) {o : Option Ty}
        → rank s < bound
        → Below k object
        → Ranked aliases
        → FoundBelow s o
        → Post (Clean k) (resolve_found call s object aliases o)
    unfolding resolve_found
    resolve_found-Clean k s object aliases low h q missing = exits
    resolve_found-Clean k s object aliases low h q (found {t} b) =
        calls (rank s) t aliases low b q ⟫ λ r c.
        dup_type-IsResolved r.answer c.answer_is ⟫ λ copy d. gives (record {
          answer_is = d;
          object_is = h;
          aliases_are = set_alias-Ranked s r.object r.aliases c.object_is c.aliases_are;
        })

    resolve_object-Clean :
        (k : ℕ) (b : BaseType) (i : Ty) (p : Payload) (m : Bool) (aliases : Aliases)
        → k ≤ bound
        → IsResolved i
        → Below k (type b i p m)
        → Ranked aliases
        → Post (Clean k) (resolve_object call b p (type b i p m) aliases)
    unfolding resolve_object resolve_alias alias_name
    resolve_object-Clean k b i p m aliases low inner (other _ _ h q) ranked = rw h (
        gives (record {
          answer_is = resolved p m h inner;
          object_is = other p m h q;
          aliases_are = ranked;
        }))
    resolve_object-Clean k b i p m aliases low inner (alias s _ h q) ranked =
        go (base_eq b type_alias) refl
      where
        go :
            (x : Bool)
            → base_eq b type_alias ≡ x
            → Post (Clean k) (
                if x
                then resolve_alias call (text s) (type b i (text s) m) aliases
                else ok (record {
                  answer = type b i (text s) m;
                  object = type b i (text s) m;
                  aliases = aliases;
                }))
        go true e =
            resolve_found-Clean k s (type b i (text s) m) aliases (omega (arith, h, low))
              (alias s m h q) ranked (find_alias-Below s aliases ranked)
        go false e = gives (record {
          answer_is = resolved (text s) m e inner;
          object_is = alias s m h q;
          aliases_are = ranked;
        })

    resolve_with-Clean :
        (k : ℕ) (t : Ty) (aliases : Aliases)
        → k ≤ bound
        → Below k t
        → Ranked aliases
        → Post (Clean k) (resolve_with call t aliases)
    unfolding resolve_with
    resolve_with-Clean k null aliases low h ranked = faults
    resolve_with-Clean k (type b null p m) aliases low h ranked =
        resolve_object-Clean k b null p m aliases low nothing h ranked
    resolve_with-Clean k (type b (type c i q n) p m) aliases low h ranked =
        resolve_with-Clean k (type c i q n) aliases low (inner-Below h) ranked ⟫ λ r d.
        resolve_object-Clean k b r.answer p m r.aliases low d.answer_is
          (change_inner (resolved-Below k d.answer_is) h) d.aliases_are

  -- The call ends with as much fuel as the rank of the type, and leaves no alias in its answer; the table
  -- still leads down.
  pub resolve_type-Clean :
      (fuel k : ℕ) (t : Ty) (aliases : Aliases)
      → k ≤ fuel
      → Below k t
      → Ranked aliases
      → Post (Clean k) (resolve_type fuel t aliases)
  unfolding resolve_type
  resolve_type-Clean zero k t aliases low h ranked =
      resolve_with-Clean (λ s _. out_of_fuel) zero (λ j s more less. absurd (omega arith)) k t
        aliases low h ranked
  resolve_type-Clean (suc fuel) k t aliases low h ranked =
      resolve_with-Clean (resolve_type fuel) (suc fuel)
        (λ j s more less g r. resolve_type-Clean fuel j s more (omega arith) g r) k t aliases low h
        ranked
