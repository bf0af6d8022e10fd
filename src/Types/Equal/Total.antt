-- ===== src/Types/Equal/Total.antt =====
-- `TYPE_equal` on well-formed types: it reads no NULL pointer.
use luka.Prelude.{
  ◌≡◌, refl, ap, Bool, true, false, not, is_prefix, Bool-cases, inl, inr, if◌then◌else◌,
}
use luka.ReturnCode.{Outcome, ok}
use luka.Types.Base.{
  BaseType, type_any, type_ptr, type_array, Payload, Ty, null, type, base_eq, base_eq_sound,
  is_payload_type, IsType, pointing, simple, IsPayload, named, unnamed, sized, is_pointer,
}
use luka.Types.Cast.{can_cast, cast_switch, from_pointer, keeps_mutability}
use luka.Types.Equal.{names_match, equal}

-- A Boolean comes back.
abbrev Answers : Outcome Bool → Type 0
Answers r = (b : Bool) × (r ≡ ok b)

keeps-Answers :
    (b1 b2 : BaseType) (i1 i2 : Ty) (p1 p2 : Payload) (m1 m2 : Bool)
    → Answers (keeps_mutability (type b1 i1 p1 m1) (type b2 i2 p2 m2))
unfolding keeps_mutability
keeps-Answers b1 b2 i1 i2 p1 p2 true m2 = (true, refl)
keeps-Answers b1 b2 i1 i2 p1 p2 false m2 = (not m2, refl)

from_pointer-Answers :
    (n : Bool) (i1 i2 : Ty) → Answers (keeps_mutability i1 i2) → Answers (from_pointer (ok n) i1 i2)
unfolding from_pointer
from_pointer-Answers true i1 i2 k = k
from_pointer-Answers false i1 i2 k = (false, refl)

cast_switch-Answers :
    (n : Bool) (b1 b2 : BaseType) (i1 i2 : Ty)
    → (is_pointer b1 ≡ true → is_pointer b2 ≡ true → Answers (keeps_mutability i1 i2))
    → Answers (cast_switch (ok n) b1 i1 b2 i2)
unfolding cast_switch is_pointer
cast_switch-Answers n type_ptr type_ptr i1 i2 k = from_pointer-Answers n i1 i2 (k refl refl)
cast_switch-Answers n type_ptr type_array i1 i2 k = from_pointer-Answers n i1 i2 (k refl refl)
cast_switch-Answers n type_array type_ptr i1 i2 k = from_pointer-Answers n i1 i2 (k refl refl)
cast_switch-Answers n type_array type_array i1 i2 k = from_pointer-Answers n i1 i2 (k refl refl)
cast_switch-Answers n _ _ i1 i2 k = (_, refl)

names-Answers :
    {b1 b2 : BaseType} {p1 p2 : Payload}
    → IsPayload b1 p1
    → IsPayload b2 p2
    → is_payload_type b1 ≡ true
    → b1 ≡ b2
    → Answers (names_match p1 p2)
unfolding names_match is_payload_type
names-Answers (named s h) (named t k) e q = (is_prefix s t, refl)
names-Answers (named s h) (unnamed k) e q = absurd (cc)
names-Answers (named s h) (sized n) e q = absurd (cc (ap is_payload_type q))
names-Answers (unnamed h) y e q = absurd (cc)
names-Answers (sized n) y e q = absurd (cc)

same-Answers : (b1 b2 : BaseType) (n : Bool) → Answers (if base_eq b1 b2 then ok n else ok false)
same-Answers b1 b2 n = elim (Bool-cases (base_eq b1 b2)) [
  | inl e ↦ (n, rw e)
  | inr e ↦ (false, rw e)
]

Answers-if :
    {r : Outcome Bool} {c : Bool} (x : Bool) → r ≡ ok c → Answers (if x then ok true else r)
Answers-if true h = (true, refl)
Answers-if {c} false h = (c, h)

module _ {b1 b2 : BaseType} (i1 i2 : Ty) {p1 p2 : Payload} (m1 m2 : Bool) (h1 : IsPayload b1 p1)
    (h2 : IsPayload b2 p2) where
  -- The comparison of the names, behind that of the base types.
  step-names :
      (same : Bool)
      → (same ≡ true → base_eq b1 b2 ≡ true)
      → is_payload_type b1 ≡ true
      → Answers (if same then names_match p1 p2 else ok false)
  step-names true h e = names-Answers h1 h2 e (base_eq_sound b1 b2 (h refl))
  step-names false h e = (false, refl)

  step-named :
      (same : Bool)
      → (same ≡ true → base_eq b1 b2 ≡ true)
      → Answers
          (if is_payload_type b1 then (if same then names_match p1 p2 else ok false) else ok same)
  step-named same h = elim (Bool-cases (is_payload_type b1)) [
    | inr e ↦ (same, rw e)
    | inl e ↦ rw e (step-names same h e)
  ]

  step-cast :
      (n : Bool)
      → (is_pointer b1 ≡ true → is_pointer b2 ≡ true → Answers (keeps_mutability i1 i2))
      → Answers (can_cast (ok n) (type b1 i1 p1 m1) (type b2 i2 p2 m2))
  unfolding can_cast
  step-cast n k =
      let (r, c) = cast_switch-Answers n b1 b2 i1 i2 k in
      rw c ((if base_eq type_any b2 then true else r), refl)

  step-Answers :
      (n : Bool)
      → equal i1 i2 ≡ ok n
      → (is_pointer b1 ≡ true → is_pointer b2 ≡ true → Answers (keeps_mutability i1 i2))
      → Answers (equal (type b1 i1 p1 m1) (type b2 i2 p2 m2))
  unfolding equal
  step-Answers n e k =
      let (c, cast) = step-cast n k in
      elim (Bool-cases (base_eq b1 b2)) [
        | inl same ↦
            let (x, names) = step-named n (λ _. same) in rw (same, e, names) (Answers-if x cast)
        | inr differ ↦
            let (x, names) = step-named false (λ f. absurd (cc)) in
            rw (differ, e, names) (Answers-if x cast)
      ]

keeps-IsType : {i1 i2 : Ty} → IsType i1 → IsType i2 → Answers (keeps_mutability i1 i2)
keeps-IsType (pointing m _ _ _) (pointing m' _ _ _) = keeps-Answers _ _ _ _ _ _ m m'
keeps-IsType (pointing m _ _ _) (simple m' _ _) = keeps-Answers _ _ _ _ _ _ m m'
keeps-IsType (simple m _ _) (pointing m' _ _ _) = keeps-Answers _ _ _ _ _ _ m m'
keeps-IsType (simple m _ _) (simple m' _ _) = keeps-Answers _ _ _ _ _ _ m m'

equal-null : {i : Ty} → IsType i → (equal null i ≡ ok false) × (equal i null ≡ ok false)
unfolding equal
equal-null (pointing _ _ _ _) = (refl, refl)
equal-null (simple _ _ _) = (refl, refl)

-- On well-formed types `TYPE_equal` answers: it reads through no NULL pointer.
pub equal-IsType : (t1 t2 : Ty) → IsType t1 → IsType t2 → (b : Bool) × (equal t1 t2 ≡ ok b)
equal-IsType t1 t2 (pointing {i = i1} m x h q) (pointing {i = i2} m' x' h' q') =
    let (n, e) = equal-IsType i1 i2 h h' in
    step-Answers i1 i2 m m' q q' n e (λ _ _. keeps-IsType h h')
equal-IsType t1 t2 (pointing {i = i1} m x h q) (simple m' x' q') =
    step-Answers i1 null m m' q q' false (equal-null h).1 (λ _ y. absurd (cc))
equal-IsType t1 t2 (simple m x q) (pointing {i = i2} m' x' h' q') =
    step-Answers null i2 m m' q q' false (equal-null h').0 (λ y _. absurd (cc))
equal-IsType t1 t2 (simple m x q) (simple m' x' q') =
    step-Answers null null m m' q q' true (unfold equal in refl) (λ y _. absurd (cc))
