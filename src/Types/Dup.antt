-- ===== src/Types/Dup.antt =====
-- src/type.c: `TYPE_dup_type`. `strdup` copies a name, and reads through an array's size or NULL if it is
-- given one; the code asks it only for a payload that is not NULL, of a type that is no array.
use luka.Prelude.{◌≡◌, refl, if-ne, Bool, true, false, if◌then◌else◌}
use luka.ReturnCode.{Ends, Outcome, ok, fault, >>=-ne-out_of_fuel, ◌>>=◌}
use luka.Types.Base.{
  BaseType, type_array, Payload, no_payload, text, size, Ty, null, type, base_eq, IsType, pointing,
  simple, IsPayload, named, unnamed, sized,
}

strdup : Payload → Outcome Payload
strdup (text s) = ok (text s)
strdup _ = fault

pub dup_payload : BaseType → Payload → Outcome Payload
unfolding strdup base_eq
dup_payload b no_payload = ok no_payload
dup_payload b p = if base_eq b type_array then ok p else strdup p

unfoldable pub dup_type : Ty → Outcome Ty
unfolding dup_payload
dup_type null = ok null
dup_type (type b i p m) = do i' ← dup_type i; p' ← dup_payload b p; ok (type b i' p' m)

dup_payload-IsPayload : {b : BaseType} {p : Payload} → IsPayload b p → dup_payload b p ≡ ok p
unfolding dup_payload
dup_payload-IsPayload (unnamed h) = refl
dup_payload-IsPayload (sized n) = refl
dup_payload-IsPayload (named {b} s h) = go (base_eq b type_array)
  where
    go : (x : Bool) → (if x then ok (text s) else strdup (text s)) ≡ ok (text s)
    go true = refl
    go false = refl

-- The copy of a well-formed type is made, and is equal to it in every part.
pub dup_type-IsType : (t : Ty) → IsType t → dup_type t ≡ ok t
unfolding dup_type
dup_type-IsType t (pointing {i = i} m x h q) = rw (dup_type-IsType i h, dup_payload-IsPayload q)
dup_type-IsType t (simple m x q) = rw (dup_payload-IsPayload q)

strdup-Ends : (p : Payload) → Ends (strdup p)
unfolding strdup
strdup-Ends (text s) = cc
strdup-Ends _ = cc

pub dup_payload-Ends : (b : BaseType) (p : Payload) → Ends (dup_payload b p)
unfolding dup_payload
dup_payload-Ends b no_payload = cc
dup_payload-Ends b (text s) = if-ne {x = ok (text s)} _ (cc) (strdup-Ends (text s))
dup_payload-Ends b (size n) = if-ne {x = ok (size n)} _ (cc) (strdup-Ends (size n))

pub dup_type-Ends : (t : Ty) → Ends (dup_type t)
unfolding dup_type
dup_type-Ends null = cc
dup_type-Ends (type b i p m) =
    >>=-ne-out_of_fuel (dup_type i) _ (dup_type-Ends i)
      λ i'. >>=-ne-out_of_fuel _ _ (dup_payload-Ends b p) λ q. cc
