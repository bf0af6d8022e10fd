-- ===== src/Types/Equal/Laws.antt =====
-- What `TYPE_equal` accepts: every type itself, pointers by what they point to, structs where the first
-- name is a front of the second one, and numbers by their kinds.
use luka.Prelude.{
  ◌≡◌, ◌≢◌, ◌↔◌, refl, ap, ◌∙◌, Bool, true, false, ◌||◌, Bytes, ◌++◌, is_prefix, is_prefix_refl,
  is_prefix_sound, is_prefix-append, Bool-cases, inl, inr, if◌then◌else◌,
}
use luka.ReturnCode.{Outcome, ok, returned, exited, fault, out_of_fuel}
use luka.Types.Base.{
  BaseType, type_any, type_bool, type_sint8, type_sint16, type_sint32, type_sint64, type_uint8,
  type_uint16, type_uint32, type_uint64, type_f32, type_f64, type_ptr, type_struct, type_enum,
  type_alias, Payload, text, Ty, null, type, base_eq, base_eq_refl, is_payload_type, IsType,
  pointing, simple, IsPayload, named, unnamed, sized, initialize_type,
}
use luka.Types.Cast.{can_cast, from_bool, from_signed, from_unsigned, from_f32, cast_switch}
use luka.Types.Equal.{names_match, equal}

-- The comparison of two names, where the types carry any.
payload_refl :
    {b : BaseType} {p : Payload}
    → IsPayload b p
    → (if is_payload_type b then names_match p p else ok true) ≡ ok true
unfolding names_match is_payload_type
payload_refl (named s h) = rw (h, is_prefix_refl s)
payload_refl (unnamed h) = rw h
payload_refl (sized n) = refl

equal_refl-step :
    (b : BaseType) (i : Ty) (p : Payload) (m : Bool)
    → IsPayload b p
    → equal i i ≡ ok true
    → equal (type b i p m) (type b i p m) ≡ ok true
unfolding equal
equal_refl-step b i p m h e = rw (base_eq_refl b, e, payload_refl h)

-- Every well-formed type is equal to itself.
equal_refl : (t : Ty) → IsType t → equal t t ≡ ok true
equal_refl t (pointing {b} {i} {p} m x h q) = equal_refl-step b i p m q (equal_refl i h)
equal_refl t (simple {b} {p} m x q) = equal_refl-step b null p m q (unfold equal in refl)

-- Two pointers are as equal as what they point to: neither their own mutability nor that of the inner
-- types has a say, for `type_can_cast`, which looks at the latter, is asked only where the inner types
-- differ.
equal-pointer :
    (i1 i2 : Ty) (p1 p2 : Payload) (m1 m2 : Bool)
    → equal (type type_ptr i1 p1 m1) (type type_ptr i2 p2 m2) ≡ equal i1 i2
unfolding equal
equal-pointer i1 i2 p1 p2 m1 m2 = go (equal i1 i2) refl
  where
    go :
        (r : Outcome Bool)
        → equal i1 i2 ≡ r
        → equal (type type_ptr i1 p1 m1) (type type_ptr i2 p2 m2) ≡ equal i1 i2
    go (ok true) e = rw e
    go (ok false) e = rw e
    go (returned c) e = rw e
    go (exited c) e = rw e
    go fault e = rw e
    go out_of_fuel e = rw e

equal-named :
    (a b : Bytes) (m1 m2 : Bool)
    → equal (type type_struct null (text a) m1) (type type_struct null (text b) m2)
      ≡ ok (is_prefix a b)
unfolding equal
equal-named a b m1 m2 = go (is_prefix a b) refl
  where
    go :
        (r : Bool)
        → is_prefix a b ≡ r
        → equal (type type_struct null (text a) m1) (type type_struct null (text b) m2)
          ≡ ok (is_prefix a b)
    go true e = rw e
    go false e = rw e

-- Two structs are equal exactly when the first one's name is a front of the second one's.
pub equal-struct :
    (a b : Bytes) (m1 m2 : Bool)
    → (equal (type type_struct null (text a) m1) (type type_struct null (text b) m2) ≡ ok true)
      ↔ ((rest : Bytes) × (b ≡ a ++ rest))
equal-struct a b m1 m2 = (front, back)
  where
    front :
        equal (type type_struct null (text a) m1) (type type_struct null (text b) m2) ≡ ok true
        → (rest : Bytes) × (b ≡ a ++ rest)
    front h = let e : is_prefix a b ≡ true = cc (equal-named a b m1 m2) in is_prefix_sound a b e

    back :
        ((rest : Bytes) × (b ≡ a ++ rest))
        → equal (type type_struct null (text a) m1) (type type_struct null (text b) m2) ≡ ok true
    back (rest, e) = equal-named a b m1 m2 ∙ rw e (ap ok (is_prefix-append a rest))

-- The kinds of numbers.
pub data Kind : Type 0 where
  boolean signed unsigned single double other : Kind

abbrev pub kind : BaseType → Kind
kind type_bool = boolean
kind type_sint8 = signed
kind type_sint16 = signed
kind type_sint32 = signed
kind type_sint64 = signed
kind type_uint8 = unsigned
kind type_uint16 = unsigned
kind type_uint32 = unsigned
kind type_uint64 = unsigned
kind type_f32 = single
kind type_f64 = double
kind _ = other

-- A value of the first kind may stand for one of the second, whatever the widths: an integer changes its
-- sign or becomes a float, a float of single precision becomes one of double; `bool` goes both ways.
abbrev pub converts : Kind → Kind → Bool
converts boolean boolean = false
converts boolean other = false
converts boolean _ = true
converts other _ = false
converts _ boolean = true
converts signed unsigned = true
converts unsigned signed = true
converts signed single = true
converts signed double = true
converts unsigned single = true
converts unsigned double = true
converts single double = true
converts _ _ = false

from_bool-converts : (b : BaseType) → from_bool b ≡ converts boolean (kind b)
unfolding from_bool
from_bool-converts type_any = refl
from_bool-converts type_bool = refl
from_bool-converts _ = refl

from_signed-converts : (b : BaseType) → from_signed b ≡ converts signed (kind b)
unfolding from_signed
from_signed-converts type_any = refl
from_signed-converts _ = refl

from_unsigned-converts : (b : BaseType) → from_unsigned b ≡ converts unsigned (kind b)
unfolding from_unsigned
from_unsigned-converts type_any = refl
from_unsigned-converts _ = refl

from_f32-converts : (b : BaseType) → from_f32 b ≡ converts single (kind b)
unfolding from_f32
from_f32-converts type_any = refl
from_f32-converts _ = refl

from_f64-converts : (b : BaseType) → base_eq type_bool b ≡ converts double (kind b)
unfolding base_eq
from_f64-converts type_any = refl
from_f64-converts _ = refl

cast_switch-number :
    (inner : Outcome Bool) (b1 b2 : BaseType) (i1 i2 : Ty)
    → kind b1 ≢ other
    → cast_switch inner b1 i1 b2 i2 ≡ ok (converts (kind b1) (kind b2))
unfolding cast_switch
cast_switch-number inner type_bool b2 i1 i2 h = ap ok (from_bool-converts b2)
cast_switch-number inner type_sint8 b2 i1 i2 h = ap ok (from_signed-converts b2)
cast_switch-number inner type_sint16 b2 i1 i2 h = ap ok (from_signed-converts b2)
cast_switch-number inner type_sint32 b2 i1 i2 h = ap ok (from_signed-converts b2)
cast_switch-number inner type_sint64 b2 i1 i2 h = ap ok (from_signed-converts b2)
cast_switch-number inner type_uint8 b2 i1 i2 h = ap ok (from_unsigned-converts b2)
cast_switch-number inner type_uint16 b2 i1 i2 h = ap ok (from_unsigned-converts b2)
cast_switch-number inner type_uint32 b2 i1 i2 h = ap ok (from_unsigned-converts b2)
cast_switch-number inner type_uint64 b2 i1 i2 h = ap ok (from_unsigned-converts b2)
cast_switch-number inner type_f32 b2 i1 i2 h = ap ok (from_f32-converts b2)
cast_switch-number inner type_f64 b2 i1 i2 h = ap ok (from_f64-converts b2)
cast_switch-number inner _ b2 i1 i2 h = absurd (h refl)

number_no_payload :
    (b : BaseType) → kind b ≢ other → (is_payload_type b ≡ false) × (base_eq type_any b ≡ false)
unfolding is_payload_type base_eq
number_no_payload type_any h = absurd (h refl)
number_no_payload type_struct h = absurd (h refl)
number_no_payload type_enum h = absurd (h refl)
number_no_payload type_alias h = absurd (h refl)
number_no_payload _ h = (refl, refl)

-- Of two number types, `bool` included, the one is accepted for the other exactly when they are the same
-- or their kinds convert.
pub equal-number :
    (b1 b2 : BaseType)
    → kind b1 ≢ other
    → kind b2 ≢ other
    → equal (initialize_type b1) (initialize_type b2)
      ≡ ok (base_eq b1 b2 || converts (kind b1) (kind b2))
unfolding equal initialize_type can_cast
equal-number b1 b2 h1 h2 = elim (Bool-cases (base_eq b1 b2)) [
  | inl e ↦ rw (e, (number_no_payload b1 h1).0)
  | inr e ↦ rw (
    e,
    (number_no_payload b1 h1).0,
    cast_switch-number (ok true) b1 b2 null null h1,
    (number_no_payload b2 h2).1,
  )
]
