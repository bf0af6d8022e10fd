-- ===== src/Types/Base.antt =====
-- The data of types, and the functions of src/type.c that look at one base type.
use luka.Prelude.{
  ℕ, ◌≡◌, refl, ap, Bool, true, false, ◌||◌, [], ◌∷◌, Option, none, some, Bytes, ◌==◌, ==_iff,
  get_elem?,
}

pub data BaseType : Type 0 where
  type_any type_bool : BaseType
  type_sint8 type_sint16 type_sint32 type_sint64 : BaseType
  type_uint8 type_uint16 type_uint32 type_uint64 : BaseType
  type_f32 type_f64 type_string type_void type_ptr : BaseType
  type_struct type_enum type_array type_alias type_type : BaseType

-- The `void *payload`: NULL, the name of a struct, an enum or an alias, or an array's size as a number.
pub data Payload : Type 0 where
  no_payload : Payload
  text : Bytes → Payload
  size : ℕ → Payload

pub data Ty : Type 0 where
  null : Ty
  type : BaseType → Ty → Payload → Bool → Ty

-- The enumeration's values: `==` compares these.
unfoldable pub base_value : BaseType → ℕ
base_value type_any = 0
base_value type_bool = 1
base_value type_sint8 = 2
base_value type_sint16 = 3
base_value type_sint32 = 4
base_value type_sint64 = 5
base_value type_uint8 = 6
base_value type_uint16 = 7
base_value type_uint32 = 8
base_value type_uint64 = 9
base_value type_f32 = 10
base_value type_f64 = 11
base_value type_string = 12
base_value type_void = 13
base_value type_ptr = 14
base_value type_struct = 15
base_value type_enum = 16
base_value type_array = 17
base_value type_alias = 18
base_value type_type = 19

unfoldable pub base_eq : BaseType → BaseType → Bool
unfolding base_value
base_eq a b = base_value a == base_value b

of_value : ℕ → Option BaseType
of_value n =
    get_elem?
      (type_any ∷ type_bool ∷ type_sint8 ∷ type_sint16 ∷ type_sint32 ∷ type_sint64 ∷ type_uint8
        ∷ type_uint16 ∷ type_uint32 ∷ type_uint64 ∷ type_f32 ∷ type_f64 ∷ type_string ∷ type_void
        ∷ type_ptr ∷ type_struct ∷ type_enum ∷ type_array ∷ type_alias ∷ type_type ∷ [])
      n

of_value-base_value : (b : BaseType) → of_value (base_value b) ≡ some b
unfolding of_value base_value
of_value-base_value type_any = refl
of_value-base_value _ = refl

pub base_eq_sound : (a b : BaseType) → base_eq a b ≡ true → a ≡ b
base_eq_sound a b h =
    let e : base_value a ≡ base_value b = (==_iff _ _).0 (unfold base_eq in h) in
    cc (of_value-base_value a, of_value-base_value b, ap of_value e)

pub base_eq_refl : (a : BaseType) → base_eq a a ≡ true
unfolding base_eq
base_eq_refl a = (==_iff _ _).1 refl

-- `type_is_payload_type`
unfoldable pub is_payload_type : BaseType → Bool
is_payload_type type_struct = true
is_payload_type type_enum = true
is_payload_type type_alias = true
is_payload_type _ = false

-- `TYPE_is_floating_type`
unfoldable pub is_floating_type : BaseType → Bool
unfolding base_eq
is_floating_type b = base_eq b type_f32 || base_eq b type_f64

-- `TYPE_is_signed`
unfoldable pub is_signed : BaseType → Bool
is_signed type_sint8 = true
is_signed type_sint16 = true
is_signed type_sint32 = true
is_signed type_sint64 = true
is_signed _ = false

-- `TYPE_sizeof`, with `none` for its -1. Pointers have eight bytes.
unfoldable pub sizeof : BaseType → Option ℕ
sizeof type_void = some 0
sizeof type_bool = some 1
sizeof type_sint8 = some 1
sizeof type_uint8 = some 1
sizeof type_sint16 = some 2
sizeof type_uint16 = some 2
sizeof type_enum = some 4
sizeof type_sint32 = some 4
sizeof type_uint32 = some 4
sizeof type_f32 = some 4
sizeof type_sint64 = some 8
sizeof type_uint64 = some 8
sizeof type_f64 = some 8
sizeof type_ptr = some 8
sizeof type_array = some 8
sizeof type_string = some 8
sizeof _ = none

-- `TYPE_initialize_type`
unfoldable pub initialize_type : BaseType → Ty
initialize_type b = type b null no_payload false

-- What the constructors of types in the compiler keep to: pointers and arrays have an inner type, the
-- types that are named have a name, and no other but an array has a payload.
pub data IsPayload : BaseType → Payload → Type 0 where
  named : {b : BaseType} (s : Bytes) → is_payload_type b ≡ true → IsPayload b (text s)
  unnamed : {b : BaseType} → is_payload_type b ≡ false → IsPayload b no_payload
  sized : (n : ℕ) → IsPayload type_array (size n)

unfoldable pub is_pointer : BaseType → Bool
is_pointer type_ptr = true
is_pointer type_array = true
is_pointer _ = false

pub data IsType : Ty → Type 0 where
  pointing :
      {b : BaseType} {i : Ty} {p : Payload} (m : Bool)
      → is_pointer b ≡ true
      → IsType i
      → IsPayload b p
      → IsType (type b i p m)
  simple :
      {b : BaseType} {p : Payload} (m : Bool)
      → is_pointer b ≡ false
      → IsPayload b p
      → IsType (type b null p m)
