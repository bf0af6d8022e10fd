-- ===== src/Gen/Types.antt =====
-- src/gen.c: `gen_llvm_type_to_ttype` and `gen_type_to_llvm_type`. The first goes from a pointer or an
-- array to its element with a unit of fuel for each.
pub mod RoundTrip
pub mod Kept
use luka.Prelude.{
  ℕ, zero, suc, ◌%◌, ◌^◌, Bool, true, false, Option, none, some, Bytes, if◌then◌else◌,
}
use luka.ReturnCode.{Outcome, ok, exited, fault, out_of_fuel, codegen_error, ◌>>=◌}
use luka.Types.Base.{
  BaseType, type_any, type_bool, type_sint8, type_sint16, type_sint32, type_sint64, type_uint8,
  type_uint16, type_uint32, type_uint64, type_f32, type_f64, type_string, type_void, type_ptr,
  type_struct, type_enum, type_array, type_alias, type_type, Payload, no_payload, text, size, Ty,
  null, type,
}
use luka.Gen.Llvm.{TypeKind, pointer_kind, struct_kind, array_kind, Llvm}

-- A type without inner type and payload.
abbrev pub plain_type : BaseType → Outcome Ty
plain_type b = ok (type b null no_payload false)

module _ (L : Llvm) where
  -- The cases on the kind, for a type that is none of the simple ones.
  unfoldable pub kind_to_ttype : (L.LType → Outcome Ty) → L.LType → TypeKind → Outcome Ty
  kind_to_ttype call t pointer_kind = do
    inner ← call (L.element_type t)
    ok (type type_ptr inner no_payload false)
  kind_to_ttype call t struct_kind = plain_type type_struct
  kind_to_ttype call t array_kind = do
    inner ← call (L.element_type t)
    ok (type type_array inner (size (L.array_length t)) false)
  kind_to_ttype call t _ = exited codegen_error

  -- The comparisons with the simple types, in the order of the source.
  unfoldable pub simple_to_ttype : L.LType → Outcome Ty → Outcome Ty
  simple_to_ttype t later =
      if L.same_type t (L.pointer_type L.void_type)
      then plain_type type_any
      else if L.same_type t (L.int_type 1)
      then plain_type type_bool
      else if L.same_type t (L.int_type 8)
      then plain_type type_sint8
      else if L.same_type t (L.int_type 16)
      then plain_type type_sint16
      else if L.same_type t (L.int_type 32)
      then plain_type type_sint32
      else if L.same_type t (L.int_type 64)
      then plain_type type_sint64
      else if L.same_type t (L.int_type 8)
      then plain_type type_uint8
      else if L.same_type t (L.int_type 16)
      then plain_type type_uint16
      else if L.same_type t (L.int_type 32)
      then plain_type type_uint32
      else if L.same_type t (L.int_type 64)
      then plain_type type_uint64
      else if L.same_type t L.float_type
      then plain_type type_f32
      else if L.same_type t L.double_type
      then plain_type type_f64
      else if L.same_type t (L.pointer_type (L.int_type 8))
      then plain_type type_string
      else if L.same_type t L.void_type
      then plain_type type_void
      else later

  -- `gen_llvm_type_to_ttype`
  unfoldable pub to_ttype : ℕ → L.LType → Outcome Ty
  unfolding simple_to_ttype kind_to_ttype
  to_ttype zero t = out_of_fuel
  to_ttype (suc fuel) t = simple_to_ttype t (kind_to_ttype (to_ttype fuel) t (L.type_kind t))

  -- A struct is looked up by its name in `struct_infos`.
  module _ (struct_type : Bytes → Option L.LType) where
    unfoldable pub found_struct : Option L.LType → Outcome L.LType
    found_struct none = exited codegen_error
    found_struct (some t) = ok t

    unfoldable pub struct_to_llvm : Payload → Outcome L.LType
    unfolding found_struct
    struct_to_llvm (text name) = found_struct (struct_type name)
    struct_to_llvm _ = fault

    -- An array whose size is not known is a pointer.
    unfoldable pub array_to_llvm : L.LType → Payload → Outcome L.LType
    array_to_llvm inner no_payload = ok (L.pointer_type inner)
    array_to_llvm inner (size zero) = ok (L.pointer_type inner)
    array_to_llvm inner (size (suc n)) = ok (L.array_type inner (suc n % 2 ^ 32))
    array_to_llvm inner (text s) = fault

    -- `gen_type_to_llvm_type`
    unfoldable pub to_llvm : Ty → Outcome L.LType
    unfolding struct_to_llvm array_to_llvm
    to_llvm null = fault
    to_llvm (type type_any i p m) = ok (L.int_type 8)
    to_llvm (type type_type i p m) = ok (L.int_type 8)
    to_llvm (type type_bool i p m) = ok (L.int_type 1)
    to_llvm (type type_sint8 i p m) = ok (L.int_type 8)
    to_llvm (type type_sint16 i p m) = ok (L.int_type 16)
    to_llvm (type type_enum i p m) = ok (L.int_type 32)
    to_llvm (type type_sint32 i p m) = ok (L.int_type 32)
    to_llvm (type type_sint64 i p m) = ok (L.int_type 64)
    to_llvm (type type_uint8 i p m) = ok (L.int_type 8)
    to_llvm (type type_uint16 i p m) = ok (L.int_type 16)
    to_llvm (type type_uint32 i p m) = ok (L.int_type 32)
    to_llvm (type type_uint64 i p m) = ok (L.int_type 64)
    to_llvm (type type_f32 i p m) = ok L.float_type
    to_llvm (type type_f64 i p m) = ok L.double_type
    to_llvm (type type_string i p m) = ok (L.pointer_type (L.int_type 8))
    to_llvm (type type_void i p m) = ok L.void_type
    to_llvm (type type_ptr i p m) = do inner ← to_llvm i; ok (L.pointer_type inner)
    to_llvm (type type_array i p m) = do inner ← to_llvm i; array_to_llvm inner p
    to_llvm (type type_struct i p m) = struct_to_llvm p
    to_llvm (type type_alias i p m) = exited codegen_error
