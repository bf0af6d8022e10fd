-- ===== src/Examples/Types.antt =====
-- The theorems on src/type.c, each at concrete types.
use luka.Prelude.{◌≡◌, ◌↔◌, refl, Bool, true, false, Bytes, codes, ◌++◌}
use luka.ReturnCode.{ok}
use luka.Types.Base.{
  type_sint32, type_ptr, type_array, type_struct, text, size, no_payload, Ty, null, type, IsType,
  pointing, simple, named, unnamed, sized, initialize_type, is_payload_type, is_pointer,
}
use luka.Types.Equal.{equal}
use luka.Types.Equal.Laws.{equal-struct}
use luka.Types.Equal.Total.{equal-IsType}

abbrev struct_type : Bytes → Ty
struct_type s = type type_struct null (text s) true

-- A pointer to an array of three structs.
abbrev rows : Ty
rows = type type_ptr (type type_array (struct_type (codes "Row")) (size 3) false) no_payload true

rows-IsType : IsType rows
unfolding is_payload_type is_pointer
rows-IsType =
    pointing true refl (pointing false refl (simple true refl (named (codes "Row") refl)) (sized 3))
      (unnamed refl)

number-IsType : IsType (initialize_type type_sint32)
unfolding initialize_type is_payload_type is_pointer
number-IsType = simple false refl (unnamed refl)

equal-IsType_example : (b : Bool) × (equal rows (initialize_type type_sint32) ≡ ok b)
equal-IsType_example = equal-IsType rows (initialize_type type_sint32) rows-IsType number-IsType

equal-struct_example :
    (equal (struct_type (codes "Vec")) (struct_type (codes "Vector")) ≡ ok true)
    ↔ ((rest : Bytes) × (codes "Vector" ≡ codes "Vec" ++ rest))
equal-struct_example = equal-struct (codes "Vec") (codes "Vector") true true
