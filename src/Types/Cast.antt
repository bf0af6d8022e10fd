-- ===== src/Types/Cast.antt =====
-- src/type.c: `type_can_cast`, the implicit conversions. It calls `TYPE_equal` on the inner types; that
-- outcome is an argument here, and src/type.c's recursion is in Types/Equal.
use luka.Prelude.{Bool, true, false, not, ◌||◌, if◌then◌else◌}
use luka.ReturnCode.{Outcome, ok, fault, ◌>>=◌}
use luka.Types.Base.{
  BaseType, type_any, type_bool, type_sint8, type_sint16, type_sint32, type_sint64, type_uint8,
  type_uint16, type_uint32, type_uint64, type_f32, type_f64, type_string, type_ptr, type_array,
  type_alias, Ty, null, type, base_eq,
}

unfoldable pub from_bool : BaseType → Bool
from_bool type_sint8 = true
from_bool type_sint16 = true
from_bool type_sint32 = true
from_bool type_sint64 = true
from_bool type_uint8 = true
from_bool type_uint16 = true
from_bool type_uint32 = true
from_bool type_uint64 = true
from_bool type_f32 = true
from_bool type_f64 = true
from_bool _ = false

unfoldable pub from_signed : BaseType → Bool
from_signed type_bool = true
from_signed type_uint8 = true
from_signed type_uint16 = true
from_signed type_uint32 = true
from_signed type_uint64 = true
from_signed type_f32 = true
from_signed type_f64 = true
from_signed _ = false

unfoldable pub from_unsigned : BaseType → Bool
from_unsigned type_bool = true
from_unsigned type_sint8 = true
from_unsigned type_sint16 = true
from_unsigned type_sint32 = true
from_unsigned type_sint64 = true
from_unsigned type_f32 = true
from_unsigned type_f64 = true
from_unsigned _ = false

unfoldable pub from_f32 : BaseType → Bool
from_f32 type_bool = true
from_f32 type_f64 = true
from_f32 _ = false

-- `type->mutable`
abbrev pub mutable : Ty → Outcome Bool
mutable null = fault
mutable (type b i p m) = ok m

-- `case TYPE_STRING`: a pointer to bytes.
unfoldable pub from_string : BaseType → Ty → Bool
unfolding base_eq
from_string type_ptr (type b i p m) = base_eq type_uint8 b || base_eq type_sint8 b
from_string _ _ = false

-- The two flags of `type1->inner_type->mutable ? true : !type2->inner_type->mutable`.
unfoldable pub keeps_mutability : Ty → Ty → Outcome Bool
keeps_mutability i1 i2 = do
  m1 ← mutable i1
  if m1 then ok true else (mutable i2 >>= λ m2. ok (not m2))

-- `case TYPE_PTR: case TYPE_ARRAY:`, for a `type2` that is one of them.
unfoldable pub from_pointer : Outcome Bool → Ty → Ty → Outcome Bool
unfolding keeps_mutability
from_pointer inner i1 i2 = do result ← inner; if result then keeps_mutability i1 i2 else ok false

-- The `switch` on the first base type.
unfoldable pub cast_switch : Outcome Bool → BaseType → Ty → BaseType → Ty → Outcome Bool
unfolding from_bool from_signed from_unsigned from_f32 from_string from_pointer base_eq
cast_switch inner type_any i1 b2 i2 = ok true
cast_switch inner type_bool i1 b2 i2 = ok (from_bool b2)
cast_switch inner type_sint8 i1 b2 i2 = ok (from_signed b2)
cast_switch inner type_sint16 i1 b2 i2 = ok (from_signed b2)
cast_switch inner type_sint32 i1 b2 i2 = ok (from_signed b2)
cast_switch inner type_sint64 i1 b2 i2 = ok (from_signed b2)
cast_switch inner type_uint8 i1 b2 i2 = ok (from_unsigned b2)
cast_switch inner type_uint16 i1 b2 i2 = ok (from_unsigned b2)
cast_switch inner type_uint32 i1 b2 i2 = ok (from_unsigned b2)
cast_switch inner type_uint64 i1 b2 i2 = ok (from_unsigned b2)
cast_switch inner type_f32 i1 b2 i2 = ok (from_f32 b2)
cast_switch inner type_f64 i1 b2 i2 = ok (base_eq type_bool b2)
cast_switch inner type_string i1 b2 i2 = ok (from_string b2 i2)
cast_switch inner type_ptr i1 type_ptr i2 = from_pointer inner i1 i2
cast_switch inner type_ptr i1 type_array i2 = from_pointer inner i1 i2
cast_switch inner type_array i1 type_ptr i2 = from_pointer inner i1 i2
cast_switch inner type_array i1 type_array i2 = from_pointer inner i1 i2
cast_switch inner type_alias i1 b2 i2 = ok true
cast_switch inner _ i1 b2 i2 = ok false

-- Whatever the `switch` says, everything converts to `any`.
unfoldable pub can_cast : Outcome Bool → Ty → Ty → Outcome Bool
unfolding cast_switch
can_cast inner (type b1 i1 p1 m1) (type b2 i2 p2 m2) = do
  result ← cast_switch inner b1 i1 b2 i2
  ok (if base_eq type_any b2 then true else result)
can_cast inner _ _ = fault
