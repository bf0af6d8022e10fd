-- ===== src/Gen/Constants/Numbers.antt =====
-- src/gen.c: the constant of a number has the number's bits.
use luka.Prelude.{◌<◌, ◌≤◌, ℕ, ◌%◌, ◌^◌, ◌≡◌, refl, ◌∙◌, Bool, true, false, Option, Bytes, arith}
use luka.ReturnCode.{ok}
use luka.Types.Base.{
  BaseType, type_sint8, type_sint16, type_sint32, type_sint64, type_uint8, type_uint16, type_uint32,
  type_uint64, Payload, Ty, type,
}
use luka.Gen.Llvm.{Llvm, IsLlvm}
use luka.Gen.Types.{to_llvm}
use luka.Gen.Constants.{Constants, IsConstants, sign_extend, number_of, codegen_number}

-- The types of integers, with their widths.
pub data IntegerType : BaseType → ℕ → Type 0 where
  signed_8 : IntegerType type_sint8 8
  signed_16 : IntegerType type_sint16 16
  signed_32 : IntegerType type_sint32 32
  signed_64 : IntegerType type_sint64 64
  unsigned_8 : IntegerType type_uint8 8
  unsigned_16 : IntegerType type_uint16 16
  unsigned_32 : IntegerType type_uint32 32
  unsigned_64 : IntegerType type_uint64 64

-- Extending the sign and cutting it off again.
sign_extend-8 : (v : ℕ) → (sign_extend 8 v < 2 ^ 64) × (sign_extend 8 v % 2 ^ 8 ≡ v % 2 ^ 8)
unfolding sign_extend
sign_extend-8 v = (ground arith, ground arith)

sign_extend-16 : (v : ℕ) → (sign_extend 16 v < 2 ^ 64) × (sign_extend 16 v % 2 ^ 16 ≡ v % 2 ^ 16)
unfolding sign_extend
sign_extend-16 v = (ground arith, ground arith)

sign_extend-32 : (v : ℕ) → (sign_extend 32 v < 2 ^ 64) × (sign_extend 32 v % 2 ^ 32 ≡ v % 2 ^ 32)
unfolding sign_extend
sign_extend-32 v = (ground arith, ground arith)

sign_extend-64 : (v : ℕ) → (sign_extend 64 v < 2 ^ 64) × (sign_extend 64 v % 2 ^ 64 ≡ v % 2 ^ 64)
unfolding sign_extend
sign_extend-64 v = (ground arith, ground arith)

module _ (L : Llvm) (lawful : IsLlvm L) (K : Constants L) (constant : IsConstants L lawful K)
    (struct_type : Bytes → Option L.LType) where
  -- A constant is made, with the bits of the number.
  Has : Ty → ℕ → ℕ → Type 0
  Has t v w =
      (c : L.Value) × (codegen_number L K struct_type t v ≡ ok c) × (constant.value c ≡ v % 2 ^ w)

  made-Has :
      (w v bits : ℕ) (signed : Bool) (t : Ty)
      → codegen_number L K struct_type t v ≡ ok (K.const_int (L.int_type w) bits signed)
      → 0 < w
      → w ≤ 64
      → (bits < 2 ^ 64) × (bits % 2 ^ w ≡ v % 2 ^ w)
      → Has t v w
  unfolding Has
  made-Has w v bits signed t made wide narrow h = (
    _,
    made,
    constant.value-const_int _ w bits signed (lawful.form-int_type w wide narrow) narrow h.0 ∙ h.1,
  )

  integer-Has :
      {b : BaseType} {w : ℕ}
      → IntegerType b w
      → (i : Ty) (p : Payload) (m : Bool) (v : ℕ) → Has (type b i p m) v w
  unfolding codegen_number to_llvm number_of
  integer-Has signed_8 i p m v =
      made-Has 8 v (sign_extend 8 v) true _ refl (omega arith) (omega arith) (sign_extend-8 v)
  integer-Has signed_16 i p m v =
      made-Has 16 v (sign_extend 16 v) true _ refl (omega arith) (omega arith) (sign_extend-16 v)
  integer-Has signed_32 i p m v =
      made-Has 32 v (sign_extend 32 v) true _ refl (omega arith) (omega arith) (sign_extend-32 v)
  integer-Has signed_64 i p m v =
      made-Has 64 v (sign_extend 64 v) true _ refl (omega arith) (omega arith) (sign_extend-64 v)
  integer-Has unsigned_8 i p m v =
      made-Has 8 v (v % 2 ^ 8) false _ refl (omega arith) (omega arith) (omega arith, omega arith)
  integer-Has unsigned_16 i p m v =
      made-Has 16 v (v % 2 ^ 16) false _ refl (omega arith) (omega arith) (omega arith, omega arith)
  integer-Has unsigned_32 i p m v =
      made-Has 32 v (v % 2 ^ 32) false _ refl (omega arith) (omega arith) (omega arith, omega arith)
  integer-Has unsigned_64 i p m v =
      made-Has 64 v (v % 2 ^ 64) false _ refl (omega arith) (omega arith) (omega arith, omega arith)

  -- For a number of an integer type a constant is made, whose value is what the node holds, as the bits of
  -- the width of the type: a sign that is extended on the way is cut off again.
  pub codegen_number-value :
      {b : BaseType} {w : ℕ}
      → IntegerType b w
      → (i : Ty) (p : Payload) (m : Bool) (v : ℕ)
      → (c : L.Value) × (codegen_number L K struct_type (type b i p m) v ≡ ok c)
        × (constant.value c ≡ v % 2 ^ w)
  unfolding Has
  codegen_number-value h i p m v = integer-Has h i p m v
