-- ===== src/Gen/Constants/Sizes.antt =====
-- src/gen.c, src/type.c: the size that `@sizeOf` gives, and the one that LLVM has for the type.
use luka.Prelude.{ℕ, ◌^◌, ◌<◌, ◌≡◌, refl, sym, ap, ◌∙◌, false, Option, Bytes, arith}
use luka.ReturnCode.{Outcome, ok, ◌>>=◌, >>=-eq-ok}
use luka.Types.Base.{
  type_bool, type_sint8, type_sint16, type_sint32, type_sint64, type_uint8, type_uint16,
  type_uint32, type_uint64, type_f32, type_f64, type_string, type_void, type_ptr, type_enum,
  type_array, type_alias, Ty, null, type, sizeof,
}
use luka.Gen.Llvm.{Llvm, Form, int, float, double, IsLlvm}
use luka.Gen.Types.{to_llvm}
use luka.Gen.Constants.{Constants, IsConstants, known_size, codegen_sizeof}

-- The size that is given for a type, where `n` is LLVM's.
unfoldable pub given_size : Ty → ℕ → ℕ
given_size (type type_array i p m) n = 8
given_size (type type_void i p m) n = 0
given_size t n = n

module _ (L : Llvm) (lawful : IsLlvm L) (K : Constants L) (constant : IsConstants L lawful K)
    (struct_type : Bytes → Option L.LType) where
  constant-value : (n : ℕ) → n < 2 ^ 64 → constant.value (K.const_int (L.int_type 64) n false) ≡ n
  constant-value n h =
      constant.value-const_int _ 64 n false (lawful.form-int_type 64 (omega arith) (omega arith))
        (omega arith) h
      ∙ omega (arith, h)

  -- The size of `TYPE_sizeof` is LLVM's where the form of the type takes as many bytes.
  same_size :
      (n : ℕ) (f : Form) (made l : L.LType)
      → Path (Outcome L.LType) (ok made) (ok l)
      → n < 2 ^ 64
      → lawful.form made ≡ f
      → constant.bytes f ≡ n
      → constant.value (K.const_int (L.int_type 64) n false) ≡ constant.bytes (lawful.form l)
  same_size n f made l e h form_is bytes_are =
      let same : made ≡ l = (cc) in
      constant-value n h ∙ sym bytes_are ∙ ap constant.bytes (sym form_is ∙ ap lawful.form same)

  asked :
      {o : Outcome L.LType} {l : L.LType}
      → o ≡ ok l
      → (o >>= λ l. ok (K.size_of l)) ≡ ok (K.size_of l)
  asked h = ap (λ o. o >>= λ l. ok (K.size_of l)) h

  -- Where a type is translated to LLVM, its size is given as a constant, and is the number of bytes that
  -- LLVM has for it, but for an array: that has the size of a pointer, although LLVM keeps its elements in
  -- place where their number is known. The type without values has no byte. LLVM's number of bytes fits 64 bits.
  pub codegen_sizeof-bytes :
      (t : Ty) (l : L.LType)
      → to_llvm L struct_type t ≡ ok l
      → constant.bytes (lawful.form l) < 2 ^ 64
      → (c : L.Value) × (codegen_sizeof L K struct_type t ≡ ok c)
        × (constant.value c ≡ given_size t (constant.bytes (lawful.form l)))
  unfolding codegen_sizeof known_size sizeof to_llvm given_size
  codegen_sizeof-bytes null l h fits = cc
  codegen_sizeof-bytes (type type_bool i p m) l h fits = (
    _,
    refl,
    same_size 1 (int 1) _ l h (omega arith) (lawful.form-int_type 1 (omega arith) (omega arith))
        constant.bytes-bit,
  )
  codegen_sizeof-bytes (type type_sint8 i p m) l h fits = (
    _,
    refl,
    same_size 1 (int 8) _ l h (omega arith) (lawful.form-int_type 8 (omega arith) (omega arith))
        (constant.bytes-int 0 (omega arith)),
  )
  codegen_sizeof-bytes (type type_uint8 i p m) l h fits = (
    _,
    refl,
    same_size 1 (int 8) _ l h (omega arith) (lawful.form-int_type 8 (omega arith) (omega arith))
        (constant.bytes-int 0 (omega arith)),
  )
  codegen_sizeof-bytes (type type_sint16 i p m) l h fits = (
    _,
    refl,
    same_size 2 (int 16) _ l h (omega arith) (lawful.form-int_type 16 (omega arith) (omega arith))
        (constant.bytes-int 1 (omega arith)),
  )
  codegen_sizeof-bytes (type type_uint16 i p m) l h fits = (
    _,
    refl,
    same_size 2 (int 16) _ l h (omega arith) (lawful.form-int_type 16 (omega arith) (omega arith))
        (constant.bytes-int 1 (omega arith)),
  )
  codegen_sizeof-bytes (type type_enum i p m) l h fits = (
    _,
    refl,
    same_size 4 (int 32) _ l h (omega arith) (lawful.form-int_type 32 (omega arith) (omega arith))
        (constant.bytes-int 2 (omega arith)),
  )
  codegen_sizeof-bytes (type type_sint32 i p m) l h fits = (
    _,
    refl,
    same_size 4 (int 32) _ l h (omega arith) (lawful.form-int_type 32 (omega arith) (omega arith))
        (constant.bytes-int 2 (omega arith)),
  )
  codegen_sizeof-bytes (type type_uint32 i p m) l h fits = (
    _,
    refl,
    same_size 4 (int 32) _ l h (omega arith) (lawful.form-int_type 32 (omega arith) (omega arith))
        (constant.bytes-int 2 (omega arith)),
  )
  codegen_sizeof-bytes (type type_sint64 i p m) l h fits = (
    _,
    refl,
    same_size 8 (int 64) _ l h (omega arith) (lawful.form-int_type 64 (omega arith) (omega arith))
        (constant.bytes-int 3 (omega arith)),
  )
  codegen_sizeof-bytes (type type_uint64 i p m) l h fits = (
    _,
    refl,
    same_size 8 (int 64) _ l h (omega arith) (lawful.form-int_type 64 (omega arith) (omega arith))
        (constant.bytes-int 3 (omega arith)),
  )
  codegen_sizeof-bytes (type type_f32 i p m) l h fits =
      (_, refl, same_size 4 float _ l h (omega arith) lawful.form-float_type constant.bytes-float)
  codegen_sizeof-bytes (type type_f64 i p m) l h fits = (
    _,
    refl,
    same_size 8 double _ l h (omega arith) lawful.form-double_type constant.bytes-double,
  )
  codegen_sizeof-bytes (type type_string i p m) l h fits = (
    _,
    refl,
    same_size 8 _ _ l h (omega arith) (lawful.form-pointer_type _) (constant.bytes-pointer _),
  )
  codegen_sizeof-bytes (type type_ptr i p m) l h fits =
      let r = >>=-eq-ok (to_llvm L struct_type i) _ h in
      (
        _,
        refl,
        same_size 8 _ _ l r.2 (omega arith) (lawful.form-pointer_type r.0)
            (constant.bytes-pointer _),
      )
  codegen_sizeof-bytes (type type_array i p m) l h fits = (_, refl, constant-value 8 (omega arith))
  codegen_sizeof-bytes (type type_void i p m) l h fits = (_, refl, constant-value 0 (omega arith))
  codegen_sizeof-bytes (type type_alias i p m) l h fits = cc
  codegen_sizeof-bytes t l h fits = (K.size_of l, asked h, constant.value-size_of l fits)
