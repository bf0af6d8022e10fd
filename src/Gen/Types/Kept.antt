-- ===== src/Gen/Types/Kept.antt =====
-- src/gen.c: what `gen_llvm_type_to_ttype` makes of the type that `gen_type_to_llvm_type` has made.
use mathlib.Core.Path.{subst}
use luka.Prelude.{
  ℕ, zero, suc, Bool, false, ◌<◌, arith, ◌%◌, ◌^◌, ◌≡◌, refl, ap, ◌∙◌, Option, none, some, Bytes,
}
use luka.ReturnCode.{ok, >>=-eq-ok}
use luka.Types.Base.{
  BaseType, type_any, type_bool, type_sint8, type_sint16, type_sint32, type_sint64, type_uint8,
  type_uint16, type_uint32, type_uint64, type_f32, type_f64, type_string, type_void, type_ptr,
  type_struct, type_enum, type_array, type_alias, type_type, Payload, no_payload, text, size, Ty,
  null, type,
}
use luka.Gen.Llvm.{Llvm, Form, int, float, double, void, pointer, struct, IsLlvm}
use luka.Gen.Types.{found_struct, struct_to_llvm, array_to_llvm, to_ttype, to_llvm}
use luka.Gen.Types.RoundTrip.{pointer_to, int_to_ttype, seen, height, to_ttype-seen}

-- What is left of a base type: no integer is unsigned, and enums, types and `any` are integers.
abbrev pub kept_base : BaseType → BaseType
kept_base type_uint8 = type_sint8
kept_base type_uint16 = type_sint16
kept_base type_uint32 = type_sint32
kept_base type_uint64 = type_sint64
kept_base type_any = type_sint8
kept_base type_type = type_sint8
kept_base type_enum = type_sint32
kept_base b = b

-- What is left of a type. Names are lost; a size is cut down to 32 bits.
unfoldable pub kept : Ty → Ty
unfolding pointer_to
kept null = null
kept (type type_ptr i p m) = pointer_to (kept i)
kept (type type_array i (size (suc n)) m) = type type_array (kept i) (size (suc n % 2 ^ 32)) false
kept (type type_array i p m) = pointer_to (kept i)
kept (type b i p m) = type (kept_base b) null no_payload false

module _ (L : Llvm) (lawful : IsLlvm L) (struct_type : Bytes → Option L.LType)
    (structs : (name : Bytes) (t : L.LType)
      → struct_type name ≡ some t
      → (k : ℕ) × (lawful.form t ≡ struct k)) where
  Shows : L.LType → Ty → Type 0
  Shows l t = seen (lawful.form l) ≡ ok t

  of_form :
      {s l : L.LType} (f : Form) (t : Ty)
      → ok s ≡ ok l
      → lawful.form s ≡ f
      → seen f ≡ ok t
      → Shows l t
  unfolding Shows
  of_form {s = s} {l = l} f t h e q =
      let same : s ≡ l = (cc) in subst (λ x. seen (lawful.form x) ≡ ok t) same (ap seen e ∙ q)

  Shows-pointer : (l : L.LType) (t : Ty) → Shows l t → Shows (L.pointer_type l) (pointer_to t)
  unfolding Shows seen
  Shows-pointer l t h = rw (lawful.form-pointer_type l) (rw h refl)

  Shows-array :
      (l : L.LType) (t : Ty) (n : ℕ)
      → n < 2 ^ 32
      → Shows l t
      → Shows (L.array_type l n) (type type_array t (size n) false)
  unfolding Shows seen
  Shows-array l t n small h = rw (lawful.form-array_type l n small) (rw h refl)

  struct-Shows :
      (p : Payload) (l : L.LType)
      → struct_to_llvm L struct_type p ≡ ok l
      → Shows l (type type_struct null no_payload false)
  unfolding struct_to_llvm found_struct seen
  struct-Shows no_payload l h = cc
  struct-Shows (size n) l h = cc
  struct-Shows (text s) l h = go (struct_type s) refl h
    where
      go :
          (o : Option L.LType)
          → struct_type s ≡ o
          → found_struct L struct_type o ≡ ok l
          → Shows l (type type_struct null no_payload false)
      go none e q = cc
      go (some t) e q = let (k, form_is) = structs s t e in of_form (struct k) _ q form_is refl

  array-Shows :
      (i : Ty) (p : Payload) (m : Bool) (inner l : L.LType)
      → Shows inner (kept i)
      → array_to_llvm L struct_type inner p ≡ ok l
      → Shows l (kept (type type_array i p m))
  unfolding array_to_llvm kept
  array-Shows i no_payload m inner l h q =
      let same : L.pointer_type inner ≡ l = (cc) in
      subst (λ x. Shows x (pointer_to (kept i))) same (Shows-pointer inner (kept i) h)
  array-Shows i (size zero) m inner l h q =
      let same : L.pointer_type inner ≡ l = (cc) in
      subst (λ x. Shows x (pointer_to (kept i))) same (Shows-pointer inner (kept i) h)
  array-Shows i (size (suc n)) m inner l h q =
      let same : L.array_type inner (suc n % 2 ^ 32) ≡ l = (cc) in
      subst (λ x. Shows x (type type_array (kept i) (size (suc n % 2 ^ 32)) false)) same
        (Shows-array inner (kept i) (suc n % 2 ^ 32) (omega arith) h)
  array-Shows i (text s) m inner l h q = cc

  to_llvm-Shows : (t : Ty) (l : L.LType) → to_llvm L struct_type t ≡ ok l → Shows l (kept t)
  unfolding to_llvm kept seen int_to_ttype pointer_to
  to_llvm-Shows null l h = cc
  to_llvm-Shows (type type_any i p m) l h =
      of_form (int 8) _ h (lawful.form-int_type 8 (omega arith) (omega arith)) refl
  to_llvm-Shows (type type_type i p m) l h =
      of_form (int 8) _ h (lawful.form-int_type 8 (omega arith) (omega arith)) refl
  to_llvm-Shows (type type_bool i p m) l h =
      of_form (int 1) _ h (lawful.form-int_type 1 (omega arith) (omega arith)) refl
  to_llvm-Shows (type type_sint8 i p m) l h =
      of_form (int 8) _ h (lawful.form-int_type 8 (omega arith) (omega arith)) refl
  to_llvm-Shows (type type_sint16 i p m) l h =
      of_form (int 16) _ h (lawful.form-int_type 16 (omega arith) (omega arith)) refl
  to_llvm-Shows (type type_enum i p m) l h =
      of_form (int 32) _ h (lawful.form-int_type 32 (omega arith) (omega arith)) refl
  to_llvm-Shows (type type_sint32 i p m) l h =
      of_form (int 32) _ h (lawful.form-int_type 32 (omega arith) (omega arith)) refl
  to_llvm-Shows (type type_sint64 i p m) l h =
      of_form (int 64) _ h (lawful.form-int_type 64 (omega arith) (omega arith)) refl
  to_llvm-Shows (type type_uint8 i p m) l h =
      of_form (int 8) _ h (lawful.form-int_type 8 (omega arith) (omega arith)) refl
  to_llvm-Shows (type type_uint16 i p m) l h =
      of_form (int 16) _ h (lawful.form-int_type 16 (omega arith) (omega arith)) refl
  to_llvm-Shows (type type_uint32 i p m) l h =
      of_form (int 32) _ h (lawful.form-int_type 32 (omega arith) (omega arith)) refl
  to_llvm-Shows (type type_uint64 i p m) l h =
      of_form (int 64) _ h (lawful.form-int_type 64 (omega arith) (omega arith)) refl
  to_llvm-Shows (type type_f32 i p m) l h = of_form float _ h lawful.form-float_type refl
  to_llvm-Shows (type type_f64 i p m) l h = of_form double _ h lawful.form-double_type refl
  to_llvm-Shows (type type_string i p m) l h =
      of_form (pointer (int 8)) _ h
        (lawful.form-pointer_type (L.int_type 8)
          ∙ ap pointer (lawful.form-int_type 8 (omega arith) (omega arith)))
        refl
  to_llvm-Shows (type type_void i p m) l h = of_form void _ h lawful.form-void_type refl
  to_llvm-Shows (type type_ptr i p m) l h =
      let (inner, e, q) = >>=-eq-ok (to_llvm L struct_type i) (λ x. ok (L.pointer_type x)) h in
      let same : L.pointer_type inner ≡ l = (cc) in
      subst (λ x. Shows x (pointer_to (kept i))) same
        (Shows-pointer inner (kept i) (to_llvm-Shows i inner e))
  to_llvm-Shows (type type_array i p m) l h =
      let (inner, e, q) =
        >>=-eq-ok (to_llvm L struct_type i) (λ x. array_to_llvm L struct_type x p) h in
      array-Shows i p m inner l (to_llvm-Shows i inner e) q
  to_llvm-Shows (type type_struct i p m) l h = struct-Shows p l h
  to_llvm-Shows (type type_alias i p m) l h = cc

  -- Where a type is translated to LLVM, the way back ends with enough fuel for the elements in one another,
  -- and gives what is left of the type: an unsigned integer comes back as a signed one. The types of
  -- structs are LLVM structs.
  pub to_ttype-to_llvm :
      (fuel : ℕ) (t : Ty) (l : L.LType)
      → to_llvm L struct_type t ≡ ok l
      → height (lawful.form l) < fuel
      → to_ttype L fuel l ≡ ok (kept t)
  to_ttype-to_llvm fuel t l h enough =
      to_ttype-seen L lawful fuel l enough ∙ (unfold Shows in to_llvm-Shows t l h)
