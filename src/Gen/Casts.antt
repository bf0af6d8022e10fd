-- ===== src/Gen/Casts.antt =====
-- src/gen.c: the casts of operands and `gen_codegen_cast`. A function that may replace its operands gives
-- them back, with the builder and whether it says that it has cast.
pub mod Numbers
pub mod Joined
pub mod Opcodes
use luka.Prelude.{ℕ, Bool, true, false, not, ◌&&◌, ◌||◌, ltb, if◌then◌else◌}
use luka.ReturnCode.{Outcome, ok, fault, ◌>>=◌}
use luka.Types.Base.{BaseType, type_f32, Ty, null, type, base_eq, is_floating_type, is_signed}
use luka.Gen.Llvm.{
  TypeKind, integer_kind, float_kind, double_kind, void_kind, pointer_kind, struct_kind, array_kind,
  other_kind, Opcode, trunc, z_ext, fp_to_ui, fp_to_si, fp_trunc, fp_ext, ui_to_fp, bit_cast, Llvm,
}
use luka.Gen.Types.{to_ttype}

-- `ttype->type`
unfoldable pub base_of : Ty → Outcome BaseType
base_of null = fault
base_of (type b i p m) = ok b

-- The comparison with a kind that is asked for.
unfoldable pub kind_eq : TypeKind → TypeKind → Bool
kind_eq integer_kind integer_kind = true
kind_eq float_kind float_kind = true
kind_eq double_kind double_kind = true
kind_eq pointer_kind pointer_kind = true
kind_eq array_kind array_kind = true
kind_eq _ _ = false

module _ (L : Llvm) (fuel : ℕ) where
  pub record Operands : Type 0 where
    pub lhs : L.Value
    pub rhs : L.Value
    pub builder : L.Builder

  -- A cast of the left operand, or of the right one.
  unfoldable pub cast_lhs :
      (L.Value → L.LType → L.Builder → L.Value × L.Builder) → Operands → Operands
  cast_lhs build o =
      let r = build o.lhs (L.type_of o.rhs) o.builder in
      record { lhs = r.0; rhs = o.rhs; builder = r.1 }

  unfoldable pub cast_rhs :
      (L.Value → L.LType → L.Builder → L.Value × L.Builder) → Operands → Operands
  cast_rhs build o =
      let r = build o.rhs (L.type_of o.lhs) o.builder in
      record { lhs = o.lhs; rhs = r.0; builder = r.1 }

  -- The base type that is seen of a value.
  unfoldable pub value_base : L.Value → Outcome BaseType
  unfolding to_ttype base_of
  value_base v = to_ttype L fuel (L.type_of v) >>= base_of

  -- `gen_llvm_cast_sizes_if_needed`, on the two base types.
  unfoldable pub cast_sizes_of : BaseType → BaseType → Operands → Bool × Operands
  unfolding base_eq is_floating_type is_signed cast_lhs cast_rhs
  cast_sizes_of b1 b2 o = if base_eq b1 b2 then (false, o) else (
    true,
    if is_floating_type b1
        then (if base_eq b1 type_f32 then cast_lhs L.build_fp_ext o else cast_rhs L.build_fp_ext o)
        else if ltb (L.int_width (L.type_of o.lhs)) (L.int_width (L.type_of o.rhs))
        then cast_lhs (L.build_int_cast (is_signed b2)) o
        else cast_rhs (L.build_int_cast (is_signed b1)) o,
  )

  unfoldable pub cast_sizes : Operands → Outcome (Bool × Operands)
  unfolding value_base cast_sizes_of
  cast_sizes o = do b1 ← value_base o.lhs; b2 ← value_base o.rhs; ok (cast_sizes_of b1 b2 o)

  -- `gen_llvm_cast_to_fp_if_needed`, what it casts before the sizes.
  unfoldable pub to_fp_of : BaseType → BaseType → Operands → Operands
  unfolding is_floating_type is_signed cast_lhs cast_rhs
  to_fp_of b1 b2 o =
      if is_floating_type b1 && not (is_floating_type b2)
      then cast_rhs (if is_signed b2 then L.build_si_to_fp else L.build_ui_to_fp) o
      else if not (is_floating_type b1) && is_floating_type b2
      then cast_lhs (if is_signed b1 then L.build_si_to_fp else L.build_ui_to_fp) o
      else o

  -- What both functions do behind a cast: the sizes, whose answer is not looked at.
  unfoldable pub then_sizes : Operands → Outcome (Bool × Operands)
  unfolding cast_sizes
  then_sizes o = do r ← cast_sizes o; ok (true, r.1)

  unfoldable pub cast_to_fp : Operands → Outcome (Bool × Operands)
  unfolding value_base then_sizes to_fp_of
  cast_to_fp o = do
    b1 ← value_base o.lhs
    b2 ← value_base o.rhs
    if is_floating_type b1 || is_floating_type b2
        then then_sizes (to_fp_of b1 b2 o)
        else ok (false, o)

  -- `gen_llvm_cast_to_signed_if_needed`
  unfoldable pub to_signed_of : BaseType → BaseType → Operands → Operands
  unfolding is_signed cast_lhs cast_rhs
  to_signed_of b1 b2 o =
      if is_signed b1 && not (is_signed b2)
      then cast_rhs (L.build_int_cast true) o
      else if not (is_signed b1) && is_signed b2
      then cast_lhs (L.build_int_cast true) o
      else o

  unfoldable pub cast_to_signed : Operands → Outcome (Bool × Operands)
  unfolding value_base then_sizes to_signed_of
  cast_to_signed o = do
    b1 ← value_base o.lhs
    b2 ← value_base o.rhs
    if is_signed b1 || is_signed b2 then then_sizes (to_signed_of b1 b2 o) else ok (false, o)

  -- `gen_llvm_cast_null_if_needed`; the types are translated although they are not looked at.
  unfoldable pub cast_null : Operands → Outcome (Bool × Operands)
  unfolding to_ttype
  cast_null o = do
    _ ← to_ttype L fuel (L.type_of o.lhs)
    _ ← to_ttype L fuel (L.type_of o.rhs)
    ok (
        if L.is_null o.lhs || L.is_null o.rhs
        then (
          true,
          if not (L.is_null o.lhs) && L.is_null o.rhs
              then record o { rhs = L.const_null (L.type_of o.lhs) }
              else record o { lhs = L.const_null (L.type_of o.rhs) },
        )
        else (false, o))

  -- `gen_llvm_get_cast_op`, on the kinds, the widths and the two base types. In both places a signed
  -- choice is overwritten by the unsigned one.
  unfoldable pub cast_op_of : L.LType → L.LType → BaseType → Opcode
  unfolding kind_eq is_signed
  cast_op_of t dest b2 =
      let from = L.type_kind t in
      let to = L.type_kind dest in
      if kind_eq double_kind from || kind_eq float_kind from
      then (if kind_eq double_kind to
          then fp_ext
          else if kind_eq float_kind to
          then fp_trunc
          else if is_signed b2
          then fp_to_si
          else fp_to_ui)
      else if kind_eq integer_kind to
      then (if kind_eq double_kind from || kind_eq float_kind from
          then ui_to_fp
          else if ltb (L.int_width t) (L.int_width dest)
          then z_ext
          else trunc)
      else bit_cast

  unfoldable pub get_cast_op : L.LType → L.LType → Outcome Opcode
  unfolding to_ttype base_of cast_op_of
  get_cast_op t dest = do
    _ ← to_ttype L fuel t
    b2 ← (to_ttype L fuel dest >>= base_of)
    ok (cast_op_of t dest b2)

  -- `gen_codegen_cast`
  unfoldable pub codegen_cast : L.Value → L.LType → L.Builder → Outcome (L.Value × L.Builder)
  unfolding kind_eq get_cast_op
  codegen_cast v dest b =
      let t = L.type_of v in
      let to_pointer = kind_eq pointer_kind (L.type_kind dest) in
      let cast = (get_cast_op t dest >>= λ op. ok (L.build_cast op v dest b)) in
      if kind_eq array_kind (L.type_kind t) && to_pointer
      then ok (v, b)
      else if kind_eq pointer_kind (L.type_kind t) && to_pointer
      then ok (L.build_pointer_cast v dest b)
      else cast
