-- ===== src/Gen/Casts/Opcodes.antt =====
-- src/gen.c: the opcode that `gen_llvm_get_cast_op` gives for two numbers.
use luka.Prelude.{ℕ, ◌<◌, ◌≡◌, refl, ap, ltb, if◌then◌else◌}
use luka.ReturnCode.{ok, ◌>>=◌}
use luka.Types.Base.{is_signed}
use luka.Gen.Llvm.{
  kind_of, Opcode, trunc, z_ext, fp_to_ui, fp_to_si, fp_trunc, fp_ext, bit_cast, Llvm, IsLlvm,
}
use luka.Gen.Types.RoundTrip.{seen, int_to_ttype}
use luka.Gen.Casts.{kind_eq, cast_op_of, get_cast_op}
use luka.Gen.Casts.Numbers.{
  w1, Number, integer, single, two_fold, bits, number_form, number_base, number-base,
  to_ttype-number,
}

-- The cast from one number to another. An integer is widened without its sign, and its bits are taken as
-- those of a float.
abbrev pub cast_for : Number → Number → Opcode
cast_for (integer a) (integer b) = if ltb (bits a) (bits b) then z_ext else trunc
cast_for (integer a) b = bit_cast
cast_for a (integer w1) = fp_to_ui
cast_for a (integer b) = fp_to_si
cast_for a single = fp_trunc
cast_for a two_fold = fp_ext

module _ (L : Llvm) (lawful : IsLlvm L) (fuel : ℕ) (some_fuel : 0 < fuel) where
  cast_op_of-number :
      (t dest : L.LType) (a b : Number)
      → lawful.form t ≡ number_form a
      → lawful.form dest ≡ number_form b
      → cast_op_of L fuel t dest (number_base b) ≡ cast_for a b
  unfolding cast_op_of kind_eq is_signed kind_of
  cast_op_of-number t dest (integer a) (integer b) e q =
      rw
        (
          lawful.type_kind-form t,
          lawful.type_kind-form dest,
          e,
          q,
          lawful.int_width-int t (bits a) e,
          lawful.int_width-int dest (bits b) q,
        )
        refl
  cast_op_of-number t dest (integer a) b e q =
      rw (lawful.type_kind-form t, lawful.type_kind-form dest, e, q) refl
  cast_op_of-number t dest single (integer w1) e q =
      rw (lawful.type_kind-form t, lawful.type_kind-form dest, e, q) refl
  cast_op_of-number t dest two_fold (integer w1) e q =
      rw (lawful.type_kind-form t, lawful.type_kind-form dest, e, q) refl
  cast_op_of-number t dest a b e q =
      rw (lawful.type_kind-form t, lawful.type_kind-form dest, e, q) refl

  -- The opcode of a cast between numbers. A wider integer is got by `zext` although all but a single bit
  -- are signed, and a float of an integer by a bit cast.
  pub get_cast_op-number :
      (t dest : L.LType) (a b : Number)
      → lawful.form t ≡ number_form a
      → lawful.form dest ≡ number_form b
      → get_cast_op L fuel t dest ≡ ok (cast_for a b)
  unfolding get_cast_op seen int_to_ttype
  get_cast_op-number t dest a b e q =
      rw
        (
          to_ttype-number L lawful fuel some_fuel t a e,
          to_ttype-number L lawful fuel some_fuel dest b q,
          number-base b,
        )
        (go a)
    where
      go :
          (k : Number)
          → (seen (number_form k) >>= λ _. ok (cast_op_of L fuel t dest (number_base b)))
            ≡ ok (cast_for a b)
      go (integer w1) = ap ok (cast_op_of-number t dest a b e q)
      go (integer _) = ap ok (cast_op_of-number t dest a b e q)
      go _ = ap ok (cast_op_of-number t dest a b e q)
