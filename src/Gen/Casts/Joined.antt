-- ===== src/Gen/Casts/Joined.antt =====
-- src/gen.c: the casts of operands make the types of two numbers the same.
use luka.Prelude.{ℕ, ◌<◌, ◌≡◌, refl, ap, ◌∙◌, ◌⊎◌, inl, inr, Bool, true, false, ◌||◌, if◌then◌else◌}
use luka.ReturnCode.{ok, ◌>>=◌}
use luka.Types.Base.{base_eq, is_floating_type, is_signed}
use luka.Gen.Llvm.{Llvm, IsLlvm}
use luka.Gen.Casts.{
  Operands, cast_lhs, cast_rhs, cast_sizes_of, cast_sizes, to_fp_of, then_sizes, cast_to_fp,
  to_signed_of, cast_to_signed,
}
use luka.Gen.Casts.Numbers.{
  Width, w1, w8, Number, integer, single, two_fold, bits, number_form, number_base, width_base,
  join_width, join, order, width-not_float, AreNumbers, Gets, gets, value_base-number, cast_lhs-int,
  cast_rhs-int, cast_sizes_of-int,
}

-- Numbers that are floats.
pub data IsFloat : Number → Type 0 where
  is_single : IsFloat single
  is_double : IsFloat two_fold

module _ (L : Llvm) (lawful : IsLlvm L) (fuel : ℕ) (some_fuel : 0 < fuel) where
  -- What the sizes are made where the types are seen.
  sizes-known :
      {C : Type 0} (c : C) (o : Operands L fuel) (a b n : Number)
      → AreNumbers L lawful fuel some_fuel o a b
      → AreNumbers L lawful fuel some_fuel
          (cast_sizes_of L fuel (number_base a) (number_base b) o).1
          n
          n
      → Gets L lawful fuel some_fuel c n (cast_sizes L fuel o >>= λ r. ok (c, r.1))
  unfolding cast_sizes
  sizes-known c o a b n h q =
      rw
        (
          value_base-number L lawful fuel some_fuel o.lhs a h.lhs_is,
          value_base-number L lawful fuel some_fuel o.rhs b h.rhs_is,
        )
        (gets q)

  pub sizes-int :
      {C : Type 0} (c : C) (o : Operands L fuel) (a b : Width)
      → AreNumbers L lawful fuel some_fuel o (integer a) (integer b)
      → Gets L lawful fuel some_fuel c
          (integer (join_width a b))
          (cast_sizes L fuel o >>= λ r. ok (c, r.1))
  sizes-int c o a b h =
      sizes-known c o (integer a) (integer b) (integer (join_width a b)) h
        (cast_sizes_of-int L lawful fuel some_fuel o a b (order a b) h)

  sizes-float :
      (o : Operands L fuel) (a b : Number)
      → IsFloat a
      → IsFloat b
      → AreNumbers L lawful fuel some_fuel o a b
      → Gets L lawful fuel some_fuel true (join a b) (then_sizes L fuel o)
  unfolding then_sizes cast_sizes_of base_eq is_floating_type cast_lhs cast_rhs
  sizes-float o single single x y h = sizes-known true o single single single h h
  sizes-float o two_fold two_fold x y h = sizes-known true o two_fold two_fold two_fold h h
  sizes-float o single two_fold x y h = sizes-known true o single two_fold two_fold h (record {
    lhs_is =
        ap lawful.form (lawful.type_of-fp_ext o.lhs (L.type_of o.rhs) o.builder h.lhs_is h.rhs_is)
        ∙ h.rhs_is;
    rhs_is = h.rhs_is;
  })
  sizes-float o two_fold single x y h = sizes-known true o two_fold single two_fold h (record {
    lhs_is = h.lhs_is;
    rhs_is =
        ap lawful.form (lawful.type_of-fp_ext o.rhs (L.type_of o.lhs) o.builder h.rhs_is h.lhs_is)
        ∙ h.lhs_is;
  })
  sizes-float o (integer w) b x y h = elim x [ ]
  sizes-float o single (integer w) x y h = elim y [ ]
  sizes-float o two_fold (integer w) x y h = elim y [ ]

  -- Two integers are not cast to floats.
  pub cast_to_fp-int :
      (o : Operands L fuel) (a b : Width)
      → AreNumbers L lawful fuel some_fuel o (integer a) (integer b)
      → cast_to_fp L fuel o ≡ ok (false, o)
  unfolding cast_to_fp
  cast_to_fp-int o a b h =
      rw
        (
          value_base-number L lawful fuel some_fuel o.lhs (integer a) h.lhs_is,
          value_base-number L lawful fuel some_fuel o.rhs (integer b) h.rhs_is,
          width-not_float a,
          width-not_float b,
        )
        refl

  -- An integer that is cast to a float has the type of the float.
  int_to_fp-form :
      (signed : Bool) (v : L.Value) (t : L.LType) (b : L.Builder) (w : Width) (k : Number)
      → IsFloat k
      → lawful.form (L.type_of v) ≡ number_form (integer w)
      → lawful.form t ≡ number_form k
      → lawful.form (L.type_of ((if signed then L.build_si_to_fp else L.build_ui_to_fp) v t b).0)
        ≡ number_form k
  int_to_fp-form true v t b w single x h e =
      ap lawful.form (lawful.type_of-si_to_fp v t b (bits w) h (inl e)) ∙ e
  int_to_fp-form true v t b w two_fold x h e =
      ap lawful.form (lawful.type_of-si_to_fp v t b (bits w) h (inr e)) ∙ e
  int_to_fp-form false v t b w single x h e =
      ap lawful.form (lawful.type_of-ui_to_fp v t b (bits w) h (inl e)) ∙ e
  int_to_fp-form false v t b w two_fold x h e =
      ap lawful.form (lawful.type_of-ui_to_fp v t b (bits w) h (inr e)) ∙ e
  int_to_fp-form signed v t b w (integer _) x h e = elim x [ ]

  to_fp_rhs :
      (o : Operands L fuel) (a : Number) (w : Width)
      → IsFloat a
      → AreNumbers L lawful fuel some_fuel o a (integer w)
      → AreNumbers L lawful fuel some_fuel
          (cast_rhs L fuel
            (if is_signed (width_base w) then L.build_si_to_fp else L.build_ui_to_fp)
            o)
          a
          a
  unfolding cast_rhs
  to_fp_rhs o a w x h = record {
    lhs_is = h.lhs_is;
    rhs_is =
        int_to_fp-form (is_signed (width_base w)) o.rhs (L.type_of o.lhs) o.builder w a x h.rhs_is
          h.lhs_is;
  }

  to_fp_lhs :
      (o : Operands L fuel) (w : Width) (b : Number)
      → IsFloat b
      → AreNumbers L lawful fuel some_fuel o (integer w) b
      → AreNumbers L lawful fuel some_fuel
          (cast_lhs L fuel
            (if is_signed (width_base w) then L.build_si_to_fp else L.build_ui_to_fp)
            o)
          b
          b
  unfolding cast_lhs
  to_fp_lhs o w b x h = record {
    lhs_is =
        int_to_fp-form (is_signed (width_base w)) o.lhs (L.type_of o.rhs) o.builder w b x h.lhs_is
          h.rhs_is;
    rhs_is = h.rhs_is;
  }

  -- With a float among them, both get the wider float.
  pub cast_to_fp-float :
      (o : Operands L fuel) (a b : Number)
      → IsFloat a ⊎ IsFloat b
      → AreNumbers L lawful fuel some_fuel o a b
      → Gets L lawful fuel some_fuel true (join a b) (cast_to_fp L fuel o)
  unfolding cast_to_fp to_fp_of is_floating_type base_eq
  cast_to_fp-float o a b x h =
      rw
        (
          value_base-number L lawful fuel some_fuel o.lhs a h.lhs_is,
          value_base-number L lawful fuel some_fuel o.rhs b h.rhs_is,
        )
        (go a b x h)
    where
      go :
          (a b : Number)
          → IsFloat a ⊎ IsFloat b
          → AreNumbers L lawful fuel some_fuel o a b
          → Gets L lawful fuel some_fuel true (join a b) (
              if is_floating_type (number_base a) || is_floating_type (number_base b)
              then then_sizes L fuel (to_fp_of L fuel (number_base a) (number_base b) o)
              else ok (false, o))
      go single single x h = sizes-float o single single is_single is_single h
      go single two_fold x h = sizes-float o single two_fold is_single is_double h
      go two_fold single x h = sizes-float o two_fold single is_double is_single h
      go two_fold two_fold x h = sizes-float o two_fold two_fold is_double is_double h
      go single (integer w) x h =
          rw (width-not_float w)
            (sizes-float _ single single is_single is_single (to_fp_rhs o single w is_single h))
      go two_fold (integer w) x h =
          rw (width-not_float w) (
            sizes-float _ two_fold two_fold is_double is_double
              (to_fp_rhs o two_fold w is_double h))
      go (integer w) single x h =
          rw (width-not_float w)
            (sizes-float _ single single is_single is_single (to_fp_lhs o w single is_single h))
      go (integer w) two_fold x h =
          rw (width-not_float w) (
            sizes-float _ two_fold two_fold is_double is_double
              (to_fp_lhs o w two_fold is_double h))
      go (integer w) (integer v) (inl x) h = elim x [ ]
      go (integer w) (integer v) (inr x) h = elim x [ ]

  -- Two single bits are not cast to signed types.
  pub cast_to_signed-bits :
      (o : Operands L fuel)
      → AreNumbers L lawful fuel some_fuel o (integer w1) (integer w1)
      → cast_to_signed L fuel o ≡ ok (false, o)
  unfolding cast_to_signed is_signed
  cast_to_signed-bits o h =
      rw
        (
          value_base-number L lawful fuel some_fuel o.lhs (integer w1) h.lhs_is,
          value_base-number L lawful fuel some_fuel o.rhs (integer w1) h.rhs_is,
        )
        refl

  signed_steps :
      (o : Operands L fuel) (a b n k : Width)
      → AreNumbers L lawful fuel some_fuel o (integer a) (integer b)
      → (is_signed (width_base a) || is_signed (width_base b)) ≡ true
      → AreNumbers L lawful fuel some_fuel
          (to_signed_of L fuel (width_base a) (width_base b) o)
          (integer n)
          (integer k)
      → Gets L lawful fuel some_fuel true (integer (join_width n k)) (cast_to_signed L fuel o)
  unfolding cast_to_signed then_sizes
  signed_steps o a b n k h e q =
      rw
        (
          value_base-number L lawful fuel some_fuel o.lhs (integer a) h.lhs_is,
          value_base-number L lawful fuel some_fuel o.rhs (integer b) h.rhs_is,
          e,
        )
        (sizes-int true _ n k q)

  -- With a wider integer among them, both get the wider type.
  pub cast_to_signed-int :
      (o : Operands L fuel) (a b : Width)
      → AreNumbers L lawful fuel some_fuel o (integer a) (integer b)
      → (is_signed (width_base a) || is_signed (width_base b)) ≡ true
      → Gets L lawful fuel some_fuel true (integer (join_width a b)) (cast_to_signed L fuel o)
  unfolding is_signed to_signed_of
  cast_to_signed-int o w1 w1 h e = cc
  cast_to_signed-int o w1 w8 h e =
      signed_steps o w1 w8 w8 w8 h refl (cast_lhs-int L lawful fuel some_fuel true o w1 w8 h)
  cast_to_signed-int o w1 b h e =
      signed_steps o w1 b b b h refl (cast_lhs-int L lawful fuel some_fuel true o w1 b h)
  cast_to_signed-int o a w1 h e =
      signed_steps o a w1 a a h refl (cast_rhs-int L lawful fuel some_fuel true o a w1 h)
  cast_to_signed-int o a b h e = signed_steps o a b a b h refl h
