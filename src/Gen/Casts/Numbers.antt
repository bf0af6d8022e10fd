-- ===== src/Gen/Casts/Numbers.antt =====
-- src/gen.c: what the casts of operands make of numbers.
use luka.Prelude.{ℕ, ◌<◌, ◌≡◌, refl, ap, ◌∙◌, Bool, true, false, ltb, arith, if◌then◌else◌}
use luka.ReturnCode.{Outcome, ok, ◌>>=◌}
use luka.Types.Base.{
  BaseType, type_bool, type_sint8, type_sint16, type_sint32, type_sint64, type_f32, type_f64,
  base_eq, is_floating_type, is_signed,
}
use luka.Gen.Llvm.{Llvm, Form, int, float, double, IsLlvm}
use luka.Gen.Types.{to_ttype}
use luka.Gen.Types.RoundTrip.{int_to_ttype, seen, height, to_ttype-seen}
use luka.Gen.Casts.{base_of, Operands, cast_lhs, cast_rhs, value_base, cast_sizes_of}

-- The types of numbers that LLVM is given.
pub data Width : Type 0 where
  w1 w8 w16 w32 w64 : Width

pub data Number : Type 0 where
  integer : Width → Number
  single two_fold : Number

abbrev pub bits : Width → ℕ
bits w1 = 1
bits w8 = 8
bits w16 = 16
bits w32 = 32
bits w64 = 64

abbrev pub number_form : Number → Form
number_form (integer w) = int (bits w)
number_form single = float
number_form two_fold = double

abbrev pub width_base : Width → BaseType
width_base w1 = type_bool
width_base w8 = type_sint8
width_base w16 = type_sint16
width_base w32 = type_sint32
width_base w64 = type_sint64

abbrev pub number_base : Number → BaseType
number_base (integer w) = width_base w
number_base single = type_f32
number_base two_fold = type_f64

-- The wider type of two, where a float is wider than any integer.
abbrev pub join_width : Width → Width → Width
join_width a b = if ltb (bits a) (bits b) then b else a

abbrev pub join : Number → Number → Number
join (integer a) (integer b) = integer (join_width a b)
join (integer a) b = b
join single two_fold = two_fold
join a b = a

-- How the widths compare, as the source tests it.
pub data Order : Width → Width → Type 0 where
  same : (a : Width) → Order a a
  less :
      {a b : Width}
      → base_eq (width_base a) (width_base b) ≡ false
      → ltb (bits a) (bits b) ≡ true
      → Order a b
  more :
      {a b : Width}
      → base_eq (width_base a) (width_base b) ≡ false
      → ltb (bits a) (bits b) ≡ false
      → Order a b

pub order : (a b : Width) → Order a b
unfolding base_eq
order w1 w1 = same w1
order w1 _ = less refl refl
order w8 w1 = more refl refl
order w8 w8 = same w8
order w8 _ = less refl refl
order w16 w16 = same w16
order w16 w32 = less refl refl
order w16 w64 = less refl refl
order w16 _ = more refl refl
order w32 w32 = same w32
order w32 w64 = less refl refl
order w32 _ = more refl refl
order w64 w64 = same w64
order w64 _ = more refl refl

pub join_width-same : (a : Width) → join_width a a ≡ a
join_width-same w1 = refl
join_width-same _ = refl

base_eq-same : (a : Width) → base_eq (width_base a) (width_base a) ≡ true
unfolding base_eq
base_eq-same w1 = refl
base_eq-same _ = refl

pub width-not_float : (a : Width) → is_floating_type (width_base a) ≡ false
unfolding is_floating_type base_eq
width-not_float w1 = refl
width-not_float _ = refl

pub number-base : (k : Number) → (seen (number_form k) >>= base_of) ≡ ok (number_base k)
unfolding seen int_to_ttype base_of
number-base (integer w1) = refl
number-base (integer _) = refl
number-base _ = refl

number-height : (k : Number) → height (number_form k) ≡ 0
unfolding height
number-height (integer w) = refl
number-height _ = refl

module _ (L : Llvm) (lawful : IsLlvm L) (fuel : ℕ) (some_fuel : 0 < fuel) where
  -- The operands are numbers of these types.
  pub record AreNumbers (o : Operands L fuel) (a b : Number) : Type 0 where
    pub lhs_is : lawful.form (L.type_of o.lhs) ≡ number_form a
    pub rhs_is : lawful.form (L.type_of o.rhs) ≡ number_form b

  -- A choice, with operands that are both of the given type.
  pub data Gets {C : Type 0} (c : C) (n : Number) : Outcome (C × Operands L fuel) → Type 0 where
    gets : {o : Operands L fuel} → AreNumbers o n n → Gets c n (ok (c, o))

  pub to_ttype-number :
      (t : L.LType) (n : Number)
      → lawful.form t ≡ number_form n
      → to_ttype L fuel t ≡ seen (number_form n)
  to_ttype-number t n h =
      to_ttype-seen L lawful fuel t (omega (arith, some_fuel, number-height n, ap height h))
      ∙ ap seen h

  pub value_base-number :
      (v : L.Value) (n : Number)
      → lawful.form (L.type_of v) ≡ number_form n
      → value_base L fuel v ≡ ok (number_base n)
  unfolding value_base
  value_base-number v n h = rw (to_ttype-number (L.type_of v) n h) (number-base n)

  pub cast_lhs-int :
      (signed : Bool) (o : Operands L fuel) (a b : Width)
      → AreNumbers o (integer a) (integer b)
      → AreNumbers (cast_lhs L fuel (L.build_int_cast signed) o) (integer b) (integer b)
  unfolding cast_lhs
  cast_lhs-int signed o a b h = record {
    lhs_is =
        ap lawful.form (
          lawful.type_of-int_cast signed o.lhs (L.type_of o.rhs) o.builder (bits a) (bits b)
            h.lhs_is h.rhs_is)
        ∙ h.rhs_is;
    rhs_is = h.rhs_is;
  }

  pub cast_rhs-int :
      (signed : Bool) (o : Operands L fuel) (a b : Width)
      → AreNumbers o (integer a) (integer b)
      → AreNumbers (cast_rhs L fuel (L.build_int_cast signed) o) (integer a) (integer a)
  unfolding cast_rhs
  cast_rhs-int signed o a b h = record {
    lhs_is = h.lhs_is;
    rhs_is =
        ap lawful.form (
          lawful.type_of-int_cast signed o.rhs (L.type_of o.lhs) o.builder (bits b) (bits a)
            h.rhs_is h.lhs_is)
        ∙ h.lhs_is;
  }

  -- Two integers get the wider type of the two.
  pub cast_sizes_of-int :
      (o : Operands L fuel) (a b : Width)
      → Order a b
      → AreNumbers o (integer a) (integer b)
      → AreNumbers
          (cast_sizes_of L fuel (width_base a) (width_base b) o).1
          (integer (join_width a b))
          (integer (join_width a b))
  unfolding cast_sizes_of
  cast_sizes_of-int o a b (same _) h = rw (base_eq-same a, join_width-same a) h
  cast_sizes_of-int o a b (less e q) h =
      rw
        (
          e,
          width-not_float a,
          lawful.int_width-int (L.type_of o.lhs) (bits a) h.lhs_is,
          lawful.int_width-int (L.type_of o.rhs) (bits b) h.rhs_is,
          q,
        )
        (cast_lhs-int (is_signed (width_base b)) o a b h)
  cast_sizes_of-int o a b (more e q) h =
      rw
        (
          e,
          width-not_float a,
          lawful.int_width-int (L.type_of o.lhs) (bits a) h.lhs_is,
          lawful.int_width-int (L.type_of o.rhs) (bits b) h.rhs_is,
          q,
        )
        (cast_rhs-int (is_signed (width_base a)) o a b h)
