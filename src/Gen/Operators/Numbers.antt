-- ===== src/Gen/Operators/Numbers.antt =====
-- src/gen.c: the opcodes for numbers.
use mathlib.Core.Path.{subst}
use luka.Prelude.{
  ℕ, ◌<◌, ◌≡◌, refl, inl, inr, Bool, true, Option, none, some, ◌⊎◌, ◌||◌, if◌then◌else◌,
}
use luka.ReturnCode.{Outcome, ok, ◌>>=◌}
use luka.Types.Base.{is_signed}
use luka.Ast.{
  BinOp, binop_add, binop_subtract, binop_multiply, binop_divide, binop_modulos, binop_shl,
  binop_shr, binop_band, binop_bxor, binop_bor,
}
use luka.Gen.Llvm.{
  Opcode, add, f_add, sub, f_sub, mul, f_mul, u_div, s_div, f_div, u_rem, s_rem, f_rem, shl, l_shr,
  a_shr, and_, or_, xor, Llvm, IsLlvm,
}
use luka.Gen.Casts.{Operands, cast_to_fp, cast_to_signed}
use luka.Gen.Casts.Numbers.{
  Width, w1, w8, Number, integer, single, two_fold, width_base, join_width, join, AreNumbers, Gets,
  gets,
}
use luka.Gen.Casts.Joined.{
  IsFloat, is_single, is_double, sizes-int, cast_to_fp-int, cast_to_fp-float, cast_to_signed-bits,
  cast_to_signed-int,
}
use luka.Gen.Operators.{with_sizes, float_or, signed_or, get_opcode}

-- The choice between an opcode for floats, one for signed and one for unsigned integers. Only a single
-- bit is unsigned.
abbrev pub pick : Opcode → Opcode → Opcode → Number → Number → Opcode
pick f s u (integer w1) (integer w1) = u
pick f s u (integer a) (integer b) = s
pick f s u a b = f

-- An opcode that is for integers only.
abbrev pub for_ints : Opcode → Opcode → Number → Number → Option Opcode
for_ints s u (integer a) (integer b) = some (pick s s u (integer a) (integer b))
for_ints s u a b = none

-- The opcode of an operator for two numbers.
abbrev pub opcode_for : BinOp → Number → Number → Option Opcode
opcode_for binop_add a b = some (pick f_add add add a b)
opcode_for binop_subtract a b = some (pick f_sub sub sub a b)
opcode_for binop_multiply a b = some (pick f_mul mul mul a b)
opcode_for binop_divide a b = some (pick f_div s_div u_div a b)
opcode_for binop_modulos a b = some (pick f_rem s_rem u_rem a b)
opcode_for binop_band a b = for_ints and_ and_ a b
opcode_for binop_bor a b = for_ints or_ or_ a b
opcode_for binop_bxor a b = for_ints xor xor a b
opcode_for binop_shl a b = for_ints shl shl a b
opcode_for binop_shr a b = for_ints a_shr l_shr a b
opcode_for op a b = none

module _ (L : Llvm) (lawful : IsLlvm L) (fuel : ℕ) (some_fuel : 0 < fuel) where
  float_or-float :
      (c : Opcode) (otherwise : Operands L fuel → Outcome (Opcode × Operands L fuel))
      (o : Operands L fuel) (a b : Number)
      → IsFloat a ⊎ IsFloat b
      → AreNumbers L lawful fuel some_fuel o a b
      → Gets L lawful fuel some_fuel c (join a b) (float_or L fuel c otherwise o)
  unfolding float_or
  float_or-float c otherwise o a b x h =
      go (cast_to_fp L fuel o) (cast_to_fp-float L lawful fuel some_fuel o a b x h)
    where
      go :
          (r : Outcome (Bool × Operands L fuel))
          → Gets L lawful fuel some_fuel true (join a b) r
          → Gets L lawful fuel some_fuel c
              (join a b)
              (r >>= λ r. let later = otherwise r.1 in if r.0 then ok (c, r.1) else later)
      go _ (gets q) = gets q

  float_or-int :
      (c : Opcode) (otherwise : Operands L fuel → Outcome (Opcode × Operands L fuel))
      (o : Operands L fuel) (a b : Width)
      → AreNumbers L lawful fuel some_fuel o (integer a) (integer b)
      → float_or L fuel c otherwise o ≡ otherwise o
  unfolding float_or
  float_or-int c otherwise o a b h = rw (cast_to_fp-int L lawful fuel some_fuel o a b h) refl

  sized-int :
      (c : Opcode) (o : Operands L fuel) (a b : Width)
      → AreNumbers L lawful fuel some_fuel o (integer a) (integer b)
      → Gets L lawful fuel some_fuel c (integer (join_width a b)) (with_sizes L fuel c o)
  unfolding with_sizes
  sized-int c o a b h = sizes-int L lawful fuel some_fuel c o a b h

  signed_or-signed :
      (s u : Opcode) (o : Operands L fuel) (a b : Width)
      → (is_signed (width_base a) || is_signed (width_base b)) ≡ true
      → AreNumbers L lawful fuel some_fuel o (integer a) (integer b)
      → Gets L lawful fuel some_fuel s (integer (join_width a b)) (signed_or L fuel s u o)
  unfolding signed_or
  signed_or-signed s u o a b e h =
      go (cast_to_signed L fuel o) (cast_to_signed-int L lawful fuel some_fuel o a b h e)
    where
      go :
          (r : Outcome (Bool × Operands L fuel))
          → Gets L lawful fuel some_fuel true (integer (join_width a b)) r
          → Gets L lawful fuel some_fuel s
              (integer (join_width a b))
              (r >>= λ r. let later = with_sizes L fuel u r.1 in if r.0 then ok (s, r.1) else later)
      go _ (gets q) = gets q

  signed_or-bits :
      (s u : Opcode) (o : Operands L fuel)
      → AreNumbers L lawful fuel some_fuel o (integer w1) (integer w1)
      → signed_or L fuel s u o ≡ with_sizes L fuel u o
  unfolding signed_or
  signed_or-bits s u o h = rw (cast_to_signed-bits L lawful fuel some_fuel o h) refl

  signed_or-int :
      (f s u : Opcode) (o : Operands L fuel) (a b : Width)
      → AreNumbers L lawful fuel some_fuel o (integer a) (integer b)
      → Gets L lawful fuel some_fuel
          (pick f s u (integer a) (integer b))
          (integer (join_width a b))
          (signed_or L fuel s u o)
  unfolding is_signed
  signed_or-int f s u o w1 w1 h = rw (signed_or-bits s u o h) (sized-int u o w1 w1 h)
  signed_or-int f s u o w1 w8 h = signed_or-signed s u o w1 w8 refl h
  signed_or-int f s u o w1 b h = signed_or-signed s u o w1 b refl h
  signed_or-int f s u o a b h = signed_or-signed s u o a b refl h

  same_pick : (f s : Opcode) (a b : Width) → pick f s s (integer a) (integer b) ≡ s
  same_pick f s w1 w1 = refl
  same_pick f s w1 _ = refl
  same_pick f s _ b = refl

  both_ways :
      (f s u : Opcode) (otherwise : Operands L fuel → Outcome (Opcode × Operands L fuel))
      (o : Operands L fuel) (a b : Number)
      → ((x y : Width)
          → AreNumbers L lawful fuel some_fuel o (integer x) (integer y)
          → Gets L lawful fuel some_fuel
              (pick f s u (integer x) (integer y))
              (integer (join_width x y))
              (otherwise o))
      → AreNumbers L lawful fuel some_fuel o a b
      → Gets L lawful fuel some_fuel (pick f s u a b) (join a b) (float_or L fuel f otherwise o)
  both_ways f s u otherwise o (integer a) (integer b) k h =
      rw (float_or-int f otherwise o a b h) (k a b h)
  both_ways f s u otherwise o (integer w1) single k h =
      float_or-float f otherwise o (integer w1) single (inr is_single) h
  both_ways f s u otherwise o (integer a) single k h =
      float_or-float f otherwise o (integer a) single (inr is_single) h
  both_ways f s u otherwise o (integer w1) two_fold k h =
      float_or-float f otherwise o (integer w1) two_fold (inr is_double) h
  both_ways f s u otherwise o (integer a) two_fold k h =
      float_or-float f otherwise o (integer a) two_fold (inr is_double) h
  both_ways f s u otherwise o single b k h = float_or-float f otherwise o single b (inl is_single) h
  both_ways f s u otherwise o two_fold b k h =
      float_or-float f otherwise o two_fold b (inl is_double) h

  sized-pick :
      (f c : Opcode) (o : Operands L fuel) (a b : Width)
      → AreNumbers L lawful fuel some_fuel o (integer a) (integer b)
      → Gets L lawful fuel some_fuel
          (pick f c c (integer a) (integer b))
          (integer (join_width a b))
          (with_sizes L fuel c o)
  sized-pick f c o a b h = rw (same_pick f c a b) (sized-int c o a b h)

  -- What is picked is what is got.
  data Picked (op : BinOp) (o : Operands L fuel) (n : Number) : Option Opcode → Type 0 where
    no_opcode : Picked op o n none
    picked :
        {c : Opcode}
        → Gets L lawful fuel some_fuel c n (get_opcode L fuel op o)
        → Picked op o n (some c)

  for_ints-Picked :
      (op : BinOp) (s u : Opcode) (o : Operands L fuel) (a b : Number)
      → ((x y : Width)
          → AreNumbers L lawful fuel some_fuel o (integer x) (integer y)
          → Gets L lawful fuel some_fuel
              (pick s s u (integer x) (integer y))
              (integer (join_width x y))
              (get_opcode L fuel op o))
      → AreNumbers L lawful fuel some_fuel o a b
      → Picked op o (join a b) (for_ints s u a b)
  for_ints-Picked op s u o (integer a) (integer b) k h = picked (k a b h)
  for_ints-Picked op s u o (integer a) single k h = no_opcode
  for_ints-Picked op s u o (integer a) two_fold k h = no_opcode
  for_ints-Picked op s u o single b k h = no_opcode
  for_ints-Picked op s u o two_fold b k h = no_opcode

  opcode_for-Picked :
      (op : BinOp) (a b : Number) (o : Operands L fuel)
      → AreNumbers L lawful fuel some_fuel o a b
      → Picked op o (join a b) (opcode_for op a b)
  unfolding get_opcode
  opcode_for-Picked binop_add a b o h =
      picked (both_ways f_add add add (with_sizes L fuel add) o a b (sized-pick f_add add o) h)
  opcode_for-Picked binop_subtract a b o h =
      picked (both_ways f_sub sub sub (with_sizes L fuel sub) o a b (sized-pick f_sub sub o) h)
  opcode_for-Picked binop_multiply a b o h =
      picked (both_ways f_mul mul mul (with_sizes L fuel mul) o a b (sized-pick f_mul mul o) h)
  opcode_for-Picked binop_divide a b o h = picked (
      both_ways f_div s_div u_div (signed_or L fuel s_div u_div) o a b
        (signed_or-int f_div s_div u_div o) h)
  opcode_for-Picked binop_modulos a b o h = picked (
      both_ways f_rem s_rem u_rem (signed_or L fuel s_rem u_rem) o a b
        (signed_or-int f_rem s_rem u_rem o) h)
  opcode_for-Picked binop_band a b o h =
      for_ints-Picked binop_band and_ and_ o a b (sized-pick and_ and_ o) h
  opcode_for-Picked binop_bor a b o h =
      for_ints-Picked binop_bor or_ or_ o a b (sized-pick or_ or_ o) h
  opcode_for-Picked binop_bxor a b o h =
      for_ints-Picked binop_bxor xor xor o a b (sized-pick xor xor o) h
  opcode_for-Picked binop_shl a b o h =
      for_ints-Picked binop_shl shl shl o a b (sized-pick shl shl o) h
  opcode_for-Picked binop_shr a b o h =
      for_ints-Picked binop_shr a_shr l_shr o a b (signed_or-int a_shr a_shr l_shr o) h
  opcode_for-Picked _ a b o h = no_opcode

  got :
      {op : BinOp} {o : Operands L fuel} {n : Number} (c : Opcode) {x : Option Opcode}
      → Picked op o n x
      → x ≡ some c
      → Gets L lawful fuel some_fuel c n (get_opcode L fuel op o)
  got c no_opcode e = cc
  got {op} {o} {n} c (picked {c = d} h) e =
      let same : d ≡ c = (cc) in
      subst (λ y. Gets L lawful fuel some_fuel y n (get_opcode L fuel op o)) same h

  -- For two numbers an arithmetic operator gets the opcode for floats if one of them is a float, the one
  -- for signed integers if one of them has more than a bit, and the one for unsigned integers for two
  -- single bits alone; a bitwise operator, which is for integers, the one that goes with its sign. Both
  -- operands have the wider type behind it.
  pub get_opcode-number :
      (op : BinOp) (a b : Number) (c : Opcode) (o : Operands L fuel)
      → opcode_for op a b ≡ some c
      → AreNumbers L lawful fuel some_fuel o a b
      → Gets L lawful fuel some_fuel c (join a b) (get_opcode L fuel op o)
  get_opcode-number op a b c o e h = got c (opcode_for-Picked op a b o h) e
