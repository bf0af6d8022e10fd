-- ===== src/Gen/Operators.antt =====
-- src/gen.c: the opcode and the predicate of a binary expression, and the instruction that is built of them;
-- src/ast.c: `AST_is_cond_binop`.
pub mod Numbers
use luka.Prelude.{ℕ, Bool, true, false, not, ◌&&◌, if◌then◌else◌}
use luka.ReturnCode.{Outcome, ok, exited, codegen_error, ◌>>=◌}
use luka.Types.Base.{is_floating_type}
use luka.Ast.{
  BinOp, binop_add, binop_subtract, binop_multiply, binop_divide, binop_modulos, binop_lesser,
  binop_greater, binop_equals, binop_neq, binop_leq, binop_geq, binop_shl, binop_shr, binop_band,
  binop_bxor, binop_bor,
}
use luka.Gen.Llvm.{
  Opcode, add, f_add, sub, f_sub, mul, f_mul, u_div, s_div, f_div, u_rem, s_rem, f_rem, shl, l_shr,
  a_shr, and_, or_, xor, IntPredicate, int_eq, int_ne, int_ugt, int_uge, int_ult, int_ule, int_sgt,
  int_sge, int_slt, int_sle, RealPredicate, real_oeq, real_ogt, real_oge, real_ole, real_one, Llvm,
}
use luka.Gen.Casts.{Operands, value_base, cast_sizes, cast_to_fp, cast_to_signed, cast_null}

unfoldable pub is_cond_binop : BinOp → Bool
is_cond_binop binop_lesser = true
is_cond_binop binop_greater = true
is_cond_binop binop_equals = true
is_cond_binop binop_neq = true
is_cond_binop binop_leq = true
is_cond_binop binop_geq = true
is_cond_binop _ = false

module _ (L : Llvm) (fuel : ℕ) where
  -- The sizes are made the same, and the choice is the given one.
  unfoldable pub with_sizes : {C : Type 0} → C → Operands L fuel → Outcome (C × Operands L fuel)
  unfolding cast_sizes
  with_sizes c o = do r ← cast_sizes L fuel o; ok (c, r.1)

  -- The choice for floats, or what is done without one.
  unfoldable pub float_or :
      {C : Type 0}
      → C
      → (Operands L fuel → Outcome (C × Operands L fuel))
      → Operands L fuel
      → Outcome (C × Operands L fuel)
  unfolding cast_to_fp
  float_or c otherwise o = do
    r ← cast_to_fp L fuel o
    let later = otherwise r.1 in if r.0 then ok (c, r.1) else later

  -- The choice for signed integers, or the one for unsigned integers.
  unfoldable pub signed_or : {C : Type 0} → C → C → Operands L fuel → Outcome (C × Operands L fuel)
  unfolding cast_to_signed with_sizes
  signed_or c otherwise o = do
    r ← cast_to_signed L fuel o
    let later = with_sizes otherwise r.1 in if r.0 then ok (c, r.1) else later

  -- The same, where the sizes are asked for once more behind a cast.
  unfoldable pub signed_sized_or :
      {C : Type 0} → C → C → Operands L fuel → Outcome (C × Operands L fuel)
  unfolding cast_to_signed with_sizes
  signed_sized_or c otherwise o = do
    r ← cast_to_signed L fuel o
    let first = with_sizes c r.1
    let later = with_sizes otherwise r.1
    if r.0 then first else later

  -- `gen_get_llvm_opcode`
  unfoldable pub get_opcode : BinOp → Operands L fuel → Outcome (Opcode × Operands L fuel)
  unfolding float_or signed_or with_sizes
  get_opcode binop_add = float_or f_add (with_sizes add)
  get_opcode binop_subtract = float_or f_sub (with_sizes sub)
  get_opcode binop_multiply = float_or f_mul (with_sizes mul)
  get_opcode binop_divide = float_or f_div (signed_or s_div u_div)
  get_opcode binop_modulos = float_or f_rem (signed_or s_rem u_rem)
  get_opcode binop_band = with_sizes and_
  get_opcode binop_bor = with_sizes or_
  get_opcode binop_bxor = with_sizes xor
  get_opcode binop_shl = with_sizes shl
  get_opcode binop_shr = signed_or a_shr l_shr
  get_opcode _ = λ o. exited codegen_error

  -- `gen_is_icmp`
  unfoldable pub is_icmp : Operands L fuel → Outcome Bool
  unfolding value_base is_floating_type
  is_icmp o = do
    b1 ← value_base L fuel o.lhs
    b2 ← value_base L fuel o.rhs
    ok (not (is_floating_type b1) && not (is_floating_type b2))

  -- `gen_llvm_get_int_predicate`
  unfoldable pub int_predicate : BinOp → Operands L fuel → Outcome (IntPredicate × Operands L fuel)
  unfolding signed_sized_or with_sizes
  int_predicate binop_lesser = signed_sized_or int_slt int_ult
  int_predicate binop_greater = signed_sized_or int_sgt int_ugt
  int_predicate binop_equals = with_sizes int_eq
  int_predicate binop_neq = with_sizes int_ne
  int_predicate binop_leq = signed_sized_or int_sle int_ule
  int_predicate binop_geq = signed_sized_or int_sge int_uge
  int_predicate _ = λ o. exited codegen_error

  unfoldable pub real_choice : BinOp → Outcome RealPredicate
  real_choice binop_lesser = ok real_ole
  real_choice binop_greater = ok real_ogt
  real_choice binop_equals = ok real_oeq
  real_choice binop_neq = ok real_one
  real_choice binop_leq = ok real_ole
  real_choice binop_geq = ok real_oge
  real_choice _ = exited codegen_error

  -- `gen_llvm_get_real_predicate`
  unfoldable pub real_predicate :
      BinOp → Operands L fuel → Outcome (RealPredicate × Operands L fuel)
  unfolding cast_to_fp real_choice
  real_predicate op o = do r ← cast_to_fp L fuel o; c ← real_choice op; ok (c, r.1)

  -- A comparison, of floats or of anything else.
  unfoldable pub codegen_cmp : BinOp → Operands L fuel → Outcome (L.Value × L.Builder)
  unfolding cast_null is_icmp int_predicate real_predicate
  codegen_cmp op o = do
    n ← cast_null L fuel o
    icmp ← is_icmp n.1
    let ints = (int_predicate op n.1 >>= λ r. ok (L.build_int_cmp r.0 r.1.lhs r.1.rhs r.1.builder))
    let reals =
        (real_predicate op n.1 >>= λ r. ok (L.build_real_cmp r.0 r.1.lhs r.1.rhs r.1.builder))
    if icmp then ints else reals

  -- `gen_codegen_binexpr`, on the values of its operands.
  unfoldable pub codegen_binop : BinOp → Operands L fuel → Outcome (L.Value × L.Builder)
  unfolding codegen_cmp get_opcode is_cond_binop
  codegen_binop op o =
      let cmp = codegen_cmp op o in
      let plain = (get_opcode op o >>= λ r. ok (L.build_bin_op r.0 r.1.lhs r.1.rhs r.1.builder)) in
      if is_cond_binop op then cmp else plain
