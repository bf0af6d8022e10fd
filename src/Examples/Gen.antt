-- ===== src/Examples/Gen.antt =====
-- The theorems on src/gen.c, with an LLVM of which a type is its form, a value its type and its bits if it
-- is a constant, and the builder the number of instructions.
mod Constants
use luka.Prelude.{ℕ, ◌+◌, ◌≡◌, refl, ap, false, Option, none, Bytes, arith}
use luka.ReturnCode.{ok}
use luka.Types.Base.{
  type_uint16, type_sint16, type_string, type_array, no_payload, size, Ty, null, type,
  initialize_type,
}
use luka.Ast.{binop_divide}
use luka.Gen.Llvm.{
  Llvm, Form, int, float, double, void, pointer, array, form_eq, kind_of, IsLlvm, s_div, z_ext,
}
use luka.Gen.Types.{to_ttype, to_llvm, array_to_llvm}
use luka.Gen.Types.RoundTrip.{seen, int_to_ttype, pointer_to, height, to_ttype-seen}
use luka.Gen.Types.Kept.{kept, to_ttype-to_llvm}
use luka.Gen.Casts.{Operands, get_cast_op}
use luka.Gen.Casts.Numbers.{integer, w8, w16, w32, Gets}
use luka.Gen.Casts.Opcodes.{get_cast_op-number}
use luka.Gen.Operators.{get_opcode}
use luka.Gen.Operators.Numbers.{get_opcode-number}

abbrev element : Form → Form
element (pointer f) = f
element (array f n) = f
element f = f

abbrev array_size : Form → ℕ
array_size (array f n) = n
array_size f = 0

abbrev width : Form → ℕ
width (int w) = w
width f = 0

abbrev Constant : Type 0
Constant = Form × ℕ

abbrev build : Constant → Form → ℕ → Constant × ℕ
build v t b = ((t, 0), b + 1)

abbrev forms : Llvm
forms = record {
  LType = Form;
  Value = Constant;
  Builder = ℕ;
  same_type = form_eq;
  int_type = int;
  float_type = float;
  double_type = double;
  void_type = void;
  pointer_type = pointer;
  array_type = array;
  type_kind = kind_of;
  element_type = element;
  array_length = array_size;
  int_width = width;
  type_of = λ v. v.0;
  is_null = λ v. false;
  const_null = λ t. (t, 0);
  build_cast = λ op. build;
  build_pointer_cast = build;
  build_fp_ext = build;
  build_si_to_fp = build;
  build_ui_to_fp = build;
  build_int_cast = λ signed. build;
  build_bin_op = λ op v w b. (w, b + 1);
  build_int_cmp = λ p v w b. ((int 1, 0), b + 1);
  build_real_cmp = λ p v w b. ((int 1, 0), b + 1);
}

abbrev forms-IsLlvm : IsLlvm forms
forms-IsLlvm = record {
  form = λ t. t;
  same_type-form = λ a b. refl;
  form-int_type = λ w wide narrow. refl;
  form-float_type = refl;
  form-double_type = refl;
  form-void_type = refl;
  form-pointer_type = λ t. refl;
  form-array_type = λ t n small. refl;
  type_kind-form = λ t. refl;
  element_type-pointer = λ t f e. ap element e;
  element_type-array = λ t f n e. ap element e;
  array_length-array = λ t f n e. ap array_size e;
  int_width-int = λ t w e. ap width e;
  type_of-fp_ext = λ v t b h q. refl;
  type_of-si_to_fp = λ v t b w h q. refl;
  type_of-ui_to_fp = λ v t b w h q. refl;
  type_of-int_cast = λ signed v t b from to h q. refl;
}

to_ttype-seen_example : to_ttype forms 2 (pointer (int 8)) ≡ ok (initialize_type type_string)
unfolding seen pointer_to int_to_ttype initialize_type height
to_ttype-seen_example = to_ttype-seen forms forms-IsLlvm 2 (pointer (int 8)) (omega arith)

abbrev no_structs : Bytes → Option Form
no_structs name = none

-- An array of three `u16`.
abbrev three : Ty
three = type type_array (type type_uint16 null no_payload false) (size 3) false

three-array : to_llvm forms no_structs three ≡ ok (array (int 16) 3)
unfolding to_llvm array_to_llvm
three-array = refl

to_ttype-to_llvm_example :
    to_ttype forms 2 (array (int 16) 3)
    ≡ ok (type type_array (type type_sint16 null no_payload false) (size 3) false)
unfolding kept height
to_ttype-to_llvm_example =
    to_ttype-to_llvm forms forms-IsLlvm no_structs (λ name t e. cc) 2 three (array (int 16) 3)
      three-array (omega arith)

-- A `u16` and a `u32`.
abbrev operands : Operands forms 1
operands = record { lhs = (int 16, 0); rhs = (int 32, 0); builder = 0 }

get_opcode-number_example :
    Gets forms forms-IsLlvm 1
      (omega arith)
      s_div
      (integer w32)
      (get_opcode forms 1 binop_divide operands)
get_opcode-number_example =
    get_opcode-number forms forms-IsLlvm 1 (omega arith) binop_divide (integer w16) (integer w32)
      s_div operands refl (record { lhs_is = refl; rhs_is = refl })

-- A signed byte is widened without its sign.
get_cast_op-number_example : get_cast_op forms 1 (int 8) (int 32) ≡ ok z_ext
get_cast_op-number_example =
    get_cast_op-number forms forms-IsLlvm 1 (omega arith) (int 8) (int 32) (integer w8)
      (integer w32) refl refl
