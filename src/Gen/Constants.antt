-- ===== src/Gen/Constants.antt =====
-- src/gen.c: the constants: `gen_codegen_number`, `gen_codegen_literal`, `gen_codegen_sizeof`, and the
-- builtin that asks for the last.
pub mod Numbers
pub mod Sizes
use luka.Prelude.{
  ℕ, ◌+◌, ◌-◌, ◌%◌, ◌^◌, ◌≡◌, ◌<◌, ◌≤◌, Bool, true, false, Option, none, some, Bytes, codes, str_eq,
  ltb, if◌then◌else◌, ◌*◌, ◌/◌,
}
use luka.ReturnCode.{Outcome, ok, exited, fault, general_error, ◌>>=◌}
use luka.Types.Base.{
  BaseType, type_sint8, type_sint16, type_sint32, type_sint64, type_uint8, type_uint16, type_uint32,
  type_uint64, type_f32, type_f64, Ty, null, type, sizeof,
}
use luka.Ast.{
  Node, Body, body, cons, number, literal, LiteralType, literal_null, literal_true, literal_false,
  call_expr, builtin, type_expr,
}
use luka.Gen.Llvm.{Llvm, Form, int, float, double, pointer, array, IsLlvm}
use luka.Gen.Types.{to_llvm}

-- LLVM's constants; `widen` is the conversion of a `float` to a `double`, on their bits.
pub record Constants (L : Llvm) : Type 0 where
  pub const_int : L.LType → ℕ → Bool → L.Value
  pub const_real : L.LType → ℕ → L.Value
  pub size_of : L.LType → L.Value
  pub widen : ℕ → ℕ

-- What LLVM's manual says of them, for a target with pointers of eight bytes: an integer constant that is
-- given as 64 bits is cut to the width of a type that is no wider, and `LLVMSizeOf` is the number of bytes
-- that a type takes, where 64 bits hold it; a type that has no size may be given any number above that. Of
-- the integers these are the widths that have a size without padding, and one bit.
pub record IsConstants (L : Llvm) (lawful : IsLlvm L) (K : Constants L) : Type 0 where
  pub value : L.Value → ℕ
  pub bytes : Form → ℕ
  pub value-const_int :
      (t : L.LType) (w v : ℕ) (signed : Bool)
      → lawful.form t ≡ int w
      → w ≤ 64
      → v < 2 ^ 64
      → value (K.const_int t v signed) ≡ v % 2 ^ w
  pub value-size_of :
      (t : L.LType) → bytes (lawful.form t) < 2 ^ 64 → value (K.size_of t) ≡ bytes (lawful.form t)
  pub bytes-bit : bytes (int 1) ≡ 1
  pub bytes-int : (k : ℕ) → k ≤ 3 → bytes (int (8 * 2 ^ k)) ≡ 2 ^ k
  pub bytes-float : bytes float ≡ 4
  pub bytes-double : bytes double ≡ 8
  pub bytes-pointer : (f : Form) → bytes (pointer f) ≡ 8
  pub bytes-array : (f : Form) (n : ℕ) → bytes (array f n) ≡ n * bytes f

-- `(unsigned long long)` of a signed member of `w` bits.
unfoldable pub sign_extend : ℕ → ℕ → ℕ
sign_extend w v =
    let low = v % 2 ^ w in if ltb low (2 ^ (w - 1)) then low else low + (2 ^ 64 - 2 ^ w)

module _ (L : Llvm) (K : Constants L) where
  -- The cases of the `switch`: a member of the union, as the bits that it takes.
  unfoldable pub number_of : L.LType → BaseType → ℕ → Outcome L.Value
  unfolding sign_extend
  number_of t type_f32 v = ok (K.const_real t (K.widen (v % 2 ^ 32)))
  number_of t type_f64 v = ok (K.const_real t (v % 2 ^ 64))
  number_of t type_sint8 v = ok (K.const_int t (sign_extend 8 v) true)
  number_of t type_sint16 v = ok (K.const_int t (sign_extend 16 v) true)
  number_of t type_sint32 v = ok (K.const_int t (sign_extend 32 v) true)
  number_of t type_sint64 v = ok (K.const_int t (sign_extend 64 v) true)
  number_of t type_uint8 v = ok (K.const_int t (v % 2 ^ 8) false)
  number_of t type_uint16 v = ok (K.const_int t (v % 2 ^ 16) false)
  number_of t type_uint32 v = ok (K.const_int t (v % 2 ^ 32) false)
  number_of t type_uint64 v = ok (K.const_int t (v % 2 ^ 64) false)
  number_of t _ v = exited general_error

  -- `gen_codegen_literal`
  unfoldable pub literal_of : LiteralType → L.Value
  literal_of literal_null = L.const_null L.void_type
  literal_of literal_true = K.const_int (L.int_type 1) 1 false
  literal_of literal_false = K.const_int (L.int_type 1) 0 false

  module _ (struct_type : Bytes → Option L.LType) where
    -- `gen_codegen_number`
    unfoldable pub codegen_number : Ty → ℕ → Outcome L.Value
    unfolding to_llvm number_of
    codegen_number null v = fault
    codegen_number (type b i p m) v = do t ← to_llvm L struct_type (type b i p m); number_of t b v

    -- A size that `TYPE_sizeof` knows, or LLVM's.
    unfoldable pub known_size : Ty → Option ℕ → Outcome L.Value
    unfolding to_llvm
    known_size t none = do l ← to_llvm L struct_type t; ok (K.size_of l)
    known_size t (some n) = ok (K.const_int (L.int_type 64) n false)

    -- `gen_codegen_sizeof`
    unfoldable pub codegen_sizeof : Ty → Outcome L.Value
    unfolding sizeof known_size
    codegen_sizeof null = fault
    codegen_sizeof (type b i p m) = known_size (type b i p m) (sizeof b)

    -- The type that the first argument is.
    unfoldable pub sizeof_argument : Body → Outcome L.Value
    unfolding codegen_sizeof
    sizeof_argument (body (cons (type_expr t) ns)) = codegen_sizeof t
    sizeof_argument _ = fault

    -- `gen_codegen_builtin_call`, with `none` for NULL.
    unfoldable pub builtin_call : Node → Outcome (Option L.Value)
    unfolding sizeof_argument
    builtin_call (call_expr (builtin name) args) =
        let answer = (do v ← sizeof_argument args; ok (some v)) in
        if str_eq name (codes "@sizeOf") then answer else ok none
    builtin_call _ = fault
