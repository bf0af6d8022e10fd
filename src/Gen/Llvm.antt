-- ===== src/Gen/Llvm.antt =====
-- What src/gen.c uses of LLVM's C interface. LLVM is a parameter: its types, its values, and a builder
-- that an instruction is added to.
use luka.Prelude.{ℕ, ◌<◌, ◌≤◌, ◌^◌, ◌≡◌, ◌⊎◌, Bool, true, false, ◌&&◌, ◌==◌}

-- `LLVMTypeKind`, as far as it is asked for.
pub data TypeKind : Type 0 where
  integer_kind float_kind double_kind void_kind pointer_kind struct_kind array_kind : TypeKind
  other_kind : TypeKind

-- `LLVMOpcode`, as far as it is used.
pub data Opcode : Type 0 where
  add f_add sub f_sub mul f_mul u_div s_div f_div u_rem s_rem f_rem : Opcode
  shl l_shr a_shr and_ or_ xor : Opcode
  trunc z_ext s_ext fp_to_ui fp_to_si ui_to_fp si_to_fp fp_trunc fp_ext bit_cast : Opcode

-- `LLVMIntPredicate` and `LLVMRealPredicate`.
pub data IntPredicate : Type 0 where
  int_eq int_ne int_ugt int_uge int_ult int_ule int_sgt int_sge int_slt int_sle : IntPredicate

pub data RealPredicate : Type 0 where
  real_oeq real_ogt real_oge real_olt real_ole real_one : RealPredicate

-- A function on a type or a value is one of LLVM's of that name; `same_type` is the equality of pointers to
-- types. A type that is handed in is not NULL.
pub record Llvm : Type 1 where
  pub LType : Type 0
  pub Value : Type 0
  pub Builder : Type 0
  pub same_type : LType → LType → Bool
  pub int_type : ℕ → LType
  pub float_type : LType
  pub double_type : LType
  pub void_type : LType
  pub pointer_type : LType → LType
  pub array_type : LType → ℕ → LType
  pub type_kind : LType → TypeKind
  pub element_type : LType → LType
  pub array_length : LType → ℕ
  pub int_width : LType → ℕ
  pub type_of : Value → LType
  pub is_null : Value → Bool
  pub const_null : LType → Value
  pub build_cast : Opcode → Value → LType → Builder → Value × Builder
  pub build_pointer_cast : Value → LType → Builder → Value × Builder
  pub build_fp_ext : Value → LType → Builder → Value × Builder
  pub build_si_to_fp : Value → LType → Builder → Value × Builder
  pub build_ui_to_fp : Value → LType → Builder → Value × Builder
  pub build_int_cast : Bool → Value → LType → Builder → Value × Builder
  pub build_bin_op : Opcode → Value → Value → Builder → Value × Builder
  pub build_int_cmp : IntPredicate → Value → Value → Builder → Value × Builder
  pub build_real_cmp : RealPredicate → Value → Value → Builder → Value × Builder

-- What a type is made of; a struct has a name or a number of its own.
pub data Form : Type 0 where
  int : ℕ → Form
  float double void : Form
  pointer : Form → Form
  array : Form → ℕ → Form
  struct other : ℕ → Form

unfoldable pub form_eq : Form → Form → Bool
form_eq (int a) (int b) = a == b
form_eq float float = true
form_eq double double = true
form_eq void void = true
form_eq (pointer a) (pointer b) = form_eq a b
form_eq (array a n) (array b k) = form_eq a b && n == k
form_eq (struct a) (struct b) = a == b
form_eq (other a) (other b) = a == b
form_eq _ _ = false

unfoldable pub kind_of : Form → TypeKind
kind_of (int n) = integer_kind
kind_of float = float_kind
kind_of double = double_kind
kind_of void = void_kind
kind_of (pointer f) = pointer_kind
kind_of (array f n) = array_kind
kind_of (struct n) = struct_kind
kind_of (other n) = other_kind

-- LLVM's documented behaviour: types are made once for each form, the accessors give the parts, and a cast
-- between numbers has the type that it is asked for. An integer type is asked for with at most 64 bits, an
-- array type with a length that an `unsigned` holds.
pub record IsLlvm (L : Llvm) : Type 0 where
  pub form : L.LType → Form
  pub same_type-form : (a b : L.LType) → L.same_type a b ≡ form_eq (form a) (form b)
  pub form-int_type : (w : ℕ) → 0 < w → w ≤ 64 → form (L.int_type w) ≡ int w
  pub form-float_type : form L.float_type ≡ float
  pub form-double_type : form L.double_type ≡ double
  pub form-void_type : form L.void_type ≡ void
  pub form-pointer_type : (t : L.LType) → form (L.pointer_type t) ≡ pointer (form t)
  pub form-array_type :
      (t : L.LType) (n : ℕ) → n < 2 ^ 32 → form (L.array_type t n) ≡ array (form t) n
  pub type_kind-form : (t : L.LType) → L.type_kind t ≡ kind_of (form t)
  pub element_type-pointer :
      (t : L.LType) (f : Form) → form t ≡ pointer f → form (L.element_type t) ≡ f
  pub element_type-array :
      (t : L.LType) (f : Form) (n : ℕ) → form t ≡ array f n → form (L.element_type t) ≡ f
  pub array_length-array :
      (t : L.LType) (f : Form) (n : ℕ) → form t ≡ array f n → L.array_length t ≡ n
  pub int_width-int : (t : L.LType) (w : ℕ) → form t ≡ int w → L.int_width t ≡ w
  pub type_of-fp_ext :
      (v : L.Value) (t : L.LType) (b : L.Builder)
      → form (L.type_of v) ≡ float
      → form t ≡ double
      → L.type_of (L.build_fp_ext v t b).0 ≡ t
  pub type_of-si_to_fp :
      (v : L.Value) (t : L.LType) (b : L.Builder) (w : ℕ)
      → form (L.type_of v) ≡ int w
      → (form t ≡ float) ⊎ (form t ≡ double)
      → L.type_of (L.build_si_to_fp v t b).0 ≡ t
  pub type_of-ui_to_fp :
      (v : L.Value) (t : L.LType) (b : L.Builder) (w : ℕ)
      → form (L.type_of v) ≡ int w
      → (form t ≡ float) ⊎ (form t ≡ double)
      → L.type_of (L.build_ui_to_fp v t b).0 ≡ t
  pub type_of-int_cast :
      (signed : Bool) (v : L.Value) (t : L.LType) (b : L.Builder) (from to : ℕ)
      → form (L.type_of v) ≡ int from
      → form t ≡ int to
      → L.type_of (L.build_int_cast signed v t b).0 ≡ t
