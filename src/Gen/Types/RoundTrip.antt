-- ===== src/Gen/Types/RoundTrip.antt =====
-- src/gen.c: `gen_llvm_type_to_ttype` sees of a type what LLVM keeps of it.
use mathlib.Core.Path.{subst}
use luka.Prelude.{
  ℕ, zero, suc, ◌<◌, ◌≡◌, refl, sym, ◌∙◌, ap, Bool, true, false, ◌==◌, ==_iff, arith, if◌then◌else◌,
}
use luka.ReturnCode.{Outcome, ok, exited, codegen_error, ◌>>=◌, returned, fault, out_of_fuel}
use luka.Types.Base.{
  type_any, type_bool, type_sint8, type_sint16, type_sint32, type_sint64, type_f32, type_f64,
  type_string, type_void, type_ptr, type_struct, type_array, no_payload, size, Ty, null, type,
}
use luka.Gen.Llvm.{
  Llvm, Form, int, float, double, void, pointer, array, struct, other, form_eq, kind_of, IsLlvm,
}
use luka.Gen.Types.{plain_type, kind_to_ttype, simple_to_ttype, to_ttype}

-- A pointer to bytes is a string, and a pointer to nothing can be any.
unfoldable pub pointer_to : Ty → Ty
pointer_to (type type_sint8 i p m) = type type_string null no_payload false
pointer_to (type type_void i p m) = type type_any null no_payload false
pointer_to t = type type_ptr t no_payload false

-- The integers have their width only: all but a single bit are signed.
unfoldable pub int_to_ttype : ℕ → Outcome Ty
int_to_ttype w =
    if w == 1
    then plain_type type_bool
    else if w == 8
    then plain_type type_sint8
    else if w == 16
    then plain_type type_sint16
    else if w == 32
    then plain_type type_sint32
    else if w == 64
    then plain_type type_sint64
    else exited codegen_error

-- What is seen of a form.
unfoldable pub seen : Form → Outcome Ty
unfolding int_to_ttype pointer_to
seen (int w) = int_to_ttype w
seen float = plain_type type_f32
seen double = plain_type type_f64
seen void = plain_type type_void
seen (pointer f) = do t ← seen f; ok (pointer_to t)
seen (array f n) = do t ← seen f; ok (type type_array t (size n) false)
seen (struct n) = plain_type type_struct
seen (other n) = exited codegen_error

-- How many elements are in one another.
unfoldable pub height : Form → ℕ
height (pointer f) = suc (height f)
height (array f n) = suc (height f)
height _ = zero

-- The comparisons, for a type of the form.
unfoldable chain : Form → Outcome Ty → Outcome Ty
unfolding form_eq
chain f later =
    if form_eq f (pointer void)
    then plain_type type_any
    else if form_eq f (int 1)
    then plain_type type_bool
    else if form_eq f (int 8)
    then plain_type type_sint8
    else if form_eq f (int 16)
    then plain_type type_sint16
    else if form_eq f (int 32)
    then plain_type type_sint32
    else if form_eq f (int 64)
    then plain_type type_sint64
    else if form_eq f float
    then plain_type type_f32
    else if form_eq f double
    then plain_type type_f64
    else if form_eq f (pointer (int 8))
    then plain_type type_string
    else if form_eq f void
    then plain_type type_void
    else later

-- The cases for the unsigned types come behind those for the signed types of the same width.
unsigned_unreached :
    {A : Type 0} (x8 x16 x32 x64 : Bool) (a8 a16 a32 a64 b8 b16 b32 b64 later : A)
    → (if x8
        then a8
        else if x16
        then a16
        else if x32
        then a32
        else if x64
        then a64
        else if x8
        then b8
        else if x16
        then b16
        else if x32
        then b32
        else if x64
        then b64
        else later)
      ≡ (if x8 then a8 else if x16 then a16 else if x32 then a32 else if x64 then a64 else later)
unsigned_unreached true x16 x32 x64 a8 a16 a32 a64 b8 b16 b32 b64 later = refl
unsigned_unreached false true x32 x64 a8 a16 a32 a64 b8 b16 b32 b64 later = refl
unsigned_unreached false false true x64 a8 a16 a32 a64 b8 b16 b32 b64 later = refl
unsigned_unreached false false false true a8 a16 a32 a64 b8 b16 b32 b64 later = refl
unsigned_unreached false false false false a8 a16 a32 a64 b8 b16 b32 b64 later = refl

module _ (L : Llvm) (lawful : IsLlvm L) where
  simple_to_ttype-chain :
      (t : L.LType) (later : Outcome Ty) → simple_to_ttype L t later ≡ chain (lawful.form t) later
  unfolding simple_to_ttype chain
  simple_to_ttype-chain t later =
      rw
        (
          lawful.same_type-form t (L.pointer_type L.void_type),
          lawful.same_type-form t (L.int_type 1),
          lawful.same_type-form t (L.int_type 8),
          lawful.same_type-form t (L.int_type 16),
          lawful.same_type-form t (L.int_type 32),
          lawful.same_type-form t (L.int_type 64),
          lawful.same_type-form t L.float_type,
          lawful.same_type-form t L.double_type,
          lawful.same_type-form t (L.pointer_type (L.int_type 8)),
          lawful.same_type-form t L.void_type,
          lawful.form-pointer_type L.void_type,
          lawful.form-pointer_type (L.int_type 8),
          lawful.form-int_type 1 (omega arith) (omega arith),
          lawful.form-int_type 8 (omega arith) (omega arith),
          lawful.form-int_type 16 (omega arith) (omega arith),
          lawful.form-int_type 32 (omega arith) (omega arith),
          lawful.form-int_type 64 (omega arith) (omega arith),
          lawful.form-float_type,
          lawful.form-double_type,
          lawful.form-void_type,
          unsigned_unreached (form_eq (lawful.form t) (int 8)) (form_eq (lawful.form t) (int 16))
              (form_eq (lawful.form t) (int 32)) (form_eq (lawful.form t) (int 64)),
        )
        refl

-- A pointer type with what it points to.
abbrev to_pointer : Outcome Ty → Outcome Ty
to_pointer o = o >>= λ t. ok (type type_ptr t no_payload false)

pointer_to-pointer_to :
    (t : Ty) → pointer_to (pointer_to t) ≡ type type_ptr (pointer_to t) no_payload false
unfolding pointer_to
pointer_to-pointer_to null = refl
pointer_to-pointer_to (type type_sint8 i p m) = refl
pointer_to-pointer_to (type type_void i p m) = refl
pointer_to-pointer_to (type _ i p m) = refl

-- Behind a pointer or an array there is nothing that a pointer to it would be special for.
pointer_seen :
    (o : Outcome Ty)
    → to_pointer (o >>= λ t. ok (pointer_to t))
      ≡ ((o >>= λ t. ok (pointer_to t)) >>= λ t. ok (pointer_to t))
pointer_seen (ok t) = rw (pointer_to-pointer_to t)
pointer_seen (returned c) = refl
pointer_seen (exited c) = refl
pointer_seen fault = refl
pointer_seen out_of_fuel = refl

array_seen :
    (o : Outcome Ty) (n : ℕ)
    → to_pointer (o >>= λ t. ok (type type_array t (size n) false))
      ≡ ((o >>= λ t. ok (type type_array t (size n) false)) >>= λ t. ok (pointer_to t))
unfolding pointer_to
array_seen (ok t) n = refl
array_seen (returned c) n = refl
array_seen (exited c) n = refl
array_seen fault n = refl
array_seen out_of_fuel n = refl

int_seen :
    (w : ℕ)
    → (if w == 8 then plain_type type_string else to_pointer (int_to_ttype w))
      ≡ (int_to_ttype w >>= λ t. ok (pointer_to t))
unfolding int_to_ttype pointer_to
int_seen w = go (w == 8) refl
  where
    rest :
        (x1 x16 x32 x64 : Bool)
        → to_pointer (
            if x1
            then plain_type type_bool
            else if x16
            then plain_type type_sint16
            else if x32
            then plain_type type_sint32
            else if x64
            then plain_type type_sint64
            else exited codegen_error)
          ≡ ((if x1
                then plain_type type_bool
                else if x16
                then plain_type type_sint16
                else if x32
                then plain_type type_sint32
                else if x64
                then plain_type type_sint64
                else exited codegen_error)
              >>= λ t. ok (pointer_to t))
    rest true x16 x32 x64 = refl
    rest false true x32 x64 = refl
    rest false false true x64 = refl
    rest false false false true = refl
    rest false false false false = refl

    go :
        (x : Bool)
        → (w == 8) ≡ x
        → (if w == 8 then plain_type type_string else to_pointer (int_to_ttype w))
          ≡ (int_to_ttype w >>= λ t. ok (pointer_to t))
    go true e =
        subst
          (λ k.
            (if k == 8 then plain_type type_string else to_pointer (int_to_ttype k))
            ≡ (int_to_ttype k >>= λ t. ok (pointer_to t)))
          (sym ((==_iff w 8).0 e)) refl
    go false e = rw e (rest (w == 1) (w == 16) (w == 32) (w == 64))

module _ (L : Llvm) (lawful : IsLlvm L) where
  chain-seen :
      (call : L.LType → Outcome Ty) (t : L.LType) (f : Form)
      → lawful.form t ≡ f
      → ((g : Form)
          → height g < height f
          → lawful.form (L.element_type t) ≡ g
          → call (L.element_type t) ≡ seen g)
      → chain f (kind_to_ttype L call t (kind_of f)) ≡ seen f
  unfolding chain kind_to_ttype seen int_to_ttype height pointer_to kind_of form_eq
  chain-seen call t (int w) e h = refl
  chain-seen call t float e h = refl
  chain-seen call t double e h = refl
  chain-seen call t void e h = refl
  chain-seen call t (struct n) e h = refl
  chain-seen call t (other n) e h = refl
  chain-seen call t (array f n) e h =
      rw (h f (omega arith) (lawful.element_type-array t f n e), lawful.array_length-array t f n e)
        refl
  chain-seen call t (pointer void) e h = refl
  chain-seen call t (pointer (int w)) e h =
      rw (h (int w) (omega arith) (lawful.element_type-pointer t (int w) e)) (int_seen w)
  chain-seen call t (pointer float) e h =
      rw (h float (omega arith) (lawful.element_type-pointer t float e)) refl
  chain-seen call t (pointer double) e h =
      rw (h double (omega arith) (lawful.element_type-pointer t double e)) refl
  chain-seen call t (pointer (struct n)) e h =
      rw (h (struct n) (omega arith) (lawful.element_type-pointer t (struct n) e)) refl
  chain-seen call t (pointer (other n)) e h =
      rw (h (other n) (omega arith) (lawful.element_type-pointer t (other n) e)) refl
  chain-seen call t (pointer (pointer f)) e h =
      rw (h (pointer f) (omega arith) (lawful.element_type-pointer t (pointer f) e))
        (pointer_seen (seen f))
  chain-seen call t (pointer (array f n)) e h =
      rw (h (array f n) (omega arith) (lawful.element_type-pointer t (array f n) e))
        (array_seen (seen f) n)

  -- The type that is seen depends on the form only, and the recursion ends with as much fuel as elements
  -- are in one another and one more.
  pub to_ttype-seen :
      (fuel : ℕ) (t : L.LType)
      → height (lawful.form t) < fuel
      → to_ttype L fuel t ≡ seen (lawful.form t)
  unfolding to_ttype
  to_ttype-seen zero t h = absurd (omega arith)
  to_ttype-seen (suc fuel) t h =
      simple_to_ttype-chain L lawful t _
      ∙ (rw (lawful.type_kind-form t) (
          chain-seen (to_ttype L fuel) t (lawful.form t) refl (λ g less e.
            to_ttype-seen fuel (L.element_type t) (rw e (omega (arith, less, h))) ∙ ap seen e)))
