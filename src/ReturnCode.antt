-- ===== src/ReturnCode.antt =====
-- include/defs.h: `t_return_code`, and the outcome of a C function that may also leave the program.
use luka.Prelude.{◌≡◌, ◌≢◌, refl, Option, none, some}

pub data ReturnCode : Type 0 where
  uninitialized success general_error wrong_parameters cant_open_file : ReturnCode
  cant_alloc_memory lexer_failed parser_failed codegen_error type_check_error : ReturnCode
  vector_failure io_error llvm_error non_existing_file : ReturnCode

-- `returned c` is a `return` of an error code, `exited c` a call `exit(c)`, `fault` a read outside
-- the memory of an object or through NULL. `out_of_fuel` has no counterpart in the program.
pub data Outcome {ℓ} (A : Type ℓ) : Type ℓ where
  ok : A → Outcome A
  returned : ReturnCode → Outcome A
  exited : ReturnCode → Outcome A
  fault : Outcome A
  out_of_fuel : Outcome A

infixl 5 ◌>>=◌
abbrev pub ◌>>=◌ {ℓ κ} : {A : Type ℓ} {B : Type κ} → Outcome A → (A → Outcome B) → Outcome B
ok a >>= f = f a
returned c >>= f = returned c
exited c >>= f = exited c
fault >>= f = fault
out_of_fuel >>= f = out_of_fuel

-- A read through an index or a pointer.
abbrev pub of_option {ℓ} : {A : Type ℓ} → Option A → Outcome A
of_option none = fault
of_option (some a) = ok a

-- A result of two steps comes from a result of the first.
pub >>=-eq-ok {ℓ κ} :
    {A : Type ℓ} {B : Type κ} (m : Outcome A) (f : A → Outcome B) {b : B} (h : m >>= f ≡ ok b)
    → (a : A) × (m ≡ ok a) × (f a ≡ ok b)
>>=-eq-ok fault f h = cc
>>=-eq-ok out_of_fuel f h = cc
>>=-eq-ok (returned c) f h = cc
>>=-eq-ok (exited c) f h = cc
>>=-eq-ok (ok a) f h = (a, refl, h)

-- The outcome is none of the model's own.
abbrev pub Ends {ℓ} : {A : Type ℓ} → Outcome A → Type ℓ
Ends r = r ≢ out_of_fuel

-- The run keeps within its fuel.
pub >>=-ne-out_of_fuel {ℓ κ} :
    {A : Type ℓ} {B : Type κ} (m : Outcome A) (f : A → Outcome B)
    → m ≢ out_of_fuel
    → ((a : A) → f a ≢ out_of_fuel)
    → (m >>= f) ≢ out_of_fuel
>>=-ne-out_of_fuel (ok a) f h k = k a
>>=-ne-out_of_fuel (returned c) f h k = cc
>>=-ne-out_of_fuel (exited c) f h k = cc
>>=-ne-out_of_fuel fault f h k = cc
>>=-ne-out_of_fuel out_of_fuel f h k = absurd (h refl)

-- The run makes no bad read.
pub >>=-ne-fault {ℓ κ} :
    {A : Type ℓ} {B : Type κ} (m : Outcome A) (f : A → Outcome B)
    → m ≢ fault
    → ((a : A) → f a ≢ fault)
    → (m >>= f) ≢ fault
>>=-ne-fault (ok a) f h k = k a
>>=-ne-fault (returned c) f h k = cc
>>=-ne-fault (exited c) f h k = cc
>>=-ne-fault fault f h k = absurd (h refl)
>>=-ne-fault out_of_fuel f h k = cc
