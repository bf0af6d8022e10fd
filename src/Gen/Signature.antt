-- ===== src/Gen/Signature.antt =====
-- src/gen.c: `gen_function_type`.
pub mod Exact
use luka.Prelude.{ℕ, zero, suc, ◌%◌, ◌^◌, Bool, true, false, List, [], ◌∷◌, Option, Bytes, take}
use luka.ReturnCode.{Outcome, ok, exited, fault, cant_alloc_memory, ◌>>=◌}
use luka.Types.Base.{Ty}
use luka.Ast.{Prototype}
use luka.Gen.Llvm.{Llvm}
use luka.Gen.Types.{to_llvm}

-- The number of parameters but for the `...`. From 0 the count goes round to the greatest `size_t`, for
-- which there is no memory.
unfoldable pub parameter_count : ℕ → Bool → Outcome ℕ
parameter_count arity false = ok arity
parameter_count zero true = exited cant_alloc_memory
parameter_count (suc n) true = ok n

-- `make` is `LLVMFunctionType`, for as many parameters as its list has.
module _ (L : Llvm) (struct_type : Bytes → Option L.LType)
    (make : L.LType → List L.LType → Bool → L.LType) where
  unfoldable pub parameter_types : ℕ → List Ty → Outcome (List L.LType)
  unfolding to_llvm
  parameter_types zero ts = ok []
  parameter_types (suc n) [] = fault
  parameter_types (suc n) (t ∷ ts) = do
    l ← to_llvm L struct_type t
    ls ← parameter_types n ts
    ok (l ∷ ls)

  -- `gen_function_type`
  unfoldable pub function_type : Prototype → Outcome L.LType
  unfolding parameter_count parameter_types
  function_type p = do
    n ← parameter_count p.arity p.vararg
    params ← parameter_types n p.types
    result ← to_llvm L struct_type p.return_type
    ok (make result (take (n % 2 ^ 32) params) p.vararg)
