-- ===== src/Gen/Signature/Exact.antt =====
-- src/gen.c: the LLVM type of a function is made of the types that its prototype declares.
use luka.Prelude.{
  ℕ, zero, suc, ◌+◌, ◌%◌, ◌^◌, ◌<◌, ◌≡◌, refl, ap, ◌∙◌, Bool, true, false, List, [], ◌∷◌, ◌++◌,
  Option, Bytes, take, length, arith, if◌then◌else◌,
}
use luka.ReturnCode.{ok}
use luka.Types.Base.{Ty}
use luka.Ast.{Prototype}
use luka.Gen.Llvm.{Llvm}
use luka.Gen.Types.{to_llvm}
use luka.Gen.Signature.{parameter_count, parameter_types, function_type}

parameter_count-marker :
    (n arity : ℕ) (vararg : Bool)
    → arity ≡ n + (if vararg then 1 else 0)
    → parameter_count arity vararg ≡ ok n
unfolding parameter_count
parameter_count-marker n arity false h = ap ok (omega (arith, h))
parameter_count-marker n zero true h = absurd (omega (arith, h))
parameter_count-marker n (suc k) true h = ap ok (omega (arith, h))

take-length : {A : Type 0} (xs : List A) → take (length xs) xs ≡ xs
take-length [] = refl
take-length (x ∷ xs) = ap (λ l. x ∷ l) (take-length xs)

module _ (L : Llvm) (struct_type : Bytes → Option L.LType) where
  -- Types and their translations, one by one.
  pub data Translated : List Ty → List L.LType → Type 0 where
    no_types : Translated [] []
    one_more :
        {t : Ty} {l : L.LType} {ts : List Ty} {ls : List L.LType}
        → to_llvm L struct_type t ≡ ok l
        → Translated ts ls
        → Translated (t ∷ ts) (l ∷ ls)

  module _ (make : L.LType → List L.LType → Bool → L.LType) where
    parameter_types-Translated :
        (ts : List Ty) (ls : List L.LType) (rest : List Ty)
        → Translated ts ls
        → parameter_types L struct_type make (length ls) (ts ++ rest) ≡ ok ls
    unfolding parameter_types
    parameter_types-Translated _ _ rest no_types = refl
    parameter_types-Translated (t ∷ ts) (l ∷ ls) rest (one_more e h) =
        rw e (rw (parameter_types-Translated ts ls rest h) refl)

    -- The LLVM type of a function whose declared types are translated, but for the `...` at the end of a
    -- variadic one, takes the translations in their order, gives the translation of the return type and is
    -- variadic if the function is. There are less than 2 ^ 32 parameters.
    pub function_type-Translated :
        (p : Prototype) (declared rest : List Ty) (params : List L.LType) (result : L.LType)
        → p.types ≡ declared ++ rest
        → p.arity ≡ length params + (if p.vararg then 1 else 0)
        → length params < 2 ^ 32
        → Translated declared params
        → to_llvm L struct_type p.return_type ≡ ok result
        → function_type L struct_type make p ≡ ok (make result params p.vararg)
    unfolding function_type
    function_type-Translated p declared rest params result types_are arity_is less h result_is =
        let whole : length params % 2 ^ 32 ≡ length params = omega (arith, less) in
        rw (parameter_count-marker (length params) p.arity p.vararg arity_is) (
          rw types_are (
            rw (parameter_types-Translated declared params rest h) (
              rw result_is (
                ap (λ xs. ok (make result xs p.vararg))
                  (ap (λ k. take k params) whole ∙ take-length params)))))
