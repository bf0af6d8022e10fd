-- ===== src/Driver/Yields.antt =====
-- What holds of the value of an outcome, if there is one.
use mathlib.Core.Path.{subst}
use luka.Prelude.{◌≡◌, refl, sym, Option, some}
use luka.ReturnCode.{
  ReturnCode, Outcome, ok, returned, exited, fault, out_of_fuel, of_option, ◌>>=◌,
}

pub data Yields {A : Type 0} (P : A → Type 0) : Outcome A → Type 0 where
  yields : {a : A} → P a → Yields P (ok a)
  returns : {c : ReturnCode} → Yields P (returned c)
  exits : {c : ReturnCode} → Yields P (exited c)
  faults : Yields P fault
  runs_out : Yields P out_of_fuel

infixl 1 ◌⟫◌
pub ◌⟫◌ :
    {A B : Type 0} {P : A → Type 0} {Q : B → Type 0} {o : Outcome A} {f : A → Outcome B}
    → Yields P o
    → ((a : A) → P a → Yields Q (f a))
    → Yields Q (o >>= f)
yields {a} h ⟫ k = k a h
returns ⟫ k = returns
exits ⟫ k = exits
faults ⟫ k = faults
runs_out ⟫ k = runs_out

-- Nothing is known of the value.
pub known_only : {A : Type 0} (o : Outcome A) → Yields (λ a. o ≡ ok a) o
known_only (ok a) = yields refl
known_only (returned c) = returns
known_only (exited c) = exits
known_only fault = faults
known_only out_of_fuel = runs_out

pub value_of : {A : Type 0} {P : A → Type 0} {o : Outcome A} {a : A} → Yields P o → o ≡ ok a → P a
value_of {P = P} {a = a} (yields {a = b} h) e = let same : b ≡ a = (cc) in subst P same h
value_of returns e = cc
value_of exits e = cc
value_of faults e = cc
value_of runs_out e = cc

pub Yields-some :
    {A B : Type 0} {Q : B → Type 0} {o : Option A} (f : A → Outcome B) {a : A}
    → o ≡ some a
    → Yields Q (f a)
    → Yields Q (of_option o >>= f)
Yields-some {Q = Q} f e h = subst (λ x. Yields Q (of_option x >>= f)) (sym e) h

pub Yields-imp :
    {A : Type 0} {P Q : A → Type 0} {o : Outcome A}
    → Yields P o
    → ((a : A) → P a → Q a)
    → Yields Q o
Yields-imp (yields h) f = yields (f _ h)
Yields-imp returns f = returns
Yields-imp exits f = exits
Yields-imp faults f = faults
Yields-imp runs_out f = runs_out
