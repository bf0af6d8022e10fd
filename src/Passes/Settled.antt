-- ===== src/Passes/Settled.antt =====
-- What a pass makes is left as it is by a second run of the pass.
use mathlib.Core.Path.{subst}
use luka.Prelude.{◌≡◌, refl}
use luka.ReturnCode.{Outcome, ok, returned, exited, fault, out_of_fuel, ◌>>=◌}

-- What comes out of `o` is left as it is by `run`.
pub record Settled {ℓ} {A : Type ℓ} (run : A → Outcome A) (o : Outcome A) : Type ℓ where
  pub kept : (r : A) → o ≡ ok r → run r ≡ ok r

pub ok-Settled {ℓ} : {A : Type ℓ} {run : A → Outcome A} {a : A} → run a ≡ ok a → Settled run (ok a)
ok-Settled {run = run} {a = a} h = record { kept = λ r e. subst (λ x. run x ≡ ok x) (cc) h }

pub >>=-Settled {ℓ κ} :
    {A : Type ℓ} {B : Type κ} {run : B → Outcome B} (o : Outcome A) (f : A → Outcome B)
    → ((a : A) → o ≡ ok a → Settled run (f a))
    → Settled run (o >>= f)
>>=-Settled (ok a) f h = h a refl
>>=-Settled (returned c) f h = record { kept = λ r e. cc }
>>=-Settled (exited c) f h = record { kept = λ r e. cc }
>>=-Settled fault f h = record { kept = λ r e. cc }
>>=-Settled out_of_fuel f h = record { kept = λ r e. cc }
