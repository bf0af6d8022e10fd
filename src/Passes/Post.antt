-- ===== src/Passes/Post.antt =====
-- Outcomes that keep within their fuel, with what holds of the value where there is one.
use luka.Prelude.{refl}
use luka.ReturnCode.{ReturnCode, Outcome, ok, returned, exited, fault, out_of_fuel, Ends, ◌>>=◌}

pub data Post {A : Type 0} (P : A → Type 0) : Outcome A → Type 0 where
  gives : {a : A} → P a → Post P (ok a)
  returns : {c : ReturnCode} → Post P (returned c)
  exits : {c : ReturnCode} → Post P (exited c)
  faults : Post P fault

infixl 1 ◌⟫◌
pub ◌⟫◌ :
    {A B : Type 0} {P : A → Type 0} {Q : B → Type 0} {o : Outcome A} {f : A → Outcome B}
    → Post P o
    → ((a : A) → P a → Post Q (f a))
    → Post Q (o >>= f)
gives {a} h ⟫ k = k a h
returns ⟫ k = returns
exits ⟫ k = exits
faults ⟫ k = faults

-- Nothing is said of the value.
abbrev pub Any : {A : Type 0} → A → Type 0
Any a = Unit {0}

pub Ends-Post : {A : Type 0} (o : Outcome A) → Ends o → Post Any o
Ends-Post (ok a) h = gives tt
Ends-Post (returned c) h = returns
Ends-Post (exited c) h = exits
Ends-Post fault h = faults
Ends-Post out_of_fuel h = absurd (h refl)

pub weaken :
    {A : Type 0} {P Q : A → Type 0} {o : Outcome A} → ((a : A) → P a → Q a) → Post P o → Post Q o
weaken g (gives h) = gives (g _ h)
weaken g returns = returns
weaken g exits = exits
weaken g faults = faults
