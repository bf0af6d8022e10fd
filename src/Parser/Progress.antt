-- ===== src/Parser/Progress.antt =====
-- src/parser.c: how far the functions of the parser go, one rule for each way to build one.
pub mod Types
pub mod Levels
pub mod Primary
pub mod Unary
pub mod Declarations
pub mod Statements
pub mod File
use luka.Prelude.{
  ℕ, suc, ◌≤◌, ◌<◌, ◌≡◌, refl, ◌∙◌, Bool, true, false, List, Option, none, some, length,
  if◌then◌else◌, arith,
}
use luka.ReturnCode.{
  ReturnCode, parser_failed, Outcome, ok, returned, exited, fault, out_of_fuel, Ends,
}
use luka.Token.{Token, TokType}
use luka.Ast.{Module}
use luka.Parser.State.{
  Parser, Parse, pure, bind, ◌>>=◌, lift, read_parser, write_parser, stop_exited, stop_fault, back,
  found, token_ahead, current, next, err, expect, match, advance, expect_advance, match_advance,
}

-- The module that is left has the path and the imports of another one.
unfoldable pub Head : Module → Module → Type 0
Head m k = (k.file_path ≡ m.file_path) × (k.imports ≡ m.imports)

unfoldable pub Heads : {A : Type 0} → Module → Outcome (A × Parser) → Type 0
unfolding Head
Heads m (ok (a, p)) = Head m p.current_module
Heads m (returned c) = Unit
Heads m (exited c) = Unit
Heads m fault = Unit
Heads m out_of_fuel = Unit

module _ (n : ℕ) where
  -- The cursor is left at `k` or behind it, on one of the `n` tokens, or the program has stopped.
  unfoldable pub Within : {A : Type 0} → ℕ → Outcome (A × Parser) → Type 0
  Within k (ok (a, p)) = (k ≤ p.index) × (p.index < n)
  Within k (returned c) = Unit
  Within k (exited c) = Unit
  Within k fault = Unit
  Within k out_of_fuel = ⊥

  -- `m` takes a cursor at `b` or behind it to one at `c` or behind it, and keeps the head of the module.
  pub record From {A : Type 0} (b c : ℕ) (m : Parse A) : Type 0 where
    pub run : (p : Parser) → b ≤ p.index → p.index < n → Within c (m p)
    pub keep : (p : Parser) → b ≤ p.index → p.index < n → Heads p.current_module (m p)

module _ {A : Type 0} where
  Within-le : (n : ℕ) {c d : ℕ} (r : Outcome (A × Parser)) → d ≤ c → Within n c r → Within n d r
  unfolding Within
  Within-le n (ok (a, p)) h w = (omega arith, w.1)
  Within-le n (returned c) h w = tt
  Within-le n (exited c) h w = tt
  Within-le n fault h w = tt
  Within-le n out_of_fuel h w = elim w [ ]

  pub Heads-trans : (m k : Module) (r : Outcome (A × Parser)) → Head m k → Heads k r → Heads m r
  unfolding Head Heads
  Heads-trans m k (ok (a, p)) h e = (e.0 ∙ h.0, e.1 ∙ h.1)
  Heads-trans m k (returned c) h e = tt
  Heads-trans m k (exited c) h e = tt
  Heads-trans m k fault h e = tt
  Heads-trans m k out_of_fuel h e = tt

  Heads-found : (o : Option A) (p : Parser) → Heads p.current_module (found o p)
  unfolding found Heads Head
  Heads-found none p = tt
  Heads-found (some a) p = (refl, refl)

module _ {n : ℕ} {A : Type 0} where
  pub weaken : {b c d : ℕ} {m : Parse A} → From n b c m → d ≤ c → From n b d m
  weaken h le = record { run = λ p l u. Within-le n _ le (h.run p l u); keep = h.keep }

  -- Behind the last token nothing is to be shown.
  pub beyond : {b c : ℕ} {m : Parse A} → n ≤ b → From n b c m
  beyond h = record { run = λ p l u. absurd (omega arith); keep = λ p l u. absurd (omega arith) }

  pub stay : {b : ℕ} (a : A) → From n b b (pure a)
  unfolding pure Within Heads Head
  stay a = record { run = λ p l u. (l, u); keep = λ p l u. (refl, refl) }

  pub done : {b c : ℕ} (a : A) → c ≤ b → From n b c (pure a)
  done a h = weaken (stay a) h

  pub either :
      {b c : ℕ} (x : Bool) {m k : Parse A}
      → From n b c m
      → From n b c k
      → From n b c (if x then m else k)
  either true hm hk = hm
  either false hm hk = hk

  pub From-stop_exited : {b c : ℕ} (r : ReturnCode) → From n b c (stop_exited {A = A} r)
  unfolding stop_exited Within Heads Head
  From-stop_exited r = record { run = λ p l u. tt; keep = λ p l u. tt }

  pub From-stop_fault : {b c : ℕ} → From n b c (stop_fault {A = A})
  unfolding stop_fault Within Heads Head
  From-stop_fault = record { run = λ p l u. tt; keep = λ p l u. tt }

  -- The outcome of a function that does not see the parser.
  pub From-lift : {b : ℕ} (r : Outcome A) → Ends r → From n b b (lift r)
  unfolding lift Within Heads Head
  From-lift (ok a) e = record { run = λ p l u. (l, u); keep = λ p l u. (refl, refl) }
  From-lift (returned r) e = record { run = λ p l u. tt; keep = λ p l u. tt }
  From-lift (exited r) e = record { run = λ p l u. tt; keep = λ p l u. tt }
  From-lift fault e = record { run = λ p l u. tt; keep = λ p l u. tt }
  From-lift out_of_fuel e = absurd (e refl)

  Within-found :
      {c : ℕ} (o : Option A) (p : Parser) → c ≤ p.index → p.index < n → Within n c (found o p)
  unfolding found Within
  Within-found none p l u = tt
  Within-found (some a) p l u = (l, u)

module _ {n : ℕ} {A B : Type 0} {b c : ℕ} where
  Within-bind :
      (f : A → Parse B) (r : Outcome (A × Parser))
      → Within n b r
      → ((a : A) → From n b c (f a))
      → Within n c (bind f r)
  unfolding Within bind
  Within-bind f (ok (a, p)) h k = (k a).run p h.0 h.1
  Within-bind f (returned c) h k = tt
  Within-bind f (exited c) h k = tt
  Within-bind f fault h k = tt
  Within-bind f out_of_fuel h k = elim h [ ]

  Heads-bind :
      (m : Module) (f : A → Parse B) (r : Outcome (A × Parser))
      → Within n b r
      → Heads m r
      → ((a : A) → From n b c (f a))
      → Heads m (bind f r)
  unfolding Within Heads bind
  Heads-bind m f (ok (a, p)) h e k = Heads-trans m p.current_module _ e ((k a).keep p h.0 h.1)
  Heads-bind m f (returned c) h e k = tt
  Heads-bind m f (exited c) h e k = tt
  Heads-bind m f fault h e k = tt
  Heads-bind m f out_of_fuel h e k = tt

  -- One step, and those behind it.
  pub step :
      {d : ℕ} {m : Parse A} {f : A → Parse B}
      → From n d b m
      → ((a : A) → From n b c (f a))
      → From n d c (m >>= f)
  unfolding ◌>>=◌
  step h k = record {
    run = λ p l u. Within-bind _ _ (h.run p l u) k;
    keep = λ p l u. Heads-bind _ _ _ (h.run p l u) (h.keep p l u) k;
  }

module _ {n b : ℕ} where
  pub From-read_parser : From n b b read_parser
  unfolding read_parser Within Heads Head
  From-read_parser = record { run = λ p l u. (l, u); keep = λ p l u. (refl, refl) }

  pub From-back : From n (suc b) b back
  unfolding back Within Heads Head
  From-back = record { run = λ p l u. (omega arith, omega arith); keep = λ p l u. (refl, refl) }

-- A change of the parser that leaves the cursor.
pub From-write_parser :
    {n b : ℕ} (f : Parser → Parser)
    → ((p : Parser) → (f p).index ≡ p.index)
    → ((p : Parser) → Head p.current_module (f p).current_module)
    → From n b b (λ p. write_parser (f p) p)
unfolding write_parser Within Heads
From-write_parser f h k = record { run = λ p l u. ground (arith, h p); keep = λ p l u. k p }

module _ (tokens : List Token) where
  -- The same for the tokens of a file.
  abbrev pub Goes : {A : Type 0} → ℕ → ℕ → Parse A → Type 0
  Goes b c m = From (length tokens) b c m

  pub From-token_ahead : (k : ℕ) {b : ℕ} → Goes b b (token_ahead tokens k)
  unfolding token_ahead
  From-token_ahead k = record {
    run = λ p l u. Within-found _ p l u;
    keep = λ p l u. Heads-found _ p;
  }

  pub From-current : {b : ℕ} → Goes b b (current tokens)
  unfolding current
  From-current = From-token_ahead 0

  pub From-next : {b : ℕ} → Goes b b (next tokens)
  unfolding next
  From-next = From-token_ahead 1

  pub From-advance : {b : ℕ} → Goes b (suc b) (advance tokens)
  unfolding advance Within Heads Head
  From-advance = record { run = λ p l u. ground arith; keep = λ p l u. ground arith }

  pub From-err : {A : Type 0} {b c : ℕ} → Goes b c (err tokens {A = A})
  unfolding err
  From-err = step From-next λ t. From-stop_exited _

  pub From-expect : (t : TokType) {b : ℕ} → Goes b b (expect tokens t)
  unfolding expect
  From-expect t = step From-next λ u. stay _

  pub From-match : (t : TokType) {b : ℕ} → Goes b b (match tokens t)
  unfolding match
  From-match t = step From-current λ u. stay _

  pub From-expect_advance : (t : TokType) {b : ℕ} → Goes b (suc b) (expect_advance tokens t)
  unfolding expect_advance
  From-expect_advance t = step (From-expect t) λ x. either x From-advance From-err

  pub From-match_advance : (t : TokType) {b : ℕ} → Goes b (suc b) (match_advance tokens t)
  unfolding match_advance
  From-match_advance t = step (From-match t) λ x. either x From-advance From-err

-- From `b` on, `m` goes past a token at least.
pub record Advances (tokens : List Token) {A : Type 0} (b : ℕ) (m : Parse A) : Type 0 where
  pub at : (k : ℕ) → b ≤ k → Goes tokens k (suc k) m
