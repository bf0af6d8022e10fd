-- ===== src/Lexer/Runs.antt =====
-- What `count_while` counts: the longest run of passing bytes, within a terminated memory.
use luka.Prelude.{
  ℕ, zero, suc, ◌+◌, ◌≡◌, refl, ap, Bool, true, false, List, [], ◌∷◌, ◌++◌, arith, Bool-cases, inl,
  inr, Bytes, length, get_elem?, take, drop, All,
}
use luka.ReturnCode.{ok}
use luka.Lexer.Ctype.{count_while, terminator}

abbrev pub Passes : (ℕ → Bool) → Bytes → Type 0
Passes test s = All (λ c. test c ≡ true) s

module _ (test : ℕ → Bool) where
  pub count_while-append :
      (s : Bytes) (c : ℕ) (w : Bytes)
      → Passes test s
      → test c ≡ false
      → count_while test (s ++ c ∷ w) ≡ ok (length s)
  unfolding count_while
  count_while-append [] c w h e = rw e
  count_while-append (x ∷ s) c w h e = rw (h.0, count_while-append s c w h.1 e)

-- The bytes of `s` begin with none that passes.
abbrev pub Stops : (ℕ → Bool) → Bytes → Type 0
Stops test [] = Unit
Stops test (c ∷ s) = test c ≡ false

-- A text falls into its longest run of passing bytes and what is left.
pub record Split (test : ℕ → Bool) (s : Bytes) : Type 0 where
  pub run : Bytes
  pub left : Bytes
  pub splits : s ≡ run ++ left
  pub passes : Passes test run
  pub stops : Stops test left

module _ (test : ℕ → Bool) where
  Split-cons : (c : ℕ) (s : Bytes) → test c ≡ true → Split test s → Split test (c ∷ s)
  Split-cons c s h p = record {
    run = c ∷ p.run;
    left = p.left;
    splits = ap (◌∷◌ c) p.splits;
    passes = (h, p.passes);
    stops = p.stops;
  }

  pub split : (s : Bytes) → Split test s
  split [] = record { run = []; left = []; splits = refl; passes = tt; stops = tt }
  split (c ∷ s) = elim (Bool-cases (test c)) [
    | inl h ↦ Split-cons c s h (split s)
    | inr h ↦ record { run = []; left = c ∷ s; splits = refl; passes = tt; stops = h }
  ]

  pub count_while-run :
      (s left : Bytes)
      → Passes test s
      → Stops test left
      → test 0 ≡ false
      → count_while test (s ++ (left ++ terminator)) ≡ ok (length s)
  count_while-run s [] h e z = count_while-append test s 0 [] h z
  count_while-run s (c ∷ left) h e z = count_while-append test s c (left ++ terminator) h e

-- Positions behind a known front `s`, `k` places into what follows.
module _ {ℓ} {A : Type ℓ} where
  pub take-append : (s w : List A) (k n : ℕ) → n ≡ length s + k → take n (s ++ w) ≡ s ++ take k w
  take-append [] w k n e = let e' : n ≡ k = omega arith in rw e'
  take-append (x ∷ s) w k zero e = absurd (omega arith)
  take-append (x ∷ s) w k (suc n) e = ap (◌∷◌ x) (take-append s w k n (omega arith))

  pub drop-append : (s w : List A) (k n : ℕ) → n ≡ length s + k → drop n (s ++ w) ≡ drop k w
  drop-append [] w k n e = let e' : n ≡ k = omega arith in rw e'
  drop-append (x ∷ s) w k zero e = absurd (omega arith)
  drop-append (x ∷ s) w k (suc n) e = drop-append s w k n (omega arith)

  pub get_elem?-append :
      (s w : List A) (k n : ℕ) → n ≡ length s + k → get_elem? (s ++ w) n ≡ get_elem? w k
  get_elem?-append [] w k n e = let e' : n ≡ k = omega arith in rw e'
  get_elem?-append (x ∷ s) w k zero e = absurd (omega arith)
  get_elem?-append (x ∷ s) w k (suc n) e = get_elem?-append s w k n (omega arith)

  pub take_all : (s w : List A) → take (length s) (s ++ w) ≡ s
  take_all [] w = refl
  take_all (x ∷ s) w = ap (◌∷◌ x) (take_all s w)
