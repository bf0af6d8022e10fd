-- ===== src/Lexer/Number/Exact.antt =====
-- What `lexer_lex_number` does on every string: it reads the longest numeral, or leaves the program.
use luka.Prelude.{
  ℕ, suc, ◌+◌, ◌≡◌, refl, ap, ◌∙◌, false, [], ◌∷◌, ◌++◌, arith, append-nil, append_assoc, ==_iff,
  ◌==◌, if◌then◌else◌, Bool-cases, inl, inr, Bytes, length,
}
use luka.ReturnCode.{Outcome, ok, exited, lexer_failed}
use luka.Lexer.Ctype.{is_digit, terminator}
use luka.Lexer.Number.{lex_fraction, lex_number}
use luka.Lexer.Runs.{
  Passes, Stops, split, count_while-append, take-append, take_all, drop-append, get_elem?-append,
}

-- `s` does not begin with `c`.
abbrev pub Lacks : ℕ → Bytes → Type 0
Lacks c [] = Unit
Lacks c (x ∷ s) = (x == c) ≡ false

abbrev pub suffix_length : Bytes → ℕ
suffix_length [] = 0
suffix_length (c ∷ s) = if c == b'f' then 1 else 0

-- The outcome for a number that begins with the byte `d`, with `s` behind it up to the source's end.
pub data NumberOutcome (d : ℕ) (s : Bytes) (r : Outcome (Bytes × ℕ)) : Type 0 where
  -- Digits, with neither a digit nor a point behind them.
  whole :
      (ds left : Bytes)
      → s ≡ ds ++ left
      → Passes is_digit ds
      → Stops is_digit left
      → Lacks b'.' left
      → r ≡ ok (d ∷ ds, length ds)
      → NumberOutcome d s r
  -- Digits, a point and at least one digit; an `f` behind them is passed over.
  fraction :
      (ds : Bytes) (f : ℕ) (fs left : Bytes)
      → s ≡ ds ++ b'.' ∷ f ∷ (fs ++ left)
      → Passes is_digit ds
      → Passes is_digit (f ∷ fs)
      → Stops is_digit left
      → r ≡ ok (d ∷ ds ++ b'.' ∷ f ∷ fs, length ds + 2 + length fs + suffix_length left)
      → NumberOutcome d s r
  -- A point with no digit behind it.
  broken :
      (ds left : Bytes)
      → s ≡ ds ++ b'.' ∷ left
      → Passes is_digit ds
      → Stops is_digit left
      → r ≡ exited lexer_failed
      → NumberOutcome d s r

module _ (d : ℕ) (ds : Bytes) (p : Passes is_digit ds) where
  pub lex_number-stop :
      (c : ℕ) (w : Bytes)
      → is_digit c ≡ false
      → (c == b'.') ≡ false
      → lex_number (d ∷ (ds ++ c ∷ w)) ≡ ok (d ∷ ds, length ds)
  unfolding lex_number
  lex_number-stop c w s l =
      rw
        (
          count_while-append is_digit ds c w p s,
          get_elem?-append (d ∷ ds) (c ∷ w) 0 (length ds + 1) (omega arith),
          l,
          take-append (d ∷ ds) (c ∷ w) 0 (length ds + 1) (omega arith),
          append-nil,
        )
        (ap (λ k. ok (d ∷ ds, k)) (omega arith))

  lex_number-whole :
      (left : Bytes)
      → Stops is_digit left
      → Lacks b'.' left
      → lex_number (d ∷ (ds ++ (left ++ terminator))) ≡ ok (d ∷ ds, length ds)
  unfolding is_digit
  lex_number-whole [] s l = lex_number-stop 0 [] refl refl
  lex_number-whole (c ∷ left) s l = lex_number-stop c (left ++ terminator) s l

  -- Behind the digits stands a point.
  lex_number-point :
      (w : Bytes)
      → lex_number (d ∷ (ds ++ b'.' ∷ w)) ≡ lex_fraction (d ∷ (ds ++ b'.' ∷ w)) (length ds + 1)
  unfolding lex_number
  lex_number-point w = rw (
    count_while-append is_digit ds b'.' w p (unfold is_digit in refl),
    get_elem?-append (d ∷ ds) (b'.' ∷ w) 0 (length ds + 1) (omega arith),
  )

  lex_fraction-broken :
      (c : ℕ) (w : Bytes)
      → is_digit c ≡ false
      → lex_fraction (d ∷ (ds ++ b'.' ∷ c ∷ w)) (length ds + 1) ≡ exited lexer_failed
  unfolding lex_fraction
  lex_fraction-broken c w h =
      rw (get_elem?-append (d ∷ ds) (b'.' ∷ c ∷ w) 1 (length ds + 1 + 1) (omega arith), h)

  lex_fraction-digits :
      (f : ℕ) (fs : Bytes) (c : ℕ) (w : Bytes)
      → Passes is_digit (f ∷ fs)
      → is_digit c ≡ false
      → lex_fraction (d ∷ (ds ++ b'.' ∷ f ∷ (fs ++ c ∷ w))) (length ds + 1)
        ≡ ok (d ∷ (ds ++ b'.' ∷ f ∷ fs), length ds + 2 + length fs + (if c == b'f' then 1 else 0))
  unfolding lex_fraction
  lex_fraction-digits f fs c w q h =
      let rest = b'.' ∷ f ∷ (fs ++ c ∷ w) in
      let end = length ds + 1 + 2 + length fs in
      rw
        (
          get_elem?-append (d ∷ ds) rest 1 (length ds + 1 + 1) (omega arith),
          q.0,
          drop-append (d ∷ ds) rest 2 (length ds + 1 + 2) (omega arith),
          count_while-append is_digit fs c w q.1 h,
          get_elem?-append (d ∷ ds) rest (suc (suc (length fs))) end (omega arith),
          get_elem?-append fs (c ∷ w) 0 (length fs) (omega arith),
          take-append (d ∷ ds) rest (suc (suc (length fs))) end (omega arith),
          take_all,
        )
        (ap (λ k. ok (d ∷ (ds ++ b'.' ∷ f ∷ fs), k)) (ground arith))

  pub lex_number-fraction :
      (f : ℕ) (fs : Bytes) (c : ℕ) (w : Bytes)
      → Passes is_digit (f ∷ fs)
      → is_digit c ≡ false
      → lex_number (d ∷ (ds ++ b'.' ∷ f ∷ (fs ++ c ∷ w)))
        ≡ ok (d ∷ (ds ++ b'.' ∷ f ∷ fs), length ds + 2 + length fs + (if c == b'f' then 1 else 0))
  lex_number-fraction f fs c w q h = lex_number-point _ ∙ lex_fraction-digits f fs c w q h

  fraction-outcome :
      (f : ℕ) (fs left : Bytes)
      → Passes is_digit (f ∷ fs)
      → Stops is_digit left
      → lex_number (d ∷ (ds ++ b'.' ∷ f ∷ (fs ++ (left ++ terminator))))
        ≡ ok (d ∷ (ds ++ b'.' ∷ f ∷ fs), length ds + 2 + length fs + suffix_length left)
  unfolding is_digit
  fraction-outcome f fs [] q s = lex_number-point _ ∙ lex_fraction-digits f fs 0 [] q refl
  fraction-outcome f fs (c ∷ left) q s =
      lex_number-point _ ∙ lex_fraction-digits f fs c (left ++ terminator) q s

  broken-outcome :
      (left : Bytes)
      → Stops is_digit left
      → lex_number (d ∷ (ds ++ b'.' ∷ (left ++ terminator))) ≡ exited lexer_failed
  unfolding is_digit
  broken-outcome [] s = lex_number-point _ ∙ lex_fraction-broken 0 [] refl
  broken-outcome (c ∷ left) s = lex_number-point _ ∙ lex_fraction-broken c (left ++ terminator) s

  -- The digits behind the point, and what is left.
  point-outcome :
      (fs left : Bytes)
      → Passes is_digit fs
      → Stops is_digit left
      → NumberOutcome d
          (ds ++ b'.' ∷ (fs ++ left))
          (lex_number (d ∷ ((ds ++ b'.' ∷ (fs ++ left)) ++ terminator)))
  point-outcome [] left q s = broken ds left refl p s (rw append_assoc (broken-outcome left s))
  point-outcome (f ∷ fs) left q s =
      fraction ds f fs left refl p q s
        (rw (append_assoc ds) (rw (append_assoc fs) (fraction-outcome f fs left q s)))

  left-outcome :
      (left : Bytes)
      → Stops is_digit left
      → NumberOutcome d (ds ++ left) (lex_number (d ∷ ((ds ++ left) ++ terminator)))
  left-outcome [] s = whole ds [] refl p s tt (rw append_assoc (lex_number-whole [] s tt))
  left-outcome (c ∷ left) s = elim (Bool-cases (c == b'.')) [
    | inl h ↦
        let e = (==_iff c b'.').0 h in
        rw e (
          let sp = split is_digit left in
          rw sp.splits (point-outcome sp.run sp.left sp.passes sp.stops))
    | inr h ↦ whole ds (c ∷ left) refl p s h (rw append_assoc (lex_number-whole (c ∷ left) s h))
  ]

-- On every string `d ∷ s`, whatever its first byte, `lexer_lex_number` returns the longest numeral and
-- the distance to its last byte, or calls `exit` where a point has no digit behind it; it reads
-- nothing behind the terminator.
pub lex_number-outcome : (d : ℕ) (s : Bytes) → NumberOutcome d s (lex_number (d ∷ s ++ terminator))
lex_number-outcome d s =
    let sp = split is_digit s in rw sp.splits (left-outcome d sp.run sp.passes sp.left sp.stops)
