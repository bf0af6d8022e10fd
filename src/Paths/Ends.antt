-- ===== src/Paths/Ends.antt =====
-- What the test on the end of a path means, and the extension of source files.
use luka.Prelude.{
  ℕ, zero, suc, ◌+◌, ◌-◌, ◌<◌, ◌≤◌, ◌≡◌, ◌↔◌, refl, sym, ap, ◌∙◌, arith, Bool, true, false, [], ◌∷◌,
  ◌++◌, append_assoc, append-nil, Bytes, codes, length, length-append, ltb, ◌==◌, ==_iff, ==_refl,
  Bool-cases, inl, inr,
}
use luka.ReturnCode.{ok, >>=-eq-ok}
use luka.Lexer.Ctype.{read, terminator}
use luka.Lexer.Runs.{get_elem?-append}
use luka.Paths.{ends_loop, ends_with, add_extension}

read_in : (s : Bytes) (k : ℕ) → k ≤ length s → (a : ℕ) × (read (s ++ terminator) k ≡ ok a)
read_in [] zero h = (0, refl)
read_in [] (suc k) h = absurd (omega arith)
read_in (c ∷ s) zero h = (c, refl)
read_in (c ∷ s) (suc k) h = read_in s k (omega arith)

-- The loop looks at the last bytes only.
ends_loop-append :
    (front back end : Bytes) (n i : ℕ)
    → length back ≡ length end
    → i + n ≤ length end + 1
    → ends_loop n i (front ++ back) end ≡ ends_loop n i back end
unfolding ends_loop
ends_loop-append front back end zero i e h = refl
ends_loop-append front back end (suc n) i e h =
    rw
      (
        append_assoc front back terminator,
        get_elem?-append front (back ++ terminator) (length back - i) (length (front ++ back) - i)
            (omega (arith, length-append front back)),
        ends_loop-append front back end n (i + 1) e (omega arith),
      )
      refl

-- On a text and itself it comes to its end.
ends_loop_refl :
    (end : Bytes) (n i : ℕ) → i + n ≤ length end + 1 → ends_loop n i end end ≡ ok (i + n)
unfolding ends_loop
ends_loop_refl end zero i h = ap ok (omega arith)
ends_loop_refl end (suc n) i h =
    let (a, e) = read_in end (length end - i) (omega arith) in
    rw (e, ==_refl a) (ends_loop_refl end n (i + 1) (omega arith) ∙ ap ok (omega arith))

-- Two texts of one length that it gets through agree at each of the places.
ends_loop-agree :
    (back end : Bytes) (n i j : ℕ)
    → ends_loop n i back end ≡ ok (i + n)
    → i ≤ j
    → j < i + n
    → read (back ++ terminator) (length back - j) ≡ read (end ++ terminator) (length end - j)
unfolding ends_loop
ends_loop-agree back end zero i j h p q = absurd (omega arith)
ends_loop-agree back end (suc n) i j h p q =
    let (a, ea, h1) = >>=-eq-ok (read (back ++ terminator) (length back - i)) _ h in
    let (b, eb, h2) = >>=-eq-ok (read (end ++ terminator) (length end - i)) _ h1 in
    elim (Bool-cases (a == b)) [
      | inr x ↦ let h3 = rw x at h2 in absurd (ground (arith, h3))
      | inl x ↦
          let same = (==_iff a b).0 x in
          elim (Bool-cases (i == j)) [
            | inl y ↦ let ij = (==_iff i j).0 y in rw (← ij) (cc)
            | inr y ↦
                ends_loop-agree back end n (i + 1) j (rw x at h2 ∙ ap ok (omega arith))
                  (ground arith) (omega arith)
          ]
    ]

-- Texts of one length that agree everywhere are equal.
agree-eq :
    (xs ys : Bytes)
    → length xs ≡ length ys
    → ((k : ℕ) → k < length xs → read (xs ++ terminator) k ≡ read (ys ++ terminator) k)
    → xs ≡ ys
agree-eq [] [] e h = refl
agree-eq [] (y ∷ ys) e h = absurd (omega arith)
agree-eq (x ∷ xs) [] e h = absurd (omega arith)
agree-eq (x ∷ xs) (y ∷ ys) e h =
    let first = h 0 (omega arith) in
    let rest = agree-eq xs ys (omega arith) (λ k l. h (suc k) (omega arith)) in cc

split_at :
    (s : Bytes) (k : ℕ)
    → k ≤ length s
    → (front back : Bytes) × (s ≡ front ++ back) × (length front ≡ k)
split_at s zero h = ([], s, refl, refl)
split_at [] (suc k) h = absurd (omega arith)
split_at (c ∷ s) (suc k) h =
    let (front, back, e, l) = split_at s k (omega arith) in
    (c ∷ front, back, ap (◌∷◌ c) e, omega arith)

-- The reads stay within both texts.
ends_loop_total :
    (path end : Bytes) (n i : ℕ)
    → length end ≤ length path
    → i + n ≤ length end + 1
    → (k : ℕ) × (ends_loop n i path end ≡ ok k)
unfolding ends_loop
ends_loop_total path end zero i l h = (i, refl)
ends_loop_total path end (suc n) i l h =
    let (a, ea) = read_in path (length path - i) (omega arith) in
    let (b, eb) = read_in end (length end - i) (omega arith) in
    elim (Bool-cases (a == b)) [
      | inl x ↦
          let (k, e) = ends_loop_total path end n (i + 1) l (omega arith) in (k, rw (ea, eb, x) e)
      | inr x ↦ (i, rw (ea, eb, x) refl)
    ]

ends_with_total : (path end : Bytes) → (b : Bool) × (ends_with path end ≡ ok b)
unfolding ends_with
ends_with_total path end = elim (Bool-cases (ltb (length path) (length end))) [
  | inl e ↦ (false, rw e refl)
  | inr e ↦
      let (k, q) = ends_loop_total path end (length end + 1) 0 (ground arith) (omega arith) in
      (k - 1 == length end, rw (e, q) refl)
]

ends_with-append : (front end : Bytes) → ends_with (front ++ end) end ≡ ok true
unfolding ends_with
ends_with-append front end =
    let short : ltb (length (front ++ end)) (length end) ≡ false =
      ground (arith, length-append front end) in
    rw
      (
        short,
        ends_loop-append front end end (length end + 1) 0 refl (omega arith),
        ends_loop_refl end (length end + 1) 0 (omega arith),
      )
      (ap ok (ground arith))

-- Texts of one length, where the loop gets to its end.
back-eq :
    (back end : Bytes)
    → length back ≡ length end
    → ends_loop (length end + 1) 0 back end ≡ ok (0 + (length end + 1))
    → back ≡ end
back-eq back end l h = agree-eq back end l λ k below.
    let e1 : length back - (length back - k) ≡ k = omega arith in
    let e2 : length end - (length back - k) ≡ k = omega arith in
    rw (e1, e2) at
      (ends_loop-agree back end (length end + 1) 0 (length back - k) h (omega arith) (omega arith))

ends_with-long :
    (path end : Bytes)
    → 0 < length end
    → ends_with path end ≡ ok true
    → (front : Bytes) × (path ≡ front ++ end)
unfolding ends_with
ends_with-long path end pos h = elim (Bool-cases (ltb (length path) (length end))) [
  | inl e ↦ let h' = rw e at h in cc
  | inr e ↦
      let (i, loop, q) = >>=-eq-ok (ends_loop (length end + 1) 0 path end) _ (rw e at h) in
      let q' : (i - 1 == length end) ≡ true = cc in
      let i-eq : i ≡ 0 + (length end + 1) = ground arith in
      let (front, back, s, l) = split_at path (length path - length end) (ground arith) in
      let same : length back ≡ length end = ground (arith, length-append front back, ap length s) in
      let moved =
        sym (ends_loop-append front back end (length end + 1) 0 same (omega arith))
        ∙ ap (λ p. ends_loop (length end + 1) 0 p end) (sym s)
        ∙ loop
        ∙ ap ok i-eq in
      (front, s ∙ ap (λ b. front ++ b) (back-eq back end same moved))
]

ends_with_sound :
    (path end : Bytes) → ends_with path end ≡ ok true → (front : Bytes) × (path ≡ front ++ end)
ends_with_sound path [] h = (path, sym (append-nil path))
ends_with_sound path (c ∷ end) h = ends_with-long path (c ∷ end) (omega arith) h

-- The test is answered on every path, with no read outside the strings, and a path ends with a text
-- exactly when the text is its back.
pub ends_with_iff :
    (path end : Bytes)
    → ((b : Bool) × (ends_with path end ≡ ok b))
      × ((ends_with path end ≡ ok true) ↔ ((front : Bytes) × (path ≡ front ++ end)))
ends_with_iff path end = (
  ends_with_total path end,
  (ends_with_sound path end, λ (front, e). rw e (ends_with-append front end)),
)

-- The path of a source file gets the extension exactly once: the result ends with it, and is left as it
-- is by a second addition.
add_extension_once :
    (path : Bytes)
    → (path' : Bytes) × (add_extension path ≡ ok path')
      × (add_extension path' ≡ ok path')
      × ((front : Bytes) × (path' ≡ front ++ codes ".luka"))
unfolding add_extension
add_extension_once path = go (ends_with_total path (codes ".luka"))
  where
    go :
        (b : Bool) × (ends_with path (codes ".luka") ≡ ok b)
        → (path' : Bytes) × (add_extension path ≡ ok path')
          × (add_extension path' ≡ ok path')
          × ((front : Bytes) × (path' ≡ front ++ codes ".luka"))
    go (true, e) = (path, rw e refl, rw e refl, ends_with_sound path (codes ".luka") e)
    go (false, e) = (
      path ++ codes ".luka",
      rw e refl,
      rw (ends_with-append path (codes ".luka")) refl,
      (path, refl),
    )
