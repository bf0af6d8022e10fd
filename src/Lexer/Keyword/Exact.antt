-- ===== src/Lexer/Keyword/Exact.antt =====
-- `lexer_is_keyword` finds exactly the entries of the table.
use luka.Prelude.{
  ℕ, zero, suc, ◌+◌, ◌≡◌, ◌↔◌, refl, Bool, true, false, List, [], ◌∷◌, none, some, arith, ◌==◌,
  if◌then◌else◌, Bool-cases, inl, inr, Bytes, str_eq, str_eq_iff, get_elem?,
}
use luka.Token.{keywords}
use luka.Lexer.Keyword.{find_keyword, is_keyword}

-- A hit is an entry of the table, `j` places behind the start.
find_keyword_sound :
    (s : Bytes) (n i : ℕ) (ks : List Bytes)
    → find_keyword s n ks ≡ some i
    → (j : ℕ) × (i ≡ n + j) × (get_elem? ks j ≡ some s)
unfolding find_keyword
find_keyword_sound s n i [] h = cc
find_keyword_sound s n i (k ∷ ks) h = elim (Bool-cases (str_eq s k)) [
  | inl e ↦ let h' = rw e at h in (0, ground arith, ground (arith, str_eq_iff s k))
  | inr e ↦ let (j, p, q) = find_keyword_sound s (suc n) i ks (rw e at h) in (suc j, omega arith, q)
]

-- Every entry of the rest of the table, which starts at index `n`, is found at its own index.
numbered : ℕ → List Bytes → Bool
numbered n [] = true
numbered n (k ∷ ks) =
    let rest = numbered (n + 1) ks in
    elim (is_keyword k) [ none ↦ false | some j ↦ if j == n then rest else false ]

numbered_sound :
    (n : ℕ) (ks : List Bytes) (i : ℕ) {s : Bytes}
    → get_elem? ks i ≡ some s
    → numbered n ks ≡ true
    → is_keyword s ≡ some (n + i)
unfolding numbered
numbered_sound n [] i e h = cc
numbered_sound n (k ∷ ks) zero e h = ground arith
numbered_sound n (k ∷ ks) (suc i) e h = ground (arith, numbered_sound (n + 1) ks i e)

keywords-numbered : numbered 0 keywords ≡ true
unfolding numbered is_keyword
keywords-numbered = refl

-- `lexer_is_keyword` returns index `i` exactly when the identifier is entry `i` of the table.
pub is_keyword-get_elem? :
    (s : Bytes) (i : ℕ) → (is_keyword s ≡ some i) ↔ (get_elem? keywords i ≡ some s)
is_keyword-get_elem? s i = (sound, complete)
  where
    sound : is_keyword s ≡ some i → get_elem? keywords i ≡ some s
    sound h =
        let (j, p, q) = find_keyword_sound s 0 i keywords (unfold is_keyword in h) in
        let e : i ≡ j = omega arith in rw e q

    complete : get_elem? keywords i ≡ some s → is_keyword s ≡ some i
    complete h = ground (arith, numbered_sound 0 keywords i h keywords-numbered)
