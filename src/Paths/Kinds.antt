-- ===== src/Paths/Kinds.antt =====
-- What the tests on paths mean.
use luka.Prelude.{
  suc, ◌+◌, ◌≡◌, ◌↔◌, refl, arith, true, false, [], ◌∷◌, ◌++◌, Bytes, length, length-append, ◌==◌,
  ==_iff, Bool-cases, inl, inr,
}
use luka.Lexer.Ctype.{is_alpha}
use luka.Paths.{matched, starts_with, is_absolute, is_relative}

matched_all : (start rest : Bytes) → matched (start ++ rest) start ≡ length start
unfolding matched
matched_all [] rest = refl
matched_all (s ∷ start) rest = ground (arith, matched_all start rest)

matched_sound :
    (path start : Bytes)
    → matched path start ≡ length start
    → (rest : Bytes) × (path ≡ start ++ rest)
unfolding matched
matched_sound path [] h = (path, refl)
matched_sound [] (s ∷ start) h = absurd (omega arith)
matched_sound (p ∷ path) (s ∷ start) h = elim (Bool-cases (p == s)) [
  | inl e ↦
      let h' : suc (matched path start) ≡ length start + 1 = ground arith in
      let (rest, q) = matched_sound path start (omega arith) in
      let same = (==_iff p s).0 e in (rest, cc)
  | inr e ↦ absurd (ground arith)
]

-- A path starts with a text exactly when the text is its front.
pub starts_with_iff :
    (path start : Bytes)
    → (starts_with path start ≡ true) ↔ ((rest : Bytes) × (path ≡ start ++ rest))
unfolding starts_with
starts_with_iff path start = (
  (λ h. matched_sound path start (ground arith)),
  (λ (rest, e). rw e (ground (arith, matched_all start rest, length-append start rest))),
)

-- No path is both absolute and relative.
pub is_absolute-is_relative : (path : Bytes) → is_absolute path ≡ true → is_relative path ≡ false
unfolding is_absolute is_relative starts_with is_alpha
is_absolute-is_relative [] h = cc
is_absolute-is_relative (a ∷ []) h = ground arith
is_absolute-is_relative (a ∷ b ∷ []) h = ground arith
is_absolute-is_relative (a ∷ b ∷ c ∷ path) h = ground arith
