-- ===== src/Lexer/Identifier/Exact.antt =====
-- What `lexer_lex_identifier` does on every string: it reads the longest name.
use luka.Prelude.{
  ℕ, ◌+◌, ◌-◌, ◌≡◌, refl, ap, Bool, true, false, [], ◌∷◌, ◌++◌, arith, append_assoc, append-nil,
  if◌then◌else◌, Bool-cases, inl, inr, Bytes, length,
}
use luka.ReturnCode.{Outcome, ok}
use luka.Lexer.Ctype.{terminator}
use luka.Lexer.Identifier.{is_ident_start, is_ident_part, lex_identifier}
use luka.Lexer.Runs.{Passes, Stops, split, count_while-append, take-append}

-- A name: a letter or `_`, then letters, digits and `_`.
abbrev pub IsName : Bytes → Type 0
IsName [] = ⊥
IsName (c ∷ s) = (is_ident_start c ≡ true) × Passes is_ident_part s

abbrev pub marked : Bool → Bytes → Bytes
marked builtin name = if builtin then b'@' ∷ name else name

-- A name with a byte behind it that is no part of one.
pub lex_identifier-name :
    (name : Bytes) (c : ℕ) (w : Bytes) (builtin : Bool)
    → IsName name
    → is_ident_part c ≡ false
    → lex_identifier (name ++ c ∷ w) builtin ≡ ok (marked builtin name, length name - 1)
unfolding lex_identifier
lex_identifier-name [] c w builtin h s = absurd h
lex_identifier-name (x ∷ name) c w builtin h s =
    rw
      (
        h.0,
        count_while-append is_ident_part name c w h.1 s,
        take-append (x ∷ name) (c ∷ w) 0 (length name + 1) (omega arith),
        append-nil,
      )
      (ap (λ k. ok (marked builtin (x ∷ name), k)) (omega arith))

lex_identifier-left :
    (name left : Bytes) (builtin : Bool)
    → IsName name
    → Stops is_ident_part left
    → lex_identifier (name ++ (left ++ terminator)) builtin
      ≡ ok (marked builtin name, length name - 1)
unfolding is_ident_part
lex_identifier-left name [] builtin h s = lex_identifier-name name 0 [] builtin h refl
lex_identifier-left name (c ∷ left) builtin h s =
    lex_identifier-name name c (left ++ terminator) builtin h s

-- The outcome on a string: the longest name in its front or, if none starts there, the empty text.
pub data NameOutcome (s : Bytes) (builtin : Bool) (r : Outcome (Bytes × ℕ)) : Type 0 where
  named :
      (name left : Bytes)
      → s ≡ name ++ left
      → IsName name
      → Stops is_ident_part left
      → r ≡ ok (marked builtin name, length name - 1)
      → NameOutcome s builtin r
  unnamed : Stops is_ident_start s → r ≡ ok ([], 0) → NameOutcome s builtin r

module _ (c : ℕ) (builtin : Bool) (h : is_ident_start c ≡ true) where
  named-outcome :
      (run left : Bytes)
      → Passes is_ident_part run
      → Stops is_ident_part left
      → NameOutcome
          (c ∷ (run ++ left))
          builtin
          (lex_identifier (c ∷ ((run ++ left) ++ terminator)) builtin)
  named-outcome run left p s =
      named (c ∷ run) left refl (h, p) s
        (rw append_assoc (lex_identifier-left (c ∷ run) left builtin (h, p) s))

-- On every string `lexer_lex_identifier` returns the longest name in front, with `@` for a builtin, and
-- the distance to its last byte; where no name starts it returns the empty text and stays. It reads
-- nothing behind the terminator.
pub lex_identifier-outcome :
    (s : Bytes) (builtin : Bool) → NameOutcome s builtin (lex_identifier (s ++ terminator) builtin)
lex_identifier-outcome [] builtin = unnamed tt (unfold lex_identifier is_ident_start in refl)
lex_identifier-outcome (c ∷ s) builtin = elim (Bool-cases (is_ident_start c)) [
  | inl h ↦
      let sp = split is_ident_part s in
      rw sp.splits (named-outcome c builtin h sp.run sp.left sp.passes sp.stops)
  | inr h ↦ unnamed h (unfold lex_identifier in rw h)
]
