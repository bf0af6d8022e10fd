-- ===== src/Lexer/Tokenize/RoundTrip.antt =====
-- Written tokens, separated by white space, are read back with their positions.
use luka.Prelude.{
  Bool-cases, inl, inr, ◌==◌, if◌then◌else◌, ℕ, zero, suc, ◌+◌, ◌-◌, ◌≤◌, ◌<◌, ◌≡◌, refl, sym, ap,
  ◌∙◌, true, false, List, [], ◌∷◌, ◌++◌, Option, some, arith, append_assoc, append-nil,
  if◌then◌else◌, Bytes, length, length-append, drop, All,
}
use luka.ReturnCode.{ok, ◌>>=◌}
use luka.Token.{TokType, Token}
use luka.Lexer.Ctype.{is_space, terminator}
use luka.Lexer.Runs.{Passes, drop-append}
use luka.Lexer.Scan.{lex_token}
use luka.Lexer.Scan.Spelling.{Spells, Scans}
use luka.Lexer.Scan.Spelled.{Spells-Scans}
use luka.Lexer.Tokenize.{
  Position, count_byte, move, moved, push_lexeme, tokenize_loop, tokenize_source,
}

-- A written token and the white space behind it, which is not empty.
pub record Piece : Type 0 where
  pub type : TokType
  pub content : Bytes
  pub text : Bytes
  pub space : ℕ
  pub spaces : Bytes

pub record IsPiece (x : Piece) : Type 0 where
  pub spelled : Spells x.type x.content x.text
  pub first_space : is_space x.space ≡ true
  pub more_space : Passes is_space x.spaces

abbrev pub render : List Piece → Bytes
render [] = []
render (x ∷ xs) = x.text ++ x.space ∷ (x.spaces ++ render xs)

-- The position behind some bytes of white space: each newline is a new line, whose columns count from
-- one.
abbrev pub after_space : Position → Bytes → Position
after_space p [] = p
after_space p (c ∷ s) =
    let same_line = after_space (record p { offset = p.offset + 1 }) s in
    let new_line = after_space (record { line = suc p.line; offset = 0 }) s in
    if c == b'\n' then new_line else same_line

after_space-count_byte :
    (c : ℕ) (p : Position) (s : Bytes) → after_space (count_byte c p) s ≡ after_space p (c ∷ s)
unfolding count_byte
after_space-count_byte c p s = elim (Bool-cases (c == b'\n')) [
  | inl e ↦ rw e (ap (λ (n : ℕ). after_space (record { line = n; offset = 0 }) s) (omega arith))
  | inr e ↦ rw e refl
]

-- The tokens that the pieces stand for, from position `p` on.
abbrev pub tokens_of : Bytes → Position → List Piece → List Token
tokens_of file p [] = []
tokens_of file p (x ∷ xs) =
    record {
      line = p.line;
      offset = p.offset + 1;
      type = x.type;
      content = x.content;
      file_path = file;
    }
    ∷ tokens_of file (after_space (move (length x.text) p) (x.space ∷ x.spaces)) xs

module _ {V : Type 0} (push_back : V → Token → Option V) (file : Bytes) where
  -- One round.
  pub loop-step :
      (f : ℕ) (p : Position) (v : V) (c : ℕ) (u : Bytes)
      → 0 < length u
      → tokenize_loop push_back file (suc f) p v (c ∷ u) ≡ (
          let here = count_byte c p in
          let blank = tokenize_loop push_back file f here v u in
          let solid =
            (lex_token c (c ∷ u) >>= λ l. push_lexeme push_back file here v l >>= λ v'.
            tokenize_loop push_back file f (move (moved l) here) v' (drop (moved l) u)) in
          if is_space c then blank else solid)
  unfolding tokenize_loop
  loop-step f p v c [] h = absurd (omega arith)
  loop-step f p v c (d ∷ u) h = refl

  loop-space :
      (s : Bytes) (f f' : ℕ) (p : Position) (v : V) (u : Bytes)
      → Passes is_space s
      → 0 < length u
      → f ≡ length s + f'
      → tokenize_loop push_back file f p v (s ++ u)
        ≡ tokenize_loop push_back file f' (after_space p s) v u
  loop-space [] f f' p v u h n e = let e' : f ≡ f' = omega arith in rw e'
  loop-space (x ∷ s) zero f' p v u h n e = absurd (omega arith)
  loop-space (x ∷ s) (suc f) f' p v u h n e =
      loop-step f p v x (s ++ u) (omega (arith, length-append s u))
      ∙ rw h.0 (
          loop-space s f f' (count_byte x p) v u h.1 n (omega arith)
          ∙ ap (λ q. tokenize_loop push_back file f' q v u) (after_space-count_byte x p s))

count_byte-solid :
    (c : ℕ) (p : Position)
    → is_space c ≡ false
    → count_byte c p ≡ record { line = p.line; offset = p.offset + 1 }
unfolding count_byte is_space
count_byte-solid c p h = ground arith

-- The token of a piece at position `p`.
abbrev token_at : Bytes → Position → TokType → Bytes → Token
token_at file p t content = record {
  line = p.line;
  offset = p.offset + 1;
  type = t;
  content = content;
  file_path = file;
}

module _ {V : Type 0} (push_back : V → Token → Option V) (file : Bytes) where
  loop-token :
      (t : TokType) (content text : Bytes) (f : ℕ) (p : Position) (v v' : V) (g : ℕ) (w : Bytes)
      → Scans t content text
      → is_space g ≡ true
      → push_back v (token_at file p t content) ≡ some v'
      → tokenize_loop push_back file (suc f) p v (text ++ g ∷ w)
        ≡ tokenize_loop push_back file f (move (length text) p) v' (g ∷ w)
  unfolding push_lexeme
  loop-token t content [] f p v v' g w h space pushed = absurd h
  loop-token t content (c ∷ text) f p v v' g w h space pushed =
      let (solid, read) = h g w space in
      loop-step push_back file f p v c (text ++ g ∷ w) (omega (arith, length-append text (g ∷ w)))
      ∙ rw
          (
            solid,
            read,
            count_byte-solid c p solid,
            pushed,
            drop-append text (g ∷ w) 0 (length text) (omega arith),
          )
          (ap
            (λ (o : ℕ).
              tokenize_loop push_back file f (record { line = p.line; offset = o }) v' (g ∷ w))
            (omega arith))

Scans-pos : (t : TokType) (content text : Bytes) → Scans t content text → 0 < length text
Scans-pos t content [] h = absurd h
Scans-pos t content (c ∷ text) h = omega arith

-- The vector's contents, and that every push succeeds and appends.
module _ {V : Type 0} (push_back : V → Token → Option V) (file : Bytes) (contents : V → List Token)
    (pushes : (v : V) (t : Token)
      → (v' : V) × (push_back v t ≡ some v') × (contents v' ≡ contents v ++ t ∷ [])) where
  abbrev Reads : ℕ → Position → V → Bytes → List Token → Type 0
  Reads f p v w ts =
      (v' : V) × (tokenize_loop push_back file f p v w ≡ ok v') × (contents v' ≡ contents v ++ ts)

  loop-pieces :
      (xs : List Piece) (f : ℕ) (p : Position) (v : V)
      → All IsPiece xs
      → length (render xs) ≤ f
      → Reads f p v (render xs ++ terminator) (tokens_of file p xs)
  loop-pieces [] f p v h e = (v, unfold tokenize_loop in refl, sym (append-nil (contents v)))
  loop-pieces (x ∷ xs) zero p v h e =
      absurd (omega (arith, length-append x.text (x.space ∷ (x.spaces ++ render xs))))
  loop-pieces (x ∷ xs) (suc f) p v h e =
      let (v₁, pushed, appended) = pushes v (token_at file p x.type x.content) in
      let scans = Spells-Scans h.0.spelled in
      let gap = x.space ∷ x.spaces in
      let behind = render xs ++ terminator in
      let rounds : length x.text + length gap + length (render xs) ≤ suc f =
        omega (arith, length-append x.text (gap ++ render xs), length-append gap (render xs)) in
      let left = f - length gap in
      let positive = Scans-pos x.type x.content x.text scans in
      let (v₂, rest, all) =
        loop-pieces xs left (after_space (move (length x.text) p) gap) v₁ h.1 (omega arith) in
      (
        v₂,
        rw (append_assoc x.text, append_assoc x.spaces)
            (loop-token push_back file x.type x.content x.text f p v v₁ x.space (x.spaces ++ behind)
                scans h.0.first_space pushed
              ∙ loop-space push_back file gap f left (move (length x.text) p) v₁ behind
                  (h.0.first_space, h.0.more_space)
                  (omega (arith, length-append (render xs) terminator)) (omega arith)
              ∙ rest),
        all ∙ rw (appended, append_assoc),
      )

  -- Written tokens with white space behind each, and in front of the first, are read back: each as its
  -- own token, at the line and the column of its first byte, in order, behind what the vector held.
  pub tokenize_source-render :
      (v : V) (gap : Bytes) (xs : List Piece)
      → Passes is_space gap
      → All IsPiece xs
      → (v' : V) × (tokenize_source push_back file v (gap ++ render xs) ≡ ok v')
        × (contents v'
            ≡ contents v ++ tokens_of file (after_space (record { line = 1; offset = 0 }) gap) xs)
  unfolding tokenize_source
  tokenize_source-render v gap xs h hs =
      let start : Position = record { line = 1; offset = 0 } in
      let n = length (gap ++ render xs) in
      let (v', run, all) =
        loop-pieces xs (n - length gap) (after_space start gap) v hs
          (omega (arith, length-append gap (render xs))) in
      (
        v',
        rw (append_assoc gap) (
            loop-space push_back file gap n (n - length gap) start v (render xs ++ terminator) h
              (omega (arith, length-append (render xs) terminator))
              (omega (arith, length-append gap (render xs)))
            ∙ run),
        all,
      )
