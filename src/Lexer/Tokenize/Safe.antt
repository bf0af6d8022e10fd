-- ===== src/Lexer/Tokenize/Safe.antt =====
-- Where the tokenizer stays within the source's memory, and where it does not.
use luka.Prelude.{
  ℕ, zero, suc, ◌+◌, ◌≡◌, ◌≢◌, ◌⊎◌, refl, Bool, true, false, [], ◌∷◌, ◌++◌, Option, arith, ◌==◌,
  if-ne, inl, inr, Bytes, length, length-append, drop, All,
}
use luka.ReturnCode.{Outcome, ok, fault, >>=-ne-fault}
use luka.Token.{
  Token, t_colon, t_double_colon, t_equals, t_eqeq, t_open_ang, t_leq, t_shl, t_close_ang, t_geq,
  t_shr, t_bang, t_neq, TokType,
}
use luka.Lexer.Ctype.{is_space, terminator}
use luka.Lexer.Identifier.{lex_identifier}
use luka.Lexer.Identifier.Exact.{NameOutcome, named, unnamed, lex_identifier-outcome}
use luka.Lexer.Number.{lex_number}
use luka.Lexer.Number.Exact.{NumberOutcome, whole, fraction, broken, lex_number-outcome}
use luka.Lexer.Scan.{
  Lexeme, lexeme, comment, comment_length, two_chars, one_or_two, lex_slash, lex_dot, lex_builtin,
  lex_default, lex_longer, lex_token, eof_byte,
}
use luka.Lexer.Tokenize.{Position, count_byte, push_lexeme, moved, tokenize_loop, tokenize_source}
use luka.Lexer.Tokenize.RoundTrip.{loop-step}

-- Bytes that open neither a comment nor a quoted text.
abbrev pub IsSafe : ℕ → Type 0
IsSafe c = ((c == b'/') ≡ false) × ((c == b'"') ≡ false) × ((c == b'\'') ≡ false)

abbrev Safely {ℓ} : {A : Type ℓ} → Outcome A → Type ℓ
Safely r = r ≢ fault

lex_number-Safely : (d : ℕ) (s : Bytes) → Safely (lex_number (d ∷ s ++ terminator))
lex_number-Safely d s = go (lex_number-outcome d s)
  where
    go : {r : Outcome (Bytes × ℕ)} → NumberOutcome d s r → Safely r
    go (whole ds left e p q l h) = rw h (cc)
    go (fraction ds f fs left e p q l h) = rw h (cc)
    go (broken ds left e p q h) = rw h (cc)

lex_identifier-Safely :
    (s : Bytes) (builtin : Bool) → Safely (lex_identifier (s ++ terminator) builtin)
lex_identifier-Safely s builtin = go (lex_identifier-outcome s builtin)
  where
    go : {r : Outcome (Bytes × ℕ)} → NameOutcome s builtin r → Safely r
    go (named name left e h q l) = rw l (cc)
    go (unnamed h l) = rw l (cc)

module _ (c : ℕ) where
  two_chars-Safely :
      (s : Bytes) (t : TokType) (d : ℕ) (td : TokType) (e : ℕ) (te : TokType)
      → Safely (two_chars c (c ∷ (s ++ terminator)) t d td e te)
  unfolding two_chars
  two_chars-Safely [] t d td e te = cc
  two_chars-Safely (x ∷ s) t d td e te = cc

  lex_dot-Safely : (s : Bytes) → Safely (lex_dot (c ∷ (s ++ terminator)))
  unfolding lex_dot
  lex_dot-Safely [] = cc
  lex_dot-Safely (x ∷ []) = ground arith
  lex_dot-Safely (x ∷ y ∷ s) = ground arith

  lex_builtin-Safely : (s : Bytes) → Safely (lex_builtin (c ∷ (s ++ terminator)))
  unfolding lex_builtin
  lex_builtin-Safely s = ground (arith, lex_identifier-Safely s true)

  lex_default-Safely : (s : Bytes) → Safely (lex_default c (c ∷ (s ++ terminator)))
  unfolding lex_default
  lex_default-Safely s = ground (arith, lex_number-Safely c s, lex_identifier-Safely (c ∷ s) false)

  lex_longer-Safely : (s : Bytes) → IsSafe c → Safely (lex_longer c (c ∷ (s ++ terminator)))
  unfolding lex_longer one_or_two
  lex_longer-Safely s (slash, quote, tick) =
      rw (slash, quote, tick)
        (if-ne (c == b':') (two_chars-Safely s t_colon b':' t_double_colon b':' t_double_colon) (
          if-ne (c == b'=') (two_chars-Safely s t_equals b'=' t_eqeq b'=' t_eqeq) (
            if-ne (c == b'<') (two_chars-Safely s t_open_ang b'=' t_leq b'<' t_shl) (
              if-ne (c == b'>') (two_chars-Safely s t_close_ang b'=' t_geq b'>' t_shr) (
                if-ne (c == b'!') (two_chars-Safely s t_bang b'=' t_neq b'=' t_neq) (
                  if-ne (c == b'.') (lex_dot-Safely s) (
                    if-ne (c == b'@') (lex_builtin-Safely s)
                      (if-ne (c == eof_byte) (λ e. cc) (lex_default-Safely s)))))))))

  lex_token-Safely : (s : Bytes) → IsSafe c → Safely (lex_token c (c ∷ (s ++ terminator)))
  unfolding lex_token
  lex_token-Safely s h = ground (arith, lex_longer-Safely s h)

-- What is left of a safe source after a jump: a safe source, or nothing at all.
drop-terminator :
    (k : ℕ) (s : Bytes)
    → All IsSafe s
    → ((r : Bytes) × (drop k (s ++ terminator) ≡ r ++ terminator) × All IsSafe r)
      ⊎ (drop k (s ++ terminator) ≡ [])
drop-terminator zero s h = inl (s, refl, h)
drop-terminator (suc k) [] h = inr (drop-nil k)
  where
    drop-nil : (k : ℕ) → drop {A = ℕ} k [] ≡ []
    drop-nil zero = refl
    drop-nil (suc k) = refl
drop-terminator (suc k) (c ∷ s) h = drop-terminator k s h.1

module _ {V : Type 0} (push_back : V → Token → Option V) (file : Bytes) where
  push_lexeme-Safely :
      (p : Position) (v : V) (l : Lexeme) → Safely (push_lexeme push_back file p v l)
  unfolding push_lexeme
  push_lexeme-Safely p v (comment k) = cc
  push_lexeme-Safely p v (lexeme t s k) = ground arith

  loop-Safely :
      (f : ℕ) (p : Position) (v : V) (s : Bytes)
      → All IsSafe s
      → Safely (tokenize_loop push_back file f p v (s ++ terminator))
  loop-Safely f p v [] h = unfold tokenize_loop in cc
  loop-Safely zero p v (c ∷ []) h = unfold tokenize_loop in cc
  loop-Safely zero p v (c ∷ d ∷ s) h = unfold tokenize_loop in cc
  loop-Safely (suc f) p v (c ∷ s) h =
      rw
        (loop-step push_back file f p v c (s ++ terminator)
          (omega (arith, length-append s terminator)))
        (if-ne (is_space c) (loop-Safely f (count_byte c p) v s h.1) (
          >>=-ne-fault (lex_token c (c ∷ (s ++ terminator))) _ (lex_token-Safely c s h.0) λ l.
            >>=-ne-fault (push_lexeme push_back file (count_byte c p) v l) _
              (push_lexeme-Safely (count_byte c p) v l)
              λ v'. elim (drop-terminator (moved l) s h.1) [
                | inl (r, e, safe) ↦ rw e (loop-Safely f _ v' r safe)
                | inr e ↦ rw e (unfold tokenize_loop in cc)
              ]))

  -- A source with no slash and no quote of either kind is tokenized without a read outside its memory,
  -- whatever its bytes, and whether the run succeeds or ends in an error.
  pub tokenize_source-ne-fault :
      (v : V) (source : Bytes) → All IsSafe source → tokenize_source push_back file v source ≢ fault
  unfolding tokenize_source
  tokenize_source-ne-fault v source h =
      loop-Safely (length source) (record { line = 1; offset = 0 }) v source h

comment_length-line :
    (s w : Bytes) → All (λ c. c ≢ b'\n') s → comment_length (s ++ b'\n' ∷ w) ≡ ok (length s)
unfolding comment_length
comment_length-line [] w h = refl
comment_length-line (c ∷ s) w h = rw (comment_length-line s w h.1) (ground arith)

comment_length-last :
    (s : Bytes) → All (λ c. c ≢ b'\n') s → comment_length (s ++ terminator) ≡ fault
unfolding comment_length
comment_length-last [] h = refl
comment_length-last (c ∷ s) h = rw (comment_length-last s h.1) (ground arith)

-- A comment is passed over up to its newline; on the last line of a source, with no newline behind it,
-- the loop that passes it over runs out of the source's memory.
pub lex_slash-comment :
    (s : Bytes)
    → All (λ c. c ≢ b'\n') s
    → ((w : Bytes) → lex_slash (b'/' ∷ b'/' ∷ (s ++ b'\n' ∷ w)) ≡ ok (comment (length s + 1)))
      × (lex_slash (b'/' ∷ b'/' ∷ (s ++ terminator)) ≡ fault)
unfolding lex_slash
lex_slash-comment s h = (λ w. rw (comment_length-line s w h), rw (comment_length-last s h))
