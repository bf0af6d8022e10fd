-- ===== src/Lexer/Tokenize.antt =====
-- src/lexer.c: `LEXER_tokenize_source`, its loop. The vector of tokens is a parameter: `push_back`
-- stands for `vector_push_back`, and gives nothing where that reports a failure.
pub mod RoundTrip
pub mod Safe
use luka.Prelude.{
  ℕ, zero, suc, ◌+◌, Bool, [], ◌∷◌, ◌++◌, Option, none, some, Bytes, ◌==◌, if◌then◌else◌, length,
  drop,
}
use luka.ReturnCode.{Outcome, ok, returned, vector_failure, out_of_fuel, ◌>>=◌}
use luka.Token.{Token}
use luka.Lexer.Ctype.{is_space, terminator}
use luka.Lexer.Scan.{Lexeme, lexeme, comment, lex_token}

-- The local variables that survive a round, but for `i`: that is the rest of the memory.
pub record Position : Type 0 where
  pub line : ℕ
  pub offset : ℕ

-- The head of the loop's body: count the byte, and start a new line at a newline.
unfoldable pub count_byte : ℕ → Position → Position
count_byte c p =
    if c == b'\n'
    then record { line = p.line + 1; offset = 0 }
    else record { line = p.line; offset = p.offset + 1 }

-- `offset` moves with `i`.
abbrev pub move : ℕ → Position → Position
move k p = record p { offset = p.offset + k }

module _ {V : Type 0} (push_back : V → Token → Option V) (file_path : Bytes) where
  abbrev pub pushed : Option V → Outcome V
  pushed none = returned vector_failure
  pushed (some v) = ok v

  -- What is pushed and where the loop goes on, after the `switch` at position `p`.
  unfoldable pub push_lexeme : Position → V → Lexeme → Outcome V
  push_lexeme p v (comment k) = ok v
  push_lexeme p v (lexeme t s k) = pushed (
      push_back v
        (record { line = p.line; offset = p.offset; type = t; content = s; file_path = file_path }))

abbrev pub moved : Lexeme → ℕ
moved (comment k) = k
moved (lexeme t s k) = k

module _ {V : Type 0} (push_back : V → Token → Option V) (file_path : Bytes) where
  -- A round for each byte or lexeme, while `i < length`: while more than the terminator is left.
  unfoldable pub tokenize_loop : ℕ → Position → V → Bytes → Outcome V
  tokenize_loop fuel p v [] = ok v
  tokenize_loop fuel p v (c ∷ []) = ok v
  tokenize_loop zero p v (c ∷ d ∷ w) = out_of_fuel
  tokenize_loop (suc fuel) p v (c ∷ d ∷ w) =
      let here = count_byte c p in
      let blank = tokenize_loop fuel here v (d ∷ w) in
      let solid = (do
        l ← lex_token c (c ∷ d ∷ w)
        v' ← push_lexeme push_back file_path here v l
        tokenize_loop fuel (move (moved l) here) v' (drop (moved l) (d ∷ w))) in
      if is_space c then blank else solid

  -- A round for each byte of the source is enough.
  unfoldable pub tokenize_source : V → Bytes → Outcome V
  unfolding tokenize_loop
  tokenize_source v source =
      tokenize_loop (length source) (record { line = 1; offset = 0 }) v (source ++ terminator)
