-- ===== src/Examples/Lexer.antt =====
-- The theorems on src/lexer.c and on `LIB_stringify`, each at a concrete source.
use luka.Prelude.{
  arith, ℕ, ◌≡◌, ◌≢◌, refl, true, List, [], ◌∷◌, ◌++◌, map, Option, some, Bytes, codes, get_elem?,
  length, All,
}
use luka.ReturnCode.{ok, fault}
use luka.Token.{
  keyword_types, Token, keywords, t_fn, t_identifier, t_open_paren, t_number, t_string, t_builtin,
}
use luka.Lexer.Ctype.{terminator, is_digit, is_space}
use luka.Lexer.Number.{lex_number}
use luka.Lexer.Number.Exact.{NumberOutcome, lex_number-outcome}
use luka.Lexer.Identifier.{lex_identifier, is_ident_start, is_ident_part}
use luka.Lexer.Identifier.Exact.{IsName, NameOutcome, lex_identifier-outcome}
use luka.Lexer.Keyword.{is_keyword}
use luka.Lexer.Keyword.Exact.{is_keyword-get_elem?}
use luka.Lexer.Quoted.{measure, lex_string}
use luka.Lexer.Quoted.Passes.{lex_string-measure}
use luka.Lexer.Quoted.Steps.{lex_string-unclosed}
use luka.Lexer.Scan.{comment, lex_slash}
use luka.Lexer.Scan.Spelling.{symbol, keyword, name, single, string, builtin}
use luka.Lexer.Tokenize.{tokenize_source}
use luka.Lexer.Tokenize.RoundTrip.{
  Piece, IsPiece, render, tokens_of, after_space, tokenize_source-render,
}
use luka.Lexer.Tokenize.Safe.{tokenize_source-ne-fault, lex_slash-comment}
use luka.Stringify.{stringify}
use luka.Stringify.RoundTrip.{lex_string-stringify, reread}

-- A vector as the list of what it holds: every push succeeds.
abbrev push_token : List Token → Token → Option (List Token)
push_token v t = some (v ++ t ∷ [])

abbrev file : Bytes
file = codes "f"

main-IsName : IsName (codes "main")
unfolding is_ident_start is_ident_part
main-IsName = (refl, (refl, (refl, (refl, tt))))

main-ne-keyword : (i : ℕ) → get_elem? keywords i ≢ some (codes "main")
unfolding is_keyword
main-ne-keyword i e = let h = (is_keyword-get_elem? (codes "main") i).1 e in cc

abbrev pieces : List Piece
pieces =
    record { type = t_fn; content = codes "fn"; text = codes "fn"; space = b' '; spaces = [] }
    ∷ record {
      type = t_identifier;
      content = codes "main";
      text = codes "main";
      space = b'\n';
      spaces = b' ' ∷ [];
    }
    ∷ record {
      type = t_open_paren;
      content = codes "(";
      text = codes "(";
      space = b' ';
      spaces = [];
    }
    ∷ record {
      type = t_number;
      content = codes "4.2";
      text = codes "4.2f";
      space = b' ';
      spaces = [];
    }
    ∷ record {
      type = t_string;
      content = codes "a\t";
      text = b'"' ∷ (stringify (codes "a\t") ++ b'"' ∷ []);
      space = b'\n';
      spaces = [];
    }
    ∷ record {
      type = t_builtin;
      content = b'@' ∷ codes "main";
      text = b'@' ∷ codes "main";
      space = b'\n';
      spaces = [];
    }
    ∷ []

pieces-IsPiece : All IsPiece pieces
unfolding is_space is_digit keywords keyword_types
pieces-IsPiece = (
  record { spelled = keyword 0 t_fn (codes "fn") refl refl; first_space = refl; more_space = tt },
  (
    record {
      spelled = name (codes "main") main-IsName main-ne-keyword;
      first_space = refl;
      more_space = (refl, tt);
    },
    (
      record { spelled = symbol 0 t_open_paren "(" refl; first_space = refl; more_space = tt },
      (
        record {
          spelled = single b'4' [] b'2' [] (refl, tt) (refl, tt);
          first_space = refl;
          more_space = tt;
        },
        (
          record {
            spelled = string (codes "a\t") ((λ e. cc), ((λ e. cc), tt));
            first_space = refl;
            more_space = tt;
          },
          (
            record {
              spelled = builtin (codes "main") main-IsName;
              first_space = refl;
              more_space = tt;
            },
            tt,
          ),
        ),
      ),
    ),
  ),
)

tokenize_source-render_example :
    (v : List Token) × (tokenize_source push_token file [] (codes " " ++ render pieces) ≡ ok v)
    × (v ≡ tokens_of file (after_space (record { line = 1; offset = 0 }) (codes " ")) pieces)
unfolding is_space
tokenize_source-render_example =
    tokenize_source-render push_token file (λ v. v) (λ v t. (v ++ t ∷ [], refl, refl)) []
      (codes " ") pieces (refl, tt) pieces-IsPiece

lex_string-stringify_example :
    lex_string (stringify (codes "say \"\n") ++ b'"' ∷ codes ");") b'"'
    ≡ ok (map reread (codes "say \"\n"), length (stringify (codes "say \"\n")))
lex_string-stringify_example = lex_string-stringify (codes "say \"\n") (codes ");")

lex_string-measure_example :
    (s : Bytes) × (lex_string (codes "a\\n\" x") b'"' ≡ ok (s, 3))
    × (length s ≡ 2)
    × (get_elem? (codes "a\\n\" x") 3 ≡ some b'"')
unfolding measure
lex_string-measure_example = lex_string-measure b'"' (codes "a\\n\" x") refl

lex_string-unclosed_example : lex_string (codes "ab" ++ terminator) b'"' ≡ fault
lex_string-unclosed_example =
    lex_string-unclosed b'"' (codes "ab") (λ e. omega arith)
      (((λ e. omega arith), (λ e. omega arith)), (((λ e. omega arith), (λ e. omega arith)), tt))

lex_number-outcome_example :
    NumberOutcome b'1' (codes "2.5f;") (lex_number (codes "12.5f;" ++ terminator))
lex_number-outcome_example = lex_number-outcome b'1' (codes "2.5f;")

lex_identifier-outcome_example :
    NameOutcome (codes "x_1 + y") true (lex_identifier (codes "x_1 + y" ++ terminator) true)
lex_identifier-outcome_example = lex_identifier-outcome (codes "x_1 + y") true

tokenize_source-ne-fault_example : tokenize_source push_token file [] (codes "@1.") ≢ fault
tokenize_source-ne-fault_example =
    tokenize_source-ne-fault push_token file [] (codes "@1.")
      ((refl, refl, refl), ((refl, refl, refl), ((refl, refl, refl), tt)))

lex_slash-comment_example :
    ((w : Bytes) → lex_slash (b'/' ∷ b'/' ∷ (codes "hi" ++ b'\n' ∷ w)) ≡ ok (comment 3))
    × (lex_slash (b'/' ∷ b'/' ∷ (codes "hi" ++ terminator)) ≡ fault)
lex_slash-comment_example = lex_slash-comment (codes "hi") ((λ e. cc), ((λ e. cc), tt))
