-- ===== src/Lexer/Tests.antt =====
-- Runs of the lexer.
use luka.Prelude.{ℕ, ◌≡◌, refl, List, [], ◌∷◌, ◌++◌, Option, some, Bytes, codes}
use luka.ReturnCode.{Outcome, ok, exited, fault, lexer_failed}
use luka.Token.{
  TokType, Token, t_fn, t_identifier, t_open_paren, t_close_paren, t_number, t_leq, t_string,
  t_three_dots, t_eof, t_builtin,
}
use luka.Lexer.Ctype.{is_space, is_digit, count_while}
use luka.Lexer.Number.{lex_number}
use luka.Lexer.Identifier.{lex_identifier, is_ident_start, is_ident_part}
use luka.Lexer.Keyword.{is_keyword}
use luka.Lexer.Quoted.{lex_string}
use luka.Lexer.Scan.{
  lex_token, single_char, lex_longer, one_or_two, lex_slash, lex_dot, lex_string_literal,
  lex_char_literal, lex_builtin, lex_default, identifier_type,
}
use luka.Lexer.Tokenize.{tokenize_source, tokenize_loop, count_byte, push_lexeme}

abbrev push_token : List Token → Token → Option (List Token)
push_token ts t = some (ts ++ t ∷ [])

abbrev tok : ℕ → ℕ → TokType → Bytes → Token
tok l o t s = record { line = l; offset = o; type = t; content = s; file_path = codes "f" }

abbrev run : Bytes → Outcome (List Token)
run = tokenize_source push_token (codes "f") []

run_main :
    run (codes "fn main(x) // hi\n x<=3.5f \"a\\tb\"..." ++ 255 ∷ [])
    ≡ ok (
        tok 1 1 t_fn (codes "fn")
        ∷ tok 1 4 t_identifier (codes "main")
        ∷ tok 1 8 t_open_paren (codes "(")
        ∷ tok 1 9 t_identifier (codes "x")
        ∷ tok 1 10 t_close_paren (codes ")")
        ∷ tok 2 2 t_identifier (codes "x")
        ∷ tok 2 3 t_leq (codes "<=")
        ∷ tok 2 5 t_number (codes "3.5")
        ∷ tok 2 10 t_string (codes "a\tb")
        ∷ tok 2 16 t_three_dots (codes "...")
        ∷ tok 2 19 t_eof (codes "~EOF~")
        ∷ [])
unfolding tokenize_source tokenize_loop count_byte push_lexeme lex_token single_char lex_longer
    one_or_two lex_slash lex_dot lex_string_literal lex_char_literal lex_builtin lex_default
    lex_number lex_identifier identifier_type is_space is_digit is_ident_start is_ident_part
    count_while is_keyword lex_string
run_main = refl

-- No name behind the `@`: the token is empty, and the byte behind is lost.
run_lone_at : run (codes "@(") ≡ ok (tok 1 1 t_builtin [] ∷ [])
unfolding tokenize_source tokenize_loop count_byte push_lexeme lex_token single_char lex_longer
    one_or_two lex_slash lex_dot lex_string_literal lex_char_literal lex_builtin lex_default
    lex_number lex_identifier identifier_type is_space is_digit is_ident_start is_ident_part
    count_while is_keyword lex_string
run_lone_at = refl

run_bad_number : run (codes "1.x") ≡ exited lexer_failed
unfolding tokenize_source tokenize_loop count_byte push_lexeme lex_token single_char lex_longer
    one_or_two lex_slash lex_dot lex_string_literal lex_char_literal lex_builtin lex_default
    lex_number lex_identifier identifier_type is_space is_digit is_ident_start is_ident_part
    count_while is_keyword lex_string
run_bad_number = refl

-- A comment on the last line runs off the memory.
run_last_comment : run (codes "x // end" ++ 255 ∷ []) ≡ fault
unfolding tokenize_source tokenize_loop count_byte push_lexeme lex_token single_char lex_longer
    one_or_two lex_slash lex_dot lex_string_literal lex_char_literal lex_builtin lex_default
    lex_number lex_identifier identifier_type is_space is_digit is_ident_start is_ident_part
    count_while is_keyword lex_string
run_last_comment = refl
