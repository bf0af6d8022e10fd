-- ===== src/Examples/Parser.antt =====
-- The parser on a small file.
use luka.Prelude.{
  ◌-◌, ◌++◌, suc, ◌≡◌, ◌≢◌, ◌↔◌, refl, true, false, List, [], ◌∷◌, Option, none, some, Bytes, codes,
  length, arith,
}
use luka.ReturnCode.{Outcome, ok, out_of_fuel}
use luka.Token.{
  Token, TokType, toktype_eq, toktype_value, t_close_brace, t_close_bracket, t_close_paren, t_colon,
  t_eof, t_fn, t_identifier, t_int_type, t_mut, t_number, t_open_brace, t_open_bracket,
  t_open_paren, t_plus, t_return, t_semi_colon, t_star,
}
use luka.Types.Base.{
  type_f64, type_sint32, type_ptr, type_array, size, no_payload, Ty, type, initialize_type,
}
use luka.Types.Base as Base
use luka.Ast.{
  Node, binop_add, binop_multiply, string, binary_expr, number, return_stmt, function, prototype,
  body, nil, cons, Module,
}
use luka.Paths.Import.{FileSystem}
use luka.Parser.State.{
  Parse, Parser, Libc, ◌>>◌, pure, bind, ◌>>=◌, lift, read_parser, write_parser, stop_exited,
  stop_fault, stop_fuel, back, found, token_ahead, current, next, err, expect, match, advance,
  expect_advance, match_advance, known_name,
}
use luka.Parser.TypeExpr.{
  simple_type, named_type, is_suffix, tagged_type, base_type_of, base_type, mut_prefix,
  array_length, outer_type, wrap_type, type_suffixes, parse_bare_type, parse_type,
}
use luka.Parser.Levels.{
  factor_operator, term_operator, shift_operator, comparison_operator, equality_operator,
  band_operator, bxor_operator, bor_operator, is_assignment_target, binary_rest, binary_level,
  parse_factor, parse_term, parse_shift, parse_comparison, parse_equality, parse_band, parse_bxor,
  parse_bor, parse_assignment,
}
use luka.Parser.Literal.{
  is_floating_point, last_byte, number_node, first_byte, is_type_token, with_name, reading,
  item_type,
}
use luka.Parser.Primary.{
  call_args, parse_call, call_if, parse_paren, array_items, parse_array_literal, value_fields,
  name_node, ident_rest, parse_ident,
}
use luka.Parser.Unary.{
  one_token, parse_type_expr, primary_of, parse_primary, unary_operand, parse_reference, unary_of,
  parse_unary,
}
use luka.Parser.Prototype.{vararg_type, parse_arg, more_args, parse_args, parse_prototype}
use luka.Parser.Declarations.{
  add_value, integer_value, parse_struct_field, struct_fields, some_fields, parse_struct_fields,
  parse_function, struct_functions, parse_struct_functions, add_struct_name, add_enum_name,
  parse_struct_definition, enum_value, enum_field, enum_fields, parse_enum_fields,
  parse_enum_definition,
}
use luka.Parser.Statements.{
  is_compound_expr, should_finish, set_mutable, parse_else, parse_condition, expression_of,
  parse_expression, parse_let, parse_return, parse_break, parse_defer, parse_expression_statement,
  statement_of, parse_statement, more_statements, parse_statements, parsers_at,
}
use luka.Parser.File.{
  initialize_module, initialize_parser, push_front, append_node, push_back, modify_module,
  add_function, add_alias, extern_of, parse_extern, add_import, parse_import, parse_type_alias,
  declaration_of, step_index, parse_declarations, parse_file,
}
use luka.Parser.Levels.Grammar.{Level, parse_bor-Level}
use luka.Parser.Numerals.{number_node-lex_number}
use luka.Lexer.Ctype.{count_while, is_digit, terminator}
use luka.Lexer.Number.{lex_number}
use luka.Parser.TypeExpr.Tokens.{TypeTokens, plain, marked, pointer, sized, base, around}
use luka.Parser.TypeExpr.RoundTrip.{parse_type-TypeTokens}
use luka.Parser.Progress.{Within}
use luka.Parser.Progress.Statements.{expression-Within}
use luka.Parser.Progress.File.{parse_file_ends, parse_file-length}

abbrev token : TokType → Bytes → Token
token t s = record { line = 1; offset = 0; type = t; content = s; file_path = [] }

-- Single digits.
abbrev libc : Libc
libc = record {
  atoll = λ s. first_byte s - b'0';
  strtol = λ s. first_byte s - b'0';
  strtof = λ s. 0;
  strtod = λ s. 0;
}

abbrev no_files : FileSystem
no_files = record { realpath = λ s. none; dirname = λ o. codes "."; file_exists = λ s. false }

-- `fn f(): int { return 1; }`
abbrev tokens : List Token
tokens =
    token t_fn []
    ∷ token t_identifier (codes "f")
    ∷ token t_open_paren []
    ∷ token t_close_paren []
    ∷ token t_colon []
    ∷ token t_int_type []
    ∷ token t_open_brace []
    ∷ token t_return []
    ∷ token t_number (codes "1")
    ∷ token t_semi_colon []
    ∷ token t_close_brace []
    ∷ token t_eof []
    ∷ []

abbrev f_node : Node
f_node =
    function
      (prototype (record {
        name = codes "f";
        args = [];
        types = [];
        return_type = type type_sint32 Base.null no_payload false;
        arity = 0;
        vararg = false;
      }))
      (body (cons (return_stmt (number (type type_sint32 Base.null no_payload false) 1)) nil))

abbrev parsed : Module
parsed = record {
  enums = body nil;
  functions = body (cons f_node nil);
  import_paths = [];
  imports = [];
  structs = body nil;
  variables = body nil;
  file_path = codes "f.luka";
}

abbrev left : Parser
left = record {
  index = 12;
  struct_names = [];
  enum_names = [];
  type_aliases = [];
  current_module = parsed;
}

-- Runs of the parser unfold with this.
unfoldable run : List Token → Parser → Outcome (Option Module × Parser)
unfolding pure bind ◌>>=◌ lift read_parser write_parser stop_exited stop_fault stop_fuel back found
    token_ahead current next err expect match advance expect_advance match_advance known_name
    simple_type named_type is_suffix tagged_type base_type_of base_type mut_prefix array_length
    outer_type wrap_type type_suffixes parse_bare_type parse_type factor_operator term_operator
    shift_operator comparison_operator equality_operator band_operator bxor_operator bor_operator
    is_assignment_target binary_rest binary_level parse_factor parse_term parse_shift
    parse_comparison parse_equality parse_band parse_bxor parse_bor parse_assignment
    is_floating_point last_byte number_node first_byte is_type_token with_name reading item_type
    call_args parse_call call_if parse_paren array_items parse_array_literal value_fields name_node
    ident_rest parse_ident one_token parse_type_expr primary_of parse_primary unary_operand
    parse_reference unary_of parse_unary vararg_type parse_arg more_args parse_args parse_prototype
    add_value integer_value parse_struct_field struct_fields some_fields parse_struct_fields
    parse_function struct_functions parse_struct_functions add_struct_name add_enum_name
    parse_struct_definition enum_value enum_field enum_fields parse_enum_fields
    parse_enum_definition is_compound_expr should_finish set_mutable parse_else parse_condition
    expression_of parse_expression parse_let parse_return parse_break parse_defer
    parse_expression_statement statement_of parse_statement more_statements parse_statements
    parsers_at initialize_module initialize_parser push_front append_node push_back modify_module
    add_function add_alias extern_of parse_extern add_import parse_import parse_type_alias
    declaration_of step_index parse_declarations parse_file initialize_type toktype_eq toktype_value
run = parse_file libc no_files

parse_f :
    parse_file libc no_files tokens (initialize_parser (codes "f.luka") []) ≡ ok (some parsed, left)
unfolding run
parse_f = refl

parse_file_ends_example :
    parse_file libc no_files tokens (initialize_parser (codes "f.luka") []) ≢ out_of_fuel
parse_file_ends_example = parse_file_ends libc no_files tokens (codes "f.luka") []

parse_file-length_example : left.index ≡ length tokens
parse_file-length_example =
    parse_file-length libc no_files tokens (codes "f.luka") [] parsed left parse_f

expression-Within_example :
    Within
      (length tokens)
      9
      ((parsers_at libc tokens (suc (length tokens))).expression (record left { index = 8 }))
expression-Within_example =
    expression-Within libc tokens (record left { index = 8 }) (omega arith) (omega arith)

-- `a + b * c`
abbrev sum_tokens : List Token
sum_tokens =
    token t_identifier (codes "a")
    ∷ token t_plus []
    ∷ token t_identifier (codes "b")
    ∷ token t_star []
    ∷ token t_identifier (codes "c")
    ∷ token t_semi_colon []
    ∷ []

abbrev start : Parser
start = initialize_parser [] []

-- A token as a leaf.
abbrev leaf_token : Parse Node
leaf_token = current sum_tokens >>= λ t. advance sum_tokens >> pure (string t.content)

abbrev sum_node : Node
sum_node =
    binary_expr binop_add (string (codes "a"))
      (binary_expr binop_multiply (string (codes "b")) (string (codes "c")))

parse_sum : parse_bor sum_tokens leaf_token start ≡ ok (sum_node, record start { index = 5 })
unfolding run
parse_sum = refl

parse_bor-Level_example :
    (parse_bor sum_tokens leaf_token start ≡ ok (sum_node, record start { index = 5 }))
    ↔ Level sum_tokens leaf_token 8 start sum_node (record start { index = 5 })
parse_bor-Level_example =
    parse_bor-Level sum_tokens leaf_token start sum_node (record start { index = 5 })

lexed_digit : is_digit b'1' ≡ true
unfolding is_digit
lexed_digit = refl

lexed : lex_number (b'1' ∷ codes ".5f;" ++ terminator) ≡ ok (codes "1.5", 3)
unfolding lex_number is_digit count_while
lexed = refl

-- `1.5f;`
number_node-lex_number_example :
    number_node libc (codes "1.5") ≡ number (type type_f64 Base.null no_payload false) 0
unfolding initialize_type run
number_node-lex_number_example =
    number_node-lex_number libc b'1' (codes ".5f;") (codes "1.5") 3 lexed_digit lexed

-- `: mut int mut * [3];`
abbrev type_tokens : List Token
type_tokens =
    (token t_mut [] ∷ token t_int_type [] ∷ [])
    ++ (token t_mut [] ∷ token t_star [] ∷ [])
    ++ (token t_open_bracket [] ∷ token t_number (codes "3") ∷ token t_close_bracket [] ∷ [])

abbrev typed_tokens : List Token
typed_tokens = token t_colon [] ∷ (type_tokens ++ token t_semi_colon [] ∷ [])

abbrev typed : Ty
typed =
    type type_array (type type_ptr (type type_sint32 Base.null no_payload true) no_payload true)
      (size 3) false

typed-TypeTokens : TypeTokens libc start typed type_tokens
unfolding run
typed-TypeTokens =
    around
      (around (base (token t_int_type []) type_sint32 (marked (token t_mut []) refl) refl refl)
        (pointer (token t_star []) (marked (token t_mut []) refl) refl))
      (sized (token t_open_bracket []) (token t_number (codes "3")) (token t_close_bracket []) plain
        refl refl refl)

semi-is_suffix : is_suffix t_semi_colon ≡ false
unfolding run
semi-is_suffix = refl

parse_type-TypeTokens_example :
    parse_type libc typed_tokens false start ≡ ok (typed, record start { index = 7 })
unfolding run
parse_type-TypeTokens_example =
    parse_type-TypeTokens libc typed_tokens start typed type_tokens (token t_semi_colon []) []
      typed-TypeTokens refl semi-is_suffix
