-- ===== src/Examples/Driver.antt =====
-- The theorem on `frontend`, for a file that imports another one.
mod Ranks
use luka.Prelude.{
  ℕ, ◌≡◌, refl, sym, inl, inr, Bool-cases, List, [], ◌∷◌, ◌++◌, Option, none, some, Bytes, codes,
  str_eq, str_eq_iff, arith, if◌then◌else◌, is_prefix,
}
use luka.ReturnCode.{Outcome, ok}
use luka.Token.{Token, toktype_eq, keywords, keyword_types, toktype_of_number, toktype_value}
use luka.Parser.State.{
  pure, bind, ◌>>=◌, lift, read_parser, write_parser, found, token_ahead, current, next, err,
  stop_exited, expect, advance, expect_advance, stop_fault, stop_fuel, back, match, match_advance,
  known_name,
}
use luka.Parser.File.{
  initialize_module, initialize_parser, modify_module, add_import, parse_import, declaration_of,
  step_index, parse_declarations, parse_file, push_front, append_node, push_back, add_function,
  add_alias, extern_of, parse_extern, parse_type_alias,
}
use luka.Paths.Import.{
  find_system, directory, add_separator, beside, absolute, complete_path, search_path, resolve_path,
}
use luka.Lexer.Ctype.{is_alnum, is_space, count_while, is_digit, is_alpha}
use luka.Lexer.Identifier.{is_ident_part, lex_identifier, is_ident_start}
use luka.Lexer.Keyword.{is_keyword, find_keyword}
use luka.Lexer.Quoted.{is_escape, measure, unescape, decode, lex_string}
use luka.Lexer.Scan.{
  lex_string_literal, lex_char_literal, lex_builtin, identifier_type, lex_default, lex_longer,
  lex_token, single_char, comment_length, two_chars, one_or_two, lex_slash, lex_dot,
}
use luka.Lexer.Tokenize.{count_byte, push_lexeme, tokenize_loop, tokenize_source}
use luka.Paths.{matched, starts_with, is_absolute, is_relative, ends_loop, ends_with, add_extension}
use luka.Files.{c_string, file_contents}
use luka.Driver.{each, each_in, check_functions}
use luka.Passes.FillTypes.{keep_mutable, replace_any, declared_type, occurrence_type, fill_let}
use luka.Passes.FillVariables.{
  stmts_in, block_stmts, set_node, set_in, set_stmt, fill_declared, fill_stmt, fill_block,
  fill_blocks, fill_variable_types, fill_parameters, fill_parameter_types,
}
use luka.Passes.FixTypes.{
  visit_child, named_base, fix_base, fix_type, fix_parameters, fix_prototype, fix_fields,
}
use luka.Passes.Aliases.{
  find_alias, set_alias, alias_name, resolve_found, resolve_alias, resolve_object, resolve_with,
  resolve_type,
}
use luka.Passes.TreeAliases.{
  resolve_one, resolve_optional, resolve_parameters, resolve_prototype, resolve_fields,
  resolve_child,
}
use luka.Checker.{
  required_params, takes_count, keeps_mutable, prototype_of, check_get, check_args, check_prototype,
  find_prototype, check_called, check_call, check_assignment, check_let, check_operands, check_stmt,
  check_function,
}
use luka.Types.Base.{
  base_value, base_eq, is_payload_type, is_floating_type, is_signed, sizeof, initialize_type,
  is_pointer,
}
use luka.Types.Dup.{dup_type}
use luka.Types.Equal.{names_match, equal}
use luka.Types.GetType.{
  make_mutable, element_type, field_type, field_of, find_field, find_struct_field, get_field,
  return_type_of, builtin_type, call_type,
}
use luka.Types.Cast.{
  from_bool, from_signed, from_unsigned, from_f32, from_string, keeps_mutability, from_pointer,
  cast_switch, can_cast,
}
use luka.Modules.Names.{
  struct_label, enum_label, any_name, any_imported, name_in, module_in_list, is_name,
  is_struct_name, is_enum_name,
}
use luka.Modules.Resolve.{
  function_name, find_function, method_name, find_method, find_in_structs, find_local,
  find_imported, is_original, resolve_in, resolve,
}
use luka.Lexer.Number.{lex_fraction, lex_number}
use luka.Parser.TypeExpr.{
  simple_type, named_type, is_suffix, tagged_type, base_type_of, base_type, mut_prefix,
  array_length, outer_type, wrap_type, type_suffixes, parse_bare_type, parse_type,
}
use luka.Parser.Levels.{
  factor_operator, term_operator, shift_operator, comparison_operator, equality_operator,
  band_operator, bxor_operator, bor_operator, is_assignment_target, binary_rest, binary_level,
  parse_factor, parse_term, parse_shift, parse_comparison, parse_equality, parse_band, parse_bxor,
  parse_bor, parse_assignment,
}
use luka.Parser.Literal.{
  is_floating_point, last_byte, number_node, first_byte, is_type_token, with_name, reading,
  item_type,
}
use luka.Parser.Primary.{
  call_args, parse_call, call_if, parse_paren, array_items, parse_array_literal, value_fields,
  name_node, ident_rest, parse_ident,
}
use luka.Parser.Unary.{
  one_token, parse_type_expr, primary_of, parse_primary, unary_operand, parse_reference, unary_of,
  parse_unary,
}
use luka.Parser.Prototype.{vararg_type, parse_arg, more_args, parse_args, parse_prototype}
use luka.Parser.Declarations.{
  add_value, integer_value, parse_struct_field, struct_fields, some_fields, parse_struct_fields,
  parse_function, struct_functions, parse_struct_functions, add_struct_name, add_enum_name,
  parse_struct_definition, enum_value, enum_field, enum_fields, parse_enum_fields,
  parse_enum_definition,
}
use luka.Parser.Statements.{
  is_compound_expr, should_finish, set_mutable, parse_else, parse_condition, expression_of,
  parse_expression, parse_let, parse_return, parse_break, parse_defer, parse_expression_statement,
  statement_of, parse_statement, more_statements, parse_statements, parsers_at,
}
use luka.Callable.{differs, receiver, receiver_arg, pushed_arg, method_call, fill_function_name}
use luka.Core.{size_of, lookup_builtin}
use luka.Ast.{get_node}
use luka.Driver.State.{World, IsTable, Context, put_module, set_entry}
use luka.Driver.FrontEnd.{
  frontend, frontend_above, none_failed, later_or, lex, parse_tokens, enter_module, find_circular,
  unless_found, current_import, add_imported, push_import, import_one, import_all,
  complete_functions, fix_module, parse, check_body, type_check,
}
use luka.Driver.FrontEnd.Imports.{not_yet, Inv, Linked}
use luka.Driver.Accepted.{AcceptedBody}
use luka.Driver.FrontEnd.Linked.{frontend-Linked}

abbrev main_path : Bytes
main_path = codes "m.luka"

abbrev other_path : Bytes
other_path = codes "./a.luka"

abbrev Paths : Type 0
Paths = List (Bytes × ℕ)

unfoldable lookup : Paths → Bytes → Option ℕ
lookup [] path = none
lookup ((p, m) ∷ rest) path = if str_eq p path then some m else lookup rest path

-- There are two files, and `m.luka` imports `a.luka` and calls its function.
unfoldable source_of : Bytes → Option Bytes
source_of path =
    if str_eq path main_path
    then some (codes "import \"a\";\nfn f(): int { let x: int = g(); return x; }\n")
    else if str_eq path other_path
    then some (codes "fn g(): int { return 1; }\n")
    else none

abbrev world : World
world = record {
  libc = record { atoll = λ s. 0; strtol = λ s. 1; strtof = λ s. 0; strtod = λ s. 0 };
  files = record {
    realpath = λ s. none;
    dirname = λ o. codes ".";
    file_exists = λ path. str_eq path other_path;
  };
  read_file = source_of;
  Vector = List Token;
  empty_vector = [];
  push_back = λ v t. some (v ++ (t ∷ []));
  elements = λ v. v;
  Table = Paths;
  find = lookup;
  add = λ path m t. (path, m) ∷ t;
}

world-IsTable : IsTable world
unfolding lookup
world-IsTable = record {
  find-add = λ t path m other k e. elim (Bool-cases (str_eq path other)) [
    | inl same ↦ inl (sym ((str_eq_iff path other).0 same), ground (arith, same, e))
    | inr differs ↦ inr (ground (arith, differs, e))
  ];
}

abbrev start : Context world
start = record {
  store = λ k. initialize_module [];
  next = 0;
  modules = none ∷ [];
  file_index = 0;
  current_module = none;
  imported_modules = [];
  type_aliases = [];
}

start-Inv : Inv world world-IsTable start
unfolding lookup
start-Inv = record { table_is = λ path k e. cc; modules_are = (not_yet, tt) }

-- The run unfolds with this.
unfoldable run : Outcome (Context world)
unfolding get_node lookup source_of str_eq is_prefix toktype_eq keywords keyword_types
    toktype_of_number toktype_value is_alnum is_space count_while is_digit is_alpha is_ident_part
    lex_identifier is_ident_start is_keyword find_keyword is_escape measure unescape decode
    lex_string lex_string_literal lex_char_literal lex_builtin identifier_type lex_default
    lex_longer lex_token single_char comment_length two_chars one_or_two lex_slash lex_dot
    count_byte push_lexeme tokenize_loop tokenize_source matched starts_with is_absolute is_relative
    ends_loop ends_with add_extension find_system directory add_separator beside absolute
    complete_path search_path resolve_path pure bind ◌>>=◌ lift read_parser write_parser found
    token_ahead current next err stop_exited expect advance expect_advance initialize_module
    initialize_parser modify_module add_import parse_import declaration_of step_index
    parse_declarations parse_file put_module set_entry c_string file_contents each each_in
    check_functions none_failed later_or lex parse_tokens enter_module find_circular unless_found
    current_import add_imported push_import import_one import_all complete_functions fix_module
    parse check_body type_check frontend frontend_above keep_mutable replace_any declared_type
    occurrence_type fill_let stmts_in block_stmts set_node set_in set_stmt fill_declared fill_stmt
    fill_block fill_blocks fill_variable_types fill_parameters fill_parameter_types visit_child
    named_base fix_base fix_type fix_parameters fix_prototype fix_fields find_alias set_alias
    alias_name resolve_found resolve_alias resolve_object resolve_with resolve_type resolve_one
    resolve_optional resolve_parameters resolve_prototype resolve_fields resolve_child
    required_params takes_count keeps_mutable prototype_of check_get check_args check_prototype
    find_prototype check_called check_call check_assignment check_let check_operands check_stmt
    check_function base_value base_eq is_payload_type is_floating_type is_signed sizeof
    initialize_type is_pointer dup_type names_match equal make_mutable element_type field_type
    field_of find_field find_struct_field get_field return_type_of builtin_type call_type from_bool
    from_signed from_unsigned from_f32 from_string keeps_mutability from_pointer cast_switch
    can_cast struct_label enum_label any_name any_imported name_in module_in_list is_name
    is_struct_name is_enum_name function_name find_function method_name find_method find_in_structs
    find_local find_imported is_original resolve_in resolve lex_fraction lex_number simple_type
    named_type is_suffix tagged_type base_type_of base_type mut_prefix array_length outer_type
    wrap_type type_suffixes parse_bare_type parse_type factor_operator term_operator shift_operator
    comparison_operator equality_operator band_operator bxor_operator bor_operator
    is_assignment_target binary_rest binary_level parse_factor parse_term parse_shift
    parse_comparison parse_equality parse_band parse_bxor parse_bor parse_assignment
    is_floating_point last_byte number_node first_byte is_type_token with_name reading item_type
    call_args parse_call call_if parse_paren array_items parse_array_literal value_fields name_node
    ident_rest parse_ident one_token parse_type_expr primary_of parse_primary unary_operand
    parse_reference unary_of parse_unary vararg_type parse_arg more_args parse_args parse_prototype
    add_value integer_value parse_struct_field struct_fields some_fields parse_struct_fields
    parse_function struct_functions parse_struct_functions add_struct_name add_enum_name
    parse_struct_definition enum_value enum_field enum_fields parse_enum_fields
    parse_enum_definition is_compound_expr should_finish set_mutable parse_else parse_condition
    expression_of parse_expression parse_let parse_return parse_break parse_defer
    parse_expression_statement statement_of parse_statement more_statements parse_statements
    parsers_at push_front append_node push_back add_function add_alias extern_of parse_extern
    parse_type_alias stop_fault stop_fuel back match match_advance known_name differs receiver
    receiver_arg pushed_arg method_call fill_function_name size_of lookup_builtin
run = frontend world 9 2 main_path start

context_of : Outcome (Context world) → Context world
context_of (ok c) = c
context_of _ = start

abbrev left : Context world
left = context_of run

runs : frontend world 9 2 main_path start ≡ ok left
unfolding run context_of
runs = refl

-- The other file is parsed in the middle of it, as the module behind the first one.
left_imports : (left.store 0).imports ≡ 1 ∷ []
unfolding run context_of
left_imports = refl

frontend-Linked_example :
    (m : ℕ) × (left.current_module ≡ some m)
    × ((left.store m).file_path ≡ main_path)
    × Linked world world-IsTable left m
    × AcceptedBody left.store 9 m (left.store m).functions
    × Inv world world-IsTable left
frontend-Linked_example =
    frontend-Linked world world-IsTable 9 2 main_path start left start-Inv runs
