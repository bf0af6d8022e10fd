-- ===== src/Parser/File.antt =====
-- src/parser.c: `PARSER_initialize` and `PARSER_parse_file`; src/lib.c: `LIB_initialize_module`.
use luka.Prelude.{
  ℕ, zero, suc, ◌+◌, Bool, true, false, not, List, [], ◌∷◌, Option, none, some, Bytes, length, ltb,
  if◌then◌else◌,
}
use luka.Token.{
  Token, TokType, toktype_eq, t_fn, t_extern, t_struct, t_enum, t_import, t_let, t_type, t_eof,
  t_colon, t_semi_colon, t_identifier, t_string, t_equals,
}
use luka.Ast.{
  Node, null, function, variable, let_stmt, Body, no_body, body, Nodes, nil, cons, Module,
}
use luka.Parser.State.{
  Libc, Parser, TypeAlias, Parse, pure, ◌>>=◌, ◌>>◌, lift, read_parser, write_parser, stop_fuel,
  back, token_ahead, current, err, advance, expect_advance, match_advance,
}
use luka.Parser.TypeExpr.{parse_type}
use luka.Parser.Primary.{Parsers}
use luka.Parser.Prototype.{parse_prototype}
use luka.Parser.Declarations.{parse_function, parse_struct_definition, parse_enum_definition}
use luka.Parser.Statements.{parse_let, parsers_at}
use luka.Paths.Import.{FileSystem, resolve_path}

-- A module behind `LIB_initialize_module`, with its path.
unfoldable pub initialize_module : Bytes → Module
initialize_module file_path = record {
  enums = body nil;
  functions = body nil;
  import_paths = [];
  imports = [];
  structs = body nil;
  variables = body nil;
  file_path = file_path;
}

-- `PARSER_initialize`, and the module that `PARSER_parse_file` begins with.
unfoldable pub initialize_parser : Bytes → List TypeAlias → Parser
initialize_parser file_path type_aliases = record {
  index = 0;
  struct_names = [];
  enum_names = [];
  type_aliases = type_aliases;
  current_module = initialize_module file_path;
}

-- `vector_push_front` and `vector_push_back` on a list of nodes.
unfoldable pub push_front : Node → Body → Body
push_front n no_body = no_body
push_front n (body ns) = body (cons n ns)

unfoldable pub append_node : Node → Nodes → Nodes
append_node n nil = cons n nil
append_node n (cons k ks) = cons k (append_node n ks)

unfoldable pub push_back : Node → Body → Body
push_back n no_body = no_body
push_back n (body ns) = body (append_node n ns)

-- The module of the parser is changed.
unfoldable pub modify_module : (Module → Module) → Parse (Unit {0})
modify_module f p = write_parser (record p { current_module = f p.current_module }) p

unfoldable pub add_function : Node → Parse (Unit {0})
add_function n = modify_module (λ m. record m { functions = push_back n m.functions })

unfoldable pub add_alias : TypeAlias → Parse (Unit {0})
add_alias a p = write_parser (record p { type_aliases = a ∷ p.type_aliases }) p

module _ (libc : Libc) (fs : FileSystem) (tokens : List Token) where
  module _ (parsers : Parsers) where
    -- An external variable, whose type follows its name, or an external function.
    unfoldable pub extern_of : Bool → Parse (Unit {0})
    extern_of true = do
      advance tokens
      match_advance tokens t_identifier
      back
      name ← current tokens
      t ← parse_type libc tokens true
      let n = let_stmt (variable name.content t true) null true
      modify_module (λ m. record m { variables = push_back n m.variables })
    extern_of false = do p ← parse_prototype libc tokens; add_function (function p no_body)

    unfoldable pub parse_extern : Parse (Unit {0})
    parse_extern = do
      token ← token_ahead tokens 2
      extern_of (toktype_eq token.type t_colon)
      expect_advance tokens t_semi_colon

    -- The path of an import, if its file is found, and whether it is.
    unfoldable pub add_import : Option Bytes → Parse Bool
    add_import none = pure false
    add_import (some path) = do
      modify_module (λ m. record m { import_paths = path ∷ m.import_paths })
      pure true

    unfoldable pub parse_import : Parse Bool
    parse_import = do
      expect_advance tokens t_string
      path ← current tokens
      expect_advance tokens t_semi_colon
      p ← read_parser
      resolved ← lift (resolve_path fs path.content p.current_module.file_path true)
      add_import resolved

    unfoldable pub parse_type_alias : Parse (Unit {0})
    parse_type_alias = do
      expect_advance tokens t_identifier
      name ← current tokens
      expect_advance tokens t_equals
      t ← parse_type libc tokens false
      expect_advance tokens t_semi_colon
      add_alias (record { name = name.content; type = t })

    -- The `switch` of `PARSER_parse_file`, and whether the parser goes on.
    unfoldable pub declaration_of : TokType → Parse Bool
    declaration_of t_fn = do f ← parse_function libc tokens parsers; add_function f; pure true
    declaration_of t_extern = do parse_extern; pure true
    declaration_of t_struct = do
      n ← parse_struct_definition libc tokens parsers
      modify_module (λ m. record m { structs = push_front n m.structs })
      back
      pure true
    declaration_of t_enum = do
      n ← parse_enum_definition libc tokens parsers
      modify_module (λ m. record m { enums = push_front n m.enums })
      back
      pure true
    declaration_of t_import = parse_import
    declaration_of t_let = do
      n ← parse_let libc tokens parsers true
      modify_module (λ m. record m { variables = push_front n m.variables })
      back
      pure true
    declaration_of t_type = do parse_type_alias; pure true
    declaration_of t_eof = pure true
    declaration_of _ = err tokens

  -- `parser->index += 1`, which no assertion follows.
  unfoldable pub step_index : Parse (Unit {0})
  step_index p = write_parser (record p { index = p.index + 1 }) p

  -- The loop of `PARSER_parse_file`: whether it went through all the tokens.
  unfoldable pub parse_declarations : ℕ → Parse Bool
  parse_declarations zero = stop_fuel
  parse_declarations (suc fuel) = do
    p ← read_parser
    if not (ltb p.index (length tokens)) then pure true else do
      token ← current tokens
      goes_on ← declaration_of (parsers_at libc tokens (suc (length tokens))) token.type
      if not goes_on then pure false else do step_index; parse_declarations fuel

  -- `PARSER_parse_file`, with `none` for NULL.
  unfoldable pub parse_file : Parse (Option Module)
  parse_file = do
    parsed ← parse_declarations (suc (length tokens))
    p ← read_parser
    pure (if parsed then some p.current_module else none)
