-- ===== src/Parser/Primary.antt =====
-- src/parser.c: the expressions in brackets, calls, and those that begin with a name.
use luka.Prelude.{ℕ, zero, suc, Bool, true, false, List, Bytes, length, if◌then◌else◌}
use luka.Token.{
  Token, TokType, t_open_paren, t_close_paren, t_open_bracket, t_close_bracket, t_open_brace,
  t_close_brace, t_comma, t_colon, t_dot, t_double_colon, t_mut,
}
use luka.Types.Base.{
  type_sint32, type_uint8, type_f32, type_f64, type_struct, type_enum, no_payload, text, Ty, type,
  initialize_type,
}
use luka.Types.Base as Base
use luka.Ast.{
  Node, variable, call_expr, struct_value, get_expr, array_deref, array_literal, type_expr, body,
  Nodes, nil, cons, Values, no_values, value_field,
}
use luka.Parser.State.{
  Libc, Parse, pure, ◌>>=◌, ◌>>◌, lift, read_parser, stop_fuel, current, match, advance,
  expect_advance, match_advance, known_name,
}
use luka.Parser.TypeExpr.{parse_type}
use luka.Parser.Literal.{with_name, item_type}

-- The calls that lead back up, to be made behind the token they start at.
pub record Parsers : Type 0 where
  pub unary : Parse Node
  pub expression : Parse Node
  pub statements : Parse Nodes

module _ (libc : Libc) (tokens : List Token) (parsers : Parsers) where
  -- The arguments of a call, up to its `)`.
  unfoldable pub call_args : ℕ → Parse Nodes
  call_args zero = stop_fuel
  call_args (suc fuel) = do
    e ← parsers.expression
    closes ← match tokens t_close_paren
    if closes
        then pure (cons e nil)
        else do match_advance tokens t_comma; es ← call_args fuel; pure (cons e es)

  -- `parser_parse_function_call_expr`
  unfoldable pub parse_call : Node → Parse Node
  parse_call callable = do
    match_advance tokens t_open_paren
    closes ← match tokens t_close_paren
    args ← if closes then pure nil else call_args (suc (length tokens))
    advance tokens
    pure (call_expr callable (body args))

  -- The call behind a callable, if there is one.
  unfoldable pub call_if : Node → Parse Node
  call_if callable = do
    opens ← match tokens t_open_paren
    if opens then parse_call callable else pure callable

  unfoldable pub parse_paren : Parse Node
  parse_paren = do
    match_advance tokens t_open_paren
    e ← parsers.expression
    match_advance tokens t_close_paren
    pure e

  -- The elements of an array up to its `]`, and their type, from the type of those before.
  unfoldable pub array_items : ℕ → Ty → Parse (Nodes × Ty)
  array_items zero t = stop_fuel
  array_items (suc fuel) t = do
    closes ← match tokens t_close_bracket
    if closes then pure (nil, t) else do
      e ← parsers.expression
      p ← read_parser
      u ← lift (item_type p t e)
      ends ← match tokens t_close_bracket
      if ends
          then pure (cons e nil, u)
          else do match_advance tokens t_comma; (es, v) ← array_items fuel u; pure (cons e es, v)

  unfoldable pub parse_array_literal : Parse Node
  parse_array_literal = do
    match_advance tokens t_open_bracket
    (items, t) ← array_items (suc (length tokens)) Base.null
    match_advance tokens t_close_bracket
    pure (array_literal items t)

  -- The fields of a struct value, up to behind its `}`.
  unfoldable pub value_fields : ℕ → Parse Values
  value_fields zero = stop_fuel
  value_fields (suc fuel) = do
    name ← current tokens
    expect_advance tokens t_colon
    advance tokens
    e ← parsers.expression
    closes ← match tokens t_close_brace
    if closes then (do advance tokens; pure (value_field name.content e no_values)) else do
      match_advance tokens t_comma
      fields ← value_fields fuel
      pure (value_field name.content e fields)

  -- The name of a struct or an enum is a type, any other a variable.
  unfoldable pub name_node : Bytes → Bool → Parse Node
  name_node name mutable = do
    p ← read_parser
    if known_name p.struct_names name
        then pure (type_expr (with_name type_struct name))
        else if known_name p.enum_names name
        then pure (type_expr (with_name type_enum name))
        else do t ← parse_type libc tokens true; pure (variable name t mutable)

  -- What follows a name, by the token behind it.
  unfoldable pub ident_rest : Bytes → TokType → Parse Node
  ident_rest name t_dot = do
    advance tokens
    key ← current tokens
    advance tokens
    call_if (get_expr (variable name (with_name type_struct name) false) key.content false)
  ident_rest name t_double_colon = do
    advance tokens
    key ← current tokens
    advance tokens
    pure (get_expr (variable name (with_name type_enum name) false) key.content true)
  ident_rest name t_open_brace = do
    advance tokens
    fields ← value_fields (suc (length tokens))
    pure (struct_value name fields)
  ident_rest name t_open_bracket = do
    advance tokens
    e ← parsers.expression
    match_advance tokens t_close_bracket
    pure (array_deref (variable name Base.null false) e)
  ident_rest name t_mut = do advance tokens; node ← name_node name true; call_if node
  ident_rest name _ = do node ← name_node name false; call_if node

  -- `parser_parse_ident_expr`
  unfoldable pub parse_ident : Parse Node
  parse_ident = do
    name ← current tokens
    advance tokens
    token ← current tokens
    ident_rest name.content token.type
