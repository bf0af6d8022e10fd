-- ===== src/Parser/Unary.antt =====
-- src/parser.c: `parser_parse_primary` and `parser_parse_unary`.
use luka.Prelude.{false, List, Bytes, if◌then◌else◌}
use luka.ReturnCode.{parser_failed}
use luka.Token.{
  Token, TokType, t_identifier, t_number, t_char, t_string, t_null, t_true, t_false, t_builtin,
  t_open_paren, t_open_bracket, t_mut, t_bang, t_minus, t_ampercent, t_star, t_tilde,
}
use luka.Types.Base.{type_uint8, initialize_type}
use luka.Ast.{
  unop_not, unop_minus, unop_deref, unop_ref, unop_bnot, literal_null, literal_true, literal_false,
  Node, number, string, unary_expr, literal, builtin, type_expr,
}
use luka.Parser.State.{Libc, Parse, pure, ◌>>=◌, ◌>>◌, stop_exited, back, current, match, advance}
use luka.Parser.TypeExpr.{parse_type}
use luka.Parser.Literal.{number_node, first_byte, is_type_token}
use luka.Parser.Primary.{Parsers, parse_ident, parse_paren, parse_array_literal, call_if}

module _ (libc : Libc) (tokens : List Token) (parsers : Parsers) where
  -- A node of one token.
  unfoldable pub one_token : Node → Parse Node
  one_token node = do advance tokens; pure node

  unfoldable pub parse_type_expr : Parse Node
  parse_type_expr = do back; t ← parse_type libc tokens false; advance tokens; pure (type_expr t)

  -- The `switch` of `parser_parse_primary`.
  unfoldable pub primary_of : Bytes → TokType → Parse Node
  primary_of content t_identifier = parse_ident libc tokens parsers
  primary_of content t_number = one_token (number_node libc content)
  primary_of content t_char = one_token (number (initialize_type type_uint8) (first_byte content))
  primary_of content t_open_paren = parse_paren libc tokens parsers
  primary_of content t_open_bracket = parse_array_literal libc tokens parsers
  primary_of content t_string = one_token (string content)
  primary_of content t_null = one_token (literal literal_null)
  primary_of content t_true = one_token (literal literal_true)
  primary_of content t_false = one_token (literal literal_false)
  primary_of content t_builtin = do advance tokens; call_if libc tokens parsers (builtin content)
  primary_of content t = if is_type_token t then parse_type_expr else stop_exited parser_failed

  unfoldable pub parse_primary : Parse Node
  parse_primary = do token ← current tokens; primary_of token.content token.type

  -- The operators of `parser_parse_unary` but `&`, as functions on the operand.
  unfoldable pub unary_operand : (Node → Node) → Parse Node
  unary_operand make = do advance tokens; e ← parsers.unary; pure (make e)

  unfoldable pub parse_reference : Parse Node
  parse_reference = do
    advance tokens
    mutable ← match tokens t_mut
    if mutable then advance tokens else pure tt
    e ← parsers.unary
    pure (unary_expr unop_ref e mutable)

  unfoldable pub unary_of : TokType → Parse Node
  unary_of t_bang = unary_operand (λ e. unary_expr unop_not e false)
  unary_of t_minus = unary_operand (λ e. unary_expr unop_minus e false)
  unary_of t_ampercent = parse_reference
  unary_of t_star = unary_operand (λ e. unary_expr unop_deref e false)
  unary_of t_tilde = unary_operand (λ e. unary_expr unop_bnot e false)
  unary_of _ = parse_primary

  unfoldable pub parse_unary : Parse Node
  parse_unary = do token ← current tokens; unary_of token.type
