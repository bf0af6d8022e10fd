-- ===== src/Parser/Statements.antt =====
-- src/parser.c: `parser_parse_expression`, statements and their lists, and the knot of the recursion.
use luka.Prelude.{ℕ, zero, suc, Bool, true, false, not, ◌||◌, List, length, if◌then◌else◌}
use luka.ReturnCode.{parser_failed}
use luka.Token.{
  Token, TokType, toktype_eq, t_identifier, t_open_paren, t_close_paren, t_open_brace,
  t_close_brace, t_semi_colon, t_colon, t_comma, t_equals, t_eof, t_as, t_mut, t_if, t_else,
  t_while, t_return, t_let, t_break, t_struct, t_enum, t_defer,
}
use luka.Types.Base.{type_any, Ty, type, initialize_type}
use luka.Types.Base as Base
use luka.Ast.{
  Node, return_stmt, if_expr, while_expr, cast_expr, variable, let_stmt, expression_stmt,
  break_stmt, defer_stmt, Body, no_body, body, Nodes, nil, cons,
}
use luka.Parser.State.{
  Libc, Parse, pure, ◌>>=◌, ◌>>◌, stop_exited, stop_fuel, back, current, expect, match, advance,
  expect_advance, match_advance,
}
use luka.Parser.TypeExpr.{parse_type}
use luka.Parser.Levels.{parse_assignment}
use luka.Parser.Primary.{Parsers}
use luka.Parser.Unary.{parse_unary}
use luka.Parser.Declarations.{parse_struct_definition, parse_enum_definition}

-- `parser_is_compound_expr`
unfoldable pub is_compound_expr : Node → Bool
is_compound_expr (while_expr c b) = true
is_compound_expr (if_expr c t e) = true
is_compound_expr _ = false

-- `parser_should_finish_expression`
unfoldable pub should_finish : TokType → Bool
should_finish t_open_brace = true
should_finish t_close_brace = true
should_finish t_semi_colon = true
should_finish t_eof = true
should_finish t_comma = true
should_finish t_close_paren = true
should_finish t_as = true
should_finish _ = false

-- `type->mutable = mutable`
unfoldable pub set_mutable : Ty → Bool → Ty
set_mutable Base.null mutable = Base.null
set_mutable (type b i p m) mutable = type b i p mutable

module _ (libc : Libc) (tokens : List Token) (parsers : Parsers) where
  -- The `else` of an `if`, in front of which the cursor stands.
  unfoldable pub parse_else : Parse Body
  parse_else = do
    has_else ← expect tokens t_else
    if not has_else then pure no_body else do
      advance tokens
      again ← expect tokens t_if
      if again
          then (do
            advance tokens
            e ← parsers.expression
            pure (body (cons (expression_stmt e) nil)))
          else (do stmts ← parsers.statements; pure (body stmts))

  -- The condition and the first body of `if` and `while`.
  unfoldable pub parse_condition : Parse (Node × Nodes)
  parse_condition = do
    advance tokens
    match_advance tokens t_open_paren
    cond ← parsers.expression
    match_advance tokens t_close_paren
    back
    stmts ← parsers.statements
    pure (cond, stmts)

  -- The `switch` of `parser_parse_expression`.
  unfoldable pub expression_of : TokType → Parse Node
  expression_of t_if = do
    (cond, then_body) ← parse_condition
    else_body ← parse_else
    back
    advance tokens
    pure (if_expr cond (body then_body) else_body)
  expression_of t_while = do (cond, stmts) ← parse_condition; pure (while_expr cond (body stmts))
  expression_of _ = parse_assignment tokens (parse_unary libc tokens parsers) parsers.expression

  -- `parser_parse_expression`
  unfoldable pub parse_expression : Parse Node
  parse_expression = do
    token ← current tokens
    node ← expression_of token.type
    casts ← match tokens t_as
    if not casts
        then pure node
        else do t ← parse_type libc tokens false; advance tokens; pure (cast_expr node t)

  -- `parser_parse_let_statement`
  unfoldable pub parse_let : Bool → Parse Node
  parse_let is_global = do
    mutable ← expect tokens t_mut
    if mutable then advance tokens else pure tt
    expect_advance tokens t_identifier
    name ← current tokens
    typed ← expect tokens t_colon
    t ← if typed then parse_type libc tokens true else pure (initialize_type type_any)
    expect_advance tokens t_equals
    advance tokens
    e ← parsers.expression
    match_advance tokens t_semi_colon
    pure (let_stmt (variable name.content (set_mutable t mutable) mutable) e is_global)

  unfoldable pub parse_return : Parse Node
  parse_return = do
    advance tokens
    e ← parsers.expression
    match_advance tokens t_semi_colon
    pure (return_stmt e)

  unfoldable pub parse_break : Parse Node
  parse_break = do expect_advance tokens t_semi_colon; advance tokens; pure break_stmt

  unfoldable pub parse_defer : Parse Node
  parse_defer = do
    advance tokens
    opens ← match tokens t_open_brace
    if opens
        then (do
          back
          stmts ← parsers.statements
          match_advance tokens t_close_brace
          pure (defer_stmt (body stmts)))
        else (do
          e ← parsers.expression
          match_advance tokens t_semi_colon
          pure (defer_stmt (body (cons (expression_stmt e) nil))))

  -- An expression as a statement, or as the value of a body.
  unfoldable pub parse_expression_statement : Parse Node
  parse_expression_statement = do
    e ← parsers.expression
    token ← current tokens
    if toktype_eq token.type t_semi_colon || is_compound_expr e
        then (do advance tokens; pure (expression_stmt e))
        else if should_finish token.type
        then pure e
        else stop_exited parser_failed

  unfoldable pub statement_of : TokType → Parse Node
  statement_of t_return = parse_return
  statement_of t_let = parse_let false
  statement_of t_break = parse_break
  statement_of t_struct = parse_struct_definition libc tokens parsers
  statement_of t_enum = parse_enum_definition libc tokens parsers
  statement_of t_defer = parse_defer
  statement_of _ = parse_expression_statement

  -- `parser_parse_statement`
  unfoldable pub parse_statement : Parse Node
  parse_statement = do token ← current tokens; statement_of token.type

  -- The loop of `parser_parse_statements`.
  unfoldable pub more_statements : ℕ → Parse Nodes
  more_statements zero = stop_fuel
  more_statements (suc fuel) = do
    closes ← expect tokens t_close_brace
    if closes then pure nil else do
      advance tokens
      stmt ← parse_statement
      back
      stmts ← more_statements fuel
      pure (cons stmt stmts)

  -- `parser_parse_statements`
  unfoldable pub parse_statements : Parse Nodes
  parse_statements = do
    expect_advance tokens t_open_brace
    stmts ← more_statements (suc (length tokens))
    advance tokens
    pure stmts

-- The functions that call one another, `fuel` calls deep.
unfoldable pub parsers_at : Libc → List Token → ℕ → Parsers
parsers_at libc tokens zero = record {
  unary = stop_fuel;
  expression = stop_fuel;
  statements = stop_fuel;
}
parsers_at libc tokens (suc fuel) =
    let parsers = parsers_at libc tokens fuel in
    record {
      unary = parse_unary libc tokens parsers;
      expression = parse_expression libc tokens parsers;
      statements = parse_statements libc tokens parsers;
    }
