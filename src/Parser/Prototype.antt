-- ===== src/Parser/Prototype.antt =====
-- src/parser.c: `parser_parse_prototype`.
use luka.Prelude.{
  ℕ, zero, suc, Bool, true, false, ◌||◌, List, [], ◌∷◌, map, Bytes, length, if◌then◌else◌,
}
use luka.Token.{Token, toktype_eq, t_identifier, t_open_paren, t_close_paren, t_comma, t_three_dots}
use luka.Types.Base.{
  type_any, type_sint32, no_payload, Ty, type, base_eq, is_floating_type, initialize_type,
}
use luka.Types.Base as Base
use luka.Ast.{Node, prototype}
use luka.Parser.State.{
  Libc, Parse, pure, ◌>>=◌, ◌>>◌, stop_fuel, current, err, expect, advance, expect_advance,
}
use luka.Parser.TypeExpr.{parse_type}

-- The type of the argument `...`.
unfoldable pub vararg_type : Ty → Ty
vararg_type Base.null = Base.null
vararg_type (type b i p m) =
    if base_eq type_any b then type b i p m else type type_any Base.null no_payload m

-- An argument: its name and its type.
pub record Arg : Type 0 where
  pub name : Bytes
  pub type : Ty

module _ (libc : Libc) (tokens : List Token) where
  -- An argument whose name is the current token.
  unfoldable pub parse_arg : Token → Parse Arg
  parse_arg token = do
    t ← parse_type libc tokens true
    let u = if toktype_eq token.type t_three_dots then vararg_type t else t
    pure (record { name = token.content; type = u })

  -- The loop over the arguments behind the first, until `)` or behind `...`.
  unfoldable pub more_args : ℕ → Bool → Parse (List Arg × Bool)
  more_args zero vararg = stop_fuel
  more_args (suc fuel) vararg = do
    closes ← expect tokens t_close_paren
    if closes || vararg then pure ([], vararg) else do
      expect_advance tokens t_comma
      named ← expect tokens t_identifier
      dots ← expect tokens t_three_dots
      if named || dots then pure tt else err tokens
      advance tokens
      token ← current tokens
      arg ← parse_arg token
      (args, ends) ← more_args fuel (toktype_eq token.type t_three_dots)
      pure (arg ∷ args, ends)

  -- What follows the `(`: the arguments and whether the last is `...`.
  unfoldable pub parse_args : Parse (List Arg × Bool)
  parse_args = do
    closes ← expect tokens t_close_paren
    if closes then (do advance tokens; pure ([], false)) else do
      advance tokens
      token ← current tokens
      arg ← parse_arg token
      (args, vararg) ← more_args (suc (length tokens)) (toktype_eq token.type t_three_dots)
      expect_advance tokens t_close_paren
      pure (arg ∷ args, vararg)

  -- `parser_parse_prototype`
  unfoldable pub parse_prototype : Parse Node
  parse_prototype = do
    expect_advance tokens t_identifier
    name ← current tokens
    expect_advance tokens t_open_paren
    (args, vararg) ← parse_args
    return_type ← parse_type libc tokens true
    pure (
        prototype (record {
          name = name.content;
          args = map (λ a. a.name) args;
          types = map (λ a. a.type) args;
          return_type = return_type;
          arity = length args;
          vararg = vararg;
        }))
