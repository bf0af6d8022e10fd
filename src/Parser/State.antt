-- ===== src/Parser/State.antt =====
-- include/parser.h: `t_parser`; src/parser.c: the steps on the cursor.
use luka.Prelude.{
  ℕ, ◌+◌, ◌-◌, Bool, true, false, List, [], ◌∷◌, Option, none, some, Bytes, str_eq, length,
  get_elem?, ltb, if◌then◌else◌,
}
use luka.ReturnCode.{ReturnCode, Outcome, ok, returned, exited, fault, out_of_fuel, parser_failed}
use luka.Token.{Token, TokType, toktype_eq}
use luka.Types.Base.{Ty}
use luka.Ast.{Module}

-- The functions of the C library that read a number, as the bits of what they return.
pub record Libc : Type 0 where
  pub atoll : Bytes → ℕ
  pub strtol : Bytes → ℕ
  pub strtof : Bytes → ℕ
  pub strtod : Bytes → ℕ

pub record TypeAlias : Type 0 where
  pub name : Bytes
  pub type : Ty

-- `t_parser`, but for the tokens, which do not change, and the path of the file.
pub record Parser : Type 0 where
  pub index : ℕ
  pub struct_names : List Bytes
  pub enum_names : List Bytes
  pub type_aliases : List TypeAlias
  pub current_module : Module

-- A function on a parser, with what it leaves.
abbrev pub Parse : Type 0 → Type 0
Parse A = Parser → Outcome (A × Parser)

unfoldable pub pure : {A : Type 0} → A → Parse A
pure a p = ok (a, p)

unfoldable pub bind : {A B : Type 0} → (A → Parse B) → Outcome (A × Parser) → Outcome (B × Parser)
bind f (ok (a, p)) = f a p
bind f (returned c) = returned c
bind f (exited c) = exited c
bind f fault = fault
bind f out_of_fuel = out_of_fuel

infixl 5 ◌>>=◌ ◌>>◌
unfoldable pub ◌>>=◌ : {A B : Type 0} → Parse A → (A → Parse B) → Parse B
unfolding bind
◌>>=◌ m f p = bind f (m p)

abbrev pub ◌>>◌ : {B : Type 0} → Parse (Unit {0}) → Parse B → Parse B
m >> k = m >>= λ _. k

-- A computation that does not look at the parser.
unfoldable pub lift : {A : Type 0} → Outcome A → Parse A
lift (ok a) p = ok (a, p)
lift (returned c) p = returned c
lift (exited c) p = exited c
lift fault p = fault
lift out_of_fuel p = out_of_fuel

unfoldable pub read_parser : Parse Parser
read_parser p = ok (p, p)

unfoldable pub write_parser : Parser → Parse (Unit {0})
write_parser q p = ok (tt, q)

unfoldable pub stop_exited : {A : Type 0} → ReturnCode → Parse A
stop_exited c p = exited c

unfoldable pub stop_fault : {A : Type 0} → Parse A
stop_fault p = fault

unfoldable pub stop_fuel : {A : Type 0} → Parse A
stop_fuel p = out_of_fuel

-- `--parser->index`; it follows an advance, so the index is not 0.
unfoldable pub back : Parse (Unit {0})
back p = ok (tt, record p { index = p.index - 1 })

unfoldable pub found : {A : Type 0} → Option A → Parse A
found none p = fault
found (some a) p = ok (a, p)

module _ (tokens : List Token) where
  -- The token `k` places behind the current one; the vector asserts that there is one.
  unfoldable pub token_ahead : ℕ → Parse Token
  token_ahead k p = found (get_elem? tokens (p.index + k)) p

  -- `vector_get(parser->tokens, parser->index)`
  unfoldable pub current : Parse Token
  current = token_ahead 0

  -- `vector_get(parser->tokens, parser->index + 1)`
  unfoldable pub next : Parse Token
  next = token_ahead 1

  -- `parser_err`: it reads the next token for its message.
  unfoldable pub err : {A : Type 0} → Parse A
  err = next >>= λ t. stop_exited parser_failed

  -- `parser_expect`
  unfoldable pub expect : TokType → Parse Bool
  expect type = next >>= λ t. pure (toktype_eq t.type type)

  -- `parser_match`
  unfoldable pub match : TokType → Parse Bool
  match type = current >>= λ t. pure (toktype_eq t.type type)

  -- `parser_advance`, with its assertion.
  unfoldable pub advance : Parse (Unit {0})
  advance p =
      if ltb (p.index + 1) (length tokens) then ok (tt, record p { index = p.index + 1 }) else fault

  -- `parser_expect_advance`
  unfoldable pub expect_advance : TokType → Parse (Unit {0})
  expect_advance type = expect type >>= λ b. if b then advance else err

  -- `parser_match_advance`
  unfoldable pub match_advance : TokType → Parse (Unit {0})
  match_advance type = match type >>= λ b. if b then advance else err

-- `parser_is_struct_name` and `parser_is_enum_name`, their loops.
unfoldable pub known_name : List Bytes → Bytes → Bool
known_name [] name = false
known_name (value ∷ values) name =
    let later = known_name values name in if str_eq value name then true else later
