-- ===== src/Parser/TypeExpr.antt =====
-- src/parser.c: `parser_parse_type`.
pub mod Tokens
pub mod RoundTrip
use luka.Prelude.{
  ℕ, zero, suc, Bool, true, false, ◌||◌, not, List, Option, none, some, Bytes, length,
  if◌then◌else◌,
}
use luka.Token.{
  Token, TokType, toktype_eq, t_colon, t_mut, t_any_type, t_bool_type, t_s8_type, t_s16_type,
  t_s32_type, t_int_type, t_s64_type, t_u8_type, t_char_type, t_u16_type, t_u32_type, t_u64_type,
  t_f32_type, t_float_type, t_f64_type, t_double_type, t_str_type, t_void_type, t_struct, t_enum,
  t_identifier, t_open_bracket, t_close_bracket, t_star,
}
use luka.Types.Base.{
  BaseType, type_any, type_bool, type_sint8, type_sint16, type_sint32, type_sint64, type_uint8,
  type_uint16, type_uint32, type_uint64, type_f32, type_f64, type_string, type_void, type_ptr,
  type_struct, type_enum, type_array, type_alias, no_payload, text, size, Ty, null, type,
}
use luka.Parser.State.{
  Parser, Parse, pure, ◌>>=◌, ◌>>◌, read_parser, stop_fuel, current, next, err, expect, advance,
  expect_advance, known_name, Libc,
}

-- The cases of the `switch` that only choose a base type; a `*`, a `[` and a second `mut` leave the
-- zero that `calloc` has written.
unfoldable pub simple_type : TokType → Option BaseType
simple_type t_any_type = some type_any
simple_type t_bool_type = some type_bool
simple_type t_s8_type = some type_sint8
simple_type t_s16_type = some type_sint16
simple_type t_s32_type = some type_sint32
simple_type t_int_type = some type_sint32
simple_type t_s64_type = some type_sint64
simple_type t_u8_type = some type_uint8
simple_type t_char_type = some type_uint8
simple_type t_u16_type = some type_uint16
simple_type t_u32_type = some type_uint32
simple_type t_u64_type = some type_uint64
simple_type t_f32_type = some type_f32
simple_type t_float_type = some type_f32
simple_type t_f64_type = some type_f64
simple_type t_double_type = some type_f64
simple_type t_str_type = some type_string
simple_type t_void_type = some type_void
simple_type t_mut = some type_any
simple_type t_open_bracket = some type_any
simple_type t_star = some type_any
simple_type _ = none

-- `case T_IDENTIFIER`
unfoldable pub named_type : Parser → Bytes → BaseType
named_type p name =
    if known_name p.struct_names name
    then type_struct
    else if known_name p.enum_names name
    then type_enum
    else type_alias

-- The tokens that continue a type.
unfoldable pub is_suffix : TokType → Bool
is_suffix t = toktype_eq t t_star || toktype_eq t t_open_bracket || toktype_eq t t_mut

module _ (libc : Libc) (tokens : List Token) where
  -- The cases that read or write more than the base type.
  unfoldable pub tagged_type : Token → Bool → TokType → Parse Ty
  tagged_type token mutable t_struct = do
    advance tokens
    t ← current tokens
    pure (type type_struct null (text t.content) mutable)
  tagged_type token mutable t_enum = do
    advance tokens
    t ← current tokens
    pure (type type_enum null (text t.content) mutable)
  tagged_type token mutable t_identifier = do
    p ← read_parser
    pure (type (named_type p token.content) null (text token.content) mutable)
  tagged_type token mutable _ = err tokens

  unfoldable pub base_type_of : Token → Bool → Option BaseType → Parse Ty
  base_type_of token mutable (some b) = pure (type b null no_payload mutable)
  base_type_of token mutable none = tagged_type token mutable token.type

  -- The `switch`.
  unfoldable pub base_type : Token → Bool → Parse Ty
  base_type token mutable = base_type_of token mutable (simple_type token.type)

  -- `mut` before a type, a `*` or a `[`, and the token behind it.
  unfoldable pub mut_prefix : Parse (Bool × Token)
  mut_prefix = do
    token ← next tokens
    if not (toktype_eq token.type t_mut)
        then pure (false, token)
        else do advance tokens; behind ← next tokens; pure (true, behind)

  -- The length between `[` and `]`.
  unfoldable pub array_length : Parse ℕ
  array_length = do
    closes ← expect tokens t_close_bracket
    if closes
        then pure 0
        else do token ← next tokens; advance tokens; pure (libc.atoll token.content)

  -- The pointer or the array around `inner`, in front of the token that says which.
  unfoldable pub outer_type : Ty → Bool → TokType → Parse Ty
  outer_type inner mutable t_open_bracket = do
    length ← array_length
    expect_advance tokens t_close_bracket
    pure (type type_array inner (size length) mutable)
  outer_type inner mutable _ = pure (type type_ptr inner no_payload mutable)

  -- One round of the loop.
  unfoldable pub wrap_type : Ty → Parse Ty
  wrap_type inner = do
    (mutable, token) ← mut_prefix
    advance tokens
    outer_type inner mutable token.type

  -- The loop, each round of which goes past a token.
  unfoldable pub type_suffixes : ℕ → Ty → Parse Ty
  type_suffixes zero inner = stop_fuel
  type_suffixes (suc fuel) inner = do
    token ← next tokens
    if not (is_suffix token.type)
        then pure inner
        else do outer ← wrap_type inner; type_suffixes fuel outer

  -- Behind the prefix.
  unfoldable pub parse_bare_type : Parse Ty
  parse_bare_type = do
    (mutable, token) ← mut_prefix
    advance tokens
    inner ← base_type token mutable
    type_suffixes (suc (length tokens)) inner

  -- `parser_parse_type`
  unfoldable pub parse_type : Bool → Parse Ty
  parse_type false = parse_bare_type
  parse_type true = do
    colon ← expect tokens t_colon
    if not colon
        then pure (type type_any null no_payload false)
        else do expect_advance tokens t_colon; parse_bare_type
