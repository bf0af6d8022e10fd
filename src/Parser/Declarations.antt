-- ===== src/Parser/Declarations.antt =====
-- src/parser.c: functions, structs and enums.
use luka.Prelude.{
  ℕ, zero, suc, ◌+◌, ◌-◌, ◌^◌, ◌%◌, ◌==◌, true, not, ◌||◌, List, [], ◌∷◌, Option, none, some, Bytes,
  length, if◌then◌else◌,
}
use luka.Token.{Token, t_identifier, t_open_brace, t_close_brace, t_comma, t_equals, t_fn, t_struct}
use luka.Types.Base.{type_sint32, type, is_floating_type, initialize_type}
use luka.Ast.{
  StructField, Node, number, function, struct_definition, enum_definition, body, Nodes, nil, cons,
  Values, null_values, no_values, value_field,
}
use luka.Parser.State.{
  Libc, Parse, pure, ◌>>=◌, ◌>>◌, write_parser, stop_fault, stop_fuel, back, current, match,
  advance, expect_advance, match_advance,
}
use luka.Parser.TypeExpr.{parse_type}
use luka.Parser.Primary.{Parsers}
use luka.Parser.Unary.{parse_primary}
use luka.Parser.Prototype.{parse_prototype}

-- The fields in front of which one more is put; NULL stays NULL.
unfoldable pub add_value : Bytes → Node → Values → Values
add_value name e null_values = null_values
add_value name e fields = value_field name e fields

-- The value of an enum's field, if it is a number and no floating one.
unfoldable pub integer_value : Node → Option ℕ
integer_value (number (type b i p m) bits) = if is_floating_type b then none else some bits
integer_value _ = none

module _ (libc : Libc) (tokens : List Token) where
  -- `parser_parse_struct_field`
  unfoldable pub parse_struct_field : Parse StructField
  parse_struct_field = do
    name ← current tokens
    match_advance tokens t_identifier
    back
    t ← parse_type libc tokens true
    advance tokens
    pure (record { name = name.content; type = t })

  -- The fields up to the `}` or the first `fn`.
  unfoldable pub struct_fields : ℕ → Parse (List StructField)
  struct_fields zero = stop_fuel
  struct_fields (suc fuel) = do
    functions ← match tokens t_fn
    if functions then pure [] else do
      field ← parse_struct_field
      closes ← match tokens t_close_brace
      ends ← match tokens t_fn
      if closes || ends
          then pure (field ∷ [])
          else do match_advance tokens t_comma; fields ← struct_fields fuel; pure (field ∷ fields)

  -- `parser_parse_struct_fields`, with `none` for NULL, the answer if there is no field.
  unfoldable pub some_fields : List StructField → Option (List StructField)
  some_fields [] = none
  some_fields (f ∷ fs) = some (f ∷ fs)

  unfoldable pub parse_struct_fields : Parse (Option (List StructField))
  parse_struct_fields = do
    closes ← match tokens t_close_brace
    fields ← if closes then pure [] else struct_fields (suc (length tokens))
    pure (some_fields fields)

  module _ (parsers : Parsers) where
    -- `parser_parse_function`
    unfoldable pub parse_function : Parse Node
    parse_function = do
      p ← parse_prototype libc tokens
      stmts ← parsers.statements
      pure (function p (body stmts))

    -- The loop of `parser_parse_struct_functions`.
    unfoldable pub struct_functions : ℕ → Parse Nodes
    struct_functions zero = stop_fuel
    struct_functions (suc fuel) = do
      f ← parse_function
      advance tokens
      closes ← match tokens t_close_brace
      if closes then pure (cons f nil) else do fs ← struct_functions fuel; pure (cons f fs)

    unfoldable pub parse_struct_functions : Parse Nodes
    parse_struct_functions = do
      closes ← match tokens t_close_brace
      if closes then pure nil else struct_functions (suc (length tokens))

    -- `vector_push_front(parser->struct_names, &name)`
    unfoldable pub add_struct_name : Bytes → Parse (Unit {0})
    add_struct_name name p = write_parser (record p { struct_names = name ∷ p.struct_names }) p

    unfoldable pub add_enum_name : Bytes → Parse (Unit {0})
    add_enum_name name p = write_parser (record p { enum_names = name ∷ p.enum_names }) p

    -- `parser_parse_struct_definition`, but for printing it.
    unfoldable pub parse_struct_definition : Parse Node
    parse_struct_definition = do
      match_advance tokens t_struct
      back
      expect_advance tokens t_identifier
      name ← current tokens
      expect_advance tokens t_open_brace
      advance tokens
      add_struct_name name.content
      fields ← parse_struct_fields
      functions ← parse_struct_functions
      match_advance tokens t_close_brace
      pure (struct_definition name.content fields (body functions))

    -- The value of an enum's field behind its name, as a node and as an `int`: the next one, or what is
    -- given if it is an integer.
    unfoldable pub enum_value : ℕ → Parse (Option (Node × ℕ))
    enum_value value = do
      explicit ← match tokens t_equals
      if not explicit then pure (some (number (initialize_type type_sint32) value, value)) else do
        advance tokens
        n ← parse_primary libc tokens parsers
        pure (elim (integer_value n) [ some bits ↦ some (n, bits % 2 ^ 32) | none ↦ none ])

    -- What follows the value of a field, with NULL for one that is no integer; `rest` reads the later
    -- fields from the next value on. `int` arithmetic is undefined behind the greatest `int`.
    unfoldable pub enum_field : Bytes → (ℕ → Parse Values) → Option (Node × ℕ) → Parse Values
    enum_field name rest none = pure null_values
    enum_field name rest (some (n, bits)) = do
      if bits == 2 ^ 31 - 1 then stop_fault else pure tt
      closes ← match tokens t_close_brace
      if closes then pure (value_field name n no_values) else do
        match_advance tokens t_comma
        fields ← rest ((bits + 1) % 2 ^ 32)
        pure (add_value name n fields)

    -- The loop of `parser_parse_enum_fields`.
    unfoldable pub enum_fields : ℕ → ℕ → Parse Values
    enum_fields zero value = stop_fuel
    enum_fields (suc fuel) value = do
      name ← current tokens
      match_advance tokens t_identifier
      given ← enum_value value
      enum_field name.content (enum_fields fuel) given

    -- `parser_parse_enum_fields`
    unfoldable pub parse_enum_fields : Parse Values
    parse_enum_fields = do
      closes ← match tokens t_close_brace
      if closes then pure no_values else enum_fields (suc (length tokens)) 0

    -- The case of `enum` in statements and in files.
    unfoldable pub parse_enum_definition : Parse Node
    parse_enum_definition = do
      expect_advance tokens t_identifier
      name ← current tokens
      expect_advance tokens t_open_brace
      advance tokens
      fields ← parse_enum_fields
      match_advance tokens t_close_brace
      add_enum_name name.content
      pure (enum_definition name.content fields)
