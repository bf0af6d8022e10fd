-- ===== src/Token.antt =====
-- include/defs.h: `t_toktype` and `t_token`; src/lexer.c: the table `keywords`.
use luka.Prelude.{
  Bool, true, ◌≡◌, refl, ap, ◌==◌, ==_iff, ==_refl, Option, ℕ, List, [], ◌∷◌, none, some, Bytes,
  codes, get_elem?, map, String,
}

-- In the order of the enumeration, the 36 keywords first.
pub data TokType : Type 0 where
  t_unknown : TokType
  t_fn t_return t_if t_else t_let t_mut t_extern t_while t_break t_as t_struct t_enum : TokType
  t_import t_type t_defer t_null t_true t_false : TokType
  t_int_type t_char_type t_str_type t_void_type t_float_type t_double_type t_any_type : TokType
  t_bool_type t_u8_type t_u16_type t_u32_type t_u64_type t_s8_type t_s16_type t_s32_type : TokType
  t_s64_type t_f32_type t_f64_type : TokType
  t_identifier t_open_paren t_close_paren t_open_brace t_close_brace t_open_bracket : TokType
  t_close_bracket t_semi_colon t_comma t_number t_string t_char t_plus t_minus t_star : TokType
  t_slash t_percent t_intlit t_equals t_bang t_open_ang t_close_ang t_eqeq t_neq t_leq : TokType
  t_geq t_ampercent t_pipe t_caret t_tilde t_shl t_shr t_colon t_double_colon t_dot : TokType
  t_three_dots t_builtin t_eof : TokType

pub record Token : Type 0 where
  pub line : ℕ
  pub offset : ℕ
  pub type : TokType
  pub content : Bytes
  pub file_path : Bytes

-- The table, as texts.
abbrev keyword_names : List String
keyword_names =
    "fn" ∷ "return" ∷ "if" ∷ "else" ∷ "let" ∷ "mut" ∷ "extern" ∷ "while" ∷ "break" ∷ "as" ∷ "struct"
    ∷ "enum" ∷ "import" ∷ "type" ∷ "defer" ∷ "null" ∷ "true" ∷ "false" ∷ "int" ∷ "char" ∷ "string"
    ∷ "void" ∷ "float" ∷ "double" ∷ "any" ∷ "bool" ∷ "u8" ∷ "u16" ∷ "u32" ∷ "u64" ∷ "s8" ∷ "s16"
    ∷ "s32" ∷ "s64" ∷ "f32" ∷ "f64" ∷ []

unfoldable pub keywords : List Bytes
keywords = map codes keyword_names

-- The enumeration's values below `NUMBER_OF_KEYWORDS`.
unfoldable pub keyword_types : List TokType
keyword_types =
    t_fn ∷ t_return ∷ t_if ∷ t_else ∷ t_let ∷ t_mut ∷ t_extern ∷ t_while ∷ t_break ∷ t_as ∷ t_struct
    ∷ t_enum ∷ t_import ∷ t_type ∷ t_defer ∷ t_null ∷ t_true ∷ t_false ∷ t_int_type ∷ t_char_type
    ∷ t_str_type ∷ t_void_type ∷ t_float_type ∷ t_double_type ∷ t_any_type ∷ t_bool_type ∷ t_u8_type
    ∷ t_u16_type ∷ t_u32_type ∷ t_u64_type ∷ t_s8_type ∷ t_s16_type ∷ t_s32_type ∷ t_s64_type
    ∷ t_f32_type ∷ t_f64_type ∷ []

-- `token->type = number`, the conversion of a keyword's index to the enumeration.
unfoldable pub toktype_of_number : ℕ → TokType
unfolding keyword_types
toktype_of_number n = elim (get_elem? keyword_types n) [ some t ↦ t | none ↦ t_unknown ]

-- The enumeration's values, each one higher, for `T_UNKNOWN` is -1.
unfoldable pub toktype_value : TokType → ℕ
toktype_value t_unknown = 0
toktype_value t_fn = 1
toktype_value t_return = 2
toktype_value t_if = 3
toktype_value t_else = 4
toktype_value t_let = 5
toktype_value t_mut = 6
toktype_value t_extern = 7
toktype_value t_while = 8
toktype_value t_break = 9
toktype_value t_as = 10
toktype_value t_struct = 11
toktype_value t_enum = 12
toktype_value t_import = 13
toktype_value t_type = 14
toktype_value t_defer = 15
toktype_value t_null = 16
toktype_value t_true = 17
toktype_value t_false = 18
toktype_value t_int_type = 19
toktype_value t_char_type = 20
toktype_value t_str_type = 21
toktype_value t_void_type = 22
toktype_value t_float_type = 23
toktype_value t_double_type = 24
toktype_value t_any_type = 25
toktype_value t_bool_type = 26
toktype_value t_u8_type = 27
toktype_value t_u16_type = 28
toktype_value t_u32_type = 29
toktype_value t_u64_type = 30
toktype_value t_s8_type = 31
toktype_value t_s16_type = 32
toktype_value t_s32_type = 33
toktype_value t_s64_type = 34
toktype_value t_f32_type = 35
toktype_value t_f64_type = 36
toktype_value t_identifier = 37
toktype_value t_open_paren = 38
toktype_value t_close_paren = 39
toktype_value t_open_brace = 40
toktype_value t_close_brace = 41
toktype_value t_open_bracket = 42
toktype_value t_close_bracket = 43
toktype_value t_semi_colon = 44
toktype_value t_comma = 45
toktype_value t_number = 46
toktype_value t_string = 47
toktype_value t_char = 48
toktype_value t_plus = 49
toktype_value t_minus = 50
toktype_value t_star = 51
toktype_value t_slash = 52
toktype_value t_percent = 53
toktype_value t_intlit = 54
toktype_value t_equals = 55
toktype_value t_bang = 56
toktype_value t_open_ang = 57
toktype_value t_close_ang = 58
toktype_value t_eqeq = 59
toktype_value t_neq = 60
toktype_value t_leq = 61
toktype_value t_geq = 62
toktype_value t_ampercent = 63
toktype_value t_pipe = 64
toktype_value t_caret = 65
toktype_value t_tilde = 66
toktype_value t_shl = 67
toktype_value t_shr = 68
toktype_value t_colon = 69
toktype_value t_double_colon = 70
toktype_value t_dot = 71
toktype_value t_three_dots = 72
toktype_value t_builtin = 73
toktype_value t_eof = 74

unfoldable pub toktype_eq : TokType → TokType → Bool
unfolding toktype_value
toktype_eq a b = toktype_value a == toktype_value b

of_value : ℕ → Option TokType
of_value n =
    get_elem?
      (t_unknown ∷ t_fn ∷ t_return ∷ t_if ∷ t_else ∷ t_let ∷ t_mut ∷ t_extern ∷ t_while ∷ t_break
        ∷ t_as ∷ t_struct ∷ t_enum ∷ t_import ∷ t_type ∷ t_defer ∷ t_null ∷ t_true ∷ t_false
        ∷ t_int_type ∷ t_char_type ∷ t_str_type ∷ t_void_type ∷ t_float_type ∷ t_double_type
        ∷ t_any_type ∷ t_bool_type ∷ t_u8_type ∷ t_u16_type ∷ t_u32_type ∷ t_u64_type ∷ t_s8_type
        ∷ t_s16_type ∷ t_s32_type ∷ t_s64_type ∷ t_f32_type ∷ t_f64_type ∷ t_identifier
        ∷ t_open_paren ∷ t_close_paren ∷ t_open_brace ∷ t_close_brace ∷ t_open_bracket
        ∷ t_close_bracket ∷ t_semi_colon ∷ t_comma ∷ t_number ∷ t_string ∷ t_char ∷ t_plus ∷ t_minus
        ∷ t_star ∷ t_slash ∷ t_percent ∷ t_intlit ∷ t_equals ∷ t_bang ∷ t_open_ang ∷ t_close_ang
        ∷ t_eqeq ∷ t_neq ∷ t_leq ∷ t_geq ∷ t_ampercent ∷ t_pipe ∷ t_caret ∷ t_tilde ∷ t_shl ∷ t_shr
        ∷ t_colon ∷ t_double_colon ∷ t_dot ∷ t_three_dots ∷ t_builtin ∷ t_eof ∷ [])
      n

of_value-toktype_value : (t : TokType) → of_value (toktype_value t) ≡ some t
unfolding of_value toktype_value
of_value-toktype_value t_unknown = refl
of_value-toktype_value _ = refl

pub toktype_eq_sound : (a b : TokType) → toktype_eq a b ≡ true → a ≡ b
toktype_eq_sound a b h =
    let e : toktype_value a ≡ toktype_value b = (==_iff _ _).0 (unfold toktype_eq in h) in
    cc (of_value-toktype_value a, of_value-toktype_value b, ap of_value e)

pub toktype_eq_refl : (t : TokType) → toktype_eq t t ≡ true
unfolding toktype_eq
toktype_eq_refl t = ==_refl (toktype_value t)
