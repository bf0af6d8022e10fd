-- ===== src/Parser/Literal.antt =====
-- src/parser.c: what the primary expressions read without the cursor.
use luka.Prelude.{
  ℕ, ◌%◌, ◌^◌, Bool, true, false, ◌==◌, ◌||◌, [], ◌∷◌, some, none, Bytes, if◌then◌else◌,
}
use luka.ReturnCode.{Outcome, ok, ◌>>=◌}
use luka.Token.{TokType, t_open_bracket, t_mut, t_star}
use luka.Types.Base.{type_sint32, type_f32, type_f64, text, Ty, type, initialize_type}
use luka.Types.Base as Base
use luka.Types.Equal.{equal}
use luka.Types.GetType.{get_type}
use luka.Ast.{Node, number, Store}
use luka.Parser.State.{Libc, Parser}
use luka.Parser.TypeExpr.{simple_type}

-- `TYPE_is_floating_point`
unfoldable pub is_floating_point : Bytes → Bool
is_floating_point [] = false
is_floating_point (c ∷ s) = c == b'.' || is_floating_point s

-- `content[strlen(content) - 1]`, of a content that is not empty.
unfoldable pub last_byte : Bytes → ℕ
last_byte [] = 0
last_byte (c ∷ []) = c
last_byte (c ∷ d ∷ s) = last_byte (d ∷ s)

-- `case T_NUMBER`. The value's bits: of a float, of a double, or of a `long` cut down to 32 bits.
unfoldable pub number_node : Libc → Bytes → Node
number_node libc content =
    if is_floating_point content
    then if last_byte content == b'f'
      then number (initialize_type type_f32) (libc.strtof content)
      else number (initialize_type type_f64) (libc.strtod content)
    else number (initialize_type type_sint32) (libc.strtol content % 2 ^ 32)

-- `token->content[0]`, the terminator in an empty text.
unfoldable pub first_byte : Bytes → ℕ
first_byte [] = 0
first_byte (c ∷ s) = c

-- The types a primary expression may start with; the other three are operators and brackets.
unfoldable pub is_type_token : TokType → Bool
is_type_token t_mut = false
is_type_token t_star = false
is_type_token t_open_bracket = false
is_type_token t = elim (simple_type t) [ some b ↦ true | none ↦ false ]

-- A type with the name of a struct or an enum.
unfoldable pub with_name : Base.BaseType → Bytes → Ty
with_name b name = type b Base.null (text name) false

-- The modules that `TYPE_get_type` can reach: the one that is read, whose `imports` are empty still.
unfoldable pub reading : Parser → Store
reading p m = record p.current_module { imports = [] }

-- The type of the elements behind one more of them. The comparison only warns.
unfoldable pub item_type : Parser → Ty → Node → Outcome Ty
item_type p Base.null e = get_type (reading p) 1 0 e
item_type p t e = get_type (reading p) 1 0 e >>= λ u. equal t u >>= λ same. ok t
