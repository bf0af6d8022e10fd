-- ===== src/Ast.antt =====
-- include/defs.h: the syntax tree, `t_ast_node` and its variants. A node pointer that may be NULL is a
-- node that may be `null`, a vector pointer a `Body` that may be `no_body`; the `token` of a node, which
-- only the messages use, is left out.
use luka.Prelude.{Option, ℕ, Bool, List, Bytes}
use luka.Types.Base.{Ty}

pub data BinOp : Type 0 where
  binop_add binop_subtract binop_multiply binop_divide binop_modulos : BinOp
  binop_lesser binop_greater binop_equals binop_neq binop_leq binop_geq : BinOp
  binop_shl binop_shr binop_band binop_bxor binop_bor : BinOp

pub data UnOp : Type 0 where
  unop_not unop_minus unop_plus unop_deref unop_ref unop_bnot : UnOp

pub data LiteralType : Type 0 where
  literal_null literal_true literal_false : LiteralType

-- `types` and `args` have `arity` entries.
pub record Prototype : Type 0 where
  pub name : Bytes
  pub args : List Bytes
  pub types : List Ty
  pub return_type : Ty
  pub arity : ℕ
  pub vararg : Bool

pub record StructField : Type 0 where
  pub name : Bytes
  pub type : Ty

mutual
  pub data Node : Type 0 where
    null : Node
    -- The type, and the bits of the value.
    number : Ty → ℕ → Node
    string : Bytes → Node
    unary_expr : UnOp → Node → Bool → Node
    binary_expr : BinOp → Node → Node → Node
    prototype : Prototype → Node
    function : Node → Body → Node
    return_stmt : Node → Node
    if_expr : Node → Body → Body → Node
    while_expr : Node → Body → Node
    cast_expr : Node → Ty → Node
    variable : Bytes → Ty → Bool → Node
    let_stmt : Node → Node → Bool → Node
    assignment_expr : Node → Node → Node
    call_expr : Node → Body → Node
    expression_stmt : Node → Node
    break_stmt : Node
    struct_definition : Bytes → Option (List StructField) → Body → Node
    struct_value : Bytes → Values → Node
    enum_definition : Bytes → Values → Node
    get_expr : Node → Bytes → Bool → Node
    array_deref : Node → Node → Node
    literal : LiteralType → Node
    array_literal : Nodes → Ty → Node
    builtin : Bytes → Node
    type_expr : Ty → Node
    defer_stmt : Body → Node

  pub data Body : Type 0 where
    no_body : Body
    body : Nodes → Body

  pub data Nodes : Type 0 where
    nil : Nodes
    cons : Node → Nodes → Nodes

  -- The fields of a struct's value and of an enum: NULL, or a vector.
  pub data Values : Type 0 where
    null_values no_values : Values
    value_field : Bytes → Node → Values → Values

abbrev pub count : Nodes → ℕ
count nil = 0
count (cons n ns) = ℕ.suc (count ns)

unfoldable pub get_node : Nodes → ℕ → Node
get_node nil i = null
get_node (cons n ns) ℕ.zero = n
get_node (cons n ns) (ℕ.suc i) = get_node ns i

-- `t_module`. A module pointer is a number, which a store takes to the module; `imports` may lead back.
pub record Module : Type 0 where
  pub enums : Body
  pub functions : Body
  pub import_paths : List Bytes
  pub imports : List ℕ
  pub structs : Body
  pub variables : Body
  pub file_path : Bytes

abbrev pub Store : Type 0
Store = ℕ → Module
