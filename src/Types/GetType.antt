-- ===== src/Types/GetType.antt =====
-- src/type.c: `TYPE_get_type`, the type of an expression. `module` is not NULL here.
pub mod Ends
pub mod Total
use luka.Prelude.{
  Option, some, ℕ, zero, suc, true, false, none, List, [], ◌∷◌, Bytes, str_eq, if◌then◌else◌,
}
use luka.ReturnCode.{Outcome, ok, fault, ◌>>=◌}
use luka.Types.Base.{
  type_any, type_bool, type_sint32, type_uint8, type_void, type_ptr, type_struct, type_enum,
  type_array, type_type, Payload, no_payload, text, size, Ty, type, initialize_type,
}
use luka.Types.Base as Base
use luka.Types.Dup.{dup_type}
use luka.Ast.{
  unop_not, unop_minus, unop_plus, unop_deref, unop_ref, unop_bnot, literal_null, literal_true,
  literal_false, StructField, Node, null, number, string, unary_expr, binary_expr, prototype,
  function, return_stmt, if_expr, while_expr, cast_expr, variable, let_stmt, assignment_expr,
  call_expr, expression_stmt, break_stmt, struct_definition, struct_value, enum_definition,
  get_expr, array_deref, literal, array_literal, builtin, type_expr, defer_stmt, Body, no_body,
  body, Nodes, nil, cons, count, Store,
}
use luka.Modules.Resolve.{resolve}
use luka.Core.{lookup_builtin}
use luka.Callable.{FunctionName, fill_function_name}

abbrev any : Outcome Ty
any = ok (type type_any Base.null no_payload false)

-- `type->mutable = true`
unfoldable pub make_mutable : Ty → Outcome Ty
make_mutable Base.null = fault
make_mutable (type b i p m) = ok (type b i p true)

-- `type->inner_type`
abbrev pub inner_type : Ty → Outcome Ty
inner_type Base.null = fault
inner_type (type b i p m) = ok i

-- The element of an array, NULL for an array of type NULL.
unfoldable pub element_type : Ty → Outcome Ty
element_type Base.null = ok Base.null
element_type (type b i p m) = dup_type i

-- The loop over the fields of a struct.
unfoldable pub field_type : Bytes → List StructField → Outcome Ty
unfolding str_eq
field_type key [] = any
field_type key (f ∷ fs) =
    let later = field_type key fs in if str_eq f.name key then dup_type f.type else later

-- The fields of the struct that is found, which may be NULL.
unfoldable pub field_of : Bytes → Option (List StructField) → Outcome Ty
unfolding field_type
field_of key none = any
field_of key (some fields) = field_type key fields

-- The loop over the structs of the module, and then over the fields of the one that is found.
unfoldable pub find_field : Bytes → Bytes → Nodes → Outcome Ty
unfolding field_of str_eq
find_field struct_name key nil = any
find_field struct_name key (cons (struct_definition s fields functions) rest) =
    let later = find_field struct_name key rest in
    if str_eq struct_name s then field_of key fields else later
find_field struct_name key (cons _ rest) = find_field struct_name key rest

unfoldable pub find_struct_field : Bytes → Bytes → Body → Outcome Ty
unfolding find_field
find_struct_field struct_name key no_body = fault
find_struct_field struct_name key (body structs) = find_field struct_name key structs

-- A get expression on a variable of type `t`.
unfoldable pub get_field : Ty → Bytes → Body → Outcome Ty
unfolding find_struct_field
get_field Base.null key structs = fault
get_field (type b i no_payload m) key structs = any
get_field (type b i (size zero) m) key structs = any
get_field (type b i (size (suc n)) m) key structs = fault
get_field (type b i (text s) m) key structs = find_struct_field s key structs

-- What a look-up found.
unfoldable pub return_type_of : Node → Outcome Ty
return_type_of null = any
return_type_of (function (prototype p) b) = dup_type p.return_type
return_type_of (function _ b) = any
return_type_of _ = fault

unfoldable pub builtin_type : Node → Outcome Ty
builtin_type (prototype p) = dup_type p.return_type
builtin_type _ = fault

-- The variable parameter `fuel` is that of the look-up.
module _ (store : Store) (fuel m : ℕ) where
  -- The type of a call that `UTILS_fill_function_name` has named.
  unfoldable pub call_type : FunctionName → Outcome Ty → Outcome Ty
  unfolding resolve return_type_of
  call_type f callable_type =
      let resolved = (resolve store fuel m f.name none >>= return_type_of) in
      if f.builtin then callable_type else resolved

  unfoldable mutual
    unfolding initialize_type make_mutable element_type get_field builtin_type call_type
        lookup_builtin fill_function_name

    pub get_type : Node → Outcome Ty
    get_type null = fault
    get_type (struct_definition s fields functions) = ok (initialize_type type_void)
    get_type break_stmt = ok (initialize_type type_void)
    get_type (expression_stmt e) = ok (initialize_type type_void)
    get_type (let_stmt var e g) = ok (initialize_type type_void)
    get_type (defer_stmt b) = ok (initialize_type type_void)
    get_type (literal literal_false) = ok (initialize_type type_bool)
    get_type (literal literal_true) = ok (initialize_type type_bool)
    get_type (literal literal_null) = ok (type type_ptr (initialize_type type_any) no_payload false)
    get_type (assignment_expr lhs rhs) = get_type lhs
    get_type (function null b) = any
    get_type (function p b) = get_type p
    get_type (prototype p) = dup_type p.return_type
    get_type (builtin name) = lookup_builtin (builtin name) >>= builtin_type
    get_type (type_expr t) = ok (initialize_type type_type)
    get_type (if_expr c no_body no_body) = ok (initialize_type type_void)
    get_type (if_expr c no_body (body else_body)) = last_type else_body
    get_type (if_expr c (body then_body) b) = last_type then_body
    get_type (while_expr c no_body) = ok (initialize_type type_void)
    get_type (while_expr c (body b)) = last_type b
    get_type (number t bits) = dup_type t >>= make_mutable
    get_type (string s) = ok (type type_ptr (initialize_type type_uint8) no_payload false)
    get_type (variable name t mut) = dup_type t
    get_type (cast_expr e t) = dup_type t
    get_type (return_stmt e) = get_type e
    get_type (array_deref v index) = get_type v >>= element_type
    get_type (get_expr v key true) = ok (initialize_type type_sint32)
    get_type (get_expr v key false) = get_type v >>= λ t. get_field t key (store m).structs
    get_type (unary_expr unop_minus e mut) = get_type e
    get_type (unary_expr unop_plus e mut) = get_type e
    get_type (unary_expr unop_bnot e mut) = get_type e
    get_type (unary_expr unop_not e mut) = ok (initialize_type type_bool)
    get_type (unary_expr unop_ref e mut) = get_type e >>= λ t. ok (type type_ptr t no_payload mut)
    get_type (unary_expr unop_deref e mut) = get_type e >>= inner_type >>= dup_type
    get_type (binary_expr op lhs rhs) = get_type rhs
    get_type (call_expr callable args) =
        let callable_type = get_type callable in
        (fill_function_name false callable >>= λ f. call_type f callable_type)
    get_type (struct_value name fields) = ok (type type_struct Base.null (text name) true)
    get_type (enum_definition name fields) = ok (type type_enum Base.null (text name) false)
    get_type (array_literal exprs t) =
        dup_type t >>= λ i. ok (type type_array i (size (count exprs)) false)

    -- `type_last_stmt_type`
    pub last_type : Nodes → Outcome Ty
    last_type nil = fault
    last_type (cons n nil) = get_type n
    last_type (cons n (cons k ns)) = last_type (cons k ns)
