-- ===== src/Callable.antt =====
-- src/utils.c: the name of a call's function, and the argument that stands for its receiver.
use luka.Prelude.{Bool, true, false, not, Option, none, some, Bytes, str_eq, take, if◌then◌else◌}
use luka.ReturnCode.{Outcome, ok, exited, fault, general_error, ◌>>=◌}
use luka.Types.Base.{type_ptr, type_struct, Payload, text, no_payload, size, Ty, type, base_eq}
use luka.Types.Base as Base
use luka.Types.Dup.{dup_type}
use luka.Types.Text.{name_of}
use luka.Ast.{
  Node, unop_ref, null, unary_expr, variable, get_expr, builtin, Body, no_body, body, nil, cons,
}
use luka.Modules.Resolve.{method_name}

-- The buffer's content, the argument that is pushed to the front where `pushed_first_arg` is given, and
-- `*builtin`.
pub record FunctionName : Type 0 where
  pub name : Bytes
  pub first_arg : Option Node
  pub builtin : Bool

-- `0 != strcmp(var_name, type_payload)`
unfoldable pub differs : Bytes → Payload → Outcome Bool
unfolding str_eq
differs var_name (text s) = ok (not (str_eq var_name s))
differs var_name _ = fault

-- The type of the receiver, and `derefed`.
unfoldable pub receiver : Ty → Outcome (Ty × Bool)
unfolding base_eq
receiver Base.null = fault
receiver (type b i p m) = ok (if base_eq b type_ptr then (i, true) else (type b i p m, false))

-- A receiver that is no pointer is passed by reference.
unfoldable pub receiver_arg : Bytes → Ty → Bool → Bool → Node
receiver_arg name t mutable derefed =
    let arg = variable name t mutable in if derefed then arg else unary_expr unop_ref arg false

-- What is pushed; nothing where `pushed_first_arg` is NULL.
unfoldable pub pushed_arg : Bool → Bytes → Ty → Bool → Bool → Outcome (Option Node)
unfolding receiver_arg
pushed_arg false name t mutable derefed = ok none
pushed_arg true name t mutable derefed = do
  copy ← dup_type t
  ok (some (receiver_arg name copy mutable derefed))

-- A method of a struct's value has the name of its struct in front, and the value as first argument;
-- other names are taken as they stand.
unfoldable pub method_call : Bool → Bytes → Ty → Bool → Bytes → Ty → Bool → Outcome FunctionName
unfolding base_eq differs pushed_arg method_name
method_call push var_name t mutable key Base.null derefed = fault
method_call push var_name t mutable key (type b i p m) derefed =
    let plain =
      ok (record { name = method_name var_name key; first_arg = none; builtin = false }) in
    let sugar = (do
      s ← name_of p
      arg ← pushed_arg push var_name t mutable derefed
      ok (record { name = method_name s key; first_arg = arg; builtin = false })) in
    let struct = (differs var_name p >>= λ d. if d then sugar else plain) in
    if base_eq b type_struct then struct else plain

-- `UTILS_fill_function_name`; `push` says whether `pushed_first_arg` is given. A get expression's variable is read as a node for variables.
unfoldable pub fill_function_name : Bool → Node → Outcome FunctionName
unfolding receiver method_call
fill_function_name push null = fault
fill_function_name push (variable name t m) =
    ok (record { name = take 1023 name; first_arg = none; builtin = false })
fill_function_name push (get_expr (variable name t m) key is_enum) = do
  (inner, derefed) ← receiver t
  method_call push name t m key inner derefed
fill_function_name push (get_expr _ key is_enum) = fault
fill_function_name push (builtin name) =
    ok (record { name = take 1023 name; first_arg = none; builtin = true })
fill_function_name push _ = exited general_error

-- `vector_push_front(node->call_expr.args, &arg)`, where there is an argument to push.
-- The vector library asserts that the vector is not NULL.
unfoldable pub push_front : Option Node → Body → Outcome Body
push_front none args = ok args
push_front (some arg) no_body = fault
push_front (some arg) (body args) = ok (body (cons arg args))

-- `UTILS_pop_first_arg`, on the arguments of a call. The checker, which changes no tree here, has no need of
-- it.
unfoldable pop_first_arg : Body → Body
pop_first_arg no_body = no_body
pop_first_arg (body nil) = body nil
pop_first_arg (body (cons arg args)) = body args
