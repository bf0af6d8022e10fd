-- ===== src/Examples/Checker.antt =====
-- The theorems on src/type_checker.c at a small program, and runs of the checker on it.
use luka.Prelude.{◌≡◌, ◌↔◌, refl, true, false, [], ◌∷◌, codes, Bytes}
use luka.ReturnCode.{ok}
use luka.Types.Base.{type_sint32, type_void, type_ptr, Ty, type, no_payload, initialize_type}
use luka.Types.Base as Base
use luka.Types.Equal.{equal}
use luka.Types.Dup.{dup_type}
use luka.Types.GetType.{get_type}
use luka.Ast.{
  binop_add, binop_subtract, Node, null, number, prototype, function, variable, let_stmt, call_expr,
  cast_expr, expression_stmt, assignment_expr, binary_expr, while_expr, literal, literal_true,
  string, Body, no_body, body, nil, cons, Store,
}
use luka.Modules.Resolve.{resolve_in, resolve}
use luka.Checker.{check_function, check_expr}
use luka.Checker.Rules.{BodyRule}
use luka.Checker.Complete.{check_function_iff}
use luka.Checker.Blind.{check_expr-binary_expr}

abbrev int : Ty
int = type type_sint32 Base.null no_payload true

abbrev three : Node
three = number int 3

abbrev x : Node
x = variable (codes "x") int true

abbrev call : Bytes → Node → Node
call f arg = call_expr (variable f Base.null false) (body (cons arg nil))

-- `fn half(mut s32): mut s32`
abbrev half : Node
half =
    function
      (prototype (record {
        name = codes "half";
        args = codes "n" ∷ [];
        types = int ∷ [];
        return_type = int;
        arity = 1;
        vararg = false;
      }))
      no_body

abbrev program : Store
program _ = record {
  enums = no_body;
  functions = body (cons half nil);
  import_paths = [];
  imports = [];
  structs = body nil;
  variables = body nil;
  file_path = codes "main";
}

-- `let mut x = half(3); while true { x = x + 3; }`
abbrev main_body : Body
main_body = body (
    cons (let_stmt x (call (codes "half") three) false) (
      cons
        (expression_stmt (
          while_expr (literal literal_true) (
            body (cons (expression_stmt (assignment_expr x (binary_expr binop_add x three))) nil))))
        nil))

run_main_body : check_function program 1 0 (function null main_body) ≡ ok true
unfolding check_function resolve resolve_in get_type dup_type equal
run_main_body = refl

-- `half("a")`
run_wrong_argument : check_expr program 1 0 (call (codes "half") (string (codes "a"))) ≡ ok false
unfolding check_expr resolve resolve_in get_type equal
run_wrong_argument = refl

-- `nope(3)`
run_unknown : check_expr program 1 0 (call (codes "nope") three) ≡ ok false
unfolding check_expr resolve resolve_in
run_unknown = refl

-- `(nope(3) as mut s32) + 3`: the left operand calls a function that is not declared.
run_unknown_operand :
    check_expr program 1 0 (binary_expr binop_add (cast_expr (call (codes "nope") three) int) three)
    ≡ ok true
unfolding check_expr get_type dup_type equal
run_unknown_operand = refl

check_function_iff_example :
    (check_function program 1 0 (function null main_body) ≡ ok true)
    ↔ BodyRule program 1 0 main_body
check_function_iff_example = check_function_iff program 1 0 null main_body

check_expr-binary_expr_example :
    check_expr program 1 0 (binary_expr binop_add x three)
    ≡ check_expr program 1 0
        (binary_expr binop_subtract (cast_expr (call (codes "nope") three) int) three)
unfolding get_type dup_type
check_expr-binary_expr_example =
    check_expr-binary_expr program 1 0 binop_add binop_subtract x
      (cast_expr (call (codes "nope") three) int) three refl
