-- ===== src/Checker.antt =====
-- src/type_checker.c: `check_expr`, `check_stmt` and `CHECK_function`. The messages are left out, with
-- the types that are printed in them. `module` is not NULL here.
pub mod Rules
pub mod Sound
pub mod Complete
pub mod Blind
use luka.Prelude.{
  ◌≡◌, refl, ℕ, zero, suc, ◌-◌, ◌^◌, Bool, true, false, not, ◌&&◌, none, List, [], ◌∷◌,
  if◌then◌else◌, ◌==◌, ltb,
}
use luka.ReturnCode.{Outcome, ok, fault, ◌>>=◌}
use luka.Types.Base.{type_struct, type_enum, Ty, type, base_eq}
use luka.Types.Base as Base
use luka.Types.Cast.{mutable}
use luka.Types.Equal.{equal}
use luka.Types.GetType.{get_type}
use luka.Ast.{
  Node, null, binary_expr, prototype, Prototype, function, if_expr, while_expr, variable, let_stmt,
  assignment_expr, call_expr, expression_stmt, get_expr, Body, no_body, body, Nodes, nil, cons,
  count, Store,
}
use luka.Modules.Resolve.{resolve}
use luka.Core.{lookup_builtin}
use luka.Callable.{FunctionName, fill_function_name, push_front}

-- `required_params_count`, a `size_t`, which wraps below zero.
unfoldable pub required_params : Prototype → ℕ
required_params p =
    let fewer = (if p.arity == 0 then 2 ^ 64 - 1 else p.arity - 1) in
    if p.vararg then fewer else p.arity

-- The two tests on the number of arguments.
unfoldable pub takes_count : Prototype → ℕ → Bool
unfolding required_params
takes_count p n = if p.vararg then not (ltb n (required_params p)) else n == required_params p

-- `type2->mutable && !type1->mutable` does not hold.
unfoldable pub keeps_mutable : Ty → Ty → Outcome Bool
keeps_mutable type1 type2 = do m2 ← mutable type2; if m2 then mutable type1 else ok true

-- The second step is taken where the first one holds.
abbrev pub and_then : Outcome Bool → Outcome Bool → Outcome Bool
and_then a b = a >>= λ x. if x then b else ok false

-- `TYPE_equal`, and what is done where it holds.
abbrev pub if_equal : Ty → Ty → Outcome Bool → Outcome Bool
if_equal a b next = and_then (equal a b) next

-- The function that is called, as a prototype or NULL.
unfoldable pub prototype_of : Node → Outcome Node
prototype_of null = ok null
prototype_of (function p b) = ok p
prototype_of _ = fault

-- A get expression: what type its variable has.
unfoldable pub check_get : Ty → Bool → Bool
unfolding base_eq
check_get Base.null is_enum = false
check_get (type b i p m) is_enum = if is_enum then base_eq type_enum b else base_eq type_struct b

module _ (store : Store) (fuel m : ℕ) where
  -- The loop over the arguments: as far as the parameters and the arguments both go. `types` has an
  -- entry for each of the `arity` parameters.
  unfoldable pub check_args : ℕ → List Ty → Nodes → Outcome Bool
  unfolding keeps_mutable
  check_args zero types args = ok true
  check_args (suc arity) types nil = ok true
  check_args (suc arity) [] (cons node args) = get_type store fuel m node >>= λ type1. fault
  check_args (suc arity) (type2 ∷ types) (cons node args) = do
    let later = check_args arity types args
    type1 ← get_type store fuel m node
    if_equal type1 type2 (and_then (keeps_mutable type1 type2) later)

  -- A call with a prototype, which may be NULL.
  unfoldable pub check_prototype : Node → Nodes → Outcome Bool
  unfolding takes_count check_args
  check_prototype null args = ok false
  check_prototype (prototype p) args =
      let checked = check_args p.arity p.types args in
      if takes_count p (count args) then checked else ok false
  check_prototype _ args = fault

  -- What is called: the builtin, or the function that the look-up finds.
  unfoldable pub find_prototype : FunctionName → Node → Outcome Node
  unfolding lookup_builtin prototype_of
  find_prototype f callable =
      let found = (resolve store fuel m f.name none >>= prototype_of) in
      if f.builtin then lookup_builtin callable else found

  unfoldable pub check_called : FunctionName → Node → Body → Outcome Bool
  unfolding find_prototype check_prototype
  check_called f callable no_body = ok true
  check_called f callable (body args) = do
    proto ← find_prototype f callable
    check_prototype proto args

  -- `case AST_TYPE_CALL_EXPR`; the receiver of a method is pushed, for this call
  -- only: the C code pops it again at the end.
  unfoldable pub check_call : Node → Body → Outcome Bool
  unfolding check_called fill_function_name push_front
  check_call callable args = do
    f ← fill_function_name true callable
    args' ← push_front f.first_arg args
    check_called f callable args'

  -- The types of both sides of an assignment.
  unfoldable pub check_assignment : Node → Node → Outcome Bool
  check_assignment lhs rhs = do
    type1 ← get_type store fuel m lhs
    type2 ← get_type store fuel m rhs
    if_equal type2 type1 (mutable type1)

  -- Of a `let`.
  unfoldable pub check_let : Node → Node → Outcome Bool
  check_let var e = do
    type1 ← get_type store fuel m var
    type2 ← get_type store fuel m e
    if_equal type2 type1 (ok true)

  -- Of a binary expression.
  unfoldable pub check_operands : Node → Node → Outcome Bool
  check_operands lhs rhs = do
    type1 ← get_type store fuel m lhs
    type2 ← get_type store fuel m rhs
    if_equal type1 type2 (ok true)

  unfoldable mutual
    unfolding check_call check_assignment check_let check_operands check_get

    pub check_expr : Node → Outcome Bool
    check_expr null = fault
    check_expr (call_expr callable args) = check_call callable args
    check_expr (while_expr c no_body) = ok true
    check_expr (while_expr c (body b)) = check_stmts b
    check_expr (if_expr c no_body no_body) = ok true
    check_expr (if_expr c no_body (body else_body)) = check_stmts else_body
    check_expr (if_expr c (body then_body) no_body) = check_stmts then_body
    check_expr (if_expr c (body then_body) (body else_body)) =
        and_then (check_stmts then_body) (check_stmts else_body)
    check_expr (assignment_expr lhs rhs) = and_then (check_expr rhs) (check_assignment lhs rhs)
    check_expr (get_expr null key is_enum) = ok false
    check_expr (get_expr (variable name t mut) key is_enum) = ok (check_get t is_enum)
    check_expr (get_expr _ key is_enum) = fault
    check_expr (binary_expr op lhs rhs) =
        and_then (check_expr rhs) (and_then (check_expr rhs) (check_operands lhs rhs))
    check_expr _ = ok true

    -- The loop over the statements of a block, with `check_stmt` written out.
    pub check_stmts : Nodes → Outcome Bool
    check_stmts nil = ok true
    check_stmts (cons (expression_stmt e) ns) = and_then (check_expr e) (check_stmts ns)
    check_stmts (cons (let_stmt var e g) ns) =
        and_then (and_then (check_expr e) (check_let var e)) (check_stmts ns)
    check_stmts (cons n ns) = and_then (check_expr n) (check_stmts ns)

  unfoldable pub check_stmt : Node → Outcome Bool
  unfolding check_expr check_let
  check_stmt (expression_stmt e) = check_expr e
  check_stmt (let_stmt var e g) = and_then (check_expr e) (check_let var e)
  check_stmt n = check_expr n

  pub check_stmts-cons :
      (n : Node) (ns : Nodes) → check_stmts (cons n ns) ≡ and_then (check_stmt n) (check_stmts ns)
  unfolding check_stmts check_stmt
  check_stmts-cons (expression_stmt e) ns = refl
  check_stmts-cons (let_stmt var e g) ns = refl
  check_stmts-cons _ ns = refl

  -- `CHECK_function`
  unfoldable pub check_function : Node → Outcome Bool
  unfolding check_stmts
  check_function (function p no_body) = ok true
  check_function (function p (body b)) = check_stmts b
  check_function _ = fault
