-- ===== src/Checker/Complete.antt =====
-- What follows the rules is accepted by the type checker.
use luka.Prelude.{ℕ, ◌≡◌, ◌↔◌, refl, Bool, true, false, List}
use luka.ReturnCode.{ok}
use luka.Types.Base.{Ty}
use luka.Types.Cast.{mutable}
use luka.Ast.{
  Node, null, binary_expr, function, if_expr, while_expr, let_stmt, assignment_expr, call_expr,
  expression_stmt, get_expr, Body, Nodes, cons, Store,
}
use luka.Checker.{
  keeps_mutable, and_then, check_args, check_prototype, check_called, check_call, check_assignment,
  check_let, check_operands, check_expr, check_stmts, check_function,
}
use luka.Checker.Rules.{
  is_free, is_expr, Agree, ArgsFit, no_params, no_args, fits, CallFits, unchecked, checked,
  ExprRule, calls, loops, branches, assigns, gets, operates, free, BodyRule, without, block,
  BlockRule, empty, expression, lets, other,
}
use luka.Checker.Sound.{check_function-BodyRule}

module _ (store : Store) (fuel m : ℕ) where
  Agree-operands : (a b : Node) → Agree store fuel m a b → check_operands store fuel m a b ≡ ok true
  unfolding check_operands
  Agree-operands a b r = rw (r.first, r.second, r.same) refl

  Agree-let : (var e : Node) → Agree store fuel m e var → check_let store fuel m var e ≡ ok true
  unfolding check_let
  Agree-let var e r = rw (r.second, r.first, r.same) refl

  Agree-assignment :
      (lhs rhs : Node) (r : Agree store fuel m rhs lhs)
      → mutable r.type2 ≡ ok true
      → check_assignment store fuel m lhs rhs ≡ ok true
  unfolding check_assignment
  Agree-assignment lhs rhs r h = rw (r.second, r.first, r.same, h) refl

  Fits-keeps :
      (w : Bool) (t1 t2 : Ty)
      → mutable t2 ≡ ok w
      → (w ≡ true → mutable t1 ≡ ok true)
      → keeps_mutable t1 t2 ≡ ok true
  unfolding keeps_mutable
  Fits-keeps true t1 t2 f k = rw (f, k refl) refl
  Fits-keeps false t1 t2 f k = rw f refl

  ArgsFit-args :
      (n : ℕ) (ts : List Ty) (args : Nodes)
      → ArgsFit store fuel m n ts args
      → check_args store fuel m n ts args ≡ ok true
  unfolding check_args
  ArgsFit-args n ts args (no_params _ _) = refl
  ArgsFit-args n ts args (no_args _ _) = refl
  ArgsFit-args n ts args (fits {n = n'} {t} {ts = ts'} {a} {args = args'} f rest) =
      rw
        (
          f.has_type,
          f.same,
          Fits-keeps f.writes f.type1 t f.flag f.kept,
          ArgsFit-args n' ts' args' rest,
        )
        refl

  CallFits-call :
      (callable : Node) (args : Body)
      → CallFits store fuel m callable args
      → check_call store fuel m callable args ≡ ok true
  unfolding check_call check_called check_prototype
  CallFits-call callable args (unchecked f a b) = rw (a, b) refl
  CallFits-call callable args (checked f ns p a b c e r) =
      rw (a, b, c, e, ArgsFit-args p.arity p.types ns r) refl

  free-expr : (n : Node) → is_free n ≡ true → check_expr store fuel m n ≡ ok true
  unfolding check_expr
  free-expr null h = cc
  free-expr (call_expr c a) h = cc
  free-expr (while_expr c b) h = cc
  free-expr (if_expr c t e) h = cc
  free-expr (assignment_expr l r) h = cc
  free-expr (get_expr v k e) h = cc
  free-expr (binary_expr op l r) h = cc
  free-expr _ h = refl

  other-stmts :
      (n : Node) (ns : Nodes)
      → is_expr n ≡ true
      → check_stmts store fuel m (cons n ns)
        ≡ and_then (check_expr store fuel m n) (check_stmts store fuel m ns)
  unfolding check_stmts
  other-stmts (expression_stmt e) ns h = cc
  other-stmts (let_stmt v e g) ns h = cc
  other-stmts _ ns h = refl

  mutual
    unfolding check_expr

    ExprRule-expr : (n : Node) → ExprRule store fuel m n → check_expr store fuel m n ≡ ok true
    ExprRule-expr n (calls {callable} {args} r) = CallFits-call callable args r
    ExprRule-expr n (loops c without) = refl
    ExprRule-expr n (loops c (block {ns} r)) = BlockRule-stmts ns r
    ExprRule-expr n (branches c without without) = refl
    ExprRule-expr n (branches c without (block {ns = es} e)) = BlockRule-stmts es e
    ExprRule-expr n (branches c (block {ns = ts} t) without) = BlockRule-stmts ts t
    ExprRule-expr n (branches c (block {ns = ts} t) (block {ns = es} e)) =
        rw (BlockRule-stmts ts t) (BlockRule-stmts es e)
    ExprRule-expr n (assigns {lhs} {rhs} r a h) =
        rw (ExprRule-expr rhs r) (Agree-assignment lhs rhs a h)
    ExprRule-expr n (gets name t mut key is_enum h) = rw h refl
    ExprRule-expr n (operates op {lhs} {rhs} r a) =
        rw (ExprRule-expr rhs r) (Agree-operands lhs rhs a)
    ExprRule-expr n (free h) = free-expr n h

    BlockRule-stmts :
        (ns : Nodes) → BlockRule store fuel m ns → check_stmts store fuel m ns ≡ ok true
    BlockRule-stmts ns empty = refl
    BlockRule-stmts ns (expression {e} {ns = rest} r rs) =
        rw (ExprRule-expr e r) (BlockRule-stmts rest rs)
    BlockRule-stmts ns (lets {var} {e} g {ns = rest} r a rs) =
        rw (ExprRule-expr e r, Agree-let var e a) (BlockRule-stmts rest rs)
    BlockRule-stmts ns (other {n} {ns = rest} h r rs) =
        rw (other-stmts n rest h, ExprRule-expr n r) (BlockRule-stmts rest rs)

  BodyRule-check_function :
      (p : Node) (b : Body)
      → BodyRule store fuel m b
      → check_function store fuel m (function p b) ≡ ok true
  unfolding check_function
  BodyRule-check_function p b without = refl
  BodyRule-check_function p b (block {ns} r) = BlockRule-stmts ns r

  -- `CHECK_function` accepts a function exactly when its body follows the rules: in each block, those of
  -- loops and branches included, calls have a prototype that takes the arguments, the sides of a `let`,
  -- an assignment and a binary expression have types of which one is accepted for the other, the left
  -- side of an assignment is mutable, and the variable of a get expression is an enum or a struct.
  pub check_function_iff :
      (p : Node) (b : Body)
      → (check_function store fuel m (function p b) ≡ ok true) ↔ BodyRule store fuel m b
  check_function_iff p b = (check_function-BodyRule store fuel m p b, BodyRule-check_function p b)
