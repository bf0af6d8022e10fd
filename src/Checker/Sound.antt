-- ===== src/Checker/Sound.antt =====
-- What the type checker accepts follows the rules.
use luka.Prelude.{
  ℕ, zero, suc, ◌≡◌, refl, Bool, true, false, List, [], ◌∷◌, Bool-cases, inl, inr, if◌then◌else◌,
}
use luka.ReturnCode.{Outcome, ok, returned, exited, fault, out_of_fuel, >>=-eq-ok}
use luka.Types.Base.{Ty}
use luka.Types.Cast.{mutable}
use luka.Types.Equal.{equal}
use luka.Types.GetType.{get_type}
use luka.Ast.{
  Node, null, binary_expr, prototype, function, if_expr, while_expr, variable, let_stmt,
  assignment_expr, call_expr, expression_stmt, get_expr, Body, no_body, body, Nodes, nil, cons,
  count, Store,
}
use luka.Callable.{fill_function_name, push_front}
use luka.Checker.{
  takes_count, keeps_mutable, and_then, check_args, check_prototype, find_prototype, check_called,
  check_call, check_assignment, check_let, check_operands, check_expr, check_stmts, check_function,
}
use luka.Checker.Rules.{
  Agree, ArgsFit, no_params, no_args, fits, CallFits, unchecked, checked, ExprRule, calls, loops,
  branches, assigns, gets, operates, free, BodyRule, without, block, BlockRule, empty, expression,
  lets, other,
}

and_then-true : (a b : Outcome Bool) → and_then a b ≡ ok true → (a ≡ ok true) × (b ≡ ok true)
and_then-true (ok true) b h = (refl, h)
and_then-true (ok false) b h = cc
and_then-true (returned c) b h = cc
and_then-true (exited c) b h = cc
and_then-true fault b h = cc
and_then-true out_of_fuel b h = cc

keeps_mutable-true :
    (t1 t2 : Ty)
    → keeps_mutable t1 t2 ≡ ok true
    → (w : Bool) × (mutable t2 ≡ ok w) × (w ≡ true → mutable t1 ≡ ok true)
unfolding keeps_mutable
keeps_mutable-true t1 t2 h = go (>>=-eq-ok (mutable t2) _ h)
  where
    go :
        ((w : Bool) × (mutable t2 ≡ ok w) × ((if w then mutable t1 else ok true) ≡ ok true))
        → (w : Bool) × (mutable t2 ≡ ok w) × (w ≡ true → mutable t1 ≡ ok true)
    go (true, e, q) = (true, e, λ _. q)
    go (false, e, q) = (false, e, λ x. cc)

module _ (store : Store) (fuel m : ℕ) where
  Types : Node → Ty → Type 0
  Types n t = get_type store fuel m n ≡ ok t

  operands-Agree : (a b : Node) → check_operands store fuel m a b ≡ ok true → Agree store fuel m a b
  unfolding check_operands
  operands-Agree a b h =
      let (t1, e1, h1) = >>=-eq-ok (get_type store fuel m a) _ h in
      let (t2, e2, h2) = >>=-eq-ok (get_type store fuel m b) _ h1 in
      record {
        type1 = t1;
        type2 = t2;
        first = e1;
        second = e2;
        same = (and_then-true (equal t1 t2) (ok true) h2).0;
      }

  let-Agree : (var e : Node) → check_let store fuel m var e ≡ ok true → Agree store fuel m e var
  unfolding check_let
  let-Agree var e h =
      let (t1, e1, h1) = >>=-eq-ok (get_type store fuel m var) _ h in
      let (t2, e2, h2) = >>=-eq-ok (get_type store fuel m e) _ h1 in
      record {
        type1 = t2;
        type2 = t1;
        first = e2;
        second = e1;
        same = (and_then-true (equal t2 t1) (ok true) h2).0;
      }

  assignment-Agree :
      (lhs rhs : Node)
      → check_assignment store fuel m lhs rhs ≡ ok true
      → (a : Agree store fuel m rhs lhs) × (mutable a.type2 ≡ ok true)
  unfolding check_assignment
  assignment-Agree lhs rhs h =
      let (t1, e1, h1) = >>=-eq-ok (get_type store fuel m lhs) _ h in
      let (t2, e2, h2) = >>=-eq-ok (get_type store fuel m rhs) _ h1 in
      let (same, flag) = and_then-true (equal t2 t1) (mutable t1) h2 in
      (record { type1 = t2; type2 = t1; first = e2; second = e1; same = same }, flag)

  args-ArgsFit :
      (n : ℕ) (ts : List Ty) (args : Nodes)
      → check_args store fuel m n ts args ≡ ok true
      → ArgsFit store fuel m n ts args
  unfolding check_args
  args-ArgsFit zero ts args h = no_params ts args
  args-ArgsFit (suc n) ts nil h = no_args n ts
  args-ArgsFit (suc n) [] (cons a args) h =
      let (t, e, q) = >>=-eq-ok (get_type store fuel m a) _ h in cc
  args-ArgsFit (suc n) (t2 ∷ ts) (cons a args) h =
      let (t1, e, h1) = >>=-eq-ok (get_type store fuel m a) _ h in
      let (same, h2) = and_then-true (equal t1 t2) _ h1 in
      let (k, rest) = and_then-true (keeps_mutable t1 t2) _ h2 in
      let (w, flag, kept) = keeps_mutable-true t1 t2 k in
      fits (record { type1 = t1; has_type = e; same = same; writes = w; flag = flag; kept = kept })
        (args-ArgsFit n ts args rest)

  prototype-fits :
      (f : _) (callable n : Node) (args : Body) (ns : Nodes)
      → fill_function_name true callable ≡ ok f
      → push_front f.first_arg args ≡ ok (body ns)
      → find_prototype store fuel m f callable ≡ ok n
      → check_prototype store fuel m n ns ≡ ok true
      → CallFits store fuel m callable args
  unfolding check_prototype
  prototype-fits f callable (prototype p) args ns a b c h =
      elim (Bool-cases (takes_count p (count ns))) [
        | inl e ↦ checked f ns p a b c e (args-ArgsFit p.arity p.types ns (rw e at h))
        | inr e ↦ let h' = rw e at h in cc
      ]
  prototype-fits f callable null args ns a b c h = cc
  prototype-fits f callable _ args ns a b c h = cc

  call-CallFits :
      (callable : Node) (args : Body)
      → check_call store fuel m callable args ≡ ok true
      → CallFits store fuel m callable args
  unfolding check_call check_called
  call-CallFits callable args h =
      let (f, e, h1) = >>=-eq-ok (fill_function_name true callable) _ h in
      let (args', e', h2) = >>=-eq-ok (push_front f.first_arg args) _ h1 in go f e args' e' h2
    where
      go :
          (f : _)
          → fill_function_name true callable ≡ ok f
          → (args' : Body) → push_front f.first_arg args ≡ ok args'
          → check_called store fuel m f callable args' ≡ ok true
          → CallFits store fuel m callable args
      go f e no_body e' h = unchecked f e e'
      go f e (body ns) e' h =
          let (n, c, h1) = >>=-eq-ok (find_prototype store fuel m f callable) _ h in
          prototype-fits f callable n args ns e e' c h1

  mutual
    unfolding check_expr

    expr-ExprRule : (n : Node) → check_expr store fuel m n ≡ ok true → ExprRule store fuel m n
    expr-ExprRule null h = cc
    expr-ExprRule (call_expr callable args) h = calls (call-CallFits callable args h)
    expr-ExprRule (while_expr c no_body) h = loops c without
    expr-ExprRule (while_expr c (body b)) h = loops c (block (stmts-BlockRule b h))
    expr-ExprRule (if_expr c no_body no_body) h = branches c without without
    expr-ExprRule (if_expr c no_body (body e)) h = branches c without (block (stmts-BlockRule e h))
    expr-ExprRule (if_expr c (body t) no_body) h = branches c (block (stmts-BlockRule t h)) without
    expr-ExprRule (if_expr c (body t) (body e)) h =
        let (h1, h2) = and_then-true (check_stmts store fuel m t) (check_stmts store fuel m e) h in
        branches c (block (stmts-BlockRule t h1)) (block (stmts-BlockRule e h2))
    expr-ExprRule (assignment_expr lhs rhs) h =
        let (h1, h2) = and_then-true (check_expr store fuel m rhs) _ h in
        let (a, flag) = assignment-Agree lhs rhs h2 in assigns (expr-ExprRule rhs h1) a flag
    expr-ExprRule (get_expr null key is_enum) h = cc
    expr-ExprRule (get_expr (variable name t mut) key is_enum) h = gets name t mut key is_enum (cc)
    expr-ExprRule (get_expr _ key is_enum) h = cc
    expr-ExprRule (binary_expr op lhs rhs) h =
        let (h1, h2) = and_then-true (check_expr store fuel m rhs) _ h in
        let (_, h3) = and_then-true (check_expr store fuel m rhs) _ h2 in
        operates op (expr-ExprRule rhs h1) (operands-Agree lhs rhs h3)
    expr-ExprRule _ h = free refl

    stmts-BlockRule :
        (ns : Nodes) → check_stmts store fuel m ns ≡ ok true → BlockRule store fuel m ns
    stmts-BlockRule nil h = empty
    stmts-BlockRule (cons (expression_stmt e) ns) h =
        let (h1, h2) = and_then-true (check_expr store fuel m e) (check_stmts store fuel m ns) h in
        expression (expr-ExprRule e h1) (stmts-BlockRule ns h2)
    stmts-BlockRule (cons (let_stmt var e g) ns) h =
        let (h1, h2) =
          and_then-true (and_then (check_expr store fuel m e) (check_let store fuel m var e)) _ h in
        let (h3, h4) = and_then-true (check_expr store fuel m e) _ h1 in
        lets g (expr-ExprRule e h3) (let-Agree var e h4) (stmts-BlockRule ns h2)
    stmts-BlockRule (cons n ns) h =
        let (h1, h2) = and_then-true (check_expr store fuel m n) (check_stmts store fuel m ns) h in
        other refl (expr-ExprRule n h1) (stmts-BlockRule ns h2)

  -- A function that is accepted follows the rules: every statement of its body does, in the blocks of
  -- loops and branches as well.
  pub check_function-BodyRule :
      (p : Node) (b : Body)
      → check_function store fuel m (function p b) ≡ ok true
      → BodyRule store fuel m b
  unfolding check_function
  check_function-BodyRule p no_body h = without
  check_function-BodyRule p (body ns) h = block (stmts-BlockRule ns h)
