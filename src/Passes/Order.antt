-- ===== src/Passes/Order.antt =====
-- src/main.c runs `AST_fix_function_last_expression_stmt` and later `AST_fix_types` over every function: the
-- second leaves what the first is for.
use mathlib.Core.Path.{subst}
use luka.Prelude.{ℕ, ◌≡◌, ◌≢◌, refl, ap, ◌∙◌, none, some}
use luka.ReturnCode.{Outcome, ok, fault, >>=-eq-ok}
use luka.Passes.Settled.{Settled, ok-Settled, >>=-Settled}
use luka.Ast.{
  Node, null, prototype, function, if_expr, while_expr, cast_expr, variable, let_stmt,
  assignment_expr, call_expr, expression_stmt, struct_definition, get_expr, Body, no_body, body,
  Nodes, nil, cons, Store,
}
use luka.Passes.LastExpression.{fix_last_expression, fix_last, fix_last_of, fix_statement}
use luka.Passes.LastExpression.Again.{behind-again, fix_last_expression-again}
use luka.Passes.FixTypes.{
  visit_child, fix_type, fix_prototype, fix_fields, fix_types, fix_body, fix_nodes,
}
use luka.Passes.FixTypes.Again.{fix_types-again}

-- A node that the first pass leaves as it is, wherever it stands.
other : Node → Outcome Node
other null = fault
other (if_expr c t e) = fault
other (while_expr c b) = fault
other (expression_stmt e) = fault
other (function p b) = fault
other n = ok n

other-statement : (n : Node) → other n ≡ ok n → fix_statement n ≡ ok n
unfolding other fix_statement
other-statement null h = cc
other-statement (if_expr c t e) h = cc
other-statement (while_expr c b) h = cc
other-statement (expression_stmt e) h = cc
other-statement (function p b) h = cc
other-statement _ h = refl

other-inner :
    (n : Node) → other n ≡ ok n → fix_statement (expression_stmt n) ≡ ok (expression_stmt n)
unfolding other fix_statement
other-inner null h = cc
other-inner (if_expr c t e) h = cc
other-inner (while_expr c b) h = cc
other-inner (expression_stmt e) h = cc
other-inner (function p b) h = cc
other-inner _ h = refl

other-last_expression : (n : Node) → other n ≡ ok n → fix_last_expression n ≡ ok n
unfolding other fix_last_expression
other-last_expression null h = cc
other-last_expression (if_expr c t e) h = cc
other-last_expression (while_expr c b) h = cc
other-last_expression (expression_stmt e) h = cc
other-last_expression (function p b) h = cc
other-last_expression _ h = refl

module _ (store : Store) (fuel m : ℕ) where
  abbrev child : Node → Outcome Node
  child n = visit_child n (fix_types store fuel m n)

  types-other : (n : Node) → other n ≡ ok n → Settled other (fix_types store fuel m n)
  unfolding other fix_types fix_body fix_nodes
  types-other null h = record { kept = λ r e. cc }
  types-other (expression_stmt e) h = record { kept = λ r q. cc }
  types-other (function p b) h = record { kept = λ r q. cc }
  types-other (let_stmt v e g) h =
      >>=-Settled (child v) _ λ v' q. ok-Settled {a = let_stmt v' e g} refl
  types-other (assignment_expr l r) h =
      >>=-Settled (child l) _
        λ l' q. >>=-Settled (child r) _ λ r' s. ok-Settled {a = assignment_expr l' r'} refl
  types-other (get_expr v key e) h =
      >>=-Settled (child v) _ λ v' q. ok-Settled {a = get_expr v' key e} refl
  types-other (call_expr c args) h = >>=-Settled (child c) _ λ c' q.
      >>=-Settled (fix_body store fuel m args) _ λ args' s. ok-Settled {a = call_expr c' args'} refl
  types-other (cast_expr e t) h =
      >>=-Settled (fix_type store fuel m t) _ λ t' q. ok-Settled {a = cast_expr e t'} refl
  types-other (variable name t mut) h =
      >>=-Settled (fix_type store fuel m t) _ λ t' q. ok-Settled {a = variable name t' mut} refl
  types-other (prototype p) h =
      >>=-Settled (fix_prototype store fuel m p) _ λ p' q. ok-Settled {a = prototype p'} refl
  types-other (struct_definition name none functions) h = record { kept = λ r e. cc }
  types-other (struct_definition name (some fields) functions) h =
      >>=-Settled (fix_fields store fuel m fields) _
        λ fields' q. ok-Settled {a = struct_definition name (some fields') functions} refl
  types-other _ h = ok-Settled h

  types-statement :
      (n : Node) → fix_statement n ≡ ok n → Settled fix_statement (fix_types store fuel m n)
  unfolding fix_statement fix_types fix_body fix_nodes visit_child other
  types-statement null h = record { kept = λ r e. cc }
  types-statement (if_expr c t e) h = ok-Settled h
  types-statement (while_expr c b) h = ok-Settled h
  types-statement (expression_stmt null) h = record { kept = λ r e. cc }
  types-statement (expression_stmt (if_expr c t e)) h = ok-Settled h
  types-statement (expression_stmt (while_expr c b)) h = ok-Settled h
  types-statement (function p b) h =
      >>=-Settled (fix_types store fuel m p) _
        λ p' q. >>=-Settled (fix_body store fuel m b) _ λ b' s. ok-Settled {a = function p' b'} refl
  types-statement (expression_stmt (function p b)) h = >>=-Settled (child (function p b)) _ λ x q.
      let (p', _, s) = >>=-eq-ok (fix_types store fuel m p) _ q in
      let (b', _, w) = >>=-eq-ok (fix_body store fuel m b) (λ y. ok (function p' y)) s in
      let same : function p' b' ≡ x = (cc) in
      ok-Settled (subst (λ y. fix_statement (expression_stmt y) ≡ ok (expression_stmt y)) same refl)
  types-statement (expression_stmt (expression_stmt e)) h =
      >>=-Settled (child (expression_stmt e)) _ λ x q.
        let (e', _, s) = >>=-eq-ok (child e) (λ y. ok (expression_stmt y)) q in
        let same : expression_stmt e' ≡ x = (cc) in
        ok-Settled
          (subst (λ y. fix_statement (expression_stmt y) ≡ ok (expression_stmt y)) same refl)
  types-statement (expression_stmt e) h =
      >>=-Settled (child e) _ λ e' q. ok-Settled (other-inner e' ((types-other e refl).kept e' q))
  types-statement n h = record { kept = λ r e. other-statement r ((types-other n refl).kept r e) }

  fix_nodes-ne-nil : (n : Node) (ns : Nodes) → fix_nodes store fuel m (cons n ns) ≢ ok nil
  unfolding fix_nodes
  fix_nodes-ne-nil n ns h =
      let (n', _, q) = >>=-eq-ok (fix_types store fuel m n) _ h in
      let (ns', _, s) = >>=-eq-ok (fix_nodes store fuel m ns) (λ x. ok (cons n' x)) q in cc s

  types-last :
      (ns : Nodes) → fix_last_of ns ≡ ok ns → Settled fix_last_of (fix_nodes store fuel m ns)
  unfolding fix_last_of fix_nodes fix_types fix_body
  types-last nil h = ok-Settled refl
  types-last (cons n nil) h =
      let (k, e, q) = >>=-eq-ok (fix_statement n) (λ x. ok (cons x nil)) h in
      let same : k ≡ n = (cc) in
      >>=-Settled (fix_types store fuel m n) _
        λ n' s. ok-Settled {a = cons n' nil} (rw ((types-statement n (e ∙ ap ok same)).kept n' s))
  types-last (cons n (cons k ns)) h =
      let (ks, e, q) = >>=-eq-ok (fix_last_of (cons k ns)) (λ x. ok (cons n x)) h in
      let same : ks ≡ cons k ns = (cc) in
      >>=-Settled (fix_types store fuel m n) _ λ n' s.
        >>=-Settled (fix_nodes store fuel m (cons k ns)) _ λ ns' w. ok-Settled {a = cons n' ns'} (
          behind-again n' ns' (λ z. fix_nodes-ne-nil k ns (w ∙ ap ok z))
            ((types-last (cons k ns) (e ∙ ap ok same)).kept ns' w))

  types-body : (b : Body) → fix_last b ≡ ok b → Settled fix_last (fix_body store fuel m b)
  unfolding fix_last fix_last_of fix_body fix_nodes fix_types
  types-body no_body h = ok-Settled refl
  types-body (body ns) h =
      let (ks, e, q) = >>=-eq-ok (fix_last_of ns) (λ x. ok (body x)) h in
      let same : ks ≡ ns = (cc) in
      >>=-Settled (fix_nodes store fuel m ns) _
        λ ns' w. ok-Settled {a = body ns'} (rw ((types-last ns (e ∙ ap ok same)).kept ns' w))

  types-stable :
      (n : Node)
      → fix_last_expression n ≡ ok n
      → Settled fix_last_expression (fix_types store fuel m n)
  unfolding fix_last_expression fix_types other
  types-stable null h = record { kept = λ r e. cc }
  types-stable (if_expr c t e) h = ok-Settled h
  types-stable (while_expr c b) h = ok-Settled h
  types-stable (expression_stmt e) h =
      >>=-Settled (child e) _ λ e' q. ok-Settled {a = expression_stmt e'} refl
  types-stable (function p b) h =
      let (c, e, q) = >>=-eq-ok (fix_last b) (λ x. ok (function p x)) h in
      let same : c ≡ b = (cc) in
      >>=-Settled (fix_types store fuel m p) _ λ p' s.
        >>=-Settled (fix_body store fuel m b) _
          λ b' w. ok-Settled {a = function p' b'} (rw ((types-body b (e ∙ ap ok same)).kept b' w))
  types-stable n h = record {
    kept = λ r e. other-last_expression r ((types-other n refl).kept r e);
  }

  -- What comes out of the first pass and then the second is left as it is by both: no type in it would be
  -- fixed again, and no `if` or `while` at its end is taken out again.
  pub passes-again :
      (n n' t : Node)
      → fix_last_expression n ≡ ok n'
      → fix_types store fuel m n' ≡ ok t
      → (fix_last_expression t ≡ ok t) × (fix_types store fuel m t ≡ ok t)
  passes-again n n' t h q = (
    (types-stable n' (fix_last_expression-again n n' h)).kept t q,
    fix_types-again store fuel m n' t q,
  )
