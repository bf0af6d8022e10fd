-- ===== src/Passes/LastExpression/Again.antt =====
-- src/ast.c: a second run of `AST_fix_function_last_expression_stmt` changes nothing.
use luka.Prelude.{◌≡◌, ◌≢◌, refl}
use luka.ReturnCode.{ok, >>=-eq-ok}
use luka.Passes.Settled.{Settled, ok-Settled, >>=-Settled}
use luka.Ast.{
  Node, null, function, if_expr, while_expr, expression_stmt, Body, no_body, body, Nodes, nil, cons,
}
use luka.Passes.LastExpression.{
  fix_last_expression, fix_last, fix_last_of, fix_statement, fix_last_while, fix_while_statement,
}

fix_last_of-ne-nil : (n : Node) (ns : Nodes) → fix_last_of (cons n ns) ≢ ok nil
unfolding fix_last_of
fix_last_of-ne-nil n nil h = let (n', _, q) = >>=-eq-ok (fix_statement n) _ h in cc q
fix_last_of-ne-nil n (cons k ns) h =
    let (ns', _, q) = >>=-eq-ok (fix_last_of (cons k ns)) _ h in cc q

fix_last_while-ne-nil : (n : Node) (ns : Nodes) → fix_last_while (cons n ns) ≢ ok nil
unfolding fix_last_while
fix_last_while-ne-nil n nil h = let (n', _, q) = >>=-eq-ok (fix_while_statement n) _ h in cc q
fix_last_while-ne-nil n (cons k ns) h =
    let (ns', _, q) = >>=-eq-ok (fix_last_while (cons k ns)) _ h in cc q

pub behind-again :
    (n : Node) (ns : Nodes)
    → ns ≢ nil
    → fix_last_of ns ≡ ok ns
    → fix_last_of (cons n ns) ≡ ok (cons n ns)
unfolding fix_last_of
behind-again n nil some_left h = absurd (some_left refl)
behind-again n (cons k ns) some_left h = rw h

behind_while-again :
    (n : Node) (ns : Nodes)
    → ns ≢ nil
    → fix_last_while ns ≡ ok ns
    → fix_last_while (cons n ns) ≡ ok (cons n ns)
unfolding fix_last_while
behind_while-again n nil some_left h = absurd (some_left refl)
behind_while-again n (cons k ns) some_left h = rw h

if_expr-again :
    (c : Node) (t e : Body)
    → fix_last t ≡ ok t
    → fix_last e ≡ ok e
    → fix_last_expression (if_expr c t e) ≡ ok (if_expr c t e)
unfolding fix_last_expression
if_expr-again c (body nil) e h q = refl
if_expr-again c no_body e h q = rw q
if_expr-again c (body (cons n ns)) e h q = rw (h, q)

-- An `if` or a `while` that has been taken out is no statement any more.
if_expr-stays :
    (c : Node) (t e : Body) → Settled fix_statement (fix_last_expression (if_expr c t e))
unfolding fix_last_expression fix_statement
if_expr-stays c (body nil) e = ok-Settled refl
if_expr-stays c t e =
    >>=-Settled (fix_last t) _
      λ t' h. >>=-Settled (fix_last e) _ λ e' q. ok-Settled {a = if_expr c t' e'} refl

while_expr-stays :
    (c : Node) (b : Body) → Settled fix_statement (fix_last_expression (while_expr c b))
unfolding fix_last_expression fix_statement
while_expr-stays c no_body = ok-Settled refl
while_expr-stays c (body ns) =
    >>=-Settled (fix_last_while ns) _ λ ns' h. ok-Settled {a = while_expr c (body ns')} refl

while_expr-stays_while :
    (c : Node) (b : Body) → Settled fix_while_statement (fix_last_expression (while_expr c b))
unfolding fix_last_expression fix_while_statement
while_expr-stays_while c no_body = ok-Settled refl
while_expr-stays_while c (body ns) =
    >>=-Settled (fix_last_while ns) _ λ ns' h. ok-Settled {a = while_expr c (body ns')} refl

fix_statement-Settled : (n : Node) → Settled fix_statement (fix_statement n)
unfolding fix_statement
fix_statement-Settled null = record { kept = λ r h. cc }
fix_statement-Settled (expression_stmt null) = record { kept = λ r h. cc }
fix_statement-Settled (expression_stmt (if_expr c t e)) = if_expr-stays c t e
fix_statement-Settled (expression_stmt (while_expr c b)) = while_expr-stays c b
fix_statement-Settled (expression_stmt _) = ok-Settled refl
fix_statement-Settled _ = ok-Settled refl

fix_while_statement-Settled : (n : Node) → Settled fix_while_statement (fix_while_statement n)
unfolding fix_while_statement
fix_while_statement-Settled null = record { kept = λ r h. cc }
fix_while_statement-Settled (expression_stmt null) = record { kept = λ r h. cc }
fix_while_statement-Settled (expression_stmt (while_expr c b)) = while_expr-stays_while c b
fix_while_statement-Settled (expression_stmt _) = ok-Settled refl
fix_while_statement-Settled _ = ok-Settled refl

mutual
  unfolding fix_last_expression fix_last fix_last_of fix_statement fix_last_while
      fix_while_statement

  fix_last_expression-Settled : (n : Node) → Settled fix_last_expression (fix_last_expression n)
  fix_last_expression-Settled null = record { kept = λ r h. cc }
  fix_last_expression-Settled (function p b) =
      >>=-Settled _ _ λ b' h. ok-Settled (rw ((fix_last-Settled b).kept b' h))
  fix_last_expression-Settled (if_expr c (body nil) e) = ok-Settled refl
  fix_last_expression-Settled (if_expr c t e) = >>=-Settled _ _ λ t' h. >>=-Settled _ _ λ e' q.
      ok-Settled
        (if_expr-again c t' e' ((fix_last-Settled t).kept t' h) ((fix_last-Settled e).kept e' q))
  fix_last_expression-Settled (while_expr c no_body) = ok-Settled refl
  fix_last_expression-Settled (while_expr c (body ns)) =
      >>=-Settled _ _ λ ns' h. ok-Settled (rw ((fix_last_while-Settled ns).kept ns' h))
  fix_last_expression-Settled _ = ok-Settled refl

  fix_last-Settled : (b : Body) → Settled fix_last (fix_last b)
  fix_last-Settled no_body = ok-Settled refl
  fix_last-Settled (body ns) =
      >>=-Settled _ _ λ ns' h. ok-Settled (rw ((fix_last_of-Settled ns).kept ns' h))

  fix_last_of-Settled : (ns : Nodes) → Settled fix_last_of (fix_last_of ns)
  fix_last_of-Settled nil = ok-Settled refl
  fix_last_of-Settled (cons n nil) =
      >>=-Settled _ _ λ n' h. ok-Settled (rw ((fix_statement-Settled n).kept n' h))
  fix_last_of-Settled (cons n (cons k ns)) = >>=-Settled _ _ λ ns' h. ok-Settled (
      behind-again n ns' (λ q. fix_last_of-ne-nil k ns (cc))
        ((fix_last_of-Settled (cons k ns)).kept ns' h))

  fix_last_while-Settled : (ns : Nodes) → Settled fix_last_while (fix_last_while ns)
  fix_last_while-Settled nil = ok-Settled refl
  fix_last_while-Settled (cons n nil) =
      >>=-Settled _ _ λ n' h. ok-Settled (rw ((fix_while_statement-Settled n).kept n' h))
  fix_last_while-Settled (cons n (cons k ns)) = >>=-Settled _ _ λ ns' h. ok-Settled (
      behind_while-again n ns' (λ q. fix_last_while-ne-nil k ns (cc))
        ((fix_last_while-Settled (cons k ns)).kept ns' h))

-- The pass changes nothing in what it has made.
pub fix_last_expression-again :
    (n r : Node) → fix_last_expression n ≡ ok r → fix_last_expression r ≡ ok r
fix_last_expression-again n r h = (fix_last_expression-Settled n).kept r h
