-- ===== src/Passes/LastExpression.antt =====
-- src/ast.c: `AST_fix_function_last_expression_stmt`, which takes an `if` or a `while` that a body ends with
-- out of its statement.
pub mod Again
use luka.ReturnCode.{Outcome, ok, fault, ◌>>=◌}
use luka.Ast.{
  Node, null, function, if_expr, while_expr, expression_stmt, Body, no_body, body, Nodes, nil, cons,
}

unfoldable mutual
  pub fix_last_expression : Node → Outcome Node
  fix_last_expression null = fault
  fix_last_expression (function p b) = do b' ← fix_last b; ok (function p b')
  fix_last_expression (if_expr c (body nil) e) = ok (if_expr c (body nil) e)
  fix_last_expression (if_expr c t e) = do t' ← fix_last t; e' ← fix_last e; ok (if_expr c t' e')
  fix_last_expression (while_expr c no_body) = ok (while_expr c no_body)
  fix_last_expression (while_expr c (body ns)) = do
    ns' ← fix_last_while ns
    ok (while_expr c (body ns'))
  fix_last_expression n = ok n

  -- The same text for the body of a function and the two of an `if`.
  pub fix_last : Body → Outcome Body
  fix_last no_body = ok no_body
  fix_last (body ns) = do ns' ← fix_last_of ns; ok (body ns')

  -- The vector with its last statement replaced.
  pub fix_last_of : Nodes → Outcome Nodes
  fix_last_of nil = ok nil
  fix_last_of (cons n nil) = do n' ← fix_statement n; ok (cons n' nil)
  fix_last_of (cons n (cons k ns)) = do ns' ← fix_last_of (cons k ns); ok (cons n ns')

  -- The test on a last statement, and what it leads to.
  pub fix_statement : Node → Outcome Node
  fix_statement null = fault
  fix_statement (expression_stmt null) = fault
  fix_statement (expression_stmt (if_expr c t e)) = fix_last_expression (if_expr c t e)
  fix_statement (expression_stmt (while_expr c b)) = fix_last_expression (while_expr c b)
  fix_statement n = ok n

  -- The two for the body of a `while`, where the test asks twice for a `while`.
  pub fix_last_while : Nodes → Outcome Nodes
  fix_last_while nil = ok nil
  fix_last_while (cons n nil) = do n' ← fix_while_statement n; ok (cons n' nil)
  fix_last_while (cons n (cons k ns)) = do ns' ← fix_last_while (cons k ns); ok (cons n ns')

  pub fix_while_statement : Node → Outcome Node
  fix_while_statement null = fault
  fix_while_statement (expression_stmt null) = fault
  fix_while_statement (expression_stmt (while_expr c b)) = fix_last_expression (while_expr c b)
  fix_while_statement n = ok n
