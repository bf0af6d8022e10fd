-- ===== src/Passes/Shape.antt =====
-- The tree without the types of its variables, and how deep its blocks go.
use luka.Prelude.{ℕ, suc, zero, ◌≡◌, refl}
use Prim.Native.Nat.{max}
use luka.Types.Base.{null as no_type}
use luka.Ast.{
  Node, unary_expr, binary_expr, function, return_stmt, if_expr, while_expr, cast_expr, variable,
  let_stmt, assignment_expr, call_expr, expression_stmt, struct_definition, struct_value,
  enum_definition, get_expr, array_deref, array_literal, defer_stmt, Body, no_body, body, Nodes,
  nil, cons, Values, null_values, no_values, value_field,
}

unfoldable mutual
  pub shape : Node → Node
  shape (unary_expr op rhs mut) = unary_expr op (shape rhs) mut
  shape (binary_expr op lhs rhs) = binary_expr op (shape lhs) (shape rhs)
  shape (function p b) = function (shape p) (shape_body b)
  shape (return_stmt expr) = return_stmt (shape expr)
  shape (if_expr cond t e) = if_expr (shape cond) (shape_body t) (shape_body e)
  shape (while_expr cond b) = while_expr (shape cond) (shape_body b)
  shape (cast_expr expr t) = cast_expr (shape expr) t
  shape (variable name t mut) = variable name no_type mut
  shape (let_stmt var expr is_global) = let_stmt (shape var) (shape expr) is_global
  shape (assignment_expr lhs rhs) = assignment_expr (shape lhs) (shape rhs)
  shape (call_expr callable args) = call_expr (shape callable) (shape_body args)
  shape (expression_stmt expr) = expression_stmt (shape expr)
  shape (struct_definition name fields functions) =
      struct_definition name fields (shape_body functions)
  shape (struct_value name values) = struct_value name (shape_values values)
  shape (enum_definition name values) = enum_definition name (shape_values values)
  shape (get_expr v key is_enum) = get_expr (shape v) key is_enum
  shape (array_deref v index) = array_deref (shape v) (shape index)
  shape (array_literal exprs t) = array_literal (shape_nodes exprs) t
  shape (defer_stmt b) = defer_stmt (shape_body b)
  shape n = n

  pub shape_body : Body → Body
  shape_body no_body = no_body
  shape_body (body ns) = body (shape_nodes ns)

  pub shape_nodes : Nodes → Nodes
  shape_nodes nil = nil
  shape_nodes (cons n ns) = cons (shape n) (shape_nodes ns)

  pub shape_values : Values → Values
  shape_values null_values = null_values
  shape_values no_values = no_values
  shape_values (value_field name expr vs) = value_field name (shape expr) (shape_values vs)

-- How far blocks are nested, where `AST_fill_variable_types` goes down them.
unfoldable mutual
  pub depth : Node → ℕ
  depth (function p b) = suc (depth_body b)
  depth (while_expr c b) = suc (depth_body b)
  depth (if_expr c t e) = suc (max (depth_body t) (depth_body e))
  depth (defer_stmt b) = suc (depth_body b)
  depth n = zero

  pub depth_body : Body → ℕ
  depth_body no_body = zero
  depth_body (body ns) = depth_nodes ns

  pub depth_nodes : Nodes → ℕ
  depth_nodes nil = zero
  depth_nodes (cons n ns) = max (depth n) (depth_nodes ns)

mutual
  unfolding shape shape_body shape_nodes depth depth_body depth_nodes

  pub depth-shape : (n : Node) → depth (shape n) ≡ depth n
  depth-shape (function p b) = rw (depth-shape_body b)
  depth-shape (while_expr c b) = rw (depth-shape_body b)
  depth-shape (if_expr c t e) = rw (depth-shape_body t, depth-shape_body e)
  depth-shape (defer_stmt b) = rw (depth-shape_body b)
  depth-shape _ = refl

  depth-shape_body : (b : Body) → depth_body (shape_body b) ≡ depth_body b
  depth-shape_body no_body = refl
  depth-shape_body (body ns) = depth-shape_nodes ns

  depth-shape_nodes : (ns : Nodes) → depth_nodes (shape_nodes ns) ≡ depth_nodes ns
  depth-shape_nodes nil = refl
  depth-shape_nodes (cons n ns) = rw (depth-shape n, depth-shape_nodes ns)
