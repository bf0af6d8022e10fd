-- ===== src/Passes/FillTypes.antt =====
-- src/ast.c: `ast_fill_let_stmt_var_if_needed` and `ast_fill_type`, which give the type of a declared name
-- to the occurrences of the name. The message on the nodes that are not visited is left out.
pub mod Shape
pub mod Typed
use luka.Prelude.{ℕ, Bool, true, false, Bytes, str_eq, if◌then◌else◌}
use luka.ReturnCode.{Outcome, ok, fault, ◌>>=◌}
use luka.Types.Base.{type_any, Ty, null, type, base_eq}
use luka.Types.Dup.{dup_type}
use luka.Types.GetType.{get_type, make_mutable}
use luka.Ast.{
  Node, null as no_node, unary_expr, binary_expr, function, return_stmt, if_expr, while_expr,
  cast_expr, variable, let_stmt, assignment_expr, call_expr, expression_stmt, struct_value,
  get_expr, array_deref, defer_stmt, Body, no_body, body, Nodes, nil, cons, Values, null_values,
  no_values, value_field, Store,
}

-- `old_type->mutable` is handed on to the new type.
unfoldable pub keep_mutable : Bool → Ty → Outcome Ty
unfolding make_mutable
keep_mutable true t = make_mutable t
keep_mutable false t = ok t

-- The second test: a type `any` is replaced.
unfoldable pub replace_any : Outcome Ty → Ty → Outcome Ty
unfolding base_eq keep_mutable
replace_any expr_type null = fault
replace_any expr_type (type b i p m) =
    let found = expr_type >>= keep_mutable m in
    if base_eq b type_any then found else ok (type b i p m)

-- The first test: a missing type is the one of the expression.
unfoldable pub declared_type : Outcome Ty → Ty → Outcome Ty
unfolding replace_any
declared_type expr_type null = expr_type >>= replace_any expr_type
declared_type expr_type (type b i p m) = replace_any expr_type (type b i p m)

-- The type that an occurrence gets.
unfoldable pub occurrence_type : Bytes → Ty → Bytes → Ty → Outcome Ty
unfolding dup_type str_eq
occurrence_type var_name new_type name t =
    let copy = dup_type new_type in if str_eq name var_name then copy else ok t

module _ (store : Store) (fuel m : ℕ) where
  -- `ast_fill_let_stmt_var_if_needed`, on the variable and the expression of the statement.
  unfoldable pub fill_let : Node → Node → Outcome Node
  unfolding declared_type get_type
  fill_let (variable name t mut) expr = do
    t' ← declared_type (get_type store fuel m expr) t
    ok (variable name t' mut)
  fill_let _ expr = fault

  module _ (var_name : Bytes) (new_type : Ty) where
    unfoldable mutual
      unfolding occurrence_type fill_let

      -- `ast_fill_type`
      pub fill_type : Node → Outcome Node
      fill_type (cast_expr expr t) = do expr' ← fill_type expr; ok (cast_expr expr' t)
      fill_type (struct_value name values) = do
        values' ← fill_values values
        ok (struct_value name values')
      fill_type (function p b) = do b' ← fill_body b; ok (function p b')
      fill_type (variable name t mut) = do
        t' ← occurrence_type var_name new_type name t
        ok (variable name t' mut)
      fill_type (while_expr cond b) = do
        cond' ← fill_type cond
        b' ← fill_body b
        ok (while_expr cond' b')
      fill_type (if_expr cond t e) = do
        cond' ← fill_type cond
        t' ← fill_body t
        e' ← fill_body e
        ok (if_expr cond' t' e')
      fill_type (call_expr callable args) = do
        callable' ← fill_type callable
        args' ← fill_body args
        ok (call_expr callable' args')
      fill_type (array_deref v index) = do
        v' ← fill_type v
        index' ← fill_type index
        ok (array_deref v' index')
      fill_type (get_expr v key is_enum) = do v' ← fill_type v; ok (get_expr v' key is_enum)
      fill_type (expression_stmt expr) = do expr' ← fill_type expr; ok (expression_stmt expr')
      fill_type (let_stmt var expr is_global) = do
        expr' ← fill_type expr
        var' ← fill_let var expr'
        ok (let_stmt var' expr' is_global)
      fill_type (assignment_expr lhs rhs) = do
        lhs' ← fill_type lhs
        rhs' ← fill_type rhs
        ok (assignment_expr lhs' rhs')
      fill_type (unary_expr op rhs mut) = do rhs' ← fill_type rhs; ok (unary_expr op rhs' mut)
      fill_type (binary_expr op lhs rhs) = do
        lhs' ← fill_type lhs
        rhs' ← fill_type rhs
        ok (binary_expr op lhs' rhs')
      fill_type (return_stmt expr) = do expr' ← fill_type expr; ok (return_stmt expr')
      fill_type (defer_stmt b) = do b' ← fill_body b; ok (defer_stmt b')
      fill_type n = ok n

      pub fill_body : Body → Outcome Body
      fill_body no_body = ok no_body
      fill_body (body ns) = do ns' ← fill_nodes ns; ok (body ns')

      pub fill_nodes : Nodes → Outcome Nodes
      fill_nodes nil = ok nil
      fill_nodes (cons n ns) = do n' ← fill_type n; ns' ← fill_nodes ns; ok (cons n' ns')

      -- The loop over the fields of a struct's value.
      pub fill_values : Values → Outcome Values
      fill_values null_values = ok null_values
      fill_values no_values = ok no_values
      fill_values (value_field name expr vs) = do
        expr' ← fill_type expr
        vs' ← fill_values vs
        ok (value_field name expr' vs')
