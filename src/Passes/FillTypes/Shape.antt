-- ===== src/Passes/FillTypes/Shape.antt =====
-- src/ast.c: `ast_fill_type` ends, and changes nothing but the types of variables.
use luka.Prelude.{ℕ, ◌≡◌, refl, Bool, true, false, none, Bytes, str_eq, if◌then◌else◌}
use luka.ReturnCode.{Outcome, Ends}
use luka.Types.Base.{type_any, Ty, null, type, base_eq}
use luka.Types.Dup.{dup_type-Ends}
use luka.Types.GetType.Ends.{make_mutable-Ends}
use luka.Types.GetType.Total.{get_type-Ends}
use luka.Ast.{
  Node, unary_expr, binary_expr, function, return_stmt, if_expr, while_expr, cast_expr, variable,
  let_stmt, assignment_expr, call_expr, expression_stmt, struct_value, get_expr, array_deref,
  defer_stmt, Body, no_body, body, Nodes, nil, cons, Values, null_values, no_values, value_field,
  Store,
}
use luka.Modules.Resolve.{resolve}
use luka.Passes.Post.{Post, gives, faults, ◌⟫◌, Any, Ends-Post}
use luka.Passes.Shape.{shape, shape_body, shape_nodes, shape_values}
use luka.Passes.FillTypes.{
  keep_mutable, replace_any, declared_type, occurrence_type, fill_let, fill_type, fill_body,
  fill_nodes, fill_values,
}

Post-if :
    {A : Type 0} {P : A → Type 0} (b : Bool) {o q : Outcome A}
    → Post P o
    → Post P q
    → Post P (if b then o else q)
Post-if true h k = h
Post-if false h k = k

occurrence_type-Post :
    (var_name : Bytes) (new_type : Ty) (name : Bytes) (t : Ty)
    → Post Any (occurrence_type var_name new_type name t)
unfolding occurrence_type
occurrence_type-Post var_name new_type name t =
    Post-if (str_eq name var_name) (Ends-Post _ (dup_type-Ends new_type)) (gives tt)

keep_mutable-Post : (b : Bool) (t : Ty) → Post Any (keep_mutable b t)
unfolding keep_mutable
keep_mutable-Post true t = Ends-Post _ (make_mutable-Ends t)
keep_mutable-Post false t = gives tt

replace_any-Post : (o : Outcome Ty) (t : Ty) → Post Any o → Post Any (replace_any o t)
unfolding replace_any
replace_any-Post o null h = faults
replace_any-Post o (type b i p m) h =
    Post-if (base_eq b type_any) (h ⟫ λ t' _. keep_mutable-Post m t') (gives tt)

declared_type-Post : (o : Outcome Ty) (t : Ty) → Post Any o → Post Any (declared_type o t)
unfolding declared_type
declared_type-Post o null h = h ⟫ λ t _. replace_any-Post o t h
declared_type-Post o (type b i p m) h = replace_any-Post o (type b i p m) h

module _ (store : Store) (fuel m : ℕ)
    (looks : (name : Bytes) → Ends (resolve store fuel m name none)) where
  pub fill_let-shape :
      (var expr : Node) → Post (λ r. shape r ≡ shape var) (fill_let store fuel m var expr)
  unfolding fill_let shape
  fill_let-shape (variable name t mut) expr =
      declared_type-Post _ t (Ends-Post _ (get_type-Ends store fuel m looks expr)) ⟫ λ t' _.
      gives refl
  fill_let-shape _ expr = faults

  module _ (var_name : Bytes) (new_type : Ty) where
    mutual
      unfolding fill_type fill_body fill_nodes fill_values shape shape_body shape_nodes shape_values

      -- The filled tree is the tree, but for the types of variables.
      pub fill_type-shape :
          (n : Node) → Post (λ r. shape r ≡ shape n) (fill_type store fuel m var_name new_type n)
      fill_type-shape (cast_expr expr t) = fill_type-shape expr ⟫ λ e h. gives (rw h)
      fill_type-shape (struct_value name values) = fill_values-shape values ⟫ λ vs h. gives (rw h)
      fill_type-shape (function p b) = fill_body-shape b ⟫ λ b' h. gives (rw h)
      fill_type-shape (variable name t mut) =
          occurrence_type-Post var_name new_type name t ⟫ λ t' _. gives refl
      fill_type-shape (while_expr cond b) =
          fill_type-shape cond ⟫ λ c h. fill_body-shape b ⟫ λ b' q. gives (rw (h, q))
      fill_type-shape (if_expr cond t e) = fill_type-shape cond ⟫ λ c h.
          fill_body-shape t ⟫ λ t' q. fill_body-shape e ⟫ λ e' s. gives (rw (h, q, s))
      fill_type-shape (call_expr callable args) =
          fill_type-shape callable ⟫ λ c h. fill_body-shape args ⟫ λ args' q. gives (rw (h, q))
      fill_type-shape (array_deref v index) =
          fill_type-shape v ⟫ λ v' h. fill_type-shape index ⟫ λ i q. gives (rw (h, q))
      fill_type-shape (get_expr v key is_enum) = fill_type-shape v ⟫ λ v' h. gives (rw h)
      fill_type-shape (expression_stmt expr) = fill_type-shape expr ⟫ λ e h. gives (rw h)
      fill_type-shape (let_stmt var expr is_global) =
          fill_type-shape expr ⟫ λ e h. fill_let-shape var e ⟫ λ v q. gives (rw (h, q))
      fill_type-shape (assignment_expr lhs rhs) =
          fill_type-shape lhs ⟫ λ l h. fill_type-shape rhs ⟫ λ r q. gives (rw (h, q))
      fill_type-shape (unary_expr op rhs mut) = fill_type-shape rhs ⟫ λ r h. gives (rw h)
      fill_type-shape (binary_expr op lhs rhs) =
          fill_type-shape lhs ⟫ λ l h. fill_type-shape rhs ⟫ λ r q. gives (rw (h, q))
      fill_type-shape (return_stmt expr) = fill_type-shape expr ⟫ λ e h. gives (rw h)
      fill_type-shape (defer_stmt b) = fill_body-shape b ⟫ λ b' h. gives (rw h)
      fill_type-shape _ = gives refl

      fill_body-shape :
          (b : Body)
          → Post (λ r. shape_body r ≡ shape_body b) (fill_body store fuel m var_name new_type b)
      fill_body-shape no_body = gives refl
      fill_body-shape (body ns) = fill_nodes-shape ns ⟫ λ ns' h. gives (rw h)

      fill_nodes-shape :
          (ns : Nodes)
          → Post
              (λ r. shape_nodes r ≡ shape_nodes ns)
              (fill_nodes store fuel m var_name new_type ns)
      fill_nodes-shape nil = gives refl
      fill_nodes-shape (cons n ns) =
          fill_type-shape n ⟫ λ n' h. fill_nodes-shape ns ⟫ λ ns' q. gives (rw (h, q))

      fill_values-shape :
          (vs : Values)
          → Post
              (λ r. shape_values r ≡ shape_values vs)
              (fill_values store fuel m var_name new_type vs)
      fill_values-shape null_values = gives refl
      fill_values-shape no_values = gives refl
      fill_values-shape (value_field name expr vs) =
          fill_type-shape expr ⟫ λ e h. fill_values-shape vs ⟫ λ vs' q. gives (rw (h, q))
