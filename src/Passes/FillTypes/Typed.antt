-- ===== src/Passes/FillTypes/Typed.antt =====
-- src/ast.c: the occurrences of the name that `ast_fill_type` goes to get the type.
use luka.Prelude.{ℕ, ◌≡◌, refl, Bool, true, false, none, Bytes, str_eq, if◌then◌else◌}
use luka.ReturnCode.{ok, Ends}
use luka.Types.Base.{Ty, IsType}
use luka.Types.Dup.{dup_type, dup_type-IsType}
use luka.Ast.{
  UnOp, BinOp, Node, unary_expr, binary_expr, function, return_stmt, if_expr, while_expr, cast_expr,
  variable, let_stmt, assignment_expr, call_expr, expression_stmt, struct_value, get_expr,
  array_deref, defer_stmt, Body, no_body, body, Nodes, nil, cons, Values, null_values, no_values,
  value_field, Store,
}
use luka.Modules.Resolve.{resolve}
use luka.Passes.Post.{Post, gives, ◌⟫◌}
use luka.Passes.FillTypes.{occurrence_type, fill_type, fill_body, fill_nodes, fill_values}
use luka.Passes.FillTypes.Shape.{fill_let-shape}

-- The nodes that are not gone into: a name in an array literal or in a prototype is not looked at.
abbrev pub uses_nothing : Node → Bool
uses_nothing (cast_expr e t) = false
uses_nothing (struct_value name vs) = false
uses_nothing (function p b) = false
uses_nothing (variable name t mut) = false
uses_nothing (while_expr c b) = false
uses_nothing (if_expr c t e) = false
uses_nothing (call_expr c args) = false
uses_nothing (array_deref v i) = false
uses_nothing (get_expr v key is_enum) = false
uses_nothing (expression_stmt e) = false
uses_nothing (let_stmt v e g) = false
uses_nothing (assignment_expr l r) = false
uses_nothing (unary_expr op e mut) = false
uses_nothing (binary_expr op l r) = false
uses_nothing (return_stmt e) = false
uses_nothing (defer_stmt b) = false
uses_nothing _ = true

module _ (var_name : Bytes) (new_type : Ty) where
  -- Every variable of the name that the filling goes to has the type. It goes neither into what has no
  -- variables nor into array literals, prototypes, definitions of structs and enums, and the variable that a let
  -- statement declares.
  mutual
    pub data Typed : Node → Type 0 where
      here : {name : Bytes} (mut : Bool) → Typed (variable name new_type mut)
      elsewhere :
          {name : Bytes} (t : Ty) (mut : Bool)
          → str_eq name var_name ≡ false
          → Typed (variable name t mut)
      in_cast : {e : Node} (t : Ty) → Typed e → Typed (cast_expr e t)
      in_struct : {vs : Values} (name : Bytes) → TypedValues vs → Typed (struct_value name vs)
      in_function : {b : Body} (p : Node) → TypedBody b → Typed (function p b)
      in_while : {c : Node} {b : Body} → Typed c → TypedBody b → Typed (while_expr c b)
      in_if : {c : Node} {t e : Body} → Typed c → TypedBody t → TypedBody e → Typed (if_expr c t e)
      in_call : {c : Node} {args : Body} → Typed c → TypedBody args → Typed (call_expr c args)
      in_deref : {v i : Node} → Typed v → Typed i → Typed (array_deref v i)
      in_get : {v : Node} (key : Bytes) (is_enum : Bool) → Typed v → Typed (get_expr v key is_enum)
      in_statement : {e : Node} → Typed e → Typed (expression_stmt e)
      in_let :
          {e : Node} (var : Node) (is_global : Bool) → Typed e → Typed (let_stmt var e is_global)
      in_assignment : {l r : Node} → Typed l → Typed r → Typed (assignment_expr l r)
      in_unary : {e : Node} (op : UnOp) (mut : Bool) → Typed e → Typed (unary_expr op e mut)
      in_binary : {l r : Node} (op : BinOp) → Typed l → Typed r → Typed (binary_expr op l r)
      in_return : {e : Node} → Typed e → Typed (return_stmt e)
      in_defer : {b : Body} → TypedBody b → Typed (defer_stmt b)
      without : {n : Node} → uses_nothing n ≡ true → Typed n

    pub data TypedBody : Body → Type 0 where
      no_stmts : TypedBody no_body
      stmts : {ns : Nodes} → TypedNodes ns → TypedBody (body ns)

    pub data TypedNodes : Nodes → Type 0 where
      end_nodes : TypedNodes nil
      node : {n : Node} {ns : Nodes} → Typed n → TypedNodes ns → TypedNodes (cons n ns)

    pub data TypedValues : Values → Type 0 where
      no_vector : TypedValues null_values
      end_values : TypedValues no_values
      value :
          {e : Node} {vs : Values} (name : Bytes)
          → Typed e
          → TypedValues vs
          → TypedValues (value_field name e vs)

  occurrence_type-Typed :
      (name : Bytes) (t : Ty) (mut : Bool)
      → IsType new_type
      → Post (λ r. Typed (variable name r mut)) (occurrence_type var_name new_type name t)
  unfolding occurrence_type
  occurrence_type-Typed name t mut well_formed = go (str_eq name var_name) refl
    where
      go :
          (b : Bool)
          → str_eq name var_name ≡ b
          → Post (λ r. Typed (variable name r mut)) (if b then dup_type new_type else ok t)
      go true e = rw (dup_type-IsType new_type well_formed) (gives (here mut))
      go false e = gives (elsewhere t mut e)

  module _ (store : Store) (fuel m : ℕ)
      (looks : (name : Bytes) → Ends (resolve store fuel m name none))
      (well_formed : IsType new_type) where
    mutual
      unfolding fill_type fill_body fill_nodes fill_values

      node-Typed : (n : Node) → Post Typed (fill_type store fuel m var_name new_type n)
      node-Typed (cast_expr e t) = node-Typed e ⟫ λ e' h. gives (in_cast t h)
      node-Typed (struct_value name vs) = fill_values-Typed vs ⟫ λ vs' h. gives (in_struct name h)
      node-Typed (function p b) = fill_body-Typed b ⟫ λ b' h. gives (in_function p h)
      node-Typed (variable name t mut) =
          occurrence_type-Typed name t mut well_formed ⟫ λ t' h. gives h
      node-Typed (while_expr c b) =
          node-Typed c ⟫ λ c' h. fill_body-Typed b ⟫ λ b' q. gives (in_while h q)
      node-Typed (if_expr c t e) = node-Typed c ⟫ λ c' h.
          fill_body-Typed t ⟫ λ t' q. fill_body-Typed e ⟫ λ e' s. gives (in_if h q s)
      node-Typed (call_expr c args) =
          node-Typed c ⟫ λ c' h. fill_body-Typed args ⟫ λ args' q. gives (in_call h q)
      node-Typed (array_deref v i) =
          node-Typed v ⟫ λ v' h. node-Typed i ⟫ λ i' q. gives (in_deref h q)
      node-Typed (get_expr v key is_enum) = node-Typed v ⟫ λ v' h. gives (in_get key is_enum h)
      node-Typed (expression_stmt e) = node-Typed e ⟫ λ e' h. gives (in_statement h)
      node-Typed (let_stmt var e g) = node-Typed e ⟫ λ e' h.
          fill_let-shape store fuel m looks var e' ⟫ λ var' _. gives (in_let var' g h)
      node-Typed (assignment_expr l r) =
          node-Typed l ⟫ λ l' h. node-Typed r ⟫ λ r' q. gives (in_assignment h q)
      node-Typed (unary_expr op e mut) = node-Typed e ⟫ λ e' h. gives (in_unary op mut h)
      node-Typed (binary_expr op l r) =
          node-Typed l ⟫ λ l' h. node-Typed r ⟫ λ r' q. gives (in_binary op h q)
      node-Typed (return_stmt e) = node-Typed e ⟫ λ e' h. gives (in_return h)
      node-Typed (defer_stmt b) = fill_body-Typed b ⟫ λ b' h. gives (in_defer h)
      node-Typed _ = gives (without refl)

      fill_body-Typed : (b : Body) → Post TypedBody (fill_body store fuel m var_name new_type b)
      fill_body-Typed no_body = gives no_stmts
      fill_body-Typed (body ns) = fill_nodes-Typed ns ⟫ λ ns' h. gives (stmts h)

      fill_nodes-Typed :
          (ns : Nodes) → Post TypedNodes (fill_nodes store fuel m var_name new_type ns)
      fill_nodes-Typed nil = gives end_nodes
      fill_nodes-Typed (cons n ns) =
          node-Typed n ⟫ λ n' h. fill_nodes-Typed ns ⟫ λ ns' q. gives (node h q)

      fill_values-Typed :
          (vs : Values) → Post TypedValues (fill_values store fuel m var_name new_type vs)
      fill_values-Typed null_values = gives no_vector
      fill_values-Typed no_values = gives end_values
      fill_values-Typed (value_field name e vs) =
          node-Typed e ⟫ λ e' h. fill_values-Typed vs ⟫ λ vs' q. gives (value name h q)

    -- The filling ends, and in the tree that it gives every occurrence of the name that it goes to has
    -- the type. It goes to all but what stands in array literals, prototypes, definitions of structs and
    -- enums, and in the place of the variable that a let statement declares. The type is well-formed, and
    -- the look-up of functions ends.
    pub fill_type-Typed : (n : Node) → Post Typed (fill_type store fuel m var_name new_type n)
    fill_type-Typed = node-Typed
