-- ===== src/Types/GetType/Total.antt =====
-- src/type.c: `TYPE_get_type` ends where the look-up of functions does.
use luka.Prelude.{ℕ, Bool, true, false, if-ne, none, Bytes}
use luka.ReturnCode.{Outcome, ok, Ends, >>=-ne-out_of_fuel}
use luka.Types.Base.{BaseType, Payload, no_payload, text, size, Ty, type, base_eq}
use luka.Types.Base as Base
use luka.Types.Dup.{dup_type-Ends}
use luka.Types.Text.{name_of}
use luka.Types.GetType.{call_type, get_type, last_type}
use luka.Types.GetType.Ends.{
  make_mutable-Ends, inner_type-Ends, element_type-Ends, get_field-Ends, return_type_of-Ends,
  builtin_type-Ends, lookup_builtin-Ends,
}
use luka.Callable.{FunctionName, differs, receiver, pushed_arg, method_call, fill_function_name}
use luka.Modules.Resolve.{resolve}
use luka.Ast.{
  unop_not, unop_minus, unop_plus, unop_deref, unop_ref, unop_bnot, literal_null, literal_true,
  literal_false, Node, null, number, unary_expr, binary_expr, prototype, function, return_stmt,
  if_expr, while_expr, cast_expr, variable, assignment_expr, call_expr, get_expr, array_deref,
  literal, array_literal, builtin, no_body, body, Nodes, nil, cons, Store,
}

pub ok-Ends : {A : Type 0} (a : A) → Ends (ok a)
ok-Ends a = cc

differs-Ends : (s : Bytes) (p : Payload) → Ends (differs s p)
unfolding differs
differs-Ends s (text t) = cc
differs-Ends s _ = cc

name_of-Ends : (p : Payload) → Ends (name_of p)
unfolding name_of
name_of-Ends (text s) = cc
name_of-Ends _ = cc

pushed_arg-Ends : (push : Bool) (s : Bytes) (t : Ty) (m d : Bool) → Ends (pushed_arg push s t m d)
unfolding pushed_arg
pushed_arg-Ends false s t m d = cc
pushed_arg-Ends true s t m d = >>=-ne-out_of_fuel _ _ (dup_type-Ends t) λ c. cc

method_call-Ends :
    (push : Bool) (s : Bytes) (t : Ty) (m : Bool) (key : Bytes) (u : Ty) (d : Bool)
    → Ends (method_call push s t m key u d)
unfolding method_call
method_call-Ends push s t m key Base.null d = cc
method_call-Ends push s t m key (type b i p n) d =
    if-ne _
      (>>=-ne-out_of_fuel _ _ (differs-Ends s p) λ x.
        if-ne x
          (>>=-ne-out_of_fuel _ _ (name_of-Ends p)
            λ y. >>=-ne-out_of_fuel _ _ (pushed_arg-Ends push s t m d) λ a. ok-Ends _)
          (ok-Ends _))
      (ok-Ends _)

receiver-Ends : (t : Ty) → Ends (receiver t)
unfolding receiver
receiver-Ends Base.null = cc
receiver-Ends (type b i p m) = cc

pub fill_function_name-Ends : (push : Bool) (n : Node) → Ends (fill_function_name push n)
unfolding fill_function_name
fill_function_name-Ends push null = cc
fill_function_name-Ends push (get_expr (variable s t m) key e) =
    >>=-ne-out_of_fuel _ _ (receiver-Ends t) λ x. method_call-Ends push s t m key x.0 x.1
fill_function_name-Ends push (get_expr _ key e) = cc
fill_function_name-Ends push _ = cc

module _ (store : Store) (fuel m : ℕ)
    (looks : (name : Bytes) → Ends (resolve store fuel m name none)) where
  call_type-Ends : (f : FunctionName) (r : Outcome Ty) → Ends r → Ends (call_type store fuel m f r)
  unfolding call_type
  call_type-Ends f r h =
      if-ne f.builtin h (>>=-ne-out_of_fuel _ _ (looks f.name) λ n. return_type_of-Ends n)

  mutual
    unfolding get_type last_type

    pub get_type-Ends : (n : Node) → Ends (get_type store fuel m n)
    get_type-Ends null = cc
    get_type-Ends (literal literal_false) = cc
    get_type-Ends (literal literal_true) = cc
    get_type-Ends (literal literal_null) = cc
    get_type-Ends (assignment_expr lhs rhs) = get_type-Ends lhs
    get_type-Ends (function null b) = cc
    get_type-Ends (function (prototype p) b) = dup_type-Ends p.return_type
    get_type-Ends (function p b) = get_type-Ends p
    get_type-Ends (prototype p) = dup_type-Ends p.return_type
    get_type-Ends (builtin name) =
        >>=-ne-out_of_fuel _ _ (lookup_builtin-Ends (builtin name)) λ n. builtin_type-Ends n
    get_type-Ends (if_expr c no_body no_body) = cc
    get_type-Ends (if_expr c no_body (body e)) = last_type-Ends e
    get_type-Ends (if_expr c (body t) b) = last_type-Ends t
    get_type-Ends (while_expr c no_body) = cc
    get_type-Ends (while_expr c (body b)) = last_type-Ends b
    get_type-Ends (number t bits) =
        >>=-ne-out_of_fuel _ _ (dup_type-Ends t) λ u. make_mutable-Ends u
    get_type-Ends (variable name t mut) = dup_type-Ends t
    get_type-Ends (cast_expr e t) = dup_type-Ends t
    get_type-Ends (return_stmt e) = get_type-Ends e
    get_type-Ends (array_deref v i) =
        >>=-ne-out_of_fuel _ _ (get_type-Ends v) λ u. element_type-Ends u
    get_type-Ends (get_expr v key true) = cc
    get_type-Ends (get_expr v key false) =
        >>=-ne-out_of_fuel _ _ (get_type-Ends v) λ u. get_field-Ends u key _
    get_type-Ends (unary_expr unop_minus e mut) = get_type-Ends e
    get_type-Ends (unary_expr unop_plus e mut) = get_type-Ends e
    get_type-Ends (unary_expr unop_bnot e mut) = get_type-Ends e
    get_type-Ends (unary_expr unop_not e mut) = cc
    get_type-Ends (unary_expr unop_ref e mut) = >>=-ne-out_of_fuel _ _ (get_type-Ends e) λ u. cc
    get_type-Ends (unary_expr unop_deref e mut) =
        >>=-ne-out_of_fuel _ _ (>>=-ne-out_of_fuel _ _ (get_type-Ends e) λ u. inner_type-Ends u)
          λ u. dup_type-Ends u
    get_type-Ends (binary_expr op lhs rhs) = get_type-Ends rhs
    get_type-Ends (call_expr callable args) =
        >>=-ne-out_of_fuel _ _ (fill_function_name-Ends false callable)
          λ f. call_type-Ends f _ (get_type-Ends callable)
    get_type-Ends (array_literal es t) = >>=-ne-out_of_fuel _ _ (dup_type-Ends t) λ u. cc
    get_type-Ends _ = cc

    last_type-Ends : (ns : Nodes) → Ends (last_type store fuel m ns)
    last_type-Ends nil = cc
    last_type-Ends (cons n nil) = get_type-Ends n
    last_type-Ends (cons n (cons k ns)) = last_type-Ends (cons k ns)
