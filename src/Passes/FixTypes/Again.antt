-- ===== src/Passes/FixTypes/Again.antt =====
-- src/ast.c: `AST_fix_types` changes nothing in a tree that it has made.
use luka.Prelude.{
  ℕ, zero, suc, ◌≡◌, refl, ap, Bool, true, false, List, [], ◌∷◌, none, some, if◌then◌else◌,
}
use mathlib.Core.Path.{subst}
use luka.ReturnCode.{Outcome, ok, fault}
use luka.Types.Base.{BaseType, type_alias, Payload, no_payload, text, size, Ty, type, base_eq}
use luka.Types.Base as Base
use luka.Ast.{
  Node, null, prototype, function, cast_expr, variable, let_stmt, assignment_expr, call_expr,
  expression_stmt, struct_definition, get_expr, Body, no_body, body, Nodes, nil, cons, Store,
  Prototype, StructField,
}
use luka.Passes.Settled.{Settled, ok-Settled, >>=-Settled}
use luka.Passes.FixTypes.{
  visit_child, named_base, fix_base, fix_type, fix_parameters, fix_prototype, fix_fields, fix_types,
  fix_body, fix_nodes,
}

visit_child-ok : (n : Node) (o : Outcome Node) → o ≡ ok n → visit_child n o ≡ ok n
unfolding visit_child
visit_child-ok null o h = refl
visit_child-ok _ o h = h

-- The same test of what it has led to leads to the same.
branch-again :
    (o : Outcome BaseType) (b b' : BaseType)
    → (if base_eq b type_alias then o else ok b) ≡ ok b'
    → (if base_eq b' type_alias then o else ok b') ≡ ok b'
branch-again o b b' h = go (base_eq b type_alias) (base_eq b' type_alias) refl refl h
  where
    go :
        (x y : Bool)
        → base_eq b type_alias ≡ x
        → base_eq b' type_alias ≡ y
        → (if x then o else ok b) ≡ ok b'
        → (if y then o else ok b') ≡ ok b'
    go x false d e q = refl
    go true true d e q = q
    go false true d e q = let same : b ≡ b' = (cc) in cc (ap (λ c. base_eq c type_alias) same)

module _ (store : Store) (fuel m : ℕ) where
  fix_base-again :
      (b b' : BaseType) (p : Payload)
      → fix_base store fuel m b p ≡ ok b'
      → fix_base store fuel m b' p ≡ ok b'
  unfolding fix_base
  fix_base-again b b' no_payload h = refl
  fix_base-again b b' (text name) h = branch-again (named_base store fuel m name) b b' h
  fix_base-again b b' (size n) h = branch-again fault b b' h

  fix_type-Settled : (t : Ty) → Settled (fix_type store fuel m) (fix_type store fuel m t)
  unfolding fix_type
  fix_type-Settled Base.null = ok-Settled refl
  fix_type-Settled (type b inner p mut) = >>=-Settled _ _ λ inner' h.
      >>=-Settled _ _
        λ b' q. ok-Settled (rw ((fix_type-Settled inner).kept inner' h, fix_base-again b b' p q))

  fix_parameters-Settled :
      (n : ℕ) (ts : List Ty)
      → Settled (fix_parameters store fuel m n) (fix_parameters store fuel m n ts)
  unfolding fix_parameters
  fix_parameters-Settled zero ts = ok-Settled refl
  fix_parameters-Settled (suc n) [] = record { kept = λ r e. cc }
  fix_parameters-Settled (suc n) (t ∷ ts) = >>=-Settled _ _ λ t' h. >>=-Settled _ _ λ ts' q.
      ok-Settled (rw ((fix_type-Settled t).kept t' h, (fix_parameters-Settled n ts).kept ts' q))

  fix_prototype-Settled :
      (p : Prototype) → Settled (fix_prototype store fuel m) (fix_prototype store fuel m p)
  unfolding fix_prototype
  fix_prototype-Settled p = >>=-Settled _ _ λ ts h. >>=-Settled _ _ λ t q. ok-Settled (
      rw (
        (fix_parameters-Settled p.arity p.types).kept ts h,
        (fix_type-Settled p.return_type).kept t q,
      ))

  fix_fields-Settled :
      (fs : List StructField) → Settled (fix_fields store fuel m) (fix_fields store fuel m fs)
  unfolding fix_fields
  fix_fields-Settled [] = ok-Settled refl
  fix_fields-Settled (f ∷ fs) = >>=-Settled _ _ λ t h. >>=-Settled _ _ λ fs' q.
      ok-Settled (rw ((fix_type-Settled f.type).kept t h, (fix_fields-Settled fs).kept fs' q))

  child-again :
      (n n' : Node)
      → Settled (fix_types store fuel m) (fix_types store fuel m n)
      → visit_child n (fix_types store fuel m n) ≡ ok n'
      → visit_child n' (fix_types store fuel m n') ≡ ok n'
  unfolding visit_child
  child-again null n' s h =
      let same : null ≡ n' = (cc) in
      subst (λ x. visit_child x (fix_types store fuel m x) ≡ ok x) same refl
  child-again n n' s h = visit_child-ok n' _ (s.kept n' h)

  mutual
    unfolding fix_types fix_body fix_nodes

    fix_types-Settled : (n : Node) → Settled (fix_types store fuel m) (fix_types store fuel m n)
    fix_types-Settled null = record { kept = λ r e. cc }
    fix_types-Settled (let_stmt v e g) =
        >>=-Settled _ _ λ v' h. ok-Settled (rw (child-again v v' (fix_types-Settled v) h))
    fix_types-Settled (expression_stmt e) =
        >>=-Settled _ _ λ e' h. ok-Settled (rw (child-again e e' (fix_types-Settled e) h))
    fix_types-Settled (assignment_expr l r) = >>=-Settled _ _ λ l' h. >>=-Settled _ _ λ r' q.
        ok-Settled
          (rw (child-again l l' (fix_types-Settled l) h, child-again r r' (fix_types-Settled r) q))
    fix_types-Settled (get_expr v key e) =
        >>=-Settled _ _ λ v' h. ok-Settled (rw (child-again v v' (fix_types-Settled v) h))
    fix_types-Settled (call_expr c args) = >>=-Settled _ _ λ c' h. >>=-Settled _ _ λ args' q.
        ok-Settled
          (rw (child-again c c' (fix_types-Settled c) h, (fix_body-Settled args).kept args' q))
    fix_types-Settled (cast_expr e t) =
        >>=-Settled _ _ λ t' h. ok-Settled (rw ((fix_type-Settled t).kept t' h))
    fix_types-Settled (variable name t mut) =
        >>=-Settled _ _ λ t' h. ok-Settled (rw ((fix_type-Settled t).kept t' h))
    fix_types-Settled (prototype p) =
        >>=-Settled _ _ λ p' h. ok-Settled (rw ((fix_prototype-Settled p).kept p' h))
    fix_types-Settled (function p b) = >>=-Settled _ _ λ p' h.
        >>=-Settled _ _
          λ b' q. ok-Settled (rw ((fix_types-Settled p).kept p' h, (fix_body-Settled b).kept b' q))
    fix_types-Settled (struct_definition name none functions) = record { kept = λ r e. cc }
    fix_types-Settled (struct_definition name (some fields) functions) =
        >>=-Settled _ _ λ fields' h. ok-Settled (rw ((fix_fields-Settled fields).kept fields' h))
    fix_types-Settled _ = ok-Settled refl

    fix_body-Settled : (b : Body) → Settled (fix_body store fuel m) (fix_body store fuel m b)
    fix_body-Settled no_body = ok-Settled refl
    fix_body-Settled (body ns) =
        >>=-Settled _ _ λ ns' h. ok-Settled (rw ((fix_nodes-Settled ns).kept ns' h))

    fix_nodes-Settled : (ns : Nodes) → Settled (fix_nodes store fuel m) (fix_nodes store fuel m ns)
    fix_nodes-Settled nil = ok-Settled refl
    fix_nodes-Settled (cons n ns) = >>=-Settled _ _ λ n' h. >>=-Settled _ _ λ ns' q.
        ok-Settled (rw ((fix_types-Settled n).kept n' h, (fix_nodes-Settled ns).kept ns' q))

  -- Where the pass over a tree comes back, a second pass over what it has made comes back too, and changes
  -- nothing: no type is left that it would still fix.
  pub fix_types-again :
      (n r : Node) → fix_types store fuel m n ≡ ok r → fix_types store fuel m r ≡ ok r
  fix_types-again n r h = (fix_types-Settled n).kept r h
