-- ===== src/Checker/Rules.antt =====
-- The rules of the type checker, as relations: what it takes for an expression, a statement and a block
-- to be accepted.
use luka.Prelude.{ℕ, zero, suc, ◌≡◌, Bool, true, false, List, ◌∷◌, Bytes}
use luka.ReturnCode.{ok}
use luka.Types.Base.{Ty}
use luka.Types.Cast.{mutable}
use luka.Types.Equal.{equal}
use luka.Types.GetType.{get_type}
use luka.Ast.{
  BinOp, Prototype, Node, null, binary_expr, prototype, if_expr, while_expr, variable, let_stmt,
  assignment_expr, call_expr, expression_stmt, get_expr, Body, no_body, body, Nodes, nil, cons,
  count, Store,
}
use luka.Callable.{FunctionName, fill_function_name, push_front}
use luka.Checker.{takes_count, check_get, find_prototype}

-- The expressions that are accepted as they stand.
abbrev pub is_free : Node → Bool
is_free null = false
is_free (call_expr c a) = false
is_free (while_expr c b) = false
is_free (if_expr c t e) = false
is_free (assignment_expr l r) = false
is_free (get_expr v k e) = false
is_free (binary_expr op l r) = false
is_free _ = true

-- The statements that have a rule of their own.
abbrev pub is_expr : Node → Bool
is_expr (expression_stmt e) = false
is_expr (let_stmt v e g) = false
is_expr _ = true

module _ (store : Store) (fuel m : ℕ) where
  -- Nodes `a` and `b` have types, and the first is accepted for the second.
  pub record Agree (a b : Node) : Type 0 where
    pub type1 : Ty
    pub type2 : Ty
    pub first : get_type store fuel m a ≡ ok type1
    pub second : get_type store fuel m b ≡ ok type2
    pub same : equal type1 type2 ≡ ok true

  -- An argument for a parameter: a parameter that is mutable wants an argument that is.
  pub record Fits (arg : Node) (param : Ty) : Type 0 where
    pub type1 : Ty
    pub has_type : get_type store fuel m arg ≡ ok type1
    pub same : equal type1 param ≡ ok true
    pub writes : Bool
    pub flag : mutable param ≡ ok writes
    pub kept : writes ≡ true → mutable type1 ≡ ok true

  -- The arguments fit, as far as the parameters and the arguments both go.
  pub data ArgsFit : ℕ → List Ty → Nodes → Type 0 where
    no_params : (ts : List Ty) (args : Nodes) → ArgsFit zero ts args
    no_args : (n : ℕ) (ts : List Ty) → ArgsFit (suc n) ts nil
    fits :
        {n : ℕ} {t : Ty} {ts : List Ty} {a : Node} {args : Nodes}
        → Fits a t
        → ArgsFit n ts args
        → ArgsFit (suc n) (t ∷ ts) (cons a args)

  -- A call without a vector of arguments is accepted; any other has a prototype that takes so many
  -- arguments, and these.
  pub data CallFits (callable : Node) (args : Body) : Type 0 where
    unchecked :
        (f : FunctionName)
        → fill_function_name true callable ≡ ok f
        → push_front f.first_arg args ≡ ok no_body
        → CallFits callable args
    checked :
        (f : FunctionName) (ns : Nodes) (p : Prototype)
        → fill_function_name true callable ≡ ok f
        → push_front f.first_arg args ≡ ok (body ns)
        → find_prototype store fuel m f callable ≡ ok (prototype p)
        → takes_count p (count ns) ≡ true
        → ArgsFit p.arity p.types ns
        → CallFits callable args

  mutual
    pub data ExprRule : Node → Type 0 where
      calls :
          {callable : Node} {args : Body}
          → CallFits callable args
          → ExprRule (call_expr callable args)
      loops : (c : Node) {b : Body} → BodyRule b → ExprRule (while_expr c b)
      branches : (c : Node) {t e : Body} → BodyRule t → BodyRule e → ExprRule (if_expr c t e)
      assigns :
          {lhs rhs : Node}
          → ExprRule rhs
          → (a : Agree rhs lhs) → mutable a.type2 ≡ ok true
          → ExprRule (assignment_expr lhs rhs)
      gets :
          (name : Bytes) (t : Ty) (mut : Bool) (key : Bytes) (is_enum : Bool)
          → check_get t is_enum ≡ true
          → ExprRule (get_expr (variable name t mut) key is_enum)
      operates :
          (op : BinOp) {lhs rhs : Node}
          → ExprRule rhs
          → Agree lhs rhs
          → ExprRule (binary_expr op lhs rhs)
      free : {n : Node} → is_free n ≡ true → ExprRule n

    pub data BodyRule : Body → Type 0 where
      without : BodyRule no_body
      block : {ns : Nodes} → BlockRule ns → BodyRule (body ns)

    pub data BlockRule : Nodes → Type 0 where
      empty : BlockRule nil
      expression :
          {e : Node} {ns : Nodes}
          → ExprRule e
          → BlockRule ns
          → BlockRule (cons (expression_stmt e) ns)
      lets :
          {var e : Node} (g : Bool) {ns : Nodes}
          → ExprRule e
          → Agree e var
          → BlockRule ns
          → BlockRule (cons (let_stmt var e g) ns)
      other :
          {n : Node} {ns : Nodes}
          → is_expr n ≡ true
          → ExprRule n
          → BlockRule ns
          → BlockRule (cons n ns)
