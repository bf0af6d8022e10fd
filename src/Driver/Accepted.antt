-- ===== src/Driver/Accepted.antt =====
-- src/main.c: `type_check` succeeds when `CHECK_function` accepts each function of the module.
use luka.Prelude.{ℕ, ◌≡◌, Bool, true, false, if◌then◌else◌}
use luka.ReturnCode.{ok, returned, type_check_error}
use luka.Ast.{Node, Nodes, nil, cons, Body, body, Store}
use luka.Checker.{check_function}
use luka.Driver.{check_functions}
use luka.Driver.Yields.{Yields, yields, returns, Yields-imp, ◌⟫◌, known_only}

module _ (store : Store) (limit m : ℕ) where
  -- Each function is accepted in the module `m`.
  pub data Accepted : Nodes → Type 0 where
    accepted_nil : Accepted nil
    accepted_cons :
        {n : Node} {ns : Nodes}
        → check_function store limit m n ≡ ok true
        → Accepted ns
        → Accepted (cons n ns)

  pub data AcceptedBody : Body → Type 0 where
    accepted_body : {ns : Nodes} → Accepted ns → AcceptedBody (body ns)

  pub check_functions-Accepted :
      (ns : Nodes) → Yields (λ _. Accepted ns) (check_functions store limit m ns)
  unfolding check_functions
  check_functions-Accepted nil = yields accepted_nil
  check_functions-Accepted (cons n ns) =
      let later = check_functions-Accepted ns in
      known_only (check_function store limit m n) ⟫ λ success e. go later success e
    where
      go :
          Yields (λ _. Accepted ns) (check_functions store limit m ns)
          → (success : Bool) → check_function store limit m n ≡ ok success
          → Yields
              (λ _. Accepted (cons n ns))
              (if success then check_functions store limit m ns else returned type_check_error)
      go later true e = Yields-imp later λ _ h. accepted_cons e h
      go later false e = returns
