-- ===== src/Driver/FrontEnd/Linked.antt =====
-- src/main.c: `frontend` leaves a module whose imports are the modules of its import paths.
use mathlib.Core.Path.{subst}
use luka.Prelude.{ℕ, zero, suc, ◌≡◌, refl, sym, ◌∙◌, List, [], Option, none, some, Bytes, get_elem?}
use luka.ReturnCode.{Outcome, ok, of_option}
use luka.Token.{Token}
use luka.Ast.{no_body, body, Body}
use luka.Driver.State.{World, IsTable, Context}
use luka.Driver.Yields.{Yields, yields, faults, runs_out, value_of, Yields-imp, ◌⟫◌, known_only}
use luka.Driver.{each_in, first_passes, last_passes}
use luka.Driver.Accepted.{AcceptedBody, accepted_body, check_functions-Accepted}
use luka.Driver.FrontEnd.{
  import_all, complete_functions, fix_module, parse, check_body, type_check, frontend,
  frontend_above,
}
use luka.Driver.FrontEnd.Imports.{Inv, Called, Linked}
use luka.Driver.FrontEnd.Loop.{Loop, Loop-put}
use luka.Driver.FrontEnd.Rounds.{import_all-Loop}
use luka.Driver.FrontEnd.Entry.{parse_tokens-Head, enter_module-Loop}

module _ (W : World) (lawful : IsTable W) (limit : ℕ) where
  -- The module of the call is there, with its imports.
  pub record Imported (path : Bytes) (c d : Context W) : Type 0 where
    pub called : Called W lawful path c d
    pub linked : Linked W lawful d called.current

  module _ (path : Bytes) (all : List Bytes) (c0 : Context W) (seen : List Bytes) (c : Context W)
      (call : Bytes → Context W → Outcome (Context W)) where
    complete_functions-Loop :
        Loop W lawful path all c0 seen c
        → Yields (Loop W lawful path all c0 seen) (complete_functions W limit c0.next c)
    unfolding complete_functions
    complete_functions-Loop l =
        let m = c.store c0.next in
        known_only (each_in (first_passes c.store limit c0.next) m.functions tt) ⟫ λ f _.
        let completed = record m { functions = f.0 } in
        yields (
          Loop-put W lawful path all c0 seen c completed c.type_aliases c.current_module l refl refl
            refl)

    fix_module-Loop :
        Loop W lawful path all c0 seen c
        → Yields
            (λ d. Loop W lawful path all c0 seen d × (d.current_module ≡ some c0.next))
            (fix_module W limit c0.next c)
    unfolding fix_module
    fix_module-Loop l =
        let m = c.store c0.next in
        let pass = each_in (last_passes c.store limit c0.next) in
        known_only (pass m.variables c.type_aliases) ⟫ λ v _.
        known_only (pass m.structs v.1) ⟫ λ s _. known_only (pass m.functions s.1) ⟫ λ f _.
        let fixed = record m { variables = v.0; structs = s.0; functions = f.0 } in
        yields
          (Loop-put W lawful path all c0 seen c fixed f.1 (some c0.next) l refl refl refl, refl)

  -- What `type_check` leaves as it is, and has accepted.
  record Checked (c d : Context W) : Type 0 where
    pub same : c ≡ d
    pub current : ℕ
    pub current_is : c.current_module ≡ some current
    pub accepted : AcceptedBody c.store limit current (c.store current).functions

  check_body-accepted :
      (c : Context W) (m : ℕ) (functions : Body)
      → Yields
          (λ d. (c ≡ d) × AcceptedBody c.store limit m functions)
          (check_body W limit c m functions)
  unfolding check_body
  check_body-accepted c m no_body = faults
  check_body-accepted c m (body ns) =
      check_functions-Accepted c.store limit m ns ⟫ λ r h. yields (refl, accepted_body h)

  type_check-Checked : (c : Context W) → Yields (Checked c) (type_check W limit c)
  unfolding type_check
  type_check-Checked c = current_of c.current_module refl ⟫ λ m e.
      Yields-imp (check_body-accepted c m (c.store m).functions)
        λ d h. record { same = h.0; current = m; current_is = e; accepted = h.1 }
    where
      current_of :
          (o : Option ℕ)
          → c.current_module ≡ o
          → Yields (λ m. c.current_module ≡ some m) (of_option o)
      current_of none e = faults
      current_of (some m) e = yields e

  parse-Imported :
      (call : Bytes → Context W → Outcome (Context W))
      → ((path : Bytes) (c : Context W)
          → Inv W lawful c
          → Yields (Called W lawful path c) (call path c))
      → (path : Bytes) (tokens : List Token) (c : Context W) → Inv W lawful c
      → Yields (Imported path c) (parse W limit call path tokens c)
  unfolding parse
  parse-Imported call spec path tokens c inv =
      parse_tokens-Head W lawful limit path tokens c.type_aliases ⟫ λ r h.
      let c0 = record c { type_aliases = r.1 } in
      let all = r.0.import_paths in
      enter_module-Loop W lawful limit path r.0 c0 (get_elem? c.modules c.file_index)
        (record { table_is = inv.table_is; modules_are = inv.modules_are }) h
      ⟫ λ c1 l1. complete_functions-Loop path all c0 [] c1 call l1 ⟫ λ c2 l2.
          subst
            (λ x.
              Yields (Loop W lawful path all c0 x)
                (import_all W limit call path c.next (c2.store c.next).import_paths c2))
            l2.import_paths_are
            (import_all-Loop W lawful limit call spec path all c0 [] (c2.store c.next).import_paths
              c2 l2)
          ⟫ λ c3 l3. Yields-imp (fix_module-Loop path all c0 all c3 call l3) λ d k. record {
            called = record {
              inv = k.0.inv;
              grows = record { up = k.0.grows.up; paths = k.0.grows.paths; same = k.0.grows.same };
              current = c.next;
              current_is = k.1;
              inside = k.0.own_in;
              has_path = k.0.own_path;
            };
            linked = record {
              paths_are = k.0.paths_are ∙ sym k.0.import_paths_are;
              imports_in = k.0.imports_in;
            };
          }

  -- The module of the call is there, with its imports, and its functions are accepted.
  record Finished (path : Bytes) (c d : Context W) : Type 0 where
    pub imported : Imported path c d
    pub accepted :
        AcceptedBody d.store limit imported.called.current
          (d.store imported.called.current).functions

  Imported-Finished :
      (path : Bytes) (c c' d : Context W) → Imported path c c' → Checked c' d → Finished path c d
  Imported-Finished path c c' d h k =
      let now = h.called.current in
      let now_is = h.called.current_is in
      let checked_is = k.current_is in
      let here : k.current ≡ now = (cc) in
      subst (Finished path c) k.same (record {
        imported = h;
        accepted =
            subst (λ m. AcceptedBody c'.store limit m (c'.store m).functions) here k.accepted;
      })

  frontend-Finished :
      (fuel : ℕ) (path : Bytes) (c : Context W)
      → Inv W lawful c
      → Yields (Finished path c) (frontend W limit fuel path c)
  unfolding frontend frontend_above
  frontend-Finished zero path c inv = runs_out
  frontend-Finished (suc fuel) path c inv = known_only _ ⟫ λ tokens e.
      parse-Imported (frontend W limit fuel)
        (λ p d i. Yields-imp (frontend-Finished fuel p d i) λ d' h. h.imported.called) path tokens c
        inv
      ⟫ λ c' h. Yields-imp (type_check-Checked c') λ d k. Imported-Finished path c c' d h k

  -- Where the front end comes to an end with a file, from a context whose table leads from paths to their
  -- modules, there is a module of the file's path, and it is the current one. Its imports are modules too,
  -- one for each of its import paths, in their order, and each has its path. Its functions are accepted by
  -- the type checker, and the table still leads from paths to their modules.
  pub frontend-Linked :
      (fuel : ℕ) (path : Bytes) (c d : Context W)
      → Inv W lawful c
      → frontend W limit fuel path c ≡ ok d
      → (m : ℕ) × (d.current_module ≡ some m)
        × ((d.store m).file_path ≡ path)
        × Linked W lawful d m
        × AcceptedBody d.store limit m (d.store m).functions
        × Inv W lawful d
  frontend-Linked fuel path c d inv e =
      let h = value_of (frontend-Finished fuel path c inv) e in
      let called = h.imported.called in
      (
        called.current, called.current_is, called.has_path, h.imported.linked, h.accepted,
        called.inv,
      )
