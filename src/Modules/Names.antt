-- ===== src/Modules/Names.antt =====
-- src/lib.c: `LIB_module_in_list`, `LIB_is_struct_name` and `LIB_is_enum_name`. The last two are one
-- text but for the vector that they look through.
pub mod Answers
pub mod Ends
use luka.Prelude.{
  ℕ, zero, suc, Bool, true, false, List, [], ◌∷◌, Option, none, some, Bytes, str_eq, is_prefix,
  if◌then◌else◌,
}
use luka.ReturnCode.{Outcome, ok, out_of_fuel, ◌>>=◌}
use luka.Ast.{
  Node, struct_definition, enum_definition, Body, no_body, body, Nodes, nil, cons, Module, Store,
}
use luka.Modules.Resolve.{is_original}

unfoldable pub struct_label : Node → Option Bytes
struct_label (struct_definition s fields functions) = some s
struct_label _ = none

unfoldable pub enum_label : Node → Option Bytes
enum_label (enum_definition s fields) = some s
enum_label _ = none

-- The loop over the definitions.
unfoldable pub any_name : (Node → Option Bytes) → Bytes → Nodes → Bool
unfolding str_eq
any_name label name nil = false
any_name label name (cons n rest) =
    let later = any_name label name rest in
    elim (label n) [ none ↦ later | some s ↦ if str_eq name s then true else later ]

-- The loop over `imports`, with what is done for each import.
unfoldable pub any_imported : (ℕ → Outcome Bool) → List ℕ → Outcome Bool
any_imported call [] = ok false
any_imported call (i ∷ is) =
    let later = any_imported call is in (call i >>= λ found. if found then ok true else later)

-- The body of the function; without a vector of definitions the answer is no.
unfoldable pub name_in :
    (Node → Option Bytes) → Bytes → Body → List ℕ → (ℕ → Outcome Bool) → Outcome Bool
unfolding any_name any_imported
name_in label name no_body imports call = ok false
name_in label name (body ns) imports call =
    let later = any_imported call imports in if any_name label name ns then ok true else later

module _ (store : Store) where
  -- The loop over the modules of a list, with `strncmp` up to the length of the second path.
  unfoldable pub module_in_list : List ℕ → ℕ → Bool
  unfolding is_prefix
  module_in_list [] m = false
  module_in_list (v ∷ vs) m =
      let later = module_in_list vs m in
      if is_prefix (store m).file_path (store v).file_path then true else later

  -- `module` is a valid pointer; each call hands the module itself on as the original one.
  unfoldable pub is_name :
      (Module → Body) → (Node → Option Bytes) → ℕ → ℕ → Bytes → Option ℕ → Outcome Bool
  unfolding is_original name_in
  is_name vector label zero m name original = out_of_fuel
  is_name vector label (suc fuel) m name original =
      let next = is_name vector label fuel in
      name_in label name (vector (store m)) (store m).imports
        (λ i. if is_original store original i then ok false else next i name (some m))

  unfoldable pub is_struct_name : ℕ → ℕ → Bytes → Option ℕ → Outcome Bool
  unfolding is_name struct_label
  is_struct_name = is_name (λ module_. module_.structs) struct_label

  unfoldable pub is_enum_name : ℕ → ℕ → Bytes → Option ℕ → Outcome Bool
  unfolding is_name enum_label
  is_enum_name = is_name (λ module_. module_.enums) enum_label
