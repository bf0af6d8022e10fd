-- ===== src/Core.antt =====
-- src/core.c: the table of builtins, which `CORE_initialize_builtins` has filled, and its look-up.
use luka.Prelude.{[], ◌∷◌, false, codes, str_eq, if◌then◌else◌}
use luka.ReturnCode.{Outcome, ok, fault}
use luka.Types.Base.{type_uint64, type_type, initialize_type}
use luka.Ast.{Node, null, prototype, builtin}

-- The one entry that `CORE_initialize_builtins` makes.
unfoldable pub size_of : Node
unfolding initialize_type
size_of = prototype (record {
  name = codes "@sizeOf";
  args = codes "expr_type" ∷ [];
  types = initialize_type type_type ∷ [];
  return_type = initialize_type type_uint64;
  arity = 1;
  vararg = false;
})

-- `builtin->builtin.name` of a node of another type is a field of another member of the union.
unfoldable pub lookup_builtin : Node → Outcome Node
unfolding size_of str_eq
lookup_builtin null = ok null
lookup_builtin (builtin name) = ok (if str_eq name (codes "@sizeOf") then size_of else null)
lookup_builtin _ = fault
