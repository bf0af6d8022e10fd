-- ===== src/Examples/Modules.antt =====
-- The theorems on `LIB_resolve_func_name`, each at a concrete store of modules.
use luka.Prelude.{
  ℕ, zero, suc, false, ◌≡◌, ◌≢◌, refl, [], ◌∷◌, none, some, codes, All, ◌<◌, arith, true,
}
use luka.ReturnCode.{ok, out_of_fuel}
use luka.Types.Base.{type_void, initialize_type}
use luka.Ast.{
  null as no_node, struct_definition, enum_definition, no_values, Node, prototype, function,
  no_body, body, nil, cons, Module, Store,
}
use luka.Modules.Resolve.{
  function_name, find_function, find_method, find_in_structs, find_local, find_imported,
  is_original, resolve_in, resolve,
}
use luka.Modules.Resolve.Sound.{first, by_function, head, Reaches, resolve-Reaches}
use luka.Modules.Names.{struct_label, module_in_list, is_struct_name}
use luka.Modules.Names.Answers.{Visible, is_struct_name-Visible}
use luka.Modules.Resolve.Complete.{
  Visible as Visible_function, here as here_function, through as through_import, resolve-ne-null,
}
use luka.Modules.Resolve.Ends.{resolve-ranked, Circles, resolve-cycle}

abbrev puts : Node
puts =
    function
      (prototype (record {
        name = codes "puts";
        args = [];
        types = [];
        return_type = initialize_type type_void;
        arity = 0;
        vararg = false;
      }))
      no_body

abbrev empty : Module
empty = record {
  enums = no_body;
  functions = body nil;
  import_paths = [];
  imports = [];
  structs = body nil;
  variables = body nil;
  file_path = codes "empty";
}

-- Module 1, the program, imports 0, which declares `puts`.
abbrev chain : Store
chain zero = record empty { functions = body (cons puts nil); file_path = codes "stdio" }
chain (suc zero) = record empty { imports = 0 ∷ []; file_path = codes "main" }
chain _ = empty

resolve-Reaches_example : Reaches chain (codes "puts") puts 1
unfolding resolve resolve_in find_local find_in_structs find_method find_function function_name
    find_imported is_original
resolve-Reaches_example = resolve-Reaches chain (codes "puts") puts (λ e. cc) 2 1 none refl

chain_down : (m : ℕ) → All (λ i. i < m) (chain m).imports
chain_down zero = tt
chain_down (suc zero) = (omega arith, tt)
chain_down _ = tt

resolve-ranked_example : resolve chain 2 1 (codes "puts") none ≢ out_of_fuel
resolve-ranked_example =
    resolve-ranked chain (codes "puts") (λ m. m) chain_down 2 1 none (omega arith)

-- Module 0 imports module 1, and that one itself.
abbrev circle : Store
circle zero = record empty { imports = 1 ∷ []; file_path = codes "main" }
circle _ = record empty { imports = 1 ∷ []; file_path = codes "list" }

circle-Circles : (m : ℕ) → m ≡ 1 → Circles circle (codes "puts") (λ m. m ≡ 1) 0 m
unfolding find_local find_in_structs find_method find_function is_original
circle-Circles m e = rw e (record {
  functions = nil;
  next = 1;
  others = [];
  has_functions = refl;
  no_match = refl;
  imports_next = refl;
  next_in = refl;
  not_original = refl;
})

resolve-cycle_example : resolve circle 100 1 (codes "puts") (some 0) ≡ out_of_fuel
resolve-cycle_example = resolve-cycle circle (codes "puts") (λ m. m ≡ 1) 0 circle-Circles 100 1 refl

-- A module that declares the struct `Vec`, and one that imports it, has a struct of its own and a path
-- that the path of the first begins with.
abbrev with_structs : Store
with_structs zero = record empty {
  structs = body (cons (struct_definition (codes "Vec") (some []) no_body) nil);
  enums = body (cons (enum_definition (codes "Color") no_values) nil);
  file_path = codes "lib/vector";
}
with_structs (suc zero) = record empty {
  imports = 0 ∷ [];
  structs = body (cons (struct_definition (codes "Point") (some []) no_body) nil);
  enums = body nil;
  file_path = codes "lib";
}
with_structs _ = empty

run_is_struct_name : is_struct_name with_structs 2 1 (codes "Vec") none ≡ ok true
unfolding is_struct_name
run_is_struct_name = refl

run_module_in_list : module_in_list with_structs (0 ∷ []) 1 ≡ true
unfolding module_in_list
run_module_in_list = refl

is_struct_name-Visible_example :
    (is_struct_name with_structs 2 1 (codes "Vec") none ≡ ok true
      → Visible with_structs (λ md. md.structs) struct_label (codes "Vec") none 1)
    × (Visible with_structs (λ md. md.structs) struct_label (codes "Vec") none 1
        → is_struct_name with_structs 2 1 (codes "Vec") none ≢ ok false)
is_struct_name-Visible_example = is_struct_name-Visible with_structs 2 1 (codes "Vec") none

chain-Visible : Visible_function chain (codes "puts") none 1
unfolding is_original function_name
chain-Visible = through_import nil 0 refl (first []) refl (
    here_function puts (cons puts nil) refl (
      by_function (cons puts nil) refl
        (record { among = head nil; short = codes "puts"; called = refl; matches = refl })))

resolve-ne-null_example : resolve chain 2 1 (codes "puts") none ≢ ok no_node
resolve-ne-null_example = resolve-ne-null chain (codes "puts") 2 1 none chain-Visible
