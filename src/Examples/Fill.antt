-- ===== src/Examples/Fill.antt =====
-- The theorems on the passes that fill in types and resolve aliases, at small functions.
use luka.Prelude.{ℕ, suc, true, false, ◌≡◌, refl, [], ◌∷◌, none, Bytes, codes, arith}
use luka.ReturnCode.{out_of_fuel, Ends}
use luka.Types.Base.{
  Ty, type_any, type_sint32, type_ptr, no_payload, type, null, initialize_type, simple, unnamed,
  base_eq, is_pointer, is_payload_type,
}
use luka.Ast.{
  Node, literal, literal_true, while_expr, expression_stmt, let_stmt, variable, binary_expr,
  binop_add, body, nil, cons, Store,
}
use luka.Modules.Resolve.{
  resolve, resolve_in, find_local, find_in_structs, find_method, find_function, find_imported,
}
use luka.Passes.Post.{Post}
use luka.Passes.Shape.{depth, depth_body, depth_nodes}
use luka.Passes.FillTypes.{fill_type}
use luka.Passes.FillTypes.Typed.{Typed, fill_type-Typed}
use luka.Passes.FillVariables.{fill_variable_types}
use luka.Passes.FillVariables.Ends.{Same, fill_variable_types-shape}
use luka.Passes.Aliases.{Aliases, find_alias, resolve_type}
use luka.Passes.Aliases.Clean.{end, other, alias, Ranked, IsResolved}
use luka.Passes.Aliases.Circle.{alias_type, resolve_type-circle}
use luka.Passes.TreeAliases.{resolve_aliases}
use luka.Passes.TreeAliases.Places.{InTree, at_variable}
use luka.Passes.TreeAliases.Clear.{Clear, resolve_aliases-Clear}

-- A module that declares nothing.
abbrev alone : Store
alone m = record {
  enums = body nil;
  functions = body nil;
  import_paths = [];
  imports = [];
  structs = body nil;
  variables = body nil;
  file_path = codes "alone";
}

alone-looks : (name : Bytes) → Ends (resolve alone 1 0 name none)
unfolding resolve resolve_in find_local find_in_structs find_method find_function find_imported
alone-looks name = cc

abbrev s32 : Ty
s32 = type type_sint32 null no_payload false

-- `{ let x = true; x + x }`, in a `while`.
abbrev uses : Node
uses = while_expr (literal literal_true) (
    body (
      cons
        (let_stmt (variable (codes "x") (initialize_type type_any) false) (literal literal_true)
          false)
        (cons
          (expression_stmt (
            binary_expr binop_add (variable (codes "x") null false)
              (variable (codes "x") null false)))
          nil)))

fill_type-Typed_example : Post (Typed (codes "x") s32) (fill_type alone 1 0 (codes "x") s32 uses)
unfolding is_pointer is_payload_type
fill_type-Typed_example =
    fill_type-Typed (codes "x") s32 alone 1 0 alone-looks (simple false refl (unnamed refl)) uses

fill_variable_types-shape_example : Post (Same uses) (fill_variable_types alone 1 0 2 uses)
unfolding depth depth_body depth_nodes
fill_variable_types-shape_example =
    fill_variable_types-shape alone 1 0 alone-looks 2 uses (omega arith)

-- `type id = s32; type ids = *id;`
abbrev table : Aliases
table =
    record {
      name = codes "ids";
      type = type type_ptr (alias_type (codes "id") false) no_payload false;
    }
    ∷ record { name = codes "id"; type = s32 }
    ∷ []

abbrev by_length : Bytes → ℕ
by_length [] = 0
by_length (c ∷ s) = suc (by_length s)

table-Ranked : Ranked by_length table
unfolding base_eq
table-Ranked = (
  other no_payload false refl (alias (codes "id") false (omega arith) end),
  (other no_payload false refl end, tt),
)

resolve_aliases-Clear_example :
    Post
      (Clear by_length 4 4 (omega arith) (InTree IsResolved))
      (resolve_aliases 4 (variable (codes "v") (alias_type (codes "ids") true) false) table)
resolve_aliases-Clear_example =
    resolve_aliases-Clear by_length 4 4 (omega arith)
      (variable (codes "v") (alias_type (codes "ids") true) false) table
      (at_variable (codes "v") false (alias (codes "ids") true (omega arith) end)) table-Ranked

-- `type loop = loop;`
abbrev looping : Aliases
looping = record { name = codes "loop"; type = alias_type (codes "loop") false } ∷ []

resolve_type-circle_example : resolve_type 9 (alias_type (codes "loop") true) looping ≡ out_of_fuel
unfolding find_alias
resolve_type-circle_example = resolve_type-circle 9 (codes "loop") true false looping refl
