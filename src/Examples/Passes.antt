-- ===== src/Examples/Passes.antt =====
-- The theorem on the passes over the syntax tree, at a function with a type of another module.
use luka.Prelude.{zero, true, false, ◌≡◌, refl, [], ◌∷◌, none, codes}
use luka.ReturnCode.{ok}
use luka.Types.Base.{Ty, BaseType, type_alias, type_struct, type_ptr, no_payload, text, type, null}
use luka.Ast.{
  Node, literal, literal_true, prototype, function, if_expr, while_expr, expression_stmt, let_stmt,
  variable, struct_definition, no_body, body, nil, cons, Module, Store,
}
use luka.Modules.Resolve.{is_original}
use luka.Modules.Names.{struct_label, any_name, any_imported, name_in, is_name, is_struct_name}
use luka.Passes.LastExpression.{fix_last_expression, fix_last, fix_last_of, fix_statement}
use luka.Passes.FixTypes.{
  visit_child, named_base, fix_base, fix_type, fix_parameters, fix_prototype, fix_types, fix_body,
  fix_nodes,
}
use luka.Passes.Order.{passes-again}

-- Module 1, the program, imports 0, which declares the struct `Point`.
abbrev shapes : Module
shapes = record {
  enums = body nil;
  functions = body nil;
  import_paths = [];
  imports = [];
  structs = body (cons (struct_definition (codes "Point") none (body nil)) nil);
  variables = body nil;
  file_path = codes "shapes";
}

abbrev drawing : Store
drawing zero = shapes
drawing _ = record shapes { structs = body nil; imports = 0 ∷ []; file_path = codes "drawing" }

-- A type `*Point`, as the parser or the pass makes it.
abbrev pointer : BaseType → Ty
pointer b = type type_ptr (type b null (text (codes "Point")) false) no_payload false

-- `fn move(): *Point { let p; if true { while true … } }`, with a last statement for the `if` and one
-- for the `while` within it.
abbrev move : BaseType → (Node → Node) → Node
move b statement =
    function
      (prototype (record {
        name = codes "move";
        args = codes "p" ∷ [];
        types = pointer b ∷ [];
        return_type = pointer b;
        arity = 1;
        vararg = false;
      }))
      (body (
        cons (let_stmt (variable (codes "q") (pointer b) true) (literal literal_true) false) (
          cons
            (statement (
              if_expr (literal literal_true)
                (body (cons (statement (while_expr (literal literal_true) no_body)) nil)) no_body))
            nil)))

abbrev unchanged : Node → Node
unchanged n = n

move-last : fix_last_expression (move type_alias expression_stmt) ≡ ok (move type_alias unchanged)
unfolding fix_last_expression fix_last fix_last_of fix_statement
move-last = refl

move-types : fix_types drawing 2 1 (move type_alias unchanged) ≡ ok (move type_struct unchanged)
unfolding fix_types fix_body fix_nodes visit_child fix_prototype fix_parameters fix_type fix_base
    named_base is_struct_name is_name name_in any_imported any_name struct_label is_original
move-types = refl

passes-again_example :
    (fix_last_expression (move type_struct unchanged) ≡ ok (move type_struct unchanged))
    × (fix_types drawing 2 1 (move type_struct unchanged) ≡ ok (move type_struct unchanged))
passes-again_example =
    passes-again drawing 2 1 (move type_alias expression_stmt) (move type_alias unchanged)
      (move type_struct unchanged) move-last move-types
