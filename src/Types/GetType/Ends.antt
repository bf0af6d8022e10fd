-- ===== src/Types/GetType/Ends.antt =====
-- src/type.c: `TYPE_get_type` and `TYPE_equal` end, where the look-up of functions does.
use luka.Prelude.{zero, suc, Bool, true, false, if-ne, Option, none, some, List, [], ◌∷◌, Bytes}
use luka.ReturnCode.{Outcome, Ends, >>=-ne-out_of_fuel}
use luka.Types.Base.{
  BaseType, Payload, no_payload, text, size, type_ptr, type_array, Ty, type, null, base_eq,
  is_payload_type,
}
use luka.Types.Dup.{dup_type-Ends}
use luka.Types.Cast.{keeps_mutability, from_pointer, cast_switch, can_cast}
use luka.Types.Equal.{equal, names_match}
use luka.Types.GetType.{
  make_mutable, inner_type, element_type, field_type, field_of, find_field, find_struct_field,
  get_field, return_type_of, builtin_type,
}
use luka.Ast.{
  StructField, Node, prototype, function, struct_definition, builtin, Body, no_body, body, Nodes,
  nil, cons,
}
use luka.Ast as Ast
use luka.Core.{lookup_builtin}

pub keeps_mutability-Ends : (i1 i2 : Ty) → Ends (keeps_mutability i1 i2)
unfolding keeps_mutability
keeps_mutability-Ends null _ = cc
keeps_mutability-Ends (type b i p true) _ = cc
keeps_mutability-Ends (type b i p false) null = cc
keeps_mutability-Ends (type b i p false) (type c j q m) = cc

pub from_pointer-Ends :
    (inner : Outcome Bool) (i1 i2 : Ty) → Ends inner → Ends (from_pointer inner i1 i2)
unfolding from_pointer
from_pointer-Ends inner i1 i2 h =
    >>=-ne-out_of_fuel inner _ h λ x. if-ne x (keeps_mutability-Ends i1 i2) cc

pub cast_switch-Ends :
    (inner : Outcome Bool) (b1 : BaseType) (i1 : Ty) (b2 : BaseType) (i2 : Ty)
    → Ends inner
    → Ends (cast_switch inner b1 i1 b2 i2)
unfolding cast_switch
cast_switch-Ends inner type_ptr i1 type_ptr i2 h = from_pointer-Ends inner i1 i2 h
cast_switch-Ends inner type_ptr i1 type_array i2 h = from_pointer-Ends inner i1 i2 h
cast_switch-Ends inner type_array i1 type_ptr i2 h = from_pointer-Ends inner i1 i2 h
cast_switch-Ends inner type_array i1 type_array i2 h = from_pointer-Ends inner i1 i2 h
cast_switch-Ends inner _ i1 _ i2 h = cc

pub can_cast-Ends : (inner : Outcome Bool) (s t : Ty) → Ends inner → Ends (can_cast inner s t)
unfolding can_cast
can_cast-Ends inner (type b1 i1 p1 m1) (type b2 i2 p2 m2) h =
    >>=-ne-out_of_fuel _ _ (cast_switch-Ends inner b1 i1 b2 i2 h) λ x. cc
can_cast-Ends inner _ _ h = cc

pub names_match-Ends : (p q : Payload) → Ends (names_match p q)
unfolding names_match
names_match-Ends (text a) (text b) = cc
names_match-Ends (text a) no_payload = cc
names_match-Ends _ _ = cc

pub equal-Ends : (s t : Ty) → Ends (equal s t)
unfolding equal
equal-Ends null null = cc
equal-Ends null (type b i p m) = cc
equal-Ends (type b i p m) null = cc
equal-Ends (type b1 i1 p1 m1) (type b2 i2 p2 m2) =
    >>=-ne-out_of_fuel _ _ (if-ne (base_eq b1 b2) (equal-Ends i1 i2) cc) λ same.
      >>=-ne-out_of_fuel _ _
        (if-ne (is_payload_type b1) (if-ne same (names_match-Ends p1 p2) cc) cc)
        λ n. if-ne n (cc) (can_cast-Ends _ (type b1 i1 p1 m1) (type b2 i2 p2 m2) (equal-Ends i1 i2))

pub make_mutable-Ends : (t : Ty) → Ends (make_mutable t)
unfolding make_mutable
make_mutable-Ends null = cc
make_mutable-Ends (type b i p m) = cc

pub inner_type-Ends : (t : Ty) → Ends (inner_type t)
inner_type-Ends null = cc
inner_type-Ends (type b i p m) = cc

pub element_type-Ends : (t : Ty) → Ends (element_type t)
unfolding element_type
element_type-Ends null = cc
element_type-Ends (type b i p m) = dup_type-Ends i

pub field_type-Ends : (key : Bytes) (fs : List StructField) → Ends (field_type key fs)
unfolding field_type
field_type-Ends key [] = cc
field_type-Ends key (f ∷ fs) = if-ne _ (dup_type-Ends f.type) (field_type-Ends key fs)

pub field_of-Ends : (key : Bytes) (o : Option (List StructField)) → Ends (field_of key o)
unfolding field_of
field_of-Ends key none = cc
field_of-Ends key (some fs) = field_type-Ends key fs

pub find_field-Ends : (s key : Bytes) (ns : Nodes) → Ends (find_field s key ns)
unfolding find_field
find_field-Ends s key nil = cc
find_field-Ends s key (cons (struct_definition t fields functions) rest) =
    if-ne _ (field_of-Ends key fields) (find_field-Ends s key rest)
find_field-Ends s key (cons _ rest) = find_field-Ends s key rest

pub find_struct_field-Ends : (s key : Bytes) (b : Body) → Ends (find_struct_field s key b)
unfolding find_struct_field
find_struct_field-Ends s key no_body = cc
find_struct_field-Ends s key (body ns) = find_field-Ends s key ns

pub get_field-Ends : (t : Ty) (key : Bytes) (b : Body) → Ends (get_field t key b)
unfolding get_field
get_field-Ends null key b = cc
get_field-Ends (type t i no_payload m) key b = cc
get_field-Ends (type t i (size zero) m) key b = cc
get_field-Ends (type t i (size (suc n)) m) key b = cc
get_field-Ends (type t i (text s) m) key b = find_struct_field-Ends s key b

pub return_type_of-Ends : (n : Node) → Ends (return_type_of n)
unfolding return_type_of
return_type_of-Ends Ast.null = cc
return_type_of-Ends (function (prototype p) b) = dup_type-Ends p.return_type
return_type_of-Ends (function _ b) = cc
return_type_of-Ends _ = cc

pub builtin_type-Ends : (n : Node) → Ends (builtin_type n)
unfolding builtin_type
builtin_type-Ends (prototype p) = dup_type-Ends p.return_type
builtin_type-Ends _ = cc

pub lookup_builtin-Ends : (n : Node) → Ends (lookup_builtin n)
unfolding lookup_builtin
lookup_builtin-Ends Ast.null = cc
lookup_builtin-Ends (builtin name) = cc
lookup_builtin-Ends _ = cc
