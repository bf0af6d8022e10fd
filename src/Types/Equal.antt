-- ===== src/Types/Equal.antt =====
-- src/type.c: `TYPE_equal`, with `type_can_cast` behind it.
pub mod Laws
pub mod Total
use luka.Prelude.{◌≡◌, Bool, true, false, Bytes, is_prefix, if◌then◌else◌}
use luka.ReturnCode.{Outcome, ok, fault, ◌>>=◌}
use luka.Types.Base.{
  BaseType, Payload, no_payload, text, size, Ty, null, type, base_eq, is_payload_type,
}
use luka.Types.Cast.{can_cast}

-- `0 == strncmp(type1->payload, type2->payload, strlen(type1->payload))`
unfoldable pub names_match : Payload → Payload → Outcome Bool
unfolding is_prefix
names_match (text a) (text b) = ok (is_prefix a b)
names_match _ _ = fault

-- `inner` is the outcome of `TYPE_equal` on the inner types. It is asked for where the base types agree
-- and, by `type_can_cast`, where both types point.
unfoldable pub equal : Ty → Ty → Outcome Bool
unfolding base_eq is_payload_type names_match can_cast
equal null null = ok true
equal null (type b2 i2 p2 m2) = ok false
equal (type b1 i1 p1 m1) null = ok false
equal (type b1 i1 p1 m1) (type b2 i2 p2 m2) =
    let inner = equal i1 i2 in
    do
      same ← if base_eq b1 b2 then inner else ok false
      named ← if is_payload_type b1 then (if same then names_match p1 p2 else ok false) else ok same
      if named then ok true else can_cast inner (type b1 i1 p1 m1) (type b2 i2 p2 m2)
