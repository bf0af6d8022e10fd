-- ===== src/Types/Text.antt =====
-- src/type.c: `TYPE_to_string`. The first argument is what the buffer holds as a string before the call;
-- the result is what it holds after. The buffer is taken to be large enough for every `snprintf`. The
-- returned pointer, which no caller uses, is left out.
use luka.Prelude.{
  ℕ, zero, suc, ◌+◌, ◌/◌, ◌%◌, ◌≡◌, refl, Bool, true, false, not, ◌&&◌, [], ◌∷◌, ◌++◌, Bytes, codes,
  ltb, if◌then◌else◌,
}
use luka.ReturnCode.{Outcome, ok, fault, ◌>>=◌}
use luka.Types.Base.{
  BaseType, type_any, type_bool, type_sint8, type_sint16, type_sint32, type_sint64, type_uint8,
  type_uint16, type_uint32, type_uint64, type_f32, type_f64, type_string, type_void, type_ptr,
  type_struct, type_array, type_type, Payload, no_payload, text, size, Ty, null, type, is_pointer,
}

-- `%zu`: the decimal digits; as many rounds as the number are enough.
unfoldable pub digits_onto : ℕ → ℕ → Bytes → Bytes
digits_onto zero n acc = acc
digits_onto (suc f) n acc =
    let more = digits_onto f (n / 10) ((b'0' + n % 10) ∷ acc) in
    if ltb n 10 then (b'0' + n) ∷ acc else more

-- `(char *) type->payload` printed by `%s`.
unfoldable pub name_of : Payload → Outcome Bytes
name_of (text s) = ok s
name_of _ = fault

-- What stands behind an array's inner type.
unfoldable pub array_suffix : Payload → Bytes
unfolding digits_onto
array_suffix (size (suc n)) = codes "[" ++ (digits_onto (suc (suc n)) (suc n) [] ++ codes "]")
array_suffix _ = codes "[]"

-- The `switch` for one type that holds no other, on a buffer that holds `old`.
unfoldable pub base_text : BaseType → Bytes → Payload → Outcome Bytes
unfolding name_of
base_text type_any old p = ok (codes "any")
base_text type_bool old p = ok (codes "bool")
base_text type_sint8 old p = ok (codes "s8")
base_text type_sint16 old p = ok (codes "s16")
base_text type_sint32 old p = ok (codes "s32")
base_text type_sint64 old p = ok (codes "s64")
base_text type_uint8 old p = ok (codes "u8")
base_text type_uint16 old p = ok (codes "u16")
base_text type_uint32 old p = ok (codes "u32")
base_text type_uint64 old p = ok (codes "u64")
base_text type_f32 old p = ok (codes "f32")
base_text type_f64 old p = ok (codes "f64")
base_text type_string old p = ok (codes "string")
base_text type_void old p = ok (codes "void")
base_text type_type old p = ok (old ++ codes "type")
base_text _ old p = name_of p >>= λ s. ok (old ++ s)

-- The `switch`; `inner` prints the inner type into a buffer.
unfoldable pub switch_text : BaseType → Bytes → (Bytes → Outcome Bytes) → Payload → Outcome Bytes
unfolding base_text array_suffix
switch_text type_ptr old inner p = inner old >>= λ s. ok (s ++ codes " mut *")
switch_text type_array old inner p = inner old >>= λ s. ok (s ++ (codes " mut " ++ array_suffix p))
switch_text b old inner p = base_text b old p

-- `mut ` stands in front of a type that does not point and is mutable; the `switch` then works on the
-- buffer behind it, which holds the empty string.
unfoldable pub to_string : Ty → Bytes → Outcome Bytes
unfolding switch_text is_pointer
to_string null old = ok (codes "(unknown type - null)")
to_string (type b i p m) old =
    let plain = switch_text b old (to_string i) p in
    let prefixed = (switch_text b [] (to_string i) p >>= λ s. ok (codes "mut " ++ s)) in
    if m && not (is_pointer b) then prefixed else plain

-- The text of a pointer says `mut` whatever its mutability is, and does not show its own flag.
pub to_string-pointer :
    (i : Ty) (p : Payload) (m : Bool) (old s : Bytes)
    → to_string i old ≡ ok s
    → to_string (type type_ptr i p m) old ≡ ok (s ++ codes " mut *")
unfolding to_string
to_string-pointer i p true old s h = rw h
to_string-pointer i p false old s h = rw h

-- A pointer to an array of 12 structs.
text_of_pointer :
    to_string
      (type type_ptr
        (type type_array (type type_struct null (text (codes "S")) true) (size 12) true)
        no_payload
        true)
      []
    ≡ ok (codes "mut S mut [12] mut *")
unfolding to_string
text_of_pointer = refl
