-- ===== src/Examples/Gen/Constants.antt =====
-- The theorems on the constants and the types of functions of src/gen.c.
use luka.Prelude.{
  ℕ, ◌+◌, ◌*◌, ◌/◌, ◌%◌, ◌^◌, ◌≡◌, ◌≤◌, suc, refl, ap, Bool, true, false, List, [], ◌∷◌, codes,
  length, arith,
}
use luka.ReturnCode.{ok}
use luka.Types.Base.{
  type_sint8, type_sint32, type_string, type_any, no_payload, null, type, initialize_type,
}
use luka.Ast.{Prototype}
use luka.Gen.Llvm.{Form, int, float, double, pointer, array, other}
use luka.Gen.Types.{to_llvm}
use luka.Gen.Constants.{Constants, IsConstants, codegen_number, codegen_sizeof}
use luka.Gen.Constants.Numbers.{signed_8, codegen_number-value}
use luka.Gen.Constants.Sizes.{given_size, codegen_sizeof-bytes}
use luka.Gen.Signature.{function_type}
use luka.Gen.Signature.Exact.{Translated, no_types, one_more, function_type-Translated}
use luka.Examples.Gen.{width, forms, forms-IsLlvm, no_structs, three, three-array}

abbrev bytes_of : Form → ℕ
bytes_of (int w) = (w + 7) / 8
bytes_of float = 4
bytes_of double = 8
bytes_of (pointer f) = 8
bytes_of (array f n) = n * bytes_of f
bytes_of f = 0

abbrev constants : Constants forms
constants = record {
  const_int = λ t v signed. (t, v % 2 ^ width t);
  const_real = λ t v. (t, v);
  size_of = λ t. (int 64, bytes_of t);
  widen = λ v. v;
}

sizes : (k : ℕ) → k ≤ 3 → bytes_of (int (8 * 2 ^ k)) ≡ 2 ^ k
sizes ℕ.zero small = refl
sizes (suc ℕ.zero) small = refl
sizes (suc (suc ℕ.zero)) small = refl
sizes (suc (suc (suc ℕ.zero))) small = refl
sizes (suc (suc (suc (suc k)))) small = absurd (omega arith)

abbrev constants-IsConstants : IsConstants forms forms-IsLlvm constants
constants-IsConstants = record {
  value = λ v. v.1;
  bytes = bytes_of;
  value-const_int = λ t w v signed e narrow small. ap (λ x. v % 2 ^ width x) e;
  value-size_of = λ t fits. refl;
  bytes-bit = refl;
  bytes-int = λ k small. sizes k small;
  bytes-float = refl;
  bytes-double = refl;
  bytes-pointer = λ f. refl;
  bytes-array = λ f n. refl;
}

-- The number -2 as a signed byte.
codegen_number-value_example :
    (c : Form × ℕ) × (codegen_number forms constants no_structs
        (type type_sint8 null no_payload false)
        254
      ≡ ok c)
    × (c.1 ≡ 254)
codegen_number-value_example =
    codegen_number-value forms forms-IsLlvm constants constants-IsConstants no_structs signed_8 null
      no_payload false 254

-- Three numbers of two bytes.
codegen_sizeof-bytes_example :
    (c : Form × ℕ) × (codegen_sizeof forms constants no_structs three ≡ ok c) × (c.1 ≡ 8)
unfolding given_size
codegen_sizeof-bytes_example =
    codegen_sizeof-bytes forms forms-IsLlvm constants constants-IsConstants no_structs three
      (array (int 16) 3) three-array (omega arith)

abbrev make : Form → List Form → Bool → Form
make result params vararg = other (length params)

-- `fn printf(format: string, ...): int`
abbrev printf : Prototype
printf = record {
  name = codes "printf";
  args = codes "format" ∷ codes "..." ∷ [];
  types = initialize_type type_string ∷ initialize_type type_any ∷ [];
  return_type = initialize_type type_sint32;
  arity = 2;
  vararg = true;
}

format-Translated :
    Translated forms no_structs (initialize_type type_string ∷ []) (pointer (int 8) ∷ [])
unfolding to_llvm initialize_type
format-Translated = one_more refl no_types

result_is : to_llvm forms no_structs (initialize_type type_sint32) ≡ ok (int 32)
unfolding to_llvm initialize_type
result_is = refl

function_type-Translated_example :
    function_type forms no_structs make printf ≡ ok (make (int 32) (pointer (int 8) ∷ []) true)
function_type-Translated_example =
    function_type-Translated forms no_structs make printf (initialize_type type_string ∷ [])
      (initialize_type type_any ∷ []) (pointer (int 8) ∷ []) (int 32) refl refl (omega arith)
      format-Translated result_is
