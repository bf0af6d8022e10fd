-- ===== src/Prelude/Text.antt =====
-- Byte strings: what a `char *` points to, up to and without its terminator.
use Prim.Native.Nat.{ℕ}
use Prim.Native.Char.{code}
use Prim.Native.String.{String}
use mathlib.Core.Path.{◌≡◌, refl}
use mathlib.Core.Logic.{◌↔◌}
use mathlib.Core.Bool.{Bool, true, false, ◌&&◌}
use mathlib.Core.List.{List, [], ◌∷◌, ◌++◌}
use native.Mathlib.Omega.{arith}
use luka.Prelude.Tests.{◌==◌}

abbrev pub Bytes : Type 0
Bytes = List ℕ

-- The bytes of an ASCII literal.
abbrev pub codes : String → Bytes
codes String.[] = []
codes (String.◌∷◌ c s) = code c ∷ codes s

-- `0 == strcmp(a, b)`
unfoldable pub str_eq : Bytes → Bytes → Bool
str_eq [] [] = true
str_eq (x ∷ xs) (y ∷ ys) = x == y && str_eq xs ys
str_eq _ _ = false

-- `0 == strncmp(a, b, strlen(a))`
unfoldable pub is_prefix : Bytes → Bytes → Bool
is_prefix [] b = true
is_prefix (x ∷ xs) (y ∷ ys) = x == y && is_prefix xs ys
is_prefix (x ∷ xs) [] = false

pub str_eq_iff : (a b : Bytes) → (str_eq a b ≡ true) ↔ (a ≡ b)
unfolding str_eq
str_eq_iff (x ∷ xs) (y ∷ ys) = ground (arith, str_eq_iff xs ys)
str_eq_iff _ _ = ground arith

pub str_eq_refl : (a : Bytes) → str_eq a a ≡ true
str_eq_refl a = (str_eq_iff a a).1 refl

pub is_prefix_refl : (a : Bytes) → is_prefix a a ≡ true
unfolding is_prefix
is_prefix_refl [] = refl
is_prefix_refl (x ∷ xs) = ground (arith, is_prefix_refl xs)

-- The prefix test, described by what is left of the longer text.
pub is_prefix_sound : (a b : Bytes) → is_prefix a b ≡ true → (rest : Bytes) × (b ≡ a ++ rest)
unfolding is_prefix
is_prefix_sound [] b h = (b, refl)
is_prefix_sound (x ∷ xs) (y ∷ ys) h =
    let ih = is_prefix_sound xs ys (ground arith) in (ih.0, ground (arith, ih.1))
is_prefix_sound (x ∷ xs) [] h = ground arith

pub is_prefix-append : (a rest : Bytes) → is_prefix a (a ++ rest) ≡ true
unfolding is_prefix
is_prefix-append [] rest = refl
is_prefix-append (x ∷ xs) rest = ground (arith, is_prefix-append xs rest)
