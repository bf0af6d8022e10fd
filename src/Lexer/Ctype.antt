-- ===== src/Lexer/Ctype.antt =====
-- <ctype.h> in the C locale, on bytes; a byte above 127 is in no class. And reads through a pointer.
use luka.Prelude.{ℕ, suc, Bool, ◌&&◌, ◌||◌, [], ◌∷◌, leb, ◌==◌, if◌then◌else◌, Bytes, get_elem?}
use luka.ReturnCode.{Outcome, ok, fault, ◌>>=◌, of_option}

unfoldable pub is_digit : ℕ → Bool
is_digit c = leb b'0' c && leb c b'9'

unfoldable pub is_alpha : ℕ → Bool
is_alpha c = (leb b'a' c && leb c b'z') || (leb b'A' c && leb c b'Z')

unfoldable pub is_alnum : ℕ → Bool
unfolding is_alpha is_digit
is_alnum c = is_alpha c || is_digit c

-- Tab, newline, vertical tab, form feed, carriage return and blank.
unfoldable pub is_space : ℕ → Bool
is_space c = (leb 9 c && leb c 13) || c == 32

-- `p[k]`
abbrev pub read : Bytes → ℕ → Outcome ℕ
read w k = of_option (get_elem? w k)

-- A string's memory: its bytes and the terminator.
abbrev pub terminator : Bytes
terminator = 0 ∷ []

-- `while (test(p[n])) ++n;` from `n = 0`: how many bytes pass. It runs off the memory's end if all do.
unfoldable pub count_while : (ℕ → Bool) → Bytes → Outcome ℕ
count_while test [] = fault
count_while test (c ∷ w) = if test c then (count_while test w >>= λ n. ok (suc n)) else ok 0
