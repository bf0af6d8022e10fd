-- ===== src/Parser/TypeExpr/Tokens.antt =====
-- src/parser.c: the tokens that types are written with, and the parts of `parser_parse_type` on them.
use luka.Prelude.{ℕ, ◌≡◌, refl, ◌∙◌, Bool, true, false, List, [], ◌∷◌, ◌++◌, append_assoc, some}
use luka.ReturnCode.{ok}
use luka.Token.{
  Token, toktype_eq, toktype_eq_refl, toktype_value, t_mut, t_star, t_open_bracket, t_close_bracket,
  t_identifier,
}
use luka.Types.Base.{BaseType, type_ptr, type_array, no_payload, text, size, Ty, null, type}
use luka.Parser.State.{Libc, Parser, pure, ◌>>◌, expect, expect_advance}
use luka.Parser.Literal.{is_type_token}
use luka.Parser.TypeExpr.{simple_type, named_type, mut_prefix, array_length, outer_type, wrap_type}
use luka.Parser.Behind.{
  Behind, moved, ahead, over, seen, bind-ok, moved-Behind, ahead-append, ahead-Behind,
  expect-Behind, expect_advance-Behind,
}

-- `mut`, or nothing.
pub data MutTokens : Bool → List Token → Type 0 where
  plain : MutTokens false []
  marked : (t : Token) → t.type ≡ t_mut → MutTokens true (t ∷ [])

module _ (libc : Libc) where
  -- What is written behind an inner type for the type around it: `*`, `[]` or a length in brackets.
  pub data SuffixTokens (i : Ty) : Ty → List Token → Type 0 where
    pointer :
        {m : Bool} {ms : List Token} (s : Token)
        → MutTokens m ms
        → s.type ≡ t_star
        → SuffixTokens i (type type_ptr i no_payload m) (ms ++ s ∷ [])
    unsized :
        {m : Bool} {ms : List Token} (o c : Token)
        → MutTokens m ms
        → o.type ≡ t_open_bracket
        → c.type ≡ t_close_bracket
        → SuffixTokens i (type type_array i (size 0) m) (ms ++ o ∷ c ∷ [])
    sized :
        {m : Bool} {ms : List Token} (o n c : Token)
        → MutTokens m ms
        → o.type ≡ t_open_bracket
        → toktype_eq n.type t_close_bracket ≡ false
        → c.type ≡ t_close_bracket
        → SuffixTokens i (type type_array i (size (libc.atoll n.content)) m) (ms ++ o ∷ n ∷ c ∷ [])

  -- The tokens of a type: a base type or a name, and what is written behind it.
  pub data TypeTokens (p : Parser) : Ty → List Token → Type 0 where
    base :
        {m : Bool} {ms : List Token} (t : Token) (b : BaseType)
        → MutTokens m ms
        → is_type_token t.type ≡ true
        → simple_type t.type ≡ some b
        → TypeTokens p (type b null no_payload m) (ms ++ t ∷ [])
    name :
        {m : Bool} {ms : List Token} (t : Token)
        → MutTokens m ms
        → t.type ≡ t_identifier
        → TypeTokens p (type (named_type p t.content) null (text t.content) m) (ms ++ t ∷ [])
    around :
        {i o : Ty} {ts ss : List Token}
        → TypeTokens p i ts
        → SuffixTokens i o ss
        → TypeTokens p o (ts ++ ss)

module _ (libc : Libc) (tokens : List Token) where
  pub mut_prefix-MutTokens :
      {m : Bool} {ms : List Token} (p : Parser) {t : Token} (rest : List Token)
      → MutTokens m ms
      → Behind tokens p (ms ++ t ∷ rest)
      → toktype_eq t.type t_mut ≡ false
      → mut_prefix libc tokens p ≡ ok ((m, t), ahead tokens ms p)
  unfolding mut_prefix pure ahead
  mut_prefix-MutTokens p rest plain h e = seen tokens _ p h ∙ rw e refl
  mut_prefix-MutTokens p rest (marked t k) h e =
      let m : toktype_eq t.type t_mut ≡ true = rw k (toktype_eq_refl t_mut) in
      seen tokens _ p h
      ∙ rw m (over tokens _ p h ∙ seen tokens _ (moved tokens p) (moved-Behind tokens p h))

  wrap_type-MutTokens :
      {m : Bool} {ms : List Token} (i : Ty) (p : Parser) (s : Token) (rest : List Token)
      → MutTokens m ms
      → Behind tokens p (ms ++ s ∷ rest)
      → toktype_eq s.type t_mut ≡ false
      → wrap_type libc tokens i p
        ≡ outer_type libc tokens i m s.type (moved tokens (ahead tokens ms p))
  unfolding wrap_type
  wrap_type-MutTokens {ms = ms} i p s rest m h e =
      bind-ok (mut_prefix libc tokens) _ p (mut_prefix-MutTokens p rest m h e)
      ∙ over tokens _ (ahead tokens ms p) (ahead-Behind tokens ms p h)

  array_length-unsized :
      (p : Parser) (c : Token) (rest : List Token)
      → Behind tokens p (c ∷ rest)
      → c.type ≡ t_close_bracket
      → array_length libc tokens p ≡ ok (0, p)
  unfolding array_length pure
  array_length-unsized p c rest h e =
      let x : toktype_eq c.type t_close_bracket ≡ true = rw e (toktype_eq_refl t_close_bracket) in
      bind-ok (expect tokens t_close_bracket) _ p (expect-Behind tokens t_close_bracket p true h x)

  array_length-sized :
      (p : Parser) (n : Token) (rest : List Token)
      → Behind tokens p (n ∷ rest)
      → toktype_eq n.type t_close_bracket ≡ false
      → array_length libc tokens p ≡ ok (libc.atoll n.content, moved tokens p)
  unfolding array_length pure
  array_length-sized p n rest h e =
      bind-ok (expect tokens t_close_bracket) _ p (expect-Behind tokens t_close_bracket p false h e)
      ∙ (seen tokens _ p h ∙ over tokens _ p h)

  close-Behind :
      (i : Ty) (m : Bool) (k : ℕ) (p : Parser) (c : Token) (rest : List Token)
      → Behind tokens p (c ∷ rest)
      → c.type ≡ t_close_bracket
      → (expect_advance tokens t_close_bracket >> pure (type type_array i (size k) m)) p
        ≡ ok (type type_array i (size k) m, moved tokens p)
  unfolding pure
  close-Behind i m k p c rest h e =
      bind-ok (expect_advance tokens t_close_bracket) _ p
        (expect_advance-Behind tokens t_close_bracket p h e)

  pub wrap_type-SuffixTokens :
      {i o : Ty} {ss : List Token} (p : Parser) (rest : List Token)
      → SuffixTokens libc i o ss
      → Behind tokens p (ss ++ rest)
      → wrap_type libc tokens i p ≡ ok (o, ahead tokens ss p)
  unfolding outer_type pure ahead toktype_eq toktype_value
  wrap_type-SuffixTokens {i} p rest (pointer {ms = ms} s m e) h =
      let g : Behind tokens p (ms ++ s ∷ rest) = h ∙ append_assoc ms (s ∷ []) rest in
      wrap_type-MutTokens i p s rest m g (rw e refl)
      ∙ rw (ahead-append tokens ms (s ∷ []) p, e) refl
  wrap_type-SuffixTokens {i} p rest (unsized {m = x} {ms = ms} o c m e k) h =
      let g : Behind tokens p (ms ++ o ∷ c ∷ rest) = h ∙ append_assoc ms (o ∷ c ∷ []) rest in
      let q = moved tokens (ahead tokens ms p) in
      let b : Behind tokens q (c ∷ rest) =
        moved-Behind tokens (ahead tokens ms p) (ahead-Behind tokens ms p g) in
      wrap_type-MutTokens i p o (c ∷ rest) m g (rw e refl)
      ∙ rw (ahead-append tokens ms (o ∷ c ∷ []) p, e)
          (bind-ok (array_length libc tokens) _ q (array_length-unsized q c rest b k)
            ∙ close-Behind i x 0 q c rest b k)
  wrap_type-SuffixTokens {i} p rest (sized {m = x} {ms = ms} o n c m e k l) h =
      let g : Behind tokens p (ms ++ o ∷ n ∷ c ∷ rest) =
        h ∙ append_assoc ms (o ∷ n ∷ c ∷ []) rest in
      let q = moved tokens (ahead tokens ms p) in
      let b : Behind tokens q (n ∷ c ∷ rest) =
        moved-Behind tokens (ahead tokens ms p) (ahead-Behind tokens ms p g) in
      wrap_type-MutTokens i p o (n ∷ c ∷ rest) m g (rw e refl)
      ∙ rw (ahead-append tokens ms (o ∷ n ∷ c ∷ []) p, e)
          (bind-ok (array_length libc tokens) _ q (array_length-sized q n (c ∷ rest) b k)
            ∙ close-Behind i x (libc.atoll n.content) (moved tokens q) c rest
                (moved-Behind tokens q b) l)
