-- ===== src/Parser/TypeExpr/RoundTrip.antt =====
-- src/parser.c: `parser_parse_type` on the tokens of a type.
use luka.Prelude.{
  ℕ, zero, suc, ◌+◌, ◌<◌, ◌≡◌, refl, sym, ap, ◌∙◌, Bool, true, false, List, [], ◌∷◌, ◌++◌,
  append_assoc, some, length, drop, arith,
}
use luka.ReturnCode.{ok}
use luka.Token.{Token, TokType, toktype_eq, toktype_value, t_mut, t_identifier}
use luka.Types.Base.{BaseType, no_payload, text, Ty, null, type}
use luka.Parser.State.{Libc, Parser, pure, bind, ◌>>=◌, read_parser}
use luka.Parser.Literal.{is_type_token}
use luka.Parser.TypeExpr.{
  simple_type, named_type, is_suffix, base_type, base_type_of, tagged_type, mut_prefix, wrap_type,
  type_suffixes, parse_bare_type, parse_type,
}
use luka.Parser.Behind.{
  Behind, moved, ahead, over, seen, drop-lt, bind-ok, ahead-append, ahead-length, ahead-Behind,
}
use luka.Parser.TypeExpr.Tokens.{
  MutTokens, plain, marked, SuffixTokens, pointer, unsized, sized, TypeTokens, base, name, around,
  mut_prefix-MutTokens, wrap_type-SuffixTokens,
}

module _ (libc : Libc) (tokens : List Token) where
  first-is_suffix :
      {i o : Ty} {ss : List Token}
      → SuffixTokens libc i o ss
      → (u : Token) × (us : List Token) × (ss ≡ u ∷ us) × (is_suffix u.type ≡ true)
  unfolding is_suffix toktype_eq toktype_value
  first-is_suffix (pointer s plain e) = (s, _, refl, rw e refl)
  first-is_suffix (pointer s (marked t k) e) = (t, _, refl, rw k refl)
  first-is_suffix (unsized o c plain e l) = (o, _, refl, rw e refl)
  first-is_suffix (unsized o c (marked t k) e l) = (t, _, refl, rw k refl)
  first-is_suffix (sized o n c plain e l f) = (o, _, refl, rw e refl)
  first-is_suffix (sized o n c (marked t k) e l f) = (t, _, refl, rw k refl)

  -- One round of the loop.
  type_suffixes-SuffixTokens :
      {i o : Ty} {ss : List Token} (fuel : ℕ) (p : Parser) (rest : List Token)
      → SuffixTokens libc i o ss
      → Behind tokens p (ss ++ rest)
      → type_suffixes libc tokens (suc fuel) i p
        ≡ type_suffixes libc tokens fuel o (ahead tokens ss p)
  unfolding type_suffixes
  type_suffixes-SuffixTokens {i} fuel p rest s h =
      let (u, us, e, k) = first-is_suffix s in
      let g : Behind tokens p (u ∷ (us ++ rest)) = h ∙ ap (λ l. l ++ rest) e in
      seen tokens _ p g
      ∙ rw k (bind-ok (wrap_type libc tokens i) _ p (wrap_type-SuffixTokens libc tokens p rest s h))

  type_suffixes-stop :
      (fuel : ℕ) (i : Ty) (p : Parser) (e : Token) (rest : List Token)
      → Behind tokens p (e ∷ rest)
      → is_suffix e.type ≡ false
      → type_suffixes libc tokens (suc fuel) i p ≡ ok (i, p)
  unfolding type_suffixes pure
  type_suffixes-stop fuel i p e rest h k = seen tokens _ p h ∙ rw k refl

  stop :
      (fuel : ℕ) (i : Ty) (p : Parser) (e : Token) (rest : List Token)
      → Behind tokens p (e ∷ rest)
      → is_suffix e.type ≡ false
      → length tokens < fuel + p.index
      → type_suffixes libc tokens fuel i p ≡ ok (i, p)
  stop zero i p e rest h k l = absurd (omega (arith, drop-lt tokens (p.index + 1) h))
  stop (suc fuel) i p e rest h k l = type_suffixes-stop fuel i p e rest h k

  -- The loop goes on behind the tokens of the type, with fuel for what is left.
  record Reached (p : Parser) (t : Ty) (ts : List Token) : Type 0 where
    fuel : ℕ
    enough : length tokens < fuel + (ahead tokens ts p).index
    reached : parse_bare_type libc tokens p ≡ type_suffixes libc tokens fuel t (ahead tokens ts p)

  type_token-mut : (t : TokType) → is_type_token t ≡ true → toktype_eq t t_mut ≡ false
  unfolding is_type_token toktype_eq toktype_value
  type_token-mut t_mut h = cc
  type_token-mut _ h = refl

  identifier-mut : (t : Token) → t.type ≡ t_identifier → toktype_eq t.type t_mut ≡ false
  unfolding toktype_eq toktype_value
  identifier-mut t e = rw e refl

  -- In front of a suffix the cursor is not at the end.
  inside-tokens :
      {i o : Ty} (ts : List Token) {ss : List Token} (p : Parser) (rest : List Token)
      → SuffixTokens libc i o ss
      → Behind tokens p ((ts ++ ss) ++ rest)
      → (ahead tokens ts p).index + 1 < length tokens
  inside-tokens ts {ss} p rest s h =
      let (u, us, f, k) = first-is_suffix s in
      drop-lt tokens _
        (ahead-Behind tokens ts p (h ∙ append_assoc ts ss rest) ∙ ap (λ x. x ++ rest) f)

  around-suffixes :
      {i o : Ty} (ts : List Token) {ss : List Token} (p : Parser) (rest : List Token) (fuel : ℕ)
      → SuffixTokens libc i o ss
      → Behind tokens p ((ts ++ ss) ++ rest)
      → length tokens < fuel + (ahead tokens ts p).index
      → parse_bare_type libc tokens p ≡ type_suffixes libc tokens fuel i (ahead tokens ts p)
      → Reached p o (ts ++ ss)
  around-suffixes ts p rest zero s h l e = absurd (omega (arith, inside-tokens ts p rest s h))
  around-suffixes {i} {o} ts {ss} p rest (suc fuel) s h l e =
      let q = ahead tokens ts p in
      let b : Behind tokens q (ss ++ rest) =
        ahead-Behind tokens ts p (h ∙ append_assoc ts ss rest) in
      let (u, us, f, k) = first-is_suffix s in
      let some_tokens : length ss ≡ suc (length us) = ap (λ x. length x) f in
      let same : ahead tokens (ts ++ ss) p ≡ ahead tokens ss q = ahead-append tokens ts ss p in
      let place : (ahead tokens (ts ++ ss) p).index ≡ q.index + length ss =
        ap (λ x. x.index) (same ∙ ahead-length tokens ss q) in
      record {
        fuel = fuel;
        enough = omega (arith, place, some_tokens);
        reached =
            e
            ∙ (type_suffixes-SuffixTokens fuel q rest s b
                ∙ ap (λ x. type_suffixes libc tokens fuel o x) (sym same));
      }

  -- A base type or a name, which `base_type` gives without moving the cursor.
  bare-base :
      {m : Bool} (ms : List Token) (p : Parser) (t : Token) (u : Ty) (rest : List Token)
      → MutTokens m ms
      → Behind tokens p ((ms ++ t ∷ []) ++ rest)
      → toktype_eq t.type t_mut ≡ false
      → base_type libc tokens t m (ahead tokens (ms ++ t ∷ []) p)
        ≡ ok (u, ahead tokens (ms ++ t ∷ []) p)
      → Reached p u (ms ++ t ∷ [])
  unfolding parse_bare_type ahead
  bare-base {m} ms p t u rest x h k e =
      let g : Behind tokens p (ms ++ t ∷ rest) = h ∙ append_assoc ms (t ∷ []) rest in
      let same : ahead tokens (ms ++ t ∷ []) p ≡ moved tokens (ahead tokens ms p) =
        ahead-append tokens ms (t ∷ []) p in
      record {
        fuel = suc (length tokens);
        enough = omega arith;
        reached =
            bind-ok (mut_prefix libc tokens) _ p (mut_prefix-MutTokens libc tokens p rest x g k)
            ∙ (over tokens _ (ahead tokens ms p) (ahead-Behind tokens ms p g)
                ∙ (ap
                      (λ q.
                        (base_type libc tokens t m
                            >>= type_suffixes libc tokens (suc (length tokens)))
                          q)
                      (sym same)
                    ∙ bind-ok (base_type libc tokens t m) _ (ahead tokens (ms ++ t ∷ []) p) e));
      }

  base_type-simple :
      (t : Token) (m : Bool) (b : BaseType) (q : Parser)
      → simple_type t.type ≡ some b
      → base_type libc tokens t m q ≡ ok (type b null no_payload m, q)
  unfolding base_type base_type_of pure
  base_type-simple t m b q e = rw e refl

  base_type-name :
      (t : Token) (m : Bool) (ts : List Token) (p : Parser)
      → t.type ≡ t_identifier
      → base_type libc tokens t m (ahead tokens ts p)
        ≡ ok (type (named_type p t.content) null (text t.content) m, ahead tokens ts p)
  unfolding base_type base_type_of tagged_type simple_type pure read_parser ◌>>=◌ bind named_type
  base_type-name t m ts p e = rw (ahead-length tokens ts p, e) refl

  bare-TypeTokens :
      (p : Parser) {t : Ty} {ts : List Token} (rest : List Token)
      → TypeTokens libc p t ts
      → Behind tokens p (ts ++ rest)
      → Reached p t ts
  bare-TypeTokens p rest (base {m = x} {ms = ms} t b m k e) h =
      bare-base ms p t _ rest m h (type_token-mut t.type k)
        (base_type-simple t x b (ahead tokens (ms ++ t ∷ []) p) e)
  bare-TypeTokens p rest (name {m = x} {ms = ms} t m e) h =
      bare-base ms p t _ rest m h (identifier-mut t e) (base_type-name t x (ms ++ t ∷ []) p e)
  bare-TypeTokens p rest (around {ts = ts} {ss = ss} w s) h =
      let g : Behind tokens p (ts ++ (ss ++ rest)) = h ∙ append_assoc ts ss rest in
      let r = bare-TypeTokens p (ss ++ rest) w g in
      around-suffixes ts p rest r.fuel s h r.enough r.reached

-- The tokens of a type, followed by one that does not continue it, are parsed to that type, and the
-- cursor is left on the last of them.
pub parse_type-TypeTokens :
    (libc : Libc) (tokens : List Token) (p : Parser) (t : Ty) (ts : List Token) (e : Token)
    (rest : List Token)
    → TypeTokens libc p t ts
    → drop (p.index + 1) tokens ≡ ts ++ e ∷ rest
    → is_suffix e.type ≡ false
    → parse_type libc tokens false p ≡ ok (t, record p { index = p.index + length ts })
unfolding parse_type
parse_type-TypeTokens libc tokens p t ts e rest w h k =
    let r = bare-TypeTokens libc tokens p (e ∷ rest) w h in
    r.reached
    ∙ (stop libc tokens r.fuel t (ahead tokens ts p) e rest (ahead-Behind tokens ts p h) k r.enough
        ∙ ap (λ q. ok (t, q)) (ahead-length tokens ts p))
