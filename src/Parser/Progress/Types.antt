-- ===== src/Parser/Progress/Types.antt =====
-- src/parser.c: `parser_parse_type` goes past the tokens of the type, within the rounds of its loop.
use luka.Prelude.{
  ℕ, zero, suc, ◌+◌, ◌<◌, Bool, true, false, List, Option, none, some, length, arith,
}
use luka.Token.{Token, TokType, t_struct, t_enum, t_identifier, t_open_bracket}
use luka.Types.Base.{BaseType, Ty}
use luka.Parser.State.{Libc}
use luka.Parser.TypeExpr.{
  tagged_type, base_type_of, base_type, mut_prefix, array_length, outer_type, wrap_type,
  type_suffixes, parse_bare_type, parse_type, simple_type,
}
use luka.Parser.Progress.{
  Goes, weaken, beyond, stay, done, either, step, From-read_parser, From-current, From-next,
  From-advance, From-err, From-expect, From-expect_advance,
}

module _ (libc : Libc) (tokens : List Token) where
  tagged_type-From :
      (token : Token) (m : Bool) (t : TokType) {b : ℕ}
      → Goes tokens b b (tagged_type libc tokens token m t)
  unfolding tagged_type
  tagged_type-From token m t_struct =
      step (From-advance _) λ _. step (From-current _) λ t. done _ (omega arith)
  tagged_type-From token m t_enum =
      step (From-advance _) λ _. step (From-current _) λ t. done _ (omega arith)
  tagged_type-From token m t_identifier = step From-read_parser λ p. stay _
  tagged_type-From token m _ = (From-err _)

  base_type_of-From :
      (token : Token) (m : Bool) (o : Option BaseType) {b : ℕ}
      → Goes tokens b b (base_type_of libc tokens token m o)
  unfolding base_type_of
  base_type_of-From token m (some t) = stay _
  base_type_of-From token m none = tagged_type-From token m token.type

  mut_prefix-From : {b : ℕ} → Goes tokens b b (mut_prefix libc tokens)
  unfolding mut_prefix
  mut_prefix-From = step (From-next _) λ token.
      either _ (stay _) (step (From-advance _) λ _. step (From-next _) λ t. done _ (omega arith))

  array_length-From : {b : ℕ} → Goes tokens b b (array_length libc tokens)
  unfolding array_length
  array_length-From = step (From-expect _ _) λ x.
      either x (stay _) (step (From-next _) λ t. step (From-advance _) λ _. done _ (omega arith))

  outer_type-From :
      (inner : Ty) (m : Bool) (t : TokType) {b : ℕ}
      → Goes tokens b b (outer_type libc tokens inner m t)
  unfolding outer_type
  outer_type-From inner m t_open_bracket =
      step array_length-From λ n. step (From-expect_advance _ _) λ _. done _ (omega arith)
  outer_type-From inner m _ = stay _

  wrap_type-From : (inner : Ty) {b : ℕ} → Goes tokens b (suc b) (wrap_type libc tokens inner)
  unfolding wrap_type
  wrap_type-From inner =
      step mut_prefix-From λ x. step (From-advance _) λ _. outer_type-From inner x.0 x.1.type

  -- Each round goes past a token, so the loop does not run out of rounds.
  type_suffixes-From :
      (fuel : ℕ) (inner : Ty) {b : ℕ}
      → length tokens < fuel + b
      → Goes tokens b b (type_suffixes libc tokens fuel inner)
  unfolding type_suffixes
  type_suffixes-From zero inner h = beyond (omega arith)
  type_suffixes-From (suc fuel) inner h = step (From-next _) λ t. either _ (stay _) (
      step (wrap_type-From inner)
        λ outer. weaken (type_suffixes-From fuel outer (omega arith)) (omega arith))

  parse_bare_type-From : {b : ℕ} → Goes tokens b (suc b) (parse_bare_type libc tokens)
  unfolding parse_bare_type base_type
  parse_bare_type-From = step mut_prefix-From λ x. step (From-advance _) λ _.
      step (base_type_of-From x.1 x.0 (simple_type x.1.type))
        λ inner. type_suffixes-From (suc (length tokens)) inner (omega arith)

  -- Without the prefix a type has a token at least.
  pub parse_type-From_false : {b : ℕ} → Goes tokens b (suc b) (parse_type libc tokens false)
  unfolding parse_type
  parse_type-From_false = parse_bare_type-From

  pub parse_type-From_true : {b : ℕ} → Goes tokens b b (parse_type libc tokens true)
  unfolding parse_type
  parse_type-From_true = step (From-expect _ _) λ x.
      either _ (stay _)
        (step (From-expect_advance _ _) λ _. weaken parse_bare_type-From (omega arith))
