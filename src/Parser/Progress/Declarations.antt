-- ===== src/Parser/Progress/Declarations.antt =====
-- src/parser.c: prototypes, functions, structs and enums go past a token.
use luka.Prelude.{
  ℕ, zero, suc, ◌+◌, ◌≤◌, ◌<◌, refl, Bool, List, Option, some, none, arith, Bytes, length,
}
use luka.Token.{Token}
use luka.Ast.{Node, Values}
use luka.Parser.State.{Libc, Parse}
use luka.Parser.Primary.{Parsers}
use luka.Parser.Prototype.{parse_arg, more_args, parse_args, parse_prototype}
use luka.Parser.Declarations.{
  parse_struct_field, struct_fields, parse_struct_fields, parse_function, struct_functions,
  parse_struct_functions, add_struct_name, add_enum_name, parse_struct_definition, enum_value,
  enum_field, enum_fields, parse_enum_fields, parse_enum_definition,
}
use luka.Parser.Progress.{
  Goes, weaken, beyond, stay, done, either, step, From-back, From-current, From-stop_fault,
  From-write_parser, Head, From-err, From-advance, From-match, From-expect, From-expect_advance,
  From-match_advance,
}
use luka.Parser.Progress.Types.{parse_type-From_true}
use luka.Parser.Progress.Primary.{Ready}
use luka.Parser.Progress.Unary.{parse_primary-Advances}

module _ (libc : Libc) (tokens : List Token) where
  parse_arg-From : (t : Token) {k : ℕ} → Goes tokens k k (parse_arg libc tokens t)
  unfolding parse_arg
  parse_arg-From t = step (parse_type-From_true libc tokens) λ u. stay _

  more_args-From :
      (fuel : ℕ) (vararg : Bool) {k : ℕ}
      → length tokens < fuel + k
      → Goes tokens k k (more_args libc tokens fuel vararg)
  unfolding more_args
  more_args-From zero v h = beyond (omega arith)
  more_args-From (suc fuel) v h = step (From-expect _ _) λ x. either _ (stay _) (
      step (From-expect_advance _ _) λ _. step (From-expect _ _) λ y. step (From-expect _ _) λ z.
        step (either _ (stay _) (From-err _)) λ _. step (From-advance _) λ _.
          step (From-current _) λ t.
            step (parse_arg-From t)
              λ arg. step (more_args-From fuel _ (omega arith)) λ args. done _ (omega arith))

  parse_args-From : {k : ℕ} → Goes tokens k k (parse_args libc tokens)
  unfolding parse_args
  parse_args-From = step (From-expect _ _) λ x.
      either x (step (From-advance _) λ _. done _ (omega arith)) (
        step (From-advance _) λ _. step (From-current _) λ t. step (parse_arg-From t) λ arg.
          step (more_args-From (suc (length tokens)) _ (omega arith))
            λ args. step (From-expect_advance _ _) λ _. done _ (omega arith))

  pub parse_prototype-From : {k : ℕ} → Goes tokens k (suc (suc k)) (parse_prototype libc tokens)
  unfolding parse_prototype
  parse_prototype-From = step (From-expect_advance _ _) λ _. step (From-current _) λ name.
      step (From-expect_advance _ _) λ _.
        step parse_args-From
          λ args. step (parse_type-From_true libc tokens) λ t. done _ (omega arith)

  struct_field-From : {k : ℕ} → Goes tokens k (suc k) (parse_struct_field libc tokens)
  unfolding parse_struct_field
  struct_field-From = step (From-current _) λ name. step (From-match_advance _ _) λ _.
      step From-back
        λ _. step (parse_type-From_true libc tokens) λ t. step (From-advance _) λ _. stay _

  struct_fields-From :
      (fuel : ℕ) {k : ℕ}
      → length tokens < fuel + k
      → Goes tokens k k (struct_fields libc tokens fuel)
  unfolding struct_fields
  struct_fields-From zero h = beyond (omega arith)
  struct_fields-From (suc fuel) h = step (From-match _ _) λ x. either x (stay _) (
      step struct_field-From λ field. step (From-match _ _) λ y. step (From-match _ _) λ z.
        either _ (done _ (omega arith)) (
          step (From-match_advance _ _)
            λ _. step (struct_fields-From fuel (omega arith)) λ fields. done _ (omega arith)))

  parse_struct_fields-From : {k : ℕ} → Goes tokens k k (parse_struct_fields libc tokens)
  unfolding parse_struct_fields
  parse_struct_fields-From = step (From-match _ _) λ x.
      step (either x (stay _) (struct_fields-From (suc (length tokens)) (omega arith)))
        λ fields. stay _

  module _ (parsers : Parsers) {b : ℕ} (r : Ready tokens (suc (suc b)) parsers) where
    pub parse_function-From :
        {k : ℕ} → b ≤ k → Goes tokens k (suc k) (parse_function libc tokens parsers)
    unfolding parse_function
    parse_function-From l =
        step parse_prototype-From
          λ p. step (r.statements _ (omega arith)) λ stmts. done _ (omega arith)

    struct_functions-From :
        (fuel : ℕ) {k : ℕ}
        → suc b ≤ k
        → length tokens < fuel + k
        → Goes tokens k k (struct_functions libc tokens parsers fuel)
    unfolding struct_functions
    struct_functions-From zero l h = beyond (omega arith)
    struct_functions-From (suc fuel) l h = step (parse_function-From (omega arith)) λ f.
        step (From-advance _) λ _. step (From-match _ _) λ x.
          either x (done _ (omega arith)) (
            step (struct_functions-From fuel (omega arith) (omega arith))
              λ fs. done _ (omega arith))

    parse_struct_functions-From :
        {k : ℕ} → suc b ≤ k → Goes tokens k k (parse_struct_functions libc tokens parsers)
    unfolding parse_struct_functions
    parse_struct_functions-From l =
        step (From-match _ _)
          λ x. either x (stay _) (struct_functions-From (suc (length tokens)) l (omega arith))

    add_struct_name-From :
        (s : Bytes) {k : ℕ} → Goes tokens k k (add_struct_name libc tokens parsers s)
    unfolding add_struct_name Head
    add_struct_name-From s = From-write_parser _ (λ p. refl) λ p. (refl, refl)

    add_enum_name-From : (s : Bytes) {k : ℕ} → Goes tokens k k (add_enum_name libc tokens parsers s)
    unfolding add_enum_name Head
    add_enum_name-From s = From-write_parser _ (λ p. refl) λ p. (refl, refl)

    pub parse_struct_definition-From :
        {k : ℕ} → b ≤ k → Goes tokens k (suc (suc k)) (parse_struct_definition libc tokens parsers)
    unfolding parse_struct_definition
    parse_struct_definition-From l = step (From-match_advance _ _) λ _. step From-back λ _.
        step (From-expect_advance _ _) λ _. step (From-current _) λ name.
          step (From-expect_advance _ _) λ _. step (From-advance _) λ _.
            step (add_struct_name-From _) λ _. step parse_struct_fields-From λ fields.
              step (parse_struct_functions-From (omega arith))
                λ functions. step (From-match_advance _ _) λ _. done _ (omega arith)

    enum_value-From : (v : ℕ) {k : ℕ} → b ≤ k → Goes tokens k k (enum_value libc tokens parsers v)
    unfolding enum_value
    enum_value-From v l = step (From-match _ _) λ x. either _ (stay _) (
        step (From-advance _) λ _.
          step ((parse_primary-Advances libc tokens parsers r).at _ (omega arith))
            λ n. done _ (omega arith))

    enum_field-From :
        (name : Bytes) (rest : ℕ → Parse Values) (o : Option (Node × ℕ)) {k : ℕ}
        → ((v : ℕ) → Goes tokens (suc k) (suc k) (rest v))
        → Goes tokens k k (enum_field libc tokens parsers name rest o)
    unfolding enum_field
    enum_field-From name rest none h = stay _
    enum_field-From name rest (some (n, bits)) h = step (either _ From-stop_fault (stay _)) λ _.
        step (From-match _ _) λ x.
          either x (stay _)
            (step (From-match_advance _ _) λ _. step (h _) λ fields. done _ (omega arith))

    enum_fields-From :
        (fuel v : ℕ) {k : ℕ}
        → b ≤ k
        → length tokens < fuel + k
        → Goes tokens k k (enum_fields libc tokens parsers fuel v)
    unfolding enum_fields
    enum_fields-From zero v l h = beyond (omega arith)
    enum_fields-From (suc fuel) v l h = step (From-current _) λ name.
        step (From-match_advance _ _) λ _. step (enum_value-From v (omega arith)) λ o.
          weaken (enum_field-From _ _ o λ u. enum_fields-From fuel u (omega arith) (omega arith))
            (omega arith)

    pub parse_enum_definition-From :
        {k : ℕ} → b ≤ k → Goes tokens k (suc (suc k)) (parse_enum_definition libc tokens parsers)
    unfolding parse_enum_definition parse_enum_fields
    parse_enum_definition-From l = step (From-expect_advance _ _) λ _. step (From-current _) λ name.
        step (From-expect_advance _ _) λ _. step (From-advance _) λ _.
          step
            (step (From-match _ _) λ x.
              either x (stay _)
                (enum_fields-From (suc (length tokens)) 0 (omega arith) (omega arith)))
            λ fields.
              step (From-match_advance _ _)
                λ _. step (add_enum_name-From _) λ _. done _ (omega arith)
