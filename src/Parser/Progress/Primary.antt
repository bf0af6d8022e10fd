-- ===== src/Parser/Progress/Primary.antt =====
-- src/parser.c: brackets, calls and names go past a token, where the calls that lead back up do.
use luka.Prelude.{ℕ, zero, suc, ◌+◌, ◌≤◌, ◌<◌, Bool, true, false, List, none, length, arith, Bytes}
use luka.ReturnCode.{Ends, >>=-ne-out_of_fuel}
use luka.Token.{Token, TokType, t_dot, t_double_colon, t_open_brace, t_open_bracket, t_mut}
use luka.Types.Base.{Ty, type}
use luka.Types.Base as Base
use luka.Types.GetType.Ends.{equal-Ends}
use luka.Types.GetType.Total.{get_type-Ends, ok-Ends}
use luka.Modules.Resolve.Ends.{resolve-ranked}
use luka.Ast.{Node}
use luka.Types.GetType.{get_type}
use luka.Parser.State.{Libc, Parser, known_name}
use luka.Parser.Literal.{item_type, reading}
use luka.Parser.Primary.{
  Parsers, call_args, parse_call, call_if, parse_paren, array_items, parse_array_literal,
  value_fields, name_node, ident_rest, parse_ident,
}
use luka.Parser.Progress.{
  Goes, Advances, weaken, beyond, stay, done, either, step, From-read_parser, From-lift,
  From-current, From-advance, From-match, From-expect_advance, From-match_advance,
}
use luka.Parser.Progress.Types.{parse_type-From_true}

-- The calls that lead back up go past a token from `b` on, a list of statements past two.
pub record Ready (tokens : List Token) (b : ℕ) (parsers : Parsers) : Type 0 where
  pub unary : Advances tokens b parsers.unary
  pub expression : Advances tokens b parsers.expression
  pub statements : (k : ℕ) → b ≤ k → Goes tokens k (suc (suc k)) parsers.statements

-- The type of a node is found where the module has no imports yet.
type-Ends : (p : Parser) (e : Node) → Ends (get_type (reading p) 1 0 e)
type-Ends p e =
    get_type-Ends (reading p) 1 0
      (λ name.
        resolve-ranked (reading p) name (λ m. 0) (λ m. unfold reading in tt) 1 0 none (omega arith))
      e

item_type-Ends : (p : Parser) (t : Ty) (e : Node) → Ends (item_type p t e)
unfolding item_type
item_type-Ends p Base.null e = type-Ends p e
item_type-Ends p (type b i q m) e =
    >>=-ne-out_of_fuel _ _ (type-Ends p e)
      λ u. >>=-ne-out_of_fuel _ _ (equal-Ends (type b i q m) u) λ same. ok-Ends _

module _ (libc : Libc) (tokens : List Token) (parsers : Parsers) {b : ℕ}
    (r : Ready tokens (suc b) parsers) where
  call_args-From :
      (fuel : ℕ) {k : ℕ}
      → suc b ≤ k
      → length tokens < fuel + k
      → Goes tokens k (suc k) (call_args libc tokens parsers fuel)
  unfolding call_args
  call_args-From zero l h = beyond (omega arith)
  call_args-From (suc fuel) l h = step (r.expression.at _ l) λ e. step (From-match _ _) λ x.
      either x (stay _) (
        step (From-match_advance _ _)
          λ _. step (call_args-From fuel (omega arith) (omega arith)) λ es. done _ (omega arith))

  pub parse_call-From :
      (n : Node) {k : ℕ} → b ≤ k → Goes tokens k (suc k) (parse_call libc tokens parsers n)
  unfolding parse_call
  parse_call-From n l = step (From-match_advance _ _) λ _. step (From-match _ _) λ x.
      step
        (either x (stay _)
          (weaken (call_args-From (suc (length tokens)) (omega arith) (omega arith)) (omega arith)))
        λ args. step (From-advance _) λ _. done _ (omega arith)

  pub call_if-From : (n : Node) {k : ℕ} → b ≤ k → Goes tokens k k (call_if libc tokens parsers n)
  unfolding call_if
  call_if-From n l =
      step (From-match _ _) λ x. either x (weaken (parse_call-From n l) (omega arith)) (stay _)

  pub parse_paren-From : {k : ℕ} → b ≤ k → Goes tokens k (suc k) (parse_paren libc tokens parsers)
  unfolding parse_paren
  parse_paren-From l = step (From-match_advance _ _) λ _.
      step (r.expression.at _ (omega arith))
        λ e. step (From-match_advance _ _) λ _. done _ (omega arith)

  array_items-From :
      (fuel : ℕ) (t : Ty) {k : ℕ}
      → suc b ≤ k
      → length tokens < fuel + k
      → Goes tokens k k (array_items libc tokens parsers fuel t)
  unfolding array_items
  array_items-From zero t l h = beyond (omega arith)
  array_items-From (suc fuel) t l h = step (From-match _ _) λ x. either x (stay _) (
      step (r.expression.at _ l) λ e. step From-read_parser λ p.
        step (From-lift _ (item_type-Ends p t e)) λ u. step (From-match _ _) λ y.
          either y (done _ (omega arith)) (
            step (From-match_advance _ _) λ _.
              step (array_items-From fuel u (omega arith) (omega arith))
                λ es. done _ (omega arith)))

  pub parse_array_literal-From :
      {k : ℕ} → b ≤ k → Goes tokens k (suc k) (parse_array_literal libc tokens parsers)
  unfolding parse_array_literal
  parse_array_literal-From l = step (From-match_advance _ _) λ _.
      step (array_items-From (suc (length tokens)) _ (omega arith) (omega arith))
        λ x. step (From-match_advance _ _) λ _. done _ (omega arith)

  value_fields-From :
      (fuel : ℕ) {k : ℕ}
      → suc b ≤ k
      → length tokens < fuel + k
      → Goes tokens k k (value_fields libc tokens parsers fuel)
  unfolding value_fields
  value_fields-From zero l h = beyond (omega arith)
  value_fields-From (suc fuel) l h = step (From-current _) λ name.
      step (From-expect_advance _ _) λ _. step (From-advance _) λ _.
        step (r.expression.at _ (omega arith)) λ e. step (From-match _ _) λ x.
          either x (step (From-advance _) λ _. done _ (omega arith)) (
            step (From-match_advance _ _) λ _.
              step (value_fields-From fuel (omega arith) (omega arith))
                λ fields. done _ (omega arith))

  name_node-From :
      (name : Bytes) (m : Bool) {k : ℕ} → Goes tokens k k (name_node libc tokens parsers name m)
  unfolding name_node
  name_node-From name m = step From-read_parser λ p.
      either (known_name p.struct_names name) (stay _) (
        either (known_name p.enum_names name) (stay _)
          (step (parse_type-From_true libc tokens) λ t. stay _))

  ident_rest-From :
      (name : Bytes) (t : TokType) {k : ℕ}
      → suc b ≤ k
      → Goes tokens k k (ident_rest libc tokens parsers name t)
  unfolding ident_rest
  ident_rest-From name t_dot l = step (From-advance _) λ _.
      step (From-current _)
        λ key. step (From-advance _) λ _. weaken (call_if-From _ (omega arith)) (omega arith)
  ident_rest-From name t_double_colon l =
      step (From-advance _)
        λ _. step (From-current _) λ key. step (From-advance _) λ _. done _ (omega arith)
  ident_rest-From name t_open_brace l = step (From-advance _) λ _.
      step (value_fields-From (suc (length tokens)) (omega arith) (omega arith))
        λ fields. done _ (omega arith)
  ident_rest-From name t_open_bracket l = step (From-advance _) λ _.
      step (r.expression.at _ (omega arith))
        λ e. step (From-match_advance _ _) λ _. done _ (omega arith)
  ident_rest-From name t_mut l =
      step (From-advance _) λ _.
        step (name_node-From name true) λ n. weaken (call_if-From n (omega arith)) (omega arith)
  ident_rest-From name _ l = step (name_node-From name false) λ n. call_if-From n (omega arith)

  pub parse_ident-From : {k : ℕ} → b ≤ k → Goes tokens k (suc k) (parse_ident libc tokens parsers)
  unfolding parse_ident
  parse_ident-From l = step (From-current _) λ name.
      step (From-advance _)
        λ _. step (From-current _) λ t. ident_rest-From name.content t.type (omega arith)
