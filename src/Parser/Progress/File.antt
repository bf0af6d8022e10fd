-- ===== src/Parser/Progress/File.antt =====
-- src/parser.c: `PARSER_parse_file` comes to an end, and behind the last token where it has a module.
use luka.Prelude.{
  ℕ, zero, suc, ◌+◌, ◌≤◌, ◌<◌, ◌≡◌, ◌≢◌, refl, ap, ◌∙◌, Bool, true, false, not, List, ◌∷◌, Option,
  none, some, Bytes, length, ltb, Bool-cases, inl, inr, if◌then◌else◌, arith,
}
use luka.ReturnCode.{Outcome, ok, returned, exited, fault, out_of_fuel}
use luka.Token.{Token, TokType, t_fn, t_extern, t_struct, t_enum, t_import, t_let, t_type, t_eof}
use luka.Ast.{Module}
use luka.Parser.State.{
  Libc, Parser, TypeAlias, Parse, pure, current, bind, ◌>>=◌, ◌>>◌, read_parser, write_parser,
}
use luka.Parser.Primary.{Parsers}
use luka.Parser.Statements.{parsers_at}
use luka.Parser.File.{
  initialize_module, initialize_parser, modify_module, add_function, add_alias, extern_of,
  parse_extern, add_import, parse_import, parse_type_alias, declaration_of, step_index,
  parse_declarations, parse_file,
}
use luka.Parser.Progress.{
  From, Goes, Within, Head, Heads, weaken, stay, done, step, From-back, From-current,
  From-read_parser, From-token_ahead, From-lift, From-write_parser, From-err, From-advance,
  From-expect_advance, From-match_advance,
}
use luka.Parser.Progress.Types.{parse_type-From_true, parse_type-From_false}
use luka.Parser.Progress.Primary.{Ready}
use luka.Parser.Progress.Declarations.{
  parse_prototype-From, parse_function-From, parse_struct_definition-From,
  parse_enum_definition-From,
}
use luka.Parser.Progress.Statements.{parse_let-From, parsers_at-Ready}
use luka.Paths.Import.{FileSystem}
use luka.Paths.Import.Ends.{resolve_path-Ends}

modify_module-From :
    {n : ℕ} (f : Module → Module) {k : ℕ}
    → ((m : Module) → Head m (f m))
    → From n k k (modify_module f)
unfolding modify_module
modify_module-From f h =
    From-write_parser (λ p. record p { current_module = f p.current_module }) (λ p. refl)
      λ p. h p.current_module

add_alias-From : {n : ℕ} (a : TypeAlias) {k : ℕ} → From n k k (add_alias a)
unfolding add_alias Head
add_alias-From a =
    From-write_parser (λ p. record p { type_aliases = a ∷ p.type_aliases }) (λ p. refl)
      λ p. (refl, refl)

module _ (libc : Libc) (fs : FileSystem) (tokens : List Token) where
  module _ (parsers : Parsers) (r : Ready tokens 2 parsers) where
    extern_of-From : (x : Bool) {k : ℕ} → Goes tokens k k (extern_of libc fs tokens parsers x)
    unfolding extern_of add_function Head
    extern_of-From true = step (From-advance _) λ _. step (From-match_advance _ _) λ _.
        step From-back λ _. step (From-current _) λ name.
          step (parse_type-From_true libc tokens)
            λ t. weaken (modify_module-From _ λ m. (refl, refl)) (omega arith)
    extern_of-From false =
        step (parse_prototype-From libc tokens)
          λ p. weaken (modify_module-From _ λ m. (refl, refl)) (omega arith)

    extern-From : {k : ℕ} → Goes tokens k k (parse_extern libc fs tokens parsers)
    unfolding parse_extern
    extern-From =
        step (From-token_ahead _ 2)
          λ t. step (extern_of-From _) λ _. weaken (From-expect_advance _ _) (omega arith)

    add_import-From :
        (o : Option Bytes) {k : ℕ} → Goes tokens k k (add_import libc fs tokens parsers o)
    unfolding add_import Head
    add_import-From none = stay _
    add_import-From (some path) = step (modify_module-From _ λ m. (refl, refl)) λ _. stay _

    import-From : {k : ℕ} → Goes tokens k k (parse_import libc fs tokens parsers)
    unfolding parse_import
    import-From = step (From-expect_advance _ _) λ _. step (From-current _) λ path.
        step (From-expect_advance _ _) λ _. step From-read_parser λ p.
          step (From-lift _ (resolve_path-Ends fs _ _ true))
            λ o. weaken (add_import-From o) (omega arith)

    type_alias-From : {k : ℕ} → Goes tokens k k (parse_type_alias libc fs tokens parsers)
    unfolding parse_type_alias
    type_alias-From = step (From-expect_advance _ _) λ _. step (From-current _) λ name.
        step (From-expect_advance _ _) λ _.
          step (parse_type-From_false libc tokens)
            λ t. step (From-expect_advance _ _) λ _. weaken (add_alias-From _) (omega arith)

    -- No declaration ends in front of where it begins.
    declaration_of-From :
        (t : TokType) {k : ℕ} → Goes tokens k k (declaration_of libc fs tokens parsers t)
    unfolding declaration_of add_function Head
    declaration_of-From t_fn =
        step (parse_function-From libc tokens parsers r (omega arith))
          λ f. step (modify_module-From _ λ m. (refl, refl)) λ _. done _ (omega arith)
    declaration_of-From t_extern = step extern-From λ _. stay _
    declaration_of-From t_struct =
        step (parse_struct_definition-From libc tokens parsers r (omega arith)) λ n.
          step (modify_module-From _ λ m. (refl, refl))
            λ _. step From-back λ _. done _ (omega arith)
    declaration_of-From t_enum =
        step (parse_enum_definition-From libc tokens parsers r (omega arith)) λ n.
          step (modify_module-From _ λ m. (refl, refl))
            λ _. step From-back λ _. done _ (omega arith)
    declaration_of-From t_import = import-From
    declaration_of-From t_let = step (parse_let-From libc tokens parsers r true (omega arith)) λ n.
        step (modify_module-From _ λ m. (refl, refl)) λ _. step From-back λ _. done _ (omega arith)
    declaration_of-From t_type = step type_alias-From λ _. stay _
    declaration_of-From t_eof = stay _
    declaration_of-From _ = (From-err _)

  -- All the tokens are read and the module keeps its head, or the file is not parsed to its end, or the program has stopped.
  Consumed : Module → Outcome (Bool × Parser) → Type 0
  unfolding Head
  Consumed m (ok (true, p)) = (p.index ≡ length tokens) × Head m p.current_module
  Consumed m (ok (false, p)) = Unit
  Consumed m (returned c) = Unit
  Consumed m (exited c) = Unit
  Consumed m fault = Unit
  Consumed m out_of_fuel = ⊥

  Consumed-bind :
      {A : Type 0} (m k : Module) (b : ℕ) (f : A → Parse Bool) (r : Outcome (A × Parser))
      → Within (length tokens) b r
      → Heads k r
      → Head m k
      → ((a : A) (p : Parser)
          → b ≤ p.index
          → p.index < length tokens
          → Head m p.current_module
          → Consumed m (f a p))
      → Consumed m (bind f r)
  unfolding Consumed Within Heads Head bind
  Consumed-bind m k b f (ok (a, p)) h e s g = g a p h.0 h.1 (e.0 ∙ s.0, e.1 ∙ s.1)
  Consumed-bind m k b f (returned c) h e s g = tt
  Consumed-bind m k b f (exited c) h e s g = tt
  Consumed-bind m k b f fault h e s g = tt
  Consumed-bind m k b f out_of_fuel h e s g = elim h [ ]

  -- What follows a declaration.
  going_on-Consumed :
      (m : Module) (goes_on : Bool) (rest : Parse Bool) (p : Parser)
      → Consumed m (rest (record p { index = p.index + 1 }))
      → Consumed m ((if not goes_on then pure false else (step_index libc fs tokens >> rest)) p)
  unfolding Consumed pure step_index write_parser ◌>>=◌ bind
  going_on-Consumed m false rest p h = tt
  going_on-Consumed m true rest p h = h

  -- One declaration and what follows it, which begins behind its first token.
  round-Consumed :
      (m : Module) (rest : Parse Bool) (p : Parser)
      → p.index < length tokens
      → Head m p.current_module
      → ((q : Parser)
          → suc p.index ≤ q.index
          → q.index ≤ length tokens
          → Head m q.current_module
          → Consumed m (rest q))
      → Consumed m (
          (current tokens >>= λ t.
          declaration_of libc fs tokens (parsers_at libc tokens (suc (length tokens))) t.type
          >>= λ goes_on. if not goes_on then pure false else (step_index libc fs tokens >> rest))
            p)
  unfolding ◌>>=◌
  round-Consumed m rest p u s ih =
      let r = parsers_at-Ready libc tokens (suc (length tokens)) 1 (omega arith) in
      let here : Goes tokens p.index p.index (current tokens) = From-current tokens in
      Consumed-bind m p.current_module p.index _ (current tokens p) (here.run p (omega arith) u)
        (here.keep p (omega arith) u) s
        λ t q l v s'.
          let h = declaration_of-From _ r t.type in
          Consumed-bind m q.current_module p.index _ _ (h.run q l v) (h.keep q l v) s'
            λ g q' l' v' s''.
              going_on-Consumed m g rest q'
                (ih (record q' { index = q'.index + 1 }) (omega arith) (omega arith) s'')

  declarations-Consumed :
      (m : Module) (fuel : ℕ) (p : Parser)
      → p.index ≤ length tokens
      → length tokens < fuel + p.index
      → Head m p.current_module
      → Consumed m (parse_declarations libc fs tokens fuel p)
  unfolding parse_declarations Consumed ◌>>=◌ bind read_parser pure
  declarations-Consumed m zero p h g s = absurd (omega arith)
  declarations-Consumed m (suc fuel) p h g s = elim (Bool-cases (ltb p.index (length tokens))) [
    | inl e ↦ rw e (
        round-Consumed m (parse_declarations libc fs tokens fuel) p (ground arith) s
          λ q l u s'. declarations-Consumed m fuel q u (omega arith) s')
    | inr e ↦ rw e (ground (arith, s))
  ]

  -- The last step of `PARSER_parse_file`, behind the loop.
  finish : Bool → Parse (Option Module)
  finish parsed = read_parser >>= λ p. pure (if parsed then some p.current_module else none)

  finish-Ends :
      (m : Module) (r : Outcome (Bool × Parser)) → Consumed m r → bind finish r ≢ out_of_fuel
  unfolding finish Consumed bind ◌>>=◌ read_parser pure
  finish-Ends m (ok (x, p)) h = cc
  finish-Ends m (returned c) h = cc
  finish-Ends m (exited c) h = cc
  finish-Ends m fault h = cc
  finish-Ends m out_of_fuel h = elim h [ ]

  finish-Head :
      (k : Module) (r : Outcome (Bool × Parser)) {m : Module} {q : Parser}
      → Consumed k r
      → bind finish r ≡ ok (some m, q)
      → (q.index ≡ length tokens) × Head k m
  unfolding finish Consumed Head bind ◌>>=◌ read_parser pure
  finish-Head k (ok (true, p)) {m} {q} h e =
      let q_is : q ≡ p = (cc) in
      let m_is : m ≡ p.current_module = (cc) in
      (
        ap (λ x. x.index) q_is ∙ h.0,
        (ap (λ x. x.file_path) m_is ∙ h.1.0, ap (λ x. x.imports) m_is ∙ h.1.1),
      )
  finish-Head k (ok (false, p)) h e = cc
  finish-Head k (returned c) h e = cc
  finish-Head k (exited c) h e = cc
  finish-Head k fault h e = cc
  finish-Head k out_of_fuel h e = cc

  file-Consumed :
      (path : Bytes) (aliases : List TypeAlias)
      → Consumed
          (initialize_module path)
          (parse_declarations libc fs tokens (suc (length tokens)) (initialize_parser path aliases))
  unfolding initialize_parser Head
  file-Consumed path aliases =
      declarations-Consumed (initialize_module path) (suc (length tokens))
        (initialize_parser path aliases) (omega arith) (omega arith) (refl, refl)

-- Parsing a file ends, whatever its tokens are: the model has fuel enough.
pub parse_file_ends :
    (libc : Libc) (fs : FileSystem) (tokens : List Token) (path : Bytes) (aliases : List TypeAlias)
    → parse_file libc fs tokens (initialize_parser path aliases) ≢ out_of_fuel
unfolding parse_file ◌>>=◌ finish
parse_file_ends libc fs tokens path aliases =
    finish-Ends libc fs tokens _ _ (file-Consumed libc fs tokens path aliases)

-- Where a module comes back, the cursor is behind the last token: no token is left unread.
pub parse_file-length :
    (libc : Libc) (fs : FileSystem) (tokens : List Token) (path : Bytes) (aliases : List TypeAlias)
    (m : Module) (q : Parser)
    → parse_file libc fs tokens (initialize_parser path aliases) ≡ ok (some m, q)
    → q.index ≡ length tokens
unfolding parse_file ◌>>=◌ finish
parse_file-length libc fs tokens path aliases m q e =
    (finish-Head libc fs tokens _ _ (file-Consumed libc fs tokens path aliases) e).0

-- A module that comes back has the path of its file, and no imports yet.
pub parse_file-Head :
    (libc : Libc) (fs : FileSystem) (tokens : List Token) (path : Bytes) (aliases : List TypeAlias)
    (m : Module) (q : Parser)
    → parse_file libc fs tokens (initialize_parser path aliases) ≡ ok (some m, q)
    → Head (initialize_module path) m
unfolding parse_file ◌>>=◌ finish
parse_file-Head libc fs tokens path aliases m q e =
    (finish-Head libc fs tokens _ _ (file-Consumed libc fs tokens path aliases) e).1
