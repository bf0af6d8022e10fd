-- ===== src/Examples/Driver/Ranks.antt =====
-- The theorem on the depth of `frontend`, for the two files.
use mathlib.Core.Path.{subst}
use luka.Prelude.{
  ℕ, ◌<◌, ◌≡◌, refl, sym, ap, ◌∙◌, false, Bool-cases, inl, inr, List, [], ◌∷◌, Bytes, str_eq,
  str_eq_iff, All, arith, if◌then◌else◌,
}
use luka.ReturnCode.{Outcome, ok, fault}
use luka.Token.{Token}
use luka.Ast.{Module}
use luka.Passes.Aliases.{Aliases}
use luka.Files.{file_contents}
use luka.Driver.FrontEnd.{lex, parse_tokens, frontend, frontend_above}
use luka.Driver.FrontEnd.Fuel.{frontend-fuel}
use luka.Examples.Driver.{main_path, other_path, world, start, source_of, run}

-- The first file imports the second one.
rank : Bytes → ℕ
rank path = if str_eq path main_path then 1 else 0

tokens_of : Outcome (List Token) → List Token
tokens_of (ok tokens) = tokens
tokens_of _ = []

paths_of : Outcome (Module × Aliases) → List Bytes
paths_of (ok (module_, aliases)) = module_.import_paths
paths_of _ = main_path ∷ []

abbrev Falls : Bytes → Type 0
Falls path =
    (tokens : List Token) (aliases aliases' : Aliases) (module_ : Module)
    → lex world 9 path ≡ ok tokens
    → parse_tokens world 9 path tokens aliases ≡ ok (module_, aliases')
    → All (λ import_path. rank import_path < rank path) module_.import_paths

-- A file that is known to have some import paths.
known-Falls :
    (path : Bytes) (tokens : List Token) (paths : List Bytes)
    → lex world 9 path ≡ ok tokens
    → ((aliases : Aliases) → paths_of (parse_tokens world 9 path tokens aliases) ≡ paths)
    → All (λ import_path. rank import_path < rank path) paths
    → Falls path
unfolding paths_of
known-Falls path tokens paths lexed parsed lower tokens' aliases aliases' module_ lexed' parsed' =
    let same : tokens ≡ tokens' = (cc) in
    subst (All (λ import_path. rank import_path < rank path))
      (sym (parsed aliases)
        ∙ ap (λ x. paths_of (parse_tokens world 9 path x aliases)) same
        ∙ ap paths_of parsed')
      lower

abbrev main_tokens : List Token
main_tokens = tokens_of (lex world 9 main_path)

abbrev other_tokens : List Token
other_tokens = tokens_of (lex world 9 other_path)

main-Falls : Falls main_path
unfolding run tokens_of paths_of rank
main-Falls =
    known-Falls main_path main_tokens (other_path ∷ []) refl (λ aliases. refl) (omega arith, tt)

other-Falls : Falls other_path
unfolding run tokens_of paths_of
other-Falls = known-Falls other_path other_tokens [] refl (λ aliases. refl) tt

missing :
    (path : Bytes)
    → str_eq path main_path ≡ false
    → str_eq path other_path ≡ false
    → lex world 9 path ≡ fault
unfolding lex source_of file_contents
missing path e e' = rw e (rw e' refl)

every-Falls : (path : Bytes) → Falls path
every-Falls path = elim (Bool-cases (str_eq path main_path)) [
  | inl e ↦ subst Falls (sym ((str_eq_iff path main_path).0 e)) main-Falls
  | inr e ↦ elim (Bool-cases (str_eq path other_path)) [
    | inl e' ↦ subst Falls (sym ((str_eq_iff path other_path).0 e')) other-Falls
    | inr e' ↦ λ tokens aliases aliases' module_ lexed parsed. let gone = missing path e e' in cc
  ]
]

-- A call below the two would be a fault.
frontend-fuel_example :
    frontend_above world 9 (λ _ _. fault) 2 main_path start ≡ frontend world 9 7 main_path start
unfolding rank str_eq
frontend-fuel_example =
    frontend-fuel world 9 rank every-Falls (λ _ _. fault) 2 7 main_path start (omega arith)
      (omega arith)
