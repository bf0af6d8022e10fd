-- ===== src/Passes/Aliases/Circle.antt =====
-- src/ast.c: `ast_resolve_type` on an alias of itself.
use luka.Prelude.{ℕ, zero, suc, ◌≡◌, refl, Bool, some, Bytes}
use luka.ReturnCode.{Outcome, out_of_fuel}
use luka.Types.Base.{type_alias, text, Ty, null, type, base_eq}
use luka.Passes.Aliases.{
  Aliases, find_alias, Resolved, alias_name, resolve_found, resolve_alias, resolve_object,
  resolve_with, resolve_type,
}

-- The alias of a name, as a type.
abbrev pub alias_type : Bytes → Bool → Ty
alias_type s m = type type_alias null (text s) m

-- The search stops at the alias; what is done for it is never done.
circle-step :
    (call : Ty → Aliases → Outcome Resolved) (s : Bytes) (m k : Bool) (aliases : Aliases)
    → find_alias s aliases ≡ some (alias_type s k)
    → call (alias_type s k) aliases ≡ out_of_fuel
    → resolve_with call (alias_type s m) aliases ≡ out_of_fuel
unfolding resolve_with resolve_object base_eq resolve_alias alias_name resolve_found
circle-step call s m k aliases e h = rw (e, h) refl

-- Where a name stands for itself in the table, resolving it never ends: every amount of fuel runs out.
pub resolve_type-circle :
    (fuel : ℕ) (s : Bytes) (m k : Bool) (aliases : Aliases)
    → find_alias s aliases ≡ some (alias_type s k)
    → resolve_type fuel (alias_type s m) aliases ≡ out_of_fuel
unfolding resolve_type
resolve_type-circle zero s m k aliases e = circle-step (λ t a. out_of_fuel) s m k aliases e refl
resolve_type-circle (suc fuel) s m k aliases e =
    circle-step (resolve_type fuel) s m k aliases e (resolve_type-circle fuel s k k aliases e)
