-- ===== src/Modules/Resolve.antt =====
-- src/lib.c: `LIB_resolve_func_name`.
pub mod Sound
pub mod Ends
pub mod Complete
use luka.Prelude.{
  ℕ, zero, suc, Bool, true, false, not, List, [], ◌∷◌, ◌++◌, Option, none, some, Bytes, codes,
  str_eq, take, if◌then◌else◌,
}
use luka.ReturnCode.{Outcome, ok, fault, out_of_fuel, ◌>>=◌}
use luka.Ast.{
  Node, null, prototype, function, struct_definition, Body, no_body, body, Nodes, nil, cons, Module,
  Store, Prototype,
}

-- The name of a function's prototype, if it has a prototype.
unfoldable pub function_name : Node → Option Bytes
function_name (function (prototype p) b) = some p.name
function_name _ = none

-- The loop over `functions`; `full` makes the name that is compared, such as `Struct.function`.
unfoldable pub find_function : (Bytes → Bytes) → Bytes → Nodes → Node
unfolding function_name str_eq
find_function full name nil = null
find_function full name (cons func rest) =
    let later = find_function full name rest in
    elim (function_name func) [
      | none ↦ later
      | some f ↦ if str_eq name (full f) then func else later
    ]

-- `snprintf(buffer, 1024, "%s.%s", …)` keeps 1023 bytes.
unfoldable pub method_name : Bytes → Bytes → Bytes
method_name struct_name f = take 1023 (struct_name ++ (codes "." ++ f))

-- A function that is found, or what is found later.
abbrev pub or_else : Node → Node → Node
or_else null later = later
or_else func later = func

-- The loop over `structs`.
unfoldable pub find_method : Bytes → Nodes → Node
unfolding find_function method_name
find_method name nil = null
find_method name (cons (struct_definition s fields (body functions)) rest) =
    or_else (find_function (method_name s) name functions) (find_method name rest)
find_method name (cons _ rest) = find_method name rest

-- The same where the later search may fail.
abbrev pub or_search : Node → Outcome Node → Outcome Node
or_search null later = later
or_search func later = ok func

-- The loop over `structs`, of a vector that is not tested for NULL.
unfoldable pub find_in_structs : Bytes → Body → Outcome Node
unfolding find_method
find_in_structs name no_body = fault
find_in_structs name (body structs) = ok (find_method name structs)

-- The two loops over what the module declares itself.
unfoldable pub find_local : Bytes → Nodes → Body → Outcome Node
unfolding find_in_structs
find_local name functions structs =
    or_search (find_function (λ f. f) name functions) (find_in_structs name structs)

-- The loop over `imports`, with what is done for each import.
unfoldable pub find_imported : (ℕ → Outcome Node) → List ℕ → Outcome Node
find_imported call [] = ok null
find_imported call (i ∷ is) =
    let later = find_imported call is in (call i >>= λ func. or_search func later)

module _ (store : Store) where
  -- An import is passed over if its path is that of the original module.
  unfoldable pub is_original : Option ℕ → ℕ → Bool
  unfolding str_eq
  is_original none i = false
  is_original (some o) i = str_eq (store i).file_path (store o).file_path

  -- The original module of the next call: this one, if there is none yet.
  abbrev pub original_of : Option ℕ → ℕ → ℕ
  original_of none m = m
  original_of (some o) m = o

  -- The body of the function, with `call` for what is done with an import. Without a vector of
  -- functions the search ends with nothing.
  unfoldable pub resolve_in : ℕ → Bytes → Body → (ℕ → Outcome Node) → Outcome Node
  unfolding find_local find_imported
  resolve_in m name no_body call = ok null
  resolve_in m name (body functions) call = do
    func ← find_local name functions (store m).structs
    or_search func (find_imported call (store m).imports)

  -- `module` is a valid pointer, since a module's imports are; `original` is NULL in the first call.
  unfoldable pub resolve : ℕ → ℕ → Bytes → Option ℕ → Outcome Node
  resolve zero m name original = out_of_fuel
  resolve (suc fuel) m name original =
      let next = resolve fuel in
      resolve_in m name (store m).functions (λ i.
        if is_original original i then ok null else next i name (some (original_of original m)))
