-- ===== src/Driver/FrontEnd.antt =====
-- src/main.c: `frontend`, on the context. A call for an imported file is an argument of what comes before
-- the recursion.
pub mod Imports
pub mod Loop
pub mod Rounds
pub mod Entry
pub mod Linked
pub mod Fuel
use luka.Prelude.{
  ℕ, zero, suc, ◌+◌, Bool, true, false, List, [], ◌∷◌, ◌++◌, Option, none, some, Bytes, str_eq,
  get_elem?, if◌then◌else◌,
}
use luka.ReturnCode.{Outcome, ok, returned, fault, out_of_fuel, parser_failed, of_option, ◌>>=◌}
use luka.Token.{Token}
use luka.Ast.{no_body, body, Module, Body, Store}
use luka.Lexer.Tokenize.{tokenize_source}
use luka.Parser.State.{Parser}
use luka.Parser.File.{initialize_parser, parse_file}
use luka.Passes.Aliases.{Aliases}
use luka.Driver.State.{World, Context, put_module, set_entry}
use luka.Files.{file_contents}
use luka.Driver.{each_in, first_passes, last_passes, check_functions}

-- `if (NULL == module)`
unfoldable pub none_failed : Option Module → Outcome Module
none_failed none = returned parser_failed
none_failed (some module_) = ok module_

-- What a later round of the loop has found overwrites what a round has found.
unfoldable pub later_or : Option ℕ → Option ℕ → Option ℕ
later_or none first = first
later_or (some k) first = some k

-- The loop that looks for a module among those of the command line; the last one counts.
unfoldable pub find_circular : Store → Bytes → ℕ → List (Option ℕ) → Outcome (Option ℕ)
unfolding str_eq later_or
find_circular store path rounds [] = fault
find_circular store path rounds (none ∷ ms) = fault
find_circular store path zero (some m ∷ ms) =
    ok (if str_eq path (store m).file_path then some m else none)
find_circular store path (suc rounds) (some m ∷ ms) = do
  later ← find_circular store path rounds ms
  ok (later_or later (if str_eq path (store m).file_path then some m else none))

module _ (W : World) (limit : ℕ) where
  -- `lex`: a file that is not there is NULL for the lexer.
  unfoldable pub lex : Bytes → Outcome (List Token)
  unfolding file_contents tokenize_source
  lex path = do
    source ← of_option (file_contents (W.read_file path))
    v ← tokenize_source W.push_back path W.empty_vector source
    ok (W.elements v)

  -- `PARSER_parse_file`, from a parser with the table of aliases.
  unfoldable pub parse_tokens : Bytes → List Token → Aliases → Outcome (Module × Aliases)
  unfolding parse_file initialize_parser none_failed
  parse_tokens path tokens aliases = do
    (parsed, p) ← parse_file W.libc W.files tokens (initialize_parser path aliases)
    module_ ← none_failed parsed
    ok (module_, p.type_aliases)

  -- The module gets its place in the store, and in `modules` if that is free.
  unfoldable pub enter_module : Module → Context W → Option (Option ℕ) → Outcome (Context W)
  unfolding put_module set_entry
  enter_module module_ c none = fault
  enter_module module_ c (some (some m)) =
      ok (record c { store = put_module c.next module_ c.store; next = c.next + 1 })
  enter_module module_ c (some none) = ok (record c {
    store = put_module c.next module_ c.store;
    next = c.next + 1;
    modules = set_entry c.file_index c.next c.modules;
  })

  -- The import is added to the table, unless the path of the importing file is in it.
  unfoldable pub add_imported : Bytes → ℕ → Context W → Option ℕ → Context W
  add_imported path m c none = record c { imported_modules = W.add path m c.imported_modules }
  add_imported path m c (some k) = c

  -- `vector_push_back(module->imports, …)`
  unfoldable pub push_import : ℕ → ℕ → Context W → Context W
  unfolding put_module
  push_import own m c = record c {
    store =
        put_module own (record (c.store own) { imports = (c.store own).imports ++ (m ∷ []) })
          c.store;
  }

  -- The first loop over the functions.
  unfoldable pub complete_functions : ℕ → Context W → Outcome (Context W)
  unfolding each_in first_passes put_module
  complete_functions own c = do
    let module_ = c.store own
    (functions', _) ← each_in (first_passes c.store limit own) module_.functions tt
    ok (record c { store = put_module own (record module_ { functions = functions' }) c.store })

  -- The last loops, over the variables, the structs and the functions.
  unfoldable pub fix_module : ℕ → Context W → Outcome (Context W)
  unfolding each_in last_passes put_module
  fix_module own c = do
    let module_ = c.store own
    (variables', a1) ← each_in (last_passes c.store limit own) module_.variables c.type_aliases
    (structs', a2) ← each_in (last_passes c.store limit own) module_.structs a1
    (functions', a3) ← each_in (last_passes c.store limit own) module_.functions a2
    ok (record c {
      store =
          put_module own
            (record module_ { variables = variables'; structs = structs'; functions = functions' })
            c.store;
      type_aliases = a3;
      current_module = some own;
    })

  module _ (call : Bytes → Context W → Outcome (Context W)) where
    -- A file that is neither imported yet nor one of the command line goes through the front end.
    unfoldable pub unless_found : Bytes → Context W → Option ℕ → Outcome (Context W)
    unless_found path c (some m) = ok (record c { current_module = some m })
    unless_found path c none = call path c

    unfoldable pub current_import : Bytes → Context W → Option ℕ → Outcome (Context W)
    unfolding unless_found find_circular
    current_import path c (some m) = ok (record c { current_module = some m })
    current_import path c none = do
      found ← find_circular c.store path c.file_index c.modules
      unless_found path c found

    -- A round of the loop over the import paths.
    unfoldable pub import_one : Bytes → ℕ → Bytes → Context W → Outcome (Context W)
    unfolding current_import add_imported push_import
    import_one file_path own path c = do
      c1 ← current_import path c (W.find c.imported_modules path)
      m ← of_option c1.current_module
      let c2 = push_import own m c1
      ok (add_imported path m c2 (W.find c2.imported_modules file_path))

    unfoldable pub import_all : Bytes → ℕ → List Bytes → Context W → Outcome (Context W)
    unfolding import_one
    import_all file_path own [] c = ok c
    import_all file_path own (path ∷ paths) c = do
      c' ← import_one file_path own path c
      import_all file_path own paths c'

    -- `parse`
    unfoldable pub parse : Bytes → List Token → Context W → Outcome (Context W)
    unfolding parse_tokens enter_module complete_functions import_all fix_module
    parse path tokens c = do
      (module_, aliases) ← parse_tokens path tokens c.type_aliases
      let own = c.next
      c1 ←
          enter_module module_ (record c { type_aliases = aliases })
            (get_elem? c.modules c.file_index)
      c2 ← complete_functions own c1
      c3 ← import_all path own (c2.store own).import_paths c2
      fix_module own c3

  -- `type_check`
  unfoldable pub check_body : Context W → ℕ → Body → Outcome (Context W)
  unfolding check_functions
  check_body c m no_body = fault
  check_body c m (body ns) = do _ ← check_functions c.store limit m ns; ok c

  unfoldable pub type_check : Context W → Outcome (Context W)
  unfolding check_body
  type_check c = do m ← of_option c.current_module; check_body c m (c.store m).functions

  -- `frontend`; `bottom` stands for the calls that are deeper than the fuel.
  unfoldable pub frontend_above :
      (Bytes → Context W → Outcome (Context W)) → ℕ → Bytes → Context W → Outcome (Context W)
  unfolding lex parse type_check
  frontend_above bottom zero path c = bottom path c
  frontend_above bottom (suc fuel) path c = do
    tokens ← lex path
    c' ← parse (frontend_above bottom fuel) path tokens c
    type_check c'

  -- Deeper calls run out of fuel.
  unfoldable pub frontend : ℕ → Bytes → Context W → Outcome (Context W)
  unfolding frontend_above
  frontend fuel path c = frontend_above (λ _ _. out_of_fuel) fuel path c
