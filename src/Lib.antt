-- ===== src/Lib.antt =====
-- The Luka compiler: its lexer, its parser, its types, the look-up of names through modules, its passes
-- over the syntax tree, and its type checker.
--
-- The compiler reads a file, `LEXER_tokenize_source` makes it a vector of tokens, `PARSER_parse_file`
-- builds the syntax tree of a module from them, passes over the tree complete it, `CHECK_function` checks
-- every function of it, and the code generator emits LLVM. The checker asks `TYPE_get_type` for the types
-- of expressions, `TYPE_equal` whether one type is accepted for another, and `LIB_resolve_func_name` for
-- the functions that are called.
--
-- Files, with the code that each is about:
--   Prelude       library names, and tests and lists over the native numbers
--   ReturnCode    include/defs.h: `t_return_code`; the outcomes of C functions
--   Token         include/defs.h: `t_toktype`, `t_token`; src/lexer.c: the table of keywords
--   Lexer         src/lexer.c: Keyword is `lexer_is_keyword`, Number `lexer_lex_number`, Identifier
--                 `lexer_lex_identifier`, Quoted `lexer_lex_string`; Scan is the `switch` of
--                 `LEXER_tokenize_source` and Tokenize its loop
--   Stringify     src/lib.c: `LIB_stringify`
--   Types         src/type.c: Base has the data, Cast `type_can_cast`, Equal `TYPE_equal`, Dup
--                 `TYPE_dup_type`, Text `TYPE_to_string`, GetType `TYPE_get_type`
--   Ast           include/defs.h: the syntax tree and `t_module`
--   Modules       src/lib.c: Resolve is `LIB_resolve_func_name`, Names `LIB_is_struct_name`,
--                 `LIB_is_enum_name` and `LIB_module_in_list`
--   Core          src/core.c: the builtins
--   Callable      src/utils.c: `UTILS_fill_function_name`, `UTILS_pop_first_arg`
--   Checker       src/type_checker.c; Rules has its rules as relations
--   Paths         src/io.c: the tests on paths, and the extension of source files; Import is
--                 `IO_resolve_path`
--   Parser        src/parser.c: State has `t_parser` and the steps on its cursor, TypeExpr
--                 `parser_parse_type`, Levels the binary operators, Primary, Literal and Unary the
--                 operands, Prototype and Declarations functions, structs and enums, Statements
--                 expressions, statements and the knot of the recursion, File `PARSER_parse_file`;
--                 Progress and its children say how far each function moves the cursor, Levels/Grammar
--                 has the levels as a grammar over tokens, TypeExpr/Tokens the tokens of types, Numerals joins the
--                 lexer to the parser
--   Passes        src/ast.c: LastExpression is `AST_fix_function_last_expression_stmt`, FixTypes is
--                 `AST_fix_types`; Order has the two one behind the other, as the driver runs them;
--                 Settled, Post and Shape are what the proofs share; FillTypes is `ast_fill_type`,
--                 FillVariables `AST_fill_parameter_types` and `AST_fill_variable_types`, Aliases
--                 `ast_resolve_type` and TreeAliases `AST_resolve_type_aliases`
--   Gen           src/gen.c: Llvm is the interface to LLVM, Types the translations of types, Casts the
--                 casts, Operators the opcodes and predicates of binary expressions, Constants the numbers,
--                 literals and sizes, Signature the types of functions
--   Files         src/io.c: `IO_get_file_contents`
--   ErrorLine     src/io.c: the line that `IO_print_error` shows of the file's contents
--   Driver        src/main.c: the front end; State is `t_main_context` as far as it is used there, FrontEnd
--                 `lex`, `parse`, `type_check` and `frontend`, its children what the imports keep
--   Examples      the theorems at concrete inputs
--
-- Conventions. A byte is a number below 256, a C string a list of bytes; the memory of a source ends with
-- the terminator 0, and a read behind it, a read through NULL and a read of the wrong member of a union are
-- the outcome `fault`. A call of `exit` is `exited`, an error code that is returned is `returned`. An index
-- into a source is the rest of the memory from there on. A pointer to a module is a number, which a store
-- takes to the module, since modules import one another; a pointer to a node or a type that may be NULL is
-- one that may be `null`.
--
-- The parser. A function of the parser takes the cursor, the names and the module, and gives an outcome
-- with what it leaves of them; the tokens do not change. A token that is read from outside the vector is
-- the library's assertion, a `fault`, as is an advance behind the last token. The types in the tree are
-- those that the parser asks `TYPE_get_type` for, in a module whose imports are empty still.
--
-- Fuel. The loop of the tokenizer has a round for each byte of the source. The parser has as much fuel as
-- there are tokens and one more, for its depth and for each of its loops, since every call and every round
-- goes past a token. The front end has a unit of fuel for each import that it is in: more than the rank of
-- a file is enough where no file leads back to itself. The look-ups through imports have one unit of fuel
-- for each module on the way; the C functions have no bound, and where they would not return every amount
-- of fuel runs out. The pass on variables has a unit of fuel for each block that lies in another, the
-- resolving of aliases one for each alias on the way, and the translation of LLVM types one for each
-- element in another.
--
-- Parameters. The numbers that atoll, strtol, strtof and strtod read are arguments of the parser, as bits;
-- realpath, dirname and stat are those of `IO_resolve_path`. `vector_push_back` is an argument of the
-- tokenizer, since the vector library is a copy of another project's; the hypothesis on it is that a push
-- appends. The front end takes the table of imported modules and what the files hold as arguments, since
-- uthash is another project's; the hypothesis on the table is that what is found in it was added. The
-- functions of ctype.h are those of the C locale. LLVM's types, values and builder are a record of
-- functions; its laws say what LLVM's manual says of types, casts, constants and sizes, for integers of at
-- most 64 bits and a target with pointers of eight bytes.
--
-- Not modelled: the printing and freeing of the syntax tree and `AST_is_expression` (src/ast.c); of the
-- code generator (src/gen.c) what builds statements, functions, structs and calls, which drives LLVM block
-- by block; of the driver (src/main.c) what reads the command line and drives LLVM and the linker; the
-- rest of src/io.c and the logger (src/logger.c), which are input and output; libs/ and third_party/,
-- which are other projects' libraries. Failed allocations, messages and the freeing of memory are left out
-- of what is modelled.
pub mod Prelude
pub mod ReturnCode
pub mod Token
pub mod Lexer
pub mod Stringify
pub mod Types
pub mod Ast
pub mod Modules
pub mod Core
pub mod Callable
pub mod Checker
pub mod Paths
pub mod Parser
pub mod Passes
pub mod Gen
pub mod Driver
pub mod Files
pub mod ErrorLine
pub mod Examples
