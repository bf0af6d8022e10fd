-- ===== src/Parser.antt =====
-- src/parser.c, include/parser.h: the recursive-descent parser, over a monad with the cursor in its
-- state.
pub mod State
pub mod Behind
pub mod TypeExpr
pub mod Levels
pub mod Primary
pub mod Literal
pub mod Numerals
pub mod Unary
pub mod Prototype
pub mod Declarations
pub mod Statements
pub mod File
pub mod Progress
