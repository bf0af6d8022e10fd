-- ===== src/Passes.antt =====
-- src/ast.c: passes over the syntax tree that the driver runs between parsing and checking.
mod Settled
pub mod Post
pub mod Shape
pub mod LastExpression
pub mod FixTypes
pub mod Order
pub mod Aliases
pub mod TreeAliases
pub mod FillTypes
pub mod FillVariables
