-- ===== src/Gen.antt =====
-- src/gen.c: the choice of LLVM types, casts, opcodes and predicates, the constants and the types of functions.
pub mod Llvm
pub mod Types
pub mod Casts
pub mod Operators
pub mod Constants
pub mod Signature
