-- ===== src/Lexer.antt =====
-- src/lexer.c, and the character classes of <ctype.h> in the C locale. The parts: the keyword table
-- (Keyword), the three routines that read a number, an identifier and a quoted text (Number,
-- Identifier, Quoted), and the loop (Tokenize). A pointer `&source[*index]` is the rest of the
-- memory from there on, the terminator included; a routine returns how far it moves `*index`.
pub mod Ctype
pub mod Runs
pub mod Keyword
pub mod Number
pub mod Identifier
pub mod Quoted
pub mod Scan
pub mod Tokenize
mod Tests
