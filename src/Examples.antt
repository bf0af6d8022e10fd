-- ===== src/Examples.antt =====
-- The theorems at concrete inputs.
pub mod Lexer
pub mod Types
pub mod Modules
pub mod Checker
pub mod Paths
pub mod Parser
pub mod Passes
pub mod Gen
pub mod Fill
pub mod Driver
