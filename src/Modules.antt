-- ===== src/Modules.antt =====
-- src/lib.c: the look-up of names through a module and its imports. Modules are shared and import each
-- other: they lie in a store. The recursion over imports takes fuel, one unit for each module on the
-- way; where the source would never return, the model runs out of it at every amount.
pub mod Resolve
pub mod Names
