-- ===== src/Tests.antt =====
-- Runs at fixed inputs, and the theorems applied at inputs that meet their hypotheses.
pub mod Maps
pub mod Decimal
pub mod Scopes
pub mod Unwinding
pub mod Calls
pub mod Siblings
pub mod Plans
pub mod Lexing
pub mod Symbols
pub mod Slicing
pub mod Dispatching
