-- ===== src/Prompt.antt =====
-- The prompt prefix: crates/supra_prompt/src.
pub mod Sealed
pub mod Error
pub mod Ledger
pub mod Eviction
pub mod Breakpoints
