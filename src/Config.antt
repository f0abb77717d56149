-- ===== src/Config.antt =====
-- Configuration layers and their resolution: crates/supra_config.
pub mod Layer
pub mod Resolve
pub mod Precedence
pub mod Trust
pub mod Bounds
