-- ===== src/Permission.antt =====
-- Permission: crates/supra_types/src/permission.rs, and the gate and catalogue of
-- crates/supra_permission/src.
pub mod Authority
pub mod Rules
pub mod Effect
pub mod Gate
