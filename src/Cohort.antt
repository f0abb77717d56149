-- ===== src/Cohort.antt =====
-- Peer cohorts: crates/supra_types/src/cohort.rs and crates/supra_cohort/src.
pub mod Quorum
pub mod Tier
pub mod Verdict
pub mod Tally
pub mod Signals
pub mod Score
pub mod Admission
pub mod Profile
