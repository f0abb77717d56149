-- ===== src/Hooks.antt =====
-- Lifecycle hooks: crates/supra_hook/src. A command line is the list of its code points. Running a
-- command is a parameter, from its words to how it ended.
pub mod Words
pub mod Quoting
pub mod Registry
pub mod Firing
