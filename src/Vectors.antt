-- ===== src/Vectors.antt =====
-- The second tier of the vector index, a bounded cache of exact vectors:
-- crates/supra_vector/src/cache.rs.
pub mod Cache
pub mod Recency
pub mod Entries
pub mod Represents
pub mod Storing
pub mod Room
pub mod Requests
pub mod Agreement
pub mod Refinement
pub mod Ending
