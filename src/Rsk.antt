-- ===== src/Rsk.antt =====
-- The Rootstock side of the core: crates/core/src/rsk.rs, rsk/checkpoint.rs and store/rsk.rs.
pub mod Consensus
pub mod Forest
pub mod Ghost
pub mod Checkpoint
pub mod Tree
