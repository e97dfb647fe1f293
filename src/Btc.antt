-- ===== src/Btc.antt =====
-- The Bitcoin side of the core: crates/core/src/btc.rs, btc/validation.rs and store/btc.rs.
pub mod Validation
pub mod Store
pub mod Connect
pub mod Query
pub mod Spine
