-- ===== src/Rows.antt =====
-- The records of the database tables and their byte forms (`impl Value for ...` in
-- crates/core/src/store.rs, store/btc.rs and store/rsk.rs). `none` stands for a panic of
-- `from_bytes`.
pub mod Meta
pub mod Header
pub mod Fork
pub mod Block
pub mod Hashes
pub mod Blobs
