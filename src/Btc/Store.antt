-- ===== src/Btc/Store.antt =====
-- The Bitcoin tables and the transaction methods over them (crates/core/src/store/btc.rs). A
-- transaction is the tables themselves: a read is a function of them, a write returns new ones.
-- Tables hold records in place of bytes; `Rows` shows what the bytes of a record read as.
pub mod Meta
pub mod Walk
pub mod Put
pub mod Seed
pub mod Sound
pub mod Linked
pub mod Seeded
