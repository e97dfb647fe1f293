-- ===== src/P2p.antt =====
-- The Bitcoin peer-to-peer client: crates/btc-p2p.
pub mod Message
pub mod Session
pub mod Seeds
