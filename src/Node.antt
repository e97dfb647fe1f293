-- ===== src/Node.antt =====
-- The node over the core: crates/rsk/src/sync.rs and crates/rsk/src/node.rs.
pub mod Peers
pub mod Sync
pub mod Fetch
pub mod Report
pub mod Run
pub mod Anchor
pub mod Export
pub mod Reach
pub mod Handle
pub mod Args
