-- ===== src/Core.antt =====
-- crates/core: blocks, the canonical encoding, wire frames, the content store and its log.
pub mod Bytes
pub mod Blake3
pub mod Block
pub mod Canonical
pub mod Merkle
pub mod Frame
pub mod Wal
pub mod Store
pub mod Session
pub mod Mmr
pub mod Filter
