-- ===== src/Coding.antt =====
-- crates/coding: hashing of sessions to shards, the backoff window, GF(2^8), the fountain code and
-- the BULK encoding by generations.
pub mod Hash
pub mod Backoff
pub mod Gf256
pub mod Fountain
pub mod Bulk
