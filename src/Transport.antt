-- ===== src/Transport.antt =====
-- crates/transport: the parts that compute on integers.
pub mod Flow
