-- ===== src/Core/Blake3.antt =====
-- The `blake3` crate's streaming hasher, which the core crate only calls.
use dlr.Prelude.{◌≡◌, ◌++◌, length}
use dlr.Core.Bytes.{Bytes, IsBytes}

-- `update` consumes a stream, so that two calls are one on the joined input (the crate's
-- documentation; block.rs relies on it); a digest is an array of 32 bytes.
pub record Blake3 : Type 1 where
  pub Hasher : Type 0
  pub new : Hasher
  pub update : Hasher → Bytes → Hasher
  pub finalize : Hasher → Bytes
  pub update-update : (h : Hasher) (a b : Bytes) → update (update h a) b ≡ update h (a ++ b)
  pub length-finalize : (h : Hasher) → length (finalize h) ≡ 32
  pub finalize-IsBytes : (h : Hasher) → IsBytes (finalize h)
