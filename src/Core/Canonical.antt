-- ===== src/Core/Canonical.antt =====
-- crates/core/src/canonical.rs: the canonical byte encoding of a block.
pub mod Laws
pub mod Inverse
use dlr.Prelude.{
  ℕ, zero, suc, ◌+◌, ◌-◌, ◌^◌, ◌≤◌, ◌≡◌, List, [], ◌∷◌, ◌++◌, length, Option, none, some, ltb, leb,
  if◌then◌else◌,
}
use dlr.Prelude.Results.{Result, ok, err, ◌>>=◌, ok_or}
use dlr.Core.Bytes.{Bytes, to_le, from_le, slice}
use dlr.Core.Blake3.{Blake3}
use dlr.Core.Block.{Block, BlockId, to_byte, from_byte}

-- 1 GiB
unfoldable pub max_block_payload_bytes : ℕ
max_block_payload_bytes = 2 ^ 30

-- The four messages of the parser.
pub data CanonicalError : Type 0 where
  too_short unknown_kind too_large payload_truncated : CanonicalError

unfoldable pub canonical_bytes : Block → Bytes
canonical_bytes b =
    (to_byte b.kind ∷ []) ++ (to_le 8 b.seq ++ (to_le 8 (length b.payload) ++ b.payload))

-- `buf[i]`; each read stands behind a test of the length.
abbrev pub byte_at : Bytes → ℕ → ℕ
byte_at [] i = 0
byte_at (b ∷ bs) zero = b
byte_at (b ∷ bs) (suc i) = byte_at bs i

-- `usize::checked_add`
abbrev pub checked_add : ℕ → ℕ → Option ℕ
checked_add a b = if ltb (a + b) (2 ^ 64) then some (a + b) else none

unfoldable pub from_canonical : Bytes → Result CanonicalError Block
from_canonical buf = if ltb (length buf) 17 then err too_short else do
  kind ← ok_or (from_byte (byte_at buf 0)) unknown_kind
  let seq = from_le (slice 1 9 buf)
  let len = from_le (slice 9 17 buf)
  if ltb max_block_payload_bytes len then err too_large else do
    end ← ok_or (checked_add 17 len) too_large
    if ltb (length buf) end
        then err payload_truncated
        else ok (record { kind = kind; seq = seq; payload = slice 17 end buf })

module _ (blake3 : Blake3) where
  open blake3 use {new, update, finalize}

  -- The encoding and the id, hashed while the buffer is filled.
  unfoldable pub canonical_bytes_and_id : Block → Bytes × BlockId
  canonical_bytes_and_id b =
      let hdr : Bytes = to_byte b.kind ∷ (to_le 8 b.seq ++ to_le 8 (length b.payload)) in
      let h = update (update new hdr) b.payload in (hdr ++ b.payload, finalize h)

  unfoldable pub from_canonical_owned : Bytes → Result CanonicalError (Block × BlockId)
  from_canonical_owned canon = if ltb (length canon) 17 then err too_short else do
    kind ← ok_or (from_byte (byte_at canon 0)) unknown_kind
    let seq = from_le (slice 1 9 canon)
    let len = from_le (slice 9 17 canon)
    if ltb max_block_payload_bytes len then err too_large else do
      end ← ok_or (checked_add 17 len) too_large
      if ltb (length canon) end then err payload_truncated else do
        let h = update (update new (slice 0 17 canon)) (slice 17 end canon)
        ok (record { kind = kind; seq = seq; payload = slice 17 end canon }, finalize h)
