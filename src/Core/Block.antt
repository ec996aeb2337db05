-- ===== src/Core/Block.antt =====
-- crates/core/src/block.rs: content blocks and their addresses.
use dlr.Prelude.{
  ℕ, ◌^◌, ◌<◌, ◌≡◌, refl, arith, ◌∷◌, ◌++◌, length, Option, none, some, ◌==◌, if◌then◌else◌,
  length-append,
}
use dlr.Core.Bytes.{Bytes, IsBytes, to_le, length-to_le}
use dlr.Core.Blake3.{Blake3}

pub data BlockKind : Type 0 where
  message tool_call tool_result system summary : BlockKind

unfoldable pub to_byte : BlockKind → ℕ
to_byte message = 1
to_byte tool_call = 2
to_byte tool_result = 3
to_byte system = 4
to_byte summary = 5

unfoldable pub from_byte : ℕ → Option BlockKind
from_byte b =
    if b == 1
    then some message
    else if b == 2
    then some tool_call
    else if b == 3
    then some tool_result
    else if b == 4
    then some system
    else if b == 5
    then some summary
    else none

pub record Block : Type 0 where
  pub kind : BlockKind
  pub seq : ℕ
  pub payload : Bytes

abbrev pub BlockId : Type 0
BlockId = Bytes

abbrev pub IsU32 : ℕ → Type 0
IsU32 n = n < 2 ^ 32

abbrev pub IsU64 : ℕ → Type 0
IsU64 n = n < 2 ^ 64

abbrev pub IsU128 : ℕ → Type 0
IsU128 n = n < 2 ^ 128

-- A `[u8; 32]`: a block id or a root.
pub record IsId (id : BlockId) : Type 0 where
  pub bytes : IsBytes id
  pub size : length id ≡ 32

-- The packed 17-byte header: kind, seq and payload length.
unfoldable pub header : Block → Bytes
header b = to_byte b.kind ∷ (to_le 8 b.seq ++ to_le 8 (length b.payload))

pub length-header : (b : Block) → length (header b) ≡ 17
unfolding header
length-header b = omega (
  arith,
  length-append (to_le 8 b.seq) (to_le 8 (length b.payload)),
  length-to_le 8 b.seq,
  length-to_le 8 (length b.payload),
)

pub from_byte-to_byte : (k : BlockKind) → from_byte (to_byte k) ≡ some k
unfolding from_byte to_byte
from_byte-to_byte message = refl
from_byte-to_byte _ = refl

pub to_byte_from : (b : ℕ) (k : BlockKind) → from_byte b ≡ some k → to_byte k ≡ b
unfolding from_byte to_byte
to_byte_from b message h = ground arith
to_byte_from b _ h = ground arith

module _ (blake3 : Blake3) where
  open blake3 use {Hasher, new, update, finalize}

  unfoldable pub canonical_into : Block → Hasher → Hasher
  canonical_into b h = update (update h (header b)) b.payload

  unfoldable pub block_id : Block → BlockId
  unfolding canonical_into
  block_id b = finalize (canonical_into b new)

  unfoldable pub block_id_from_canonical : Bytes → BlockId
  block_id_from_canonical canon = finalize (update new canon)

  pub block_id-IsId : (b : Block) → IsId (block_id b)
  unfolding block_id
  block_id-IsId b = record { bytes = blake3.finalize-IsBytes _; size = blake3.length-finalize _ }
