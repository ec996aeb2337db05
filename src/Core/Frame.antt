-- ===== src/Core/Frame.antt =====
-- crates/core/src/frame.rs: wire frames and their encoder. A writer returns the bytes that it adds
-- to the buffer. `Reader` and `Decode` model the decoder; the modules below prove.
pub mod Reader
pub mod Decode
pub mod Window
pub mod Copied
pub mod Copy
pub mod Entries
pub mod RoundTrip
pub mod Prefix
pub mod Panics
pub mod Capacity
use Prim.Native.Nat.{bit_and}
use dlr.Prelude.{
  ℕ, zero, suc, ◌+◌, ◌*◌, ◌^◌, ◌≤◌, ◌<◌, List, [], ◌∷◌, ◌++◌, length, All, concat_map,
}
use dlr.Core.Bytes.{Bytes, to_le}
use dlr.Core.Block.{Block, BlockId, to_byte, IsU32, IsU64, IsU128, IsId}
use dlr.Core.Merkle.{MerkleRoot}

pub data FrameError : Type 0 where
  truncated : FrameError
  unknown_tag : ℕ → FrameError
  unknown_kind : ℕ → FrameError
  too_large : ℕ → FrameError
  missing_ref : FrameError

abbrev pub tag_append : ℕ
tag_append = 1

abbrev pub tag_resync : ℕ
tag_resync = 2

abbrev pub tag_bulk : ℕ
tag_bulk = 3

abbrev pub tag_ack : ℕ
tag_ack = 4

abbrev pub tag_missing : ℕ
tag_missing = 5

abbrev pub ref_bit : ℕ
ref_bit = 0x80

-- 1 GiB
abbrev pub max_inline_payload_bytes : ℕ
max_inline_payload_bytes = 2 ^ 30

-- 16M entries
abbrev pub max_frame_count : ℕ
max_frame_count = 2 ^ 24

pub data FrameBlock : Type 0 where
  inline : Block → FrameBlock
  ref : BlockId → FrameBlock

pub record AppendFrame : Type 0 where
  pub session_id : ℕ
  pub base_root : MerkleRoot
  pub blocks : List FrameBlock

pub record ResyncFrame : Type 0 where
  pub session_id : ℕ
  pub client_root : MerkleRoot
  pub manifest : List BlockId

pub record BulkFrame : Type 0 where
  pub session_id : ℕ
  pub generation : ℕ
  pub k : ℕ
  pub symbol_size : ℕ
  pub symbols : List Bytes

pub record AckFrame : Type 0 where
  pub session_id : ℕ
  pub root : MerkleRoot

pub record MissingFrame : Type 0 where
  pub session_id : ℕ
  pub missing : List BlockId

pub data Frame : Type 0 where
  append : AppendFrame → Frame
  resync : ResyncFrame → Frame
  bulk : BulkFrame → Frame
  ack : AckFrame → Frame
  missing : MissingFrame → Frame

unfoldable pub put_u128 : ℕ → Bytes
put_u128 v = to_le 16 v

-- A value wider than a `u32` is cast, `as u32`, by the caller; `to_le` drops the same bytes.
unfoldable pub put_u32_le : ℕ → Bytes
put_u32_le v = to_le 4 v

unfoldable pub encode_frame_block : FrameBlock → Bytes
encode_frame_block (inline b) =
    let body_len = 1 + 8 + 8 + length b.payload in
    put_u32_le body_len
    ++ (bit_and (to_byte b.kind) 0x7f
        ∷ (to_le 8 b.seq ++ (to_le 8 (length b.payload) ++ b.payload)))
encode_frame_block (ref id) = put_u32_le 33 ++ (ref_bit ∷ id)

unfoldable pub encode_symbol : Bytes → Bytes
encode_symbol s = put_u32_le (length s) ++ s

abbrev pub encode_id : BlockId → Bytes
encode_id id = id

unfoldable pub encode_frame : Frame → Bytes
encode_frame (append a) =
    tag_append
    ∷ (put_u128 a.session_id
        ++ (a.base_root
            ++ (put_u32_le (length a.blocks) ++ concat_map encode_frame_block a.blocks)))
encode_frame (resync r) =
    tag_resync
    ∷ (put_u128 r.session_id
        ++ (r.client_root ++ (put_u32_le (length r.manifest) ++ concat_map encode_id r.manifest)))
encode_frame (bulk b) =
    tag_bulk
    ∷ (put_u128 b.session_id
        ++ (put_u32_le b.generation
            ++ (put_u32_le b.k
                ++ (put_u32_le b.symbol_size
                    ++ (put_u32_le (length b.symbols) ++ concat_map encode_symbol b.symbols)))))
encode_frame (ack a) = tag_ack ∷ (put_u128 a.session_id ++ a.root)
encode_frame (missing m) =
    tag_missing
    ∷ (put_u128 m.session_id ++ (put_u32_le (length m.missing) ++ concat_map encode_id m.missing))

-- What the wire can carry: field widths, and the decoder's ceilings.
abbrev pub IsFrameBlock : FrameBlock → Type 0
IsFrameBlock (inline b) = IsU64 b.seq × (length b.payload ≤ max_inline_payload_bytes)
IsFrameBlock (ref id) = IsId id × Unit {0}

abbrev pub IsCount : ℕ → Type 0
IsCount n = n ≤ max_frame_count

abbrev pub IsSymbol : Bytes → Type 0
IsSymbol s = length s ≤ max_inline_payload_bytes

abbrev pub IsFrame : Frame → Type 0
IsFrame (append a) =
    IsU128 a.session_id × IsId a.base_root × IsCount (length a.blocks) × All IsFrameBlock a.blocks
IsFrame (resync r) =
    IsU128 r.session_id × IsId r.client_root × IsCount (length r.manifest) × All IsId r.manifest
IsFrame (bulk b) =
    IsU128 b.session_id
    × IsU32 b.generation
    × IsU32 b.k
    × IsU32 b.symbol_size
    × IsCount (length b.symbols)
    × All IsSymbol b.symbols
IsFrame (ack a) = IsU128 a.session_id × IsId a.root
IsFrame (missing m) = IsU128 m.session_id × IsCount (length m.missing) × All IsId m.missing
