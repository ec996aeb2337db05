-- ===== src/Core/Canonical/Laws.antt =====
-- The canonical encoding of a block, parsed back.
use dlr.Prelude.{
  ◌+◌, ◌-◌, ◌^◌, ◌≤◌, ◌≡◌, refl, arith, ◌++◌, length, some, append_assoc, length-append,
  take-append_len, drop-append_len,
}
use dlr.Prelude.Results.{ok}
use dlr.Core.Bytes.{Bytes, IsBytes, to_le, from_le, slice, length-to_le, from_le-to_le}
use dlr.Core.Block.{Block, IsU64, from_byte, from_byte-to_byte, header, length-header}
use dlr.Core.Canonical.{byte_at, max_block_payload_bytes, canonical_bytes, from_canonical}

-- A block whose fields fit the header: a `u64` sequence number and a payload within the ceiling.
pub record IsBlock (b : Block) : Type 0 where
  pub seq : IsU64 b.seq
  pub bytes : IsBytes b.payload
  pub size : length b.payload ≤ 2 ^ 30

pub canonical_bytes-header : (b : Block) → canonical_bytes b ≡ header b ++ b.payload
unfolding canonical_bytes header
canonical_bytes-header b = rw append_assoc

pub length-canonical_bytes : (b : Block) → length (canonical_bytes b) ≡ 17 + length b.payload
length-canonical_bytes b =
    rw canonical_bytes-header (omega (arith, length-append (header b) b.payload, length-header b))

-- The fields of a buffer that begins with a header.
module _ (b : Block) (t : Bytes) where
  pub header_seq : slice 1 9 (header b ++ t) ≡ to_le 8 b.seq
  unfolding header
  header_seq = rw append_assoc (take-append_len 8 (to_le 8 b.seq) _ (length-to_le 8 b.seq))

  pub header_len : slice 9 17 (header b ++ t) ≡ to_le 8 (length b.payload)
  unfolding header
  header_len =
      rw (append_assoc, drop-append_len 8 (to_le 8 b.seq) _ (length-to_le 8 b.seq))
        (take-append_len 8 (to_le 8 (length b.payload)) _ (length-to_le 8 (length b.payload)))

-- The parser on a header and what follows it.
module _ (b : Block) (valid : IsBlock b) (rest : Bytes) where
  from_le-header_seq : from_le (slice 1 9 (header b ++ (b.payload ++ rest))) ≡ b.seq
  from_le-header_seq = rw header_seq (from_le-to_le 8 b.seq (omega (arith, valid.seq)))

  from_le-header_len : from_le (slice 9 17 (header b ++ (b.payload ++ rest))) ≡ length b.payload
  from_le-header_len =
      rw header_len (from_le-to_le 8 (length b.payload) (omega (arith, valid.size)))

  header_payload : slice 17 (17 + length b.payload) (header b ++ (b.payload ++ rest)) ≡ b.payload
  header_payload =
      let width : 17 + length b.payload - 17 ≡ length b.payload = omega arith in
      rw (width, drop-append_len 17 (header b) (b.payload ++ rest) (length-header b))
        (take-append_len (length b.payload) b.payload rest refl)

  length-encoded : length (header b ++ (b.payload ++ rest)) ≡ 17 + length b.payload + length rest
  length-encoded = omega (
    arith,
    length-append (header b) (b.payload ++ rest),
    length-append b.payload rest,
    length-header b,
  )

  header_kind : from_byte (byte_at (header b ++ (b.payload ++ rest)) 0) ≡ some b.kind
  unfolding header
  header_kind = from_byte-to_byte b.kind

  -- Parsing the encoding of a valid block, with anything after it, gives the block back.
  pub from_canonical-canonical_bytes : from_canonical (canonical_bytes b ++ rest) ≡ ok b
  unfolding from_canonical max_block_payload_bytes
  from_canonical-canonical_bytes =
      rw (canonical_bytes-header, append_assoc)
        (ground (
          arith, from_le-header_seq, from_le-header_len, header_payload, length-encoded,
          header_kind, valid.size,
        ))
