-- ===== src/Core/Frame/Decode.antt =====
-- The decoder of crates/core/src/frame.rs. `body` is the transport buffer behind the tag; payloads
-- and symbols are slices of it, at the offset that the window `r` has reached.
use Prim.Native.Nat.{bit_and}
use dlr.Prelude.{ℕ, ◌+◌, ◌-◌, [], ◌∷◌, length, drop, none, some, not, ltb, ◌==◌, if◌then◌else◌}
use dlr.Core.Bytes.{Bytes, from_le, slice}
use dlr.Core.Block.{BlockKind, from_byte}
use dlr.Core.Canonical.{byte_at}
use dlr.Core.Frame.{
  truncated, unknown_tag, unknown_kind, too_large, FrameBlock, inline, ref, Frame, append, resync,
  bulk, ack, missing, tag_append, tag_resync, tag_bulk, tag_ack, tag_missing, ref_bit,
  max_inline_payload_bytes,
}
use dlr.Core.Frame.Reader.{
  Decoded, ok, err, panic, Reader, pure, fail, value, ◌>>=◌, read_n, take_u32, take_count,
  take_u128, take_block_id, take_root,
}

-- `BlockKind::from_byte(marker & !REF_BIT).ok_or(FrameError::UnknownKind(marker))?`
abbrev pub kind_of : ℕ → {B : Type 0} → (BlockKind → Decoded B) → Decoded B
kind_of marker f = elim (from_byte (bit_and marker 0x7f)) [
  | none ↦ err (unknown_kind marker)
  | some kind ↦ f kind
]

-- An entry of `len` bytes at the window, whose first byte is read whatever `len` is.
unfoldable pub decode_entry : Bytes → ℕ → Reader FrameBlock
decode_entry body len [] = panic
decode_entry body len (marker ∷ t) =
    let r : Bytes = marker ∷ t in
    let off = length body - length r in
    if not (bit_and marker ref_bit == 0)
    then (if not (len == 33) then err truncated else ok (ref (slice 1 33 r), drop len r))
    else kind_of marker λ kind.
      if ltb len (1 + 16)
      then err truncated
      else (let seq = from_le (slice 1 9 r) in
          let plen = from_le (slice 9 17 r) in
          if ltb max_inline_payload_bytes plen
          then err (too_large plen)
          else if ltb len (1 + 16 + plen)
          then err truncated
          else (let payload = slice (off + 1 + 16) (off + 1 + 16 + plen) body in
              ok (
                inline (record { kind = kind; seq = seq; payload = payload }),
                drop (1 + 16 + plen) r,
              )))

unfoldable pub decode_frame_block : Bytes → Reader FrameBlock
unfolding decode_entry
decode_frame_block body = do
  len ← take_u32
  λ r. if ltb (length r) len then err truncated else decode_entry body len r

-- One round of the loop over the symbols of a BULK frame.
unfoldable pub decode_symbol : Bytes → Reader Bytes
decode_symbol body = do
  len ← take_u32
  if ltb max_inline_payload_bytes len then fail (too_large len) else λ r.
      if ltb (length r) len
      then err truncated
      else (let off = length body - length r in ok (slice off (off + len) body, drop len r))

unfoldable pub decode_append : Bytes → Reader Frame
decode_append body = do
  session_id ← take_u128
  base_root ← take_root
  n ← take_count
  blocks ← read_n (decode_frame_block body) n
  pure (append (record { session_id = session_id; base_root = base_root; blocks = blocks }))

unfoldable pub decode_resync : Reader Frame
decode_resync = do
  session_id ← take_u128
  client_root ← take_root
  n ← take_count
  manifest ← read_n take_block_id n
  pure (resync (record { session_id = session_id; client_root = client_root; manifest = manifest }))

unfoldable pub decode_bulk : Bytes → Reader Frame
decode_bulk body = do
  session_id ← take_u128
  generation ← take_u32
  k ← take_u32
  symbol_size ← take_u32
  n ← take_count
  symbols ← read_n (decode_symbol body) n
  pure (
      bulk (record {
        session_id = session_id;
        generation = generation;
        k = k;
        symbol_size = symbol_size;
        symbols = symbols;
      }))

unfoldable pub decode_ack : Reader Frame
decode_ack = do
  session_id ← take_u128
  root ← take_root
  pure (ack (record { session_id = session_id; root = root }))

unfoldable pub decode_missing : Reader Frame
decode_missing = do
  session_id ← take_u128
  n ← take_count
  ids ← read_n take_block_id n
  pure (missing (record { session_id = session_id; missing = ids }))

-- The arms of `decode_body`'s match, with the window that is left at the end.
unfoldable pub read_body : ℕ → Bytes → Reader Frame
read_body tag body =
    if tag == tag_append
    then decode_append body
    else if tag == tag_resync
    then decode_resync
    else if tag == tag_bulk
    then decode_bulk body
    else if tag == tag_ack
    then decode_ack
    else if tag == tag_missing
    then decode_missing
    else fail (unknown_tag tag)

unfoldable pub decode_body : ℕ → Bytes → Decoded Frame
decode_body tag body = value (read_body tag body body)

unfoldable pub decode_frame : Bytes → Decoded Frame
decode_frame [] = err truncated
decode_frame (tag ∷ body) = decode_body tag body

unfoldable pub decode_frame_bytes : Bytes → Decoded Frame
decode_frame_bytes buf =
    if length buf == 0 then err truncated else decode_body (byte_at buf 0) (drop 1 buf)
