-- ===== src/Core/Frame/RoundTrip.antt =====
-- crates/core/src/frame.rs: the decoder on what the encoder wrote.
use dlr.Prelude.{ℕ, ◌≡◌, refl, ◌∙◌, arith, [], ◌∷◌, ◌++◌, length, drop, append_assoc, concat_map}
use dlr.Core.Bytes.{Bytes}
use dlr.Core.Block.{IsId}
use dlr.Core.Frame.{
  AppendFrame, ResyncFrame, BulkFrame, Frame, append, resync, bulk, ack, missing, put_u128,
  put_u32_le, encode_frame_block, encode_symbol, encode_id, encode_frame, IsFrameBlock, IsSymbol,
  IsFrame,
}
use dlr.Core.Frame.Reader.{ok, take_block_id}
use dlr.Core.Frame.Decode.{
  decode_body, decode_frame, decode_frame_bytes, decode_resync, decode_ack, decode_missing,
}
use dlr.Core.Frame.Copied.{copy_frame_block, copy_symbol, copy_append, copy_bulk, copy_body}
use dlr.Core.Frame.Copy.{read_body-copy}
use dlr.Core.Frame.Entries.{
  take_u32-put_u32_le, take_u128-put_u128, take_count-put_u32_le, take_block_id-append,
  take_root-append, read_n-concat_map, copy_frame_block-encode, copy_symbol-encode,
}

copy_append-encode :
    (a : AppendFrame) (rest : Bytes)
    → IsFrame (append a)
    → copy_append (
        put_u128 a.session_id
        ++ (a.base_root
            ++ (put_u32_le (length a.blocks) ++ (concat_map encode_frame_block a.blocks ++ rest))))
      ≡ ok (append a, rest)
unfolding copy_append
copy_append-encode a rest (hs, hr, hn, hb) = rw (
  take_u128-put_u128 a.session_id _ hs,
  take_root-append a.base_root _ hr,
  take_count-put_u32_le (length a.blocks) _ hn,
  read_n-concat_map IsFrameBlock copy_frame_block encode_frame_block copy_frame_block-encode
      a.blocks rest hb,
)

decode_resync-encode :
    (r : ResyncFrame) (rest : Bytes)
    → IsFrame (resync r)
    → decode_resync (
        put_u128 r.session_id
        ++ (r.client_root
            ++ (put_u32_le (length r.manifest) ++ (concat_map encode_id r.manifest ++ rest))))
      ≡ ok (resync r, rest)
unfolding decode_resync
decode_resync-encode r rest (hs, hr, hn, hb) = rw (
  take_u128-put_u128 r.session_id _ hs,
  take_root-append r.client_root _ hr,
  take_count-put_u32_le (length r.manifest) _ hn,
  read_n-concat_map IsId take_block_id encode_id take_block_id-append r.manifest rest hb,
)

copy_bulk-encode :
    (b : BulkFrame) (rest : Bytes)
    → IsFrame (bulk b)
    → copy_bulk (
        put_u128 b.session_id
        ++ (put_u32_le b.generation
            ++ (put_u32_le b.k
                ++ (put_u32_le b.symbol_size
                    ++ (put_u32_le (length b.symbols)
                        ++ (concat_map encode_symbol b.symbols ++ rest))))))
      ≡ ok (bulk b, rest)
unfolding copy_bulk
copy_bulk-encode b rest (hs, hg, hk, hz, hn, hb) = rw (
  take_u128-put_u128 b.session_id _ hs,
  take_u32-put_u32_le b.generation _ hg,
  take_u32-put_u32_le b.k _ hk,
  take_u32-put_u32_le b.symbol_size _ hz,
  take_count-put_u32_le (length b.symbols) _ hn,
  read_n-concat_map IsSymbol copy_symbol encode_symbol copy_symbol-encode b.symbols rest hb,
)

-- The tag and the body of an encoding.
abbrev pub tag_of : Frame → ℕ
tag_of (append a) = 1
tag_of (resync r) = 2
tag_of (bulk b) = 3
tag_of (ack a) = 4
tag_of (missing m) = 5

pub encoded_body : (f : Frame) → (body : Bytes) × (encode_frame f ≡ tag_of f ∷ body)
unfolding encode_frame
encoded_body (append a) = (_, refl)
encoded_body (resync r) = (_, refl)
encoded_body (bulk b) = (_, refl)
encoded_body (ack a) = (_, refl)
encoded_body (missing m) = (_, refl)

pub copy_body-encode :
    (f : Frame) (rest : Bytes)
    → IsFrame f
    → copy_body (tag_of f) (drop 1 (encode_frame f) ++ rest) ≡ ok (f, rest)
unfolding copy_body encode_frame
copy_body-encode (append a) rest h =
    rw (append_assoc, append_assoc, append_assoc) (copy_append-encode a rest h)
copy_body-encode (resync r) rest h =
    rw (append_assoc, append_assoc, append_assoc) (decode_resync-encode r rest h)
copy_body-encode (bulk b) rest h =
    rw (append_assoc, append_assoc, append_assoc, append_assoc, append_assoc)
      (copy_bulk-encode b rest h)
copy_body-encode (ack a) rest (hs, hr) =
    unfold decode_ack in
    rw (append_assoc, take_u128-put_u128 a.session_id _ hs, take_root-append a.root rest hr)
copy_body-encode (missing m) rest (hs, hn, hb) =
    unfold decode_missing in
    rw (
      append_assoc,
      append_assoc,
      take_u128-put_u128 m.session_id _ hs,
      take_count-put_u32_le (length m.missing) _ hn,
      read_n-concat_map IsId take_block_id encode_id take_block_id-append m.missing rest hb,
    )

-- The two entries of the decoder agree.
pub decode_frame_bytes_lem : (buf : Bytes) → decode_frame_bytes buf ≡ decode_frame buf
unfolding decode_frame decode_frame_bytes
decode_frame_bytes_lem [] = refl
decode_frame_bytes_lem (b ∷ bs) = ground arith

-- Decoding the encoding of a frame that fits the wire gives the frame back, by the borrowed and by
-- the zero-copy entry, also when other bytes follow the encoding.
pub decode_frame-encode_frame :
    (f : Frame) (rest : Bytes)
    → IsFrame f
    → (decode_frame (encode_frame f ++ rest) ≡ ok f)
      × (decode_frame_bytes (encode_frame f ++ rest) ≡ ok f)
unfolding decode_frame decode_frame_bytes decode_body
decode_frame-encode_frame f rest h =
    let (body, e) = encoded_body f in
    let whole : copy_body (tag_of f) (body ++ rest) ≡ ok (f, rest) =
      rw e at (copy_body-encode f rest h) in
    let borrowed : decode_frame ((tag_of f ∷ body) ++ rest) ≡ ok f = rw (read_body-copy, whole) in
    rw e (borrowed, decode_frame_bytes_lem ((tag_of f ∷ body) ++ rest) ∙ borrowed)
