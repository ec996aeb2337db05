-- ===== src/Core/Frame/Capacity.antt =====
-- The capacities that `encode_frame` reserves.
use dlr.Prelude.{
  ℕ, ◌+◌, ◌*◌, ◌≡◌, refl, arith, List, [], ◌∷◌, length, All, map, concat_map, length-append,
}
use dlr.Core.Bytes.{Bytes, length-to_le}
use dlr.Core.Block.{BlockId, IsId}
use dlr.Core.Frame.{
  FrameBlock, inline, ref, Frame, append, resync, bulk, ack, missing, put_u128, put_u32_le,
  encode_frame_block, encode_symbol, encode_id, encode_frame, IsFrameBlock, IsFrame,
}

abbrev sum : List ℕ → ℕ
sum [] = 0
sum (n ∷ ns) = n + sum ns

unfoldable pub frame_block_size : FrameBlock → ℕ
frame_block_size (inline b) = 4 + 1 + 8 + 8 + length b.payload
frame_block_size (ref id) = 4 + 1 + 32

-- The argument of `BytesMut::with_capacity`.
unfoldable pub encode_frame_capacity : Frame → ℕ
unfolding frame_block_size
encode_frame_capacity (append a) = 53 + sum (map frame_block_size a.blocks)
encode_frame_capacity (resync r) = 53 + length r.manifest * 32
encode_frame_capacity (bulk b) = 33 + sum (map (λ s. 4 + length s) b.symbols)
encode_frame_capacity (missing m) = 21 + length m.missing * 32
encode_frame_capacity (ack a) = 1 + 16 + 32

length-put_u32_le : (v : ℕ) → length (put_u32_le v) ≡ 4
unfolding put_u32_le
length-put_u32_le v = length-to_le 4 v

length-put_u128 : (v : ℕ) → length (put_u128 v) ≡ 16
unfolding put_u128
length-put_u128 v = length-to_le 16 v

length-encode_frame_block :
    (fb : FrameBlock) → IsFrameBlock fb → length (encode_frame_block fb) ≡ frame_block_size fb
unfolding encode_frame_block frame_block_size
length-encode_frame_block (inline b) h =
    simp (length-append, length-put_u32_le, length-to_le) (omega arith)
length-encode_frame_block (ref id) h =
    simp (length-append, length-put_u32_le, h.0.size) (omega arith)

module _ {ℓ κ} {A : Type ℓ} (P : A → Type κ) (e : A → Bytes) (size : A → ℕ) where
  length-concat_map :
      ((x : A) → P x → length (e x) ≡ size x)
      → (xs : List A) → All P xs
      → length (concat_map e xs) ≡ sum (map size xs)
  unfolding concat_map
  length-concat_map step [] h = refl
  length-concat_map step (x ∷ xs) h =
      omega
        (arith, length-append (e x) (concat_map e xs), step x h.0, length-concat_map step xs h.1)

length-ids :
    (ids : List BlockId) → All IsId ids → length (concat_map encode_id ids) ≡ length ids * 32
unfolding concat_map
length-ids [] h = refl
length-ids (id ∷ ids) h =
    omega (arith, length-append id (concat_map encode_id ids), h.0.size, length-ids ids h.1)

length-encode_symbol : (s : Bytes) → Unit {0} → length (encode_symbol s) ≡ 4 + length s
unfolding encode_symbol
length-encode_symbol s _ = simp (length-append, length-put_u32_le) refl

All-trivial : (xs : List Bytes) → All (λ s. Unit {0}) xs
All-trivial [] = tt
All-trivial (x ∷ xs) = (tt, All-trivial xs)

-- The capacity that is reserved for a frame that fits the wire is exactly the length of its
-- encoding, so that the buffer never grows and no byte of it is unused.
pub length-encode_frame :
    (f : Frame) → IsFrame f → length (encode_frame f) ≡ encode_frame_capacity f
unfolding encode_frame encode_frame_capacity
length-encode_frame (append a) (_, hr, _, hb) =
    simp (length-append, length-put_u32_le, length-put_u128, hr.size)
      (omega (
        arith,
        length-concat_map IsFrameBlock encode_frame_block frame_block_size length-encode_frame_block
            a.blocks hb,
      ))
length-encode_frame (resync r) (_, hr, _, hb) =
    simp (length-append, length-put_u32_le, length-put_u128, hr.size)
      (omega (arith, length-ids r.manifest hb))
length-encode_frame (bulk b) h =
    simp (length-append, length-put_u32_le, length-put_u128)
      (omega (
        arith,
        length-concat_map (λ s. Unit {0}) encode_symbol (λ s. 4 + length s) length-encode_symbol
            b.symbols (All-trivial b.symbols),
      ))
length-encode_frame (ack a) (_, hr) = simp (length-append, length-put_u128, hr.size) (omega arith)
length-encode_frame (missing m) (_, _, hb) =
    simp (length-append, length-put_u32_le, length-put_u128)
      (omega (arith, length-ids m.missing hb))
