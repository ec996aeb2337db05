-- ===== src/Core/Frame/Entries.antt =====
-- crates/core/src/frame.rs: the decoder's steps on what the encoder wrote: fields, entries, symbols.
use Prim.Native.Nat.{bit_and}
use dlr.Prelude.{
  ℕ, ◌+◌, ◌≤◌, ◌≡◌, refl, sym, ◌∙◌, arith, List, [], ◌∷◌, ◌++◌, length, take, drop, All, some,
  false, not, ltb, ◌==◌, append_assoc, length-append, take-append_len, drop-append_len, drop-drop,
  concat_map,
}
use dlr.Core.Bytes.{Bytes, from_le, to_le, slice, length-to_le, from_le-to_le}
use dlr.Core.Block.{Block, BlockKind, message, to_byte, from_byte, IsU32, IsU64, IsU128, IsId}
use dlr.Core.Frame.{
  FrameBlock, inline, ref, ref_bit, max_inline_payload_bytes, max_frame_count, put_u128, put_u32_le,
  encode_frame_block, encode_symbol, IsFrameBlock, IsCount, IsSymbol,
}
use dlr.Core.Frame.Reader.{
  ok, Reader, read_n, take_bytes, take_u32, take_count, take_u128, take_block_id, take_root,
}
use dlr.Core.Frame.Copied.{
  copy_ref, copy_inline, copy_entry, copy_frame_block, copy_symbol, copy_entry_ref,
  copy_entry_inline,
}

pub take_bytes-append :
    (n : ℕ) (xs rest : Bytes) → length xs ≡ n → take_bytes n (xs ++ rest) ≡ ok (xs, rest)
unfolding take_bytes
take_bytes-append n xs rest h =
    ground (arith, length-append xs rest, take-append_len n xs rest h, drop-append_len n xs rest h)

pub take_u32-put_u32_le :
    (v : ℕ) (rest : Bytes) → IsU32 v → take_u32 (put_u32_le v ++ rest) ≡ ok (v, rest)
unfolding take_u32 put_u32_le
take_u32-put_u32_le v rest h =
    rw (take_bytes-append 4 (to_le 4 v) rest (length-to_le 4 v), from_le-to_le 4 v (omega arith))

pub take_u128-put_u128 :
    (v : ℕ) (rest : Bytes) → IsU128 v → take_u128 (put_u128 v ++ rest) ≡ ok (v, rest)
unfolding take_u128 put_u128
take_u128-put_u128 v rest h =
    rw
      (take_bytes-append 16 (to_le 16 v) rest (length-to_le 16 v), from_le-to_le 16 v (omega arith))

pub take_count-put_u32_le :
    (v : ℕ) (rest : Bytes) → IsCount v → take_count (put_u32_le v ++ rest) ≡ ok (v, rest)
unfolding take_count
take_count-put_u32_le v rest h =
    let fits : ltb max_frame_count v ≡ false = ground arith in
    rw (take_u32-put_u32_le v rest (omega arith), fits)

pub take_block_id-append : (id rest : Bytes) → IsId id → take_block_id (id ++ rest) ≡ ok (id, rest)
unfolding take_block_id
take_block_id-append id rest h = take_bytes-append 32 id rest h.size

pub take_root-append : (id rest : Bytes) → IsId id → take_root (id ++ rest) ≡ ok (id, rest)
unfolding take_root
take_root-append id rest h = take_block_id-append id rest h

-- A loop reads back a list from the concatenation of its elements' encodings.
pub read_n-concat_map {ℓ κ} :
    {A : Type ℓ} (P : A → Type κ) (f : Reader A) (e : A → Bytes)
    → ((x : A) (rest : Bytes) → P x → f (e x ++ rest) ≡ ok (x, rest))
    → (xs : List A) (rest : Bytes) → All P xs
    → read_n f (length xs) (concat_map e xs ++ rest) ≡ ok (xs, rest)
unfolding read_n concat_map
read_n-concat_map P f e step [] rest h = refl
read_n-concat_map P f e step (x ∷ xs) rest h =
    rw
      (append_assoc, step x (concat_map e xs ++ rest) h.0, read_n-concat_map P f e step xs rest h.1)

kind_bits :
    (k : BlockKind)
    → (not (bit_and (bit_and (to_byte k) 0x7f) ref_bit == 0) ≡ false)
      × (from_byte (bit_and (bit_and (to_byte k) 0x7f) 0x7f) ≡ some k)
unfolding to_byte from_byte
kind_bits message = (refl, refl)
kind_bits _ = (refl, refl)

module _ (b : Block) (m : ℕ) (rest : Bytes) where
  abbrev entry : Bytes
  entry = m ∷ (to_le 8 b.seq ++ (to_le 8 (length b.payload) ++ (b.payload ++ rest)))

  entry_seq : IsU64 b.seq → from_le (slice 1 9 entry) ≡ b.seq
  entry_seq h =
      rw (take-append_len 8 (to_le 8 b.seq) _ (length-to_le 8 b.seq))
        (from_le-to_le 8 b.seq (omega arith))

  entry_tail : drop 8 (drop 1 entry) ≡ to_le 8 (length b.payload) ++ (b.payload ++ rest)
  entry_tail = drop-append_len 8 (to_le 8 b.seq) _ (length-to_le 8 b.seq)

  entry_plen :
      length b.payload ≤ max_inline_payload_bytes → from_le (slice 9 17 entry) ≡ length b.payload
  entry_plen h =
      rw
        (
          entry_tail,
          take-append_len 8 (to_le 8 (length b.payload)) (b.payload ++ rest)
              (length-to_le 8 (length b.payload)),
        )
        (from_le-to_le 8 (length b.payload) (omega arith))

  entry_payload : drop 17 entry ≡ b.payload ++ rest
  entry_payload =
      sym (drop-drop 8 9 entry)
      ∙ rw entry_tail (
          drop-append_len 8 (to_le 8 (length b.payload)) (b.payload ++ rest)
            (length-to_le 8 (length b.payload)))

  length-entry : length entry ≡ 17 + length b.payload + length rest
  length-entry = omega (
    arith,
    length-append (to_le 8 b.seq) (to_le 8 (length b.payload) ++ (b.payload ++ rest)),
    length-append (to_le 8 (length b.payload)) (b.payload ++ rest),
    length-append b.payload rest,
    length-to_le 8 b.seq,
    length-to_le 8 (length b.payload),
  )

  copy_inline-encode :
      IsU64 b.seq
      → length b.payload ≤ max_inline_payload_bytes
      → copy_inline (17 + length b.payload) b.kind entry ≡ ok (inline b, rest)
  unfolding copy_inline
  copy_inline-encode hs hl =
      let n = length b.payload in
      let taken : take n (b.payload ++ rest) ≡ b.payload = take-append_len n b.payload rest refl in
      let left : drop (17 + n) entry ≡ rest =
        sym (drop-drop n 17 entry) ∙ rw entry_payload (drop-append_len n b.payload rest refl) in
      ground (arith, entry_seq hs, entry_plen hl, entry_payload, taken, left)

copy_ref-encode :
    (id rest : Bytes) → IsId id → copy_ref 33 (ref_bit ∷ (id ++ rest)) ≡ ok (ref id, rest)
unfolding copy_ref
copy_ref-encode id rest h =
    rw (take-append_len 32 id rest h.size, drop-append_len 32 id rest h.size)

copy_entry-inline :
    (b : Block) (rest : Bytes)
    → IsU64 b.seq
    → length b.payload ≤ max_inline_payload_bytes
    → copy_entry (17 + length b.payload) (entry b (bit_and (to_byte b.kind) 0x7f) rest)
      ≡ ok (inline b, rest)
copy_entry-inline b rest hs hl =
    let (is_inline, kind) = kind_bits b.kind in
    let m = bit_and (to_byte b.kind) 0x7f in
    copy_entry_inline _ m _ b.kind is_inline kind ∙ copy_inline-encode b m rest hs hl

pub copy_frame_block-encode :
    (fb : FrameBlock) (rest : Bytes)
    → IsFrameBlock fb
    → copy_frame_block (encode_frame_block fb ++ rest) ≡ ok (fb, rest)
unfolding copy_frame_block encode_frame_block
copy_frame_block-encode (inline b) rest (hs, hl) =
    let m = bit_and (to_byte b.kind) 0x7f in
    let fits : ltb (length (entry b m rest)) (17 + length b.payload) ≡ false =
      ground (arith, length-entry b m rest) in
    rw
      (
        append_assoc,
        take_u32-put_u32_le (1 + 8 + 8 + length b.payload) _ (omega arith),
        append_assoc,
        append_assoc,
        fits,
      )
      (copy_entry-inline b rest hs hl)
copy_frame_block-encode (ref id) rest (h, _) =
    let fits : ltb (length ((ref_bit ∷ id) ++ rest)) 33 ≡ false =
      ground (arith, h.size, length-append id rest) in
    rw (append_assoc, take_u32-put_u32_le 33 ((ref_bit ∷ id) ++ rest) (omega arith), fits)
      (copy_entry_ref 33 ref_bit (id ++ rest) refl ∙ copy_ref-encode id rest h)

pub copy_symbol-encode :
    (s rest : Bytes) → IsSymbol s → copy_symbol (encode_symbol s ++ rest) ≡ ok (s, rest)
unfolding copy_symbol encode_symbol
copy_symbol-encode s rest h =
    let fits : ltb max_inline_payload_bytes (length s) ≡ false = ground arith in
    rw (append_assoc, take_u32-put_u32_le (length s) (s ++ rest) (omega arith), fits)
      (take_bytes-append (length s) s rest refl)
