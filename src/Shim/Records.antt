-- ===== src/Shim/Records.antt =====
-- The receiver's parser on a generation: crates/shim and crates/receiver together.
use dlr.Prelude.{
  ℕ, zero, suc, ◌+◌, ◌^◌, ◌≡◌, ◌≤◌, ◌<◌, refl, ap, ◌∙◌, arith, List, [], ◌∷◌, ◌++◌, All, length,
  take, drop, ltb, ◌==◌, false, length-append, append_assoc, take-append_len, drop-append_len,
}
use dlr.Core.Bytes.{Bytes, to_le, from_le, length-to_le, from_le-to_le}
use dlr.Core.Merkle.{replicate}
use dlr.Receiver.{parse_stream}
use dlr.Shim.Bulk.{record_of}
use dlr.Shim.Chunks.{stream}

-- A compressed block whose length is a `u32` and not zero.
abbrev pub IsPacked : Bytes → Type 0
IsPacked z = (1 ≤ length z) × (length z < 2 ^ 32)

-- One record in front of the rest of the bytes.
parse_stream-record :
    (fuel : ℕ) (z rest : Bytes)
    → IsPacked z
    → parse_stream (suc fuel) (record_of z ++ rest) ≡ z ∷ parse_stream fuel rest
unfolding parse_stream record_of
parse_stream-record fuel z rest (some, fits) =
    let split : (to_le 4 (length z) ++ z) ++ rest ≡ to_le 4 (length z) ++ (z ++ rest) =
      append_assoc (to_le 4 (length z)) z rest in
    let count : from_le (take 4 (to_le 4 (length z) ++ (z ++ rest))) ≡ length z =
      rw (take-append_len 4 (to_le 4 (length z)) (z ++ rest) (length-to_le 4 (length z)))
        (from_le-to_le 4 (length z) (omega (arith, fits))) in
    let tail : drop 4 (to_le 4 (length z) ++ (z ++ rest)) ≡ z ++ rest =
      drop-append_len 4 (to_le 4 (length z)) (z ++ rest) (length-to_le 4 (length z)) in
    let long : ltb (length (to_le 4 (length z) ++ (z ++ rest))) 4 ≡ false =
      ground (arith, length-append (to_le 4 (length z)) (z ++ rest), length-to_le 4 (length z)) in
    let nonzero : (length z == 0) ≡ false = ground (arith, some) in
    let inside : ltb (length (z ++ rest)) (length z) ≡ false =
      ground (arith, length-append z rest) in
    rw (
      split,
      count,
      tail,
      long,
      nonzero,
      inside,
      take-append_len (length z) z rest refl,
      drop-append_len (length z) z rest refl,
    )

parse_stream-zeros : (fuel pad : ℕ) → parse_stream fuel (replicate pad 0) ≡ []
unfolding parse_stream from_le
parse_stream-zeros zero pad = refl
parse_stream-zeros (suc fuel) zero = refl
parse_stream-zeros (suc fuel) (suc zero) = refl
parse_stream-zeros (suc fuel) (suc (suc zero)) = refl
parse_stream-zeros (suc fuel) (suc (suc (suc zero))) = refl
parse_stream-zeros (suc fuel) (suc (suc (suc (suc pad)))) = ground arith

pub length-stream_cons :
    (z : Bytes) (zs : List Bytes) (pad : ℕ)
    → length (stream (z ∷ zs) ++ replicate pad 0)
      ≡ 4 + (length z + length (stream zs ++ replicate pad 0))
unfolding stream record_of
length-stream_cons z zs pad = omega (
  arith,
  length-append (stream (z ∷ zs)) (replicate pad 0),
  length-append (record_of z) (stream zs),
  length-append (to_le 4 (length z)) z,
  length-to_le 4 (length z),
  length-append (stream zs) (replicate pad 0),
)

-- The receiver's parser, on the records of some compressed blocks and any zero padding after them,
-- gives the compressed blocks back, if each has a length that is a `u32` and not zero; as much fuel
-- as there are bytes, which the receiver gives, is enough.
pub parse_stream-stream :
    (zs : List Bytes) (pad fuel : ℕ)
    → All IsPacked zs
    → length (stream zs ++ replicate pad 0) ≤ fuel
    → parse_stream fuel (stream zs ++ replicate pad 0) ≡ zs
unfolding stream
parse_stream-stream [] pad fuel h enough = parse_stream-zeros fuel pad
parse_stream-stream (z ∷ zs) pad zero h enough =
    absurd (omega (arith, enough, length-stream_cons z zs pad))
parse_stream-stream (z ∷ zs) pad (suc fuel) h enough =
    let split : stream (z ∷ zs) ++ replicate pad 0 ≡ record_of z ++ (stream zs ++ replicate pad 0) =
      append_assoc (record_of z) (stream zs) (replicate pad 0) in
    let less : length (stream zs ++ replicate pad 0) ≤ fuel =
      omega (arith, enough, length-stream_cons z zs pad) in
    ap (parse_stream (suc fuel)) split
    ∙ parse_stream-record fuel z (stream zs ++ replicate pad 0) h.0
    ∙ ap (λ l. z ∷ l) (parse_stream-stream zs pad fuel h.1 less)
