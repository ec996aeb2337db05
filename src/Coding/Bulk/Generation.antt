-- ===== src/Coding/Bulk/Generation.antt =====
-- A generation from the shim's chunk to the receiver's parser: crates/shim, crates/coding and
-- crates/receiver together.
use native.Mathlib.Nat.{zero-mul}
use dlr.Prelude.{
  ℕ, ◌+◌, ◌-◌, ◌*◌, ◌^◌, ◌≤◌, ◌<◌, ◌≡◌, refl, sym, subst, ap, ◌∙◌, arith, List, [], ◌∷◌, ◌++◌,
  length, take, drop, map, All, some, false, ltb, ◌==◌, concat_map, length-append, append-nil,
}
use dlr.Prelude.Results.{ok}
use dlr.Core.Bytes.{Bytes}
use dlr.Core.Merkle.{replicate}
use dlr.Receiver.{parse_stream}
use dlr.Receiver.Sync.{chunk_bytes}
use dlr.Shim.Bulk.{gen_size_of, wire_of}
use dlr.Shim.Chunks.{stream}
use dlr.Shim.Records.{IsPacked, length-stream_cons, parse_stream-stream}
use dlr.Coding.Fountain.{FountainDecoder, new_decoder, decode}
use dlr.Coding.Fountain.Encoder.{FountainEncoder, systematic_from, produce}
use dlr.Coding.Fountain.Systematic.{add_all, add_all-systematic, decode-units}
use dlr.Coding.Fountain.Units.{units}
use dlr.Coding.Bulk.{div_ceil_max, slices, new_shared, numbered, encode_generations, encode}
use dlr.Coding.Bulk.Slices.{
  div_ceil_max-le, div_ceil_max-pos, div_ceil_max_self, slices-sizes, length-slices, concat-slices,
  length-replicate, map-numbered, take-produce,
}

module _ (soliton : ℕ → ℕ → ℕ) (repair : ℕ → ℕ → ℕ) (size pct : ℕ) (chunk : Bytes)
    (some_size : 0 < size) (some_bytes : 1 ≤ length chunk) where
  abbrev k : ℕ
  k = div_ceil_max (length chunk) size

  abbrev pad : ℕ
  pad = 1 * (k * size) - length chunk

  abbrev padded : Bytes
  padded = chunk ++ replicate pad 0

  length-padded : length padded ≡ k * size
  length-padded = omega (
    arith,
    length-append chunk (replicate pad 0),
    length-replicate pad 0,
    div_ceil_max-le (length chunk) size some_bytes some_size,
  )

  abbrev encoder : FountainEncoder
  encoder = record {
    source = slices padded size (0 * (k * size)) k;
    generation = 0;
    repair_index = 0;
  }

  new_shared-padded : new_shared padded (0 * (k * size)) size k 0 ≡ ok encoder
  unfolding new_shared
  new_shared-padded =
      let some_k : (k == 0) ≡ false = ground (arith, div_ceil_max-pos (length chunk) size) in
      let some_s : (size == 0) ≡ false = ground (arith, some_size) in
      let room : ltb (length padded) (0 * (k * size) + k * size) ≡ false =
        ground (arith, length-padded) in
      rw (new_shared, some_k, some_s, room)

  abbrev symbols : List Bytes
  symbols = (produce soliton (k + repair k pct) encoder).1

  encode-symbols : encode soliton repair k size pct chunk ≡ some (numbered 0 symbols ++ [])
  unfolding encode encode_generations
  encode-symbols =
      let some_chunk : (length chunk == 0) ≡ false = ground (arith, some_bytes) in
      let one = div_ceil_max_self k (div_ceil_max-pos (length chunk) size) in
      rw (encode, some_chunk, one, encode_generations, one, new_shared-padded)

  first_symbols : take k symbols ≡ systematic_from 0 encoder.source
  first_symbols =
      ap (λ n. take n (produce soliton (n + repair k pct) encoder).1)
        (sym (length-slices padded size k (0 * (k * size))))
      ∙ take-produce soliton encoder (repair k pct)

  -- What the receiver's decoder makes of the first symbols.
  decode-first :
      k ≤ 2 ^ 16 → (decode (add_all (take k symbols) (new_decoder k size))).1 ≡ ok encoder.source
  unfolding new_decoder
  decode-first small =
      let full : length encoder.source ≡ k = length-slices padded size k (0 * (k * size)) in
      let sizes = slices-sizes padded size k (0 * (k * size)) (omega (arith, length-padded)) in
      ap (λ wires. (decode (add_all wires (new_decoder k size))).1) first_symbols
      ∙ ap (λ (d : FountainDecoder). (decode d).1)
          (add_all-systematic encoder.source 0 (new_decoder k size) (omega (arith, full)) small
            sizes)
      ∙ ap (λ n. (decode (record { k = n; symbol_size = size; syms = units 0 encoder.source })).1)
          (sym full)
      ∙ decode-units encoder.source size

  concat-source : concat_map chunk_bytes encoder.source ≡ padded
  concat-source =
      concat-slices padded size k (0 * (k * size)) (omega (arith, length-padded)) ∙ drop_none padded
    where
      drop_none : (buf : Bytes) → drop (0 * (k * size)) buf ≡ buf
      drop_none buf = rw zero-mul

stream_some : (zs : List Bytes) → 1 ≤ length zs → 1 ≤ length (stream zs)
stream_some [] h = absurd (omega arith)
stream_some (z ∷ zs) h =
    let whole : length (stream (z ∷ zs) ++ replicate 0 0) ≡ length (stream (z ∷ zs)) =
      ap (λ (r : Bytes). length r) (append-nil (stream (z ∷ zs))) in
    omega (arith, whole, length-stream_cons z zs 0)

-- What a generation's symbols are good for: the first K give the decoder the sources, and the
-- sources give the parser the compressed blocks.
pub record Carries (k size : ℕ) (zs : List Bytes) (wires : List Bytes) : Type 0 where
  pub source : List Bytes
  pub decoded : (decode (add_all (take k wires) (new_decoder k size))).1 ≡ ok source
  pub parsed : let flat = concat_map chunk_bytes source in parse_stream (length flat) flat ≡ zs

gen_size_of-div : (size n : ℕ) → gen_size_of size n ≡ div_ceil_max n size
unfolding gen_size_of div_ceil_max
gen_size_of-div size n = refl

encode-Carries_k :
    (soliton : ℕ → ℕ → ℕ) (repair : ℕ → ℕ → ℕ) (size pct : ℕ) (zs : List Bytes)
    → 0 < size
    → 1 ≤ length zs
    → All IsPacked zs
    → div_ceil_max (length (stream zs)) size ≤ 2 ^ 16
    → let k = div_ceil_max (length (stream zs)) size in
      (coded : List (ℕ × Bytes)) × (encode soliton repair k size pct (stream zs) ≡ some coded)
      × Carries k size zs (map wire_of coded)
encode-Carries_k soliton repair size pct zs some_size some_zs packed small =
    let chunk = stream zs in
    let some_bytes = stream_some zs some_zs in
    let n = div_ceil_max (length chunk) size in
    let ws = symbols soliton repair size pct chunk some_size some_bytes in
    let flat = concat-source soliton repair size pct chunk some_size some_bytes in
    let wires : map wire_of (numbered 0 ws ++ []) ≡ ws =
      ap (map wire_of) (append-nil (numbered 0 ws)) ∙ map-numbered 0 ws in
    (
      numbered 0 ws ++ [],
      encode-symbols soliton repair size pct chunk some_size some_bytes,
      record {
        source = (encoder soliton repair size pct chunk some_size some_bytes).source;
        decoded =
            ap (λ l. (decode (add_all (take n l) (new_decoder n size))).1) wires
            ∙ decode-first soliton repair size pct chunk some_size some_bytes small;
        parsed =
            ap (λ (r : Bytes). parse_stream (length r) r) flat
            ∙ parse_stream-stream zs (pad soliton repair size pct chunk some_size some_bytes) _
                packed (omega arith);
      },
    )

-- A chunk of records of compressed blocks, one at least, each of a length that is a `u32` and not
-- zero, is encoded without an error with the generation size that the shim computes for it, if that
-- is 2 ^ 16 at most; and a decoder that gets the first K symbols, in order, gives the receiver's
-- parser exactly the compressed blocks, in order, whatever the repair symbols and the padding are.
pub encode-Carries :
    (soliton : ℕ → ℕ → ℕ) (repair : ℕ → ℕ → ℕ) (size pct : ℕ) (zs : List Bytes)
    → 0 < size
    → 1 ≤ length zs
    → All IsPacked zs
    → gen_size_of size (length (stream zs)) ≤ 2 ^ 16
    → let k = gen_size_of size (length (stream zs)) in
      (coded : List (ℕ × Bytes)) × (encode soliton repair k size pct (stream zs) ≡ some coded)
      × Carries k size zs (map wire_of coded)
encode-Carries soliton repair size pct zs some_size some_zs packed small =
    subst
      (λ n.
        (coded : List (ℕ × Bytes)) × (encode soliton repair n size pct (stream zs) ≡ some coded)
        × Carries n size zs (map wire_of coded))
      (sym (gen_size_of-div size (length (stream zs))))
      (encode-Carries_k soliton repair size pct zs some_size some_zs packed
        (subst (λ n. n ≤ 2 ^ 16) (gen_size_of-div size (length (stream zs))) small))
