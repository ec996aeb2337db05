-- ===== src/Coding/Bulk.antt =====
-- crates/coding/src/bulk.rs: `encode`, with `FountainEncoder::new_shared`, and the fountain decoder
-- as the receiver's codec. The repair symbols of a generation, which the code counts in floating
-- point, are a parameter; a size of 0, by which the code divides, is not modelled. `encode` is the
-- function on exact numbers; Machine has it in the code's own 64-bit arithmetic, and says when the two
-- agree. Reassembly has `decode`.
pub mod Slices
pub mod Generation
pub mod Machine
pub mod Reassembly
pub mod Groups
pub mod Whole
pub mod Interleaved
use dlr.Prelude.{
  ℕ, zero, suc, ◌+◌, ◌-◌, ◌*◌, ◌/◌, ◌%◌, ◌^◌, List, [], ◌∷◌, ◌++◌, length, take, drop, Option, none,
  some, Bool, true, false, ltb, leb, ◌==◌, if◌then◌else◌,
}
use dlr.Prelude.Results.{Result, ok, err}
use dlr.Core.Bytes.{Bytes}
use dlr.Core.Merkle.{replicate}
use dlr.Receiver.{Codec, Decoding, decoded, decode_failed}
use dlr.Receiver
use dlr.Coding.Fountain.{
  FountainError, empty, underdetermined, size_mismatch, FountainDecoder, new_decoder, add, decode,
}
use dlr.Coding.Fountain.Encoder.{FountainEncoder, produce}

-- `n.div_ceil(d).max(1)`
unfoldable pub div_ceil_max : ℕ → ℕ → ℕ
div_ceil_max n d = let q = (n + (d - 1)) / d in if leb q 1 then 1 else q

-- The source symbols of an encoder over a shared buffer.
unfoldable pub slices : Bytes → ℕ → ℕ → ℕ → List Bytes
slices buf stride offset zero = []
slices buf stride offset (suc k) =
    take stride (drop offset buf) ∷ slices buf stride (offset + stride) k

-- An end that is not a `usize` is behind every buffer: the code's checked sum is the same error, with
-- other numbers in it.
unfoldable pub new_shared : Bytes → ℕ → ℕ → ℕ → ℕ → Result FountainError FountainEncoder
new_shared buf offset stride k generation =
    if k == 0
    then err empty
    else if stride == 0
    then err empty
    else if ltb (length buf) (offset + k * stride)
    then err (size_mismatch (length buf) (offset + k * stride))
    else ok
        (record { source = slices buf stride offset k; generation = generation; repair_index = 0 })

unfoldable pub numbered : ℕ → List Bytes → List (ℕ × Bytes)
numbered gen [] = []
numbered gen (w ∷ ws) = (gen, w) ∷ numbered gen ws

module _ (soliton : ℕ → ℕ → ℕ) (repair : ℕ → ℕ → ℕ) where
  -- The generations from `gi` on, `n` of them.
  unfoldable pub encode_generations : Bytes → ℕ → ℕ → ℕ → ℕ → ℕ → Option (List (ℕ × Bytes))
  encode_generations buf gen_size symbol_size count gi zero = some []
  encode_generations buf gen_size symbol_size count gi (suc n) =
      elim (new_shared buf (gi * (gen_size * symbol_size)) symbol_size gen_size (gi % 2 ^ 32)) [
        | err e ↦ none
        | ok enc ↦ elim (encode_generations buf gen_size symbol_size count (gi + 1) n) [
          | none ↦ none
          | some rest ↦ some (numbered (gi % 2 ^ 32) (produce soliton count enc).1 ++ rest)
        ]
      ]

  -- None is an error. The products are exact here.
  unfoldable pub encode : ℕ → ℕ → ℕ → Bytes → Option (List (ℕ × Bytes))
  encode gen_size symbol_size pct payload =
      let count = gen_size + repair gen_size pct in
      let total_syms = div_ceil_max (length payload) symbol_size in
      let total_full_gens = div_ceil_max total_syms gen_size in
      let padded_len = total_full_gens * (gen_size * symbol_size) in
      let padded = payload ++ replicate (padded_len - length payload) 0 in
      if length payload == 0
      then none
      else encode_generations padded gen_size symbol_size count 0 total_full_gens

-- What the receiver does with the answers of the decoder.
abbrev pub to_added : FountainDecoder × Result FountainError Bool → FountainDecoder × Bool
to_added (d, ok fresh) = (d, true)
to_added (d, err e) = (d, false)

abbrev pub to_decoding : Result FountainError (List Bytes) → Decoding
to_decoding (ok symbols) = decoded symbols
to_decoding (err (underdetermined have need)) = Receiver.underdetermined
to_decoding (err empty) = decode_failed
to_decoding (err (size_mismatch a b)) = decode_failed

abbrev pub to_decoded :
    FountainDecoder × Result FountainError (List Bytes) → FountainDecoder × Decoding
to_decoded (d, result) = (d, to_decoding result)

-- The receiver's codec, with the fountain decoder.
abbrev pub fountain_codec : (Bytes → Option Bytes) → Codec
fountain_codec decompress = record {
  Decoder = FountainDecoder;
  new_decoder = new_decoder;
  add = λ wire d. to_added (add wire d);
  decode = λ d. to_decoded (decode d);
  decompress = decompress;
}
