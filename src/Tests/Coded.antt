-- ===== src/Tests/Coded.antt =====
-- A generation of two source symbols, and its chunk of three records.
use dlr.Prelude.{
  ℕ, ◌^◌, ◌≤◌, ◌<◌, ◌≡◌, refl, arith, List, [], ◌∷◌, length, map, concat_map, Option, some,
}
use dlr.Prelude.Results.{ok, err}
use dlr.Core.Bytes.{Bytes, to_le}
use dlr.Shim.Bulk.{gen_size_of, wire_of, record_of}
use dlr.Shim.Chunks.{stream}
use dlr.Coding.Gf256.{gf_inv, gf_scal_slice}
use dlr.Coding.Gf256.Tables.{gf_scal_slice-gf_inv}
use dlr.Coding.Fountain.{ParsedSym, peel, start_peel, decode, underdetermined}
use dlr.Coding.Fountain.Encoder.{systematic, systematic_from, repair_symbols, produce}
use dlr.Coding.Fountain.Units.{unit_sym}
use dlr.Coding.Fountain.Peeling.{peel-finished}
use dlr.Coding.Fountain.Retry.{added, twice, decode_again}
use dlr.Coding.Bulk.{div_ceil_max, slices, new_shared, numbered, encode}
use dlr.Coding.Bulk.Machine.{encode_usize, encode_generations_usize, generations, padded_len}
use dlr.Coding.Bulk.Reassembly.{bulk_decode}
use dlr.Coding.Bulk.Interleaved.{Interleaves, behind, overtakes, sent_of, bulk_decode-interleaved}
use dlr.Coding.Bulk.Generation.{Carries, encode-Carries}

abbrev packed : List Bytes
packed = (0 ∷ 5 ∷ []) ∷ (0 ∷ 6 ∷ 7 ∷ []) ∷ (1 ∷ []) ∷ []

packed_fits : gen_size_of 10 (length (stream packed)) ≤ 2 ^ 16
unfolding gen_size_of stream record_of to_le concat_map
packed_fits = omega arith

encode-Carries_example :
    (coded : List (ℕ × Bytes)) × (encode
        (λ k z. 0)
        (λ k pct. 1)
        (gen_size_of 10 (length (stream packed)))
        10
        5
        (stream packed)
      ≡ some coded)
    × Carries (gen_size_of 10 (length (stream packed))) 10 packed (map wire_of coded)
encode-Carries_example =
    encode-Carries (λ k z. 0) (λ k pct. 1) 10 5 packed (omega arith) (omega arith)
      ((omega arith, omega arith), ((omega arith, omega arith), ((omega arith, omega arith), tt)))
      packed_fits

-- The first source, and the sum of both.
abbrev two_syms : List ParsedSym
two_syms = unit_sym 0 (7 ∷ []) ∷ record { cover = (0, 1) ∷ (1, 1) ∷ []; payload = 2 ∷ [] } ∷ []

peel-finished_example : (peel (length two_syms) (start_peel 2 two_syms)).queue ≡ []
peel-finished_example = peel-finished 2 two_syms

decode_again_example :
    ((decode (twice 7 [])).1 ≡ err (underdetermined 0 1))
    × ((decode (added (systematic 1 (9 ∷ [])) (decode (twice 7 [])).0)).1 ≡ ok ([] ∷ (9 ∷ []) ∷ []))
    × ((decode (added (systematic 1 (9 ∷ [])) (twice 7 []))).1 ≡ ok ((7 ∷ []) ∷ (9 ∷ []) ∷ []))
decode_again_example = decode_again 7 [] 9 [] refl

gf_scal_slice-gf_inv_example :
    gf_scal_slice (gf_inv 0x53) (gf_scal_slice 0x53 (1 ∷ 2 ∷ 255 ∷ [])) ≡ 1 ∷ 2 ∷ 255 ∷ []
gf_scal_slice-gf_inv_example =
    gf_scal_slice-gf_inv 0x53 (1 ∷ 2 ∷ 255 ∷ []) (omega arith) (omega arith)
      (omega arith, (omega arith, (omega arith, tt)))

abbrev five_bytes : Bytes
five_bytes = 1 ∷ 2 ∷ 3 ∷ 4 ∷ 5 ∷ []

-- The second generation's first symbol overtakes the first one's last.
abbrev mixed : List (ℕ × Bytes)
mixed =
    (0, systematic 0 (1 ∷ 2 ∷ []))
    ∷ (1, systematic 0 (5 ∷ 0 ∷ []))
    ∷ (0, systematic 1 (3 ∷ 4 ∷ []))
    ∷ (1, systematic 1 (0 ∷ 0 ∷ []))
    ∷ []

abbrev two_generations : Option (List (ℕ × Bytes))
two_generations = encode_usize (λ k z. 0) (λ k pct. 0) 2 2 0 five_bytes

two_generations_few : generations 2 2 five_bytes ≤ 2 ^ 32
unfolding div_ceil_max
two_generations_few = omega arith

two_generations_fit : padded_len 2 2 five_bytes < 2 ^ 64
unfolding div_ceil_max
two_generations_fit = omega arith

two_generations-Interleaves : Interleaves (sent_of two_generations) mixed
unfolding encode_usize encode_generations_usize new_shared slices numbered produce systematic_from
    repair_symbols div_ceil_max
two_generations-Interleaves =
    behind (0, systematic 0 (1 ∷ 2 ∷ [])) _ _
      (overtakes 0 1 (systematic 1 (3 ∷ 4 ∷ [])) (systematic 0 (5 ∷ 0 ∷ []))
        ((1, systematic 1 (0 ∷ 0 ∷ [])) ∷ []) refl)

bulk_decode-interleaved_example :
    (two_generations ≡ some (sent_of two_generations))
    × (bulk_decode 2 2 mixed 5 ≡ some (ok five_bytes))
bulk_decode-interleaved_example =
    bulk_decode-interleaved (λ k z. 0) (λ k pct. 0) 2 2 0 five_bytes mixed (omega arith)
      (omega arith) (omega arith) (omega arith) two_generations_few two_generations_fit refl
      two_generations-Interleaves
