-- ===== src/Shim/Bulk.antt =====
-- crates/shim/src/lib.rs: the BULK frames of a cold start. The fountain code's `bulk::encode`
-- (crates/coding/src/bulk.rs) is a parameter: generation size, symbol size, repair margin in percent
-- and payload to numbered wire symbols, or none for an error.
use dlr.Prelude.{
  ℕ, ◌+◌, ◌-◌, ◌*◌, ◌/◌, ◌%◌, ◌^◌, List, [], ◌∷◌, ◌++◌, length, drop, map, Option, none, some, Bool,
  true, false, ltb, leb, if◌then◌else◌,
}
use dlr.Prelude.Results.{Result, ok, err}
use dlr.Core.Bytes.{Bytes, to_le}
use dlr.Core.Block.{BlockId}
use dlr.Core.Canonical.{canonical_bytes}
use dlr.Core.Frame.{BulkFrame}
use dlr.Core.Store.{ContentStore, get}
use dlr.Shim.{Packer, SessionShim}

-- The texts are left out; the variant `ColdStartRequired` is never built.
pub data ShimError : Type 0 where
  coding_error compress_error : ShimError

abbrev pub BulkEncode : Type 0
BulkEncode = ℕ → ℕ → ℕ → Bytes → Option (List (ℕ × Bytes))

-- `[len: u32][bytes]`
unfoldable pub record_of : Bytes → Bytes
record_of z = to_le 4 (length z) ++ z

abbrev pub is_empty : Bytes → Bool
is_empty [] = true
is_empty (b ∷ bs) = false

-- Whole records, as many as fit in a generation; `cur` is the chunk that is being filled.
unfoldable pub chunk_records : ℕ → List Bytes → Bytes → List Bytes
chunk_records full [] cur = if is_empty cur then [] else cur ∷ []
chunk_records full (rec ∷ recs) cur =
    let next = chunk_records full recs rec in
    let grown = chunk_records full recs (cur ++ rec) in
    if is_empty cur then grown else if ltb full (length cur + length rec) then cur ∷ next else grown

-- `chunk.len().div_ceil(sym).max(1)`
unfoldable pub gen_size_of : ℕ → ℕ → ℕ
gen_size_of sym len = let n = (len + (sym - 1)) / sym in if leb n 1 then 1 else n

abbrev pub wire_of : ℕ × Bytes → Bytes
wire_of p = p.1

module _ (packer : Packer) (encode : BulkEncode) where
  -- The missing blocks that are stored, compressed.
  unfoldable pub pack_records :
      SessionShim packer → ContentStore → List BlockId → Result ShimError (List Bytes)
  pack_records s store [] = ok []
  pack_records s store (id ∷ ids) = elim (get store id) [
    | none ↦ pack_records s store ids
    | some b ↦ elim (packer.compress s.compressor (canonical_bytes b)) [
      | none ↦ err compress_error
      | some z ↦ elim (pack_records s store ids) [
        | err e ↦ err e
        | ok recs ↦ ok (record_of z ∷ recs)
      ]
    ]
  ]

  -- One chunk as a generation of its own.
  unfoldable pub code_chunk : SessionShim packer → ℕ → ℕ → Bytes → Result ShimError BulkFrame
  code_chunk s pct gen chunk =
      let gen_size = gen_size_of s.fountain_symbol_size (length chunk) in
      elim (encode gen_size s.fountain_symbol_size pct chunk) [
        | none ↦ err coding_error
        | some coded ↦ ok (record {
          session_id = s.session_id;
          generation = gen % 2 ^ 32;
          k = gen_size % 2 ^ 32;
          symbol_size = s.fountain_symbol_size % 2 ^ 32;
          symbols = map wire_of coded;
        })
      ]

  unfoldable pub code_chunks :
      SessionShim packer → ℕ → ℕ → List Bytes → Result ShimError (List BulkFrame)
  code_chunks s pct gen [] = ok []
  code_chunks s pct gen (chunk ∷ chunks) = elim (code_chunk s pct gen chunk) [
    | err e ↦ err e
    | ok frame ↦ elim (code_chunks s pct (gen + 1) chunks) [
      | err e ↦ err e
      | ok frames ↦ ok (frame ∷ frames)
    ]
  ]

  unfoldable pub bulk_frames_for :
      List BlockId → ℕ → SessionShim packer → ContentStore → Result ShimError (List BulkFrame)
  bulk_frames_for [] pct s store = ok []
  bulk_frames_for (id ∷ ids) pct s store = elim (pack_records s store (id ∷ ids)) [
    | err e ↦ err e
    | ok recs ↦ code_chunks s pct 0 (chunk_records (s.fountain_k * s.fountain_symbol_size) recs [])
  ]

  unfoldable pub bulk_frames :
      ℕ → SessionShim packer → ContentStore → Result ShimError (List BulkFrame)
  bulk_frames pct s store = bulk_frames_for (drop s.base_len s.ids) pct s store
