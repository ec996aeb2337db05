-- ===== src/Core/Wal/Append.antt =====
-- The writer against the record format.
use dlr.Prelude.{
  ℕ, ◌+◌, ◌*◌, ◌≤◌, ◌≡◌, refl, sym, ◌∙◌, arith, List, [], ◌∷◌, ◌++◌, length, All, Option, none,
  concat_map, append_assoc, append-nil, Option-cases, inl, inr,
}
use dlr.Prelude.Results.{Result, ok, err, Result-cases}
use dlr.Core.Bytes.{Bytes, to_le}
use dlr.Core.Block.{Block, BlockId, IsU128, IsId}
use dlr.Core.Merkle.{MerkleRoot}
use dlr.Core.Canonical.{canonical_bytes}
use dlr.Core.Canonical.Laws.{IsBlock, length-canonical_bytes}
use dlr.Core.Wal.{
  Disk, IoError, max_record_bytes, record_len, seed_lens, write_chunks, write_record, append_insert,
  append_reference, append_content, append_seed,
}
use dlr.Core.Wal.Records.{
  Record, insert, refer, seed, content, session_of, variant_of, payload_of, encode_record, IsRecord,
  id_bytes, length-seed_payload,
}

abbrev chunk : Bytes → Bytes
chunk c = c

-- An append that wrote `r`.
pub record Wrote (file : Bytes) (result : Bytes × Option IoError) (r : Record) : Type 0 where
  pub valid : IsRecord r
  pub bytes : result.0 ≡ file ++ encode_record r

module _ (disk : Disk) where
  write_chunks_lem :
      (cs : List Bytes) (file : Bytes)
      → (write_chunks disk cs file).1 ≡ none
      → (write_chunks disk cs file).0 ≡ file ++ concat_map chunk cs
  unfolding write_chunks concat_map
  write_chunks_lem [] file h = sym (append-nil file)
  write_chunks_lem (c ∷ cs) file h = elim (Option-cases (disk.write_all file c).1) [
    | inl e ↦
        rw (e, write_chunks)
          (write_chunks_lem cs (disk.write_all file c).0 (rw (e, write_chunks) at h)
            ∙ rw (disk.write_all-append file c e, append_assoc))
    | inr (x, e) ↦ absurd (cc (rw (e, write_chunks) at h))
  ]

record_len-ok : (n l : ℕ) → record_len n ≡ ok l → (l ≡ n) × (n ≤ max_record_bytes)
unfolding record_len
record_len-ok n l h = ground arith

concat_map-chunk_ids :
    (ids : List BlockId) (root : MerkleRoot)
    → concat_map chunk (ids ++ (root ∷ [])) ≡ concat_map id_bytes ids ++ root
unfolding concat_map
concat_map-chunk_ids [] root = append-nil root
concat_map-chunk_ids (id ∷ ids) root = rw (concat_map-chunk_ids ids root, append_assoc)

module _ (disk : Disk) (file : Bytes) (r : Record) (payload : List Bytes) where
  write_record_lem :
      (len : ℕ)
      → IsRecord r
      → concat_map chunk payload ≡ payload_of r
      → len ≡ length (payload_of r)
      → (write_record disk (session_of r) (variant_of r) (ok len) payload file).1 ≡ none
      → Wrote file (write_record disk (session_of r) (variant_of r) (ok len) payload file) r
  unfolding write_record encode_record
  write_record_lem len valid p l h = record {
    valid = valid;
    bytes =
        write_chunks_lem disk
          (to_le 16 (session_of r) ∷ (variant_of r ∷ []) ∷ to_le 4 len ∷ payload) file h
        ∙ unfold concat_map in rw (p, l);
  }

module _ (disk : Disk) (file : Bytes) (sid : ℕ) (hs : IsU128 sid) where
  pub append_reference_lem :
      (id : BlockId)
      → IsId id
      → (append_reference disk sid id file).1 ≡ none
      → Wrote file (append_reference disk sid id file) (refer sid id)
  unfolding append_reference payload_of
  append_reference_lem id hi h =
      write_record_lem disk file (refer sid id) (id ∷ []) 32 (hs, hi)
        (unfold concat_map in append-nil id) (sym hi.size) h

  pub append_insert_lem :
      (b : Block)
      → IsBlock b
      → (append_insert disk sid (canonical_bytes b) file).1 ≡ none
      → Wrote file (append_insert disk sid (canonical_bytes b) file) (insert sid b)
  unfolding append_insert payload_of
  append_insert_lem b hb h = checked (record_len (length (canonical_bytes b))) refl h
    where
      checked :
          (l : Result IoError ℕ)
          → record_len (length (canonical_bytes b)) ≡ l
          → (write_record disk sid 0 l (canonical_bytes b ∷ []) file).1 ≡ none
          → Wrote file (write_record disk sid 0 l (canonical_bytes b ∷ []) file) (insert sid b)
      checked (err e) p h = absurd (unfold write_record in cc (h))
      checked (ok l) p h =
          let (same, fits) = record_len-ok _ l p in
          write_record_lem disk file (insert sid b) (canonical_bytes b ∷ []) l
            (hs, hb, omega (arith, length-canonical_bytes b, fits))
            (unfold concat_map in append-nil (canonical_bytes b)) same h

  pub append_content_lem :
      (b : Block)
      → IsBlock b
      → (append_content disk sid (canonical_bytes b) file).1 ≡ none
      → Wrote file (append_content disk sid (canonical_bytes b) file) (content sid b)
  unfolding append_content payload_of
  append_content_lem b hb h = checked (record_len (length (canonical_bytes b))) refl h
    where
      checked :
          (l : Result IoError ℕ)
          → record_len (length (canonical_bytes b)) ≡ l
          → (write_record disk sid 3 l (canonical_bytes b ∷ []) file).1 ≡ none
          → Wrote file (write_record disk sid 3 l (canonical_bytes b ∷ []) file) (content sid b)
      checked (err e) p h = absurd (unfold write_record in cc (h))
      checked (ok l) p h =
          let (same, fits) = record_len-ok _ l p in
          write_record_lem disk file (content sid b) (canonical_bytes b ∷ []) l
            (hs, hb, omega (arith, length-canonical_bytes b, fits))
            (unfold concat_map in append-nil (canonical_bytes b)) same h

  seed_lens-ok :
      (n l c : ℕ)
      → seed_lens n ≡ ok (l, c)
      → (l ≡ n * 32 + 36) × (c ≡ n) × (n * 32 + 36 ≤ max_record_bytes)
  unfolding seed_lens
  seed_lens-ok n l c h = ground arith

  -- An `append_seed` that reports no error, for a session id, ids and a root of the right widths, has
  -- appended exactly the encoding of one SEED record, which is within the size that replay accepts.
  pub append_seed_lem :
      (ids : List BlockId) (root : MerkleRoot)
      → All IsId ids
      → IsId root
      → (append_seed disk sid ids root file).1 ≡ none
      → Wrote file (append_seed disk sid ids root file) (seed sid ids root)
  unfolding append_seed payload_of
  append_seed_lem ids root hi hr h = elim (Result-cases (seed_lens (length ids))) [
    | inl ((l, c), p) ↦
        let (same, count, fits) = seed_lens-ok (length ids) l c p in
        let payload : concat_map chunk (to_le 4 c ∷ (ids ++ (root ∷ [])))
            ≡ to_le 4 (length ids) ++ (concat_map id_bytes ids ++ root) =
          unfold concat_map in rw (count, concat_map-chunk_ids ids root) in
        rw (p, append_seed)
          (write_record_lem disk file (seed sid ids root) (to_le 4 c ∷ (ids ++ (root ∷ []))) l
            (hs, hi, hr, fits) payload (same ∙ sym (length-seed_payload ids root hi hr fits))
            (rw (p, append_seed) at h))
    | inr (e, p) ↦ absurd (cc (rw (p, append_seed) at h))
  ]
