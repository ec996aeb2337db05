-- ===== src/Core/Wal/Records.antt =====
-- The records of the log as data: their bytes, and what their replay does to a store.
use dlr.Prelude.{
  ℕ, ◌+◌, ◌*◌, ◌-◌, ◌≤◌, ◌≡◌, refl, sym, ◌∙◌, arith, List, [], ◌∷◌, ◌++◌, length, take, drop, All,
  true, leb, ◌==◌, concat_map, length-append, append_assoc, append-nil, take-append_len,
  drop-append_len, drop-drop,
}
use dlr.Prelude.Results.{ok}
use dlr.Core.Bytes.{Bytes, to_le, from_le, slice, length-to_le, from_le-to_le}
use dlr.Core.Blake3.{Blake3}
use dlr.Core.Block.{Block, BlockId, IsU128, IsId}
use dlr.Core.Merkle.{MerkleRoot}
use dlr.Core.Canonical.{canonical_bytes, from_canonical, checked_add}
use dlr.Core.Canonical.Laws.{IsBlock, length-canonical_bytes, from_canonical-canonical_bytes}
use dlr.Core.Store.{ContentStore, insert_block, reference, seed_session, store_content}
use dlr.Core.Wal.{Disk, max_record_bytes, checked_mul}
use dlr.Core.Wal.Replay.{
  fits, and_then, seed_ids, replay_insert, replay_reference, replay_seed, replay_content,
  replay_record,
}

pub data Record : Type 0 where
  insert : ℕ → Block → Record
  refer : ℕ → BlockId → Record
  seed : ℕ → List BlockId → MerkleRoot → Record
  content : ℕ → Block → Record

abbrev pub id_bytes : BlockId → Bytes
id_bytes id = id

abbrev pub session_of : Record → ℕ
session_of (insert sid b) = sid
session_of (refer sid id) = sid
session_of (seed sid ids root) = sid
session_of (content sid b) = sid

abbrev pub variant_of : Record → ℕ
variant_of (insert sid b) = 0
variant_of (refer sid id) = 1
variant_of (seed sid ids root) = 2
variant_of (content sid b) = 3

unfoldable pub payload_of : Record → Bytes
payload_of (insert sid b) = canonical_bytes b
payload_of (refer sid id) = id
payload_of (seed sid ids root) = to_le 4 (length ids) ++ (concat_map id_bytes ids ++ root)
payload_of (content sid b) = canonical_bytes b

-- The documented format: session id, variant, length, payload.
unfoldable pub encode_record : Record → Bytes
encode_record r =
    to_le 16 (session_of r) ++ (variant_of r ∷ (to_le 4 (length (payload_of r)) ++ payload_of r))

-- What the writer accepts.
abbrev pub IsRecord : Record → Type 0
IsRecord (insert sid b) = IsU128 sid × IsBlock b × (17 + length b.payload ≤ max_record_bytes)
IsRecord (refer sid id) = IsU128 sid × IsId id
IsRecord (seed sid ids root) =
    IsU128 sid × All IsId ids × IsId root × (length ids * 32 + 36 ≤ max_record_bytes)
IsRecord (content sid b) = IsU128 sid × IsBlock b × (17 + length b.payload ≤ max_record_bytes)

module _ (blake3 : Blake3) (disk : Disk) where
  unfoldable pub apply_record : Record → ContentStore → ContentStore
  apply_record (insert sid b) s = (insert_block blake3 disk sid b s).0
  apply_record (refer sid id) s = (reference blake3 disk sid id s).0
  apply_record (seed sid ids root) s = seed_session blake3 disk sid ids root s
  apply_record (content sid b) s = (store_content blake3 disk sid b s).0

  unfoldable pub apply_all : List Record → ContentStore → ContentStore
  apply_all [] s = s
  apply_all (r ∷ rs) s = apply_all rs (apply_record r s)

pub length-id_bytes :
    (ids : List BlockId) → All IsId ids → length (concat_map id_bytes ids) ≡ length ids * 32
unfolding concat_map
length-id_bytes [] h = refl
length-id_bytes (id ∷ ids) h =
    omega (arith, length-append id (concat_map id_bytes ids), h.0.size, length-id_bytes ids h.1)

pub length-payload_of : (r : Record) → IsRecord r → length (payload_of r) ≤ max_record_bytes
unfolding payload_of
length-payload_of (insert sid b) (_, _, h) = omega (arith, length-canonical_bytes b)
length-payload_of (refer sid id) (_, h) = omega (arith, h.size)
length-payload_of (seed sid ids root) (_, hi, hr, h) = omega (
  arith,
  length-append (to_le 4 (length ids)) (concat_map id_bytes ids ++ root),
  length-append (concat_map id_bytes ids) root,
  length-to_le 4 (length ids),
  length-id_bytes ids hi,
  hr.size,
)
length-payload_of (content sid b) (_, _, h) = omega (arith, length-canonical_bytes b)

seed_ids-concat_map :
    (pre : Bytes) (ids : List BlockId) (rest : Bytes) (i : ℕ)
    → length pre ≡ 4 + i * 32
    → All IsId ids
    → seed_ids (length ids) i (pre ++ (concat_map id_bytes ids ++ rest)) ≡ ids
unfolding seed_ids concat_map
seed_ids-concat_map pre [] rest i h hi = refl
seed_ids-concat_map pre (id ∷ ids) rest i h hi =
    let width : 4 + i * 32 + 32 - (4 + i * 32) ≡ 32 = omega arith in
    let whole : pre ++ ((id ++ concat_map id_bytes ids) ++ rest)
        ≡ (pre ++ id) ++ (concat_map id_bytes ids ++ rest) =
      simp append_assoc in
    let next : length (pre ++ id) ≡ 4 + (i + 1) * 32 =
      omega (arith, length-append pre id, h, hi.0.size) in
    let first : take 32 (drop (4 + i * 32) (pre ++ ((id ++ concat_map id_bytes ids) ++ rest)))
        ≡ id =
      rw
        (drop-append_len (4 + i * 32) pre ((id ++ concat_map id_bytes ids) ++ rest) h, append_assoc)
        (take-append_len 32 id (concat_map id_bytes ids ++ rest) hi.0.size) in
    rw (width, first, whole, seed_ids-concat_map (pre ++ id) ids rest (i + 1) next hi.1)

-- The payload of a SEED record, read back.
module _ (ids : List BlockId) (root : MerkleRoot) (hi : All IsId ids) (hr : IsId root)
    (h : length ids * 32 + 36 ≤ max_record_bytes) where
  abbrev pub seed_payload : Bytes
  seed_payload = to_le 4 (length ids) ++ (concat_map id_bytes ids ++ root)

  pub length-seed_payload : length seed_payload ≡ length ids * 32 + 36
  length-seed_payload = omega (
    arith,
    length-append (to_le 4 (length ids)) (concat_map id_bytes ids ++ root),
    length-append (concat_map id_bytes ids) root,
    length-to_le 4 (length ids),
    length-id_bytes ids hi,
    hr.size,
  )

  seed_count : from_le (slice 0 4 seed_payload) ≡ length ids
  seed_count =
      rw
        (take-append_len 4 (to_le 4 (length ids)) (concat_map id_bytes ids ++ root)
          (length-to_le 4 (length ids)))
        (from_le-to_le 4 (length ids) (omega arith))

  seed_root : slice (4 + length ids * 32) (4 + length ids * 32 + 32) seed_payload ≡ root
  seed_root =
      let n = length ids * 32 in
      let width : 4 + n + 32 - (4 + n) ≡ 32 = omega arith in
      let tail : drop (4 + n) seed_payload ≡ root =
        sym (drop-drop n 4 seed_payload)
        ∙ rw
            (drop-append_len 4 (to_le 4 (length ids)) (concat_map id_bytes ids ++ root)
              (length-to_le 4 (length ids)))
            (drop-append_len n (concat_map id_bytes ids) root (length-id_bytes ids hi)) in
      let all : take 32 root ≡ root = rw append-nil at (take-append_len 32 root [] hr.size) in
      rw (width, tail) all

  seed_fits :
      fits (and_then (checked_mul (length ids) 32) (λ n. checked_add n 36)) (length seed_payload)
      ≡ true
  seed_fits = ground (arith, length-seed_payload)

  seed_ids_lem : seed_ids (length ids) 0 seed_payload ≡ ids
  seed_ids_lem =
      seed_ids-concat_map (to_le 4 (length ids)) ids root 0
        (omega (arith, length-to_le 4 (length ids))) hi

  replay_seed-payload :
      (blake3 : Blake3) (disk : Disk) (sid : ℕ) (s : ContentStore)
      → replay_seed blake3 disk sid seed_payload s ≡ seed_session blake3 disk sid ids root s
  unfolding replay_seed
  replay_seed-payload blake3 disk sid s =
      let long : leb 4 (length seed_payload) ≡ true = ground (arith, length-seed_payload) in
      rw (long, seed_count, seed_fits, seed_ids_lem, seed_root)

module _ (blake3 : Blake3) (disk : Disk) (sid : ℕ) (s : ContentStore) where
  parsed_back : (b : Block) → IsBlock b → from_canonical (canonical_bytes b) ≡ ok b
  parsed_back b valid = rw append-nil at (from_canonical-canonical_bytes b valid [])

  replay_insert-payload :
      (b : Block)
      → IsBlock b
      → replay_insert blake3 disk sid (canonical_bytes b) s ≡ (insert_block blake3 disk sid b s).0
  unfolding replay_insert
  replay_insert-payload b valid = rw (parsed_back b valid, replay_insert)

  replay_content-payload :
      (b : Block)
      → IsBlock b
      → replay_content blake3 disk sid (canonical_bytes b) s ≡ (store_content blake3 disk sid b s).0
  unfolding replay_content
  replay_content-payload b valid = rw (parsed_back b valid, replay_content)

  replay_reference-payload :
      (id : BlockId)
      → IsId id
      → replay_reference blake3 disk sid id s ≡ (reference blake3 disk sid id s).0
  unfolding replay_reference
  replay_reference-payload id h =
      let size : (length id == 32) ≡ true = ground (arith, h.size) in rw size

-- Replaying the payload of a record that the writer accepts is the store's own operation.
pub replay_record-payload :
    (blake3 : Blake3) (disk : Disk) (r : Record) (s : ContentStore)
    → IsRecord r
    → replay_record blake3 disk (session_of r) (variant_of r) (payload_of r) s
      ≡ apply_record blake3 disk r s
unfolding replay_record apply_record payload_of
replay_record-payload blake3 disk (insert sid b) s (_, valid, _) =
    replay_insert-payload blake3 disk sid s b valid
replay_record-payload blake3 disk (refer sid id) s (_, h) =
    replay_reference-payload blake3 disk sid s id h
replay_record-payload blake3 disk (seed sid ids root) s (_, hi, hr, h) =
    replay_seed-payload ids root hi hr h blake3 disk sid s
replay_record-payload blake3 disk (content sid b) s (_, valid, _) =
    replay_content-payload blake3 disk sid s b valid
