-- ===== src/Core/Wal/Replay.antt =====
-- crates/core/src/wal.rs: opening a log replays it into a store that has no log yet. A read of the
-- file that the operating system refuses is not modelled.
use dlr.Prelude.{
  ℕ, zero, suc, ◌+◌, ◌*◌, List, [], ◌∷◌, length, take, drop, Option, none, some, ltb, leb, ◌==◌,
  if◌then◌else◌, Bool, true, false,
}
use dlr.Prelude.Results.{Result, ok, err}
use dlr.Core.Bytes.{Bytes, from_le, slice}
use dlr.Core.Blake3.{Blake3}
use dlr.Core.Block.{BlockId}
use dlr.Core.Canonical.{from_canonical, byte_at, checked_add}
use dlr.Core.Store.{
  ContentStore, new_store, set_wal, insert_block, reference, seed_session, store_content,
}
use dlr.Core.Wal.{
  Disk, IoError, invalid_data, header_size, max_record_bytes, checked_mul, var_insert,
  var_reference, var_seed, var_content,
}

-- `done` is the length of the valid prefix; `out_of_fuel` is no result of the code.
pub data Replayed : Type 0 where
  done : ℕ → Replayed
  failed : IoError → Replayed
  out_of_fuel : Replayed

-- The next `n` bytes and what follows them, or a clean or partial end of the file.
unfoldable pub read_exact_or_eof : ℕ → Bytes → Option (Bytes × Bytes)
read_exact_or_eof n r = if ltb (length r) n then none else some (take n r, drop n r)

-- `(0..count).map(|i| payload[4 + i * 32..4 + i * 32 + 32])`, from round `i` on.
unfoldable pub seed_ids : ℕ → ℕ → Bytes → List BlockId
seed_ids zero i payload = []
seed_ids (suc count) i payload =
    slice (4 + i * 32) (4 + i * 32 + 32) payload ∷ seed_ids count (i + 1) payload

-- `need == Some(payload.len())`
abbrev pub fits : Option ℕ → ℕ → Bool
fits none n = false
fits (some need) n = need == n

abbrev pub and_then : Option ℕ → (ℕ → Option ℕ) → Option ℕ
and_then none f = none
and_then (some n) f = f n

module _ (blake3 : Blake3) (disk : Disk) where
  unfoldable pub replay_insert : ℕ → Bytes → ContentStore → ContentStore
  replay_insert session_id payload s = elim (from_canonical payload) [
    | ok b ↦ (insert_block blake3 disk session_id b s).0
    | err e ↦ s
  ]

  unfoldable pub replay_reference : ℕ → Bytes → ContentStore → ContentStore
  replay_reference session_id payload s =
      if length payload == 32 then (reference blake3 disk session_id payload s).0 else s

  unfoldable pub replay_seed : ℕ → Bytes → ContentStore → ContentStore
  replay_seed session_id payload s =
      if leb 4 (length payload)
      then (let count = from_le (slice 0 4 payload) in
          let need = and_then (checked_mul count 32) (λ n. checked_add n 36) in
          if fits need (length payload)
          then seed_session blake3 disk session_id (seed_ids count 0 payload)
              (slice (4 + count * 32) (4 + count * 32 + 32) payload) s
          else s)
      else s

  unfoldable pub replay_content : ℕ → Bytes → ContentStore → ContentStore
  replay_content session_id payload s = elim (from_canonical payload) [
    | ok b ↦ (store_content blake3 disk session_id b s).0
    | err e ↦ s
  ]

  unfoldable pub replay_record : ℕ → ℕ → Bytes → ContentStore → ContentStore
  replay_record session_id variant payload s =
      if variant == var_insert
      then replay_insert session_id payload s
      else if variant == var_reference
      then replay_reference session_id payload s
      else if variant == var_seed
      then replay_seed session_id payload s
      else if variant == var_content
      then replay_content session_id payload s
      else s

  -- `position` is the reader's place in the file and `r` what is left of it.
  unfoldable pub replay : ℕ → ℕ → Bytes → ContentStore → ContentStore × Replayed
  replay zero position r s = (s, out_of_fuel)
  replay (suc fuel) position r s = elim (read_exact_or_eof header_size r) [
    | none ↦ (s, done position)
    | some (hdr, r1) ↦
        let session_id = from_le (slice 0 16 hdr) in
        let variant = byte_at hdr 16 in
        let len = from_le (slice 17 21 hdr) in
        elim (ltb max_record_bytes len) [
          | true ↦ (s, failed invalid_data)
          | false ↦ elim (read_exact_or_eof len r1) [
            | none ↦ (s, done position)
            | some (payload, r2) ↦
                replay fuel (position + header_size + len) r2
                  (replay_record session_id variant payload s)
          ]
        ]
  ]

  -- Every round reads a header at least, so one round more than the file has bytes is enough.
  -- The opened log is the valid prefix of the file.
  unfoldable pub open_wal : Bytes → ContentStore → ContentStore × Result Replayed Bytes
  open_wal file s =
      let (s', replayed) = replay (suc (length file)) 0 file s in
      elim replayed [
        | done valid_len ↦
            (s', ok (if ltb valid_len (length file) then take valid_len file else file))
        | failed e ↦ (s', err (failed e))
        | out_of_fuel ↦ (s', err out_of_fuel)
      ]

  unfoldable pub with_wal : Bytes → Result Replayed ContentStore
  with_wal file =
      let (s, opened) = open_wal file new_store in
      elim opened [ ok log ↦ ok (set_wal log s) | err e ↦ err e ]
