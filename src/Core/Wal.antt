-- ===== src/Core/Wal.antt =====
-- crates/core/src/wal.rs: the record writer of the write-ahead log. `Replay` models the reader;
-- the log's contents are the bytes that were handed to the file, in order.
pub mod Replay
pub mod Records
pub mod Scan
pub mod Torn
pub mod Append
use dlr.Prelude.{
  ℕ, zero, suc, ◌+◌, ◌*◌, ◌^◌, ◌≤◌, ◌<◌, ◌≡◌, List, [], ◌∷◌, ◌++◌, length, map, Option, none, some,
  ltb, leb, if◌then◌else◌, Bool,
}
use dlr.Prelude.Results.{Result, ok, err, ◌>>=◌, ok_or}
use dlr.Core.Bytes.{Bytes, to_le}
use dlr.Core.Block.{BlockId}
use dlr.Core.Merkle.{MerkleRoot}
use dlr.Core.Canonical.{checked_add}

-- An `io::Error`: those that this code raises, and the operating system's.
pub data IoError : Type 0 where
  invalid_input invalid_data : IoError
  os : ℕ → IoError

-- The file behind its buffer, which the code only calls. `write_all` gives the contents after the
-- call, and the error if there was one; without an error the chunk stands behind what was there.
pub record Disk : Type 0 where
  pub write_all : Bytes → Bytes → Bytes × Option IoError
  pub flush : Bytes → Bool → Option IoError
  pub write_all-append :
      (file chunk : Bytes)
      → (write_all file chunk).1 ≡ none
      → (write_all file chunk).0 ≡ file ++ chunk

abbrev pub var_insert : ℕ
var_insert = 0

abbrev pub var_reference : ℕ
var_reference = 1

abbrev pub var_seed : ℕ
var_seed = 2

abbrev pub var_content : ℕ
var_content = 3

abbrev pub header_size : ℕ
header_size = 16 + 1 + 4

-- 512 MiB
abbrev pub max_record_bytes : ℕ
max_record_bytes = 512 * 1024 * 1024

abbrev pub u32_try_from : ℕ → Option ℕ
u32_try_from n = if ltb n (2 ^ 32) then some n else none

abbrev pub checked_mul : ℕ → ℕ → Option ℕ
checked_mul a b = if ltb (a * b) (2 ^ 64) then some (a * b) else none

unfoldable pub record_len : ℕ → Result IoError ℕ
record_len len =
    if ltb max_record_bytes len then err invalid_input else ok_or (u32_try_from len) invalid_input

-- The record length and the count of a SEED of `n` ids.
unfoldable pub seed_lens : ℕ → Result IoError (ℕ × ℕ)
unfolding record_len
seed_lens n = do
  product ← ok_or (checked_mul n 32) invalid_input
  payload_len ← ok_or (checked_add product 36) invalid_input
  len ← record_len payload_len
  count ← ok_or (u32_try_from n) invalid_input
  ok (len, count)

module _ (disk : Disk) where
  open disk use {write_all}

  -- `w.write_all(a)?; w.write_all(b)?; …` under the writer's lock.
  unfoldable pub write_chunks : List Bytes → Bytes → Bytes × Option IoError
  write_chunks [] file = (file, none)
  write_chunks (c ∷ cs) file =
      let (file', e) = write_all file c in
      elim e [ some x ↦ (file', some x) | none ↦ write_chunks cs file' ]

  -- A record whose payload's length was checked, or the error of the check and no write.
  unfoldable pub write_record :
      ℕ → ℕ → Result IoError ℕ → List Bytes → Bytes → Bytes × Option IoError
  write_record session_id variant (err e) payload file = (file, some e)
  write_record session_id variant (ok len) payload file =
      write_chunks (to_le 16 session_id ∷ (variant ∷ []) ∷ to_le 4 len ∷ payload) file

  unfoldable pub append_insert : ℕ → Bytes → Bytes → Bytes × Option IoError
  append_insert session_id canonical file =
      write_record session_id var_insert (record_len (length canonical)) (canonical ∷ []) file

  unfoldable pub append_reference : ℕ → BlockId → Bytes → Bytes × Option IoError
  append_reference session_id id file = write_record session_id var_reference (ok 32) (id ∷ []) file

  unfoldable pub append_content : ℕ → Bytes → Bytes → Bytes × Option IoError
  append_content session_id canonical file =
      write_record session_id var_content (record_len (length canonical)) (canonical ∷ []) file

  unfoldable pub append_seed : ℕ → List BlockId → MerkleRoot → Bytes → Bytes × Option IoError
  unfolding seed_lens
  append_seed session_id ids root file = elim (seed_lens (length ids)) [
    | err e ↦ (file, some e)
    | ok (len, count) ↦
        write_record session_id var_seed (ok len) (to_le 4 count ∷ (ids ++ (root ∷ []))) file
  ]
