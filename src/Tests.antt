-- ===== src/Tests.antt =====
-- Concrete inputs: a toy digest and an in-memory file stand for the `blake3` crate and the disk, and
-- the theorems are applied to a short log, a few frames and a few buffers.
mod Session
mod Window
mod Shards
mod Turns
mod Packed
mod Coded
mod Indexes
mod Pruned
use dlr.Prelude.{
  ℕ, ◌-◌, ◌%◌, ◌^◌, ◌≤◌, ◌≡◌, ◌≢◌, refl, arith, List, [], ◌∷◌, ◌++◌, length, take, drop, All, none,
  some, append_assoc, concat_map, All-append, inl,
}
use dlr.Prelude.Assoc
use dlr.Prelude.Results.{ok, map_ok}
use dlr.Core.Bytes.{Bytes, IsBytes, to_le, from_le, length-to_le, to_le-IsBytes}
use dlr.Core.Blake3.{Blake3}
use dlr.Core.Block.{
  Block, BlockId, to_byte, IsId, message, tool_call, block_id, block_id_from_canonical,
  canonical_into, header,
}
use dlr.Core.Merkle.{append_root}
use dlr.Core.Canonical.{
  canonical_bytes, from_canonical, from_canonical_owned, canonical_bytes_and_id,
}
use dlr.Core.Canonical.Laws.{IsBlock, from_canonical-canonical_bytes}
use dlr.Core.Canonical.Inverse.{
  from_canonical_inverse, from_canonical_owned_lem, canonical_bytes_and_id_lem,
}
use dlr.Core.Frame.{
  Frame, inline, ref, append, IsFrame, encode_frame, encode_frame_block, put_u128, put_u32_le,
  tag_append,
}
use dlr.Core.Frame.Reader.{ok, panic}
use dlr.Core.Frame.Decode.{decode_frame, decode_frame_bytes, read_body}
use dlr.Core.Frame.Copied.{copy_body}
use dlr.Core.Frame.Copy.{read_body-copy}
use dlr.Core.Frame.RoundTrip.{decode_frame-encode_frame}
use dlr.Core.Frame.Prefix.{decode_frame-append, decode_frame_proper_prefix}
use dlr.Core.Frame.Panics.{decode_frame_panics_only, decode_frame_empty_entry}
use dlr.Core.Frame.Capacity.{encode_frame_capacity, length-encode_frame}
use dlr.Core.Wal.{
  Disk, append_insert, append_reference, append_seed, append_content, write_record, write_chunks,
  record_len, seed_lens,
}
use dlr.Core.Wal.Append.{Wrote, append_seed_lem}
use dlr.Core.Wal.Records.{
  Record, insert, refer, seed, content, encode_record, IsRecord, apply_record, apply_all,
  payload_of, replay_record-payload,
}
use dlr.Core.Wal.Replay.{replay_record, open_wal, with_wal}
use dlr.Core.Wal.Torn.{Cut, open_wal-encoded, open_wal-Cut}
use dlr.Core.Store.{
  ContentStore, new_store, insert_block, insert_with_id, insert_with_canonical, insert_session,
  append_log, store_block, seed_session, store_content, store_content_with_id, with_log,
  record_wal_result,
}
use dlr.Core.Store.Durable.{IsOp, SameMaps, Next, Shadow-apply_record}
use dlr.Core.Store.Recovery.{fresh, Shadow-fresh, with_wal-apply_all}
use dlr.Core.Store.Crash.{with_wal_crash}

abbrev pub toy_blake3 : Blake3
toy_blake3 = record {
  Hasher = Bytes;
  new = [];
  update = λ h a. h ++ a;
  finalize = λ h. to_le 32 (from_le h % (2 ^ 255 - 19));
  update-update = λ h a b. append_assoc h a b;
  length-finalize = λ h. length-to_le 32 (from_le h % (2 ^ 255 - 19));
  finalize-IsBytes = λ h. to_le-IsBytes 32 (from_le h % (2 ^ 255 - 19));
}

abbrev pub toy_disk : Disk
toy_disk = record {
  write_all = λ file chunk. (file ++ chunk, none);
  flush = λ file sync. none;
  write_all-append = λ file chunk h. refl;
}

abbrev pub hello : Block
hello = record { kind = message; seq = 1; payload = 104 ∷ 105 ∷ [] }

abbrev pub call : Block
call = record { kind = tool_call; seq = 2; payload = 0 ∷ 255 ∷ 7 ∷ [] }

pub hello-IsBlock : IsBlock hello
hello-IsBlock = record {
  seq = omega arith;
  bytes = (omega arith, (omega arith, tt));
  size = omega arith;
}

pub call-IsBlock : IsBlock call
call-IsBlock = record {
  seq = omega arith;
  bytes = (omega arith, (omega arith, (omega arith, tt)));
  size = omega arith;
}

abbrev id_of : ℕ → BlockId
id_of n = to_le 32 n

id_of-IsId : (n : ℕ) → IsId (id_of n)
id_of-IsId n = record { bytes = to_le-IsBytes 32 n; size = length-to_le 32 n }

ids-IsId : All IsId (id_of 5 ∷ id_of 6 ∷ [])
ids-IsId = (id_of-IsId 5, (id_of-IsId 6, tt))

abbrev hello_frame : Frame
hello_frame =
    append
      (record { session_id = 1; base_root = id_of 9; blocks = inline hello ∷ ref (id_of 5) ∷ [] })

-- A block twice, a manifest of two ids, and the content of one of them.
abbrev turns : List Record
turns =
    insert 1 hello
    ∷ insert 1 hello
    ∷ seed 2 (id_of 5 ∷ id_of 6 ∷ []) (id_of 9)
    ∷ content 2 call
    ∷ []

turns-IsOp : All IsOp turns
turns-IsOp = (
  (omega arith, hello-IsBlock),
  (
    (omega arith, hello-IsBlock),
    ((omega arith, ids-IsId, id_of-IsId 9), ((omega arith, call-IsBlock), tt)),
  ),
)

turns_clean : (apply_all toy_blake3 toy_disk turns fresh).wal_error ≡ none
unfolding apply_all apply_record insert_block insert_with_id insert_with_canonical insert_session
    append_log store_block seed_session store_content store_content_with_id with_log
    record_wal_result append_insert append_reference append_seed append_content write_record
    write_chunks record_len seed_lens canonical_bytes block_id canonical_into header to_byte
    append_root to_le from_le concat_map Assoc.lookup Assoc.insert
turns_clean = refl

with_wal-apply_all_example :
    (file : Bytes) × (s : ContentStore) × ((apply_all toy_blake3 toy_disk turns fresh).wal
      ≡ some file)
    × (with_wal toy_blake3 toy_disk file ≡ ok s)
    × SameMaps s (apply_all toy_blake3 toy_disk turns fresh)
    × (s.wal ≡ some file)
with_wal-apply_all_example = with_wal-apply_all toy_blake3 toy_disk turns turns-IsOp turns_clean

with_wal_crash_example :
    (file : Bytes) × ((apply_all toy_blake3 toy_disk turns fresh).wal ≡ some file)
    × ((n : ℕ)
        → (s : ContentStore) × (j : ℕ) × (with_wal toy_blake3 toy_disk (take n file) ≡ ok s)
          × (j ≤ 4)
          × SameMaps s (apply_all toy_blake3 toy_disk (take j turns) fresh))
with_wal_crash_example = with_wal_crash toy_blake3 toy_disk turns turns-IsOp turns_clean

hello_frame-IsFrame : IsFrame hello_frame
hello_frame-IsFrame =
    (omega arith, id_of-IsId 9, omega arith, ((omega arith, omega arith), ((id_of-IsId 5, tt), tt)))

decode_frame-encode_frame_example :
    (decode_frame (encode_frame hello_frame ++ (1 ∷ 2 ∷ [])) ≡ ok hello_frame)
    × (decode_frame_bytes (encode_frame hello_frame ++ (1 ∷ 2 ∷ [])) ≡ ok hello_frame)
decode_frame-encode_frame_example =
    decode_frame-encode_frame hello_frame (1 ∷ 2 ∷ []) hello_frame-IsFrame

-- A frame without entries, and the same with an empty one.
abbrev empty_entry : Bytes
empty_entry = tag_append ∷ (put_u128 1 ++ (id_of 9 ++ (put_u32_le 1 ++ (0 ∷ 0 ∷ 0 ∷ 0 ∷ []))))

decode_frame_empty_entry_example : decode_frame empty_entry ≡ panic
unfolding concat_map
decode_frame_empty_entry_example =
    decode_frame_empty_entry 1 (id_of 9) [] 0 (omega arith) (id_of-IsId 9) tt (omega arith)

decode_frame_panics_only_example :
    (front : Bytes) × (empty_entry ≡ tag_append ∷ (front ++ (0 ∷ 0 ∷ 0 ∷ 0 ∷ [])))
decode_frame_panics_only_example =
    decode_frame_panics_only empty_entry decode_frame_empty_entry_example

-- The frame without its last byte.
abbrev cut_frame : Bytes
cut_frame = take 112 (encode_frame hello_frame)

cut_frame-append : encode_frame hello_frame ≡ cut_frame ++ (0 ∷ [])
unfolding encode_frame encode_frame_block put_u128 put_u32_le to_le to_byte concat_map
cut_frame-append = refl

decode_frame_proper_prefix_example : decode_frame cut_frame ≢ ok hello_frame
decode_frame_proper_prefix_example =
    decode_frame_proper_prefix hello_frame hello_frame cut_frame 0 [] hello_frame-IsFrame
      cut_frame-append

read_body-copy_example : read_body 1 cut_frame cut_frame ≡ copy_body 1 cut_frame
read_body-copy_example = read_body-copy 1 cut_frame

length-encode_frame_example : length (encode_frame hello_frame) ≡ encode_frame_capacity hello_frame
length-encode_frame_example = length-encode_frame hello_frame hello_frame-IsFrame

abbrev log_records : List Record
log_records = insert 1 hello ∷ refer 1 (id_of 5) ∷ []

log_records-IsRecord : All IsRecord log_records
log_records-IsRecord =
    ((omega arith, hello-IsBlock, omega arith), ((omega arith, id_of-IsId 5), tt))

open_wal-Cut_example :
    (k : ℕ) × Cut log_records 60 k
    × (open_wal toy_blake3 toy_disk (take 60 (concat_map encode_record log_records)) new_store ≡ (
      apply_all toy_blake3 toy_disk (take k log_records) new_store,
      ok (concat_map encode_record (take k log_records)),
    ))
open_wal-Cut_example =
    open_wal-Cut toy_blake3 toy_disk log_records 60 new_store log_records-IsRecord

hello_canonical-IsBytes : IsBytes (canonical_bytes hello ++ (3 ∷ []))
unfolding canonical_bytes to_byte
hello_canonical-IsBytes =
    All-append _ (canonical_bytes hello) (3 ∷ [])
      (
        omega arith,
        All-append _ (to_le 8 1) _ (to_le-IsBytes 8 1)
            (All-append _ (to_le 8 2) hello.payload (to_le-IsBytes 8 2) hello-IsBlock.bytes),
      )
      (omega arith, tt)

from_canonical-canonical_bytes_example :
    from_canonical (canonical_bytes hello ++ (3 ∷ [])) ≡ ok hello
from_canonical-canonical_bytes_example = from_canonical-canonical_bytes hello hello-IsBlock (3 ∷ [])

from_canonical_inverse_example :
    IsBlock hello
    × (canonical_bytes hello ++ (3 ∷ [])
        ≡ canonical_bytes hello ++ drop 19 (canonical_bytes hello ++ (3 ∷ [])))
from_canonical_inverse_example =
    from_canonical_inverse (canonical_bytes hello ++ (3 ∷ [])) hello hello_canonical-IsBytes
      from_canonical-canonical_bytes_example

from_canonical_owned_lem_example :
    from_canonical_owned toy_blake3 (canonical_bytes hello ++ (3 ∷ []))
    ≡ map_ok (λ b. (b, block_id toy_blake3 b)) (from_canonical (canonical_bytes hello ++ (3 ∷ [])))
from_canonical_owned_lem_example =
    from_canonical_owned_lem toy_blake3 (canonical_bytes hello ++ (3 ∷ [])) hello_canonical-IsBytes
