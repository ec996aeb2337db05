-- ===== src/Tests/Turns.antt =====
-- Two turns from a shim to a receiver whose compressor passes everything through.
use dlr.Prelude.{
  ℕ, ◌≡◌, ◌≢◌, refl, List, [], ◌∷◌, some, true, false, map, concat_map, bytes_eq, bytes_eq_iff, ◌⊎◌,
  ◌≤◌, length,
}
use dlr.Prelude.Assoc
use dlr.Prelude.Results.{err}
use dlr.Core.Bytes.{Bytes, to_le, from_le}
use dlr.Core.Block.{Block, to_byte, header, block_id, canonical_into}
use dlr.Core.Canonical.{canonical_bytes, canonical_bytes_and_id}
use dlr.Core.Canonical.Laws.{IsBlock}
use dlr.Core.Frame.{AppendFrame}
use dlr.Core.Merkle.{root_zero, append_root, root_over}
use dlr.Core.Store.{new_store, contains, session_root, session_ids, session_list}
use dlr.Receiver.{new_receiver, recover_sessions, session_entry, handle_append, base_root_mismatch}
use dlr.Shim.{
  Packer, Filter, SessionShim, Host, new_session, advance, ingest_blocks, ingest_turn,
  ingest_coalesced, apply_ack,
}
use dlr.Shim.Roots.{Reaches, started, ingested, IsRooted, Reaches-IsRooted, prefix_root}
use dlr.Shim.Ack.{Advanced, apply_ack_lem}
use dlr.Shim.Emit.{Packs}
use dlr.Shim.Exchange.{Link, Synced, Delivered, exchanges, exchanges-Delivered}
use dlr.Shim.Pipelined.{ingest_turn_pipelined}
use dlr.Shim.Bulk.{record_of, chunk_records}
use dlr.Shim.Chunks.{Grouped, chunk_records-Grouped}
use dlr.Shim.Coalesced.{ingest_each, ingest_coalesced-each}
use dlr.Tests.{toy_blake3, toy_disk, hello, call, hello-IsBlock, call-IsBlock}
use dlr.Tests.Session.{toy_codec}

abbrev plain_packer : Packer
plain_packer = record { Compressor = ℕ; with_level = λ level c. level; compress = λ c x. some x }

-- A filter that never knows better than to ask the store.
abbrev open_filter : Filter
open_filter = record { State = ℕ; contains = λ id n. true; insert = λ id n. n }

abbrev start : SessionShim plain_packer
start = new_session plain_packer 1 19

abbrev empty_host : Host plain_packer open_filter
empty_host = record { store = new_store; seen = 0 }

abbrev link : Link plain_packer open_filter toy_codec toy_blake3 toy_disk
link = record { shim = start; host = empty_host; receiver = new_receiver toy_codec new_store }

link-Synced : Synced plain_packer open_filter toy_codec toy_blake3 toy_disk link
unfolding new_session new_receiver recover_sessions session_list session_root session_ids
    session_entry Assoc.lookup Assoc.keys contains
link-Synced = record {
  base = refl;
  root = refl;
  log = refl;
  idle = refl;
  covered = λ id c. absurd (cc);
}

plain-Packs :
    (c : ℕ) (b : Block) → IsBlock b → Packs plain_packer open_filter toy_codec toy_blake3 c b
plain-Packs c b valid = record {
  valid = valid;
  packed = canonical_bytes b;
  packs = refl;
  unpacks = refl;
}

abbrev two_turns : List (List Block)
two_turns = (hello ∷ hello ∷ []) ∷ (call ∷ hello ∷ []) ∷ []

exchanges-Delivered_example :
    Delivered plain_packer open_filter toy_codec toy_blake3 toy_disk
      (concat_map (λ bs. bs) two_turns)
      link
      (exchanges plain_packer open_filter toy_codec toy_blake3 toy_disk two_turns link)
exchanges-Delivered_example =
    exchanges-Delivered plain_packer open_filter toy_codec toy_blake3 toy_disk two_turns link
      link-Synced
      (
        (
          plain-Packs start.append_compressor hello hello-IsBlock,
          (plain-Packs start.append_compressor hello hello-IsBlock, tt),
        ),
        (
          (
            plain-Packs start.append_compressor call call-IsBlock,
            (plain-Packs start.append_compressor hello hello-IsBlock, tt),
          ),
          tt,
        ),
      )

abbrev ingested_start : SessionShim plain_packer
ingested_start =
    (ingest_turn plain_packer open_filter toy_blake3 toy_disk (hello ∷ []) start empty_host).0

ingested-Reaches : Reaches plain_packer open_filter toy_blake3 toy_disk ingested_start
ingested-Reaches = ingested start empty_host (hello ∷ []) (started 1 19)

Reaches-IsRooted_example : IsRooted plain_packer open_filter toy_blake3 toy_disk ingested_start
Reaches-IsRooted_example =
    Reaches-IsRooted plain_packer open_filter toy_blake3 toy_disk ingested_start ingested-Reaches

apply_ack_lem_example :
    (((apply_ack plain_packer toy_blake3 (7 ∷ []) ingested_start).1 ≡ true)
      × Advanced plain_packer open_filter toy_blake3 toy_disk
          (7 ∷ [])
          ingested_start
          (apply_ack plain_packer toy_blake3 (7 ∷ []) ingested_start).0)
    ⊎ (((apply_ack plain_packer toy_blake3 (7 ∷ []) ingested_start).1 ≡ false)
        × ((apply_ack plain_packer toy_blake3 (7 ∷ []) ingested_start).0 ≡ ingested_start)
        × ((n : ℕ)
            → 1 ≤ n
            → n ≤ length ingested_start.ids
            → bytes_eq (prefix_root toy_blake3 n ingested_start.ids) (7 ∷ []) ≡ false))
apply_ack_lem_example =
    apply_ack_lem plain_packer open_filter toy_blake3 toy_disk (7 ∷ []) ingested_start (
      Reaches-IsRooted plain_packer open_filter toy_blake3 toy_disk ingested_start ingested-Reaches)

abbrev second_turn : SessionShim plain_packer × Host plain_packer open_filter × AppendFrame
second_turn =
    ingest_turn plain_packer open_filter toy_blake3 toy_disk (call ∷ []) ingested_start
      (ingest_turn plain_packer open_filter toy_blake3 toy_disk (hello ∷ []) start empty_host).1

start_moves : ingested_start.root ≢ start.root
unfolding ingest_turn ingest_blocks advance new_session append_root root_zero canonical_bytes_and_id
    to_byte to_le from_le
start_moves e = cc ((bytes_eq_iff ingested_start.root start.root).1 e)

second_leads_elsewhere :
    root_over toy_blake3 start.root (map (block_id toy_blake3) (call ∷ [])) ≢ ingested_start.root
unfolding ingest_turn ingest_blocks advance new_session append_root root_zero root_over
    canonical_bytes_and_id to_byte to_le from_le block_id canonical_into header
second_leads_elsewhere e = cc (
    (bytes_eq_iff (root_over toy_blake3 start.root (map (block_id toy_blake3) (call ∷ [])))
        ingested_start.root).1
      e)

ingest_turn_pipelined_example :
    (handle_append toy_codec toy_blake3 toy_disk second_turn.2
      (handle_append toy_codec toy_blake3 toy_disk
        (ingest_turn plain_packer open_filter toy_blake3 toy_disk (hello ∷ []) start empty_host).2
        link.receiver).0).1
    ≡ err (base_root_mismatch second_turn.2.session_id start.root ingested_start.root)
ingest_turn_pipelined_example =
    ingest_turn_pipelined plain_packer open_filter toy_codec toy_blake3 toy_disk (hello ∷ [])
      (call ∷ []) link link-Synced (plain-Packs start.append_compressor hello hello-IsBlock, tt)
      (plain-Packs start.append_compressor call call-IsBlock, tt) start_moves second_leads_elsewhere

abbrev packed : List Bytes
packed = (0 ∷ 5 ∷ []) ∷ (0 ∷ 6 ∷ 7 ∷ []) ∷ (1 ∷ []) ∷ []

chunk_records-Grouped_example : Grouped 13 packed (chunk_records 13 (map record_of packed) [])
chunk_records-Grouped_example = chunk_records-Grouped 13 packed

ingest_coalesced-each_example :
    (
      (ingest_coalesced plain_packer open_filter toy_blake3 toy_disk two_turns start empty_host).0,
      (ingest_coalesced plain_packer open_filter toy_blake3 toy_disk two_turns start empty_host).1,
      (ingest_coalesced plain_packer open_filter toy_blake3 toy_disk two_turns start
          empty_host).2.blocks,
    )
    ≡ ingest_each plain_packer open_filter toy_blake3 toy_disk two_turns start empty_host
ingest_coalesced-each_example =
    ingest_coalesced-each plain_packer open_filter toy_blake3 toy_disk two_turns start empty_host
