-- ===== src/Tests/Session.antt =====
-- A session on a receiver whose compressor and fountain code pass everything through.
use dlr.Prelude.{◌≡◌, ◌≢◌, refl, List, [], ◌∷◌, ◌++◌, some, true, bytes_eq_iff}
use dlr.Prelude.Assoc
use dlr.Prelude.Results.{ok, err}
use dlr.Core.Bytes.{Bytes, to_le, from_le}
use dlr.Core.Block.{BlockId, to_byte, from_byte, header, block_id, canonical_into}
use dlr.Core.Canonical.{canonical_bytes, from_canonical_owned, max_block_payload_bytes}
use dlr.Core.Merkle.{root_zero, append_root, root_over}
use dlr.Core.Frame.{inline, ref, AppendFrame, AckFrame, append, ack}
use dlr.Core.Store.{
  new_store, contains, session_root, session_ids, session_list, insert_with_id,
  insert_with_canonical, reference, insert_session, append_log, store_block, with_log,
}
use dlr.Receiver.{
  Codec, decoded, missing_ref_error, Resolved, resolved_id, Receiver, mem, new_receiver,
  recover_sessions, session_entry, unpack, resolve_block, resolve_blocks, refs_available,
  target_root, apply_resolved, append_resolved, handle_append,
}
use dlr.Receiver.Sync.{handle_frame}
use dlr.Receiver.Atomic.{handle_append_refused}
use dlr.Receiver.Append.{Accepted, handle_append-Accepted}
use dlr.Receiver.Replay.{handle_append_twice}
use dlr.Receiver.Complete.{IsComplete}
use dlr.Prelude.{length}
use dlr.Core.Store.{session_len, reconstruct}
use dlr.Receiver.Log.{handle_frame_whole}
use dlr.Receiver.Ack.{new_receiver-IsComplete, handle_frame-IsComplete, handle_frame_acked}
use dlr.Tests.{toy_blake3, toy_disk, hello, id_of}

abbrev pub toy_codec : Codec
toy_codec = record {
  Decoder = List Bytes;
  new_decoder = λ k symbol_size. [];
  add = λ s d. (d ++ (s ∷ []), true);
  decode = λ d. (d, decoded d);
  decompress = λ comp. some comp;
}

abbrev empty_receiver : Receiver toy_codec
empty_receiver = new_receiver toy_codec new_store

abbrev hello_id : BlockId
hello_id = block_id toy_blake3 hello

-- A block, and a reference to it in the same frame.
abbrev turn : AppendFrame
turn = record {
  session_id = 1;
  base_root = root_zero;
  blocks = inline (record hello { payload = canonical_bytes hello }) ∷ ref hello_id ∷ [];
}

abbrev turn_ack : AckFrame
turn_ack = record {
  session_id = 1;
  root = root_over toy_blake3 root_zero (hello_id ∷ hello_id ∷ []);
}

turn_accepted : (handle_append toy_codec toy_blake3 toy_disk turn empty_receiver).1 ≡ ok turn_ack
unfolding handle_append resolve_blocks resolve_block unpack refs_available append_resolved
    apply_resolved target_root session_entry new_receiver recover_sessions mem resolved_id contains
    session_root session_list insert_with_id insert_with_canonical reference insert_session
    append_log store_block with_log root_over append_root root_zero block_id canonical_into header
    canonical_bytes from_canonical_owned max_block_payload_bytes to_byte from_byte to_le from_le
    Assoc.lookup Assoc.insert Assoc.keys
turn_accepted = refl

turn_moves : turn_ack.root ≢ root_zero
unfolding root_over append_root root_zero block_id canonical_into header to_byte to_le from_le
turn_moves e = cc ((bytes_eq_iff turn_ack.root root_zero).1 e)

-- A reference to a block that the receiver does not have.
abbrev dangling : AppendFrame
dangling = record { session_id = 1; base_root = root_zero; blocks = ref (id_of 5) ∷ [] }

dangling_refused :
    (handle_append toy_codec toy_blake3 toy_disk dangling empty_receiver).1 ≡ err missing_ref_error
unfolding handle_append resolve_blocks resolve_block refs_available contains new_receiver
    recover_sessions mem Assoc.lookup session_list to_le
dangling_refused = refl

handle_append_refused_example :
    (handle_append toy_codec toy_blake3 toy_disk dangling empty_receiver).0.store
    ≡ empty_receiver.store
handle_append_refused_example =
    handle_append_refused toy_codec toy_blake3 toy_disk dangling empty_receiver missing_ref_error
      dangling_refused

handle_append-Accepted_example :
    (items : List Resolved) × (resolve_blocks toy_codec toy_blake3 turn.blocks ≡ ok items)
    × Accepted toy_codec toy_blake3 toy_disk turn empty_receiver items
        (handle_append toy_codec toy_blake3 toy_disk turn empty_receiver).0
        turn_ack
handle_append-Accepted_example =
    handle_append-Accepted toy_codec toy_blake3 toy_disk turn empty_receiver turn_ack turn_accepted

abbrev after_turn : Receiver toy_codec
after_turn = (handle_append toy_codec toy_blake3 toy_disk turn empty_receiver).0

handle_append_twice_example :
    ((handle_append toy_codec toy_blake3 toy_disk turn after_turn).0.store ≡ after_turn.store)
    × ((handle_append toy_codec toy_blake3 toy_disk turn after_turn).1 ≡ ok turn_ack)
handle_append_twice_example =
    handle_append_twice toy_codec toy_blake3 toy_disk turn empty_receiver turn_ack turn_accepted
      turn_moves

empty-IsComplete : IsComplete toy_codec empty_receiver
empty-IsComplete = new_receiver-IsComplete toy_codec new_store

handle_frame-IsComplete_example :
    IsComplete toy_codec (handle_frame toy_codec toy_blake3 toy_disk (append turn) empty_receiver).0
handle_frame-IsComplete_example =
    handle_frame-IsComplete toy_codec toy_blake3 toy_disk (append turn) empty_receiver
      empty-IsComplete

turn_answered :
    (handle_frame toy_codec toy_blake3 toy_disk (append turn) empty_receiver).1
    ≡ ok (some (ack turn_ack))
unfolding handle_frame
turn_answered = rw (turn_accepted, handle_frame)

handle_frame_acked_example :
    (turn_ack.root
      ≡ session_root
          (handle_frame toy_codec toy_blake3 toy_disk (append turn) empty_receiver).0.store
          1)
    × ((id : BlockId)
        → mem id (
            session_ids
              (handle_frame toy_codec toy_blake3 toy_disk (append turn) empty_receiver).0.store
              1)
          ≡ true
        → contains
            (handle_frame toy_codec toy_blake3 toy_disk (append turn) empty_receiver).0.store
            id
          ≡ true)
handle_frame_acked_example =
    handle_frame_acked toy_codec toy_blake3 toy_disk (append turn) empty_receiver turn_ack
      empty-IsComplete turn_answered

handle_frame_whole_example :
    length (
      reconstruct
        (handle_frame toy_codec toy_blake3 toy_disk (append turn) empty_receiver).0.store
        1)
    ≡ session_len
        (handle_frame toy_codec toy_blake3 toy_disk (append turn) empty_receiver).0.store
        1
handle_frame_whole_example =
    handle_frame_whole toy_codec toy_blake3 toy_disk (append turn) empty_receiver turn_ack
      empty-IsComplete turn_answered
