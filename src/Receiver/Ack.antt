-- ===== src/Receiver/Ack.antt =====
-- The invariant along every frame and every restart, and what an acknowledgement promises.
use dlr.Prelude.{
  ℕ, ◌==◌, ◌≡◌, refl, ◌∙◌, arith, List, [], ◌∷◌, length, concat_map, Option, none, some, true,
  Bool-cases, Option-cases, inl, inr, nat_eq, ==_iff,
}
use dlr.Prelude.Assoc.{Assoc, lookup, keys}
use dlr.Prelude.Results.{Result, ok, Result-cases}
use dlr.Core.Blake3.{Blake3}
use dlr.Core.Block.{Block, BlockId}
use dlr.Core.Merkle.{MerkleRoot}
use dlr.Core.Frame.{
  AckFrame, Frame, append, resync, bulk, ack, missing, BulkFrame, ResyncFrame, AppendFrame,
}
use dlr.Core.Wal.{Disk}
use dlr.Core.Store.{
  ContentStore, SessionLog, is_some, contains, session_root, session_ids, session_list,
}
use dlr.Receiver.{
  Codec, Decoding, decoded, underdetermined, decode_failed, ReceiverError, recover_blocks,
  parse_stream, Receiver, SessionState, mem, handle_append, session_entry, is_empty, missing_ids,
  without_all, recover_sessions, new_receiver,
}
use dlr.Receiver.Sync.{
  complete_bulk, handle_bulk, finish_bulk, handle_resync, handle_frame, with_decoder, decoder_entry,
  add_symbols, chunk_bytes, ids_of,
}
use dlr.Receiver.Membership.{mem-missing_ids}
use dlr.Receiver.Append.{handle_append-Accepted}
use dlr.Receiver.Complete.{
  IsComplete, IsComplete-stored, SamePending, handle_append-pending, handle_append-IsComplete,
  handle_resync-IsComplete,
}
use dlr.Receiver.Bulk.{handle_bulk-IsComplete}
use dlr.Receiver.Entries.{session_entry-insert, session_entry-insert_self}

ok-some :
    (o : Option MerkleRoot) (root : MerkleRoot)
    → ◌≡◌ {A = Result ReceiverError (Option MerkleRoot)} (ok o) (ok (some root))
    → o ≡ some root
ok-some o root h = ground arith

ok_some_ack :
    (b a : AckFrame)
    → ◌≡◌ {A = Result ReceiverError (Option Frame)} (ok (some (ack b))) (ok (some (ack a)))
    → b ≡ a
ok_some_ack b a h = ground arith

module _ (codec : Codec) where
  recover_sessions-pending :
      (s : ContentStore) (m : Assoc ℕ SessionLog) (sid : ℕ)
      → is_some (lookup sid m) ≡ true
      → (session_entry codec sid (recover_sessions codec s (keys m))).pending
        ≡ missing_ids s (session_ids s sid)
  unfolding recover_sessions keys lookup
  recover_sessions-pending s [] sid h = absurd (cc)
  recover_sessions-pending s ((k, l) ∷ m) sid h = elim (Bool-cases (k == sid)) [
    | inl same ↦ rw (session_entry-insert, same, (==_iff k sid).0 same)
    | inr other ↦
        rw (session_entry-insert, other) (recover_sessions-pending s m sid (rw other at h))
  ]

  -- A receiver that is started on any store, a recovered one too, has every id of every session's
  -- log stored or pending.
  pub new_receiver-IsComplete : (s : ContentStore) → IsComplete codec (new_receiver codec s)
  unfolding new_receiver session_ids session_list mem
  new_receiver-IsComplete s sid id m = elim (Option-cases (lookup sid s.sessions)) [
    | inl e ↦ absurd (cc (rw (e, session_ids) at m))
    | inr (l, e) ↦ elim (mem-missing_ids s (session_ids s sid) id m) [
      | inl c ↦ inl c
      | inr p ↦ inr (rw (recover_sessions-pending s s.sessions sid (rw e)) p)
    ]
  ]

  module _ (blake3 : Blake3) (disk : Disk) where
    -- Handling a frame of any kind, whether it succeeds or not, keeps every id of every session's log
    -- stored or pending.
    pub handle_frame-IsComplete :
        (f : Frame) (r : Receiver codec)
        → IsComplete codec r
        → IsComplete codec (handle_frame codec blake3 disk f r).0
    unfolding handle_frame
    handle_frame-IsComplete (append a) r h = handle_append-IsComplete codec blake3 disk a r h
    handle_frame-IsComplete (resync f) r h = handle_resync-IsComplete codec blake3 disk f r h
    handle_frame-IsComplete (bulk f) r h = handle_bulk-IsComplete codec blake3 disk f r h
    handle_frame-IsComplete (ack a) r h = h
    handle_frame-IsComplete (missing m) r h = h

    -- A session without pending blocks, and its root.
    abbrev Synced : ℕ → MerkleRoot → Receiver codec → Type 0
    Synced sid root r =
        (root ≡ session_root r.store sid)
        × (is_empty (session_entry codec sid r.sessions).pending ≡ true)

    complete_bulk-Synced :
        (f : BulkFrame) (found : List (Block × BlockId)) (st : SessionState codec)
        (r : Receiver codec) (root : MerkleRoot)
        → (complete_bulk codec blake3 disk f found st r).1 ≡ some root
        → Synced f.session_id root (complete_bulk codec blake3 disk f found st r).0
    unfolding complete_bulk
    complete_bulk-Synced f found st r root h =
        elim (Bool-cases (is_empty (without_all (ids_of found) st.pending))) [
          | inr e ↦ absurd (cc (rw (e, complete_bulk) at h))
          | inl e ↦ (ground (arith, h, e), rw session_entry-insert_self e)
        ]

    finish_bulk-Synced :
        (f : BulkFrame) (st : SessionState codec) (d : codec.Decoder) (decoding : Decoding)
        (r : Receiver codec) (root : MerkleRoot)
        → (finish_bulk codec blake3 disk f st d decoding r).1 ≡ ok (some root)
        → Synced f.session_id root (finish_bulk codec blake3 disk f st d decoding r).0
    unfolding finish_bulk
    finish_bulk-Synced f st d underdetermined r root h = absurd (cc)
    finish_bulk-Synced f st d decode_failed r root h = absurd (cc)
    finish_bulk-Synced f st d (decoded symbols) r root h =
        let flat = concat_map chunk_bytes symbols in
        elim (Result-cases (recover_blocks codec blake3 (parse_stream (length flat) flat))) [
          | inr (e, p) ↦ absurd (cc (rw (p, finish_bulk) at h))
          | inl (found, p) ↦
              rw (p, finish_bulk)
                (complete_bulk-Synced f found (with_decoder codec f.generation d st) r root
                  (ok-some _ root (rw (p, finish_bulk) at h)))
        ]

    handle_bulk-Synced :
        (f : BulkFrame) (r : Receiver codec) (root : MerkleRoot)
        → (handle_bulk codec blake3 disk f r).1 ≡ ok (some root)
        → Synced f.session_id root (handle_bulk codec blake3 disk f r).0
    unfolding handle_bulk
    handle_bulk-Synced f r root h =
        let st = session_entry codec f.session_id r.sessions in
        let (d, added) = add_symbols codec f.symbols (decoder_entry codec f st) in
        elim (Bool-cases added) [
          | inl e ↦
              rw (e, handle_bulk)
                (finish_bulk-Synced f st (codec.decode d).0 (codec.decode d).1 r root
                  (rw (e, handle_bulk) at h))
          | inr e ↦ absurd (cc (rw (e, handle_bulk) at h))
        ]

    handle_append-Synced :
        (f : AppendFrame) (r : Receiver codec) (a : AckFrame)
        → (handle_append codec blake3 disk f r).1 ≡ ok a
        → Synced a.session_id a.root (handle_append codec blake3 disk f r).0
    unfolding SamePending
    handle_append-Synced f r a h =
        let (items, _, acc) = handle_append-Accepted codec blake3 disk f r a h in
        rw acc.session
          (acc.current, rw (handle_append-pending codec blake3 disk f r f.session_id) acc.synced)

    handle_resync-Synced :
        (f : ResyncFrame) (r : Receiver codec)
        → is_empty (handle_resync codec blake3 disk f r).1 ≡ true
        → is_empty
            (session_entry codec f.session_id
              (handle_resync codec blake3 disk f r).0.sessions).pending
          ≡ true
    unfolding handle_resync
    handle_resync-Synced f r h = rw session_entry-insert_self h

    handle_frame-Synced :
        (f : Frame) (r : Receiver codec) (a : AckFrame)
        → (handle_frame codec blake3 disk f r).1 ≡ ok (some (ack a))
        → Synced a.session_id a.root (handle_frame codec blake3 disk f r).0
    unfolding handle_frame
    handle_frame-Synced (append f) r a h =
        elim (Result-cases (handle_append codec blake3 disk f r).1) [
          | inr (e, p) ↦ absurd (cc (rw (p, handle_frame) at h))
          | inl (b, p) ↦
              let same : b ≡ a = ok_some_ack b a (rw (p, handle_frame) at h) in
              handle_append-Synced f r a (p ∙ rw same)
        ]
    handle_frame-Synced (resync f) r a h =
        elim (Bool-cases (is_empty (handle_resync codec blake3 disk f r).1)) [
          | inr e ↦ absurd (cc (rw (e, handle_frame) at h))
          | inl e ↦
              let same = ok_some_ack _ a (rw (e, handle_frame) at h) in
              rw (← same) (refl, handle_resync-Synced f r e)
        ]
    handle_frame-Synced (bulk f) r a h = elim (Result-cases (handle_bulk codec blake3 disk f r).1) [
      | inr (e, p) ↦ absurd (cc (rw (p, handle_frame) at h))
      | inl (none, p) ↦ absurd (cc (rw (p, handle_frame) at h))
      | inl (some root, p) ↦
          let same = ok_some_ack _ a (rw (p, handle_frame) at h) in
          rw (← same) (handle_bulk-Synced f r root p)
    ]
    handle_frame-Synced (ack b) r a h = absurd (cc)
    handle_frame-Synced (missing m) r a h = absurd (cc)

    -- If every id of every session's log is stored or pending when a frame comes in, then an ACK in
    -- answer to the frame, of whatever kind it is, carries the root of the session as the store has it
    -- after the frame, and every id of that session's log is stored.
    pub handle_frame_acked :
        (f : Frame) (r : Receiver codec) (a : AckFrame)
        → IsComplete codec r
        → (handle_frame codec blake3 disk f r).1 ≡ ok (some (ack a))
        → (a.root ≡ session_root (handle_frame codec blake3 disk f r).0.store a.session_id)
          × ((id : BlockId)
              → mem id (session_ids (handle_frame codec blake3 disk f r).0.store a.session_id)
                ≡ true
              → contains (handle_frame codec blake3 disk f r).0.store id ≡ true)
    handle_frame_acked f r a h e =
        let (root, synced) = handle_frame-Synced f r a e in
        let after = handle_frame-IsComplete f r h in
        (root, λ id m. IsComplete-stored codec _ a.session_id id after synced m)
