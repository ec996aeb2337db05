-- ===== src/Receiver/Current.antt =====
-- An APPEND that starts from the session's current root.
use dlr.Prelude.{◌≡◌, List, [], map, true, bytes_eq_iff, nat_eq}
use dlr.Prelude.Assoc.{insert}
use dlr.Prelude.Results.{ok}
use dlr.Core.Blake3.{Blake3}
use dlr.Core.Frame.{AppendFrame}
use dlr.Core.Merkle.{root_over}
use dlr.Core.Wal.{Disk}
use dlr.Core.Store.{session_root}
use dlr.Receiver.{
  Codec, Resolved, resolved_id, Receiver, session_entry, is_empty, refs_available, resolve_blocks,
  handle_append,
}
use dlr.Receiver.Atomic.{apply_resolved_found}
use dlr.Receiver.Applied.{Applied, apply_resolved-Applied}
use dlr.Receiver.Append.{append_resolved-appended}

module _ (codec : Codec) (blake3 : Blake3) (disk : Disk) (f : AppendFrame)
    (r : Receiver codec) where
  -- The answer and the effect of an APPEND that is taken.
  pub record Taken (items : List Resolved) : Type 0 where
    pub answer :
        (handle_append codec blake3 disk f r).1
        ≡ ok (record {
          session_id = f.session_id;
          root = root_over blake3 f.base_root (map resolved_id items);
        })
    pub applied :
        Applied blake3 f.session_id
          (map resolved_id items)
          r.store
          (handle_append codec blake3 disk f r).0.store
    pub sessions :
        (handle_append codec blake3 disk f r).0.sessions
        ≡ insert f.session_id (session_entry codec f.session_id r.sessions) r.sessions

  -- An APPEND whose blocks resolve, whose references are to stored blocks or to blocks in front of
  -- them in the frame, and which starts from the root of a session that has no block pending, is
  -- acknowledged with the root over its ids from there; the session's log grows by exactly its ids,
  -- which are all stored, and nothing stored is lost.
  pub handle_append-Taken :
      (items : List Resolved)
      → resolve_blocks codec blake3 f.blocks ≡ ok items
      → refs_available r.store [] items ≡ true
      → is_empty (session_entry codec f.session_id r.sessions).pending ≡ true
      → f.base_root ≡ session_root r.store f.session_id
      → Taken items
  unfolding handle_append
  handle_append-Taken items p q idle base =
      let same = (bytes_eq_iff f.base_root (session_root r.store f.session_id)).1 base in
      let is = append_resolved-appended codec blake3 disk f r items idle same q in
      let found = apply_resolved_found codec blake3 disk f.session_id items r.store q in
      let applied = apply_resolved-Applied blake3 codec disk f.session_id items r.store found in
      record {
        answer = rw (p, q, handle_append, is, applied.root, base);
        applied = rw (p, q, handle_append, is) applied;
        sessions = rw (p, q, handle_append, is);
      }
