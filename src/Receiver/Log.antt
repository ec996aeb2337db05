-- ===== src/Receiver/Log.antt =====
-- What the runtime reads of an acknowledged session.
use dlr.Prelude.{
  ℕ, ◌≡◌, refl, arith, List, [], ◌∷◌, length, some, true, bytes_eq, bytes_eq_iff, bytes_key,
  Option-cases, inl, inr, nat_eq,
}
use dlr.Prelude.Results.{ok}
use dlr.Prelude.Assoc.{Assoc, lookup}
use dlr.Core.Blake3.{Blake3}
use dlr.Core.Block.{Block, BlockId}
use dlr.Core.Frame.{AckFrame, Frame, ack}
use dlr.Core.Wal.{Disk}
use dlr.Core.Store.{ContentStore, is_some, contains, session_ids, session_len, resolve, reconstruct}
use dlr.Receiver.{Codec, Receiver, mem}
use dlr.Receiver.Sync.{handle_frame}
use dlr.Receiver.Complete.{IsComplete}
use dlr.Receiver.Ack.{handle_frame_acked}

length-resolve :
    (blocks : Assoc BlockId Block) (ids : List BlockId)
    → ((id : BlockId) → mem id ids ≡ true → is_some (lookup id blocks) ≡ true)
    → length (resolve blocks ids) ≡ length ids
unfolding resolve mem
length-resolve blocks [] h = refl
length-resolve blocks (id ∷ ids) h = elim (Option-cases (lookup id blocks)) [
  | inl e ↦
      let self : bytes_eq id id ≡ true = (bytes_eq_iff id id).1 refl in
      absurd (cc (e, h id (rw self)))
  | inr (b, e) ↦
      let rest = length-resolve blocks ids (λ j m. h j (ground (arith, m))) in
      ground (arith, e, rest)
]

length-reconstruct :
    (s : ContentStore) (sid : ℕ)
    → ((id : BlockId) → mem id (session_ids s sid) ≡ true → contains s id ≡ true)
    → length (reconstruct s sid) ≡ session_len s sid
unfolding reconstruct session_ids session_len contains
length-reconstruct s sid h = elim (Option-cases (lookup sid s.sessions)) [
  | inl e ↦ ground (arith, e)
  | inr (l, e) ↦
      let whole = length-resolve s.blocks l.ids (rw (e, session_ids) at h) in
      ground (arith, e, whole)
]

-- If every id of every session's log is stored or pending when a frame comes in, and the answer is an
-- ACK, then reconstructing the acknowledged session afterwards gives as many blocks as its log has
-- ids: no block is left out.
pub handle_frame_whole :
    (codec : Codec) (blake3 : Blake3) (disk : Disk) (f : Frame) (r : Receiver codec) (a : AckFrame)
    → IsComplete codec r
    → (handle_frame codec blake3 disk f r).1 ≡ ok (some (ack a))
    → length (reconstruct (handle_frame codec blake3 disk f r).0.store a.session_id)
      ≡ session_len (handle_frame codec blake3 disk f r).0.store a.session_id
handle_frame_whole codec blake3 disk f r a h e =
    length-reconstruct _ a.session_id (handle_frame_acked codec blake3 disk f r a h e).1
