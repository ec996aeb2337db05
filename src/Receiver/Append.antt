-- ===== src/Receiver/Append.antt =====
-- An accepted APPEND, and the same APPEND again after its ACK was lost.
use dlr.Prelude.{
  ℕ, ◌≡◌, ◌≢◌, refl, sym, ◌∙◌, arith, List, [], map, Bool, true, false, if◌then◌else◌, bytes_eq,
  bytes_eq_iff, Bool-cases, inl, inr, ◌⊎◌, nat_eq,
}
use dlr.Prelude.Assoc
use dlr.Prelude.Results.{Result, ok, err, Result-cases}
use dlr.Core.Blake3.{Blake3}
use dlr.Core.Block.{BlockId}
use dlr.Core.Merkle.{MerkleRoot, root_over}
use dlr.Core.Frame.{AppendFrame, AckFrame}
use dlr.Core.Wal.{Disk}
use dlr.Core.Store.{ContentStore, session_root}
use dlr.Receiver.{
  Codec, ReceiverError, Resolved, resolved_id, Receiver, refs_available, resolve_blocks,
  apply_resolved, append_resolved, handle_append, target_root, session_entry, is_empty,
  base_root_mismatch, cold_start_in_progress,
}
use dlr.Receiver.Atomic.{apply_resolved_found}
use dlr.Receiver.Applied.{Applied, apply_resolved-Applied, target_root-root_over}

module _ (codec : Codec) (blake3 : Blake3) (disk : Disk) (f : AppendFrame)
    (r : Receiver codec) where
  abbrev pub pending_of : List BlockId
  pending_of = (session_entry codec f.session_id r.sessions).pending

  -- What an ACK of an APPEND says, for the frame's resolved blocks.
  pub record Accepted (items : List Resolved) (r' : Receiver codec) (a : AckFrame) : Type 0 where
    pub session : a.session_id ≡ f.session_id
    pub synced : is_empty pending_of ≡ true
    pub states :
        r'.sessions
        ≡ Assoc.insert f.session_id (session_entry codec f.session_id r.sessions) r.sessions
    pub current : a.root ≡ session_root r'.store f.session_id
    pub claimed : a.root ≡ root_over blake3 f.base_root (map resolved_id items)
    pub effect :
        ((r'.store ≡ r.store) × (f.base_root ≢ session_root r.store f.session_id))
        ⊎ ((f.base_root ≡ session_root r.store f.session_id)
            × Applied blake3 f.session_id (map resolved_id items) r.store r'.store)

  module _ (items : List Resolved) where
    abbrev pub appended : ContentStore
    appended = (apply_resolved codec blake3 disk f.session_id items r.store).0

    pub append_resolved_replayed :
        is_empty pending_of ≡ true
        → bytes_eq f.base_root (session_root r.store f.session_id) ≡ false
        → append_resolved codec blake3 disk f items r ≡ (
          record r {
            sessions =
                Assoc.insert f.session_id (session_entry codec f.session_id r.sessions) r.sessions;
          },
          if bytes_eq
                (target_root codec blake3 f.base_root items)
                (session_root r.store f.session_id)
              then ok
                  (record { session_id = f.session_id; root = session_root r.store f.session_id })
              else err
                  (base_root_mismatch f.session_id f.base_root (session_root r.store f.session_id)),
        )
    unfolding append_resolved
    append_resolved_replayed p q = rw (p, q, append_resolved)

    pub append_resolved-appended :
        is_empty pending_of ≡ true
        → bytes_eq f.base_root (session_root r.store f.session_id) ≡ true
        → refs_available r.store [] items ≡ true
        → append_resolved codec blake3 disk f items r ≡ (
          record {
            store = appended;
            sessions =
                Assoc.insert f.session_id (session_entry codec f.session_id r.sessions) r.sessions;
          },
          ok (record { session_id = f.session_id; root = session_root appended f.session_id }),
        )
    unfolding append_resolved
    append_resolved-appended p q h =
        rw (
          p,
          q,
          append_resolved,
          apply_resolved_found codec blake3 disk f.session_id items r.store h,
        )

    append_resolved_cold :
        is_empty pending_of ≡ false
        → (append_resolved codec blake3 disk f items r).1
          ≡ err (cold_start_in_progress f.session_id)
    unfolding append_resolved
    append_resolved_cold p = rw (p, append_resolved)

  ok_ack :
      (test : Bool) (sid : ℕ) (root : MerkleRoot) (e : ReceiverError) (a : AckFrame)
      → (if test then ok (record { session_id = sid; root = root }) else err e) ≡ ok a
      → (test ≡ true) × (a ≡ record { session_id = sid; root = root })
  ok_ack true sid root e a h = (refl, ground arith)
  ok_ack false sid root e a h = absurd (cc)

  append_resolved-Accepted :
      (items : List Resolved) (a : AckFrame)
      → refs_available r.store [] items ≡ true
      → (append_resolved codec blake3 disk f items r).1 ≡ ok a
      → Accepted items (append_resolved codec blake3 disk f items r).0 a
  append_resolved-Accepted items a h e = elim (Bool-cases (is_empty pending_of)) [
    | inr p ↦ absurd (cc (append_resolved_cold items p, e))
    | inl p ↦ elim (Bool-cases (bytes_eq f.base_root (session_root r.store f.session_id))) [
      | inr q ↦
          let (same, is) = ok_ack _ _ _ _ a (rw (append_resolved_replayed items p q) at e) in
          let root = (bytes_eq_iff _ (session_root r.store f.session_id)).0 same in
          rw (append_resolved_replayed items p q, is)
            (record {
              session = refl;
              synced = p;
              states = refl;
              current = refl;
              claimed = sym root ∙ target_root-root_over blake3 codec items f.base_root;
              effect = inl (
                refl,
                λ eq.
                    ground
                      (arith, eq, bytes_eq_iff f.base_root (session_root r.store f.session_id), q),
              );
            })
      | inl q ↦
          let base = (bytes_eq_iff f.base_root (session_root r.store f.session_id)).0 q in
          let found = apply_resolved_found codec blake3 disk f.session_id items r.store h in
          let applied = apply_resolved-Applied blake3 codec disk f.session_id items r.store found in
          let is : ◌≡◌ {A = Result ReceiverError AckFrame}
              (ok (record {
                session_id = f.session_id;
                root = session_root (appended items) f.session_id;
              }))
              (ok a) =
            rw (append_resolved-appended items p q h) at e in
          let is' : a ≡ record {
            session_id = f.session_id;
            root = session_root (appended items) f.session_id;
          } =
            ground arith in
          rw (append_resolved-appended items p q h, is')
            (record {
              session = refl;
              synced = p;
              states = refl;
              current = refl;
              claimed = rw (base, applied.root);
              effect = inr (base, applied);
            })
    ]
  ]

  -- When an APPEND is acknowledged, its blocks resolve, the session has no block pending, and the
  -- ACK is for the session with the store's root after the frame, which is also the root over the
  -- frame's ids from its base root. Either the frame starts from another root than the session's,
  -- and the store is as it was; or it starts from the session's root, and then the session's log has
  -- grown by exactly the frame's ids, in order, all of them are stored, the other sessions have the
  -- same logs and nothing stored is lost.
  pub handle_append-Accepted :
      (a : AckFrame)
      → (handle_append codec blake3 disk f r).1 ≡ ok a
      → (items : List Resolved) × (resolve_blocks codec blake3 f.blocks ≡ ok items)
        × Accepted items (handle_append codec blake3 disk f r).0 a
  unfolding handle_append
  handle_append-Accepted a h = elim (Result-cases (resolve_blocks codec blake3 f.blocks)) [
    | inr (x, p) ↦ absurd (cc (rw (p, handle_append) at h))
    | inl (items, p) ↦ elim (Bool-cases (refs_available r.store [] items)) [
      | inr q ↦ absurd (cc (rw (p, q, handle_append) at h))
      | inl q ↦ (
        items,
        p,
        rw (p, q, handle_append)
            (append_resolved-Accepted items a q (rw (p, q, handle_append) at h)),
      )
    ]
  ]
