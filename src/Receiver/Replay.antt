-- ===== src/Receiver/Replay.antt =====
-- The same APPEND twice: an ACK that was lost.
use dlr.Prelude.{
  ◌≡◌, ◌≢◌, refl, sym, ◌∙◌, arith, List, [], ◌∷◌, map, true, false, bytes_eq, bytes_eq_iff,
  Bool-cases, inl, inr, nat_eq,
}
use dlr.Prelude.Results.{ok}
use dlr.Core.Blake3.{Blake3}
use dlr.Core.Block.{BlockId}
use dlr.Core.Merkle.{root_over}
use dlr.Core.Frame.{AppendFrame, AckFrame}
use dlr.Core.Wal.{Disk}
use dlr.Core.Store.{ContentStore, contains, session_root}
use dlr.Receiver.{
  Codec, Resolved, resolved_inline, resolved_ref, resolved_id, Receiver, mem, refs_available,
  resolve_blocks, handle_append, target_root, session_entry, is_empty,
}
use dlr.Receiver.Applied.{target_root-root_over}
use dlr.Receiver.Append.{append_resolved_replayed, handle_append-Accepted}
use dlr.Receiver.Entries.{session_entry-insert_self}

-- References stay available in a store that has lost nothing.
refs_available-kept :
    (s s' : ContentStore) (items : List Resolved) (available : List BlockId)
    → ((id : BlockId) → contains s id ≡ true → contains s' id ≡ true)
    → refs_available s available items ≡ true
    → refs_available s' available items ≡ true
unfolding refs_available
refs_available-kept s s' [] available kept h = refl
refs_available-kept s s' (resolved_inline id b ∷ items) available kept h =
    refs_available-kept s s' items (id ∷ available) kept h
refs_available-kept s s' (resolved_ref id ∷ items) available kept h =
    elim (Bool-cases (contains s id)) [
      | inl e ↦ rw (kept id e) (refs_available-kept s s' items available kept (rw e at h))
      | inr e ↦ elim (Bool-cases (mem id available)) [
        | inl m ↦
            let rest = refs_available-kept s s' items available kept (rw (e, m) at h) in
            ground (arith, m, rest)
        | inr m ↦ absurd (cc (rw (e, m) at h))
      ]
    ]

module _ (codec : Codec) (blake3 : Blake3) (disk : Disk) (f : AppendFrame)
    (r : Receiver codec) where
  refs_of_accepted :
      (a : AckFrame) (items : List Resolved)
      → resolve_blocks codec blake3 f.blocks ≡ ok items
      → (handle_append codec blake3 disk f r).1 ≡ ok a
      → refs_available r.store [] items ≡ true
  unfolding handle_append
  refs_of_accepted a items p h = elim (Bool-cases (refs_available r.store [] items)) [
    | inl q ↦ q
    | inr q ↦ absurd (cc (rw (p, q, handle_append) at h))
  ]

  -- A frame that is accepted when the session's root is already the one that it claims.
  handle_append_claimed :
      (items : List Resolved)
      → resolve_blocks codec blake3 f.blocks ≡ ok items
      → refs_available r.store [] items ≡ true
      → is_empty (session_entry codec f.session_id r.sessions).pending ≡ true
      → f.base_root ≢ session_root r.store f.session_id
      → root_over blake3 f.base_root (map resolved_id items) ≡ session_root r.store f.session_id
      → ((handle_append codec blake3 disk f r).0.store ≡ r.store)
        × ((handle_append codec blake3 disk f r).1
            ≡ ok (record { session_id = f.session_id; root = session_root r.store f.session_id }))
  unfolding handle_append
  handle_append_claimed items p refs synced moved claimed =
      let other : bytes_eq f.base_root (session_root r.store f.session_id) ≡ false =
        ground (arith, bytes_eq_iff f.base_root (session_root r.store f.session_id), moved) in
      let same : bytes_eq (target_root codec blake3 f.base_root items)
            (session_root r.store f.session_id)
          ≡ true =
        (bytes_eq_iff _ _).1 (target_root-root_over blake3 codec items f.base_root ∙ claimed) in
      rw
        (
          p,
          refs,
          handle_append,
          append_resolved_replayed codec blake3 disk f r items synced other,
          same,
        )
        (refl, refl)

module _ (codec : Codec) (blake3 : Blake3) (disk : Disk) (f : AppendFrame)
    (r : Receiver codec) where
  -- An APPEND that was acknowledged with a root other than its base root is acknowledged again, with
  -- the same ACK, when it is sent a second time, and the second time leaves the store as it is.
  pub handle_append_twice :
      (a : AckFrame)
      → (handle_append codec blake3 disk f r).1 ≡ ok a
      → a.root ≢ f.base_root
      → ((handle_append codec blake3 disk f (handle_append codec blake3 disk f r).0).0.store
          ≡ (handle_append codec blake3 disk f r).0.store)
        × ((handle_append codec blake3 disk f (handle_append codec blake3 disk f r).0).1 ≡ ok a)
  handle_append_twice a h moved =
      let (items, p, acc) = handle_append-Accepted codec blake3 disk f r a h in
      let r' = (handle_append codec blake3 disk f r).0 in
      let kept : (id : BlockId) → contains r.store id ≡ true → contains r'.store id ≡ true = λ id e.
        elim acc.effect [ inl (same, _) ↦ rw same e | inr (_, applied) ↦ applied.kept id e ] in
      let refs =
        refs_available-kept r.store r'.store items [] kept
          (refs_of_accepted codec blake3 disk f r a items p h) in
      let synced : is_empty (session_entry codec f.session_id r'.sessions).pending ≡ true =
        rw (acc.states, session_entry-insert_self) acc.synced in
      let (store, answer) =
        handle_append_claimed codec blake3 disk f r' items p refs synced
          (λ eq. moved (acc.current ∙ sym eq)) (sym acc.claimed ∙ acc.current) in
      let is : record { session_id = f.session_id; root = session_root r'.store f.session_id } ≡ a =
        ground (arith, acc.session, acc.current) in
      (store, rw is at answer)
