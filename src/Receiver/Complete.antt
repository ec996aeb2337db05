-- ===== src/Receiver/Complete.antt =====
-- The ids of a session's log: stored, or pending.
use dlr.Prelude.{
  ℕ, ◌==◌, ◌≡◌, refl, arith, List, [], ◌++◌, true, if◌then◌else◌, Bool-cases, inl, inr, ◌⊎◌, nat_eq,
  ==_iff,
}
use dlr.Prelude.Assoc
use dlr.Prelude.Results.{Result-cases}
use dlr.Core.Blake3.{Blake3}
use dlr.Core.Block.{BlockId}
use dlr.Core.Merkle.{MerkleRoot}
use dlr.Core.Frame.{AppendFrame, ResyncFrame}
use dlr.Core.Wal.{Disk}
use dlr.Core.Store.{ContentStore, contains, session_ids, seed_session}
use dlr.Receiver.Atomic.{handle_append_refused}
use dlr.Core.Store.View.{sessions-seed_session}
use dlr.Receiver.{
  append_resolved, refs_available, resolve_blocks, Codec, Resolved, Receiver, mem, handle_append,
  session_entry, is_empty,
}
use dlr.Receiver.Sync.{handle_resync}
use dlr.Receiver.Membership.{contains-seed_session, mem-missing_ids, mem-append, is_empty-mem}
use dlr.Receiver.Applied.{Applied}
use dlr.Receiver.Append.{handle_append-Accepted}
use dlr.Receiver.Entries.{session_entry-insert, pending-insert}

module _ (codec : Codec) where
  -- An id of a session's log is stored or pending.
  abbrev pub Known : ℕ → BlockId → Receiver codec → Type 0
  Known sid id r =
      (contains r.store id ≡ true) ⊎ (mem id (session_entry codec sid r.sessions).pending ≡ true)

  abbrev pub IsComplete : Receiver codec → Type 0
  IsComplete r = (sid : ℕ) (id : BlockId) → mem id (session_ids r.store sid) ≡ true → Known sid id r

  -- With nothing pending, all of the log is stored.
  pub IsComplete-stored :
      (r : Receiver codec) (sid : ℕ) (id : BlockId)
      → IsComplete r
      → is_empty (session_entry codec sid r.sessions).pending ≡ true
      → mem id (session_ids r.store sid) ≡ true
      → contains r.store id ≡ true
  IsComplete-stored r sid id h synced m = elim (h sid id m) [
    | inl c ↦ c
    | inr p ↦ absurd (cc (p, is_empty-mem id _ synced))
  ]

  -- What a step may do to the state of the sessions when it leaves the pending sets alone.
  unfoldable pub SamePending : Receiver codec → Receiver codec → Type 0
  SamePending r r' =
      (j : ℕ)
      → (session_entry codec j r'.sessions).pending ≡ (session_entry codec j r.sessions).pending

  pub IsComplete-same :
      (r r' : Receiver codec) → IsComplete r → r'.store ≡ r.store → SamePending r r' → IsComplete r'
  unfolding SamePending
  IsComplete-same r r' h e same j id m = elim (h j id (rw e at m)) [
    | inl c ↦ inl (rw e c)
    | inr p ↦ inr (rw (same j) p)
  ]

  module _ (blake3 : Blake3) (disk : Disk) where
    append_resolved-pending :
        (f : AppendFrame) (items : List Resolved) (r : Receiver codec)
        → SamePending r (append_resolved codec blake3 disk f items r).0
    unfolding SamePending append_resolved
    append_resolved-pending f items r j =
        let kept =
          pending-insert codec f.session_id (session_entry codec f.session_id r.sessions) r.sessions
            j refl in
        ground (arith, kept)

    pub handle_append-pending :
        (f : AppendFrame) (r : Receiver codec)
        → SamePending r (handle_append codec blake3 disk f r).0
    unfolding SamePending handle_append
    handle_append-pending f r j = elim (Result-cases (resolve_blocks codec blake3 f.blocks)) [
      | inr (x, p) ↦ rw (p, handle_append)
      | inl (items, p) ↦ elim (Bool-cases (refs_available r.store [] items)) [
        | inr q ↦ rw (p, q, handle_append)
        | inl q ↦
            rw (p, q, handle_append) (unfold SamePending in append_resolved-pending f items r j)
      ]
    ]

    IsComplete-Applied :
        (sid : ℕ) (ids : List BlockId) (r r' : Receiver codec)
        → IsComplete r
        → is_empty (session_entry codec sid r.sessions).pending ≡ true
        → Applied blake3 sid ids r.store r'.store
        → SamePending r r'
        → IsComplete r'
    unfolding SamePending
    IsComplete-Applied sid ids r r' h synced applied same j id m = elim (Bool-cases (sid == j)) [
      | inr other ↦ elim (h j id (rw (applied.others j other) at m)) [
        | inl c ↦ inl (applied.kept id c)
        | inr p ↦ inr (rw (same j) p)
      ]
      | inl at ↦
          let m' : mem id (session_ids r.store sid ++ ids) ≡ true =
            rw (← applied.log, (==_iff sid j).0 at) m in
          elim (Bool-cases (mem id (session_ids r.store sid))) [
            | inl old ↦ inl (applied.kept id (IsComplete-stored r sid id h synced old))
            | inr new ↦ inl (applied.stored id (rw (mem-append, new) at m'))
          ]
    ]

    pub handle_append-IsComplete :
        (f : AppendFrame) (r : Receiver codec)
        → IsComplete r
        → IsComplete (handle_append codec blake3 disk f r).0
    handle_append-IsComplete f r h = elim (Result-cases (handle_append codec blake3 disk f r).1) [
      | inr (e, p) ↦
          IsComplete-same r _ h (handle_append_refused codec blake3 disk f r e p)
            (handle_append-pending f r)
      | inl (a, p) ↦
          let (items, _, acc) = handle_append-Accepted codec blake3 disk f r a p in
          elim acc.effect [
            | inl (same, _) ↦ IsComplete-same r _ h same (handle_append-pending f r)
            | inr (_, applied) ↦
                IsComplete-Applied f.session_id _ r _ h acc.synced applied
                  (handle_append-pending f r)
          ]
    ]

    -- The ids of a session after its log was seeded.
    pub session_ids-seed :
        (sid j : ℕ) (ids : List BlockId) (root : MerkleRoot) (s : ContentStore)
        → session_ids (seed_session blake3 disk sid ids root s) j
          ≡ (if sid == j then ids else session_ids s j)
    unfolding session_ids
    session_ids-seed sid j ids root s =
        rw sessions-seed_session
          (ground (arith, Assoc.lookup-insert sid j (record { ids = ids; root = root }) s.sessions))

    pub handle_resync-IsComplete :
        (f : ResyncFrame) (r : Receiver codec)
        → IsComplete r
        → IsComplete (handle_resync codec blake3 disk f r).0
    unfolding handle_resync
    handle_resync-IsComplete f r h j id m = elim (Bool-cases (f.session_id == j)) [
      | inr other ↦ elim (h j id (rw (session_ids-seed, other) at m)) [
        | inl c ↦ inl (rw contains-seed_session c)
        | inr p ↦ inr (rw (session_entry-insert, other) p)
      ]
      | inl at ↦ elim (mem-missing_ids r.store f.manifest id (rw (session_ids-seed, at) at m)) [
        | inl c ↦ inl (rw contains-seed_session c)
        | inr p ↦ inr (rw (session_entry-insert, at) p)
      ]
    ]
