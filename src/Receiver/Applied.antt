-- ===== src/Receiver/Applied.antt =====
-- What a run of appends does to the store.
use dlr.Prelude.{
  ℕ, ◌==◌, ◌≡◌, refl, sym, ◌∙◌, arith, List, [], ◌∷◌, ◌++◌, map, none, some, true, false,
  if◌then◌else◌, bytes_eq, bytes_eq_iff, Bool-cases, Option-cases, inl, inr, nat_eq, append_assoc,
  append-nil, bytes_key,
}
use dlr.Prelude.Assoc.{Assoc, lookup, insert, lookup-insert, lookup-insert_self}
use dlr.Core.Blake3.{Blake3}
use dlr.Core.Block.{Block, BlockId}
use dlr.Core.Merkle.{MerkleRoot, root_zero, append_root, root_over}
use dlr.Core.Wal.{Disk}
use dlr.Core.Store.{
  ContentStore, SessionLog, contains, reference, insert_with_id, session_root, session_ids,
  append_log,
}
use dlr.Core.Store.View.{sessions-insert, sessions-reference}
use dlr.Receiver.{
  Codec, Resolved, resolved_inline, resolved_ref, resolved_id, mem, apply_resolved, target_root,
}
use dlr.Receiver.Membership.{contains-insert, contains-reference}

-- The ids and the root of a session, in the map of the sessions.
abbrev ids_in : ℕ → Assoc ℕ SessionLog → List BlockId
ids_in sid m = elim (lookup sid m) [ none ↦ [] | some l ↦ l.ids ]

abbrev root_in : ℕ → Assoc ℕ SessionLog → MerkleRoot
root_in sid m = elim (lookup sid m) [ none ↦ root_zero | some l ↦ l.root ]

ids_in-insert :
    (sid j : ℕ) (l : SessionLog) (m : Assoc ℕ SessionLog)
    → ids_in j (insert sid l m) ≡ (if sid == j then l.ids else ids_in j m)
ids_in-insert sid j l m = ground (arith, lookup-insert sid j l m)

root_in-insert :
    (sid : ℕ) (l : SessionLog) (m : Assoc ℕ SessionLog) → root_in sid (insert sid l m) ≡ l.root
root_in-insert sid l m = ground (arith, lookup-insert_self sid l m)

module _ (blake3 : Blake3) (sid : ℕ) (id : BlockId) (m : Assoc ℕ SessionLog) where
  ids-append_log :
      (j : ℕ)
      → ids_in j (append_log blake3 sid id m).0
        ≡ (if sid == j then ids_in sid m ++ (id ∷ []) else ids_in j m)
  unfolding append_log
  ids-append_log j = elim (Option-cases (lookup sid m)) [
    | inl e ↦ rw (e, append_log, ids_in-insert) (ground (arith, e))
    | inr (l, e) ↦ rw (e, append_log, ids_in-insert) (ground (arith, e))
  ]

  root-append_log :
      root_in sid (append_log blake3 sid id m).0 ≡ append_root blake3 (root_in sid m) id
  unfolding append_log
  root-append_log = elim (Option-cases (lookup sid m)) [
    | inl e ↦ rw (e, append_log, root_in-insert) (ground (arith, e))
    | inr (l, e) ↦ rw (e, append_log, root_in-insert) (ground (arith, e))
  ]

module _ (blake3 : Blake3) where
  pub record Applied (sid : ℕ) (ids : List BlockId) (s s' : ContentStore) : Type 0 where
    pub log : session_ids s' sid ≡ session_ids s sid ++ ids
    pub root : session_root s' sid ≡ root_over blake3 (session_root s sid) ids
    pub others : (j : ℕ) → (sid == j) ≡ false → session_ids s' j ≡ session_ids s j
    pub kept : (id : BlockId) → contains s id ≡ true → contains s' id ≡ true
    pub stored : (id : BlockId) → mem id ids ≡ true → contains s' id ≡ true

  pub Applied-none : (sid : ℕ) (s : ContentStore) → Applied sid [] s s
  unfolding root_over mem
  Applied-none sid s = record {
    log = sym (append-nil _);
    root = refl;
    others = λ j e. refl;
    kept = λ id h. h;
    stored = λ id h. absurd (cc);
  }

  pub Applied-cons :
      (sid : ℕ) (id : BlockId) (ids : List BlockId) (s s' s'' : ContentStore)
      → Applied sid (id ∷ []) s s'
      → Applied sid ids s' s''
      → Applied sid (id ∷ ids) s s''
  unfolding root_over mem
  Applied-cons sid id ids s s' s'' a b = record {
    log = b.log ∙ rw (a.log, append_assoc);
    root = b.root ∙ rw a.root;
    others = λ j e. b.others j e ∙ a.others j e;
    kept = λ j h. b.kept j (a.kept j h);
    stored = λ j h. elim (Bool-cases (bytes_eq id j)) [
      | inl same ↦ b.kept j (a.stored j (rw same))
      | inr other ↦ b.stored j (rw other at h)
    ];
  }

  Applied-append_log :
      (sid : ℕ) (id : BlockId) (s s' : ContentStore)
      → s'.sessions ≡ (append_log blake3 sid id s.sessions).0
      → ((j : BlockId) → contains s' j ≡ (if bytes_eq id j then true else contains s j))
      → Applied sid (id ∷ []) s s'
  unfolding root_over mem session_ids session_root
  Applied-append_log sid id s s' e c = record {
    log = rw (e, ids-append_log) (ground arith);
    root = rw (e, root-append_log);
    others = λ j other. rw (e, ids-append_log, other);
    kept = λ j h. ground (arith, h, c j);
    stored = λ j h. ground (arith, h, c j);
  }

  module _ (disk : Disk) (sid : ℕ) (id : BlockId) (s : ContentStore) where
    insert-Applied : (b : Block) → Applied sid (id ∷ []) s (insert_with_id blake3 disk sid b id s).0
    unfolding insert_with_id
    insert-Applied b =
        Applied-append_log sid id s _ (sessions-insert blake3 disk sid b id s none)
          (λ j. contains-insert blake3 disk sid b id j s)

    reference-Applied :
        contains s id ≡ true → Applied sid (id ∷ []) s (reference blake3 disk sid id s).0
    reference-Applied h =
        Applied-append_log sid id s _ (rw (sessions-reference, h))
          (λ j. ground (arith, contains-reference blake3 disk sid s j id, h, bytes_eq_iff id j))

    reference_missing : contains s id ≡ false → (reference blake3 disk sid id s).1 ≡ false
    unfolding reference
    reference_missing h = rw h

  -- A run of appends that gets to its end.
  pub apply_resolved-Applied :
      (codec : Codec) (disk : Disk) (sid : ℕ) (items : List Resolved) (s : ContentStore)
      → (apply_resolved codec blake3 disk sid items s).1 ≡ true
      → Applied sid (map resolved_id items) s (apply_resolved codec blake3 disk sid items s).0
  unfolding apply_resolved resolved_id
  apply_resolved-Applied codec disk sid [] s h = Applied-none sid s
  apply_resolved-Applied codec disk sid (resolved_inline id b ∷ items) s h =
      Applied-cons sid id (map resolved_id items) s _ _ (insert-Applied disk sid id s b)
        (apply_resolved-Applied codec disk sid items _ h)
  apply_resolved-Applied codec disk sid (resolved_ref id ∷ items) s h =
      elim (Bool-cases (reference blake3 disk sid id s).1) [
        | inr e ↦ absurd (cc (rw (e, apply_resolved) at h))
        | inl e ↦
            let known : contains s id ≡ true = elim (Bool-cases (contains s id)) [
              | inl k ↦ k
              | inr k ↦ absurd (cc (e, reference_missing disk sid id s k))
            ] in
            rw (e, apply_resolved)
              (Applied-cons sid id (map resolved_id items) s _ _
                (reference-Applied disk sid id s known)
                (apply_resolved-Applied codec disk sid items _ (rw (e, apply_resolved) at h)))
      ]

  pub target_root-root_over :
      (codec : Codec) (items : List Resolved) (root : MerkleRoot)
      → target_root codec blake3 root items ≡ root_over blake3 root (map resolved_id items)
  unfolding target_root root_over
  target_root-root_over codec [] root = refl
  target_root-root_over codec (item ∷ items) root =
      target_root-root_over codec items (append_root blake3 root (resolved_id item))
