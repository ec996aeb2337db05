-- ===== src/Receiver/Atomic.antt =====
-- Refused APPENDs and the store.
use dlr.Prelude.{
  ℕ, ◌≡◌, refl, ◌∙◌, arith, List, [], ◌∷◌, true, bytes_eq, Bool-cases, inl, inr, ◌⊎◌, nat_eq,
}
use dlr.Prelude.Results.{err, Result-cases}
use dlr.Core.Blake3.{Blake3}
use dlr.Core.Block.{Block, BlockId}
use dlr.Core.Frame.{AppendFrame}
use dlr.Core.Wal.{Disk}
use dlr.Core.Store.{ContentStore, contains, reference, insert_with_id}
use dlr.Receiver.{
  Codec, ReceiverError, Resolved, resolved_inline, resolved_ref, Receiver, mem, refs_available,
  resolve_blocks, apply_resolved, append_resolved, handle_append,
}
use dlr.Receiver.Membership.{contains-insert, contains-reference}

module _ (blake3 : Blake3) (disk : Disk) where
  -- What was counted on, stored or in front in the frame, is stored.
  Covers : ContentStore → List BlockId → ContentStore → Type 0
  Covers s available s' =
      (id : BlockId) → (contains s id ≡ true) ⊎ (mem id available ≡ true) → contains s' id ≡ true

  reference_found :
      (sid : ℕ) (id : BlockId) (s : ContentStore)
      → contains s id ≡ true
      → (reference blake3 disk sid id s).1 ≡ true
  unfolding reference
  reference_found sid id s h = rw h

  Covers-insert :
      (sid : ℕ) (id : BlockId) (b : Block) (s : ContentStore) (available : List BlockId)
      (s' : ContentStore)
      → Covers s available s'
      → Covers s (id ∷ available) (insert_with_id blake3 disk sid b id s').0
  unfolding Covers mem
  Covers-insert sid id b s available s' h j (inl e) =
      ground (arith, contains-insert blake3 disk sid b id j s', h j (inl e))
  Covers-insert sid id b s available s' h j (inr e) = elim (Bool-cases (bytes_eq id j)) [
    | inl same ↦ ground (arith, contains-insert blake3 disk sid b id j s', same)
    | inr other ↦ ground (
      arith,
      contains-insert blake3 disk sid b id j s',
      other,
      h j (inr (ground (arith, e, other))),
    )
  ]

  Covers-reference :
      (sid : ℕ) (id : BlockId) (s : ContentStore) (available : List BlockId) (s' : ContentStore)
      → Covers s available s'
      → Covers s available (reference blake3 disk sid id s').0
  unfolding Covers
  Covers-reference sid id s available s' h j e = contains-reference blake3 disk sid s' j id ∙ h j e

  Covers-self : (s : ContentStore) → Covers s [] s
  unfolding Covers mem
  Covers-self s id (inl h) = h
  Covers-self s id (inr h) = absurd (cc)

  ref_available :
      (s : ContentStore) (available : List BlockId) (id : BlockId) (items : List Resolved)
      → refs_available s available (resolved_ref id ∷ items) ≡ true
      → ((contains s id ≡ true) ⊎ (mem id available ≡ true))
        × (refs_available s available items ≡ true)
  unfolding refs_available
  ref_available s available id items h = elim (Bool-cases (contains s id)) [
    | inl e ↦ (inl e, ground arith)
    | inr e ↦ elim (Bool-cases (mem id available)) [
      | inl m ↦ (inr m, ground arith)
      | inr m ↦ absurd (ground arith)
    ]
  ]

  apply_resolved-ok :
      (codec : Codec) (sid : ℕ) (s : ContentStore) (items : List Resolved)
      (available : List BlockId) (s' : ContentStore)
      → Covers s available s'
      → refs_available s available items ≡ true
      → (apply_resolved codec blake3 disk sid items s').1 ≡ true
  unfolding apply_resolved refs_available
  apply_resolved-ok codec sid s [] available s' h e = refl
  apply_resolved-ok codec sid s (resolved_inline id b ∷ items) available s' h e =
      apply_resolved-ok codec sid s items (id ∷ available) _
        (Covers-insert sid id b s available s' h) e
  apply_resolved-ok codec sid s (resolved_ref id ∷ items) available s' h e =
      let (known, rest) = ref_available s available id items e in
      let stored : contains s' id ≡ true = unfold Covers in h id known in
      let found = reference_found sid id s' stored in
      rw (found, apply_resolved)
        (apply_resolved-ok codec sid s items available _ (Covers-reference sid id s available s' h)
          rest)

module _ (codec : Codec) (blake3 : Blake3) (disk : Disk) where
  pub apply_resolved_found :
      (sid : ℕ) (items : List Resolved) (s : ContentStore)
      → refs_available s [] items ≡ true
      → (apply_resolved codec blake3 disk sid items s).1 ≡ true
  apply_resolved_found sid items s e =
      apply_resolved-ok blake3 disk codec sid s items [] s (Covers-self blake3 disk s) e

  append_resolved_refused :
      (f : AppendFrame) (items : List Resolved) (r : Receiver codec) (e : ReceiverError)
      → refs_available r.store [] items ≡ true
      → (append_resolved codec blake3 disk f items r).1 ≡ err e
      → (append_resolved codec blake3 disk f items r).0.store ≡ r.store
  unfolding append_resolved
  append_resolved_refused f items r e h refused =
      ground (arith, apply_resolved_found f.session_id items r.store h)

  -- An APPEND that is refused, for whatever reason, leaves the content store as it was: no block, no
  -- session log, no counter and no byte of the write-ahead log changes.
  pub handle_append_refused :
      (f : AppendFrame) (r : Receiver codec) (e : ReceiverError)
      → (handle_append codec blake3 disk f r).1 ≡ err e
      → (handle_append codec blake3 disk f r).0.store ≡ r.store
  unfolding handle_append
  handle_append_refused f r e h = elim (Result-cases (resolve_blocks codec blake3 f.blocks)) [
    | inr (x, p) ↦ rw (p, handle_append)
    | inl (items, p) ↦ elim (Bool-cases (refs_available r.store [] items)) [
      | inr q ↦ rw (p, q, handle_append)
      | inl q ↦
          rw (p, q, handle_append)
            (append_resolved_refused f items r e q (rw (p, q, handle_append) at h))
    ]
  ]
