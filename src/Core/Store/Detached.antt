-- ===== src/Core/Store/Detached.antt =====
-- crates/core/src/store.rs: a store without a log, as a replay works on, stays without one.
use dlr.Prelude.{ℕ, ◌≡◌, refl, ◌∙◌, ap, List, [], ◌∷◌, Option, none, some, inl, inr, Bool-cases}
use dlr.Core.Bytes.{Bytes}
use dlr.Core.Blake3.{Blake3}
use dlr.Core.Block.{Block, BlockId, block_id}
use dlr.Core.Canonical.{canonical_bytes}
use dlr.Core.Wal.{Disk, IoError, append_reference, append_content}
use dlr.Core.Wal.Records.{Record, insert, refer, seed, content, apply_record, apply_all}
use dlr.Core.Store.{
  ContentStore, contains, with_log, store_block, insert_with_canonical, insert_with_id,
  insert_block, reference, seed_session, store_content_with_id, store_content, set_wal, new_store,
}
use dlr.Core.Store.View.{with_log-none, wal-store_block, wal-insert_session}

pub set_wal-none :
    (file : Bytes) (s : ContentStore) → s.wal ≡ none → set_wal file s ≡ record s { wal = some file }
unfolding set_wal
set_wal-none file s h = rw (set_wal, h)

wal-with_log :
    (f : Bytes → Bytes × Option IoError) (s : ContentStore)
    → s.wal ≡ none
    → (with_log f s).wal ≡ none
wal-with_log f s h = ap (λ (t : ContentStore). t.wal) (with_log-none f s h) ∙ h

module _ (blake3 : Blake3) (disk : Disk) where
  wal-insert :
      (sid : ℕ) (b : Block) (s : ContentStore)
      → s.wal ≡ none
      → (insert_block blake3 disk sid b s).0.wal ≡ none
  unfolding insert_block insert_with_id insert_with_canonical
  wal-insert sid b s h =
      let id = block_id blake3 b in
      wal-with_log _ _
        (wal-insert_session blake3 sid id (store_block id b s).0 ∙ wal-store_block id b s ∙ h)

  wal-reference :
      (sid : ℕ) (id : BlockId) (s : ContentStore)
      → s.wal ≡ none
      → (reference blake3 disk sid id s).0.wal ≡ none
  unfolding reference
  wal-reference sid id s h = elim (Bool-cases (contains s id)) [
    | inl known ↦ rw known (wal-with_log (append_reference disk sid id) _ h)
    | inr new ↦ rw new h
  ]

  wal-store_content :
      (sid : ℕ) (b : Block) (s : ContentStore)
      → s.wal ≡ none
      → (store_content blake3 disk sid b s).0.wal ≡ none
  unfolding store_content store_content_with_id
  wal-store_content sid b s h =
      let id = block_id blake3 b in
      let kept : (store_block id b s).0.wal ≡ none = wal-store_block id b s ∙ h in
      elim (Bool-cases (store_block id b s).1) [
        | inl newly ↦ rw newly (wal-with_log (append_content disk sid (canonical_bytes b)) _ kept)
        | inr known ↦ rw known kept
      ]

  wal-apply_record :
      (r : Record) (s : ContentStore) → s.wal ≡ none → (apply_record blake3 disk r s).wal ≡ none
  unfolding apply_record seed_session
  wal-apply_record (insert sid b) s h = wal-insert sid b s h
  wal-apply_record (refer sid id) s h = wal-reference sid id s h
  wal-apply_record (seed sid ids root) s h = wal-with_log _ _ h
  wal-apply_record (content sid b) s h = wal-store_content sid b s h

  pub wal-apply_all :
      (rs : List Record) (s : ContentStore) → s.wal ≡ none → (apply_all blake3 disk rs s).wal ≡ none
  unfolding apply_all
  wal-apply_all [] s h = h
  wal-apply_all (r ∷ rs) s h = wal-apply_all rs _ (wal-apply_record r s h)

  -- The log of a replayed store can be set.
  pub set_wal-apply_all :
      (file : Bytes) (rs : List Record)
      → set_wal file (apply_all blake3 disk rs new_store)
        ≡ record (apply_all blake3 disk rs new_store) { wal = some file }
  set_wal-apply_all file rs =
      set_wal-none file (apply_all blake3 disk rs new_store) (wal-apply_all rs new_store refl)
