-- ===== src/Core/Store/Recovery.antt =====
-- A restart: the log that a store wrote is opened again.
use dlr.Prelude.{
  ap, ℕ, ◌≡◌, refl, sym, ◌∙◌, arith, List, [], ◌∷◌, All, Option, none, some, concat_map, append-nil,
  Bool-cases, inl, inr,
}
use dlr.Prelude.Results.{ok}
use dlr.Core.Bytes.{Bytes}
use dlr.Core.Blake3.{Blake3}
use dlr.Core.Block.{Block, BlockId, block_id}
use dlr.Core.Canonical.{canonical_bytes}
use dlr.Core.Store.View.{store_content_known, store_content_new}
use dlr.Core.Wal.{Disk, IoError, append_content}
use dlr.Core.Wal.Replay.{with_wal, open_wal}
use dlr.Core.Wal.Torn.{open_wal-encoded}
use dlr.Core.Wal.Records.{
  Record, insert, refer, seed, content, encode_record, apply_record, apply_all,
}
use dlr.Core.Store.{
  ContentStore, new_store, with_log, store_block, insert_session, insert_with_canonical,
  insert_with_id, insert_block, reference, seed_session, store_content, contains,
}
use dlr.Core.Store.Detached.{set_wal-apply_all}
use dlr.Core.Store.Durable.{IsOp, SameMaps, Shadow, Shadow-apply_record}

-- A store whose log is new and empty.
abbrev pub fresh : ContentStore
fresh = record new_store { wal = some [] }

module _ (blake3 : Blake3) (disk : Disk) where
  wal_error-with_log :
      (f : Bytes → Bytes × Option IoError) (s : ContentStore)
      → (with_log f s).wal_error ≡ none
      → s.wal_error ≡ none
  unfolding with_log
  wal_error-with_log f s h = ground arith

  wal_error-store_block :
      (id : BlockId) (b : Block) (s : ContentStore) → (store_block id b s).0.wal_error ≡ s.wal_error
  unfolding store_block
  wal_error-store_block id b s = ground arith

  module _ (sid : ℕ) (s : ContentStore) where
    reference_latched :
        (id : BlockId) → (reference blake3 disk sid id s).0.wal_error ≡ none → s.wal_error ≡ none
    unfolding reference
    reference_latched id h = elim (Bool-cases (contains s id)) [
      | inl e ↦ wal_error-with_log _ _ (rw e at h)
      | inr e ↦ rw e at h
    ]

    insert_latched :
        (b : Block) → (insert_block blake3 disk sid b s).0.wal_error ≡ none → s.wal_error ≡ none
    unfolding insert_block insert_with_id insert_with_canonical insert_session
    insert_latched b h = sym (wal_error-store_block _ b s) ∙ wal_error-with_log _ _ h

    content_latched :
        (b : Block) → (store_content blake3 disk sid b s).0.wal_error ≡ none → s.wal_error ≡ none
    unfolding store_content
    content_latched b h =
        let id = block_id blake3 b in
        let s' = (store_block id b s).0 in
        elim (Bool-cases (contains s id)) [
          | inl e ↦
              sym (wal_error-store_block id b s)
              ∙ rw (store_content_known blake3 disk sid b id s e) at h
          | inr e ↦
              let h' : (with_log (append_content disk sid (canonical_bytes b)) s').wal_error
                  ≡ none =
                rw (store_content_new blake3 disk sid b id s e) at h in
              sym (wal_error-store_block id b s) ∙ wal_error-with_log _ s' h'
        ]

  -- A latched error stays.
  wal_error_latched :
      (r : Record) (s : ContentStore)
      → (apply_record blake3 disk r s).wal_error ≡ none
      → s.wal_error ≡ none
  unfolding apply_record seed_session
  wal_error_latched (insert sid b) s h = insert_latched sid s b h
  wal_error_latched (refer sid id) s h = reference_latched sid s id h
  wal_error_latched (seed sid ids root) s h = wal_error-with_log _ _ h
  wal_error_latched (content sid b) s h = content_latched sid s b h

  unfoldable pub Shadow-fresh : Shadow blake3 disk fresh
  unfolding apply_all concat_map
  Shadow-fresh = record {
    log = [];
    valid = tt;
    bytes = refl;
    same = record { blocks = refl; sessions = refl };
  }

  pub all_latched :
      (ops : List Record) (s : ContentStore)
      → (apply_all blake3 disk ops s).wal_error ≡ none
      → s.wal_error ≡ none
  unfolding apply_all
  all_latched [] s h = h
  all_latched (r ∷ ops) s h = wal_error_latched r s (all_latched ops _ h)

  Shadow-apply_all :
      (ops : List Record) (s : ContentStore)
      → All IsOp ops
      → Shadow blake3 disk s
      → (apply_all blake3 disk ops s).wal_error ≡ none
      → Shadow blake3 disk (apply_all blake3 disk ops s)
  unfolding apply_all
  Shadow-apply_all [] s ho h clean = h
  Shadow-apply_all (r ∷ ops) s ho h clean =
      Shadow-apply_all ops _ ho.1
        (Shadow-apply_record blake3 disk r s ho.0 h (all_latched ops _ clean)).shadow clean

  with_wal-Shadow :
      (s : ContentStore) (h : Shadow blake3 disk s)
      → with_wal blake3 disk (concat_map encode_record h.log)
        ≡ ok (record (apply_all blake3 disk h.log new_store) { wal = s.wal })
  unfolding with_wal
  with_wal-Shadow s h =
      let opened : open_wal blake3 disk (concat_map encode_record h.log) new_store
          ≡ (apply_all blake3 disk h.log new_store, ok (concat_map encode_record h.log)) =
        rw append-nil at (open_wal-encoded blake3 disk h.log [] new_store h.valid (inl refl)) in
      rw (opened, with_wal, h.bytes) (rw opened (ap ok (set_wal-apply_all blake3 disk _ h.log)))

  -- A store that starts with an empty log, runs a sequence of operations with well-formed arguments
  -- and has no write error latched at the end has a log, and `with_wal` on that log gives a store
  -- with the same blocks and the same sessions, which goes on writing to the same log.
  pub with_wal-apply_all :
      (ops : List Record)
      → All IsOp ops
      → (apply_all blake3 disk ops fresh).wal_error ≡ none
      → (file : Bytes) × (s : ContentStore) × ((apply_all blake3 disk ops fresh).wal ≡ some file)
        × (with_wal blake3 disk file ≡ ok s)
        × SameMaps s (apply_all blake3 disk ops fresh)
        × (s.wal ≡ some file)
  with_wal-apply_all ops h clean =
      let shadow = Shadow-apply_all ops fresh h Shadow-fresh clean in
      let file = concat_map encode_record shadow.log in
      (
        file,
        record (apply_all blake3 disk shadow.log new_store) {
          wal = (apply_all blake3 disk ops fresh).wal;
        },
        shadow.bytes,
        with_wal-Shadow _ shadow,
        record { blocks = shadow.same.blocks; sessions = shadow.same.sessions },
        shadow.bytes,
      )
