-- ===== src/Core/Store/Durable.antt =====
-- A store and the records of its log.
use dlr.Prelude.{
  ℕ, ◌≡◌, refl, sym, ◌∙◌, List, [], ◌∷◌, ◌++◌, All, All-append, Option, none, some, true,
  concat_map, append_assoc, append-nil, Bool-cases, ◌⊎◌, inl, inr, nat_eq, bytes_key,
}
use dlr.Prelude.Assoc
use dlr.Core.Bytes.{Bytes}
use dlr.Core.Blake3.{Blake3}
use dlr.Core.Block.{Block, BlockId, block_id, block_id-IsId, IsU128, IsId}
use dlr.Core.Canonical.Laws.{IsBlock}
use dlr.Core.Merkle.{MerkleRoot}
use dlr.Core.Wal.{Disk, IoError}
use dlr.Core.Wal.Records.{
  Record, insert, refer, seed, content, encode_record, IsRecord, apply_record, apply_all,
}
use dlr.Core.Wal.Append.{
  Wrote, append_insert_lem, append_reference_lem, append_content_lem, append_seed_lem,
}
use dlr.Core.Store.{
  ContentStore, new_store, contains, append_log, with_log, store_block, insert_session,
  insert_with_id, insert_block, reference, seed_session, store_content,
}
use dlr.Core.Store.View.{
  put_block, blocks-with_log, sessions-with_log, blocks-store_block, sessions-store_block,
  blocks-insert_session, sessions-insert_session, blocks-insert, sessions-insert, blocks-reference,
  sessions-reference, blocks-seed_session, sessions-seed_session, blocks-store_content,
  sessions-store_content, with_log-some, wal-insert_session, wal-store_block, insert_new,
  insert_known, store_content_new, store_content_known, put_block_known,
}

-- The arguments that an operation of the store is called with; a record's size is checked later.
abbrev pub IsOp : Record → Type 0
IsOp (insert sid b) = IsU128 sid × IsBlock b
IsOp (refer sid id) = IsU128 sid × IsId id
IsOp (seed sid ids root) = IsU128 sid × All IsId ids × IsId root
IsOp (content sid b) = IsU128 sid × IsBlock b

-- Both maps of two stores are the same.
pub record SameMaps (s t : ContentStore) : Type 0 where
  pub blocks : s.blocks ≡ t.blocks
  pub sessions : s.sessions ≡ t.sessions

module _ (blake3 : Blake3) (disk : Disk) where
  pub record Shadow (s : ContentStore) : Type 0 where
    pub log : List Record
    pub valid : All IsRecord log
    pub bytes : s.wal ≡ some (concat_map encode_record log)
    pub same : SameMaps (apply_all blake3 disk log new_store) s

  -- The log after one operation: as it was, or one record longer.
  abbrev pub Grows : List Record → List Record → Type 0
  Grows log log' = (log' ≡ log) ⊎ ((r : Record) × (log' ≡ log ++ (r ∷ [])))

  pub record Next (log : List Record) (s' : ContentStore) : Type 0 where
    pub shadow : Shadow s'
    pub grows : Grows log shadow.log

  pub apply_all-append :
      (rs : List Record) (r : Record) (s : ContentStore)
      → apply_all blake3 disk (rs ++ (r ∷ [])) s
        ≡ apply_record blake3 disk r (apply_all blake3 disk rs s)
  unfolding apply_all
  apply_all-append [] r s = refl
  apply_all-append (x ∷ rs) r s = apply_all-append rs r (apply_record blake3 disk x s)

  concat_map-append_one :
      (rs : List Record) (r : Record)
      → concat_map encode_record (rs ++ (r ∷ [])) ≡ concat_map encode_record rs ++ encode_record r
  unfolding concat_map
  concat_map-append_one [] r = append-nil (encode_record r)
  concat_map-append_one (x ∷ rs) r = rw (concat_map-append_one rs r, append_assoc)

  -- One more record, whose replay gives the new maps.
  Shadow-extend :
      (s s' : ContentStore) (h : Shadow s) (r : Record) (result : Bytes × Option IoError)
      → Wrote (concat_map encode_record h.log) result r
      → s'.wal ≡ some result.0
      → SameMaps (apply_record blake3 disk r (apply_all blake3 disk h.log new_store)) s'
      → Next h.log s'
  Shadow-extend s s' h r result w e m = record {
    shadow = record {
      log = h.log ++ (r ∷ []);
      valid = All-append IsRecord h.log (r ∷ []) h.valid (w.valid, tt);
      bytes = rw (concat_map-append_one h.log r, ← w.bytes) e;
      same = rw apply_all-append m;
    };
    grows = inr (r, refl);
  }

  -- An append to the log that leaves no error latched.
  Shadow-with_log :
      (s s' : ContentStore) (h : Shadow s) (f : Bytes → Bytes × Option IoError) (r : Record)
      → s'.wal ≡ s.wal
      → (with_log f s').wal_error ≡ none
      → ((file : Bytes) → (f file).1 ≡ none → Wrote file (f file) r)
      → SameMaps (apply_record blake3 disk r (apply_all blake3 disk h.log new_store)) s'
      → Next h.log (with_log f s')
  Shadow-with_log s s' h f r e clean wrote m =
      let file = concat_map encode_record h.log in
      let (fine, log) = with_log-some f s' file (e ∙ h.bytes) clean in
      Shadow-extend s (with_log f s') h r (f file) (wrote file fine) log (record {
        blocks = m.blocks ∙ sym (blocks-with_log f s');
        sessions = m.sessions ∙ sym (sessions-with_log f s');
      })

  contains-SameMaps :
      (s t : ContentStore) (id : BlockId) → SameMaps t s → contains t id ≡ contains s id
  unfolding contains
  contains-SameMaps s t id m = rw m.blocks

  -- The store after `insert_block`, before the log is written.
  module _ (s : ContentStore) (sid : ℕ) (b : Block) where
    live_insert : ContentStore
    live_insert =
        insert_session blake3 sid (block_id blake3 b) (store_block (block_id blake3 b) b s).0

    blocks-live_insert : live_insert.blocks ≡ put_block (block_id blake3 b) b s.blocks
    unfolding live_insert
    blocks-live_insert = rw (blocks-insert_session, blocks-store_block)

    sessions-live_insert :
        live_insert.sessions ≡ (append_log blake3 sid (block_id blake3 b) s.sessions).0
    unfolding live_insert
    sessions-live_insert = rw (sessions-insert_session, sessions-store_block)

  -- The replayed operation and the live one, on stores with the same maps.
  module _ (s t : ContentStore) (m : SameMaps t s) (sid : ℕ) where
    insert-SameMaps :
        (b : Block) → SameMaps (apply_record blake3 disk (insert sid b) t) (live_insert s sid b)
    unfolding apply_record insert_block insert_with_id
    insert-SameMaps b = record {
      blocks = rw (blocks-insert, m.blocks, blocks-live_insert);
      sessions = rw (sessions-insert, m.sessions, sessions-live_insert);
    }

    refer-SameMaps :
        (b : Block)
        → contains s (block_id blake3 b) ≡ true
        → SameMaps
            (apply_record blake3 disk (refer sid (block_id blake3 b)) t)
            (live_insert s sid b)
    unfolding apply_record
    refer-SameMaps b known = record {
      blocks = rw (
        blocks-reference,
        m.blocks,
        blocks-live_insert,
        put_block_known (block_id blake3 b) b s known,
      );
      sessions = rw (
        sessions-reference,
        contains-SameMaps s t (block_id blake3 b) m,
        known,
        m.sessions,
        sessions-live_insert,
      );
    }

  Shadow-insert :
      (s : ContentStore) (sid : ℕ) (b : Block)
      → IsU128 sid × IsBlock b
      → (h : Shadow s) → (insert_block blake3 disk sid b s).0.wal_error ≡ none
      → Next h.log (insert_block blake3 disk sid b s).0
  unfolding insert_block insert_with_id live_insert
  Shadow-insert s sid b (hs, hb) h clean =
      let id = block_id blake3 b in
      let s' = insert_session blake3 sid id (store_block id b s).0 in
      let t = apply_all blake3 disk h.log new_store in
      let wal : s'.wal ≡ s.wal = wal-insert_session blake3 sid id _ ∙ wal-store_block id b s in
      elim (Bool-cases (contains s id)) [
        | inl known ↦
            let e = insert_known blake3 disk sid b id s known in
            rw e (
              Shadow-with_log s s' h _ (refer sid id) wal (rw e at clean)
                (λ file. append_reference_lem disk file sid hs id (block_id-IsId blake3 b))
                (refer-SameMaps s t h.same sid b known))
        | inr new ↦
            let e = insert_new blake3 disk sid b id s new in
            rw e (
              Shadow-with_log s s' h _ (insert sid b) wal (rw e at clean)
                (λ file. append_insert_lem disk file sid hs b hb)
                (insert-SameMaps s t h.same sid b))
      ]

  content-SameMaps :
      (s t : ContentStore) (sid : ℕ) (b : Block)
      → SameMaps t s
      → SameMaps
          (apply_record blake3 disk (content sid b) t)
          (store_block (block_id blake3 b) b s).0
  unfolding apply_record store_content
  content-SameMaps s t sid b m = record {
    blocks = rw (blocks-store_content, m.blocks, blocks-store_block);
    sessions = rw (sessions-store_content, m.sessions, sessions-store_block);
  }

  Shadow-content :
      (s : ContentStore) (sid : ℕ) (b : Block)
      → IsU128 sid × IsBlock b
      → (h : Shadow s) → (store_content blake3 disk sid b s).0.wal_error ≡ none
      → Next h.log (store_content blake3 disk sid b s).0
  unfolding store_content
  Shadow-content s sid b (hs, hb) h clean =
      let id = block_id blake3 b in
      let s' = (store_block id b s).0 in
      elim (Bool-cases (contains s id)) [
        | inl known ↦ rw (store_content_known blake3 disk sid b id s known) (record {
          shadow = record {
            log = h.log;
            valid = h.valid;
            bytes = wal-store_block id b s ∙ h.bytes;
            same = record {
              blocks = h.same.blocks ∙ rw (blocks-store_block, put_block_known id b s known);
              sessions = h.same.sessions ∙ sym (sessions-store_block id b s);
            };
          };
          grows = inl refl;
        })
        | inr new ↦
            let e = store_content_new blake3 disk sid b id s new in
            rw e (
              Shadow-with_log s s' h _ (content sid b) (wal-store_block id b s) (rw e at clean)
                (λ file. append_content_lem disk file sid hs b hb)
                (content-SameMaps s _ sid b h.same))
      ]

  refer_id-SameMaps :
      (s t s' : ContentStore) (sid : ℕ) (id : BlockId)
      → SameMaps t s
      → contains s id ≡ true
      → s'.blocks ≡ s.blocks
      → s'.sessions ≡ (append_log blake3 sid id s.sessions).0
      → SameMaps (apply_record blake3 disk (refer sid id) t) s'
  unfolding apply_record
  refer_id-SameMaps s t s' sid id m known eb es = record {
    blocks = rw (blocks-reference, m.blocks) (sym eb);
    sessions = rw (sessions-reference, contains-SameMaps s t id m, known, m.sessions) (sym es);
  }

  seed-SameMaps :
      (s t s' : ContentStore) (sid : ℕ) (ids : List BlockId) (root : MerkleRoot)
      → SameMaps t s
      → s'.blocks ≡ s.blocks
      → s'.sessions ≡ Assoc.insert sid (record { ids = ids; root = root }) s.sessions
      → SameMaps (apply_record blake3 disk (seed sid ids root) t) s'
  unfolding apply_record
  seed-SameMaps s t s' sid ids root m eb es = record {
    blocks = rw (blocks-seed_session, m.blocks) (sym eb);
    sessions = rw (sessions-seed_session, m.sessions) (sym es);
  }

  Shadow-reference :
      (s : ContentStore) (sid : ℕ) (id : BlockId)
      → IsU128 sid × IsId id
      → (h : Shadow s) → (reference blake3 disk sid id s).0.wal_error ≡ none
      → Next h.log (reference blake3 disk sid id s).0
  unfolding reference
  Shadow-reference s sid id (hs, hi) h clean = elim (Bool-cases (contains s id)) [
    | inl known ↦ rw known (
        Shadow-with_log s _ h _ (refer sid id) refl (rw known at clean)
          (λ file. append_reference_lem disk file sid hs id hi)
          (refer_id-SameMaps s _ _ sid id h.same known refl refl))
    | inr new ↦ rw new (record { shadow = h; grows = inl refl })
  ]

  Shadow-seed :
      (s : ContentStore) (sid : ℕ) (ids : List BlockId) (root : MerkleRoot)
      → IsU128 sid × All IsId ids × IsId root
      → (h : Shadow s) → (seed_session blake3 disk sid ids root s).wal_error ≡ none
      → Next h.log (seed_session blake3 disk sid ids root s)
  unfolding seed_session
  Shadow-seed s sid ids root (hs, hi, hr) h clean =
      Shadow-with_log s _ h _ (seed sid ids root) refl clean
        (λ file. append_seed_lem disk file sid hs ids root hi hr)
        (seed-SameMaps s _ _ sid ids root h.same refl refl)

  -- Every operation keeps the log in step, as long as its write has not failed.
  pub Shadow-apply_record :
      (r : Record) (s : ContentStore)
      → IsOp r
      → (h : Shadow s) → (apply_record blake3 disk r s).wal_error ≡ none
      → Next h.log (apply_record blake3 disk r s)
  unfolding apply_record
  Shadow-apply_record (insert sid b) s ho h clean = Shadow-insert s sid b ho h clean
  Shadow-apply_record (refer sid id) s ho h clean = Shadow-reference s sid id ho h clean
  Shadow-apply_record (seed sid ids root) s ho h clean = Shadow-seed s sid ids root ho h clean
  Shadow-apply_record (content sid b) s ho h clean = Shadow-content s sid b ho h clean
