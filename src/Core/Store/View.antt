-- ===== src/Core/Store/View.antt =====
-- What each operation of the store does to its two maps, whatever the log and the counters are.
use dlr.Prelude.{
  ℕ, ◌≡◌, refl, arith, List, Option, none, some, true, false, not, if◌then◌else◌, Bool-cases, inl,
  inr, nat_eq, bytes_key,
}
use dlr.Prelude.Assoc.{Assoc, lookup, insert}
use dlr.Core.Bytes.{Bytes}
use dlr.Core.Blake3.{Blake3}
use dlr.Core.Block.{Block, BlockId}
use dlr.Core.Merkle.{MerkleRoot}
use dlr.Core.Wal.{Disk, IoError, append_content, append_insert, append_reference}
use dlr.Core.Canonical.{canonical_bytes}
use dlr.Core.Store.{
  ContentStore, contains, append_log, with_log, store_block, insert_session, insert_with_canonical,
  reference, seed_session, store_content_with_id,
}

-- The content map after an insertion: a stored block is never replaced.
unfoldable pub put_block : BlockId → Block → Assoc BlockId Block → Assoc BlockId Block
put_block id b blocks = elim (lookup id blocks) [ some old ↦ blocks | none ↦ insert id b blocks ]

pub put_block_known :
    (id : BlockId) (b : Block) (s : ContentStore)
    → contains s id ≡ true
    → put_block id b s.blocks ≡ s.blocks
unfolding put_block contains
put_block_known id b s h = ground arith

module _ (f : Bytes → Bytes × Option IoError) (s : ContentStore) where
  pub blocks-with_log : (with_log f s).blocks ≡ s.blocks
  unfolding with_log
  blocks-with_log = ground arith

  pub sessions-with_log : (with_log f s).sessions ≡ s.sessions
  unfolding with_log
  sessions-with_log = ground arith

  pub stats-with_log : (with_log f s).stats ≡ s.stats
  unfolding with_log
  stats-with_log = ground arith

  pub with_log-none : s.wal ≡ none → with_log f s ≡ s
  unfolding with_log
  with_log-none h = rw h

  -- An append that leaves no error latched succeeded.
  pub with_log-some :
      (file : Bytes)
      → s.wal ≡ some file
      → (with_log f s).wal_error ≡ none
      → ((f file).1 ≡ none) × ((with_log f s).wal ≡ some (f file).0)
  unfolding with_log
  with_log-some file h e = ground arith

module _ (id : BlockId) (b : Block) (s : ContentStore) where
  pub blocks-store_block : (store_block id b s).0.blocks ≡ put_block id b s.blocks
  unfolding store_block put_block
  blocks-store_block = ground arith

  pub sessions-store_block : (store_block id b s).0.sessions ≡ s.sessions
  unfolding store_block
  sessions-store_block = ground arith

  pub wal-store_block : (store_block id b s).0.wal ≡ s.wal
  unfolding store_block
  wal-store_block = ground arith

  pub newly-store_block : (store_block id b s).1 ≡ not (contains s id)
  unfolding store_block contains
  newly-store_block = ground arith

module _ (blake3 : Blake3) (sid : ℕ) (id : BlockId) (s : ContentStore) where
  pub blocks-insert_session : (insert_session blake3 sid id s).blocks ≡ s.blocks
  unfolding insert_session
  blocks-insert_session = refl

  pub sessions-insert_session :
      (insert_session blake3 sid id s).sessions ≡ (append_log blake3 sid id s.sessions).0
  unfolding insert_session
  sessions-insert_session = refl

  pub wal-insert_session : (insert_session blake3 sid id s).wal ≡ s.wal
  unfolding insert_session
  wal-insert_session = refl

module _ (blake3 : Blake3) (disk : Disk) (sid : ℕ) where
  module _ (b : Block) (id : BlockId) (s : ContentStore) where
    pub blocks-insert :
        (c : Option Bytes)
        → (insert_with_canonical blake3 disk sid b id c s).0.blocks ≡ put_block id b s.blocks
    unfolding insert_with_canonical
    blocks-insert c = rw (blocks-with_log, blocks-insert_session, blocks-store_block)

    pub sessions-insert :
        (c : Option Bytes)
        → (insert_with_canonical blake3 disk sid b id c s).0.sessions
          ≡ (append_log blake3 sid id s.sessions).0
    unfolding insert_with_canonical
    sessions-insert c = rw (sessions-with_log, sessions-insert_session, sessions-store_block)

    -- A new block is logged with its content, a known one by its id.
    pub insert_new :
        contains s id ≡ false
        → (insert_with_canonical blake3 disk sid b id none s).0
          ≡ with_log
              (append_insert disk sid (canonical_bytes b))
              (insert_session blake3 sid id (store_block id b s).0)
    unfolding insert_with_canonical
    insert_new e = rw (newly-store_block, e)

    pub insert_known :
        contains s id ≡ true
        → (insert_with_canonical blake3 disk sid b id none s).0
          ≡ with_log
              (append_reference disk sid id)
              (insert_session blake3 sid id (store_block id b s).0)
    unfolding insert_with_canonical
    insert_known e = rw (newly-store_block, e)

    pub store_content_new :
        contains s id ≡ false
        → (store_content_with_id blake3 disk sid b id s).0
          ≡ with_log (append_content disk sid (canonical_bytes b)) (store_block id b s).0
    unfolding store_content_with_id
    store_content_new e = rw (newly-store_block, e)

    pub store_content_known :
        contains s id ≡ true
        → (store_content_with_id blake3 disk sid b id s).0 ≡ (store_block id b s).0
    unfolding store_content_with_id
    store_content_known e = rw (newly-store_block, e)

    pub blocks-store_content :
        (store_content_with_id blake3 disk sid b id s).0.blocks ≡ put_block id b s.blocks
    unfolding store_content_with_id
    blocks-store_content = ground (
      arith,
      blocks-store_block id b s,
      blocks-with_log (append_content disk sid (canonical_bytes b)) (store_block id b s).0,
    )

    pub sessions-store_content :
        (store_content_with_id blake3 disk sid b id s).0.sessions ≡ s.sessions
    unfolding store_content_with_id
    sessions-store_content = ground (
      arith,
      sessions-store_block id b s,
      sessions-with_log (append_content disk sid (canonical_bytes b)) (store_block id b s).0,
    )

  module _ (id : BlockId) (s : ContentStore) where
    pub blocks-reference : (reference blake3 disk sid id s).0.blocks ≡ s.blocks
    unfolding reference
    blocks-reference = elim (Bool-cases (contains s id)) [
      | inl e ↦ rw (e, blocks-with_log)
      | inr e ↦ rw e
    ]

    pub sessions-reference :
        (reference blake3 disk sid id s).0.sessions
        ≡ (if contains s id then (append_log blake3 sid id s.sessions).0 else s.sessions)
    unfolding reference
    sessions-reference = elim (Bool-cases (contains s id)) [
      | inl e ↦ rw (e, sessions-with_log)
      | inr e ↦ rw e
    ]

  module _ (ids : List BlockId) (root : MerkleRoot) (s : ContentStore) where
    pub blocks-seed_session : (seed_session blake3 disk sid ids root s).blocks ≡ s.blocks
    unfolding seed_session
    blocks-seed_session = rw blocks-with_log

    pub sessions-seed_session :
        (seed_session blake3 disk sid ids root s).sessions
        ≡ insert sid (record { ids = ids; root = root }) s.sessions
    unfolding seed_session
    sessions-seed_session = rw sessions-with_log
