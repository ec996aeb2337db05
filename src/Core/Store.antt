-- ===== src/Core/Store.antt =====
-- crates/core/src/store.rs: the content store. Shards, locks and atomics are one state: each method
-- is one step of it. A counter is a `u64` that wraps.
pub mod View
pub mod Detached
pub mod Durable
pub mod Recovery
pub mod Crash
use dlr.Prelude.{
  ℕ, zero, suc, ◌+◌, ◌-◌, ◌%◌, ◌^◌, ◌≤◌, ◌<◌, ◌≡◌, List, [], ◌∷◌, ◌++◌, length, take, drop, Option,
  none, some, Bool, true, false, if◌then◌else◌, min, ltb,
}
use dlr.Prelude.Assoc.{Assoc, lookup, insert, keys}
use dlr.Prelude.{nat_eq, bytes_key}
use dlr.Prelude.Results.{Result, ok, err}
use dlr.Core.Bytes.{Bytes}
use dlr.Core.Blake3.{Blake3}
use dlr.Core.Block.{Block, BlockId, block_id}
use dlr.Core.Canonical.{canonical_bytes}
use dlr.Core.Merkle.{MerkleRoot, root_zero, append_root}
use dlr.Core.Wal.{Disk, IoError, append_insert, append_reference, append_seed, append_content}

pub record StoreStats : Type 0 where
  pub blocks_stored : ℕ
  pub bytes_stored : ℕ
  pub blocks_deduped : ℕ
  pub sessions : ℕ

pub record SessionLog : Type 0 where
  pub ids : List BlockId
  pub root : MerkleRoot

-- `wal` is the log's contents, if a log is attached; `wal_error` the first failure of a write.
pub record ContentStore : Type 0 where
  pub blocks : Assoc BlockId Block
  pub sessions : Assoc ℕ SessionLog
  pub stats : StoreStats
  pub wal : Option Bytes
  pub wal_error : Option IoError

abbrev pub new_store : ContentStore
new_store = record {
  blocks = [];
  sessions = [];
  stats = record { blocks_stored = 0; bytes_stored = 0; blocks_deduped = 0; sessions = 0 };
  wal = none;
  wal_error = none;
}

-- `fetch_add` on an `AtomicU64`
abbrev pub fetch_add : ℕ → ℕ → ℕ
fetch_add counter n = (counter + n) % 2 ^ 64

abbrev pub is_some {ℓ} : {A : Type ℓ} → Option A → Bool
is_some none = false
is_some (some a) = true

unfoldable pub get : ContentStore → BlockId → Option Block
get s id = lookup id s.blocks

unfoldable pub contains : ContentStore → BlockId → Bool
contains s id = is_some (lookup id s.blocks)

unfoldable pub session_root : ContentStore → ℕ → MerkleRoot
session_root s session_id = elim (lookup session_id s.sessions) [
  | none ↦ root_zero
  | some l ↦ l.root
]

unfoldable pub session_ids : ContentStore → ℕ → List BlockId
session_ids s session_id = elim (lookup session_id s.sessions) [ none ↦ [] | some l ↦ l.ids ]

unfoldable pub session_len : ContentStore → ℕ → ℕ
session_len s session_id = elim (lookup session_id s.sessions) [ none ↦ 0 | some l ↦ length l.ids ]

unfoldable pub session_list : ContentStore → List ℕ
session_list s = keys s.sessions

-- The blocks of a list of ids; an id whose content is not stored is passed over.
unfoldable pub resolve : Assoc BlockId Block → List BlockId → List Block
resolve blocks [] = []
resolve blocks (id ∷ ids) =
    let rest = resolve blocks ids in elim (lookup id blocks) [ none ↦ rest | some b ↦ b ∷ rest ]

unfoldable pub reconstruct : ContentStore → ℕ → List Block
reconstruct s session_id = elim (lookup session_id s.sessions) [
  | none ↦ []
  | some l ↦ resolve s.blocks l.ids
]

-- `log.ids[from..to]` with both ends cut to the log's length; none is the panic of a slice that ends
-- in front of its start.
unfoldable pub reconstruct_range : ContentStore → ℕ → ℕ → ℕ → Option (List Block)
unfolding resolve
reconstruct_range s session_id from to = elim (lookup session_id s.sessions) [
  | none ↦ some []
  | some l ↦
      let from' = min from (length l.ids) in
      let to' = min to (length l.ids) in
      if ltb to' from'
      then none
      else some (resolve s.blocks (take (to' - from') (drop from' l.ids)))
]

unfoldable pub latch_wal_error : IoError → ContentStore → ContentStore
latch_wal_error e s = record s {
  wal_error = elim s.wal_error [ none ↦ some e | some first ↦ some first ];
}

-- The contents after an append to the log, and its error latched.
unfoldable pub record_wal_result : Bytes × Option IoError → ContentStore → ContentStore
unfolding latch_wal_error
record_wal_result (file, none) s = record s { wal = some file }
record_wal_result (file, some e) s = latch_wal_error e (record s { wal = some file })

-- `OnceLock::set`: a log that is there stays.
unfoldable pub set_wal : Bytes → ContentStore → ContentStore
set_wal file s = elim s.wal [ none ↦ record s { wal = some file } | some old ↦ s ]

-- An append to the log, if there is one.
unfoldable pub with_log : (Bytes → Bytes × Option IoError) → ContentStore → ContentStore
unfolding record_wal_result
with_log f s = elim s.wal [ none ↦ s | some file ↦ record_wal_result (f file) s ]

-- `self.blocks.entry(id)`: the content is stored if the id is vacant.
unfoldable pub store_block : BlockId → Block → ContentStore → ContentStore × Bool
store_block id b s = elim (lookup id s.blocks) [
  | some old ↦ (
    record s { stats = record (s.stats) { blocks_deduped = fetch_add s.stats.blocks_deduped 1 } },
    false,
  )
  | none ↦ (
    record s {
      blocks = insert id b s.blocks;
      stats = record (s.stats) {
        blocks_stored = fetch_add s.stats.blocks_stored 1;
        bytes_stored = fetch_add s.stats.bytes_stored (length b.payload);
      };
    },
    true,
  )
]

module _ (blake3 : Blake3) where
  -- `self.sessions.entry(session_id)`: the log grows by one id, or begins with it.
  unfoldable pub append_log : ℕ → BlockId → Assoc ℕ SessionLog → Assoc ℕ SessionLog × Bool
  append_log session_id id sessions = elim (lookup session_id sessions) [
    | some log ↦ (
      insert session_id
          (record { ids = log.ids ++ (id ∷ []); root = append_root blake3 log.root id }) sessions,
      false,
    )
    | none ↦ (
      insert session_id (record { ids = id ∷ []; root = append_root blake3 root_zero id }) sessions,
      true,
    )
  ]

  unfoldable pub insert_session : ℕ → BlockId → ContentStore → ContentStore
  unfolding append_log
  insert_session session_id id s =
      let (sessions', was_new) = append_log session_id id s.sessions in
      record s {
        sessions = sessions';
        stats = record (s.stats) {
          sessions = if was_new then fetch_add s.stats.sessions 1 else s.stats.sessions;
        };
      }

  module _ (disk : Disk) where
    unfoldable pub insert_with_canonical :
        ℕ → Block → BlockId → Option Bytes → ContentStore → ContentStore × Bool
    insert_with_canonical session_id b id canonical s =
        let (s', newly) = store_block id b s in
        let s'' = insert_session session_id id s' in
        let c : Bytes = elim canonical [ some bytes ↦ bytes | none ↦ canonical_bytes b ] in
        (
          with_log
              (if newly
                then append_insert disk session_id c
                else append_reference disk session_id id)
              s'',
          newly,
        )

    unfoldable pub insert_with_id : ℕ → Block → BlockId → ContentStore → ContentStore × Bool
    insert_with_id session_id b id s = insert_with_canonical session_id b id none s

    unfoldable pub insert_block : ℕ → Block → ContentStore → ContentStore × Bool
    insert_block session_id b s = insert_with_id session_id b (block_id blake3 b) s

    -- The one error is "referenced block not present in store".
    unfoldable pub reference : ℕ → BlockId → ContentStore → ContentStore × Bool
    reference session_id id s =
        if contains s id
        then (
          with_log (append_reference disk session_id id) (record s {
            sessions = (append_log session_id id s.sessions).0;
            stats = record (s.stats) { blocks_deduped = fetch_add s.stats.blocks_deduped 1 };
          }),
          true,
        )
        else (s, false)

    unfoldable pub seed_session : ℕ → List BlockId → MerkleRoot → ContentStore → ContentStore
    seed_session session_id ids root s = with_log (append_seed disk session_id ids root) (record s {
      sessions = insert session_id (record { ids = ids; root = root }) s.sessions;
      stats = record (s.stats) {
        sessions = elim (lookup session_id s.sessions) [
          | none ↦ fetch_add s.stats.sessions 1
          | some old ↦ s.stats.sessions
        ];
      };
    })

    unfoldable pub store_content_with_id : ℕ → Block → BlockId → ContentStore → ContentStore × Bool
    store_content_with_id session_id b id s =
        let (s', newly) = store_block id b s in
        (
          (if newly then with_log (append_content disk session_id (canonical_bytes b)) s' else s'),
          newly,
        )

    unfoldable pub store_content : ℕ → Block → ContentStore → ContentStore × Bool
    store_content session_id b s = store_content_with_id session_id b (block_id blake3 b) s

-- The latched error comes first; a failing flush is latched too.
unfoldable pub flush_wal : Disk → Bool → ContentStore → ContentStore × Option IoError
unfolding latch_wal_error
flush_wal disk sync s = elim s.wal_error [
  | some e ↦ (s, some e)
  | none ↦
      let result : Option IoError = elim s.wal [ none ↦ none | some file ↦ disk.flush file sync ] in
      elim result [ none ↦ (s, none) | some e ↦ (latch_wal_error e s, some e) ]
]
