-- ===== src/Shim.antt =====
-- crates/shim/src/lib.rs: the sending side of a session. The content store and the filter are shared
-- by the sessions of a host (`Arc`s), so they are a state of their own beside a session's. Locks are
-- not modelled: a method is one step.
pub mod Roots
pub mod Ack
pub mod Emit
pub mod Exchange
pub mod Pipelined
pub mod Bulk
pub mod Chunks
pub mod Records
pub mod Coalesced
pub mod Registry
pub mod Packing
use dlr.Prelude.{
  ℕ, zero, suc, ◌+◌, ◌≡◌, List, [], ◌∷◌, ◌++◌, length, take, drop, Option, none, some, Bool, true,
  false, if◌then◌else◌, bytes_eq, concat_map,
}
use dlr.Core.Bytes.{Bytes}
use dlr.Core.Blake3.{Blake3}
use dlr.Core.Block.{Block, BlockId}
use dlr.Core.Canonical.{canonical_bytes_and_id}
use dlr.Core.Merkle.{MerkleRoot, root_zero, append_root}
use dlr.Core.Frame.{FrameBlock, inline, ref, AppendFrame, ResyncFrame}
use dlr.Core.Wal.{Disk}
use dlr.Core.Store.{ContentStore, contains, insert_with_canonical, reference}

-- The block compressor (crates/compress); none is an error of it.
pub record Packer : Type 1 where
  pub Compressor : Type 0
  pub with_level : ℕ → Compressor → Compressor
  pub compress : Compressor → Bytes → Option Bytes

-- The cuckoo filter (crates/core/src/filter.rs), of which the shim only asks a hint.
pub record Filter : Type 1 where
  pub State : Type 0
  pub contains : BlockId → State → Bool
  pub insert : BlockId → State → State

-- `unwrap_or_else(|_| c.clone())`
abbrev pub unwrap_or : Option Bytes → Bytes → Bytes
unwrap_or none c = c
unwrap_or (some z) c = z

-- `turns.into_iter().flatten()`
abbrev pub turn_blocks : List Block → List Block
turn_blocks bs = bs

unfoldable pub append_level : ℕ
append_level = 3

-- The length of the first prefix with the root, from `i` ids with root `r` on.
unfoldable pub find_prefix : Blake3 → MerkleRoot → MerkleRoot → ℕ → List BlockId → Option ℕ
find_prefix blake3 acked r i [] = none
find_prefix blake3 acked r i (id ∷ ids) =
    let r' = append_root blake3 r id in
    let rest = find_prefix blake3 acked r' (i + 1) ids in
    if bytes_eq r' acked then some (i + 1) else rest

module _ (packer : Packer) where
  pub record SessionShim : Type 0 where
    pub session_id : ℕ
    pub ids : List BlockId
    pub root : MerkleRoot
    pub base_root : MerkleRoot
    pub base_len : ℕ
    pub compressor : packer.Compressor
    pub append_compressor : packer.Compressor
    pub fountain_k : ℕ
    pub fountain_symbol_size : ℕ

  unfoldable pub new_session : ℕ → packer.Compressor → SessionShim
  new_session sid compressor = record {
    session_id = sid;
    ids = [];
    root = root_zero;
    base_root = root_zero;
    base_len = 0;
    compressor = compressor;
    append_compressor = packer.with_level append_level compressor;
    fountain_k = 64;
    fountain_symbol_size = 1024;
  }

  module _ (filter : Filter) where
    pub record Host : Type 0 where
      pub store : ContentStore
      pub seen : filter.State

    -- The filter is asked first; its "maybe" is checked with the store.
    unfoldable pub is_known : BlockId → Host → Bool
    is_known id h = if filter.contains id h.seen then contains h.store id else false

    module _ (blake3 : Blake3) where
      -- `self.ids.push(id); self.root = append_root(…)`
      unfoldable pub advance : BlockId → SessionShim → SessionShim
      advance id s = record s { ids = s.ids ++ (id ∷ []); root = append_root blake3 s.root id }

      module _ (disk : Disk) where
        -- A block for the frame: by its id if the store has it, else compressed.
        unfoldable pub emit_block : Block → Bytes → BlockId → SessionShim → Host → Host × FrameBlock
        emit_block b c id s h =
            if is_known id h
            then (record h { store = (reference blake3 disk s.session_id id h.store).0 }, ref id)
            else (
              record {
                store = (insert_with_canonical blake3 disk s.session_id b id (some c) h.store).0;
                seen = filter.insert id h.seen;
              },
              inline (record b { payload = unwrap_or (packer.compress s.append_compressor c) c }),
            )

        unfoldable pub ingest_blocks :
            List Block → SessionShim → Host → SessionShim × Host × List FrameBlock
        ingest_blocks [] s h = (s, h, [])
        ingest_blocks (b ∷ bs) s h =
            let (c, id) = canonical_bytes_and_id blake3 b in
            let grown = advance id s in
            let (kept, fb) = emit_block b c id grown h in
            let (s', h', fbs) = ingest_blocks bs grown kept in (s', h', fb ∷ fbs)

        unfoldable pub ingest_turn :
            List Block → SessionShim → Host → SessionShim × Host × AppendFrame
        ingest_turn blocks s h =
            let (s', h', fbs) = ingest_blocks blocks s h in
            (s', h', record { session_id = s'.session_id; base_root = s'.base_root; blocks = fbs })

        unfoldable pub ingest_coalesced :
            List (List Block) → SessionShim → Host → SessionShim × Host × AppendFrame
        unfolding concat_map
        ingest_coalesced turns s h = ingest_turn (concat_map turn_blocks turns) s h

  unfoldable pub apply_ack : Blake3 → MerkleRoot → SessionShim → SessionShim × Bool
  apply_ack blake3 acked s =
      if bytes_eq acked s.root
      then (record s { base_root = acked; base_len = length s.ids }, true)
      else if bytes_eq acked s.base_root
      then (s, true)
      else elim (find_prefix blake3 acked root_zero 0 s.ids) [
        | none ↦ (s, false)
        | some n ↦ (record s { base_root = acked; base_len = n }, true)
      ]

  unfoldable pub resync_frame : SessionShim → ResyncFrame
  resync_frame s = record { session_id = s.session_id; client_root = s.root; manifest = s.ids }
