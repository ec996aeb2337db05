-- ===== src/Receiver.antt =====
-- crates/receiver/src/lib.rs: the receiver's session state over the content store. Locks are not
-- modelled: a method is one step. The fountain decoder (crates/coding) and the compressor
-- (crates/compress) are an interface; the texts of their errors are left out.
pub mod Sync
pub mod Membership
pub mod Atomic
pub mod Applied
pub mod Append
pub mod Entries
pub mod Replay
pub mod Complete
pub mod Bulk
pub mod Ack
pub mod Log
pub mod Current
use dlr.Prelude.{
  ℕ, zero, suc, ◌==◌, List, [], ◌∷◌, ◌++◌, length, take, drop, map, Option, none, some, Bool, true,
  false, ltb, if◌then◌else◌, concat_map, nat_eq, bytes_key, bytes_eq,
}
use dlr.Prelude.Assoc.{Assoc, lookup, insert, remove}
use dlr.Prelude.Results.{Result, ok, err}
use dlr.Core.Bytes.{Bytes, from_le}
use dlr.Core.Blake3.{Blake3}
use dlr.Core.Block.{Block, BlockId}
use dlr.Core.Merkle.{MerkleRoot, append_root}
use dlr.Core.Canonical.{CanonicalError, from_canonical_owned}
use dlr.Core.Frame.{
  FrameBlock, inline, ref, AppendFrame, ResyncFrame, BulkFrame, AckFrame, MissingFrame, Frame,
  append, resync, bulk, ack, missing,
}
use dlr.Core.Wal.{Disk}
use dlr.Core.Store.{
  ContentStore, contains, session_root, session_ids, session_len, session_list, reconstruct,
  seed_session, insert_with_id, reference, store_content_with_id,
}

-- `FountainDecoder::decode`: the symbols, too few of them yet, or another error.
pub data Decoding : Type 0 where
  decoded : List Bytes → Decoding
  underdetermined decode_failed : Decoding

-- What the receiver calls. `add` returns whether the symbol was refused, `decompress` none if the
-- bytes were.
pub record Codec : Type 1 where
  pub Decoder : Type 0
  pub new_decoder : ℕ → ℕ → Decoder
  pub add : Bytes → Decoder → Decoder × Bool
  pub decode : Decoder → Decoder × Decoding
  pub decompress : Bytes → Option Bytes

pub data ReceiverError : Type 0 where
  fountain_error compress_error missing_ref_error : ReceiverError
  frame_error : CanonicalError → ReceiverError
  no_session : ℕ → ReceiverError
  cold_start_in_progress : ℕ → ReceiverError
  base_root_mismatch : ℕ → MerkleRoot → MerkleRoot → ReceiverError

pub record LogPointer : Type 0 where
  pub session_id : ℕ
  pub root : MerkleRoot
  pub len : ℕ

pub data Resolved : Type 0 where
  resolved_inline : BlockId → Block → Resolved
  resolved_ref : BlockId → Resolved

-- A `HashSet` is a list of its members, possibly with repeats.
abbrev pub is_empty {ℓ} : {A : Type ℓ} → List A → Bool
is_empty [] = true
is_empty (x ∷ xs) = false

unfoldable pub mem : BlockId → List BlockId → Bool
mem id [] = false
mem id (x ∷ xs) = if bytes_eq x id then true else mem id xs

unfoldable pub without : BlockId → List BlockId → List BlockId
without id [] = []
without id (x ∷ xs) = let rest = without id xs in if bytes_eq id x then rest else x ∷ rest

unfoldable pub without_all : List BlockId → List BlockId → List BlockId
without_all [] pending = pending
without_all (id ∷ ids) pending = without_all ids (without id pending)

-- The ids whose content is not stored, in order.
unfoldable pub missing_ids : ContentStore → List BlockId → List BlockId
missing_ids s [] = []
missing_ids s (id ∷ ids) = let rest = missing_ids s ids in if contains s id then rest else id ∷ rest

unfoldable pub resolved_id : Resolved → BlockId
resolved_id (resolved_inline id b) = id
resolved_id (resolved_ref id) = id

-- Every reference is to a stored block or to an inline block in front of it.
unfoldable pub refs_available : ContentStore → List BlockId → List Resolved → Bool
refs_available s available [] = true
refs_available s available (resolved_inline id b ∷ rs) = refs_available s (id ∷ available) rs
refs_available s available (resolved_ref id ∷ rs) =
    let rest = refs_available s available rs in
    if contains s id then rest else if mem id available then rest else false

-- The `[len: u32][bytes]` records of the decoded stream, up to a zero length or a truncated tail.
-- A round takes four bytes at least, so as much fuel as there are bytes is enough.
unfoldable pub parse_stream : ℕ → Bytes → List Bytes
parse_stream zero flat = []
parse_stream (suc fuel) flat =
    let blen = from_le (take 4 flat) in
    let tail = drop 4 flat in
    let rest = parse_stream fuel (drop blen tail) in
    if ltb (length flat) 4
    then []
    else if blen == 0
    then []
    else if ltb (length tail) blen
    then []
    else take blen tail ∷ rest

module _ (codec : Codec) where
  pub record SessionState : Type 0 where
    pub pending : List BlockId
    pub acked : Bool
    pub decoders : Assoc ℕ codec.Decoder

  pub record Receiver : Type 0 where
    pub store : ContentStore
    pub sessions : Assoc ℕ SessionState

  abbrev pub new_session : SessionState
  new_session = record { pending = []; acked = false; decoders = [] }

  -- `entry(session_id).or_insert_with(…)`
  unfoldable pub session_entry : ℕ → Assoc ℕ SessionState → SessionState
  session_entry sid sessions = elim (lookup sid sessions) [ none ↦ new_session | some st ↦ st ]

  unfoldable pub recover_sessions : ContentStore → List ℕ → Assoc ℕ SessionState
  recover_sessions s [] = []
  recover_sessions s (sid ∷ sids) =
      let pending = missing_ids s (session_ids s sid) in
      insert sid (record { pending = pending; acked = is_empty pending; decoders = [] })
        (recover_sessions s sids)

  unfoldable pub new_receiver : ContentStore → Receiver
  unfolding recover_sessions
  new_receiver s = record { store = s; sessions = recover_sessions s (session_list s) }

  module _ (blake3 : Blake3) where
    -- A compressed canonical block, unpacked.
    unfoldable pub unpack : Bytes → Result ReceiverError (Block × BlockId)
    unpack comp = elim (codec.decompress comp) [
      | none ↦ err compress_error
      | some canon ↦ elim (from_canonical_owned blake3 canon) [
        | err e ↦ err (frame_error e)
        | ok found ↦ ok found
      ]
    ]

    unfoldable pub resolve_block : FrameBlock → Result ReceiverError Resolved
    resolve_block (ref id) = ok (resolved_ref id)
    resolve_block (inline wire) = elim (unpack wire.payload) [
      | err e ↦ err e
      | ok (b, id) ↦ ok (resolved_inline id b)
    ]

    unfoldable pub resolve_blocks : List FrameBlock → Result ReceiverError (List Resolved)
    resolve_blocks [] = ok []
    resolve_blocks (fb ∷ fbs) = elim (resolve_block fb) [
      | err e ↦ err e
      | ok item ↦ elim (resolve_blocks fbs) [ err e ↦ err e | ok items ↦ ok (item ∷ items) ]
    ]

    -- The blocks of a decoded stream; of several errors the first.
    unfoldable pub recover_blocks : List Bytes → Result ReceiverError (List (Block × BlockId))
    recover_blocks [] = ok []
    recover_blocks (comp ∷ comps) = elim (unpack comp) [
      | err e ↦ err e
      | ok found ↦ elim (recover_blocks comps) [ err e ↦ err e | ok rest ↦ ok (found ∷ rest) ]
    ]

    -- The root that a frame claims to produce.
    unfoldable pub target_root : MerkleRoot → List Resolved → MerkleRoot
    target_root root [] = root
    target_root root (item ∷ items) = target_root (append_root blake3 root (resolved_id item)) items

    module _ (disk : Disk) where
      -- The loop that appends; `false` is `MissingRef`, at the first reference that is not stored.
      unfoldable pub apply_resolved : ℕ → List Resolved → ContentStore → ContentStore × Bool
      apply_resolved sid [] s = (s, true)
      apply_resolved sid (resolved_inline id b ∷ items) s =
          apply_resolved sid items (insert_with_id blake3 disk sid b id s).0
      apply_resolved sid (resolved_ref id ∷ items) s =
          let (s', found) = reference blake3 disk sid id s in
          elim found [ true ↦ apply_resolved sid items s' | false ↦ (s', false) ]

      -- The critical section of `handle_append`, behind the validation.
      unfoldable pub append_resolved :
          AppendFrame → List Resolved → Receiver → Receiver × Result ReceiverError AckFrame
      append_resolved f items r =
          let st = session_entry f.session_id r.sessions in
          let sessions' = insert f.session_id st r.sessions in
          let cur_root = session_root r.store f.session_id in
          let target = target_root f.base_root items in
          let (s', applied) = apply_resolved f.session_id items r.store in
          elim (is_empty st.pending) [
            | false ↦ (record r { sessions = sessions' }, err (cold_start_in_progress f.session_id))
            | true ↦ elim (bytes_eq f.base_root cur_root) [
              | false ↦ (
                record r { sessions = sessions' },
                (if bytes_eq target cur_root
                    then ok (record { session_id = f.session_id; root = cur_root })
                    else err (base_root_mismatch f.session_id f.base_root cur_root)),
              )
              | true ↦ (
                record { store = s'; sessions = sessions' },
                (if applied
                    then ok
                        (record { session_id = f.session_id; root = session_root s' f.session_id })
                    else err missing_ref_error),
              )
            ]
          ]

      unfoldable pub handle_append :
          AppendFrame → Receiver → Receiver × Result ReceiverError AckFrame
      handle_append f r = elim (resolve_blocks f.blocks) [
        | err e ↦ (r, err e)
        | ok items ↦ elim (refs_available r.store [] items) [
          | false ↦ (r, err missing_ref_error)
          | true ↦ append_resolved f items r
        ]
      ]
