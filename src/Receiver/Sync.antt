-- ===== src/Receiver/Sync.antt =====
-- crates/receiver/src/lib.rs: RESYNC, BULK and the dispatch of frames.
use dlr.Prelude.{
  ℕ, List, [], ◌∷◌, length, Option, none, some, Bool, true, false, not, ◌&&◌, if◌then◌else◌,
  concat_map, nat_eq,
}
use dlr.Prelude.Assoc.{lookup, insert, remove}
use dlr.Prelude.Results.{Result, ok, err}
use dlr.Core.Bytes.{Bytes}
use dlr.Core.Blake3.{Blake3}
use dlr.Core.Block.{Block, BlockId}
use dlr.Core.Merkle.{MerkleRoot}
use dlr.Core.Frame.{ResyncFrame, BulkFrame, Frame, append, resync, bulk, ack, missing}
use dlr.Core.Wal.{Disk}
use dlr.Core.Store.{ContentStore, session_len, seed_session, store_content_with_id}
use dlr.Core.Store
use dlr.Receiver.{
  Codec, Decoding, decoded, underdetermined, decode_failed, ReceiverError, fountain_error,
  LogPointer, SessionState, Receiver, session_entry, handle_append, recover_blocks, missing_ids,
  without_all, is_empty, parse_stream,
}

abbrev pub chunk_bytes : Bytes → Bytes
chunk_bytes s = s

abbrev pub second {ℓ} : {A : Type ℓ} → A × BlockId → BlockId
second p = p.1

abbrev pub ids_of : List (Block × BlockId) → List BlockId
ids_of [] = []
ids_of ((b, id) ∷ found) = id ∷ ids_of found

module _ (codec : Codec) where
  -- `for s in &frame.symbols { d.add(s)?; }`; the decoder keeps what came in front of an error.
  unfoldable pub add_symbols : List Bytes → codec.Decoder → codec.Decoder × Bool
  add_symbols [] d = (d, true)
  add_symbols (s ∷ ss) d =
      let (d', added) = codec.add s d in
      elim added [ true ↦ add_symbols ss d' | false ↦ (d', false) ]

  -- A cold start's decoder is shared with the session; a change of it is a change of the session.
  abbrev pub with_decoder : ℕ → codec.Decoder → SessionState codec → SessionState codec
  with_decoder generation d st = record st { decoders = insert generation d st.decoders }

  unfoldable pub decoder_entry : BulkFrame → SessionState codec → codec.Decoder
  decoder_entry f st = elim (lookup f.generation st.decoders) [
    | none ↦ codec.new_decoder f.k f.symbol_size
    | some d ↦ d
  ]

  module _ (blake3 : Blake3) (disk : Disk) where
    unfoldable pub handle_resync : ResyncFrame → Receiver codec → Receiver codec × List BlockId
    handle_resync f r =
        let missing = missing_ids r.store f.manifest in
        let s' = seed_session blake3 disk f.session_id f.manifest f.client_root r.store in
        let st = session_entry codec f.session_id r.sessions in
        (
          record {
            store = s';
            sessions =
                insert f.session_id (record st { pending = missing; acked = is_empty missing })
                  r.sessions;
          },
          missing,
        )

    unfoldable pub store_contents : ℕ → List (Block × BlockId) → ContentStore → ContentStore
    store_contents sid [] s = s
    store_contents sid ((b, id) ∷ found) s =
        store_contents sid found (store_content_with_id blake3 disk sid b id s).0

    -- The recovered blocks are stored, retired from the pending set, and the first time that it is
    -- empty the root is returned.
    unfoldable pub complete_bulk :
        BulkFrame
        → List (Block × BlockId)
        → SessionState codec
        → Receiver codec
        → Receiver codec × Option MerkleRoot
    complete_bulk f found st r =
        let s' = store_contents f.session_id found r.store in
        let pending = without_all (ids_of found) st.pending in
        let completes = is_empty pending && not st.acked in
        (
          record {
            store = s';
            sessions =
                insert f.session_id
                  (record {
                    pending = pending;
                    acked = if completes then true else st.acked;
                    decoders = remove f.generation st.decoders;
                  })
                  r.sessions;
          },
          (if completes then some (Store.session_root s' f.session_id) else none),
        )

    -- The session's state with the decoder as it is now.
    unfoldable pub keep_decoder :
        BulkFrame → SessionState codec → codec.Decoder → Receiver codec → Receiver codec
    keep_decoder f st d r = record r {
      sessions = insert f.session_id (with_decoder f.generation d st) r.sessions;
    }

    -- The arms of the match on the decoder's result; `d` is the decoder behind the call.
    unfoldable pub finish_bulk :
        BulkFrame
        → SessionState codec
        → codec.Decoder
        → Decoding
        → Receiver codec
        → Receiver codec × Result ReceiverError (Option MerkleRoot)
    finish_bulk f st d underdetermined r = (keep_decoder f st d r, ok none)
    finish_bulk f st d decode_failed r = (keep_decoder f st d r, err fountain_error)
    finish_bulk f st d (decoded symbols) r =
        let flat = concat_map chunk_bytes symbols in
        elim (recover_blocks codec blake3 (parse_stream (length flat) flat)) [
          | err e ↦ (keep_decoder f st d r, err e)
          | ok found ↦
              let (r', completion) = complete_bulk f found (with_decoder f.generation d st) r in
              (r', ok completion)
        ]

    unfoldable pub handle_bulk :
        BulkFrame → Receiver codec → Receiver codec × Result ReceiverError (Option MerkleRoot)
    handle_bulk f r =
        let st = session_entry codec f.session_id r.sessions in
        let (d, added) = add_symbols f.symbols (decoder_entry f st) in
        elim added [
          | false ↦ (keep_decoder f st d r, err fountain_error)
          | true ↦ let (d', decoding) = codec.decode d in finish_bulk f st d' decoding r
        ]

    unfoldable pub handle_frame :
        Frame → Receiver codec → Receiver codec × Result ReceiverError (Option Frame)
    handle_frame (append a) r =
        let (r', answer) = handle_append codec blake3 disk a r in
        (r', elim answer [ ok found ↦ ok (some (ack found)) | err e ↦ err e ])
    handle_frame (resync f) r =
        let (r', absent) = handle_resync f r in
        (
          r',
          (if is_empty absent
              then ok (
                  some (
                    ack (record {
                      session_id = f.session_id;
                      root = Store.session_root r'.store f.session_id;
                    })))
              else ok (some (missing (record { session_id = f.session_id; missing = absent })))),
        )
    handle_frame (bulk f) r =
        let (r', answer) = handle_bulk f r in
        (
          r',
          elim answer [
            | err e ↦ err e
            | ok none ↦ ok none
            | ok (some root) ↦ ok (some (ack (record { session_id = f.session_id; root = root })))
          ],
        )
    handle_frame (ack a) r = (r, ok none)
    handle_frame (missing m) r = (r, ok none)

  -- A handle on an assembled log.
  unfoldable pub pointer : Receiver codec → ℕ → Option LogPointer
  pointer r sid = elim (lookup sid r.sessions) [
    | none ↦ none
    | some st ↦ some (record {
      session_id = sid;
      root = Store.session_root r.store sid;
      len = session_len r.store sid;
    })
  ]

  unfoldable pub receiver_root : Receiver codec → ℕ → Option MerkleRoot
  receiver_root r sid = elim (lookup sid r.sessions) [
    | none ↦ none
    | some st ↦ some (Store.session_root r.store sid)
  ]

  unfoldable pub receiver_log : Receiver codec → ℕ → List Block
  receiver_log r sid = elim (lookup sid r.sessions) [
    | none ↦ []
    | some st ↦ Store.reconstruct r.store sid
  ]

  unfoldable pub receiver_range : Receiver codec → ℕ → ℕ → ℕ → Option (List Block)
  receiver_range r sid from to = elim (lookup sid r.sessions) [
    | none ↦ some []
    | some st ↦ Store.reconstruct_range r.store sid from to
  ]
