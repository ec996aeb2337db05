-- ===== src/Receiver/Bulk.antt =====
-- What a BULK frame changes.
use dlr.Prelude.{
  ℕ, ◌==◌, ◌≡◌, refl, ◌∙◌, arith, List, [], ◌∷◌, length, concat_map, true, false, if◌then◌else◌,
  Bool-cases, inl, inr, nat_eq, ==_iff,
}
use dlr.Prelude.Results.{Result-cases}
use dlr.Core.Blake3.{Blake3}
use dlr.Core.Block.{Block, BlockId}
use dlr.Core.Frame.{BulkFrame}
use dlr.Core.Wal.{Disk}
use dlr.Core.Store.{ContentStore, contains, session_ids, store_content_with_id}
use dlr.Core.Store.View.{sessions-store_content}
use dlr.Receiver.{
  Codec, Decoding, decoded, underdetermined, decode_failed, recover_blocks, parse_stream, Receiver,
  SessionState, mem, session_entry, without, without_all,
}
use dlr.Receiver.Sync.{
  store_contents, complete_bulk, handle_bulk, finish_bulk, keep_decoder, with_decoder,
  decoder_entry, add_symbols, ids_of, chunk_bytes,
}
use dlr.Receiver.Membership.{contains-store_content, mem-without}
use dlr.Receiver.Complete.{IsComplete, SamePending, IsComplete-same}
use dlr.Receiver.Entries.{session_entry-insert, pending-insert}

mem-without_all :
    (j : BlockId) (ids pending : List BlockId)
    → mem j (without_all ids pending) ≡ (if mem j ids then false else mem j pending)
unfolding mem without_all
mem-without_all j [] pending = refl
mem-without_all j (id ∷ ids) pending =
    ground (arith, mem-without_all j ids (without id pending), mem-without id j pending)

module _ (codec : Codec) (blake3 : Blake3) (disk : Disk) where
  session_ids-store_contents :
      (sid j : ℕ) (found : List (Block × BlockId)) (s : ContentStore)
      → session_ids (store_contents codec blake3 disk sid found s) j ≡ session_ids s j
  unfolding store_contents session_ids
  session_ids-store_contents sid j [] s = refl
  session_ids-store_contents sid j ((b, id) ∷ found) s =
      session_ids-store_contents sid j found _ ∙ rw (session_ids, sessions-store_content)

  contains-store_contents :
      (sid : ℕ) (j : BlockId) (found : List (Block × BlockId)) (s : ContentStore)
      → contains (store_contents codec blake3 disk sid found s) j
        ≡ (if mem j (ids_of found) then true else contains s j)
  unfolding store_contents mem
  contains-store_contents sid j [] s = refl
  contains-store_contents sid j ((b, id) ∷ found) s =
      let next = (store_content_with_id blake3 disk sid b id s).0 in
      ground (
        arith,
        contains-store_contents sid j found next,
        contains-store_content blake3 disk sid b id j s,
      )

  complete_bulk-IsComplete :
      (f : BulkFrame) (found : List (Block × BlockId)) (st : SessionState codec)
      (r : Receiver codec)
      → st.pending ≡ (session_entry codec f.session_id r.sessions).pending
      → IsComplete codec r
      → IsComplete codec (complete_bulk codec blake3 disk f found st r).0
  unfolding complete_bulk
  complete_bulk-IsComplete f found st r e h j id m =
      let m' : mem id (session_ids r.store j) ≡ true = rw session_ids-store_contents at m in
      elim (Bool-cases (mem id (ids_of found))) [
        | inl new ↦ inl (rw (contains-store_contents, new))
        | inr old ↦ elim (h j id m') [
          | inl c ↦ inl (rw (contains-store_contents, old) c)
          | inr p ↦ inr (elim (Bool-cases (f.session_id == j)) [
            | inl same ↦
                rw
                  (
                    session_entry-insert,
                    same,
                    mem-without_all,
                    old,
                    e,
                    (==_iff f.session_id j).0 same,
                  )
                  p
            | inr other ↦ rw (session_entry-insert, other) p
          ])
        ]
      ]

  keep_decoder-IsComplete :
      (f : BulkFrame) (d : codec.Decoder) (r : Receiver codec)
      → IsComplete codec r
      → IsComplete codec
          (keep_decoder codec blake3 disk f (session_entry codec f.session_id r.sessions) d r)
  unfolding keep_decoder SamePending
  keep_decoder-IsComplete f d r h =
      let st = session_entry codec f.session_id r.sessions in
      IsComplete-same codec r _ h refl (λ j.
        pending-insert codec f.session_id (with_decoder codec f.generation d st) r.sessions j refl)

  finish_bulk-IsComplete :
      (f : BulkFrame) (d : codec.Decoder) (decoding : Decoding) (r : Receiver codec)
      → IsComplete codec r
      → IsComplete codec
          (finish_bulk codec blake3 disk f
            (session_entry codec f.session_id r.sessions)
            d
            decoding
            r).0
  unfolding finish_bulk
  finish_bulk-IsComplete f d underdetermined r h = keep_decoder-IsComplete f d r h
  finish_bulk-IsComplete f d decode_failed r h = keep_decoder-IsComplete f d r h
  finish_bulk-IsComplete f d (decoded symbols) r h =
      let flat = concat_map chunk_bytes symbols in
      elim (Result-cases (recover_blocks codec blake3 (parse_stream (length flat) flat))) [
        | inr (e, p) ↦ rw (p, finish_bulk) (keep_decoder-IsComplete f d r h)
        | inl (found, p) ↦
            let st =
              with_decoder codec f.generation d (session_entry codec f.session_id r.sessions) in
            rw (p, finish_bulk) (complete_bulk-IsComplete f found st r refl h)
      ]

  pub handle_bulk-IsComplete :
      (f : BulkFrame) (r : Receiver codec)
      → IsComplete codec r
      → IsComplete codec (handle_bulk codec blake3 disk f r).0
  unfolding handle_bulk
  handle_bulk-IsComplete f r h =
      let st = session_entry codec f.session_id r.sessions in
      let (d, added) = add_symbols codec f.symbols (decoder_entry codec f st) in
      elim (Bool-cases added) [
        | inl e ↦
            rw (e, handle_bulk) (finish_bulk-IsComplete f (codec.decode d).0 (codec.decode d).1 r h)
        | inr e ↦ rw (e, handle_bulk) (keep_decoder-IsComplete f d r h)
      ]
