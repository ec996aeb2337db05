-- ===== src/Shim/Exchange.antt =====
-- A turn that is sent, handled and acknowledged: crates/shim and crates/receiver together.
use dlr.Prelude.{
  ◌≡◌, refl, sym, subst, ap, ◌∙◌, List, [], ◌∷◌, ◌++◌, map, Bool, true, false, All, length, ◌&&◌,
  bytes_eq, bytes_eq_iff, concat_map, inl, inr, nat_eq, append-nil, append_assoc, map-append,
}
use dlr.Prelude.Results.{Result, ok, err}
use dlr.Core.Blake3.{Blake3}
use dlr.Core.Block.{Block, BlockId, block_id}
use dlr.Core.Frame.{AppendFrame, AckFrame}
use dlr.Core.Merkle.{root_over}
use dlr.Core.Wal.{Disk}
use dlr.Core.Store.{contains, session_root, session_ids}
use dlr.Receiver.{
  Codec, ReceiverError, Receiver, SessionState, session_entry, is_empty, handle_append, resolved_id,
}
use dlr.Receiver.Entries.{session_entry-insert_self}
use dlr.Receiver.Current.{Taken, handle_append-Taken}
use dlr.Shim.{Packer, Filter, SessionShim, Host, ingest_turn, apply_ack}
use dlr.Shim.Roots.{Grown, ingest_blocks-Grown}
use dlr.Shim.Emit.{Packs, Resolves, ingest_blocks-Resolves}

module _ (packer : Packer) (filter : Filter) (codec : Codec) (blake3 : Blake3) (disk : Disk) where
  -- The two ends of a connection.
  pub record Link : Type 0 where
    pub shim : SessionShim packer
    pub host : Host packer filter
    pub receiver : Receiver codec

  -- The answer of the receiver, at the shim; true if it was an ACK that the shim took.
  abbrev pub answered :
      Result ReceiverError AckFrame → SessionShim packer → SessionShim packer × Bool
  answered (ok a) s = apply_ack packer blake3 a.root s
  answered (err e) s = (s, false)

  -- A turn, its frame at the receiver, and the answer at the shim.
  unfoldable pub exchange : List Block → Link → Link × Bool
  exchange blocks l =
      let (s, h, f) = ingest_turn packer filter blake3 disk blocks l.shim l.host in
      let (r, answer) = handle_append codec blake3 disk f l.receiver in
      let (s', took) = answered answer s in (record { shim = s'; host = h; receiver = r }, took)

  unfoldable pub exchanges : List (List Block) → Link → Link × Bool
  exchanges [] l = (l, true)
  exchanges (blocks ∷ turns) l =
      let (l', took) = exchange blocks l in
      let (l'', rest) = exchanges turns l' in (l'', took && rest)

  -- No turn is under way, both ends have the same log, and what the host has stored the receiver has.
  pub record Synced (l : Link) : Type 0 where
    pub base : l.shim.base_root ≡ l.shim.root
    pub root : session_root l.receiver.store l.shim.session_id ≡ l.shim.root
    pub log : session_ids l.receiver.store l.shim.session_id ≡ l.shim.ids
    pub idle : is_empty (session_entry codec l.shim.session_id l.receiver.sessions).pending ≡ true
    pub covered :
        (id : BlockId) → contains l.host.store id ≡ true → contains l.receiver.store id ≡ true

  module _ (blocks : List Block) (l : Link) (synced : Synced l)
      (packs : All (Packs packer filter codec blake3 l.shim.append_compressor) blocks) where
    abbrev pub sent : SessionShim packer × Host packer filter × AppendFrame
    sent = ingest_turn packer filter blake3 disk blocks l.shim l.host

    abbrev ids : List BlockId
    ids = map (block_id blake3) blocks

    sent-Resolves :
        Resolves packer filter codec blake3 disk blocks l.host sent.1 sent.2.blocks l.receiver.store
          []
    unfolding ingest_turn
    sent-Resolves =
        ingest_blocks-Resolves packer filter codec blake3 disk blocks l.shim l.host l.receiver.store
          [] packs (λ id c. inl (synced.covered id c))

    pub sent-Grown : Grown packer filter blake3 disk ids l.shim sent.0
    unfolding ingest_turn
    sent-Grown = ingest_blocks-Grown packer filter blake3 disk blocks l.shim l.host

    pub sent_session : sent.2.session_id ≡ l.shim.session_id
    unfolding ingest_turn
    sent_session = sent-Grown.session

    sent_base : sent.2.base_root ≡ l.shim.root
    unfolding ingest_turn
    sent_base = sent-Grown.base_root ∙ synced.base

    sent_idle : is_empty (session_entry codec sent.2.session_id l.receiver.sessions).pending ≡ true
    sent_idle = rw sent_session synced.idle

    sent-Taken : Taken codec blake3 disk sent.2 l.receiver sent-Resolves.items
    sent-Taken =
        handle_append-Taken codec blake3 disk sent.2 l.receiver sent-Resolves.items
          sent-Resolves.resolved sent-Resolves.refs sent_idle
          (sent_base ∙ sym synced.root ∙ ap (session_root l.receiver.store) (sym sent_session))

    sent_root :
        root_over blake3 sent.2.base_root (map resolved_id sent-Resolves.items) ≡ sent.0.root
    sent_root =
        ap (λ r. root_over blake3 r (map resolved_id sent-Resolves.items)) sent_base
        ∙ ap (root_over blake3 l.shim.root) sent-Resolves.ids
        ∙ sym sent-Grown.root

    apply_ack_current :
        (s : SessionShim packer)
        → apply_ack packer blake3 s.root s
          ≡ (record s { base_root = s.root; base_len = length s.ids }, true)
    unfolding apply_ack
    apply_ack_current s =
        let same : bytes_eq s.root s.root ≡ true = (bytes_eq_iff s.root s.root).1 refl in rw same

    exchange_lem : exchange blocks l ≡ (
      record {
        shim = record (sent.0) { base_root = sent.0.root; base_len = length sent.0.ids };
        host = sent.1;
        receiver = (handle_append codec blake3 disk sent.2 l.receiver).0;
      },
      true,
    )
    unfolding exchange
    exchange_lem = rw (sent-Taken.answer, exchange, sent_root, apply_ack_current)

    -- The link behind the turn.
    abbrev pub behind : Link
    behind = record {
      shim = record (sent.0) { base_root = sent.0.root; base_len = length sent.0.ids };
      host = sent.1;
      receiver = (handle_append codec blake3 disk sent.2 l.receiver).0;
    }

    pub behind_root : session_root behind.receiver.store behind.shim.session_id ≡ behind.shim.root
    behind_root =
        ap (session_root behind.receiver.store) (sent-Grown.session ∙ sym sent_session)
        ∙ sent-Taken.applied.root
        ∙ ap (λ r. root_over blake3 r (map resolved_id sent-Resolves.items))
            (ap (session_root l.receiver.store) sent_session ∙ synced.root ∙ sym sent_base)
        ∙ sent_root

    behind_log : session_ids behind.receiver.store behind.shim.session_id ≡ behind.shim.ids
    behind_log =
        ap (session_ids behind.receiver.store) (sent-Grown.session ∙ sym sent_session)
        ∙ sent-Taken.applied.log
        ∙ ap (λ x. x ++ map resolved_id sent-Resolves.items)
            (ap (session_ids l.receiver.store) sent_session ∙ synced.log)
        ∙ ap (λ x. l.shim.ids ++ x) sent-Resolves.ids
        ∙ sym sent-Grown.log

    pub behind_covered :
        (id : BlockId)
        → contains behind.host.store id ≡ true
        → contains behind.receiver.store id ≡ true
    behind_covered id c = elim (sent-Resolves.known id c) [
      | inl e ↦ sent-Taken.applied.kept id (synced.covered id e)
      | inr m ↦ sent-Taken.applied.stored id (rw sent-Resolves.ids m)
    ]

    pub behind_idle :
        is_empty (session_entry codec behind.shim.session_id behind.receiver.sessions).pending
        ≡ true
    behind_idle =
        ap (λ j. is_empty (session_entry codec j behind.receiver.sessions).pending)
          (sent-Grown.session ∙ sym sent_session)
        ∙ ap (λ m. is_empty (session_entry codec sent.2.session_id m).pending) sent-Taken.sessions
        ∙ ap (λ (st : SessionState codec). is_empty st.pending)
            (session_entry-insert_self codec sent.2.session_id _ l.receiver.sessions)
        ∙ sent_idle

    behind-Synced : Synced behind
    behind-Synced = record {
      base = refl;
      root = behind_root;
      log = behind_log;
      idle = behind_idle;
      covered = behind_covered;
    }

  -- What a turn, or several, have done when they were acknowledged.
  pub record Delivered (blocks : List Block) (l : Link) (result : Link × Bool) : Type 0 where
    pub took : result.1 ≡ true
    pub synced : Synced result.0
    pub session : result.0.shim.session_id ≡ l.shim.session_id
    pub packing : result.0.shim.append_compressor ≡ l.shim.append_compressor
    pub log :
        session_ids result.0.receiver.store l.shim.session_id
        ≡ session_ids l.receiver.store l.shim.session_id ++ map (block_id blake3) blocks

  exchange-Delivered :
      (blocks : List Block) (l : Link)
      → Synced l
      → All (Packs packer filter codec blake3 l.shim.append_compressor) blocks
      → Delivered blocks l (exchange blocks l)
  exchange-Delivered blocks l synced packs =
      let s = behind blocks l synced packs in
      let grown = sent-Grown blocks l synced packs in
      subst (Delivered blocks l) (sym (exchange_lem blocks l synced packs)) (record {
        took = refl;
        synced = behind-Synced blocks l synced packs;
        session = grown.session;
        packing = grown.packing;
        log =
            ap (session_ids s.receiver.store) (sym grown.session)
            ∙ behind_log blocks l synced packs
            ∙ grown.log
            ∙ ap (λ x. x ++ map (block_id blake3) blocks) (sym synced.log);
      })

  -- If both ends are in step, and the compressor packs the blocks of some turns so that the receiver
  -- unpacks them, then the turns, exchanged one after the other, are all acknowledged; both ends are
  -- in step again, and the receiver's log has grown by the ids of all the turns' blocks, in order.
  pub exchanges-Delivered :
      (turns : List (List Block)) (l : Link)
      → Synced l
      → All (All (Packs packer filter codec blake3 l.shim.append_compressor)) turns
      → Delivered (concat_map (λ bs. bs) turns) l (exchanges turns l)
  unfolding exchanges concat_map
  exchanges-Delivered [] l synced packs = record {
    took = refl;
    synced = synced;
    session = refl;
    packing = refl;
    log = sym (append-nil _);
  }
  exchanges-Delivered (blocks ∷ turns) l synced packs =
      let first = exchange-Delivered blocks l synced packs.0 in
      let l' = (exchange blocks l).0 in
      let packs' : All (All (Packs packer filter codec blake3 l'.shim.append_compressor)) turns =
        subst (λ c. All (All (Packs packer filter codec blake3 c)) turns) (sym first.packing)
          packs.1 in
      let rest = exchanges-Delivered turns l' first.synced packs' in
      record {
        took = rw (first.took, rest.took);
        synced = rest.synced;
        session = rest.session ∙ first.session;
        packing = rest.packing ∙ first.packing;
        log =
            ap (session_ids _) (sym first.session)
            ∙ rest.log
            ∙ ap (λ x. x ++ map (block_id blake3) (concat_map (λ bs. bs) turns))
                (ap (session_ids l'.receiver.store) first.session ∙ first.log)
            ∙ rw (append_assoc, map-append);
      }
