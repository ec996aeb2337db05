-- ===== src/Shim/Pipelined.antt =====
-- A turn that is sent before the ACK of the turn in front of it has come.
use dlr.Prelude.{
  ◌≡◌, ◌≢◌, sym, subst, ap, ap₂, ◌∙◌, List, [], map, true, false, All, bytes_eq, bytes_eq_iff,
  Bool-cases, inl, inr, nat_eq,
}
use dlr.Prelude.Results.{Result, ok, err}
use dlr.Core.Blake3.{Blake3}
use dlr.Core.Block.{Block, block_id}
use dlr.Core.Frame.{AppendFrame, AckFrame}
use dlr.Core.Merkle.{MerkleRoot, root_over}
use dlr.Core.Wal.{Disk}
use dlr.Core.Store.{session_root}
use dlr.Receiver.{
  Codec, ReceiverError, Resolved, Receiver, base_root_mismatch, resolved_id, session_entry,
  is_empty, refs_available, resolve_blocks, handle_append, target_root,
}
use dlr.Receiver.Applied.{target_root-root_over}
use dlr.Receiver.Append.{append_resolved_replayed}
use dlr.Shim.{Packer, Filter, SessionShim, Host, ingest_turn}
use dlr.Shim.Roots.{Grown, ingest_blocks-Grown}
use dlr.Shim.Emit.{Packs, Resolves, ingest_blocks-Resolves}
use dlr.Shim.Exchange.{
  Link, Synced, sent, behind, sent-Grown, behind_root, behind_covered, behind_idle,
}

bytes_neq : (a b : MerkleRoot) → a ≢ b → bytes_eq a b ≡ false
bytes_neq a b n = elim (Bool-cases (bytes_eq a b)) [
  | inl e ↦ absurd (n ((bytes_eq_iff a b).0 e))
  | inr e ↦ e
]

module _ (codec : Codec) (blake3 : Blake3) (disk : Disk) where
  -- An APPEND from another root, which does not lead to the current one either.
  handle_append_mismatch :
      (f : AppendFrame) (r : Receiver codec) (items : List Resolved)
      → resolve_blocks codec blake3 f.blocks ≡ ok items
      → refs_available r.store [] items ≡ true
      → is_empty (session_entry codec f.session_id r.sessions).pending ≡ true
      → f.base_root ≢ session_root r.store f.session_id
      → root_over blake3 f.base_root (map resolved_id items) ≢ session_root r.store f.session_id
      → (handle_append codec blake3 disk f r).1
        ≡ err (base_root_mismatch f.session_id f.base_root (session_root r.store f.session_id))
  unfolding handle_append
  handle_append_mismatch f r items p q idle base lead =
      let other = bytes_neq f.base_root (session_root r.store f.session_id) base in
      let lead' : bytes_eq (target_root codec blake3 f.base_root items)
            (session_root r.store f.session_id)
          ≡ false =
        rw (target_root-root_over blake3 codec items f.base_root) (bytes_neq _ _ lead) in
      rw (
        p,
        q,
        handle_append,
        append_resolved_replayed codec blake3 disk f r items idle other,
        lead',
      )

module _ (packer : Packer) (filter : Filter) (codec : Codec) (blake3 : Blake3) (disk : Disk)
    (first second : List Block) (l : Link packer filter codec blake3 disk)
    (synced : Synced packer filter codec blake3 disk l)
    (packs : All (Packs packer filter codec blake3 l.shim.append_compressor) first)
    (packs' : All (Packs packer filter codec blake3 l.shim.append_compressor) second) where
  abbrev between : Link packer filter codec blake3 disk
  between = behind packer filter codec blake3 disk first l synced packs

  abbrev shim' : SessionShim packer
  shim' = (sent packer filter codec blake3 disk first l synced packs).0

  abbrev next : SessionShim packer × Host packer filter × AppendFrame
  next = ingest_turn packer filter blake3 disk second shim' between.host

  grown : Grown packer filter blake3 disk (map (block_id blake3) first) l.shim shim'
  grown = sent-Grown packer filter codec blake3 disk first l synced packs

  next-Grown : Grown packer filter blake3 disk (map (block_id blake3) second) shim' next.0
  unfolding ingest_turn
  next-Grown = ingest_blocks-Grown packer filter blake3 disk second shim' between.host

  next_base : next.2.base_root ≡ l.shim.root
  unfolding ingest_turn
  next_base = next-Grown.base_root ∙ grown.base_root ∙ synced.base

  next_session : next.2.session_id ≡ shim'.session_id
  unfolding ingest_turn
  next_session = next-Grown.session

  next-Resolves :
      Resolves packer filter codec blake3 disk second between.host next.1 next.2.blocks
        between.receiver.store []
  unfolding ingest_turn
  next-Resolves =
      ingest_blocks-Resolves packer filter codec blake3 disk second shim' between.host
        between.receiver.store []
        (subst (λ c. All (Packs packer filter codec blake3 c) second) (sym grown.packing) packs')
        (λ id c. inl (behind_covered packer filter codec blake3 disk first l synced packs id c))

  current : session_root between.receiver.store next.2.session_id ≡ shim'.root
  current =
      ap (session_root between.receiver.store) next_session
      ∙ behind_root packer filter codec blake3 disk first l synced packs

  next_idle :
      is_empty (session_entry codec next.2.session_id between.receiver.sessions).pending ≡ true
  next_idle =
      ap (λ j. is_empty (session_entry codec j between.receiver.sessions).pending) next_session
      ∙ behind_idle packer filter codec blake3 disk first l synced packs

  next_root :
      root_over blake3 next.2.base_root (map resolved_id next-Resolves.items)
      ≡ root_over blake3 l.shim.root (map (block_id blake3) second)
  next_root =
      ap (λ r. root_over blake3 r (map resolved_id next-Resolves.items)) next_base
      ∙ ap (root_over blake3 l.shim.root) next-Resolves.ids

  abbrev mismatch : MerkleRoot → MerkleRoot → Result ReceiverError AckFrame
  mismatch base cur = err (base_root_mismatch next.2.session_id base cur)

  -- If both ends are in step and two turns are sent without waiting for an ACK, then the receiver,
  -- having taken the first, refuses the second with a base root mismatch, as long as the first turn
  -- changed the root and the second does not lead from the old root to the new one.
  pub ingest_turn_pipelined :
      shim'.root ≢ l.shim.root
      → root_over blake3 l.shim.root (map (block_id blake3) second) ≢ shim'.root
      → (handle_append codec blake3 disk next.2 between.receiver).1
        ≡ err (base_root_mismatch next.2.session_id l.shim.root shim'.root)
  ingest_turn_pipelined moved lead =
      handle_append_mismatch codec blake3 disk next.2 between.receiver next-Resolves.items
        next-Resolves.resolved next-Resolves.refs next_idle
        (λ e. moved (sym current ∙ sym e ∙ next_base)) (λ e. lead (sym next_root ∙ e ∙ current))
      ∙ ap₂ mismatch next_base current
