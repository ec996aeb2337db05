-- ===== src/Shim/Registry.antt =====
-- crates/shim/src/lib.rs: the coordinator of several sessions over one store and one filter.
use dlr.Prelude.{
  ℕ, ◌≡◌, refl, arith, List, ◌==◌, none, some, Bool, false, nat_eq, if◌then◌else◌, Bool-cases, inl,
  inr,
}
use dlr.Prelude.Assoc.{Assoc, lookup, insert, lookup-insert}
use dlr.Core.Blake3.{Blake3}
use dlr.Core.Block.{Block}
use dlr.Core.Frame.{AppendFrame}
use dlr.Core.Merkle.{MerkleRoot}
use dlr.Core.Wal.{Disk}
use dlr.Shim.{Packer, Filter, SessionShim, Host, new_session, ingest_turn, ingest_coalesced}
use dlr.Shim

module _ (packer : Packer) (filter : Filter) where
  pub record Coordinator : Type 0 where
    pub host : Host packer filter
    pub compressor : packer.Compressor
    pub sessions : Assoc ℕ (SessionShim packer)

  -- `entry(session_id).or_insert_with(…)`
  unfoldable pub session_of : ℕ → Coordinator → SessionShim packer
  session_of sid c = elim (lookup sid c.sessions) [
    | none ↦ new_session packer sid c.compressor
    | some s ↦ s
  ]

  -- `session` hands out a copy, and registers the session.
  unfoldable pub session : ℕ → Coordinator → Coordinator × SessionShim packer
  session sid c = let s = session_of sid c in (record c { sessions = insert sid s c.sessions }, s)

  module _ (blake3 : Blake3) (disk : Disk) where
    unfoldable pub ingest : ℕ → List Block → Coordinator → Coordinator × AppendFrame
    ingest sid blocks c =
        let (s, h, f) = ingest_turn packer filter blake3 disk blocks (session_of sid c) c.host in
        (record c { host = h; sessions = insert sid s c.sessions }, f)

    unfoldable pub ingest_batch : ℕ → List (List Block) → Coordinator → Coordinator × AppendFrame
    ingest_batch sid turns c =
        let (s, h, f) =
          ingest_coalesced packer filter blake3 disk turns (session_of sid c) c.host in
        (record c { host = h; sessions = insert sid s c.sessions }, f)

  -- `get_mut`; a session that is not registered takes no ACK.
  unfoldable pub apply_ack : Blake3 → ℕ → MerkleRoot → Coordinator → Coordinator × Bool
  apply_ack blake3 sid root c = elim (lookup sid c.sessions) [
    | none ↦ (c, false)
    | some s ↦
        let (s', took) = Shim.apply_ack packer blake3 root s in
        (record c { sessions = insert sid s' c.sessions }, took)
  ]

  -- A session's state, written back.
  session_of-insert :
      (sid j : ℕ) (s : SessionShim packer) (h : Host packer filter) (c : Coordinator)
      → session_of j (record c { host = h; sessions = insert sid s c.sessions })
        ≡ (if sid == j then s else session_of j c)
  unfolding session_of
  session_of-insert sid j s h c = elim (Bool-cases (sid == j)) [
    | inl e ↦ ground (arith, e, lookup-insert sid j s c.sessions)
    | inr e ↦ ground (arith, e, lookup-insert sid j s c.sessions)
  ]

  module _ (blake3 : Blake3) (disk : Disk) (sid j : ℕ) (c : Coordinator) where
    -- What an operation on one session means for every session.
    abbrev pub Only : Coordinator → SessionShim packer → Type 0
    Only c' s = session_of j c' ≡ (if sid == j then s else session_of j c)

    -- A turn, a batch of turns and an ACK for a session change that session, as its own operation
    -- does, and no other; an ACK for a session that is not registered is not taken.
    pub ingest-Only :
        (blocks : List Block) (turns : List (List Block)) (root : MerkleRoot)
        → Only
            (ingest blake3 disk sid blocks c).0
            (ingest_turn packer filter blake3 disk blocks (session_of sid c) c.host).0
          × Only
              (ingest_batch blake3 disk sid turns c).0
              (ingest_coalesced packer filter blake3 disk turns (session_of sid c) c.host).0
          × ((s : SessionShim packer)
              → lookup sid c.sessions ≡ some s
              → Only (apply_ack blake3 sid root c).0 (Shim.apply_ack packer blake3 root s).0
                × ((apply_ack blake3 sid root c).1 ≡ (Shim.apply_ack packer blake3 root s).1))
          × (lookup sid c.sessions ≡ none → apply_ack blake3 sid root c ≡ (c, false))
    unfolding ingest ingest_batch apply_ack
    ingest-Only blocks turns root = (
      session_of-insert sid j _ _ c,
      session_of-insert sid j _ _ c,
      λ s e. rw (e, apply_ack) (session_of-insert sid j _ c.host c, refl),
      λ e. rw (e, apply_ack),
    )
