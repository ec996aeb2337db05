-- ===== src/Shim/Roots.antt =====
-- The roots that a session keeps, along turns and ACKs.
use dlr.Prelude.{
  ℕ, zero, suc, ◌+◌, ◌≡◌, ◌≤◌, refl, sym, ap, ◌∙◌, arith, List, [], ◌∷◌, ◌++◌, length, take, none,
  some, false, map, bytes_eq, bytes_eq_iff, Bool-cases, Option-cases, inl, inr, length-append,
  append-nil, append_assoc, take-append_le, take-length,
}
use dlr.Core.Bytes.{Bytes}
use dlr.Core.Blake3.{Blake3}
use dlr.Core.Block.{Block, BlockId, block_id}
use dlr.Core.Canonical.{canonical_bytes_and_id}
use dlr.Core.Canonical.Inverse.{canonical_bytes_and_id_lem}
use dlr.Core.Merkle.{MerkleRoot, root_zero, append_root, root_over, root_over-append}
use dlr.Core.Wal.{Disk}
use dlr.Shim.{
  Packer, Filter, SessionShim, Host, new_session, advance, emit_block, ingest_blocks, ingest_turn,
  find_prefix, apply_ack,
}

module _ (blake3 : Blake3) where
  -- The root of the first `n` ids.
  abbrev pub prefix_root : ℕ → List BlockId → MerkleRoot
  prefix_root n ids = root_over blake3 root_zero (take n ids)

  module _ (acked : MerkleRoot) where
    -- The search finds a prefix with the root, if there is one that is not empty.
    pub find_prefix-some :
        (r : MerkleRoot) (i : ℕ) (ids : List BlockId) (n : ℕ)
        → find_prefix blake3 acked r i ids ≡ some n
        → (m : ℕ) × (n ≡ i + m) × (m ≤ length ids) × (root_over blake3 r (take m ids) ≡ acked)
    unfolding find_prefix root_over
    find_prefix-some r i [] n h = absurd (cc)
    find_prefix-some r i (id ∷ ids) n h =
        elim (Bool-cases (bytes_eq (append_root blake3 r id) acked)) [
          | inl e ↦ (1, ground (arith, h, e), omega arith, (bytes_eq_iff _ acked).0 e)
          | inr e ↦
              let (m, p, q, t) =
                find_prefix-some (append_root blake3 r id) (i + 1) ids n (rw e at h) in
              (suc m, omega (arith, p), omega (arith, q), t)
        ]

    pub find_prefix-none :
        (r : MerkleRoot) (i : ℕ) (ids : List BlockId) (m : ℕ)
        → find_prefix blake3 acked r i ids ≡ none
        → 1 ≤ m
        → m ≤ length ids
        → bytes_eq (root_over blake3 r (take m ids)) acked ≡ false
    unfolding find_prefix root_over
    find_prefix-none r i ids zero h l g = absurd (omega arith)
    find_prefix-none r i [] (suc m) h l g = absurd (omega arith)
    find_prefix-none r i (id ∷ ids) (suc zero) h l g =
        elim (Bool-cases (bytes_eq (append_root blake3 r id) acked)) [
          | inl e ↦ absurd (cc (rw e at h))
          | inr e ↦ e
        ]
    find_prefix-none r i (id ∷ ids) (suc (suc m)) h l g =
        elim (Bool-cases (bytes_eq (append_root blake3 r id) acked)) [
          | inl e ↦ absurd (cc (rw e at h))
          | inr e ↦
              find_prefix-none (append_root blake3 r id) (i + 1) ids (suc m) (rw e at h)
                (omega arith) (omega arith)
        ]

module _ (packer : Packer) (filter : Filter) (blake3 : Blake3) (disk : Disk) where
  -- The root is the root of the ids, and the base root that of the first `base_len` of them.
  pub record IsRooted (s : SessionShim packer) : Type 0 where
    pub root : s.root ≡ root_over blake3 root_zero s.ids
    pub base : s.base_root ≡ prefix_root blake3 s.base_len s.ids
    pub fits : s.base_len ≤ length s.ids

  -- A session as turns and ACKs, of any root, come in.
  pub data Reaches : SessionShim packer → Type 0 where
    started : (sid : ℕ) (c : packer.Compressor) → Reaches (new_session packer sid c)
    ingested :
        (s : SessionShim packer) (h : Host packer filter) (blocks : List Block)
        → Reaches s
        → Reaches (ingest_turn packer filter blake3 disk blocks s h).0
    acknowledged :
        (s : SessionShim packer) (acked : MerkleRoot)
        → Reaches s
        → Reaches (apply_ack packer blake3 acked s).0

  -- What a turn changes in the session.
  pub record Grown (ids : List BlockId) (s s' : SessionShim packer) : Type 0 where
    pub log : s'.ids ≡ s.ids ++ ids
    pub root : s'.root ≡ root_over blake3 s.root ids
    pub base_root : s'.base_root ≡ s.base_root
    pub base_len : s'.base_len ≡ s.base_len
    pub session : s'.session_id ≡ s.session_id
    pub packing : s'.append_compressor ≡ s.append_compressor

  pub ingest_blocks-Grown :
      (blocks : List Block) (s : SessionShim packer) (h : Host packer filter)
      → Grown
          (map (block_id blake3) blocks)
          s
          (ingest_blocks packer filter blake3 disk blocks s h).0
  unfolding ingest_blocks root_over advance
  ingest_blocks-Grown [] s h = record {
    log = sym (append-nil _);
    root = refl;
    base_root = refl;
    base_len = refl;
    session = refl;
    packing = refl;
  }
  ingest_blocks-Grown (b ∷ bs) s h =
      let (c, id) = canonical_bytes_and_id blake3 b in
      let s' = advance packer filter blake3 id s in
      let h' = (emit_block packer filter blake3 disk b c id s' h).0 in
      let rest = ingest_blocks-Grown bs s' h' in
      let is : id ≡ block_id blake3 b =
        ap (λ (p : Bytes × BlockId). p.1) (canonical_bytes_and_id_lem blake3 b).0 in
      record {
        log = rest.log ∙ rw (append_assoc, is);
        root = rest.root ∙ rw is;
        base_root = rest.base_root;
        base_len = rest.base_len;
        session = rest.session;
        packing = rest.packing;
      }

  ingest_turn-IsRooted :
      (blocks : List Block) (s : SessionShim packer) (h : Host packer filter)
      → IsRooted s
      → IsRooted (ingest_turn packer filter blake3 disk blocks s h).0
  unfolding ingest_turn
  ingest_turn-IsRooted blocks s h rooted =
      let grown = ingest_blocks-Grown blocks s h in
      record {
        root =
            grown.root
            ∙ ap (λ r. root_over blake3 r (map (block_id blake3) blocks)) rooted.root
            ∙ sym (root_over-append blake3 root_zero s.ids (map (block_id blake3) blocks))
            ∙ ap (root_over blake3 root_zero) (sym grown.log);
        base =
            grown.base_root
            ∙ rw (grown.log, grown.base_len, take-append_le _ s.ids _ rooted.fits) rooted.base;
        fits =
            rw (grown.log, grown.base_len)
              (omega (arith, rooted.fits, length-append s.ids (map (block_id blake3) blocks)));
      }

  apply_ack-IsRooted :
      (acked : MerkleRoot) (s : SessionShim packer)
      → IsRooted s
      → IsRooted (apply_ack packer blake3 acked s).0
  unfolding apply_ack
  apply_ack-IsRooted acked s h = elim (Bool-cases (bytes_eq acked s.root)) [
    | inl e ↦
        rw (e, apply_ack)
          (record {
            root = h.root;
            base = (bytes_eq_iff acked s.root).0 e ∙ h.root ∙ rw take-length;
            fits = omega arith;
          })
    | inr e ↦ elim (Bool-cases (bytes_eq acked s.base_root)) [
      | inl e' ↦ rw (e, e', apply_ack) h
      | inr e' ↦ elim (Option-cases (find_prefix blake3 acked root_zero 0 s.ids)) [
        | inl p ↦ rw (e, e', p, apply_ack) h
        | inr (n, p) ↦
            let (m, is, le, root) = find_prefix-some blake3 acked root_zero 0 s.ids n p in
            let same : n ≡ m = omega (arith, is) in
            rw (e, e', p, apply_ack)
              (record { root = h.root; base = rw same (sym root); fits = omega (arith, le, same) })
      ]
    ]
  ]

  -- Along any turns and ACKs from the start of a session, whatever roots are acknowledged, the
  -- session's root is the root over its ids from zero, and its base root is the root over the first
  -- `base_len` of them, of which there are as many.
  pub Reaches-IsRooted : (s : SessionShim packer) → Reaches s → IsRooted s
  unfolding new_session root_over
  Reaches-IsRooted s (started sid c) = record { root = refl; base = refl; fits = omega arith }
  Reaches-IsRooted s (ingested s' h blocks r) =
      ingest_turn-IsRooted blocks s' h (Reaches-IsRooted s' r)
  Reaches-IsRooted s (acknowledged s' acked r) = apply_ack-IsRooted acked s' (Reaches-IsRooted s' r)
