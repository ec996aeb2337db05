-- ===== src/Shim/Emit.antt =====
-- What the blocks of a turn resolve to at the receiver: crates/shim and crates/receiver together.
use dlr.Prelude.{
  ◌≡◌, refl, sym, subst, ap, ◌∙◌, arith, List, [], ◌∷◌, map, some, true, false, All, length,
  bytes_eq, bytes_key, Bool-cases, inl, inr, ◌⊎◌, nat_eq, append-nil, ◌<◌, All-append,
}
use dlr.Prelude.Results.{ok}
use dlr.Core.Bytes.{Bytes, IsBytes, to_le-IsBytes}
use dlr.Core.Blake3.{Blake3}
use dlr.Core.Block.{
  Block, BlockId, BlockKind, message, tool_call, tool_result, system, summary, to_byte, block_id,
}
use dlr.Core.Canonical.{canonical_bytes, from_canonical_owned}
use dlr.Core.Canonical.Inverse.{canonical_bytes_and_id_lem, from_canonical_owned_lem}
use dlr.Core.Canonical.Laws.{IsBlock, from_canonical-canonical_bytes}
use dlr.Core.Frame.{FrameBlock, inline, ref}
use dlr.Core.Wal.{Disk}
use dlr.Core.Store.{ContentStore, contains, reference}
use dlr.Receiver.{
  Codec, Resolved, resolved_inline, resolved_ref, resolved_id, mem, unpack, resolve_block,
  resolve_blocks, refs_available,
}
use dlr.Receiver.Membership.{contains-insert_with_canonical, contains-reference}
use dlr.Shim.{
  Packer, Filter, SessionShim, Host, is_known, advance, unwrap_or, emit_block, ingest_blocks,
}

to_byte-lt : (k : BlockKind) → to_byte k < 256
unfolding to_byte
to_byte-lt message = omega arith
to_byte-lt tool_call = omega arith
to_byte-lt tool_result = omega arith
to_byte-lt system = omega arith
to_byte-lt summary = omega arith

canonical_bytes-IsBytes : (b : Block) → IsBlock b → IsBytes (canonical_bytes b)
unfolding canonical_bytes to_byte
canonical_bytes-IsBytes b h = (
  to_byte-lt b.kind,
  All-append _ _ _ (to_le-IsBytes 8 b.seq)
      (All-append _ _ _ (to_le-IsBytes 8 (length b.payload)) h.bytes),
)

module _ (packer : Packer) (filter : Filter) (codec : Codec) (blake3 : Blake3) where
  -- The compressor packs the block, and the receiver's unpacks that.
  pub record Packs (c : packer.Compressor) (b : Block) : Type 0 where
    pub valid : IsBlock b
    pub packed : Bytes
    pub packs : packer.compress c (canonical_bytes b) ≡ some packed
    pub unpacks : codec.decompress packed ≡ some (canonical_bytes b)

  pub resolve_packed :
      (c : packer.Compressor) (b : Block)
      → Packs c b
      → resolve_block codec blake3 (
          inline (record b {
            payload = unwrap_or (packer.compress c (canonical_bytes b)) (canonical_bytes b);
          }))
        ≡ ok (resolved_inline (block_id blake3 b) b)
  unfolding resolve_block unpack
  resolve_packed c b p =
      let parsed = rw append-nil at (from_canonical-canonical_bytes b p.valid []) in
      let owned : from_canonical_owned blake3 (canonical_bytes b) ≡ ok (b, block_id blake3 b) =
        from_canonical_owned_lem blake3 (canonical_bytes b) (canonical_bytes-IsBytes b p.valid)
        ∙ rw parsed in
      rw (p.packs, resolve_block, unpack, p.unpacks, owned)

  is_known-contains :
      (id : BlockId) (h : Host packer filter)
      → is_known packer filter id h ≡ true
      → contains h.store id ≡ true
  unfolding is_known
  is_known-contains id h e = ground arith

  -- What the shim's store holds is stored at the receiver, or in front in the frame.
  abbrev pub Covered : ContentStore → ContentStore → List BlockId → Type 0
  Covered shim st available =
      (id : BlockId) → contains shim id ≡ true → (contains st id ≡ true) ⊎ (mem id available ≡ true)

  module _ (disk : Disk) where
    pub record Resolves (blocks : List Block) (h h' : Host packer filter) (fbs : List FrameBlock)
        (st : ContentStore) (available : List BlockId) : Type 0 where
      pub items : List Resolved
      pub resolved : resolve_blocks codec blake3 fbs ≡ ok items
      pub ids : map resolved_id items ≡ map (block_id blake3) blocks
      pub refs : refs_available st available items ≡ true
      pub known :
          (id : BlockId)
          → contains h'.store id ≡ true
          → (contains h.store id ≡ true) ⊎ (mem id (map (block_id blake3) blocks) ≡ true)

    -- The first block of a turn, with its encoding and its id.
    ingest_blocks-cons :
        (b : Block) (bs : List Block) (s : SessionShim packer) (h : Host packer filter)
        → let id = block_id blake3 b in
          let s' = advance packer filter blake3 id s in
          let (h', fb) = emit_block packer filter blake3 disk b (canonical_bytes b) id s' h in
          let (s'', h'', fbs) = ingest_blocks packer filter blake3 disk bs s' h' in
          ingest_blocks packer filter blake3 disk (b ∷ bs) s h ≡ (s'', h'', fb ∷ fbs)
    unfolding ingest_blocks
    ingest_blocks-cons b bs s h = rw ((canonical_bytes_and_id_lem blake3 b).0, ingest_blocks)

    contains-emit :
        (b : Block) (id j : BlockId) (s : SessionShim packer) (h : Host packer filter)
        → contains (emit_block packer filter blake3 disk b (canonical_bytes b) id s h).0.store j
          ≡ true
        → (contains h.store j ≡ true) ⊎ (bytes_eq id j ≡ true)
    unfolding emit_block
    contains-emit b id j s h e = elim (Bool-cases (is_known packer filter id h)) [
      | inl k ↦
          let e' = rw (k, emit_block) at e in
          inl (sym (contains-reference blake3 disk s.session_id h.store j id) ∙ e')
      | inr k ↦
          let e' = rw (k, emit_block) at e in
          let grown =
            contains-insert_with_canonical blake3 disk s.session_id b id j h.store
              (some (canonical_bytes b)) in
          elim (Bool-cases (bytes_eq id j)) [
            | inl same ↦ inr same
            | inr other ↦ inl (ground (arith, grown, e', other))
          ]
    ]

    module _ (b : Block) (bs : List Block) (s : SessionShim packer) (h : Host packer filter) where
      abbrev first_id : BlockId
      first_id = block_id blake3 b

      abbrev then_shim : SessionShim packer
      then_shim = advance packer filter blake3 first_id s

      abbrev emission : Host packer filter × FrameBlock
      emission = emit_block packer filter blake3 disk b (canonical_bytes b) first_id then_shim h

      abbrev ingested :
          Host packer filter → SessionShim packer × Host packer filter × List FrameBlock
      ingested h' = ingest_blocks packer filter blake3 disk bs then_shim h'

      ingest_blocks-emitted :
          (h' : Host packer filter) (fb : FrameBlock)
          → emission ≡ (h', fb)
          → ingest_blocks packer filter blake3 disk (b ∷ bs) s h
            ≡ ((ingested h').0, (ingested h').1, fb ∷ (ingested h').2)
      ingest_blocks-emitted h' fb e =
          ingest_blocks-cons b bs s h
          ∙ ap
              (λ (p : Host packer filter × FrameBlock).
                ((ingested p.0).0, (ingested p.0).1, p.1 ∷ (ingested p.0).2))
              e

      known_emission :
          is_known packer filter first_id h ≡ true
          → emission ≡ (
            record h { store = (reference blake3 disk s.session_id first_id h.store).0 },
            ref first_id,
          )
      unfolding emit_block advance
      known_emission k = rw k

      new_emission :
          Packs s.append_compressor b
          → is_known packer filter first_id h ≡ false
          → resolve_block codec blake3 emission.1 ≡ ok (resolved_inline first_id b)
      unfolding emit_block advance
      new_emission p k = rw k (resolve_packed s.append_compressor b p)

    resolve_blocks-cons :
        (fb : FrameBlock) (fbs : List FrameBlock) (item : Resolved) (items : List Resolved)
        → resolve_block codec blake3 fb ≡ ok item
        → resolve_blocks codec blake3 fbs ≡ ok items
        → resolve_blocks codec blake3 (fb ∷ fbs) ≡ ok (item ∷ items)
    unfolding resolve_blocks
    resolve_blocks-cons fb fbs item items p q = rw (p, resolve_blocks, q)

    resolve_ref : (id : BlockId) → resolve_block codec blake3 (ref id) ≡ ok (resolved_ref id)
    unfolding resolve_block
    resolve_ref id = refl

    mem-here :
        (id j : BlockId) (ids : List BlockId) → bytes_eq id j ≡ true → mem j (id ∷ ids) ≡ true
    unfolding mem
    mem-here id j ids e = rw e

    mem-later : (id j : BlockId) (ids : List BlockId) → mem j ids ≡ true → mem j (id ∷ ids) ≡ true
    unfolding mem
    mem-later id j ids m = ground (arith, m)

    Covered-ref :
        (id : BlockId) (shim st : ContentStore) (available : List BlockId) (items : List Resolved)
        → Covered shim st available
        → contains shim id ≡ true
        → refs_available st available items ≡ true
        → refs_available st available (resolved_ref id ∷ items) ≡ true
    unfolding refs_available
    Covered-ref id shim st available items cov c h = elim (cov id c) [
      | inl e ↦ ground (arith, e, h)
      | inr e ↦ ground (arith, e, h)
    ]

    pub ingest_blocks-Resolves :
        (blocks : List Block) (s : SessionShim packer) (h : Host packer filter) (st : ContentStore)
        (available : List BlockId)
        → All (Packs s.append_compressor) blocks
        → Covered h.store st available
        → let r = ingest_blocks packer filter blake3 disk blocks s h in
          Resolves blocks h r.1 r.2 st available
    unfolding ingest_blocks resolve_blocks refs_available advance resolved_id
    ingest_blocks-Resolves [] s h st available p cov = record {
      items = [];
      resolved = refl;
      ids = refl;
      refs = refl;
      known = λ id c. inl c;
    }
    ingest_blocks-Resolves (b ∷ bs) s h st available p cov =
        let id = block_id blake3 b in
        let s' = advance packer filter blake3 id s in
        elim (Bool-cases (is_known packer filter id h)) [
          | inl k ↦
              let h' : Host packer filter = record h {
                store = (reference blake3 disk s.session_id id h.store).0;
              } in
              let same = contains-reference blake3 disk s.session_id h.store in
              let rest =
                ingest_blocks-Resolves bs s' h' st available p.1
                  (λ j c. cov j (sym (same j id) ∙ c)) in
              subst (λ x. Resolves (b ∷ bs) h x.1 x.2 st available)
                (sym (ingest_blocks-emitted b bs s h h' (ref id) (known_emission b bs s h k)))
                (record {
                  items = resolved_ref id ∷ rest.items;
                  resolved = resolve_blocks-cons _ _ _ _ (resolve_ref id) rest.resolved;
                  ids = rw rest.ids;
                  refs =
                      Covered-ref id h.store st available rest.items cov (is_known-contains id h k)
                        rest.refs;
                  known = λ j c. elim (rest.known j c) [
                    | inl e ↦ inl (sym (same j id) ∙ e)
                    | inr m ↦ inr (mem-later id j _ m)
                  ];
                })
          | inr k ↦
              let (h', fb) = emission b bs s h in
              let rest = ingest_blocks-Resolves bs s' h' st (id ∷ available) p.1 (λ j c.
                elim (contains-emit b id j s' h c) [
                  | inl e ↦ elim (cov j e) [ inl x ↦ inl x | inr m ↦ inr (mem-later id j _ m) ]
                  | inr same ↦ inr (mem-here id j _ same)
                ]) in
              subst (λ x. Resolves (b ∷ bs) h x.1 x.2 st available)
                (sym (ingest_blocks-emitted b bs s h h' fb refl))
                (record {
                  items = resolved_inline id b ∷ rest.items;
                  resolved =
                      resolve_blocks-cons _ _ _ _ (new_emission b bs s h p.0 k) rest.resolved;
                  ids = rw rest.ids;
                  refs = rest.refs;
                  known = λ j c. elim (rest.known j c) [
                    | inr m ↦ inr (mem-later id j _ m)
                    | inl e ↦ elim (contains-emit b id j s' h e) [
                      | inl x ↦ inl x
                      | inr same ↦ inr (mem-here id j _ same)
                    ]
                  ];
                })
        ]
