-- ===== src/Shim/Coalesced.antt =====
-- Several turns in one frame.
use dlr.Prelude.{◌≡◌, refl, ap, ◌∙◌, List, [], ◌∷◌, ◌++◌, concat_map}
use dlr.Core.Blake3.{Blake3}
use dlr.Core.Block.{Block}
use dlr.Core.Canonical.{canonical_bytes_and_id}
use dlr.Core.Frame.{FrameBlock}
use dlr.Core.Wal.{Disk}
use dlr.Shim.{
  Packer, Filter, SessionShim, Host, advance, emit_block, ingest_blocks, ingest_turn,
  ingest_coalesced, turn_blocks,
}

module _ (packer : Packer) (filter : Filter) (blake3 : Blake3) (disk : Disk) where
  abbrev pub Ingested : Type 0
  Ingested = SessionShim packer × Host packer filter × List FrameBlock

  -- Turns ingested one after the other, with the blocks of their frames.
  unfoldable pub ingest_each :
      List (List Block) → SessionShim packer → Host packer filter → Ingested
  ingest_each [] s h = (s, h, [])
  ingest_each (blocks ∷ turns) s h =
      let (s', h', f) = ingest_turn packer filter blake3 disk blocks s h in
      let (s'', h'', rest) = ingest_each turns s' h' in (s'', h'', f.blocks ++ rest)

  -- Blocks in front of what is ingested after them.
  abbrev in_front : List FrameBlock → Ingested → Ingested
  in_front fbs (s, h, rest) = (s, h, fbs ++ rest)

  ingest_blocks-append :
      (xs ys : List Block) (s : SessionShim packer) (h : Host packer filter)
      → let (s', h', fbs) = ingest_blocks packer filter blake3 disk xs s h in
        ingest_blocks packer filter blake3 disk (xs ++ ys) s h
        ≡ in_front fbs (ingest_blocks packer filter blake3 disk ys s' h')
  unfolding ingest_blocks
  ingest_blocks-append [] ys s h = refl
  ingest_blocks-append (b ∷ xs) ys s h =
      let (c, id) = canonical_bytes_and_id blake3 b in
      let grown = advance packer filter blake3 id s in
      let (kept, fb) = emit_block packer filter blake3 disk b c id grown h in
      ap (λ (r : Ingested). in_front (fb ∷ []) r) (ingest_blocks-append xs ys grown kept)

  ingest_blocks-each :
      (turns : List (List Block)) (s : SessionShim packer) (h : Host packer filter)
      → ingest_blocks packer filter blake3 disk (concat_map turn_blocks turns) s h
        ≡ ingest_each turns s h
  unfolding ingest_blocks concat_map ingest_each ingest_turn
  ingest_blocks-each [] s h = refl
  ingest_blocks-each (blocks ∷ turns) s h =
      let (s', h', fbs) = ingest_blocks packer filter blake3 disk blocks s h in
      ingest_blocks-append blocks (concat_map turn_blocks turns) s h
      ∙ ap (λ (r : Ingested). in_front fbs r) (ingest_blocks-each turns s' h')

  -- Coalescing turns leaves the session and the host as ingesting them one after the other does, and
  -- the one frame has the blocks of all their frames, in order.
  pub ingest_coalesced-each :
      (turns : List (List Block)) (s : SessionShim packer) (h : Host packer filter)
      → let (s', h', f) = ingest_coalesced packer filter blake3 disk turns s h in
        (s', h', f.blocks) ≡ ingest_each turns s h
  unfolding ingest_coalesced ingest_turn
  ingest_coalesced-each turns s h = ingest_blocks-each turns s h
