-- ===== src/Core/Mmr/Inclusion.antt =====
-- Inclusion proofs in a range behind the appends of a log.
use dlr.Prelude.{
  ℕ, ◌+◌, ◌-◌, ◌^◌, ◌≤◌, ◌<◌, ◌≡◌, ◌⊎◌, inl, inr, refl, sym, ap, subst, ◌∙◌, arith, List, [], ◌∷◌,
  length, get_elem?, none, some, true, false, ltb, Bool-cases, bytes_eq, bytes_eq_iff,
  length-append,
}
use mathlib.Core.List.Memᴰ
use mathlib.Core.List.{Memᴰ}
use dlr.Core.Bytes.{Bytes}
use dlr.Core.Blake3.{Blake3}
use dlr.Core.Block.{BlockId}
use dlr.Core.Mmr.{
  MmrNode, Tree, Mmr, new_mmr, covers_leaf, find_tree, inclusion_proof, leaf_h, fold_proof,
  peak_from_proof, verify_inclusion,
}
use dlr.Core.Mmr.Perfect.{
  Perfect, depth, ids, IsPerfect, logged, forest, length-ids, digest, Holds, Forest, grown,
  hash_at-Holds,
}
use dlr.Core.Mmr.Refines.{append_all, append_all-Represents, new_mmr-Represents, logged-forest}
use dlr.Core.Mmr.Proof.{
  get_elem?-left, get_elem?-right, get_elem?-past, proof_of, descend-Holds, fold-proof_of,
  proof_of-only,
}
use dlr.Core.Mmr.Hashed.{tree_inputs, forest_inputs, checked_inputs, Clash, Clash-grow}

module _ (blake3 : Blake3) where
  -- The tree of the forest that covers an index of the log.
  record Covered (ts : List Tree) (arena : List MmrNode) (inputs : List Bytes) (log : List BlockId)
      (i : ℕ) : Type 0 where
    tree : Tree
    perfect : Perfect
    found : find_tree i ts ≡ some tree
    holds : Holds blake3 arena tree.root perfect
    high : tree.height ≡ depth perfect
    whole : IsPerfect perfect
    inside : i - tree.base < length (ids perfect)
    there : get_elem? log i ≡ get_elem? (ids perfect) (i - tree.base)
    hashed : (x : Bytes) → Memᴰ x (tree_inputs blake3 perfect) → Memᴰ x inputs

  find_tree-past :
      (ts : List Tree) (ps : List Perfect) (arena : List MmrNode) (i : ℕ)
      → Forest blake3 arena ts ps
      → length (logged ps) ≤ i
      → find_tree i ts ≡ none
  unfolding find_tree covers_leaf
  find_tree-past [] ps arena i f h = refl
  find_tree-past (t ∷ ts) [] arena i f h = elim f [ ]
  find_tree-past (t ∷ ts) (p ∷ ps) arena i (grown s f) h =
      let rest =
        find_tree-past ts ps arena i f (omega (arith, h, length-append (logged ps) (ids p))) in
      let out : ltb i (t.base + 2 ^ t.height) ≡ false =
        rw (s.starts, s.high, ← length-ids p s.perfect)
          (ground (arith, h, length-append (logged ps) (ids p))) in
      rw rest (ground (arith, out))

  find_tree-Covered :
      (ts : List Tree) (ps : List Perfect) (arena : List MmrNode) (i : ℕ)
      → Forest blake3 arena ts ps
      → i < length (logged ps)
      → Covered ts arena (forest_inputs blake3 ps) (logged ps) i
  unfolding find_tree covers_leaf
  find_tree-Covered [] [] arena i f h = absurd (omega arith)
  find_tree-Covered [] (p ∷ ps) arena i f h = elim f [ ]
  find_tree-Covered (t ∷ ts) [] arena i f h = elim f [ ]
  find_tree-Covered (t ∷ ts) (p ∷ ps) arena i (grown s f) h =
      elim (Bool-cases (ltb i (length (logged ps)))) [
        | inl e ↦
            let before : i < length (logged ps) = ground (arith, e) in
            let c = find_tree-Covered ts ps arena i f before in
            record {
              tree = c.tree;
              perfect = c.perfect;
              found = rw c.found;
              holds = c.holds;
              high = c.high;
              whole = c.whole;
              inside = c.inside;
              there = get_elem?-left (logged ps) (ids p) i before ∙ c.there;
              hashed = λ x m. Memᴰ.append_left _ (c.hashed x m);
            }
        | inr e ↦
            let past : length (logged ps) ≤ i = ground (arith, e) in
            let sum = length-append (logged ps) (ids p) in
            let rest = find_tree-past ts ps arena i f past in
            let low : ltb i t.base ≡ false = rw s.starts (ground (arith, past)) in
            let high : ltb i (t.base + 2 ^ t.height) ≡ true =
              rw (s.starts, s.high, ← length-ids p s.perfect) (ground (arith, h, sum)) in
            record {
              tree = t;
              perfect = p;
              found = rw (rest, low, high);
              holds = s.holds;
              high = s.high;
              whole = s.perfect;
              inside = omega (arith, h, sum, past, s.starts);
              there =
                  get_elem?-right (logged ps) (ids p) i past
                  ∙ ap (λ n. get_elem? (ids p) (i - n)) (sym s.starts);
              hashed = λ x m. Memᴰ.append_right (forest_inputs blake3 ps) m;
            }
      ]

  module _ (m : Mmr) (inputs : List Bytes) (log : List BlockId) (i : ℕ)
      (c : Covered m.trees m.arena inputs log i) where
    inclusion_proof-Covered :
        inclusion_proof i m ≡ some (proof_of blake3 c.perfect (i - c.tree.base))
    unfolding inclusion_proof
    inclusion_proof-Covered =
        let (steps, d, p) =
          descend-Holds blake3 c.perfect m.arena c.tree.root (i - c.tree.base) c.holds c.whole in
        rw (inclusion_proof, c.found, c.high, d) (ap some p)

    -- What `verify_inclusion` compares at an index of the log.
    verify_inclusion-Covered :
        (id : BlockId)
        → verify_inclusion blake3 i id m
          ≡ some (
              bytes_eq
                (fold_proof blake3 (leaf_h blake3 id) (proof_of blake3 c.perfect (i - c.tree.base)))
                (digest blake3 c.perfect))
    unfolding verify_inclusion peak_from_proof
    verify_inclusion-Covered id =
        rw (verify_inclusion, c.found, inclusion_proof-Covered)
          (rw (hash_at-Holds blake3 m.arena c.tree.root c.perfect c.holds))

  module _ (log : List BlockId) (i : ℕ) (id : BlockId) where
    abbrev range : Mmr
    range = append_all blake3 log new_mmr

    abbrev built : List Perfect
    built = forest log []

    built-Forest : Forest blake3 range.arena range.trees built
    built-Forest = (append_all-Represents blake3 log new_mmr [] (new_mmr-Represents blake3)).stands

    at_index : i < length log → Covered range.trees range.arena (forest_inputs blake3 built) log i
    at_index h =
        subst (λ l. Covered range.trees range.arena (forest_inputs blake3 built) l i)
          (logged-forest log [])
          (find_tree-Covered range.trees built range.arena i built-Forest
            (rw (logged-forest log []) h))

    -- Behind the appends of a log, each id of the log is accepted at its index, without a panic.
    pub verify_inclusion-appended :
        get_elem? log i ≡ some id → verify_inclusion blake3 i id range ≡ some true
    verify_inclusion-appended h = elim (Bool-cases (ltb i (length log))) [
      | inl e ↦
          let c = at_index (ground (arith, e)) in
          verify_inclusion-Covered range (forest_inputs blake3 built) log i c id
          ∙ ap some (
              (bytes_eq_iff _ _).1
                (fold-proof_of blake3 c.perfect (i - c.tree.base) id c.whole (sym c.there ∙ h)))
      | inr e ↦ absurd (cc (get_elem?-past log i (ground (arith, e)), h))
    ]

    -- An index at which an id is accepted lies within the log, and the id is the log's at that index,
    -- unless an input that this check hashes and a different one that the appends hashed for a node
    -- have one digest.
    pub verify_inclusion-only :
        verify_inclusion blake3 i id range ≡ some true
        → (i < length log)
          × ((get_elem? log i ≡ some id)
              ⊎ Clash blake3 (checked_inputs blake3 i id range) (forest_inputs blake3 built))
    unfolding verify_inclusion
    verify_inclusion-only h = elim (Bool-cases (ltb i (length log))) [
      | inl e ↦
          let c = at_index (ground (arith, e)) in
          let proof = proof_of blake3 c.perfect (i - c.tree.base) in
          let yes : bytes_eq (fold_proof blake3 (leaf_h blake3 id) proof) (digest blake3 c.perfect)
              ≡ true =
            cc (verify_inclusion-Covered range (forest_inputs blake3 built) log i c id, h) in
          let shown = inclusion_proof-Covered range (forest_inputs blake3 built) log i c in
          (
            ground (arith, e),
            elim (proof_of-only blake3 c.perfect (i - c.tree.base) id c.whole c.inside
                ((bytes_eq_iff _ _).0 yes)) [
                  | inl found ↦ inl (c.there ∙ found)
                  | inr k ↦
                      inr (rw (checked_inputs, shown) (Clash-grow blake3 (λ x m. m) c.hashed k))
                ],
          )
      | inr e ↦
          let nowhere : find_tree i range.trees ≡ none =
            find_tree-past range.trees built range.arena i built-Forest
              (rw (logged-forest log []) (ground (arith, e))) in
          absurd (cc (rw (verify_inclusion, nowhere) at h))
    ]
