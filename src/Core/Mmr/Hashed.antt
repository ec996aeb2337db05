-- ===== src/Core/Mmr/Hashed.antt =====
-- crates/core/src/mmr.rs: the inputs that a range and a check of inclusion give to the hash.
use mathlib.Core.List.{Memᴰ}
use dlr.Prelude.{ℕ, ◌≡◌, ◌≢◌, refl, ap, List, [], ◌∷◌, ◌++◌, none, some, Bool, true, false}
use dlr.Core.Bytes.{Bytes}
use dlr.Core.Blake3.{Blake3}
use dlr.Core.Block.{BlockId}
use dlr.Core.Mmr.{MmrHash, Mmr, leaf_h, parent, fold_proof, inclusion_proof}
use dlr.Core.Mmr.Perfect.{Perfect, leaf, fork, digest}

abbrev pub leaf_input : BlockId → Bytes
leaf_input id = 0x4c ∷ id

abbrev pub node_input : MmrHash → MmrHash → Bytes
node_input left right = (0x4d ∷ left) ++ right

module _ (blake3 : Blake3) where
  open blake3 use {new, update, finalize}

  -- What the appends hash: an input for each node of each tree.
  abbrev pub tree_inputs : Perfect → List Bytes
  tree_inputs (leaf id) = leaf_input id ∷ []
  tree_inputs (fork s t) =
      node_input (digest blake3 s) (digest blake3 t) ∷ (tree_inputs s ++ tree_inputs t)

  abbrev pub forest_inputs : List Perfect → List Bytes
  forest_inputs [] = []
  forest_inputs (p ∷ ps) = forest_inputs ps ++ tree_inputs p

  -- What the steps of a proof hash.
  abbrev pub fold_inputs : MmrHash → List (MmrHash × Bool) → List Bytes
  fold_inputs acc [] = []
  fold_inputs acc ((sib, true) ∷ proof) =
      node_input sib acc ∷ fold_inputs (parent blake3 sib acc) proof
  fold_inputs acc ((sib, false) ∷ proof) =
      node_input acc sib ∷ fold_inputs (parent blake3 acc sib) proof

  abbrev pub proof_inputs : BlockId → List (MmrHash × Bool) → List Bytes
  proof_inputs id proof = leaf_input id ∷ fold_inputs (leaf_h blake3 id) proof

  -- What a check of an id at an index hashes.
  abbrev pub checked_inputs : ℕ → BlockId → Mmr → List Bytes
  checked_inputs i id m = elim (inclusion_proof i m) [
    | none ↦ []
    | some proof ↦ proof_inputs id proof
  ]

  -- Two different inputs of two lists, with one digest.
  pub record Clash (checked built : List Bytes) : Type 0 where
    pub one : Bytes
    pub other : Bytes
    pub in_checked : Memᴰ one checked
    pub in_built : Memᴰ other built
    pub differ : one ≢ other
    pub same : finalize (update new one) ≡ finalize (update new other)

  pub Clash-grow :
      {xs ys us vs : List Bytes}
      → ((x : Bytes) → Memᴰ x xs → Memᴰ x us)
      → ((x : Bytes) → Memᴰ x ys → Memᴰ x vs)
      → Clash xs ys
      → Clash us vs
  Clash-grow f g c = record {
    one = c.one;
    other = c.other;
    in_checked = f c.one c.in_checked;
    in_built = g c.other c.in_built;
    differ = c.differ;
    same = c.same;
  }

  pub fold_inputs-append :
      (xs ys : List (MmrHash × Bool)) (acc : MmrHash)
      → fold_inputs acc (xs ++ ys) ≡ fold_inputs acc xs ++ fold_inputs (fold_proof blake3 acc xs) ys
  unfolding fold_proof
  fold_inputs-append [] ys acc = refl
  fold_inputs-append ((sib, true) ∷ xs) ys acc =
      ap (λ (l : List Bytes). node_input sib acc ∷ l)
        (fold_inputs-append xs ys (parent blake3 sib acc))
  fold_inputs-append ((sib, false) ∷ xs) ys acc =
      ap (λ (l : List Bytes). node_input acc sib ∷ l)
        (fold_inputs-append xs ys (parent blake3 acc sib))
