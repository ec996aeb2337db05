-- ===== src/Core/Mmr.antt =====
-- crates/core/src/mmr.rs: the Mountain Range, perfect trees over block ids in a shared arena. The
-- vector of trees is a list with its last tree first. An index into the arena that is out of range,
-- which is a panic, reads an empty digest, and a missing child in a proof is no answer. Counters and
-- shifts are not wrapped: 2 ^ 64 leaves are out of reach.
pub mod Perfect
pub mod Arena
pub mod Hashed
pub mod Refines
pub mod Proof
pub mod Inclusion
use dlr.Prelude.{
  ℕ, zero, suc, ◌+◌, ◌-◌, ◌^◌, List, [], ◌∷◌, ◌++◌, length, get_elem?, Option, none, some, Bool,
  true, false, ltb, leb, ◌==◌, if◌then◌else◌, map, bytes_eq,
}
use dlr.Core.Bytes.{Bytes}
use dlr.Core.Blake3.{Blake3}
use dlr.Core.Block.{BlockId}
use dlr.Core.Merkle.{replicate}

abbrev pub MmrHash : Type 0
MmrHash = Bytes

pub record MmrNode : Type 0 where
  pub hash : MmrHash
  pub left : Option ℕ
  pub right : Option ℕ

-- The arena index of a tree's root, and the leaves that it covers.
pub record Tree : Type 0 where
  pub root : ℕ
  pub height : ℕ
  pub base : ℕ

pub record Mmr : Type 0 where
  pub trees : List Tree
  pub leaves : ℕ
  pub arena : List MmrNode

unfoldable pub new_mmr : Mmr
new_mmr = record { trees = []; leaves = 0; arena = [] }

-- `leaf_range().contains(&i)`
unfoldable pub covers_leaf : ℕ → Tree → Bool
covers_leaf i t = if ltb i t.base then false else ltb i (t.base + 2 ^ t.height)

-- `self.arena[n].hash`
unfoldable pub hash_at : List MmrNode → ℕ → MmrHash
hash_at arena n = elim (get_elem? arena n) [ none ↦ [] | some node ↦ node.hash ]

unfoldable pub find_tree : ℕ → List Tree → Option Tree
find_tree i [] = none
find_tree i (t ∷ ts) = elim (find_tree i ts) [
  | some found ↦ some found
  | none ↦ if covers_leaf i t then some t else none
]

unfoldable pub children : List MmrNode → ℕ → Option (ℕ × ℕ)
children arena node = elim (get_elem? arena node) [
  | none ↦ none
  | some n ↦ elim n.left [
    | none ↦ none
    | some l ↦ elim n.right [ none ↦ none | some r ↦ some (l, r) ]
  ]
]

-- The steps from a peak down to a leaf: the sibling, and whether it is the left one.
unfoldable pub descend : List MmrNode → ℕ → ℕ → ℕ → Option (List (ℕ × Bool))
descend arena zero leaf node = some []
descend arena (suc h) leaf node = elim (children arena node) [
  | none ↦ none
  | some (l, r) ↦
      let low = ltb leaf (2 ^ h) in
      let rest = descend arena h (if low then leaf else leaf - 2 ^ h) (if low then l else r) in
      elim rest [
        | none ↦ none
        | some steps ↦ some ((if low then (r, false) else (l, true)) ∷ steps)
      ]
]

-- `steps.reverse()`, with the siblings' digests.
unfoldable pub leaf_to_root : List MmrNode → List (ℕ × Bool) → List (MmrHash × Bool)
leaf_to_root arena [] = []
leaf_to_root arena ((idx, on_left) ∷ steps) =
    leaf_to_root arena steps ++ ((hash_at arena idx, on_left) ∷ [])

unfoldable pub inclusion_proof : ℕ → Mmr → Option (List (MmrHash × Bool))
inclusion_proof i m = elim (find_tree i m.trees) [
  | none ↦ some []
  | some t ↦ elim (descend m.arena t.height (i - t.base) t.root) [
    | none ↦ none
    | some steps ↦ some (leaf_to_root m.arena steps)
  ]
]

module _ (blake3 : Blake3) where
  open blake3 use {new, update, finalize}

  -- The letters are the domains "L" and "M".
  unfoldable pub leaf_h : BlockId → MmrHash
  leaf_h id = finalize (update (update new (0x4c ∷ [])) id)

  unfoldable pub parent : MmrHash → MmrHash → MmrHash
  parent left right = finalize (update (update (update new (0x4d ∷ [])) left) right)

  -- The loop that merges a tree with the ones before it of equal height.
  unfoldable pub merge : List MmrNode → Tree → List Tree → List MmrNode × List Tree
  merge arena tree [] = (arena, tree ∷ [])
  merge arena tree (prev ∷ ts) =
      let node : MmrNode = record {
        hash = parent (hash_at arena prev.root) (hash_at arena tree.root);
        left = some prev.root;
        right = some tree.root;
      } in
      let merged : Tree = record {
        root = length arena;
        height = prev.height + 1;
        base = prev.base;
      } in
      let rest = merge (arena ++ (node ∷ [])) merged ts in
      if prev.height == tree.height then rest else (arena, tree ∷ prev ∷ ts)

  unfoldable pub append : BlockId → Mmr → Mmr
  append id m =
      let node : MmrNode = record { hash = leaf_h id; left = none; right = none } in
      let tree : Tree = record { root = length m.arena; height = 0; base = m.leaves } in
      let (arena, trees) = merge (m.arena ++ (node ∷ [])) tree m.trees in
      record { trees = trees; leaves = m.leaves + 1; arena = arena }

  -- The peaks from the first tree on, folded; none for no tree.
  unfoldable pub bag : List MmrNode → List Tree → Option MmrHash
  bag arena [] = none
  bag arena (t ∷ ts) = elim (bag arena ts) [
    | none ↦ some (hash_at arena t.root)
    | some acc ↦ some (parent acc (hash_at arena t.root))
  ]

  unfoldable pub mmr_root : Mmr → MmrHash
  mmr_root m = elim (bag m.arena m.trees) [ none ↦ replicate 32 0 | some acc ↦ acc ]

  unfoldable pub fold_proof : MmrHash → List (MmrHash × Bool) → MmrHash
  fold_proof acc [] = acc
  fold_proof acc ((sib, on_left) ∷ proof) =
      fold_proof (if on_left then parent sib acc else parent acc sib) proof

  unfoldable pub peak_from_proof : BlockId → List (MmrHash × Bool) → MmrHash
  peak_from_proof id proof = fold_proof (leaf_h id) proof

  -- None is a panic.
  unfoldable pub verify_inclusion : ℕ → BlockId → Mmr → Option Bool
  verify_inclusion i id m = elim (find_tree i m.trees) [
    | none ↦ some false
    | some t ↦ elim (inclusion_proof i m) [
      | none ↦ none
      | some proof ↦ some (bytes_eq (peak_from_proof id proof) (hash_at m.arena t.root))
    ]
  ]

-- The peaks, of the first tree first.
unfoldable pub peaks : List MmrNode → List Tree → List MmrHash
peaks arena [] = []
peaks arena (t ∷ ts) = peaks arena ts ++ (hash_at arena t.root ∷ [])
