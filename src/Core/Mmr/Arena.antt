-- ===== src/Core/Mmr/Arena.antt =====
-- crates/core/src/mmr.rs: the indices that the trees and the nodes hold, and the length of the arena.
use dlr.Prelude.{
  All, All-append, All-weaken, ℕ, ◌<◌, ◌≤◌, arith, List, [], ◌∷◌, ◌++◌, length, Option, none, some,
  Bool-cases, inl, inr, length-append, ◌==◌,
}
use dlr.Core.Blake3.{Blake3}
use dlr.Core.Block.{BlockId}
use dlr.Core.Mmr.{MmrNode, Tree, Mmr, new_mmr, append, merge, hash_at, parent, leaf_h}

abbrev Child : ℕ → Option ℕ → Type 0
Child n none = Unit
Child n (some i) = i < n

abbrev Children : ℕ → MmrNode → Type 0
Children n node = Child n node.left × Child n node.right

abbrev Closed : List MmrNode → List Tree → Type 0
Closed arena trees = All (Children (length arena)) arena × All (λ t. t.root < length arena) trees

-- No index that a tree or a node holds is outside the arena.
abbrev pub InArena : Mmr → Type 0
InArena m = Closed m.arena m.trees

Child-later : (n k : ℕ) (c : Option ℕ) → n ≤ k → Child n c → Child k c
Child-later n k none more h = tt
Child-later n k (some i) more h = omega (arith, more, h)

push-Closed :
    (arena : List MmrNode) (trees : List Tree) (node : MmrNode)
    → Children (length arena) node
    → Closed arena trees
    → Closed (arena ++ (node ∷ [])) trees
push-Closed arena trees node here (inner, roots) =
    let more : length arena ≤ length (arena ++ (node ∷ [])) =
      omega (arith, length-append arena (node ∷ [])) in
    let later : (x : MmrNode)
        → Children (length arena) x
        → Children (length (arena ++ (node ∷ []))) x =
      λ x h. (Child-later _ _ x.left more h.0, Child-later _ _ x.right more h.1) in
    (
      All-append _ arena (node ∷ []) (All-weaken _ _ arena later inner) (later node here, tt),
      All-weaken _ _ trees (λ t h. omega (arith, h, more)) roots,
    )

module _ (blake3 : Blake3) where
  merge-Closed :
      (ts : List Tree) (arena : List MmrNode) (t : Tree)
      → Closed arena (t ∷ ts)
      → let (arena', trees) = merge blake3 arena t ts in Closed arena' trees
  unfolding merge
  merge-Closed [] arena t h = h
  merge-Closed (prev ∷ ts) arena t (inner, (here, (there, roots))) =
      elim (Bool-cases (prev.height == t.height)) [
        | inr q ↦ rw (merge, q) (inner, (here, (there, roots)))
        | inl q ↦
            let node : MmrNode = record {
              hash = parent blake3 (hash_at arena prev.root) (hash_at arena t.root);
              left = some prev.root;
              right = some t.root;
            } in
            let grown = push-Closed arena ts node (there, here) (inner, roots) in
            rw (merge, q)
              (merge-Closed ts (arena ++ (node ∷ [])) _
                (grown.0, (omega (arith, length-append arena (node ∷ [])), grown.1)))
      ]

  pub append-InArena : (id : BlockId) (m : Mmr) → InArena m → InArena (append blake3 id m)
  unfolding append
  append-InArena id m h =
      let node : MmrNode = record { hash = leaf_h blake3 id; left = none; right = none } in
      let grown = push-Closed m.arena m.trees node (tt, tt) h in
      merge-Closed m.trees (m.arena ++ (node ∷ [])) _
        (grown.0, (omega (arith, length-append m.arena (node ∷ [])), grown.1))

pub new_mmr-InArena : InArena new_mmr
unfolding new_mmr
new_mmr-InArena = (tt, tt)
