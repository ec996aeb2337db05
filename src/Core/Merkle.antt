-- ===== src/Core/Merkle.antt =====
-- crates/core/src/merkle.rs: the running root of a session's log.
use dlr.Prelude.{ℕ, ◌≡◌, refl, List, [], ◌∷◌, ◌++◌}
use dlr.Core.Bytes.{Bytes}
use dlr.Core.Blake3.{Blake3}
use dlr.Core.Block.{BlockId, IsId}

abbrev pub MerkleRoot : Type 0
MerkleRoot = Bytes

abbrev pub replicate : ℕ → ℕ → Bytes
replicate n b = elim n [ Prim.Native.Nat.zero ↦ [] | Prim.Native.Nat.suc (k → ih) ↦ b ∷ ih ]

unfoldable pub root_zero : MerkleRoot
root_zero = replicate 32 0

module _ (blake3 : Blake3) where
  open blake3 use {new, update, finalize}

  unfoldable pub append_root : MerkleRoot → BlockId → MerkleRoot
  append_root prev id = finalize (update new (prev ++ id))

  unfoldable pub root_over : MerkleRoot → List BlockId → MerkleRoot
  root_over start [] = start
  root_over start (id ∷ ids) = root_over (append_root start id) ids

  pub root_over-append :
      (start : MerkleRoot) (xs ys : List BlockId)
      → root_over start (xs ++ ys) ≡ root_over (root_over start xs) ys
  unfolding root_over
  root_over-append start [] ys = refl
  root_over-append start (x ∷ xs) ys = root_over-append (append_root start x) xs ys

  pub append_root-IsId : (prev : MerkleRoot) (id : BlockId) → IsId (append_root prev id)
  unfolding append_root
  append_root-IsId prev id = record {
    bytes = blake3.finalize-IsBytes _;
    size = blake3.length-finalize _;
  }
