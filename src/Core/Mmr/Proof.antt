-- ===== src/Core/Mmr/Proof.antt =====
-- The proof that a perfect tree gives for a leaf, and what such a proof says.
use dlr.Prelude.{
  ℕ, zero, suc, ◌-◌, ◌^◌, ◌≤◌, ◌<◌, ◌≡◌, ◌⊎◌, inl, inr, refl, sym, ap, ◌∙◌, arith, List, [], ◌∷◌,
  ◌++◌, length, take, drop, get_elem?, none, some, Bool, true, false, ltb, if◌then◌else◌,
  Bool-cases, bytes_eq, bytes_eq_iff, length-append, take-append_len, drop-append_len,
}
use mathlib.Core.List.Memᴰ
use dlr.Core.Bytes.{Bytes}
use dlr.Core.Blake3.{Blake3}
use dlr.Core.Block.{BlockId}
use dlr.Core.Mmr.{MmrHash, MmrNode, children, descend, leaf_to_root, leaf_h, parent, fold_proof}
use dlr.Core.Mmr.Perfect.{
  Perfect, leaf, fork, depth, ids, IsPerfect, length-ids, digest, Holds, hash_at-Holds,
}
use dlr.Core.Mmr.Hashed.{
  leaf_input, node_input, tree_inputs, proof_inputs, Clash, Clash-grow, fold_inputs-append,
}

module _ {A : Type 0} where
  pub get_elem?-left :
      (xs ys : List A) (i : ℕ) → i < length xs → get_elem? (xs ++ ys) i ≡ get_elem? xs i
  get_elem?-left [] ys i h = absurd (omega arith)
  get_elem?-left (x ∷ xs) ys zero h = refl
  get_elem?-left (x ∷ xs) ys (suc i) h = get_elem?-left xs ys i (omega arith)

  pub get_elem?-right :
      (xs ys : List A) (i : ℕ)
      → length xs ≤ i
      → get_elem? (xs ++ ys) i ≡ get_elem? ys (i - length xs)
  get_elem?-right [] ys i h = ap (get_elem? ys) (omega arith)
  get_elem?-right (x ∷ xs) ys zero h = absurd (omega arith)
  get_elem?-right (x ∷ xs) ys (suc i) h =
      get_elem?-right xs ys i (omega arith) ∙ ap (get_elem? ys) (omega arith)

  pub get_elem?-past : (xs : List A) (i : ℕ) → length xs ≤ i → get_elem? xs i ≡ none
  get_elem?-past [] i h = refl
  get_elem?-past (x ∷ xs) zero h = absurd (omega arith)
  get_elem?-past (x ∷ xs) (suc i) h = get_elem?-past xs i (omega arith)

module _ (blake3 : Blake3) where
  open blake3 use {new, update, finalize}

  digest-eq :
      (a b : Bytes)
      → finalize (update new a) ≡ finalize (update new b)
      → (a ≡ b) ⊎ Clash blake3 (a ∷ []) (b ∷ [])
  digest-eq a b h = elim (Bool-cases (bytes_eq a b)) [
    | inl e ↦ inl ((bytes_eq_iff a b).0 e)
    | inr e ↦ inr (record {
      one = a;
      other = b;
      in_checked = Memᴰ.head refl;
      in_built = Memᴰ.head refl;
      differ = λ p. cc ((bytes_eq_iff a b).1 p, e);
      same = h;
    })
  ]

  leaf_h-joined : (id : BlockId) → leaf_h blake3 id ≡ finalize (update new (leaf_input id))
  unfolding leaf_h
  leaf_h-joined id = ap finalize (blake3.update-update new (0x4c ∷ []) id)

  parent-joined : (a b : MmrHash) → parent blake3 a b ≡ finalize (update new (node_input a b))
  unfolding parent
  parent-joined a b =
      ap (λ h. finalize (update h b)) (blake3.update-update new (0x4d ∷ []) a)
      ∙ ap finalize (blake3.update-update new (0x4d ∷ a) b)

  leaf_h-eq :
      (a b : BlockId)
      → leaf_h blake3 a ≡ leaf_h blake3 b
      → (a ≡ b) ⊎ Clash blake3 (leaf_input a ∷ []) (leaf_input b ∷ [])
  leaf_h-eq a b h =
      elim (digest-eq (leaf_input a) (leaf_input b) (sym (leaf_h-joined a) ∙ h ∙ leaf_h-joined b)) [
        | inl e ↦ inl (ap (drop 1) e)
        | inr c ↦ inr c
      ]

  parent-eq :
      (a b c d : MmrHash)
      → length a ≡ length c
      → parent blake3 a b ≡ parent blake3 c d
      → ((a ≡ c) × (b ≡ d)) ⊎ Clash blake3 (node_input a b ∷ []) (node_input c d ∷ [])
  parent-eq a b c d len h =
      elim (digest-eq (node_input a b) (node_input c d)
        (sym (parent-joined a b) ∙ h ∙ parent-joined c d)) [
          | inl e ↦
              let e' : a ++ b ≡ c ++ d = ap (drop 1) e in
              inl (
                sym (take-append_len (length a) a b refl)
                    ∙ ap (take (length a)) e'
                    ∙ take-append_len (length a) c d (sym len),
                sym (drop-append_len (length a) a b refl)
                    ∙ ap (drop (length a)) e'
                    ∙ drop-append_len (length a) c d (sym len),
              )
          | inr k ↦ inr k
        ]

  -- The proof that a perfect tree gives for its leaf `i`.
  abbrev pub proof_of : Perfect → ℕ → List (MmrHash × Bool)
  proof_of (leaf id) i = []
  proof_of (fork s t) i =
      let in_s = proof_of s i in
      let in_t = proof_of t (i - 2 ^ depth s) in
      if ltb i (2 ^ depth s)
      then in_s ++ ((digest blake3 t, false) ∷ [])
      else in_t ++ ((digest blake3 s, true) ∷ [])

  fold_proof-append :
      (xs ys : List (MmrHash × Bool)) (acc : MmrHash)
      → fold_proof blake3 acc (xs ++ ys) ≡ fold_proof blake3 (fold_proof blake3 acc xs) ys
  unfolding fold_proof
  fold_proof-append [] ys acc = refl
  fold_proof-append (x ∷ xs) ys acc = fold_proof-append xs ys _

  length-parent : (a b : MmrHash) → length (parent blake3 a b) ≡ 32
  unfolding parent
  length-parent a b = blake3.length-finalize _

  length-leaf_h : (id : BlockId) → length (leaf_h blake3 id) ≡ 32
  unfolding leaf_h
  length-leaf_h id = blake3.length-finalize _

  length-digest : (t : Perfect) → length (digest blake3 t) ≡ 32
  length-digest (leaf id) = length-leaf_h id
  length-digest (fork s t) = length-parent _ _

  length-fold_proof :
      (xs : List (MmrHash × Bool)) (acc : MmrHash)
      → length acc ≡ 32
      → length (fold_proof blake3 acc xs) ≡ 32
  unfolding fold_proof
  length-fold_proof [] acc h = h
  length-fold_proof ((sib, true) ∷ xs) acc h = length-fold_proof xs _ (length-parent _ _)
  length-fold_proof ((sib, false) ∷ xs) acc h = length-fold_proof xs _ (length-parent _ _)

  -- The walk down the arena gives the tree's own proof.
  pub descend-Holds :
      (t : Perfect) (arena : List MmrNode) (n i : ℕ)
      → Holds blake3 arena n t
      → IsPerfect t
      → (steps : List (ℕ × Bool)) × (descend arena (depth t) i n ≡ some steps)
        × (leaf_to_root arena steps ≡ proof_of t i)
  unfolding descend leaf_to_root children
  descend-Holds (leaf id) arena n i h k = ([], refl, refl)
  descend-Holds (fork s t) arena n i (l, r, h, hs, ht) (same, ks, kt) =
      let found : children arena n ≡ some (l, r) = rw (children, h) refl in
      elim (Bool-cases (ltb i (2 ^ depth s))) [
        | inl e ↦
            let (steps, d, p) = descend-Holds s arena l i hs ks in
            (
              (r, false) ∷ steps,
              rw (descend, found, e, d) (rw e),
              rw (e, p, hash_at-Holds blake3 arena r t ht),
            )
        | inr e ↦
            let (steps, d, p) = descend-Holds t arena r (i - 2 ^ depth s) ht kt in
            let d' : descend arena (depth s) (i - 2 ^ depth s) r ≡ some steps =
              ap (λ g. descend arena g (i - 2 ^ depth s) r) same ∙ d in
            (
              (l, true) ∷ steps,
              rw (descend, found, e, d') (rw e),
              rw (e, p, hash_at-Holds blake3 arena l s hs),
            )
      ]

  pub fold-proof_of :
      (t : Perfect) (i : ℕ) (id : BlockId)
      → IsPerfect t
      → get_elem? (ids t) i ≡ some id
      → fold_proof blake3 (leaf_h blake3 id) (proof_of t i) ≡ digest blake3 t
  unfolding fold_proof
  fold-proof_of (leaf a) zero id k h = cc
  fold-proof_of (leaf a) (suc i) id k h = absurd (cc)
  fold-proof_of (fork s t) i id (same, ks, kt) h = elim (Bool-cases (ltb i (2 ^ depth s))) [
    | inl e ↦
        let h' : get_elem? (ids s) i ≡ some id =
          sym (get_elem?-left (ids s) (ids t) i (ground (arith, e, length-ids s ks))) ∙ h in
        rw (e, fold_proof-append (proof_of s i)) (rw (fold-proof_of s i id ks h'))
    | inr e ↦
        let h' : get_elem? (ids t) (i - 2 ^ depth s) ≡ some id =
          rw (length-ids s ks) at
            (sym (get_elem?-right (ids s) (ids t) i (ground (arith, e, length-ids s ks))) ∙ h) in
        rw (e, fold_proof-append (proof_of t (i - 2 ^ depth s)))
          (rw (fold-proof_of t (i - 2 ^ depth s) id kt h'))
  ]

  -- What the check of a leaf hashes, where it is in one half of a node or in the other.
  module _ (s t : Perfect) (id : BlockId) where
    abbrev climbed : List (MmrHash × Bool) → MmrHash
    climbed proof = fold_proof blake3 (leaf_h blake3 id) proof

    Clash-left :
        (i : ℕ) {ys : List Bytes}
        → ltb i (2 ^ depth s) ≡ true
        → Clash blake3
            (proof_inputs blake3 id (proof_of s i)
              ++ (node_input (climbed (proof_of s i)) (digest blake3 t) ∷ []))
            ys
        → Clash blake3 (proof_inputs blake3 id (proof_of (fork s t) i)) ys
    Clash-left i e c = rw (e, fold_inputs-append blake3 (proof_of s i)) c

    Clash-right :
        (i : ℕ) {ys : List Bytes}
        → ltb i (2 ^ depth s) ≡ false
        → let proof = proof_of t (i - 2 ^ depth s) in
          Clash blake3
            (proof_inputs blake3 id proof ++ (node_input (digest blake3 s) (climbed proof) ∷ []))
            ys
          → Clash blake3 (proof_inputs blake3 id (proof_of (fork s t) i)) ys
    Clash-right i e c = rw (e, fold_inputs-append blake3 (proof_of t (i - 2 ^ depth s))) c

  pub proof_of-only :
      (t : Perfect) (i : ℕ) (id : BlockId)
      → IsPerfect t
      → i < length (ids t)
      → fold_proof blake3 (leaf_h blake3 id) (proof_of t i) ≡ digest blake3 t
      → (get_elem? (ids t) i ≡ some id)
        ⊎ Clash blake3 (proof_inputs blake3 id (proof_of t i)) (tree_inputs blake3 t)
  unfolding fold_proof
  proof_of-only (leaf a) zero id k lt h = elim (leaf_h-eq id a h) [
    | inl e ↦ inl (ap some (sym e))
    | inr c ↦ inr c
  ]
  proof_of-only (leaf a) (suc i) id k lt h = absurd (omega arith)
  proof_of-only (fork s t) i id (same, ks, kt) lt h =
      let sized = length-ids s ks in
      elim (Bool-cases (ltb i (2 ^ depth s))) [
        | inl e ↦
            let inside : i < length (ids s) = ground (arith, e, sized) in
            let up = rw (e, fold_proof-append (proof_of s i)) at h in
            elim (parent-eq _ _ _ _
              (length-fold_proof (proof_of s i) _ (length-leaf_h id) ∙ sym (length-digest s)) up) [
                | inl (p, q) ↦ elim (proof_of-only s i id ks inside p) [
                  | inl found ↦ inl (get_elem?-left (ids s) (ids t) i inside ∙ found)
                  | inr c ↦ inr (
                      Clash-left s t id i e (
                        Clash-grow blake3 (λ x m. Memᴰ.append_left _ m)
                          (λ x m. Memᴰ.tail (Memᴰ.append_left _ m)) c))
                ]
                | inr c ↦ inr (
                    Clash-left s t id i e (
                      Clash-grow blake3
                        (λ x m. Memᴰ.append_right (proof_inputs blake3 id (proof_of s i)) m)
                        (λ x m. Memᴰ.append_left _ m) c))
              ]
        | inr e ↦
            let j = i - 2 ^ depth s in
            let past : length (ids s) ≤ i = ground (arith, e, sized) in
            let inside : j < length (ids t) =
              ground (arith, e, sized, length-append (ids s) (ids t)) in
            let up = rw (e, fold_proof-append (proof_of t j)) at h in
            elim (parent-eq _ _ _ _ refl up) [
              | inl (p, q) ↦ elim (proof_of-only t j id kt inside q) [
                | inl found ↦ inl (get_elem?-right (ids s) (ids t) i past ∙ (rw sized found))
                | inr c ↦ inr (
                    Clash-right s t id i e (
                      Clash-grow blake3 (λ x m. Memᴰ.append_left _ m)
                        (λ x m. Memᴰ.tail (Memᴰ.append_right (tree_inputs blake3 s) m)) c))
              ]
              | inr c ↦ inr (
                  Clash-right s t id i e (
                    Clash-grow blake3
                      (λ x m. Memᴰ.append_right (proof_inputs blake3 id (proof_of t j)) m)
                      (λ x m. Memᴰ.append_left _ m) c))
            ]
      ]
