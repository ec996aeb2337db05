-- ===== src/Core/Mmr/Refines.antt =====
-- The arena implements the counter of perfect trees.
use dlr.Prelude.{
  All, ℕ, suc, ◌≤◌, ◌≡◌, refl, sym, ap, ap₂, ◌∙◌, arith, List, [], ◌∷◌, ◌++◌, length, Option, none,
  some, Bool-cases, inl, inr, length-append, append_assoc, append-nil, true, false, ◌==◌,
}
use dlr.Core.Blake3.{Blake3}
use dlr.Core.Block.{BlockId}
use dlr.Core.Merkle.{replicate}
use dlr.Core.Mmr.{
  MmrHash, MmrNode, Tree, Mmr, new_mmr, append, merge, bag, mmr_root, peaks, hash_at, parent,
  leaf_h,
}
use dlr.Core.Mmr.Arena.{InArena, append-InArena, new_mmr-InArena}
use dlr.Core.Mmr.Perfect.{
  Perfect, IsPerfect, leaf, fork, depth, ids, logged, carry, forest, digest, Stands, Forest, bare,
  grown, Represents, hash_at-Holds, get_elem?-last, Holds-append, Forest-append,
}

-- The heights grow from a tree to the next, from `n` on.
abbrev pub Rising : ℕ → List Perfect → Type 0
Rising n [] = Unit
Rising n (p ∷ ps) = (n ≤ depth p) × Rising (suc (depth p)) ps

Rising-weaken : (n m : ℕ) (ps : List Perfect) → n ≤ m → Rising m ps → Rising n ps
Rising-weaken n m [] h r = tt
Rising-weaken n m (p ∷ ps) h (a, r) = (omega (arith, h, a), r)

carry-Rising :
    (t : Perfect) (ps : List Perfect) → Rising (depth t) ps → Rising (depth t) (carry t ps)
carry-Rising t [] h = (omega arith, tt)
carry-Rising t (p ∷ ps) (a, r) = elim (Bool-cases (depth p == depth t)) [
  | inl e ↦
      let same : depth p ≡ depth t = ground (arith, e) in
      rw e (
        Rising-weaken (depth t) (suc (depth p)) (carry (fork p t) ps) (omega (arith, same))
          (carry-Rising (fork p t) ps r))
  | inr e ↦ rw e (omega arith, (ground (arith, e, a), r))
]

pub forest-Rising :
    (log : List BlockId) (ps : List Perfect) → Rising 0 ps → Rising 0 (forest log ps)
forest-Rising [] ps h = h
forest-Rising (id ∷ log) ps h = forest-Rising log (carry (leaf id) ps) (carry-Rising (leaf id) ps h)

logged-carry : (t : Perfect) (ps : List Perfect) → logged (carry t ps) ≡ logged ps ++ ids t
logged-carry t [] = refl
logged-carry t (p ∷ ps) = elim (Bool-cases (depth p == depth t)) [
  | inl e ↦ rw e (logged-carry (fork p t) ps ∙ sym (append_assoc (logged ps) (ids p) (ids t)))
  | inr e ↦ rw e
]

pub logged-forest :
    (log : List BlockId) (ps : List Perfect) → logged (forest log ps) ≡ logged ps ++ log
logged-forest [] ps = sym (append-nil (logged ps))
logged-forest (id ∷ log) ps =
    logged-forest log (carry (leaf id) ps)
    ∙ ap (λ (l : List BlockId). l ++ log) (logged-carry (leaf id) ps)
    ∙ append_assoc (logged ps) (id ∷ []) log

module _ (blake3 : Blake3) where
  merge-Forest :
      (ts : List Tree) (ps : List Perfect) (arena : List MmrNode) (t : Tree) (p : Perfect)
      → Stands blake3 arena (length (logged ps)) t p
      → Forest blake3 arena ts ps
      → Forest blake3 (merge blake3 arena t ts).0 (merge blake3 arena t ts).1 (carry p ps)
  unfolding merge
  merge-Forest [] [] arena t p s bare = grown s bare
  merge-Forest [] (q ∷ qs) arena t p s f = elim f [ ]
  merge-Forest (prev ∷ ts) [] arena t p s f = elim f [ ]
  merge-Forest (prev ∷ ts) (q ∷ qs) arena t p s (grown sq f) =
      elim (Bool-cases (depth q == depth p)) [
        | inl e ↦
            let e' : (prev.height == t.height) ≡ true = rw (sq.high, s.high) e in
            let same : depth q ≡ depth p = ground (arith, e) in
            let node : MmrNode = record {
              hash = parent blake3 (hash_at arena prev.root) (hash_at arena t.root);
              left = some prev.root;
              right = some t.root;
            } in
            rw (e', e)
              (merge-Forest ts qs (arena ++ (node ∷ [])) _ (fork q p)
                (record {
                  holds = (
                    prev.root,
                    t.root,
                    rw
                        (
                          ← hash_at-Holds blake3 arena prev.root q sq.holds,
                          ← hash_at-Holds blake3 arena t.root p s.holds,
                        )
                        (get_elem?-last arena node),
                    Holds-append blake3 arena (node ∷ []) prev.root q sq.holds,
                    Holds-append blake3 arena (node ∷ []) t.root p s.holds,
                  );
                  high = omega (arith, sq.high);
                  starts = sq.starts;
                  perfect = (same, sq.perfect, s.perfect);
                })
                (Forest-append blake3 arena (node ∷ []) f))
        | inr e ↦
            let e' : (prev.height == t.height) ≡ false = rw (sq.high, s.high) e in
            rw (e', e) (grown s (grown sq f))
      ]

  append-Represents :
      (id : BlockId) (m : Mmr) (ps : List Perfect)
      → Represents blake3 m ps
      → Represents blake3 (append blake3 id m) (carry (leaf id) ps)
  unfolding append
  append-Represents id m ps r =
      let node : MmrNode = record { hash = leaf_h blake3 id; left = none; right = none } in
      record {
        stands =
            merge-Forest m.trees ps (m.arena ++ (node ∷ [])) _ (leaf id)
              (record {
                holds = get_elem?-last m.arena node;
                high = refl;
                starts = r.counted;
                perfect = tt;
              })
              (Forest-append blake3 m.arena (node ∷ []) r.stands);
        counted =
            rw (logged-carry (leaf id) ps)
              (omega (arith, r.counted, length-append (logged ps) (id ∷ [])));
      }

  -- All the appends of a log.
  abbrev pub append_all : List BlockId → Mmr → Mmr
  append_all [] m = m
  append_all (id ∷ log) m = append_all log (append blake3 id m)

  pub append_all-Represents :
      (log : List BlockId) (m : Mmr) (ps : List Perfect)
      → Represents blake3 m ps
      → Represents blake3 (append_all log m) (forest log ps)
  append_all-Represents [] m ps r = r
  append_all-Represents (id ∷ log) m ps r =
      append_all-Represents log (append blake3 id m) (carry (leaf id) ps)
        (append-Represents id m ps r)

  append_all-InArena : (log : List BlockId) (m : Mmr) → InArena m → InArena (append_all log m)
  append_all-InArena [] m h = h
  append_all-InArena (id ∷ log) m h =
      append_all-InArena log (append blake3 id m) (append-InArena blake3 id m h)

  pub new_mmr-Represents : Represents blake3 new_mmr []
  unfolding new_mmr
  new_mmr-Represents = record { stands = bare; counted = refl }

  -- The peaks and the root of a forest, its last tree first.
  abbrev pub tops : List Perfect → List MmrHash
  tops [] = []
  tops (p ∷ ps) = tops ps ++ (digest blake3 p ∷ [])

  abbrev pub bagged : List Perfect → Option MmrHash
  bagged [] = none
  bagged (p ∷ ps) = elim (bagged ps) [
    | none ↦ some (digest blake3 p)
    | some acc ↦ some (parent blake3 acc (digest blake3 p))
  ]

  abbrev pub top_root : List Perfect → MmrHash
  top_root ps = elim (bagged ps) [ none ↦ replicate 32 0 | some acc ↦ acc ]

  peaks-Forest :
      (arena : List MmrNode) {ts : List Tree} {ps : List Perfect}
      → Forest blake3 arena ts ps
      → peaks arena ts ≡ tops ps
  unfolding peaks
  peaks-Forest arena bare = refl
  peaks-Forest arena (grown {t = t} {p = p} s f) =
      rw (peaks-Forest arena f, hash_at-Holds blake3 arena t.root p s.holds)

  bag-Forest :
      (arena : List MmrNode) {ts : List Tree} {ps : List Perfect}
      → Forest blake3 arena ts ps
      → bag blake3 arena ts ≡ bagged ps
  unfolding bag
  bag-Forest arena bare = refl
  bag-Forest arena (grown {t = t} {p = p} s f) =
      ap₂
        (λ (acc : Option MmrHash) (h : MmrHash). elim acc as (λ x. Option MmrHash) [
          | none ↦ some h
          | some a ↦ some (parent blake3 a h)
        ])
        (bag-Forest arena f) (hash_at-Holds blake3 arena t.root p s.holds)

  Forest-IsPerfect :
      (arena : List MmrNode) {ts : List Tree} {ps : List Perfect}
      → Forest blake3 arena ts ps
      → All IsPerfect ps
  Forest-IsPerfect arena bare = tt
  Forest-IsPerfect arena (grown s f) = (s.perfect, Forest-IsPerfect arena f)

  -- Appending a log to an empty range gives the peaks and the root of the trees that a binary counter
  -- builds from it: their leaves are the log, in order, in every tree the two halves of a node are as
  -- deep, and the heights grow strictly from the last tree to the first. No index that a tree or a
  -- node holds is outside the arena. This holds for every log and digest.
  pub append_all-Refines :
      (log : List BlockId)
      → let m = append_all log new_mmr in
        let ps = forest log [] in
        (peaks m.arena m.trees ≡ tops ps)
        × (mmr_root blake3 m ≡ top_root ps)
        × (m.leaves ≡ length log)
        × (logged ps ≡ log)
        × All IsPerfect ps
        × Rising 0 ps
        × InArena m
  unfolding mmr_root
  append_all-Refines log =
      let r = append_all-Represents log new_mmr [] new_mmr-Represents in
      (
        peaks-Forest _ r.stands,
        rw (mmr_root, bag-Forest _ r.stands),
        r.counted ∙ ap length (logged-forest log []),
        logged-forest log [],
        Forest-IsPerfect _ r.stands,
        forest-Rising log [] tt,
        append_all-InArena log new_mmr new_mmr-InArena,
      )
