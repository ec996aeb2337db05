-- ===== src/Core/Mmr/Perfect.antt =====
-- The Mountain Range without an arena: perfect trees as data, and what it means that an arena holds
-- them.
use dlr.Prelude.{
  ℕ, zero, suc, ◌^◌, ◌≡◌, refl, arith, List, [], ◌∷◌, ◌++◌, length, get_elem?, none, some, ◌==◌,
  if◌then◌else◌, length-append,
}
use native.Mathlib.Nat.{pow-suc}
use dlr.Core.Blake3.{Blake3}
use dlr.Core.Block.{BlockId}
use dlr.Core.Mmr.{MmrHash, MmrNode, Tree, Mmr, leaf_h, parent, hash_at}

pub data Perfect : Type 0 where
  leaf : BlockId → Perfect
  fork : Perfect → Perfect → Perfect

abbrev pub depth : Perfect → ℕ
depth (leaf id) = 0
depth (fork s t) = suc (depth s)

abbrev pub ids : Perfect → List BlockId
ids (leaf id) = id ∷ []
ids (fork s t) = ids s ++ ids t

abbrev pub IsPerfect : Perfect → Type 0
IsPerfect (leaf id) = Unit
IsPerfect (fork s t) = (depth s ≡ depth t) × IsPerfect s × IsPerfect t

-- The leaves of a forest, its last tree first.
abbrev pub logged : List Perfect → List BlockId
logged [] = []
logged (p ∷ ps) = logged ps ++ ids p

-- The specification of an append: the carry of a binary counter.
abbrev pub carry : Perfect → List Perfect → List Perfect
carry t [] = t ∷ []
carry t (p ∷ ps) = let rest = carry (fork p t) ps in if depth p == depth t then rest else t ∷ p ∷ ps

abbrev pub forest : List BlockId → List Perfect → List Perfect
forest [] ps = ps
forest (id ∷ ids) ps = forest ids (carry (leaf id) ps)

pub length-ids : (t : Perfect) → IsPerfect t → length (ids t) ≡ 2 ^ depth t
length-ids (leaf id) h = refl
length-ids (fork s t) (same, hs, ht) =
    let right : length (ids t) ≡ 2 ^ depth s = rw same (length-ids t ht) in
    omega (arith, length-append (ids s) (ids t), length-ids s hs, right, pow-suc 2 (depth s))

get_elem?-append :
    {A : Type 0} (xs ys : List A) (i : ℕ) (x : A)
    → get_elem? xs i ≡ some x
    → get_elem? (xs ++ ys) i ≡ some x
get_elem?-append [] ys i x h = absurd (cc)
get_elem?-append (y ∷ xs) ys zero x h = h
get_elem?-append (y ∷ xs) ys (suc i) x h = get_elem?-append xs ys i x h

pub get_elem?-last :
    {A : Type 0} (xs : List A) (x : A) → get_elem? (xs ++ (x ∷ [])) (length xs) ≡ some x
get_elem?-last [] x = refl
get_elem?-last (y ∷ xs) x = get_elem?-last xs x

module _ (blake3 : Blake3) where
  abbrev pub digest : Perfect → MmrHash
  digest (leaf id) = leaf_h blake3 id
  digest (fork s t) = parent blake3 (digest s) (digest t)

  -- The node at an index is the root of the tree, whose nodes are all in the arena.
  abbrev pub Holds : List MmrNode → ℕ → Perfect → Type 0
  Holds arena n (leaf id) =
      get_elem? arena n ≡ some (record { hash = leaf_h blake3 id; left = none; right = none })
  Holds arena n (fork s t) =
      (l : ℕ) × (r : ℕ) × (get_elem? arena n
        ≡ some
            (record { hash = parent blake3 (digest s) (digest t); left = some l; right = some r }))
      × Holds arena l s
      × Holds arena r t

  -- A tree of the range that stands for a perfect tree behind a log.
  pub record Stands (arena : List MmrNode) (before : ℕ) (t : Tree) (p : Perfect) : Type 0 where
    pub holds : Holds arena t.root p
    pub high : t.height ≡ depth p
    pub starts : t.base ≡ before
    pub perfect : IsPerfect p

  pub data Forest (arena : List MmrNode) : List Tree → List Perfect → Type 0 where
    bare : Forest arena [] []
    grown :
        {t : Tree} {p : Perfect} {ts : List Tree} {ps : List Perfect}
        → Stands arena (length (logged ps)) t p
        → Forest arena ts ps
        → Forest arena (t ∷ ts) (p ∷ ps)

  pub record Represents (m : Mmr) (ps : List Perfect) : Type 0 where
    pub stands : Forest m.arena m.trees ps
    pub counted : m.leaves ≡ length (logged ps)

  pub hash_at-Holds :
      (arena : List MmrNode) (n : ℕ) (t : Perfect) → Holds arena n t → hash_at arena n ≡ digest t
  unfolding hash_at
  hash_at-Holds arena n (leaf id) h = rw (hash_at, h)
  hash_at-Holds arena n (fork s t) (l, r, h, hs, ht) = rw (hash_at, h)

  -- A longer arena holds what it held.
  pub Holds-append :
      (arena more : List MmrNode) (n : ℕ) (t : Perfect)
      → Holds arena n t
      → Holds (arena ++ more) n t
  Holds-append arena more n (leaf id) h = get_elem?-append arena more n _ h
  Holds-append arena more n (fork s t) (l, r, h, hs, ht) = (
    l,
    r,
    get_elem?-append arena more n _ h,
    Holds-append arena more l s hs,
    Holds-append arena more r t ht,
  )

  pub Forest-append :
      (arena more : List MmrNode) {ts : List Tree} {ps : List Perfect}
      → Forest arena ts ps
      → Forest (arena ++ more) ts ps
  Forest-append arena more bare = bare
  Forest-append arena more (grown {t} {p} s f) =
      grown
        (record {
          holds = Holds-append arena more t.root p s.holds;
          high = s.high;
          starts = s.starts;
          perfect = s.perfect;
        })
        (Forest-append arena more f)
