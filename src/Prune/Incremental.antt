-- ===== src/Prune/Incremental.antt =====
-- crates/prune/src/incremental.rs: the incremental top-K. The `BTreeMap` of survivors is a list in the
-- order of its keys (score, seq), and the index an association list. The total size and the clock wrap
-- at 2 ^ 64, as they do in a build without overflow checks. The removals that the code unwraps return
-- a panic as none.
pub mod Sorted
pub mod Placed
pub mod Refines
pub mod Evictions
pub mod Budgets
use dlr.Prelude.{
  ℕ, zero, suc, ◌+◌, ◌-◌, ◌*◌, ◌%◌, ◌^◌, List, [], ◌∷◌, ◌++◌, length, Option, none, some, Bool,
  true, false, ltb, leb, ◌==◌, if◌then◌else◌, min, ◌&&◌, ◌||◌, bytes_key,
}
use Prim.Native.Nat.{bit_or}
use dlr.Prelude.Assoc.{Assoc, lookup, insert, remove}
use dlr.Core.Block.{BlockId}

pub data Budget : Type 0 where
  blocks : ℕ → Budget
  tokens : ℕ → Budget

-- A survivor: its key in the order, and its id.
pub record Survivor : Type 0 where
  pub score : ℕ
  pub seq : ℕ
  pub id : BlockId

-- What the index has of an id.
pub record Scored : Type 0 where
  pub score : ℕ
  pub seq : ℕ
  pub size : ℕ

pub record IncrementalPruner : Type 0 where
  pub budget : Budget
  pub ordered : List Survivor
  pub index : Assoc BlockId Scored
  pub total_size : ℕ
  pub clock : ℕ
  pub scorer : ℕ → ℕ → ℕ

unfoldable pub default_score : ℕ → ℕ → ℕ
default_score seq size = bit_or (seq * 2 ^ 20 % 2 ^ 64) (min size (2 ^ 20 - 1))

unfoldable pub new_with : Budget → (ℕ → ℕ → ℕ) → IncrementalPruner
new_with budget scorer = record {
  budget = budget;
  ordered = [];
  index = [];
  total_size = 0;
  clock = 0;
  scorer = scorer;
}

unfoldable pub new_pruner : ℕ → IncrementalPruner
new_pruner budget = new_with (blocks budget) default_score

unfoldable pub new_token_budget : ℕ → IncrementalPruner
new_token_budget budget = new_with (tokens budget) default_score

-- `a - b` on `usize`.
abbrev pub wrapping_sub : ℕ → ℕ → ℕ
wrapping_sub a b = (a + 2 ^ 64 - b) % 2 ^ 64

-- The keys' order, and their equality.
unfoldable pub before : Survivor → Survivor → Bool
before a b = ltb a.score b.score || ((a.score == b.score) && ltb a.seq b.seq)

unfoldable pub same_key : Survivor → Survivor → Bool
same_key a b = (a.score == b.score) && (a.seq == b.seq)

-- `BTreeMap::insert`, which replaces the value of a key that is there.
unfoldable pub insert_ordered : Survivor → List Survivor → List Survivor
insert_ordered x [] = x ∷ []
insert_ordered x (y ∷ ys) =
    let rest = insert_ordered x ys in
    if before x y then x ∷ y ∷ ys else if same_key x y then x ∷ ys else y ∷ rest

unfoldable pub remove_ordered : ℕ → ℕ → List Survivor → List Survivor
remove_ordered score seq [] = []
remove_ordered score seq (y ∷ ys) =
    let rest = remove_ordered score seq ys in
    if (y.score == score) && (y.seq == seq) then ys else y ∷ rest

-- The old entry of an id that is inserted again.
unfoldable pub forget : BlockId → IncrementalPruner → IncrementalPruner
forget id p = elim (lookup id p.index) [
  | none ↦ p
  | some old ↦ record p {
    ordered = remove_ordered old.score old.seq p.ordered;
    total_size = wrapping_sub p.total_size old.size;
  }
]

unfoldable pub add_block : BlockId → ℕ → IncrementalPruner → IncrementalPruner
add_block id size p =
    let clock = (p.clock + 1) % 2 ^ 64 in
    let s = p.scorer clock size in
    record p {
      ordered = insert_ordered (record { score = s; seq = clock; id = id }) p.ordered;
      index = insert id (record { score = s; seq = clock; size = size }) p.index;
      total_size = (p.total_size + size) % 2 ^ 64;
      clock = clock;
    }

unfoldable pub over : IncrementalPruner → Bool
over p = elim p.budget [
  | blocks b ↦ ltb b (length p.ordered)
  | tokens b ↦ ltb b p.total_size && ltb 1 (length p.ordered)
]

abbrev pub keep_first : Option BlockId → BlockId → Option BlockId
keep_first none id = some id
keep_first (some first) id = some first

-- `matches!(self.budget, Budget::Blocks(_))`
abbrev pub is_blocks : Budget → Bool
is_blocks (blocks b) = true
is_blocks (tokens b) = false

-- The loop of evictions, at most so many; the first evicted id is kept. None is a panic.
unfoldable pub evict :
    ℕ → Option BlockId → IncrementalPruner → Option (IncrementalPruner × Option BlockId)
evict zero first p = some (p, first)
evict (suc fuel) first p = elim p.ordered [
  | [] ↦ if over p then none else some (p, first)
  | x ∷ rest ↦ elim (lookup x.id p.index) [
    | none ↦ if over p then none else some (p, first)
    | some e ↦
        let p' : IncrementalPruner = record p {
          ordered = rest;
          index = remove x.id p.index;
          total_size = wrapping_sub p.total_size e.size;
        } in
        let first' = keep_first first x.id in
        let again = evict fuel first' p' in
        if over p
        then (if is_blocks p.budget then some (p', first') else again)
        else some (p, first)
  ]
]

-- As many rounds as there are survivors.
unfoldable pub insert_survivor :
    BlockId → ℕ → IncrementalPruner → Option (IncrementalPruner × Option BlockId)
insert_survivor id size p =
    let p' = add_block id size (forget id p) in evict (length p'.ordered) none p'

-- The survivors' ids, the highest score first.
unfoldable pub window : List Survivor → List BlockId
window [] = []
window (x ∷ xs) = window xs ++ (x.id ∷ [])

unfoldable pub insert_by_seq : BlockId → ℕ → List (BlockId × ℕ) → List (BlockId × ℕ)
insert_by_seq id seq [] = (id, seq) ∷ []
insert_by_seq id seq ((id', seq') ∷ rest) =
    let later = insert_by_seq id seq rest in
    if leb seq seq' then (id, seq) ∷ (id', seq') ∷ rest else (id', seq') ∷ later

unfoldable pub sort_by_seq : Assoc BlockId Scored → List (BlockId × ℕ)
sort_by_seq [] = []
sort_by_seq ((id, e) ∷ index) = insert_by_seq id e.seq (sort_by_seq index)

abbrev pub first_of : List (BlockId × ℕ) → List BlockId
first_of [] = []
first_of ((id, seq) ∷ rest) = id ∷ first_of rest

unfoldable pub window_ordered : IncrementalPruner → List BlockId
window_ordered p = first_of (sort_by_seq p.index)
