-- ===== src/Prune/Incremental/Budgets.antt =====
-- crates/prune/src/incremental.rs: insertions one after the other, and the budget.
use dlr.Prelude.{
  ℕ, suc, ◌+◌, ◌^◌, ◌<◌, ◌≤◌, ◌≡◌, ◌⊎◌, inl, inr, refl, ap, subst, ◌∙◌, arith, List, [], ◌∷◌, ◌++◌,
  length, map, Option, none, some, ltb, bytes_eq, Bool-cases, bytes_key,
}
use dlr.Prelude.Assoc.{lookup}
use dlr.Core.Block.{BlockId}
use dlr.Prune.Incremental.{
  Budget, blocks, tokens, Survivor, IncrementalPruner, new_with, forget, add_block, insert_survivor,
  window,
}
use dlr.Prune.Incremental.Sorted.{Entry, survivor, sizes, find, without, place_entry}
use dlr.Prune.Incremental.Placed.{length-place_entry, sizes-place_entry}
use dlr.Prune.Incremental.Refines.{
  Represents, entry_of, forget-Forgot, same_settings, add_block-Represents,
}
use dlr.Prune.Incremental.Evictions.{trim, with_block, evict-Evicted, length-map}

add_block-settings :
    (id : BlockId) (size : ℕ) (p : IncrementalPruner)
    → p.clock + 1 < 2 ^ 64
    → ((add_block id size p).clock ≡ p.clock + 1)
      × ((add_block id size p).scorer ≡ p.scorer)
      × ((add_block id size p).budget ≡ p.budget)
unfolding add_block
add_block-settings id size p early = (omega (arith, early), refl, refl)

-- A pruner behind an insertion.
record Inserted (id : BlockId) (size : ℕ) (p : IncrementalPruner) (es : List Entry) : Type 0 where
  pruner : IncrementalPruner
  first : Option BlockId
  done : insert_survivor id size p ≡ some (pruner, first)
  represents : Represents pruner (with_block id size p es)
  clock : pruner.clock ≡ p.clock + 1
  scorer : pruner.scorer ≡ p.scorer
  budget : pruner.budget ≡ p.budget

sizes-without : (id : BlockId) (es : List Entry) → sizes (without id es) ≤ sizes es
sizes-without id [] = omega arith
sizes-without id (e ∷ es) = elim (Bool-cases (bytes_eq e.id id)) [
  | inl q ↦ rw q (omega (arith, sizes-without id es))
  | inr q ↦ rw q (omega (arith, sizes-without id es))
]

sizes-trim : (b : Budget) (es : List Entry) → sizes (trim b es) ≤ sizes es
sizes-trim b [] = omega arith
sizes-trim (blocks n) (e ∷ es) = ground arith
sizes-trim (tokens n) (e ∷ es) = ground (arith, sizes-trim (tokens n) es)

sizes-with_block :
    (id : BlockId) (size : ℕ) (p : IncrementalPruner) (es : List Entry)
    → sizes (with_block id size p es) ≤ sizes es + size
sizes-with_block id size p es =
    let e = entry_of id size p in
    omega (
      arith,
      sizes-trim p.budget (place_entry e (without id es)),
      sizes-place_entry e (without id es),
      sizes-without id es,
    )

insert_survivor-Inserted :
    (id : BlockId) (size : ℕ) (p : IncrementalPruner) (es : List Entry)
    → Represents p es
    → sizes es + size < 2 ^ 64
    → p.clock + 1 < 2 ^ 64
    → Inserted id size p es
unfolding insert_survivor
insert_survivor-Inserted id size p es r fits early =
    let (clock, scorer, budget) = same_settings id p in
    let f = forget id p in
    let early' : f.clock + 1 < 2 ^ 64 = omega (arith, clock, early) in
    let (clock', scorer', budget') = add_block-settings id size f early' in
    let added = add_block id size f in
    let placed = place_entry (entry_of id size f) (without id es) in
    let r' =
      add_block-Represents id size f (without id es) (forget-Forgot id p es r)
        (omega (arith, fits, sizes-without id es)) early' in
    let rounds : length placed ≤ length added.ordered =
      omega (arith, ap (λ (l : List Survivor). length l) r'.in_order, length-map placed) in
    let ev = evict-Evicted placed (length added.ordered) none added rounds r' in
    let same : entry_of id size f ≡ entry_of id size p = rw (clock, scorer) in
    record {
      pruner = ev.pruner;
      first = ev.first;
      done = ev.done;
      represents =
          subst (λ e. Represents ev.pruner (trim p.budget (place_entry e (without id es)))) same
            (subst (λ b. Represents ev.pruner (trim b placed)) (budget' ∙ budget) ev.represents);
      clock = ev.clock ∙ clock' ∙ ap (λ n. n + 1) clock;
      scorer = ev.scorer ∙ scorer' ∙ scorer;
      budget = ev.budget ∙ budget' ∙ budget;
    }

-- All the insertions; none is a panic.
abbrev pub insert_survivors : List (BlockId × ℕ) → IncrementalPruner → Option IncrementalPruner
insert_survivors [] p = some p
insert_survivors ((id, size) ∷ bs) p = elim (insert_survivor id size p) [
  | none ↦ none
  | some (p', first) ↦ insert_survivors bs p'
]

-- What they leave, on the one list.
module _ (budget : Budget) (scorer : ℕ → ℕ → ℕ) where
  abbrev pub survivors_of : ℕ → List (BlockId × ℕ) → List Entry → List Entry
  survivors_of clock [] es = es
  survivors_of clock ((id, size) ∷ bs) es =
      let e : Entry = record {
        id = id;
        score = scorer (clock + 1) size;
        seq = clock + 1;
        size = size;
      } in
      survivors_of (clock + 1) bs (trim budget (place_entry e (without id es)))

abbrev pub Fits : Budget → List Entry → Type 0
Fits (blocks n) es = length es ≤ n
Fits (tokens n) es = (sizes es ≤ n) ⊎ (length es ≤ 1)

abbrev pub ids_down : List Entry → List BlockId
ids_down [] = []
ids_down (e ∷ es) = ids_down es ++ (e.id ∷ [])

window-ids_down : (es : List Entry) → window (map survivor es) ≡ ids_down es
unfolding window
window-ids_down [] = refl
window-ids_down (e ∷ es) = ap (λ (l : List BlockId). l ++ (e.id ∷ [])) (window-ids_down es)

length-without : (id : BlockId) (es : List Entry) → length (without id es) ≤ length es
length-without id [] = omega arith
length-without id (e ∷ es) = elim (Bool-cases (bytes_eq e.id id)) [
  | inl q ↦ rw q (omega (arith, length-without id es))
  | inr q ↦ rw q (omega (arith, length-without id es))
]

trim_tokens-Fits : (n : ℕ) (es : List Entry) → Fits (tokens n) (trim (tokens n) es)
trim_tokens-Fits n [] = inr (omega arith)
trim_tokens-Fits n (e ∷ es) = elim (Bool-cases (ltb n (sizes (e ∷ es)))) [
  | inr q ↦ rw q (inl (ground (arith, q)))
  | inl q ↦ elim (Bool-cases (ltb 1 (length (e ∷ es)))) [
    | inr s ↦ rw (q, s) (inr (ground (arith, s)))
    | inl s ↦ rw (q, s) (trim_tokens-Fits n es)
  ]
]

trim_blocks-Fits : (n : ℕ) (es : List Entry) → length es ≤ suc n → length (trim (blocks n) es) ≤ n
trim_blocks-Fits n [] h = omega arith
trim_blocks-Fits n (e ∷ es) h = elim (Bool-cases (ltb n (length (e ∷ es)))) [
  | inl q ↦ rw q (omega (arith, h))
  | inr q ↦ rw q (ground (arith, q))
]

place-Fits :
    (b : Budget) (e : Entry) (id : BlockId) (es : List Entry)
    → Fits b es
    → Fits b (trim b (place_entry e (without id es)))
place-Fits (tokens n) e id es h = trim_tokens-Fits n (place_entry e (without id es))
place-Fits (blocks n) e id es h =
    trim_blocks-Fits n (place_entry e (without id es))
      (omega (arith, h, length-place_entry e (without id es), length-without id es))

survivors_of-Fits :
    (b : Budget) (scorer : ℕ → ℕ → ℕ) (clock : ℕ) (bs : List (BlockId × ℕ)) (es : List Entry)
    → Fits b es
    → Fits b (survivors_of b scorer clock bs es)
survivors_of-Fits b scorer clock [] es h = h
survivors_of-Fits b scorer clock ((id, size) ∷ bs) es h =
    survivors_of-Fits b scorer (clock + 1) bs _ (place-Fits b _ id es h)

new_with-Represents : (b : Budget) (scorer : ℕ → ℕ → ℕ) → Represents (new_with b scorer) []
unfolding new_with lookup
new_with-Represents b scorer = record {
  in_order = refl;
  indexed = λ id. refl;
  sized = refl;
  sorted = tt;
  distinct = tt;
  older = tt;
  bounded = omega arith;
}

-- The sizes of all the insertions together.
abbrev pub inserted_size : List (BlockId × ℕ) → ℕ
inserted_size [] = 0
inserted_size ((id, size) ∷ bs) = size + inserted_size bs

insert_survivors-survivors_of :
    (bs : List (BlockId × ℕ)) (p : IncrementalPruner) (es : List Entry)
    → Represents p es
    → sizes es + inserted_size bs < 2 ^ 64
    → p.clock + length bs < 2 ^ 64
    → (q : IncrementalPruner) × (insert_survivors bs p ≡ some q)
      × Represents q (survivors_of p.budget p.scorer p.clock bs es)
insert_survivors-survivors_of [] p es r fits early = (p, refl, r)
insert_survivors-survivors_of ((id, size) ∷ bs) p es r fits early =
    let i = insert_survivor-Inserted id size p es r (omega (arith, fits)) (omega (arith, early)) in
    let (q, done, rq) =
      insert_survivors-survivors_of bs i.pruner (with_block id size p es) i.represents
        (omega (arith, fits, sizes-with_block id size p es)) (omega (arith, early, i.clock)) in
    (q, rw (insert_survivors, i.done) done, rw (i.clock, i.scorer, i.budget) at rq)

abbrev pub InBudget : Budget → IncrementalPruner → Type 0
InBudget (blocks n) p = length p.ordered ≤ n
InBudget (tokens n) p = (p.total_size ≤ n) ⊎ (length p.ordered ≤ 1)

-- Inserting fewer than 2 ^ 64 blocks, whose sizes together are below 2 ^ 64, into a new pruner never
-- panics, and leaves of its two maps and its size exactly what one sorted list of survivors says, from
-- which each insertion takes an old entry of the id, puts the new one in its place by score, and drops
-- the smallest while the budget is exceeded: the window is the ids of the list, the highest score
-- first, the index has its entries and no others, the size is their sum, and the budget is kept: at
-- most so many survivors, or sizes within it unless one survivor is left. This holds for every scorer
-- and budget, with ids that come again.
pub insert_survivors-Refines :
    (b : Budget) (scorer : ℕ → ℕ → ℕ) (bs : List (BlockId × ℕ))
    → inserted_size bs < 2 ^ 64
    → length bs < 2 ^ 64
    → let es = survivors_of b scorer 0 bs [] in
      (p : IncrementalPruner) × (insert_survivors bs (new_with b scorer) ≡ some p)
      × (window p.ordered ≡ ids_down es)
      × ((id : BlockId) → lookup id p.index ≡ find id es)
      × (p.total_size ≡ sizes es)
      × InBudget b p
unfolding new_with
insert_survivors-Refines b scorer bs few short =
    let (p, done, r) =
      insert_survivors-survivors_of bs (new_with b scorer) [] (new_with-Represents b scorer)
        (omega (arith, few)) (omega (arith, short)) in
    (
      p,
      done,
      ap window r.in_order ∙ window-ids_down (survivors_of b scorer 0 bs []),
      r.indexed,
      r.sized,
      fits b p r (survivors_of-Fits b scorer 0 bs [] (nothing b)),
    )
  where
    nothing : (b : Budget) → Fits b []
    nothing (blocks n) = omega arith
    nothing (tokens n) = inr (omega arith)

    fits :
        (c : Budget) (p : IncrementalPruner) {es : List Entry}
        → Represents p es
        → Fits c es
        → InBudget c p
    fits (blocks n) p {es} r h = rw (r.in_order, length-map es) h
    fits (tokens n) p {es} r (inl h) = inl (omega (arith, r.sized, h))
    fits (tokens n) p {es} r (inr h) = inr (rw (r.in_order, length-map es) h)
