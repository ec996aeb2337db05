-- ===== src/Prune/Incremental/Evictions.antt =====
-- crates/prune/src/incremental.rs: the evictions, on the list of survivors that a pruner stands for.
use dlr.Prelude.{
  ℕ, zero, suc, ◌≤◌, ◌≡◌, ◌⊎◌, inl, inr, refl, sym, ap, subst, ◌∙◌, arith, List, [], ◌∷◌, length,
  map, Option, some, Bool, true, false, ltb, if◌then◌else◌, ◌&&◌, bytes_eq, bytes_eq_iff, bytes_key,
  Bool-cases,
}
use dlr.Prelude.Assoc.{lookup, remove, lookup-remove}
use dlr.Core.Block.{BlockId}
use dlr.Prune.Incremental.{
  Budget, blocks, tokens, Survivor, Scored, IncrementalPruner, wrapping_sub, over, evict,
  keep_first, is_blocks,
}
use dlr.Prune.Incremental.Sorted.{Entry, survivor, scored, sizes, without, place_entry}
use dlr.Prune.Incremental.Refines.{Represents, entry_of}

-- What an insertion leaves of a list of survivors: the smallest keys go while the budget is exceeded.
abbrev pub trim : Budget → List Entry → List Entry
trim b [] = []
trim (blocks n) (e ∷ es) = if ltb n (length (e ∷ es)) then es else e ∷ es
trim (tokens n) (e ∷ es) =
    let rest = trim (tokens n) es in
    if ltb n (sizes (e ∷ es)) && ltb 1 (length (e ∷ es)) then rest else e ∷ es

abbrev pub with_block : BlockId → ℕ → IncrementalPruner → List Entry → List Entry
with_block id size p es = trim p.budget (place_entry (entry_of id size p) (without id es))

Budget-cases : (b : Budget) → ((n : ℕ) × (b ≡ blocks n)) ⊎ ((n : ℕ) × (b ≡ tokens n))
Budget-cases (blocks n) = inl (n, refl)
Budget-cases (tokens n) = inr (n, refl)

pub length-map : (es : List Entry) → length (map survivor es) ≡ length es
length-map [] = refl
length-map (e ∷ es) = ap suc (length-map es)

abbrev over_list : Budget → List Entry → Bool
over_list (blocks n) es = ltb n (length es)
over_list (tokens n) es = ltb n (sizes es) && ltb 1 (length es)

over-list :
    (p : IncrementalPruner) (es : List Entry) → Represents p es → over p ≡ over_list p.budget es
unfolding over
over-list p es r = elim (Budget-cases p.budget) [
  | inl (n, b) ↦ rw (over, b, r.in_order, length-map es)
  | inr (n, b) ↦ rw (over, b, r.in_order, length-map es, r.sized)
]

-- The survivors without the first.
abbrev popped : Entry → List Survivor → IncrementalPruner → IncrementalPruner
popped e rest p = record p {
  ordered = rest;
  index = remove e.id p.index;
  total_size = wrapping_sub p.total_size e.size;
}

popped-Represents :
    (p : IncrementalPruner) (e : Entry) (es : List Entry)
    → Represents p (e ∷ es)
    → Represents (popped e (map survivor es) p) es
popped-Represents p e es r = record {
  in_order = refl;
  indexed = λ j. elim (Bool-cases (bytes_eq e.id j)) [
    | inl q ↦
        rw (lookup-remove e.id j p.index, q) (sym (rw ((bytes_eq_iff e.id j).0 q) at r.distinct.0))
    | inr q ↦ rw (lookup-remove e.id j p.index, q) (r.indexed j ∙ rw q)
  ];
  sized = omega (arith, r.sized, r.bounded);
  sorted = r.sorted.1;
  distinct = r.distinct.1;
  older = r.older.1;
  bounded = omega (arith, r.bounded);
}

pub record Evicted (p : IncrementalPruner) (es : List Entry)
    (o : Option (IncrementalPruner × Option BlockId)) : Type 0 where
  pub pruner : IncrementalPruner
  pub first : Option BlockId
  pub done : o ≡ some (pruner, first)
  pub represents : Represents pruner (trim p.budget es)
  pub clock : pruner.clock ≡ p.clock
  pub scorer : pruner.scorer ≡ p.scorer
  pub budget : pruner.budget ≡ p.budget

trim_stay : (b : Budget) (es : List Entry) → over_list b es ≡ false → trim b es ≡ es
trim_stay (blocks n) [] h = refl
trim_stay (tokens n) [] h = refl
trim_stay (blocks n) (e ∷ es) h = rw h
trim_stay (tokens n) (e ∷ es) h = rw h

trim-blocks :
    (b : Budget) (n : ℕ) (e : Entry) (es : List Entry)
    → b ≡ blocks n
    → over_list b (e ∷ es) ≡ true
    → trim b (e ∷ es) ≡ es
trim-blocks (blocks m) n e es q h = rw h
trim-blocks (tokens m) n e es q h = absurd (cc)

trim-tokens :
    (b : Budget) (n : ℕ) (e : Entry) (es : List Entry)
    → b ≡ tokens n
    → over_list b (e ∷ es) ≡ true
    → trim b (e ∷ es) ≡ trim b es
trim-tokens (blocks m) n e es q h = absurd (cc)
trim-tokens (tokens m) n e es q h = rw h

over_list-nil : (b : Budget) → over_list b [] ≡ false
over_list-nil (blocks n) = ground arith
over_list-nil (tokens n) = ground arith

stay :
    (p : IncrementalPruner) (es : List Entry) (first : Option BlockId)
    → Represents p es
    → over_list p.budget es ≡ false
    → Evicted p es (some (p, first))
stay p es first r h = record {
  pruner = p;
  first = first;
  done = refl;
  represents = rw (trim_stay p.budget es h) r;
  clock = refl;
  scorer = refl;
  budget = refl;
}

evict_calm :
    (fuel : ℕ) (first : Option BlockId) (p : IncrementalPruner) (x : Survivor)
    (rest : List Survivor) (en : Scored)
    → p.ordered ≡ x ∷ rest
    → lookup x.id p.index ≡ some en
    → over p ≡ false
    → evict (suc fuel) first p ≡ some (p, first)
unfolding evict
evict_calm fuel first p x rest en o l v = simp (evict, o, l, v)

-- A round that evicts.
evict_round :
    (fuel : ℕ) (first : Option BlockId) (p : IncrementalPruner) (x : Survivor)
    (rest : List Survivor) (en : Scored)
    → p.ordered ≡ x ∷ rest
    → lookup x.id p.index ≡ some en
    → over p ≡ true
    → let p' : IncrementalPruner = record p {
      ordered = rest;
      index = remove x.id p.index;
      total_size = wrapping_sub p.total_size en.size;
    } in
      evict (suc fuel) first p ≡ (
        if is_blocks p.budget
        then some (p', keep_first first x.id)
        else evict fuel (keep_first first x.id) p')
unfolding evict
evict_round fuel first p x rest en o l v = simp (evict, o, l, v)

-- With a survivor at the front, what a call does when the budget is kept, and when it is not.
module _ (fuel : ℕ) (first : Option BlockId) (p : IncrementalPruner) (e : Entry) (es : List Entry)
    (r : Represents p (e ∷ es)) where
  abbrev next : IncrementalPruner
  next = popped e (map survivor es) p

  front-indexed : lookup e.id p.index ≡ some (scored e)
  front-indexed =
      let self : bytes_eq e.id e.id ≡ true = (bytes_eq_iff e.id e.id).1 refl in
      r.indexed e.id ∙ rw self

  evict-stay : over_list p.budget (e ∷ es) ≡ false → evict (suc fuel) first p ≡ some (p, first)
  evict-stay calm =
      evict_calm fuel first p (survivor e) (map survivor es) (scored e) r.in_order front-indexed
        (over-list p (e ∷ es) r ∙ calm)

  evict-next :
      over_list p.budget (e ∷ es) ≡ true
      → evict (suc fuel) first p ≡ (
          if is_blocks p.budget
          then some (next, keep_first first e.id)
          else evict fuel (keep_first first e.id) next)
  evict-next more =
      evict_round fuel first p (survivor e) (map survivor es) (scored e) r.in_order front-indexed
        (over-list p (e ∷ es) r ∙ more)

  abbrev either : Bool → Option (IncrementalPruner × Option BlockId)
  either c =
      if c then some (next, keep_first first e.id) else evict fuel (keep_first first e.id) next

  evict-blocks :
      (n : ℕ)
      → p.budget ≡ blocks n
      → over_list p.budget (e ∷ es) ≡ true
      → evict (suc fuel) first p ≡ some (next, keep_first first e.id)
  evict-blocks n b more =
      evict-next more ∙ ap either (let once : is_blocks p.budget ≡ true = rw b in once)

  evict-tokens :
      (n : ℕ)
      → p.budget ≡ tokens n
      → over_list p.budget (e ∷ es) ≡ true
      → evict (suc fuel) first p ≡ evict fuel (keep_first first e.id) next
  evict-tokens n b more =
      evict-next more ∙ ap either (let again : is_blocks p.budget ≡ false = rw b in again)

pub evict-Evicted :
    (es : List Entry) (fuel : ℕ) (first : Option BlockId) (p : IncrementalPruner)
    → length es ≤ fuel
    → Represents p es
    → Evicted p es (evict fuel first p)
unfolding evict
evict-Evicted [] zero first p h r = stay p [] first r (over_list-nil p.budget)
evict-Evicted [] (suc fuel) first p h r =
    let calm : over p ≡ false = over-list p [] r ∙ over_list-nil p.budget in
    let q : evict (suc fuel) first p ≡ some (p, first) = simp (evict, r.in_order, calm) in
    subst (Evicted p []) (sym q) (stay p [] first r (over_list-nil p.budget))
evict-Evicted (e ∷ es) zero first p h r = absurd (omega arith)
evict-Evicted (e ∷ es) (suc fuel) first p h r =
    let rest = popped e (map survivor es) p in
    let r' = popped-Represents p e es r in
    elim (Bool-cases (over_list p.budget (e ∷ es))) [
      | inr calm ↦
          subst (Evicted p (e ∷ es)) (sym (evict-stay fuel first p e es r calm))
            (stay p (e ∷ es) first r calm)
      | inl more ↦ elim (Budget-cases p.budget) [
        | inl (n, b) ↦ record {
          pruner = rest;
          first = keep_first first e.id;
          done = evict-blocks fuel first p e es r n b more;
          represents = rw (trim-blocks p.budget n e es b more) r';
          clock = refl;
          scorer = refl;
          budget = refl;
        }
        | inr (n, b) ↦
            let later = evict-Evicted es fuel (keep_first first e.id) rest (omega (arith, h)) r' in
            record {
              pruner = later.pruner;
              first = later.first;
              done = evict-tokens fuel first p e es r n b more ∙ later.done;
              represents = rw (trim-tokens p.budget n e es b more) later.represents;
              clock = later.clock;
              scorer = later.scorer;
              budget = later.budget;
            }
      ]
    ]
