-- ===== src/Prune/Importance.antt =====
-- crates/prune/src/lib.rs: the window of the baseline policy: blocks of the log in order, each once, and what they cost.
use dlr.Prelude.{
  All-weaken, ℕ, zero, suc, ◌+◌, ◌≤◌, ◌<◌, ◌≡◌, ◌⊎◌, inl, inr, refl, ap, ◌∙◌, arith, List, [], ◌∷◌,
  length, map, All, Bool, true, false, ltb, leb, ◌==◌, not, ◌&&◌, Bool-cases,
}
use dlr.Core.Block.{Block}
use dlr.Prune.{
  PruneWindow, tokens_of, sum_tokens, is_pinned, block_at, fill, insert_index, sort_indices, rank,
  importance_prune,
}
use dlr.Prune.Ranking.{
  times, firsts, Ascending, All-sort_indices, sort_indices-Ascending, All-rank, times-rank,
}

-- The fill keeps some of the ranked indices.
module _ (log : List Block) (budget : ℕ) where
  abbrev cost : List ℕ → ℕ
  cost is = sum_tokens (map (block_at log) is)

  abbrev skips : Bool → ℕ → ℕ → Bool
  skips full tokens idx =
      (ltb budget (tokens + tokens_of (block_at log idx)) && full)
      && not (is_pinned (block_at log idx).kind)

  fill-firsts :
      (r : List (ℕ × ℕ)) (full : Bool) (tokens x : ℕ)
      → times x (fill log budget full tokens r).0 ≤ times x (firsts r)
  unfolding fill
  fill-firsts [] full tokens x = omega arith
  fill-firsts ((idx, s) ∷ r) full tokens x = elim (Bool-cases (skips full tokens idx)) [
    | inl q ↦ rw q (omega (arith, fill-firsts r full tokens x))
    | inr q ↦ elim (Bool-cases (leb budget (tokens + tokens_of (block_at log idx)))) [
      | inl e ↦ rw (q, e) (omega arith)
      | inr e ↦
          rw (q, e) (omega (arith, fill-firsts r true (tokens + tokens_of (block_at log idx)) x))
    ]
  ]

  All-fill :
      (P : ℕ → Type 0) (r : List (ℕ × ℕ)) (full : Bool) (tokens : ℕ)
      → All P (firsts r)
      → All P (fill log budget full tokens r).0
  unfolding fill
  All-fill P [] full tokens h = tt
  All-fill P ((idx, s) ∷ r) full tokens h = elim (Bool-cases (skips full tokens idx)) [
    | inl q ↦ rw q (All-fill P r full tokens h.1)
    | inr q ↦ elim (Bool-cases (leb budget (tokens + tokens_of (block_at log idx)))) [
      | inl e ↦ rw (q, e) (h.0, tt)
      | inr e ↦ rw (q, e) (h.0, All-fill P r true (tokens + tokens_of (block_at log idx)) h.1)
    ]
  ]

  fill-cost :
      (r : List (ℕ × ℕ)) (full : Bool) (tokens : ℕ)
      → (fill log budget full tokens r).1 ≡ tokens + cost (fill log budget full tokens r).0
  unfolding fill
  fill-cost [] full tokens = omega arith
  fill-cost ((idx, s) ∷ r) full tokens = elim (Bool-cases (skips full tokens idx)) [
    | inl q ↦ rw q (fill-cost r full tokens)
    | inr q ↦ elim (Bool-cases (leb budget (tokens + tokens_of (block_at log idx)))) [
      | inl e ↦ rw (q, e) (omega arith)
      | inr e ↦ rw (q, e) (omega (arith, fill-cost r true (tokens + tokens_of (block_at log idx))))
    ]
  ]

  fill-budget :
      (r : List (ℕ × ℕ)) (tokens : ℕ)
      → ((i : ℕ) → is_pinned (block_at log i).kind ≡ false)
      → tokens ≤ budget
      → (fill log budget true tokens r).1 ≤ budget
  unfolding fill
  fill-budget [] tokens free h = h
  fill-budget ((idx, s) ∷ r) tokens free h =
      let t = tokens_of (block_at log idx) in
      elim (Bool-cases (ltb budget (tokens + t))) [
        | inl q ↦ rw (q, free idx) (fill-budget r tokens free h)
        | inr q ↦ elim (Bool-cases (leb budget (tokens + t))) [
          | inl e ↦ rw (q, e) (ground (arith, q))
          | inr e ↦ rw (q, e) (fill-budget r (tokens + t) free (ground (arith, q)))
        ]
      ]

  fill-first :
      (r : List (ℕ × ℕ))
      → ((i : ℕ) → is_pinned (block_at log i).kind ≡ false)
      → ((fill log budget false 0 r).1 ≤ budget) ⊎ (length (fill log budget false 0 r).0 ≤ 1)
  unfolding fill
  fill-first [] free = inl (omega arith)
  fill-first ((idx, s) ∷ r) free =
      let t = tokens_of (block_at log idx) in
      let kept : skips false 0 idx ≡ false = ground arith in
      elim (Bool-cases (leb budget (0 + t))) [
        | inl e ↦ rw (kept, e) (inr (omega arith))
        | inr e ↦ rw (kept, e) (inl (fill-budget r (0 + t) free (ground (arith, e))))
      ]

  cost-insert_index : (i : ℕ) (js : List ℕ) → cost (insert_index i js) ≡ cost (i ∷ js)
  unfolding insert_index
  cost-insert_index i [] = refl
  cost-insert_index i (j ∷ js) = elim (Bool-cases (leb i j)) [
    | inl q ↦ rw q
    | inr q ↦ rw q (omega (arith, cost-insert_index i js))
  ]

  cost-sort_indices : (is : List ℕ) → cost (sort_indices is) ≡ cost is
  unfolding sort_indices
  cost-sort_indices [] = refl
  cost-sort_indices (i ∷ is) =
      omega (arith, cost-insert_index i (sort_indices is), cost-sort_indices is)

length-insert_index : (i : ℕ) (js : List ℕ) → length (insert_index i js) ≡ suc (length js)
unfolding insert_index
length-insert_index i [] = refl
length-insert_index i (j ∷ js) = elim (Bool-cases (leb i j)) [
  | inl q ↦ rw q
  | inr q ↦ rw q (ap suc (length-insert_index i js))
]

length-sort_indices : (is : List ℕ) → length (sort_indices is) ≡ length is
unfolding sort_indices
length-sort_indices [] = refl
length-sort_indices (i ∷ is) =
    length-insert_index i (sort_indices is) ∙ ap suc (length-sort_indices is)

length-map : {A B : Type 0} (f : A → B) (xs : List A) → length (map f xs) ≡ length xs
length-map f [] = refl
length-map f (x ∷ xs) = ap suc (length-map f xs)

block_at-free :
    (log : List Block) (i : ℕ)
    → All (λ b. is_pinned b.kind ≡ false) log
    → is_pinned (block_at log i).kind ≡ false
unfolding is_pinned
block_at-free [] i h = refl
block_at-free (b ∷ log) zero h = h.0
block_at-free (b ∷ log) (suc i) h = block_at-free log i h.1

-- What a window says of a log and a budget.
pub record IsWindow (log : List Block) (budget : ℕ) (w : PruneWindow) : Type 0 where
  pub kept : List ℕ
  pub ascending : Ascending kept
  pub inside : All (λ i. i < length log) kept
  pub picked : w.blocks ≡ map (block_at log) kept
  pub counted : w.approx_tokens ≡ sum_tokens w.blocks
  pub bounded :
      All (λ b. is_pinned b.kind ≡ false) log → (w.approx_tokens ≤ budget) ⊎ (length w.blocks ≤ 1)

-- The window of the baseline policy has blocks of the log in their order, each at most once, and its
-- count is the sum of what they cost; without a system or summary block in the log the count is
-- within the budget, unless the window is a single block. This holds for all scores.
pub importance_prune-IsWindow :
    (score : ℕ → ℕ → Block → ℕ) (session_id : ℕ) (log : List Block) (budget : ℕ)
    → IsWindow log budget (importance_prune score session_id log budget)
unfolding importance_prune
importance_prune-IsWindow score session_id [] budget = record {
  kept = [];
  ascending = tt;
  inside = tt;
  picked = refl;
  counted = refl;
  bounded = λ h. inl (omega arith);
}
importance_prune-IsWindow score session_id (b ∷ bs) budget =
    let log = b ∷ bs in
    let ranked = rank score (length log) 0 log in
    let filled = fill log budget false 0 ranked in
    let kept = filled.0 in
    let some_blocks : (length log == 0) ≡ false = ground arith in
    rw some_blocks (record {
      kept = sort_indices kept;
      ascending = sort_indices-Ascending kept λ x.
          omega
            (arith, fill-firsts log budget ranked false 0 x, times-rank score (length log) 0 log x);
      inside =
          All-sort_indices (λ i. i < length log) kept
            (All-fill log budget (λ i. i < length log) ranked false 0
              (All-weaken _ _ (firsts ranked) (λ i h. omega (arith, h.1))
                (All-rank score (length log) 0 log)));
      picked = refl;
      counted =
          omega (arith, fill-cost log budget ranked false 0, cost-sort_indices log budget kept);
      bounded = λ free. elim (fill-first log budget ranked (λ i. block_at-free log i free)) [
        | inl h ↦ inl h
        | inr h ↦ inr (
            omega
              (arith, h, length-map (block_at log) (sort_indices kept), length-sort_indices kept))
      ];
    })
