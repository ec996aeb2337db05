-- ===== src/Prune.antt =====
-- crates/prune/src/lib.rs: the windows of a session, the baseline policy and the schedulers. The score of
-- the baseline, which is floating point, is a parameter: a number for each block, in the order of the
-- scores. Parallel jobs are run one after the other, and the numbers of jobs are not wrapped.
pub mod Incremental
pub mod Ranking
pub mod Importance
pub mod Schedules
use dlr.Prelude.{
  ℕ, zero, suc, ◌+◌, ◌/◌, List, [], ◌∷◌, ◌++◌, length, map, Option, none, some, Bool, true, false,
  ltb, leb, ◌==◌, if◌then◌else◌, get_elem?, not, ◌&&◌, ◌||◌, nat_eq,
}
use dlr.Prelude.Assoc.{Assoc, lookup, insert}
use dlr.Core.Block.{Block, BlockId, BlockKind, message, tool_call, tool_result, system, summary}
use dlr.Core.Store.{ContentStore, get, session_ids}
use dlr.Prune.Incremental.{IncrementalPruner, new_token_budget, insert_survivor, window_ordered}

pub record PruneWindow : Type 0 where
  pub session_id : ℕ
  pub blocks : List Block
  pub approx_tokens : ℕ

-- A session, its log and a budget.
abbrev pub PrunePolicy : Type 0
PrunePolicy = ℕ → List Block → ℕ → PruneWindow

unfoldable pub tokens_of : Block → ℕ
tokens_of b = let q = length b.payload / 4 in if leb q 1 then 1 else q

abbrev pub sum_tokens : List Block → ℕ
sum_tokens [] = 0
sum_tokens (b ∷ bs) = tokens_of b + sum_tokens bs

unfoldable pub is_pinned : BlockKind → Bool
is_pinned system = true
is_pinned summary = true
is_pinned message = false
is_pinned tool_call = false
is_pinned tool_result = false

-- `log[i]`; out of range, a panic that no index reaches, is an empty message.
abbrev pub block_at : List Block → ℕ → Block
block_at log i = elim (get_elem? log i) [
  | none ↦ record { kind = message; seq = 0; payload = [] }
  | some b ↦ b
]

-- The sort by descending score, then by index.
unfoldable pub insert_scored : ℕ → ℕ → List (ℕ × ℕ) → List (ℕ × ℕ)
insert_scored i score [] = (i, score) ∷ []
insert_scored i score ((j, other) ∷ rest) =
    let later = insert_scored i score rest in
    if ltb other score || ((other == score) && ltb i j)
    then (i, score) ∷ (j, other) ∷ rest
    else (j, other) ∷ later

-- The greedy fill: the indices kept, and their tokens; `full` says that something is kept already.
unfoldable pub fill : List Block → ℕ → Bool → ℕ → List (ℕ × ℕ) → List ℕ × ℕ
fill log budget full tokens [] = ([], tokens)
fill log budget full tokens ((idx, score) ∷ ranked) =
    let b = block_at log idx in
    let t = tokens_of b in
    let skipped = fill log budget full tokens ranked in
    let rest = fill log budget true (tokens + t) ranked in
    if (ltb budget (tokens + t) && full) && not (is_pinned b.kind)
    then skipped
    else if leb budget (tokens + t)
    then (idx ∷ [], tokens + t)
    else (idx ∷ rest.0, rest.1)

unfoldable pub insert_index : ℕ → List ℕ → List ℕ
insert_index i [] = i ∷ []
insert_index i (j ∷ js) = let rest = insert_index i js in if leb i j then i ∷ j ∷ js else j ∷ rest

unfoldable pub sort_indices : List ℕ → List ℕ
sort_indices [] = []
sort_indices (i ∷ is) = insert_index i (sort_indices is)

module _ (score : ℕ → ℕ → Block → ℕ) where
  -- The indices from `i` on, ranked, of a log of `n` blocks.
  unfoldable pub rank : ℕ → ℕ → List Block → List (ℕ × ℕ)
  rank n i [] = []
  rank n i (b ∷ bs) = insert_scored i (score n i b) (rank n (i + 1) bs)

  unfoldable pub importance_prune : PrunePolicy
  importance_prune session_id log budget =
      let (kept, tokens) = fill log budget false 0 (rank (length log) 0 log) in
      let picked : PruneWindow = record {
        session_id = session_id;
        blocks = map (block_at log) (sort_indices kept);
        approx_tokens = tokens;
      } in
      if length log == 0
      then record { session_id = session_id; blocks = []; approx_tokens = 0 }
      else picked

pub record PruneJob : Type 0 where
  pub session_id : ℕ
  pub budget_tokens : ℕ

-- The pending jobs, in the order of their scheduling.
unfoldable pub schedule : PruneJob → List PruneJob → List PruneJob
schedule job pending = pending ++ (job ∷ [])

abbrev pub run_job : PrunePolicy → (ℕ → List Block) → PruneJob → PruneWindow
run_job policy reconstruct job =
    policy job.session_id (reconstruct job.session_id) job.budget_tokens

-- `Vec::pop`
unfoldable pub pop_job : List PruneJob → Option (List PruneJob × PruneJob)
pop_job [] = none
pop_job (job ∷ jobs) = elim (pop_job jobs) [
  | none ↦ some ([], job)
  | some (rest, last) ↦ some (job ∷ rest, last)
]

unfoldable pub run_one :
    PrunePolicy → (ℕ → List Block) → List PruneJob → List PruneJob × Option PruneWindow
run_one policy reconstruct pending = elim (pop_job pending) [
  | none ↦ (pending, none)
  | some (rest, job) ↦ (rest, some (run_job policy reconstruct job))
]

unfoldable pub run_all :
    PrunePolicy → (ℕ → List Block) → List PruneJob → List PruneJob × List PruneWindow
run_all policy reconstruct pending = ([], map (run_job policy reconstruct) pending)

-- The scheduler with priorities: the heap as a list with the greatest number first, and the number
-- given last.
pub record PriorityPending : Type 0 where
  pub heap : List (ℕ × PruneJob)
  pub seq : ℕ

unfoldable pub push_heap : ℕ → PruneJob → List (ℕ × PruneJob) → List (ℕ × PruneJob)
push_heap seq job [] = (seq, job) ∷ []
push_heap seq job ((other, j) ∷ heap) =
    let rest = push_heap seq job heap in
    if ltb other seq then (seq, job) ∷ (other, j) ∷ heap else (other, j) ∷ rest

unfoldable pub schedule_priority : PruneJob → PriorityPending → PriorityPending
schedule_priority job p = record { heap = push_heap (p.seq + 1) job p.heap; seq = p.seq + 1 }

abbrev pub jobs_of : List (ℕ × PruneJob) → List PruneJob
jobs_of [] = []
jobs_of ((seq, job) ∷ heap) = job ∷ jobs_of heap

unfoldable pub run_all_priority :
    PrunePolicy → (ℕ → List Block) → PriorityPending → PriorityPending × List PruneWindow
run_all_priority policy reconstruct p =
    (record p { heap = [] }, map (run_job policy reconstruct) (jobs_of p.heap))

-- The scheduler of incremental pruners, of a receiver's store. None is a panic of a pruner.
pub record IncrementalPruneScheduler : Type 0 where
  pub token_budget : ℕ
  pub pruners : Assoc ℕ IncrementalPruner

abbrev pub size_in : ContentStore → BlockId → ℕ
size_in store id = elim (get store id) [ none ↦ 0 | some b ↦ length b.payload ]

unfoldable pub ingest_ids :
    ContentStore → List BlockId → IncrementalPruner → Option IncrementalPruner
ingest_ids store [] p = some p
ingest_ids store (id ∷ ids) p = elim (insert_survivor id (size_in store id) p) [
  | none ↦ none
  | some (p', first) ↦ ingest_ids store ids p'
]

unfoldable pub ingest_session :
    ContentStore → ℕ → IncrementalPruneScheduler → Option IncrementalPruneScheduler
ingest_session store session_id s =
    elim (ingest_ids store (session_ids store session_id) (new_token_budget s.token_budget)) [
      | none ↦ none
      | some p ↦ some (record s { pruners = insert session_id p s.pruners })
    ]

unfoldable pub ingest_block :
    ℕ → BlockId → ℕ → IncrementalPruneScheduler → Option IncrementalPruneScheduler
ingest_block session_id id size s =
    let p = elim (lookup session_id s.pruners) as (λ o. IncrementalPruner) [
      | none ↦ new_token_budget s.token_budget
      | some p ↦ p
    ] in
    elim (insert_survivor id size p) [
      | none ↦ none
      | some (p', first) ↦ some (record s { pruners = insert session_id p' s.pruners })
    ]

unfoldable pub blocks_in : ContentStore → List BlockId → List Block
blocks_in store [] = []
blocks_in store (id ∷ ids) =
    let rest = blocks_in store ids in elim (get store id) [ none ↦ rest | some b ↦ b ∷ rest ]

unfoldable pub session_window : ContentStore → ℕ → IncrementalPruneScheduler → Option PruneWindow
session_window store session_id s = elim (lookup session_id s.pruners) [
  | none ↦ none
  | some p ↦
      let blocks = blocks_in store (window_ordered p) in
      some (record { session_id = session_id; blocks = blocks; approx_tokens = sum_tokens blocks })
]
