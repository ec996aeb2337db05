-- ===== src/Prune/Schedules.antt =====
-- The schedulers: which windows a backlog gives, and blocks that are fed one by one.
use dlr.Prelude.{
  ℕ, ◌+◌, ◌≤◌, ◌≡◌, inl, inr, refl, sym, ap, ◌∙◌, arith, List, [], ◌∷◌, ◌++◌, length, map, All,
  Option, none, some, true, ltb, ◌==◌, Bool-cases, Option-cases, nat_eq, append_assoc, append-nil,
}
use dlr.Prelude.Assoc.{Assoc, lookup, insert, lookup-insert_self}
use dlr.Core.Block.{Block, BlockId}
use dlr.Core.Store.{ContentStore, session_ids}
use dlr.Prune.{
  PruneJob, PrunePolicy, run_job, schedule, run_all, PriorityPending, push_heap, schedule_priority,
  jobs_of, run_all_priority, IncrementalPruneScheduler, size_in, ingest_ids, ingest_session,
  ingest_block,
}
use dlr.Prune.Incremental.{IncrementalPruner, new_token_budget, insert_survivor}

-- A backlog of jobs, scheduled in order.
abbrev pub schedule_all : List PruneJob → List PruneJob → List PruneJob
schedule_all [] pending = pending
schedule_all (job ∷ jobs) pending = schedule_all jobs (schedule job pending)

abbrev pub schedule_all_priority : List PruneJob → PriorityPending → PriorityPending
schedule_all_priority [] p = p
schedule_all_priority (job ∷ jobs) p = schedule_all_priority jobs (schedule_priority job p)

abbrev pub newest_first : List PruneJob → List PruneJob
newest_first [] = []
newest_first (job ∷ jobs) = newest_first jobs ++ (job ∷ [])

schedule_all-append : (jobs pending : List PruneJob) → schedule_all jobs pending ≡ pending ++ jobs
unfolding schedule
schedule_all-append [] pending = sym (append-nil pending)
schedule_all-append (job ∷ jobs) pending =
    schedule_all-append jobs (pending ++ (job ∷ [])) ∙ append_assoc pending (job ∷ []) jobs

-- The number given last is on no job of the heap twice, and is the greatest.
abbrev Numbered : ℕ → List (ℕ × PruneJob) → Type 0
Numbered seq heap = All (λ (j : ℕ × PruneJob). j.0 ≤ seq) heap

push_heap-newest :
    (seq : ℕ) (job : PruneJob) (heap : List (ℕ × PruneJob))
    → Numbered seq heap
    → push_heap (seq + 1) job heap ≡ (seq + 1, job) ∷ heap
unfolding push_heap
push_heap-newest seq job [] h = refl
push_heap-newest seq job ((other, j) ∷ heap) h =
    let newer : ltb other (seq + 1) ≡ true = ground (arith, h.0) in rw newer

Numbered-suc : (seq : ℕ) (heap : List (ℕ × PruneJob)) → Numbered seq heap → Numbered (seq + 1) heap
Numbered-suc seq [] h = tt
Numbered-suc seq (j ∷ heap) h = (omega (arith, h.0), Numbered-suc seq heap h.1)

schedule_all_priority-jobs_of :
    (jobs : List PruneJob) (p : PriorityPending)
    → Numbered p.seq p.heap
    → jobs_of (schedule_all_priority jobs p).heap ≡ newest_first jobs ++ jobs_of p.heap
unfolding schedule_priority
schedule_all_priority-jobs_of [] p h = refl
schedule_all_priority-jobs_of (job ∷ jobs) p h =
    let pushed = push_heap-newest p.seq job p.heap h in
    let rest =
      schedule_all_priority-jobs_of jobs (schedule_priority job p)
        (rw pushed (omega arith, Numbered-suc p.seq p.heap h)) in
    rest ∙ rw pushed (sym (append_assoc (newest_first jobs) (job ∷ []) (jobs_of p.heap)))

-- A backlog runs each of its jobs once and leaves nothing pending: the plain scheduler from the oldest
-- on, the one with priorities from the newest on.
pub run_all-backlog :
    (policy : PrunePolicy) (reconstruct : ℕ → List Block) (jobs : List PruneJob)
    → (run_all policy reconstruct (schedule_all jobs [])
        ≡ ([], map (run_job policy reconstruct) jobs))
      × ((run_all_priority policy reconstruct
            (schedule_all_priority jobs (record { heap = []; seq = 0 }))).1
          ≡ map (run_job policy reconstruct) (newest_first jobs))
      × ((run_all_priority policy reconstruct
            (schedule_all_priority jobs (record { heap = []; seq = 0 }))).0.heap
          ≡ [])
unfolding run_all run_all_priority
run_all-backlog policy reconstruct jobs = (
  ap (λ (l : List PruneJob). ([], map (run_job policy reconstruct) l))
      (schedule_all-append jobs []),
  ap (map (run_job policy reconstruct))
      (schedule_all_priority-jobs_of jobs _ tt ∙ append-nil (newest_first jobs)),
  refl,
)

-- Blocks that are fed one by one, as they arrive.
abbrev pub ingest_each :
    ContentStore → ℕ → List BlockId → IncrementalPruneScheduler → Option IncrementalPruneScheduler
ingest_each store session_id [] s = some s
ingest_each store session_id (id ∷ ids) s = elim (ingest_block session_id id (size_in store id) s) [
  | none ↦ none
  | some s' ↦ ingest_each store session_id ids s'
]

insert-insert :
    (k : ℕ) (v w : IncrementalPruner) (m : Assoc ℕ IncrementalPruner)
    → insert k v (insert k w m) ≡ insert k v m
unfolding insert
insert-insert k v w [] = let self : (k == k) ≡ true = ground arith in rw self
insert-insert k v w ((j, u) ∷ m) =
    let self : (k == k) ≡ true = ground arith in
    elim (Bool-cases (j == k)) [
      | inl q ↦ rw (q, self)
      | inr q ↦
          rw (q, q) (ap (λ (l : Assoc ℕ IncrementalPruner). (j, u) ∷ l) (insert-insert k v w m))
    ]

module _ (store : ContentStore) (session_id : ℕ) (s : IncrementalPruneScheduler) where
  abbrev with_pruner : IncrementalPruner → IncrementalPruneScheduler
  with_pruner p = record s { pruners = insert session_id p s.pruners }

  abbrev ingested : Option IncrementalPruner → Option IncrementalPruneScheduler
  ingested none = none
  ingested (some p) = some (with_pruner p)

  ingest_each-ingested :
      (ids : List BlockId) (p : IncrementalPruner)
      → ingest_each store session_id ids (with_pruner p) ≡ ingested (ingest_ids store ids p)
  unfolding ingest_block ingest_ids
  ingest_each-ingested [] p = refl
  ingest_each-ingested (id ∷ ids) p =
      let found = lookup-insert_self session_id p s.pruners in
      elim (Option-cases (insert_survivor id (size_in store id) p)) [
        | inl q ↦ rw (ingest_each, ingest_block, ingest_ids, found, q)
        | inr (r, q) ↦
            rw (ingest_each, ingest_block, ingest_ids, found, q)
              (rw (insert-insert session_id r.0 p s.pruners) (ingest_each-ingested ids r.0))
      ]

  ingest_each-new :
      (id : BlockId) (ids : List BlockId)
      → lookup session_id s.pruners ≡ none
      → ingest_each store session_id (id ∷ ids) s
        ≡ ingested (ingest_ids store (id ∷ ids) (new_token_budget s.token_budget))
  unfolding ingest_block ingest_ids
  ingest_each-new id ids new =
      elim (Option-cases
        (insert_survivor id (size_in store id) (new_token_budget s.token_budget))) [
          | inl q ↦ rw (ingest_each, ingest_block, ingest_ids, new, q)
          | inr (r, q) ↦
              rw (ingest_each, ingest_block, ingest_ids, new, q) (ingest_each-ingested ids r.0)
        ]

  -- For a session that has blocks and is not tracked yet, feeding its blocks one by one, in the order
  -- of its log, gives the same pruners as ingesting the session at once.
  pub ingest_each-ingest_session :
      lookup session_id s.pruners ≡ none
      → 1 ≤ length (session_ids store session_id)
      → ingest_each store session_id (session_ids store session_id) s
        ≡ ingest_session store session_id s
  unfolding ingest_session
  ingest_each-ingest_session new some_ids = all (session_ids store session_id) some_ids ∙ done _
    where
      all :
          (ids : List BlockId)
          → 1 ≤ length ids
          → ingest_each store session_id ids s
            ≡ ingested (ingest_ids store ids (new_token_budget s.token_budget))
      all [] h = absurd (omega arith)
      all (id ∷ ids) h = ingest_each-new id ids new

      done :
          (o : Option IncrementalPruner)
          → ingested o ≡ (elim o as (λ x. Option IncrementalPruneScheduler) [
            | none ↦ none
            | some p ↦ some (record s { pruners = insert session_id p s.pruners })
          ])
      done none = refl
      done (some p) = refl
