-- ===== src/Tests/Pruned.antt =====
-- A pruner of ten tokens, a window of a short log, and a session of two blocks.
use dlr.Prelude.{bytes_key, nat_eq, ℕ, ◌≤◌, ◌≡◌, refl, arith, List, [], ◌∷◌, length, some, none}
use dlr.Prelude.Assoc.{lookup}
use dlr.Core.Block.{Block, BlockId, message, system}
use dlr.Core.Store.{ContentStore, new_store, session_ids}
use dlr.Prune.{IncrementalPruneScheduler, importance_prune, ingest_session}
use dlr.Prune.Importance.{IsWindow, importance_prune-IsWindow}
use dlr.Prune.Schedules.{ingest_each, ingest_each-ingest_session}
use dlr.Prune.Incremental.{IncrementalPruner, tokens, new_with, default_score, window}
use dlr.Prune.Incremental.Sorted.{find, sizes}
use dlr.Prune.Incremental.Budgets.{
  insert_survivors, survivors_of, ids_down, InBudget, insert_survivors-Refines,
}

abbrev arrivals : List (BlockId × ℕ)
arrivals = (1 ∷ [], 4) ∷ (2 ∷ [], 5) ∷ (1 ∷ [], 3) ∷ (3 ∷ [], 6) ∷ []

insert_survivors-Refines_example :
    let es = survivors_of (tokens 10) default_score 0 arrivals [] in
    (p : IncrementalPruner) × (insert_survivors arrivals (new_with (tokens 10) default_score)
      ≡ some p)
    × (window p.ordered ≡ ids_down es)
    × ((id : BlockId) → lookup id p.index ≡ find id es)
    × (p.total_size ≡ sizes es)
    × InBudget (tokens 10) p
insert_survivors-Refines_example =
    insert_survivors-Refines (tokens 10) default_score arrivals (omega arith) (omega arith)

abbrev short_log : List Block
short_log =
    record { kind = message; seq = 1; payload = 1 ∷ 2 ∷ [] }
    ∷ record { kind = system; seq = 2; payload = [] }
    ∷ record { kind = message; seq = 3; payload = 1 ∷ 2 ∷ 3 ∷ 4 ∷ 5 ∷ 6 ∷ 7 ∷ 8 ∷ [] }
    ∷ []

importance_prune-IsWindow_example :
    IsWindow short_log 2 (importance_prune (λ n i b. length b.payload) 7 short_log 2)
importance_prune-IsWindow_example =
    importance_prune-IsWindow (λ n i b. length b.payload) 7 short_log 2

abbrev two_blocks : ContentStore
two_blocks = record new_store {
  blocks = (1 ∷ [], record { kind = message; seq = 1; payload = 1 ∷ 2 ∷ [] }) ∷ [];
  sessions = (7, record { ids = (1 ∷ []) ∷ (2 ∷ []) ∷ []; root = [] }) ∷ [];
}

abbrev nothing_tracked : IncrementalPruneScheduler
nothing_tracked = record { token_budget = 10; pruners = [] }

not_tracked : lookup 7 nothing_tracked.pruners ≡ none
unfolding lookup
not_tracked = refl

some_stored : 1 ≤ length (session_ids two_blocks 7)
unfolding session_ids lookup
some_stored = omega arith

ingest_each-ingest_session_example :
    ingest_each two_blocks 7 (session_ids two_blocks 7) nothing_tracked
    ≡ ingest_session two_blocks 7 nothing_tracked
ingest_each-ingest_session_example =
    ingest_each-ingest_session two_blocks 7 nothing_tracked not_tracked some_stored
