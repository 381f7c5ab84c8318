-- ===== src/Tests/Fetching.antt =====
-- The workers of a fetch, in some orders of their turns.
use edgeproc_browser.Engine.Transfer.Workers.{take_next, reserve, settle_fetch, release}
use edgeproc_browser.Base.{
  ◌<◌, ℕ, List, [], ◌∷◌, some, ◌≡◌, ◌≤◌, ◌+◌, refl, length, sum_by, arith, codes, false,
}
use edgeproc_browser.Engine.Fault.{quota, sync_cap}
use edgeproc_browser.Engine.Manifest.{ChunkRef}
use edgeproc_browser.Engine.Transfer.Workers.{
  turn, turn_at, Event, resume, fetched, stored, store_failed, run, start_pool, start_workers,
  has_failed,
}
use edgeproc_browser.Engine.Transfer.Workers.Conserved.{held, handed}
use edgeproc_browser.Engine.Transfer.Workers.Within.{run-budget}
use edgeproc_browser.Engine.Transfer.Workers.Live.{can_move, unreturned}
use edgeproc_browser.Engine.Transfer.Workers.Ending.{run-ends, run-stored}
use edgeproc_browser.Engine.Transfer.Bounded.{
  Answer, go_on, returned, Batch, is_failed, batch_run, batch_turn_at, batch_turn, start_batch,
  start_slots,
}
use edgeproc_browser.Engine.Transfer.Bounded.Complete.{calls_for, done}
use edgeproc_browser.Tests.Bundle.{chunk_ref}

abbrev one_chunk : List ChunkRef
one_chunk = chunk_ref ∷ []

abbrev two_chunks : List ChunkRef
two_chunks = chunk_ref ∷ record { hash = codes "b"; size = 3 } ∷ []

-- one worker fetches and stores a chunk, finds no other, and returns
abbrev one_worker : List (ℕ × Event)
one_worker = (0, resume) ∷ (0, fetched 12) ∷ (0, stored) ∷ (0, resume) ∷ []

run-budget_example :
    (sum_by handed (run one_worker (start_pool one_chunk 100) (start_workers 1)).0.written
        + sum_by held (run one_worker (start_pool one_chunk 100) (start_workers 1)).1
      ≤ 100)
    × ((run one_worker (start_pool one_chunk 100) (start_workers 1)).0.total
        ≡ sum_by handed (run one_worker (start_pool one_chunk 100) (start_workers 1)).0.written)
    × ((run one_worker (start_pool one_chunk 100) (start_workers 1)).0.in_flight ≤ 1)
run-budget_example = run-budget one_worker one_chunk 100 1

none_can_move : sum_by can_move (run one_worker (start_pool one_chunk 100) (start_workers 1)).1 ≡ 0
unfolding run turn_at turn take_next reserve settle_fetch release
none_can_move = refl

run-ends_example :
    sum_by unreturned (run one_worker (start_pool one_chunk 100) (start_workers 1)).1 ≡ 0
run-ends_example = run-ends one_worker one_chunk 100 1 none_can_move

no_failure :
    has_failed (run one_worker (start_pool one_chunk 100) (start_workers 1)).0.failure ≡ false
unfolding run turn_at turn take_next reserve settle_fetch release
no_failure = refl

run-stored_example :
    ((f : ChunkRef → ℕ)
      → sum_by f (run one_worker (start_pool one_chunk 100) (start_workers 1)).0.saved
        ≡ sum_by f one_chunk)
    × ((run one_worker (start_pool one_chunk 100) (start_workers 1)).0.completed ≡ length one_chunk)
run-stored_example =
    run-stored one_worker one_chunk 100 1 (omega arith)
      (run-ends one_worker one_chunk 100 1 none_can_move) no_failure

-- The second worker waits for the budget when the store of the first one is full.
abbrev full_disk : List (ℕ × Event)
full_disk =
    (0, resume)
    ∷ (1, resume)
    ∷ (0, fetched 12)
    ∷ (0, store_failed quota)
    ∷ (1, resume)
    ∷ (1, resume)
    ∷ []

-- it reports the cap in place of the full disk
masked_failure :
    (run full_disk (start_pool two_chunks 12) (start_workers 2)).0.failure
    ≡ some (sync_cap "sync exceeded aggregate fetch cap")
unfolding run turn_at turn take_next reserve settle_fetch release
masked_failure = refl

-- Two workers over three items; the second call settles first.
abbrev three_calls : List (ℕ × Answer ℕ)
three_calls =
    (0, go_on)
    ∷ (1, go_on)
    ∷ (1, returned 11)
    ∷ (1, go_on)
    ∷ (0, returned 10)
    ∷ (1, returned 12)
    ∷ (0, go_on)
    ∷ []

calls_good : is_failed (batch_run three_calls (start_batch 3) (start_slots 2)).0.failure ≡ false
unfolding batch_run batch_turn_at batch_turn
calls_good = refl

one_done : 0 < sum_by done (batch_run three_calls (start_batch 3) (start_slots 2)).1
unfolding batch_run batch_turn_at batch_turn
one_done = omega arith

no_call_for_1 : sum_by (calls_for 1) (batch_run three_calls (start_batch 3) (start_slots 2)).1 ≡ 0
unfolding batch_run batch_turn_at batch_turn
no_call_for_1 = refl

abbrev failed_batch : Batch ℕ
failed_batch = record { size = 3; next = 1; results = []; failure = some quota }
