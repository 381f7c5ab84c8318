-- ===== src/Engine/Transfer/Workers.antt =====
-- engine/sync.ts: the workers of `fetchMissing`, which run at once over shared variables. A turn is
-- what one of them does between two awaits.
pub mod Conserved
pub mod Runs
pub mod Within
pub mod Live
pub mod Ending
use edgeproc_browser.Base.{
  ℕ, zero, suc, ◌+◌, ◌-◌, Bool, true, false, not, ◌&&◌, Option, none, some, List, [], ◌∷◌, map, ltb,
  ◌==◌, if◌then◌else◌,
}
use edgeproc_browser.Engine.Fault.{Fault, sync_cap}
use edgeproc_browser.Engine.Manifest.{ChunkRef}
use edgeproc_browser.Engine.Transfer.{reservation, as_aggregate}

-- Where a worker stands: at the head of its loop, on a budget waiter (that has been resolved or not),
-- at a `reserve` that returned 0, at its request, at its write to the store, or returned.
pub data Worker : Type 0 where
  ready : Worker
  waiting : ChunkRef → (woken : Bool) → Worker
  refused : ChunkRef → Worker
  fetching : ChunkRef → (reserved : ℕ) → Worker
  storing : ChunkRef → (reserved consumed : ℕ) → Worker
  stopped : Worker

-- The shared variables; `pending` is `missing` from `next` on, `completed` that of the progress. Beside
-- them what the store was given: `written` has the chunks of which `putChunkCompressed` was called,
-- with their bytes, and `saved` those of which it has returned.
pub record Pool : Type 0 where
  pub pending : List ChunkRef
  pub remaining : ℕ
  pub total : ℕ
  pub in_flight : ℕ
  pub completed : ℕ
  pub written : List (ChunkRef × ℕ)
  pub saved : List ChunkRef
  pub failure : Option Fault

-- What settles: nothing that is waited for outside, a request, or a write to the store.
pub data Event : Type 0 where
  resume : Event
  fetched : (bytes : ℕ) → Event
  fetch_failed : Fault → Event
  stored : Event
  store_failed : Fault → Event

-- failure !== undefined
abbrev pub has_failed : Option Fault → Bool
has_failed none = false
has_failed (some _) = true

-- failure ??= e
abbrev pub first_failure : Option Fault → Fault → Option Fault
first_failure none e = some (as_aggregate e)
first_failure (some f) e = some f

-- `reserve`, up to its return or to its await
unfoldable pub reserve : Pool → ChunkRef → Pool × Worker × Bool
reserve pool ref =
    if pool.remaining == 0
    then (if ltb 0 pool.in_flight && not (has_failed pool.failure)
        then (pool, waiting ref false, false)
        else (pool, refused ref, false))
    else (
      record pool {
        remaining = pool.remaining - reservation pool.remaining;
        in_flight = pool.in_flight + 1;
      },
      fetching ref (reservation pool.remaining),
      false,
    )

-- `release`; that it wakes the waiters is the `true` of a turn
unfoldable pub release : Pool → ℕ → ℕ → Pool
release pool reserved consumed = record pool {
  remaining = pool.remaining + (reserved - consumed);
  in_flight = pool.in_flight - 1;
}

-- the next chunk, if there is one
unfoldable pub take_next : Pool → List ChunkRef → Pool × Worker × Bool
take_next pool [] = (pool, stopped, false)
take_next pool (ref ∷ rest) = reserve (record pool { pending = rest }) ref

unfoldable pub settle_fetch : Pool → ChunkRef → ℕ → ℕ → Pool × Worker × Bool
settle_fetch pool ref reserved bytes =
    if ltb reserved bytes
    then (
      release (record pool { failure = first_failure pool.failure (sync_cap "response cap") })
          reserved 0,
      ready,
      true,
    )
    else if has_failed pool.failure
    then (release pool reserved 0, stopped, true)
    else (
      record pool { total = pool.total + bytes; written = (ref, bytes) ∷ pool.written },
      storing ref reserved bytes,
      false,
    )

-- A turn: the shared variables, where the worker comes to stand, and whether it wakes the waiters.
unfoldable pub turn : Event → Pool → Worker → Pool × Worker × Bool
turn resume pool ready =
    if has_failed pool.failure then (pool, stopped, false) else take_next pool pool.pending
turn resume pool (waiting ref woken) =
    if woken then reserve pool ref else (pool, waiting ref woken, false)
turn resume pool (refused ref) =
    (record pool { failure = some (sync_cap "sync exceeded aggregate fetch cap") }, stopped, false)
turn (fetched bytes) pool (fetching ref reserved) = settle_fetch pool ref reserved bytes
turn (fetch_failed e) pool (fetching ref reserved) =
    (release (record pool { failure = first_failure pool.failure e }) reserved 0, ready, true)
turn stored pool (storing ref reserved consumed) = (
  release (record pool { completed = pool.completed + 1; saved = ref ∷ pool.saved }) reserved
      consumed,
  ready,
  true,
)
turn (store_failed e) pool (storing ref reserved consumed) = (
  release (record pool { failure = first_failure pool.failure e }) reserved consumed,
  ready,
  true,
)
turn _ pool worker = (pool, worker, false)

abbrev pub wake_up : Worker → Worker
wake_up (waiting ref woken) = waiting ref true
wake_up worker = worker

-- The turn of the worker of an index; one that is not there takes none.
unfoldable pub turn_at : ℕ → Event → Pool → List Worker → Pool × List Worker × Bool
turn_at i event pool [] = (pool, [], false)
turn_at zero event pool (worker ∷ workers) =
    let (next, moved, wakes) = turn event pool worker in (next, moved ∷ workers, wakes)
turn_at (suc i) event pool (worker ∷ workers) =
    let (next, others, wakes) = turn_at i event pool workers in (next, worker ∷ others, wakes)

abbrev pub wake_if : Bool → List Worker → List Worker
wake_if true workers = map wake_up workers
wake_if false workers = workers

abbrev pub finish : Pool × List Worker × Bool → Pool × List Worker
finish (pool, workers, wakes) = (pool, wake_if wakes workers)

-- One turn after another, in any order.
unfoldable pub run : List (ℕ × Event) → Pool → List Worker → Pool × List Worker
run [] pool workers = (pool, workers)
run ((i, event) ∷ schedule) pool workers =
    let (next, moved) = finish (turn_at i event pool workers) in run schedule next moved

abbrev pub start_pool : List ChunkRef → ℕ → Pool
start_pool missing limit = record {
  pending = missing;
  remaining = limit;
  total = 0;
  in_flight = 0;
  completed = 0;
  written = [];
  saved = [];
  failure = none;
}

-- Array.from({ length: n }, worker)
abbrev pub start_workers : ℕ → List Worker
start_workers zero = []
start_workers (suc n) = ready ∷ start_workers n
