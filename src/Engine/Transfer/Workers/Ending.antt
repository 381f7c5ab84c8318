-- ===== src/Engine/Transfer/Workers/Ending.antt =====
-- engine/sync.ts: how the workers of `fetchMissing` end.
use edgeproc_browser.Base.{
  ℕ, zero, suc, ◌+◌, ◌≤◌, ◌<◌, ◌≡◌, Bool, true, false, List, [], ◌∷◌, length, sum_by, map, arith,
  refl,
}
use edgeproc_browser.Engine.Manifest.{ChunkRef}
use edgeproc_browser.Engine.Transfer.Workers.{
  Worker, ready, waiting, refused, fetching, storing, stopped, Pool, Event, has_failed, turn_at,
  wake_up, wake_if, run, start_pool, start_workers,
}
use edgeproc_browser.Engine.Transfer.Workers.Conserved.{busy, holding}
use edgeproc_browser.Engine.Transfer.Workers.Runs.{Fits, run-Fits}
use edgeproc_browser.Engine.Transfer.Workers.Within.{start-Fits, start_sums, run-length}
use edgeproc_browser.Engine.Transfer.Workers.Live.{
  unreturned, returned, can_move, asleep, IsLive, turn-IsLiveTurn,
}

relive :
    {a a' b b' : ℕ} {pool : Pool} {wakes : Bool}
    → IsLive a b pool wakes
    → a ≡ a'
    → b ≡ b'
    → IsLive a' b' pool wakes
relive h e f = record {
  awake = λ w k. h.awake w (omega (arith, k, e));
  exhausted = λ g k. h.exhausted g (omega (arith, k, f));
}

-- The same of all the workers, beside others.
abbrev AllLive : ℕ → ℕ → Pool × List Worker × Bool → Type 0
AllLive x y (pool, workers, wakes) =
    IsLive (x + sum_by asleep workers) (y + sum_by returned workers) pool wakes

turn_at-AllLive :
    (i : ℕ) (event : Event) (pool : Pool) (workers : List Worker) (x y : ℕ)
    → AllLive x y (pool, workers, false)
    → AllLive x y (turn_at i event pool workers)
unfolding turn_at
turn_at-AllLive i event pool [] x y h = h
turn_at-AllLive zero event pool (worker ∷ workers) x y h =
    relive
      (turn-IsLiveTurn (x + sum_by asleep workers) (y + sum_by returned workers) event pool worker
        (relive h (omega arith) (omega arith)))
      (omega arith) (omega arith)
turn_at-AllLive (suc i) event pool (worker ∷ workers) x y h =
    relive
      (turn_at-AllLive i event pool workers (x + asleep worker) (y + returned worker)
        (relive h (omega arith) (omega arith)))
      (omega arith) (omega arith)

wake_up-sums :
    (workers : List Worker)
    → (sum_by asleep (map wake_up workers) ≡ 0)
      × (sum_by returned (map wake_up workers) ≡ sum_by returned workers)
wake_up-sums [] = (refl, refl)
wake_up-sums (worker ∷ workers) =
    let (a, b) = wake_up-sums workers in
    let (c, d) = one worker in (omega (arith, a, c), omega (arith, b, d))
  where
    one : (w : Worker) → (asleep (wake_up w) ≡ 0) × (returned (wake_up w) ≡ returned w)
    one ready = (refl, refl)
    one (waiting ref woken) = (refl, refl)
    one (refused ref) = (refl, refl)
    one (fetching ref reserved) = (refl, refl)
    one (storing ref reserved consumed) = (refl, refl)
    one stopped = (refl, refl)

wake_if-AllLive :
    (wakes : Bool) (pool : Pool) (workers : List Worker)
    → AllLive 0 0 (pool, workers, wakes)
    → AllLive 0 0 (pool, wake_if wakes workers, false)
wake_if-AllLive false pool workers h = h
wake_if-AllLive true pool workers h =
    let (a, b) = wake_up-sums workers in
    record {
      awake = λ w k. absurd (omega (arith, a, k));
      exhausted = λ g k. h.exhausted g (omega (arith, b, k));
    }

run-AllLive :
    (schedule : List (ℕ × Event)) (pool : Pool) (workers : List Worker)
    → AllLive 0 0 (pool, workers, false)
    → AllLive 0 0 ((run schedule pool workers).0, (run schedule pool workers).1, false)
unfolding run
run-AllLive [] pool workers h = h
run-AllLive ((i, event) ∷ schedule) pool workers h =
    let t = turn_at i event pool workers in
    run-AllLive schedule t.0 (wake_if t.2 t.1)
      (wake_if-AllLive t.2 t.0 t.1 (turn_at-AllLive i event pool workers 0 0 h))

start_workers-AllLive : (n : ℕ) (pool : Pool) → AllLive 0 0 (pool, start_workers n, false)
start_workers-AllLive n pool =
    let (a, b) = sums n in
    record {
      awake = λ w k. absurd (omega (arith, a, k));
      exhausted = λ g k. absurd (omega (arith, b, k));
    }
  where
    sums : (n : ℕ) → (sum_by asleep (start_workers n) ≡ 0) × (sum_by returned (start_workers n) ≡ 0)
    sums zero = (refl, refl)
    sums (suc n) = let (a, b) = sums n in (omega (arith, a), omega (arith, b))

-- How the kinds of workers add up.
record AddUp (workers : List Worker) : Type 0 where
  moving : sum_by unreturned workers ≡ sum_by can_move workers + sum_by asleep workers
  flying : sum_by busy workers ≤ sum_by can_move workers
  all : sum_by unreturned workers + sum_by returned workers ≡ length workers

add_up : (workers : List Worker) → AddUp workers
add_up [] = record { moving = refl; flying = omega arith; all = refl }
add_up (worker ∷ workers) =
    let h = add_up workers in
    let (a, b, d) = one worker in
    record {
      moving = omega (arith, h.moving, a);
      flying = omega (arith, h.flying, b);
      all = omega (arith, h.all, d);
    }
  where
    one :
        (w : Worker)
        → (unreturned w ≡ can_move w + asleep w)
          × (busy w ≤ can_move w)
          × (unreturned w + returned w ≡ 1)
    one ready = (omega arith, omega arith, omega arith)
    one (waiting ref true) = (omega arith, omega arith, omega arith)
    one (waiting ref false) = (omega arith, omega arith, omega arith)
    one (refused ref) = (omega arith, omega arith, omega arith)
    one (fetching ref reserved) = (omega arith, omega arith, omega arith)
    one (storing ref reserved consumed) = (omega arith, omega arith, omega arith)
    one stopped = (omega arith, omega arith, omega arith)

no_sleepers : (sleepers flying : ℕ) → (0 < 0 + sleepers → 0 < flying) → flying ≡ 0 → sleepers ≡ 0
no_sleepers zero flying h e = refl
no_sleepers (suc k) flying h e = absurd (omega (arith, h (omega arith), e))

-- There is no deadlock: after any turns, if none of the workers can take a turn, all have returned.
-- So one that waits for the budget is woken, as a transfer is under way whose end wakes it.
pub run-ends :
    (schedule : List (ℕ × Event)) (missing : List ChunkRef) (limit n : ℕ)
    → sum_by can_move (run schedule (start_pool missing limit) (start_workers n)).1 ≡ 0
    → sum_by unreturned (run schedule (start_pool missing limit) (start_workers n)).1 ≡ 0
run-ends schedule missing limit n stuck =
    let h =
      run-Fits limit _ (λ _. 0) schedule (start_pool missing limit) (start_workers n)
        (start-Fits (λ _. 0) missing limit n) in
    let live =
      run-AllLive schedule (start_pool missing limit) (start_workers n)
        (start_workers-AllLive n (start_pool missing limit)) in
    let sums = add_up (run schedule (start_pool missing limit) (start_workers n)).1 in
    let e = no_sleepers _ _ (live.awake refl) (omega (arith, h.counted, sums.flying, stuck)) in
    omega (arith, sums.moving, stuck, e)

-- Workers that have returned hold no chunk.
none_held :
    (f : ChunkRef → ℕ) (workers : List Worker)
    → sum_by unreturned workers ≡ 0
    → sum_by (holding f) workers ≡ 0
none_held f [] e = refl
none_held f (ready ∷ workers) e = absurd (omega (arith, e))
none_held f (waiting ref woken ∷ workers) e = absurd (omega (arith, e))
none_held f (refused ref ∷ workers) e = absurd (omega (arith, e))
none_held f (fetching ref reserved ∷ workers) e = absurd (omega (arith, e))
none_held f (storing ref reserved consumed ∷ workers) e = absurd (omega (arith, e))
none_held f (stopped ∷ workers) e = omega (arith, none_held f workers (omega (arith, e)))

none_pending : (f : ChunkRef → ℕ) (refs : List ChunkRef) → length refs ≡ 0 → sum_by f refs ≡ 0
none_pending f [] e = refl
none_pending f (ref ∷ refs) e = absurd (omega (arith, e))

sum_by-ones : (refs : List ChunkRef) → sum_by (λ _. 1) refs ≡ length refs
sum_by-ones [] = refl
sum_by-ones (ref ∷ refs) = omega (arith, sum_by-ones refs)

-- Once no worker is left and no chunk is pending, the saved chunks weigh what the missing ones do.
saved_all :
    (f : ChunkRef → ℕ) (missing : List ChunkRef) (limit : ℕ) (pool : Pool) (workers : List Worker)
    → Fits limit (sum_by f missing) f pool workers
    → has_failed pool.failure ≡ false
    → sum_by unreturned workers ≡ 0
    → length pool.pending ≡ 0
    → sum_by f pool.saved ≡ sum_by f missing
saved_all f missing limit pool workers h good done none_left =
    omega (arith, h.kept good, none_held f workers done, none_pending f pool.pending none_left)

-- When all of at least one worker have returned and there was no failure: the chunks of which the
-- write to the store has returned are the missing ones, each as often as it is missing, as every
-- weight of chunks has the same sum over both lists; and the progress counts as many.
pub run-stored :
    (schedule : List (ℕ × Event)) (missing : List ChunkRef) (limit n : ℕ)
    → 1 ≤ n
    → sum_by unreturned (run schedule (start_pool missing limit) (start_workers n)).1 ≡ 0
    → has_failed (run schedule (start_pool missing limit) (start_workers n)).0.failure ≡ false
    → ((f : ChunkRef → ℕ)
        → sum_by f (run schedule (start_pool missing limit) (start_workers n)).0.saved
          ≡ sum_by f missing)
      × ((run schedule (start_pool missing limit) (start_workers n)).0.completed ≡ length missing)
run-stored schedule missing limit n some_worker done good =
    let pool = start_pool missing limit in
    let ended = run schedule pool (start_workers n) in
    let live = run-AllLive schedule pool (start_workers n) (start_workers-AllLive n pool) in
    let sums = add_up ended.1 in
    let (_, _, _, e) = start_sums (λ _. 0) n in
    let k = run-length schedule pool (start_workers n) in
    let none_left = live.exhausted good (omega (arith, sums.all, done, k, e, some_worker)) in
    let fit = λ (f : ChunkRef → ℕ).
      run-Fits limit (sum_by f missing) f schedule pool (start_workers n)
        (start-Fits f missing limit n) in
    let same =
      λ (f : ChunkRef → ℕ). saved_all f missing limit ended.0 ended.1 (fit f) good done none_left in
    let one_each = same (λ _. 1) in
    let told = (fit (λ _. 1)).told in
    (same, omega (arith, one_each, told, sum_by-ones ended.0.saved, sum_by-ones missing))
