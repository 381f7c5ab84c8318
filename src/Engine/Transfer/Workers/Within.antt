-- ===== src/Engine/Transfer/Workers/Within.antt =====
-- engine/sync.ts: the budget of the workers of `fetchMissing`.
use edgeproc_browser.Base.{
  ap, ◌∙◌, sym, ℕ, zero, suc, ◌+◌, ◌≤◌, ◌≡◌, Bool, true, false, List, [], ◌∷◌, length, sum_by,
  arith, refl,
}
use edgeproc_browser.Engine.Manifest.{ChunkRef}
use edgeproc_browser.Engine.Transfer.Workers.{
  Worker, ready, waiting, refused, fetching, storing, stopped, Pool, Event, turn_at, wake_if, run,
  start_pool, start_workers,
}
use edgeproc_browser.Engine.Transfer.Workers.Conserved.{held, busy, holding, handed}
use edgeproc_browser.Engine.Transfer.Workers.Runs.{Fits, run-Fits}

pub start_sums :
    (f : ChunkRef → ℕ) (n : ℕ)
    → (sum_by held (start_workers n) ≡ 0)
      × (sum_by busy (start_workers n) ≡ 0)
      × (sum_by (holding f) (start_workers n) ≡ 0)
      × (length (start_workers n) ≡ n)
start_sums f zero = (refl, refl, refl, refl)
start_sums f (suc n) =
    let (a, b, c, e) = start_sums f n in
    (omega (arith, a), omega (arith, b), omega (arith, c), omega (arith, e))

pub start-Fits :
    (f : ChunkRef → ℕ) (missing : List ChunkRef) (limit n : ℕ)
    → Fits limit (sum_by f missing) f (start_pool missing limit) (start_workers n)
start-Fits f missing limit n =
    let (a, b, c, _) = start_sums f n in
    record {
      spent = omega (arith, a);
      totalled = refl;
      told = refl;
      counted = sym b;
      kept = λ e. omega (arith, c);
    }

turn_at-length :
    (i : ℕ) (event : Event) (pool : Pool) (workers : List Worker)
    → length (turn_at i event pool workers).1 ≡ length workers
unfolding turn_at
turn_at-length i event pool [] = refl
turn_at-length zero event pool (worker ∷ workers) = refl
turn_at-length (suc i) event pool (worker ∷ workers) = ap suc (turn_at-length i event pool workers)

wake_if-length :
    (wakes : Bool) (workers : List Worker) → length (wake_if wakes workers) ≡ length workers
wake_if-length false workers = refl
wake_if-length true [] = refl
wake_if-length true (worker ∷ workers) = ap suc (wake_if-length true workers)

pub run-length :
    (schedule : List (ℕ × Event)) (pool : Pool) (workers : List Worker)
    → length (run schedule pool workers).1 ≡ length workers
unfolding run
run-length [] pool workers = refl
run-length ((i, event) ∷ schedule) pool workers =
    let t = turn_at i event pool workers in
    run-length schedule t.0 (wake_if t.2 t.1)
    ∙ wake_if-length t.2 t.1
    ∙ turn_at-length i event pool workers

busy-le : (workers : List Worker) → sum_by busy workers ≤ length workers
busy-le [] = omega arith
busy-le (worker ∷ workers) = omega (arith, busy-le workers, one worker)
  where
    one : (w : Worker) → busy w ≤ 1
    one ready = omega arith
    one (waiting ref woken) = omega arith
    one (refused ref) = omega arith
    one (fetching ref reserved) = omega arith
    one (storing ref reserved consumed) = omega arith
    one stopped = omega arith

-- In every order of their turns: the bytes that `n` workers hand to the store are no more than the
-- budget, what is reserved for the transfers under way, which is the cap of each request, counted in;
-- `total` is the number of these bytes; and no more than `n` transfers are under way. Bytes of a
-- transfer that failed or was dropped are not counted.
pub run-budget :
    (schedule : List (ℕ × Event)) (missing : List ChunkRef) (limit n : ℕ)
    → (sum_by handed (run schedule (start_pool missing limit) (start_workers n)).0.written
          + sum_by held (run schedule (start_pool missing limit) (start_workers n)).1
        ≤ limit)
      × ((run schedule (start_pool missing limit) (start_workers n)).0.total
          ≡ sum_by handed (run schedule (start_pool missing limit) (start_workers n)).0.written)
      × ((run schedule (start_pool missing limit) (start_workers n)).0.in_flight ≤ n)
run-budget schedule missing limit n =
    let h = run-Fits limit _ (λ _. 0) schedule _ _ (start-Fits (λ _. 0) missing limit n) in
    let (_, _, _, e) = start_sums (λ _. 0) n in
    let k = run-length schedule (start_pool missing limit) (start_workers n) in
    let b = busy-le (run schedule (start_pool missing limit) (start_workers n)).1 in
    (omega (arith, h.spent), h.totalled, omega (arith, h.counted, b, k, e))
