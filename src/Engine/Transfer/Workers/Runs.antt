-- ===== src/Engine/Transfer/Workers/Runs.antt =====
-- engine/sync.ts: the shared variables of `fetchMissing` over a whole run.
use edgeproc_browser.Base.{
  sym, ℕ, zero, suc, ◌+◌, ◌≡◌, Bool, true, false, List, [], ◌∷◌, sum_by, map, arith, refl,
}
use edgeproc_browser.Engine.Manifest.{ChunkRef}
use edgeproc_browser.Engine.Transfer.Workers.{
  Worker, ready, waiting, refused, fetching, storing, stopped, Pool, Event, turn_at, wake_up,
  wake_if, run,
}
use edgeproc_browser.Engine.Transfer.Workers.Conserved.{
  held, busy, holding, IsBalanced, turn-Balanced,
}

woken_sums :
    (f : ChunkRef → ℕ) (worker : Worker)
    → (held (wake_up worker) ≡ held worker)
      × (busy (wake_up worker) ≡ busy worker)
      × (holding f (wake_up worker) ≡ holding f worker)
woken_sums f ready = (refl, refl, refl)
woken_sums f (waiting ref woken) = (refl, refl, refl)
woken_sums f (refused ref) = (refl, refl, refl)
woken_sums f (fetching ref reserved) = (refl, refl, refl)
woken_sums f (storing ref reserved consumed) = (refl, refl, refl)
woken_sums f stopped = (refl, refl, refl)

module _ (limit chunks : ℕ) (f : ChunkRef → ℕ) where
  recast :
      {pool : Pool} {a a' b b' c c' : ℕ}
      → IsBalanced limit chunks f pool a b c
      → a ≡ a'
      → b ≡ b'
      → c ≡ c'
      → IsBalanced limit chunks f pool a' b' c'
  recast h e k m = record {
    spent = omega (arith, h.spent, e);
    totalled = h.totalled;
    told = h.told;
    counted = omega (arith, h.counted, k);
    kept = λ n. omega (arith, h.kept n, m);
  }

  -- The whole of it: the variables fit the workers.
  abbrev pub Fits : Pool → List Worker → Type 0
  Fits pool workers =
      IsBalanced limit chunks f pool (sum_by held workers) (sum_by busy workers)
        (sum_by (holding f) workers)

  -- Beside workers that hold x, y, z.
  abbrev Beside : ℕ → ℕ → ℕ → Pool → List Worker → Type 0
  Beside x y z pool workers =
      IsBalanced limit chunks f pool (x + sum_by held workers) (y + sum_by busy workers)
        (z + sum_by (holding f) workers)

  turn_at-Beside :
      (i : ℕ) (event : Event) (pool : Pool) (workers : List Worker) (x y z : ℕ)
      → Beside x y z pool workers
      → Beside x y z (turn_at i event pool workers).0 (turn_at i event pool workers).1
  unfolding turn_at
  turn_at-Beside i event pool [] x y z h = h
  turn_at-Beside zero event pool (worker ∷ workers) x y z h =
      recast
        (turn-Balanced limit chunks f event pool worker (x + sum_by held workers)
          (y + sum_by busy workers) (z + sum_by (holding f) workers)
          (recast h (omega arith) (omega arith) (omega arith)))
        (omega arith) (omega arith) (omega arith)
  turn_at-Beside (suc i) event pool (worker ∷ workers) x y z h =
      recast
        (turn_at-Beside i event pool workers (x + held worker) (y + busy worker)
          (z + holding f worker) (recast h (omega arith) (omega arith) (omega arith)))
        (omega arith) (omega arith) (omega arith)

  wake_up-Fits :
      (pool : Pool) (workers : List Worker)
      → (sum_by held (map wake_up workers) ≡ sum_by held workers)
        × (sum_by busy (map wake_up workers) ≡ sum_by busy workers)
        × (sum_by (holding f) (map wake_up workers) ≡ sum_by (holding f) workers)
  wake_up-Fits pool [] = (refl, refl, refl)
  wake_up-Fits pool (worker ∷ workers) =
      let (a, b, c) = wake_up-Fits pool workers in
      let (d, e, g) = woken_sums f worker in
      (omega (arith, a, d), omega (arith, b, e), omega (arith, c, g))

  wake_if-Fits :
      (wakes : Bool) (pool : Pool) (workers : List Worker)
      → Fits pool workers
      → Fits pool (wake_if wakes workers)
  wake_if-Fits false pool workers h = h
  wake_if-Fits true pool workers h =
      let (a, b, c) = wake_up-Fits pool workers in recast h (sym a) (sym b) (sym c)

  -- Whatever turns the workers take, and in whatever order: the budget is what remains, what the
  -- store was given and what is reserved; the count of the transfers is that of the busy workers; and unless
  -- there was a failure each chunk is stored, held by a worker or still to be taken.
  pub run-Fits :
      (schedule : List (ℕ × Event)) (pool : Pool) (workers : List Worker)
      → Fits pool workers
      → Fits (run schedule pool workers).0 (run schedule pool workers).1
  unfolding run
  run-Fits [] pool workers h = h
  run-Fits ((i, event) ∷ schedule) pool workers h =
      let t = turn_at i event pool workers in
      run-Fits schedule t.0 (wake_if t.2 t.1) (
        wake_if-Fits t.2 t.0 t.1 (
          recast
            (turn_at-Beside i event pool workers 0 0 0
              (recast h (omega arith) (omega arith) (omega arith)))
            (omega arith) (omega arith) (omega arith)))
