-- ===== src/Engine/Transfer/Workers/Live.antt =====
-- engine/sync.ts: what one turn of a worker of `fetchMissing` keeps of those that sleep and of those
-- that have returned.
use edgeproc_browser.Base.{
  ltb, ap, ℕ, ◌+◌, ◌<◌, ◌≡◌, Bool, true, false, List, [], ◌∷◌, length, arith, refl, Bool-cases, inl,
  inr,
}
use edgeproc_browser.Engine.Fault.{sync_cap, Fault}
use edgeproc_browser.Engine.Manifest.{ChunkRef}
use edgeproc_browser.Engine.Transfer.Workers.{
  first_failure, Worker, ready, waiting, refused, fetching, storing, stopped, Pool, Event, resume,
  fetched, fetch_failed, stored, store_failed, has_failed, reserve, release, take_next,
  settle_fetch, turn,
}
use edgeproc_browser.Engine.Transfer.Workers.Conserved.{first_failure-has_failed}

-- A worker that has not returned, one that has, one that can take a turn, and one that waits to be
-- woken.
abbrev pub unreturned : Worker → ℕ
unreturned stopped = 0
unreturned _ = 1

abbrev pub returned : Worker → ℕ
returned stopped = 1
returned _ = 0

abbrev pub can_move : Worker → ℕ
can_move stopped = 0
can_move (waiting ref false) = 0
can_move _ = 1

abbrev pub asleep : Worker → ℕ
asleep (waiting ref false) = 1
asleep _ = 0

-- A worker sleeps only while a transfer is under way, whose end wakes it; and one returns only if there
-- is no chunk left or there was a failure.
pub record IsLive (sleepers stops : ℕ) (pool : Pool) (wakes : Bool) : Type 0 where
  pub awake : wakes ≡ false → 0 < sleepers → 0 < pool.in_flight
  pub exhausted : has_failed pool.failure ≡ false → 0 < stops → length pool.pending ≡ 0

abbrev pub IsLiveTurn : ℕ → ℕ → Pool × Worker × Bool → Type 0
IsLiveTurn x y (pool, worker, wakes) = IsLive (x + asleep worker) (y + returned worker) pool wakes

module _ (x y : ℕ) where
  reserve-IsLiveTurn :
      (pool : Pool) (ref : ChunkRef)
      → (0 < x → 0 < pool.in_flight)
      → (has_failed pool.failure ≡ false → 0 < y → length pool.pending ≡ 0)
      → IsLiveTurn x y (reserve pool ref)
  unfolding reserve
  reserve-IsLiveTurn pool ref awake exhausted = record {
    awake = λ w k. ground (arith, awake);
    exhausted = λ e k. ground (arith, exhausted);
  }

  take_next-IsLiveTurn :
      (pool : Pool) (pending : List ChunkRef)
      → pool.pending ≡ pending
      → has_failed pool.failure ≡ false
      → IsLive (x + 0) (y + 0) pool false
      → IsLiveTurn x y (take_next pool pending)
  unfolding take_next
  take_next-IsLiveTurn pool [] e good h = record { awake = h.awake; exhausted = λ k m. ap length e }
  take_next-IsLiveTurn pool (ref ∷ rest) e good h =
      reserve-IsLiveTurn (record pool { pending = rest }) ref (λ k. h.awake refl (omega (arith, k)))
        λ k m. absurd (omega (arith, h.exhausted good (omega (arith, m)), ap length e))

  -- A worker releases, after a failure.
  failing-IsLive :
      (pool : Pool) (e : Fault) (reserved consumed : ℕ)
      → IsLive
          (x + 0)
          (y + 0)
          (release (record pool { failure = first_failure pool.failure e }) reserved consumed)
          true
  unfolding release
  failing-IsLive pool e reserved consumed = record {
    awake = λ w k. absurd (cc);
    exhausted = λ k m. absurd (ground (arith, first_failure-has_failed pool.failure e));
  }

  settle_fetch-IsLiveTurn :
      (pool : Pool) (ref : ChunkRef) (reserved bytes : ℕ)
      → IsLive (x + 0) (y + 0) pool false
      → IsLiveTurn x y (settle_fetch pool ref reserved bytes)
  unfolding settle_fetch release
  settle_fetch-IsLiveTurn pool ref reserved bytes h = elim (Bool-cases (ltb reserved bytes)) [
    | inl more ↦ rw more (failing-IsLive pool (sync_cap "response cap") reserved 0)
    | inr fits ↦ elim (Bool-cases (has_failed pool.failure)) [
      | inl e ↦
          rw (fits, e)
            (record {
              awake = λ w k. absurd (cc);
              exhausted = λ k m. absurd (ground (arith, e, k));
            })
      | inr e ↦ rw (fits, e) (record { awake = h.awake; exhausted = h.exhausted })
    ]
  ]

  pub turn-IsLiveTurn :
      (event : Event) (pool : Pool) (worker : Worker)
      → IsLive (x + asleep worker) (y + returned worker) pool false
      → IsLiveTurn x y (turn event pool worker)
  unfolding turn release
  turn-IsLiveTurn resume pool ready h = elim (Bool-cases (has_failed pool.failure)) [
    | inl e ↦ rw e (record { awake = h.awake; exhausted = λ k m. absurd (ground (arith, e, k)) })
    | inr e ↦ rw e (take_next-IsLiveTurn pool pool.pending refl e h)
  ]
  turn-IsLiveTurn resume pool (waiting ref true) h =
      reserve-IsLiveTurn pool ref (λ k. h.awake refl (omega (arith, k)))
        (λ e k. h.exhausted e (omega (arith, k)))
  turn-IsLiveTurn resume pool (waiting ref false) h = h
  turn-IsLiveTurn resume pool (refused ref) h = record {
    awake = h.awake;
    exhausted = λ k m. absurd (cc);
  }
  turn-IsLiveTurn (fetched bytes) pool (fetching ref reserved) h =
      settle_fetch-IsLiveTurn pool ref reserved bytes h
  turn-IsLiveTurn (fetch_failed e) pool (fetching ref reserved) h = failing-IsLive pool e reserved 0
  turn-IsLiveTurn stored pool (storing ref reserved consumed) h = record {
    awake = λ w k. absurd (cc);
    exhausted = h.exhausted;
  }
  turn-IsLiveTurn (store_failed e) pool (storing ref reserved consumed) h =
      failing-IsLive pool e reserved consumed
  turn-IsLiveTurn resume pool (fetching ref reserved) h = h
  turn-IsLiveTurn resume pool (storing ref reserved consumed) h = h
  turn-IsLiveTurn resume pool stopped h = h
  turn-IsLiveTurn (fetched bytes) pool ready h = h
  turn-IsLiveTurn (fetched bytes) pool (waiting ref woken) h = h
  turn-IsLiveTurn (fetched bytes) pool (refused ref) h = h
  turn-IsLiveTurn (fetched bytes) pool (storing ref reserved consumed) h = h
  turn-IsLiveTurn (fetched bytes) pool stopped h = h
  turn-IsLiveTurn (fetch_failed e) pool ready h = h
  turn-IsLiveTurn (fetch_failed e) pool (waiting ref woken) h = h
  turn-IsLiveTurn (fetch_failed e) pool (refused ref) h = h
  turn-IsLiveTurn (fetch_failed e) pool (storing ref reserved consumed) h = h
  turn-IsLiveTurn (fetch_failed e) pool stopped h = h
  turn-IsLiveTurn stored pool ready h = h
  turn-IsLiveTurn stored pool (waiting ref woken) h = h
  turn-IsLiveTurn stored pool (refused ref) h = h
  turn-IsLiveTurn stored pool (fetching ref reserved) h = h
  turn-IsLiveTurn stored pool stopped h = h
  turn-IsLiveTurn (store_failed e) pool ready h = h
  turn-IsLiveTurn (store_failed e) pool (waiting ref woken) h = h
  turn-IsLiveTurn (store_failed e) pool (refused ref) h = h
  turn-IsLiveTurn (store_failed e) pool (fetching ref reserved) h = h
  turn-IsLiveTurn (store_failed e) pool stopped h = h
