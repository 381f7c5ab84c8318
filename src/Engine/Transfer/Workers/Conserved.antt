-- ===== src/Engine/Transfer/Workers/Conserved.antt =====
-- engine/sync.ts: what one turn of a worker of `fetchMissing` keeps.
use edgeproc_browser.Base.{
  sum_by, ltb, ap, ℕ, ◌+◌, ◌-◌, ◌≡◌, Bool, true, false, List, [], ◌∷◌, length, arith, refl, Option,
  none, some, Bool-cases, inl, inr,
}
use edgeproc_browser.Engine.Fault.{sync_cap, Fault}
use edgeproc_browser.Engine.Manifest.{ChunkRef}
use edgeproc_browser.Engine.Transfer.Workers.{
  Worker, ready, waiting, refused, fetching, storing, stopped, Pool, Event, resume, fetched,
  fetch_failed, stored, store_failed, has_failed, first_failure, reserve, release, take_next,
  settle_fetch, turn,
}

-- The bytes that a worker has reserved and not yet been counted for.
abbrev pub held : Worker → ℕ
held (fetching ref reserved) = reserved
held (storing ref reserved consumed) = reserved - consumed
held _ = 0

-- Whether it is between `reserve` and `release`.
abbrev pub busy : Worker → ℕ
busy (fetching ref reserved) = 1
busy (storing ref reserved consumed) = 1
busy _ = 0

-- The weight of the chunk that it has and that is not stored.
abbrev pub holding : (ChunkRef → ℕ) → Worker → ℕ
holding f ready = 0
holding f stopped = 0
holding f (waiting ref woken) = f ref
holding f (refused ref) = f ref
holding f (fetching ref reserved) = f ref
holding f (storing ref reserved consumed) = f ref

-- The bytes of a chunk that was handed to the store.
abbrev pub handed : ChunkRef × ℕ → ℕ
handed (ref, bytes) = bytes

-- The shared variables fit the sums of the three over the workers: no byte of the budget is lost or
-- made, the count is that of the busy workers, the totals are those of what the store was given, and
-- no chunk is lost or changed unless there was a failure, by any weight of chunks.
pub record IsBalanced (limit chunks : ℕ) (f : ChunkRef → ℕ) (pool : Pool)
    (bytes flying chunks_held : ℕ) : Type 0 where
  pub spent : pool.remaining + sum_by handed pool.written + bytes ≡ limit
  pub totalled : pool.total ≡ sum_by handed pool.written
  pub counted : pool.in_flight ≡ flying
  pub told : pool.completed ≡ length pool.saved
  pub kept :
      has_failed pool.failure ≡ false
      → sum_by f pool.saved + chunks_held + sum_by f pool.pending ≡ chunks

pub first_failure-has_failed :
    (o : Option Fault) (e : Fault) → has_failed (first_failure o e) ≡ true
first_failure-has_failed none e = refl
first_failure-has_failed (some f) e = refl

module _ (limit chunks : ℕ) (f : ChunkRef → ℕ) where
  reserve-IsBalanced :
      (pool : Pool) (ref : ChunkRef) (x y z : ℕ)
      → IsBalanced limit chunks f pool (x + 0) (y + 0) (z + f ref)
      → IsBalanced limit chunks f
          (reserve pool ref).0
          (x + held (reserve pool ref).1)
          (y + busy (reserve pool ref).1)
          (z + holding f (reserve pool ref).1)
  unfolding reserve
  reserve-IsBalanced pool ref x y z h = record {
    spent = ground (arith, h.spent);
    counted = ground (arith, h.counted);
    totalled = ground (arith, h.totalled);
    told = ground (arith, h.told);
    kept = λ e. ground (arith, h.kept);
  }

  -- A worker releases its reservation after a failure.
  failing-IsBalanced :
      (pool : Pool) (ref : ChunkRef) (e : Fault) (reserved consumed b x y z : ℕ)
      → IsBalanced limit chunks f pool (x + b) (y + 1) (z + f ref)
      → b ≡ reserved - consumed
      → IsBalanced limit chunks f
          (release (record pool { failure = first_failure pool.failure e }) reserved consumed)
          (x + 0)
          (y + 0)
          (z + 0)
  unfolding release
  failing-IsBalanced pool ref e reserved consumed b x y z h same = record {
    spent = omega (arith, h.spent, same);
    counted = omega (arith, h.counted);
    totalled = h.totalled;
    told = h.told;
    kept = λ k. absurd (ground (arith, first_failure-has_failed pool.failure e));
  }

  -- What a turn keeps, beside what the other workers hold.
  abbrev pub Balanced : ℕ → ℕ → ℕ → Pool × Worker × Bool → Type 0
  Balanced x y z (pool, worker, wakes) =
      IsBalanced limit chunks f pool (x + held worker) (y + busy worker) (z + holding f worker)

  take_next-Balanced :
      (pool : Pool) (pending : List ChunkRef) (x y z : ℕ)
      → pool.pending ≡ pending
      → IsBalanced limit chunks f pool (x + 0) (y + 0) (z + 0)
      → Balanced x y z (take_next pool pending)
  unfolding take_next
  take_next-Balanced pool [] x y z e h = h
  take_next-Balanced pool (ref ∷ rest) x y z e h =
      reserve-IsBalanced (record pool { pending = rest }) ref x y z
        (record {
          spent = omega (arith, h.spent);
          counted = omega (arith, h.counted);
          totalled = h.totalled;
          told = h.told;
          kept = λ k. omega (arith, h.kept k, ap (sum_by f) e);
        })

  settle_fetch-Balanced :
      (pool : Pool) (ref : ChunkRef) (reserved bytes x y z : ℕ)
      → IsBalanced limit chunks f pool (x + reserved) (y + 1) (z + f ref)
      → Balanced x y z (settle_fetch pool ref reserved bytes)
  unfolding settle_fetch release
  settle_fetch-Balanced pool ref reserved bytes x y z h = elim (Bool-cases (ltb reserved bytes)) [
    | inl more ↦ rw more (
        failing-IsBalanced pool ref (sync_cap "response cap") reserved 0 reserved x y z h
          (omega arith))
    | inr fits ↦ elim (Bool-cases (has_failed pool.failure)) [
      | inl e ↦
          rw (fits, e)
            (record {
              spent = omega (arith, h.spent);
              counted = omega (arith, h.counted);
              totalled = h.totalled;
              told = h.told;
              kept = λ k. absurd (ground (arith, e, k));
            })
      | inr e ↦
          rw (fits, e)
            (record {
              spent = ground (arith, h.spent, fits);
              totalled = omega (arith, h.totalled);
              counted = h.counted;
              told = h.told;
              kept = h.kept;
            })
    ]
  ]

  pub turn-Balanced :
      (event : Event) (pool : Pool) (worker : Worker) (x y z : ℕ)
      → Balanced x y z (pool, worker, false)
      → Balanced x y z (turn event pool worker)
  unfolding turn release
  turn-Balanced resume pool ready x y z h = elim (Bool-cases (has_failed pool.failure)) [
    | inl e ↦ rw e h
    | inr e ↦ rw e (take_next-Balanced pool pool.pending x y z refl h)
  ]
  turn-Balanced resume pool (waiting ref true) x y z h = reserve-IsBalanced pool ref x y z h
  turn-Balanced resume pool (waiting ref false) x y z h = h
  turn-Balanced resume pool (refused ref) x y z h = record {
    spent = omega (arith, h.spent);
    counted = omega (arith, h.counted);
    totalled = h.totalled;
    told = h.told;
    kept = λ k. absurd (cc);
  }
  turn-Balanced resume pool (fetching ref reserved) x y z h = h
  turn-Balanced resume pool (storing ref reserved consumed) x y z h = h
  turn-Balanced resume pool stopped x y z h = h
  turn-Balanced (fetched bytes) pool (fetching ref reserved) x y z h =
      settle_fetch-Balanced pool ref reserved bytes x y z h
  turn-Balanced (fetched bytes) pool ready x y z h = h
  turn-Balanced (fetched bytes) pool (waiting ref woken) x y z h = h
  turn-Balanced (fetched bytes) pool (refused ref) x y z h = h
  turn-Balanced (fetched bytes) pool (storing ref reserved consumed) x y z h = h
  turn-Balanced (fetched bytes) pool stopped x y z h = h
  turn-Balanced (fetch_failed e) pool (fetching ref reserved) x y z h =
      failing-IsBalanced pool ref e reserved 0 reserved x y z h (omega arith)
  turn-Balanced (fetch_failed e) pool ready x y z h = h
  turn-Balanced (fetch_failed e) pool (waiting ref woken) x y z h = h
  turn-Balanced (fetch_failed e) pool (refused ref) x y z h = h
  turn-Balanced (fetch_failed e) pool (storing ref reserved consumed) x y z h = h
  turn-Balanced (fetch_failed e) pool stopped x y z h = h
  turn-Balanced stored pool (storing ref reserved consumed) x y z h = record {
    spent = omega (arith, h.spent);
    counted = omega (arith, h.counted);
    totalled = h.totalled;
    told = omega (arith, h.told);
    kept = λ k. omega (arith, h.kept k);
  }
  turn-Balanced stored pool ready x y z h = h
  turn-Balanced stored pool (waiting ref woken) x y z h = h
  turn-Balanced stored pool (refused ref) x y z h = h
  turn-Balanced stored pool (fetching ref reserved) x y z h = h
  turn-Balanced stored pool stopped x y z h = h
  turn-Balanced (store_failed e) pool (storing ref reserved consumed) x y z h =
      failing-IsBalanced pool ref e reserved consumed (reserved - consumed) x y z h refl
  turn-Balanced (store_failed e) pool ready x y z h = h
  turn-Balanced (store_failed e) pool (waiting ref woken) x y z h = h
  turn-Balanced (store_failed e) pool (refused ref) x y z h = h
  turn-Balanced (store_failed e) pool (fetching ref reserved) x y z h = h
  turn-Balanced (store_failed e) pool stopped x y z h = h
