-- ===== src/Engine/Sessions/Batches.antt =====
-- engine/chunkDatabase.ts: the batches of a session.
use edgeproc_browser.Base.{
  ℕ, suc, zero, ◌≤◌, ◌≡◌, refl, ◌∙◌, ap, Bool, true, false, not, List, [], ◌∷◌, ◌++◌, length, arith,
  All, if◌then◌else◌,
}
use edgeproc_browser.Engine.Migration.{flattened}
use edgeproc_browser.Engine.Sessions.{Queued, split_before, leading_shared, next_batch, batches}

module _ {W A : Type 0} where
  -- A batch is one operation that is not shared, or shared ones.
  pub data IsBatch : List (Queued W A) → Type 0 where
    alone : (q : Queued W A) → q.shared ≡ false → IsBatch (q ∷ [])
    together :
        (q : Queued W A) (qs : List (Queued W A))
        → All (λ r. r.shared ≡ true) (q ∷ qs)
        → IsBatch (q ∷ qs)

  split_before-append :
      (b : Bool) (q : Queued W A) (queue : List (Queued W A))
      (rest : List (Queued W A) × List (Queued W A))
      → rest.0 ++ rest.1 ≡ queue
      → (split_before b q queue rest).0 ++ (split_before b q queue rest).1 ≡ q ∷ queue
  split_before-append true q queue rest h = ap (λ (qs : List (Queued W A)). q ∷ qs) h
  split_before-append false q queue rest h = refl

  -- The operations that a split has put first, and the rest: the queue in its order.
  leading_shared-append :
      (queue : List (Queued W A)) → (leading_shared queue).0 ++ (leading_shared queue).1 ≡ queue
  unfolding leading_shared
  leading_shared-append [] = refl
  leading_shared-append (q ∷ queue) =
      split_before-append q.shared q queue _ (leading_shared-append queue)

  split_before-All :
      (b : Bool) (q : Queued W A) (queue : List (Queued W A))
      (rest : List (Queued W A) × List (Queued W A))
      → q.shared ≡ b
      → All (λ r. r.shared ≡ true) rest.0
      → All (λ r. r.shared ≡ true) (split_before b q queue rest).0
  split_before-All true q queue rest e h = (e, h)
  split_before-All false q queue rest e h = tt

  leading_shared-All :
      (queue : List (Queued W A)) → All (λ r. r.shared ≡ true) (leading_shared queue).0
  unfolding leading_shared
  leading_shared-All [] = tt
  leading_shared-All (q ∷ queue) =
      split_before-All q.shared q queue _ refl (leading_shared-All queue)

  leading_shared-length :
      (queue : List (Queued W A)) → length (leading_shared queue).1 ≤ length queue
  unfolding leading_shared
  leading_shared-length [] = omega arith
  leading_shared-length (q ∷ queue) = ground (arith, leading_shared-length queue)

  -- What a batch takes from a queue with an operation in it.
  record Splits (q : Queued W A) (queue : List (Queued W A))
      (split : List (Queued W A) × List (Queued W A)) : Type 0 where
    pub whole : split.0 ++ split.1 ≡ q ∷ queue
    pub batch : IsBatch split.0
    pub less : length split.1 ≤ length queue

  next_batch-Splits :
      (q : Queued W A) (queue : List (Queued W A)) → Splits q queue (next_batch (q ∷ queue))
  unfolding next_batch leading_shared
  next_batch-Splits q queue = go q.shared refl
    where
      go :
          (b : Bool)
          → q.shared ≡ b
          → Splits q queue
              (if not b then (q ∷ [], queue) else split_before b q queue (leading_shared queue))
      go true e = record {
        whole = ap (λ (qs : List (Queued W A)). q ∷ qs) (leading_shared-append queue);
        batch = together q _ (e, leading_shared-All queue);
        less = leading_shared-length queue;
      }
      go false e = record { whole = refl; batch = alone q e; less = omega arith }

  -- The loop of a session ends, and as many rounds as operations are queued are enough: the batches put
  -- together are the queue in its order, so each operation runs once, and each batch is one operation
  -- that is not shared or is of shared ones alone.
  pub batches_lem :
      (fuel : ℕ) (queue : List (Queued W A))
      → length queue ≤ fuel
      → (flattened (batches fuel queue) ≡ queue) × All IsBatch (batches fuel queue)
  unfolding batches
  batches_lem zero [] h = (refl, tt)
  batches_lem zero (q ∷ queue) h = absurd (omega (arith, h))
  batches_lem (suc fuel) [] h = (refl, tt)
  batches_lem (suc fuel) (q ∷ queue) h =
      let s = next_batch-Splits q queue in
      let less = s.less in
      let (whole, each_batch) =
        batches_lem fuel (next_batch (q ∷ queue)).1 (omega (arith, h, less)) in
      (
        ap (λ (qs : List (Queued W A)). (next_batch (q ∷ queue)).0 ++ qs) whole ∙ s.whole,
        (s.batch, each_batch),
      )
