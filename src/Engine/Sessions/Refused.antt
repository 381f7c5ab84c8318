-- ===== src/Engine/Sessions/Refused.antt =====
-- engine/chunkDatabase.ts: a session that carries a refusal runs nothing but a reset.
use edgeproc_browser.Base.{
  All-map, ℕ, ◌≡◌, refl, sym, subst, Bool, true, false, Option, some, List, [], ◌∷◌, ◌++◌, length,
  ok, err, Outcome, All, map, arith,
}
use edgeproc_browser.Base.Effects.{Exec, ◌>>=◌, each}
use edgeproc_browser.Engine.Fault.{Fault}
use edgeproc_browser.Engine.ChunkStore.{Store}
use edgeproc_browser.Engine.Migration.{LegacySource, flattened}
use edgeproc_browser.Engine.Sessions.{Queued, batches, refused, run_one, run_allowed, run_session}
use edgeproc_browser.Engine.Sessions.Batches.{batches_lem}

All-prefix : {A : Type 0} (P : A → Type 0) (xs ys : List A) → All P (xs ++ ys) → All P xs × All P ys
All-prefix P [] ys h = (tt, h)
All-prefix P (x ∷ xs) ys (here, rest) =
    let (left, right) = All-prefix P xs ys rest in ((here, left), right)

All-flattened :
    {A : Type 0} (P : A → Type 0) (xss : List (List A)) → All P (flattened xss) → All (All P) xss
All-flattened P [] h = tt
All-flattened P (xs ∷ xss) h =
    let (here, rest) = All-prefix P xs (flattened xss) h in (here, All-flattened P xss rest)

-- Methods each of which returns a value and leaves the state as it was.
each-kept :
    {E S A B : Type 0} (f : A → Exec E S B) (g : A → B) (xs : List A) (s : S)
    → All (λ a. f a s ≡ (ok (g a), s)) xs
    → each f xs s ≡ (ok (map g xs), s)
unfolding each ◌>>=◌
each-kept f g [] s h = refl
each-kept f g (x ∷ xs) s (here, rest) = rw here (rw (each-kept f g xs s rest) refl)

module _ {W A : Type 0} (disk : ℕ → Option Fault) (sources : List (LegacySource W))
    (e : Fault) where
  -- What a promise of the session is settled with.
  abbrev pub rejected : Queued W A → Outcome Fault A
  rejected q = err e

  run_one-refused :
      (q : Queued W A) (x : Store × W)
      → q.reset ≡ false
      → run_one disk sources (some e) q x ≡ (ok (rejected q), x)
  unfolding run_one
  run_one-refused q x h = go q.reset h
    where
      go :
          (b : Bool)
          → b ≡ false
          → run_allowed disk sources (refused (some e) b) q x ≡ (ok (rejected q), x)
      go true k = absurd (cc)
      go false k = refl

  batch_refused :
      (qs : List (Queued W A)) (x : Store × W)
      → All (λ q. q.reset ≡ false) qs
      → each (run_one disk sources (some e)) qs x ≡ (ok (map rejected qs), x)
  batch_refused qs x h = each-kept _ rejected qs x (All-map _ _ qs (λ q k. run_one-refused q x k) h)

  -- While a session carries a refusal and no reset is queued: every operation is rejected with the
  -- refusal, and neither the chunk database nor the older stores are touched.
  pub run_session-refused :
      (queue : List (Queued W A)) (x : Store × W)
      → All (λ q. q.reset ≡ false) queue
      → run_session disk sources (some e) queue x
        ≡ (ok (map (map rejected) (batches (length queue) queue)), x)
  unfolding run_session
  run_session-refused queue x h =
      let whole = (batches_lem (length queue) queue (omega arith)).0 in
      let listed =
        All-flattened (λ (q : Queued W A). q.reset ≡ false) (batches (length queue) queue)
          (subst (λ (qs : List (Queued W A)). All (λ q. q.reset ≡ false) qs) (sym whole) h) in
      each-kept _ (map rejected) (batches (length queue) queue) x
        (All-map _ _ (batches (length queue) queue) (λ qs k. batch_refused qs x k) listed)
