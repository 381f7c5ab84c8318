-- ===== src/Engine/Transfer/Attempts.antt =====
-- engine/sync.ts: how often a chunk is asked for.
use edgeproc_browser.Base.{
  ℕ, ◌≤◌, ◌+◌, suc, zero, Text, ◌≡◌, arith, Outcome, ok, err, Bool, true, false, if◌then◌else◌,
}
use edgeproc_browser.Base.Effects.{
  Fixes-pure, Fixes-catch, Fixes-raise, Fixes-lift, after, Exec, Fixes, ◌>>=◌, catch, handled,
}
use edgeproc_browser.Engine.Fault.{Fault}
use edgeproc_browser.Engine.Platform.{Platform}
use edgeproc_browser.Engine.Host.{Host, SyncProgress}
use edgeproc_browser.Engine.Transfer.{
  retry, fetch_chunk_with_retry, fetch_capped, report, chunk_fetch_attempts,
}

-- A count of the requests that were sent.
pub record CountsRequests {W : Type 0} (host : Host W) (sent : W → ℕ) : Type 0 where
  pub fetch : (url : Text) (n : ℕ) (w : W) → sent (host.fetch_bytes url n w).1 ≡ suc (sent w)
  pub progress : (progress : SyncProgress) → Fixes sent (host.on_progress progress)
  pub sleeps : (ms : ℕ) → Fixes sent (host.sleep ms)

-- A method sends at most `n` requests.
pub record SendsAtMost {W A : Type 0} (sent : W → ℕ) (n : ℕ) (m : Exec Fault W A) : Type 0 where
  pub at : (w : W) → sent (m w).1 ≤ sent w + n

module _ {W A B : Type 0} {sent : W → ℕ} where
  bind_SendsAtMost :
      (m : Exec Fault W A) (f : A → Exec Fault W B) (j k n : ℕ)
      → j + k ≤ n
      → SendsAtMost sent j m
      → ((a : A) → SendsAtMost sent k (f a))
      → SendsAtMost sent n (m >>= f)
  unfolding ◌>>=◌
  bind_SendsAtMost m f j k n fits first rest = record { at = λ w. go w (m w) (first.at w) }
    where
      go :
          (w : W) (r : Outcome Fault A × W)
          → sent r.1 ≤ sent w + j
          → sent (after f r).1 ≤ sent w + n
      go w (ok a, t) few = omega (arith, (rest a).at t, few, fits)
      go w (err e, t) few = omega (arith, few, fits)

module _ {W A : Type 0} {sent : W → ℕ} where
  catch-SendsAtMost :
      (m : Exec Fault W A) (h : Fault → Exec Fault W A) (j k n : ℕ)
      → j + k ≤ n
      → SendsAtMost sent j m
      → ((e : Fault) → SendsAtMost sent k (h e))
      → SendsAtMost sent n (catch m h)
  unfolding catch
  catch-SendsAtMost m h j k n fits first rest = record { at = λ w. go w (m w) (first.at w) }
    where
      go :
          (w : W) (r : Outcome Fault A × W)
          → sent r.1 ≤ sent w + j
          → sent (handled h r).1 ≤ sent w + n
      go w (ok a, t) few = omega (arith, few, fits)
      go w (err e, t) few = omega (arith, (rest e).at t, few, fits)

  if_SendsAtMost :
      (b : Bool) (m n : Exec Fault W A) (k : ℕ)
      → SendsAtMost sent k m
      → SendsAtMost sent k n
      → SendsAtMost sent k (if b then m else n)
  if_SendsAtMost true m n k left right = left
  if_SendsAtMost false m n k left right = right

  Fixes-SendsAtMost : (m : Exec Fault W A) (k : ℕ) → Fixes sent m → SendsAtMost sent k m
  Fixes-SendsAtMost m k fixes = record { at = λ w. omega (arith, fixes.at w) }

module _ {W : Type 0} (p : Platform) (host : Host W) (sent : W → ℕ)
    (counts : CountsRequests host sent) where
  fetch_capped-SendsAtMost : (url : Text) (n : ℕ) → SendsAtMost sent 1 (fetch_capped p host url n)
  unfolding fetch_capped
  fetch_capped-SendsAtMost url n =
      bind_SendsAtMost _ _ 1 0 1 (omega arith)
        (record { at = λ w. omega (arith, counts.fetch url n w) })
        λ b. Fixes-SendsAtMost _ 0 (Fixes-lift _)

  report-Fixes_sent : (progress : SyncProgress) → Fixes sent (report p host progress)
  unfolding report
  report-Fixes_sent progress = Fixes-catch _ _ (counts.progress progress) λ e. Fixes-pure _

  retry-SendsAtMost :
      (hash url : Text) (n attempt left : ℕ)
      → SendsAtMost sent left (retry p host hash url n attempt left)
  unfolding retry
  retry-SendsAtMost hash url n attempt zero = Fixes-SendsAtMost _ 0 (Fixes-raise _)
  retry-SendsAtMost hash url n attempt (suc left) =
      catch-SendsAtMost _ _ 1 left (suc left) (omega arith) (fetch_capped-SendsAtMost url n) λ e.
        if_SendsAtMost _ _ _ left (Fixes-SendsAtMost _ left (Fixes-raise _)) (
          if_SendsAtMost _ _ _ left
            (bind_SendsAtMost _ _ 0 left left (omega arith)
              (Fixes-SendsAtMost _ 0 (report-Fixes_sent _))
              λ _.
                bind_SendsAtMost _ _ 0 left left (omega arith)
                  (Fixes-SendsAtMost _ 0 (counts.sleeps _))
                  λ _. retry-SendsAtMost hash url n (attempt + 1) left)
            (Fixes-SendsAtMost _ left (Fixes-raise _)))

  -- By any count of the requests that the transport gets, `fetchChunkWithRetry` sends at most six,
  -- whatever the answers are.
  pub fetch_chunk_with_retry-attempts :
      (hash url : Text) (n : ℕ) (w : W)
      → sent (fetch_chunk_with_retry p host hash url n w).1 ≤ sent w + chunk_fetch_attempts
  unfolding fetch_chunk_with_retry
  fetch_chunk_with_retry-attempts hash url n w =
      (retry-SendsAtMost hash url n 0 chunk_fetch_attempts).at w
