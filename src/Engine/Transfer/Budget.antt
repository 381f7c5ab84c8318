-- ===== src/Engine/Transfer/Budget.antt =====
-- engine/sync.ts: the byte caps on responses and on the whole of a sync.
use edgeproc_browser.Base.{
  subst, ℕ, ◌≤◌, ◌+◌, zero, suc, Option, none, some, Text, Bytes, length, ◌==◌, ltb, ◌≡◌, ok, arith,
  List, [], ◌∷◌, Bool-cases, inl, inr,
}
use edgeproc_browser.Base.Returns.{
  Gives-bind, Gives-lift, Gives-catch, Gives-if, Gives-raise, Gives-then, Gives-pure, Returns-at,
  Gives,
}
use edgeproc_browser.Engine.Json.{other, negative, Number, whole}
use edgeproc_browser.Engine.Platform.{Platform}
use edgeproc_browser.Engine.Manifest.{ChunkRef}
use edgeproc_browser.Engine.Host.{Host}
use edgeproc_browser.Engine.Transfer.{
  chunk_fetch_attempts, capped, fetch_capped, retry, fetch_chunk_with_retry, fetch_one, fetch_from,
  fetch_missing, total_fetch_limit, max_total_fetch_bytes, Pass, complete, start, reservation,
}

capped-bound : (b : Bytes) (n : ℕ) (u : Bytes) → capped b n ≡ ok u → length u ≤ n
capped-bound b n u h = elim (Bool-cases (ltb n (length b))) [
  | inl e ↦ absurd (ground arith)
  | inr e ↦ let same : b ≡ u = ground arith in subst (λ x. length x ≤ n) same (ground arith)
]

-- The counters of a pass that may take `limit` bytes in all.
pub record WithinBudget (limit : ℕ) (pass : Pass) : Type 0 where
  pub spent : pass.remaining + pass.total ≡ limit

complete-WithinBudget :
    (limit : ℕ) (pass : Pass) (ref : ChunkRef) (consumed : ℕ)
    → WithinBudget limit pass
    → consumed ≤ reservation pass.remaining
    → WithinBudget limit (complete pass ref consumed)
unfolding complete
complete-WithinBudget limit pass ref consumed within few = record {
  spent = omega (arith, within.spent, few);
}

module _ {W : Type 0} (p : Platform) (host : Host W) where
  abbrev IsShort : ℕ → Bytes → Type 0
  IsShort n b = length b ≤ n

  fetch_capped-IsShort : (url : Text) (n : ℕ) → Gives (IsShort n) (fetch_capped p host url n)
  unfolding fetch_capped
  fetch_capped-IsShort url n = Gives-then _ _ λ b. Gives-lift (capped b n) (capped-bound b n)

  retry-IsShort :
      (hash url : Text) (n attempt left : ℕ)
      → Gives (IsShort n) (retry p host hash url n attempt left)
  unfolding retry
  retry-IsShort hash url n attempt zero = Gives-raise _
  retry-IsShort hash url n attempt (suc left) = Gives-catch _ _ (fetch_capped-IsShort url n) λ e.
      Gives-if _ _ _ (Gives-raise _) (
        Gives-if _ _ _
          (Gives-then _ _ λ _. Gives-then _ _ λ _. retry-IsShort hash url n (attempt + 1) left)
          (Gives-raise _))

  fetch_one-WithinBudget :
      (base : Text) (m n limit : ℕ) (pass : Pass) (ref : ChunkRef)
      → WithinBudget limit pass
      → Gives (WithinBudget limit) (fetch_one p host base m n pass ref)
  unfolding fetch_one fetch_chunk_with_retry
  fetch_one-WithinBudget base m n limit pass ref within =
      Gives-if (pass.remaining == 0) _ _ (Gives-raise _) (
        Gives-bind (IsShort (reservation pass.remaining)) _ _
          (retry-IsShort ref.hash _ _ 0 chunk_fetch_attempts)
          λ b few. Gives-then _ _ λ _.
            Gives-then _ _
              λ _. Gives-pure _ (complete-WithinBudget limit pass ref (length b) within few))

  fetch_from-WithinBudget :
      (base : Text) (m n limit : ℕ) (pass : Pass) (refs : List ChunkRef)
      → WithinBudget limit pass
      → Gives (WithinBudget limit) (fetch_from p host base m n pass refs)
  unfolding fetch_from
  fetch_from-WithinBudget base m n limit pass [] within = Gives-pure pass within
  fetch_from-WithinBudget base m n limit pass (ref ∷ refs) within =
      Gives-bind (WithinBudget limit) _ _ (fetch_one-WithinBudget base m n limit pass ref within)
        λ next here. fetch_from-WithinBudget base m n limit next refs here

  -- `fetchMissing` returns the number of bytes that it fetched, which is at most its budget.
  pub fetch_missing-bound :
      (base : Text) (missing : List ChunkRef) (limit fetched : ℕ) (w : W)
      → (fetch_missing p host base missing limit w).0 ≡ ok fetched
      → fetched ≤ limit
  unfolding fetch_missing
  fetch_missing-bound base missing limit fetched w h =
      let pass =
        fetch_from-WithinBudget base _ _ limit (start limit) missing
          (record { spent = omega arith }) in
      let gives : Gives (λ n. n ≤ limit) (fetch_missing p host base missing limit) =
        Gives-catch _ _
          (Gives-bind (WithinBudget limit) _ _ pass
            λ end within. Gives-pure _ (omega (arith, within.spent)))
          (λ e. Gives-raise _) in
      Returns-at _ fetched (gives.at w) h

-- The budget of a sync: a whole number from 1 that is at most what is asked for and 256 MiB.
pub total_fetch_limit-bound :
    (asked : Option Number) (limit : ℕ)
    → total_fetch_limit asked ≡ ok limit
    → (1 ≤ limit) × (limit ≤ max_total_fetch_bytes) × ((n : ℕ) → asked ≡ some (whole n) → limit ≤ n)
unfolding total_fetch_limit
total_fetch_limit-bound none limit h = (ground arith, ground arith, λ n e. absurd (cc))
total_fetch_limit-bound (some (whole k)) limit h =
    (ground arith, ground arith, λ n e. let same : k ≡ n = cc in ground arith)
total_fetch_limit-bound (some (negative k)) limit h = absurd (cc)
total_fetch_limit-bound (some (other k)) limit h = absurd (cc)
