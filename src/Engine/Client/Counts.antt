-- ===== src/Engine/Client/Counts.antt =====
-- engine/client.ts: how often an id is pending or settled.
use edgeproc_browser.Base.{
  ℕ, suc, ◌+◌, ◌≤◌, ◌≡◌, refl, ap, Bool, true, false, ◌&&◌, Option, none, some, List, [], ◌∷◌, ◌++◌,
  ◌==◌, leb, if◌then◌else◌, sum_by, arith, ==_iff, sym, ◌∙◌,
}
use edgeproc_browser.Engine.Client.{EngineRequest, without, find_pending}

-- How often an id is pending, and how often it has been settled.
abbrev pub pending_times : ℕ → EngineRequest → ℕ
pending_times k request = if request.id == k then 1 else 0

abbrev pub settled_times : {S : Type 0} → ℕ → ℕ × S → ℕ
settled_times k (id, s) = if id == k then 1 else 0

-- Whether the id has been given out.
abbrev pub given : ℕ → ℕ → ℕ
given n k = if leb 1 k && leb k n then 1 else 0

pub given_most : (n k : ℕ) → given n k ≤ 1
given_most n k = ground arith

pub given_next : (n k : ℕ) → given (suc n) k ≡ given n k + (if suc n == k then 1 else 0)
given_next n k = ground arith

pub sum_by-without :
    (ps : List EngineRequest) (id k : ℕ)
    → sum_by (pending_times k) (without ps id)
      ≡ (if id == k then 0 else sum_by (pending_times k) ps)
unfolding without
sum_by-without [] id k = ground arith
sum_by-without (p ∷ ps) id k = ground (arith, sum_by-without ps id k)

pub find_pending-id :
    (ps : List EngineRequest) (id : ℕ) (p : EngineRequest)
    → find_pending ps id ≡ some p
    → (p.id ≡ id) × (1 ≤ sum_by (pending_times id) ps)
unfolding find_pending
find_pending-id [] id p e = absurd (cc)
find_pending-id (q ∷ ps) id p e = go (q.id == id) refl e (find_pending-id ps id p)
  where
    go :
        (b : Bool)
        → (q.id == id) ≡ b
        → (if b then some q else find_pending ps id) ≡ some p
        → (find_pending ps id ≡ some p → (p.id ≡ id) × (1 ≤ sum_by (pending_times id) ps))
        → (p.id ≡ id) × (1 ≤ sum_by (pending_times id) (q ∷ ps))
    go true same found later =
        let here = ==_iff q.id id in
        (
          ap (λ (o : Option EngineRequest). elim o [ none ↦ id | some r ↦ r.id ]) (sym found)
              ∙ here.0 same,
          rw same (omega arith),
        )
    go false apart found later =
        let (own, there) = later found in (own, rw apart (omega (arith, there)))

pub sum_by-last :
    (ps : List EngineRequest) (p : EngineRequest) (k : ℕ)
    → sum_by (pending_times k) (ps ++ (p ∷ [])) ≡ sum_by (pending_times k) ps + pending_times k p
sum_by-last [] p k = omega arith
sum_by-last (q ∷ ps) p k = omega (arith, sum_by-last ps p k)
