-- ===== src/Engine/Transfer/Bounded/Complete.antt =====
-- engine/sync.ts: the results of `mapBounded`, and its calls after a failure.
use edgeproc_browser.Base.{
  ◌∙◌, ℕ, zero, suc, ◌+◌, ◌<◌, ◌≤◌, ◌≡◌, true, false, List, [], ◌∷◌, sum_by, arith, refl, Option,
  none, some, ltb, ◌==◌, if◌then◌else◌, Bool-cases, inl, inr,
}
use edgeproc_browser.Engine.Fault.{Fault}
use edgeproc_browser.Engine.Transfer.Bounded.{
  Slot, free, calling, finished, Batch, Answer, go_on, returned, threw, is_failed, keep_first,
  batch_turn, batch_turn_at, batch_run, start_batch, start_slots,
}

-- Whether a call for the index is under way, and how often the index has been set.
abbrev pub calls_for : ℕ → Slot → ℕ
calls_for k (calling index) = if index == k then 1 else 0
calls_for k _ = 0

abbrev pub times_set : {B : Type 0} → ℕ → ℕ × B → ℕ
times_set k (index, b) = if index == k then 1 else 0

abbrev pub done : Slot → ℕ
done finished = 1
done _ = 0

keep_first-is_failed : (o : Option Fault) (e : Fault) → is_failed (keep_first o e) ≡ true
keep_first-is_failed none e = refl
keep_first-is_failed (some f) e = refl

module _ {B : Type 0} (k : ℕ) where
  -- Unless a call failed: an index that was taken is being called for or has been set, once; the size
  -- stays; and a worker has returned only at the end.
  record IsOnce (n : ℕ) (batch : Batch B) (calls stops : ℕ) : Type 0 where
    once :
        is_failed batch.failure ≡ false
        → sum_by (times_set k) batch.results + calls ≡ (if ltb k batch.next then 1 else 0)
    sized : batch.size ≡ n
    ended : is_failed batch.failure ≡ false → 0 < stops → n ≤ batch.next

  batch_turn-IsOnce :
      (n : ℕ) (answer : Answer B) (batch : Batch B) (slot : Slot) (x y : ℕ)
      → IsOnce n batch (x + calls_for k slot) (y + done slot)
      → IsOnce n
          (batch_turn answer batch slot).0
          (x + calls_for k (batch_turn answer batch slot).1)
          (y + done (batch_turn answer batch slot).1)
  unfolding batch_turn
  batch_turn-IsOnce n go_on batch free x y h = elim (Bool-cases (is_failed batch.failure)) [
    | inl e ↦ rw e (record {
      once = λ g. absurd (ground (arith, e, g));
      sized = h.sized;
      ended = λ g s. absurd (ground (arith, e, g));
    })
    | inr e ↦ elim (Bool-cases (ltb batch.next batch.size)) [
      | inl more ↦
          rw (e, more)
            (record {
              once = λ g. ground (arith, h.once g);
              sized = h.sized;
              ended = λ g s. omega (arith, h.ended g (omega (arith, s)));
            })
      | inr last ↦
          rw (e, last)
            (record {
              once = h.once;
              sized = h.sized;
              ended = λ g s. ground (arith, last, h.sized);
            })
    ]
  ]
  batch_turn-IsOnce n (returned b) batch (calling index) x y h = record {
    once = λ g. omega (arith, h.once g);
    sized = h.sized;
    ended = h.ended;
  }
  batch_turn-IsOnce n (threw e) batch (calling index) x y h = record {
    once = λ g. absurd (ground (arith, keep_first-is_failed batch.failure e));
    sized = h.sized;
    ended = λ g s. absurd (ground (arith, keep_first-is_failed batch.failure e));
  }
  batch_turn-IsOnce n go_on batch (calling index) x y h = h
  batch_turn-IsOnce n go_on batch finished x y h = h
  batch_turn-IsOnce n (returned b) batch free x y h = h
  batch_turn-IsOnce n (returned b) batch finished x y h = h
  batch_turn-IsOnce n (threw e) batch free x y h = h
  batch_turn-IsOnce n (threw e) batch finished x y h = h

  again :
      {n a a' b b' : ℕ} {batch : Batch B}
      → IsOnce n batch a b
      → a ≡ a'
      → b ≡ b'
      → IsOnce n batch a' b'
  again h e f = record {
    once = λ g. omega (arith, h.once g, e);
    sized = h.sized;
    ended = λ g s. h.ended g (omega (arith, s, f));
  }

  batch_turn_at-IsOnce :
      (n i : ℕ) (answer : Answer B) (batch : Batch B) (slots : List Slot) (x y : ℕ)
      → IsOnce n batch (x + sum_by (calls_for k) slots) (y + sum_by done slots)
      → IsOnce n
          (batch_turn_at i answer batch slots).0
          (x + sum_by (calls_for k) (batch_turn_at i answer batch slots).1)
          (y + sum_by done (batch_turn_at i answer batch slots).1)
  unfolding batch_turn_at
  batch_turn_at-IsOnce n i answer batch [] x y h = h
  batch_turn_at-IsOnce n zero answer batch (slot ∷ slots) x y h =
      again
        (batch_turn-IsOnce n answer batch slot (x + sum_by (calls_for k) slots)
          (y + sum_by done slots) (again h (omega arith) (omega arith)))
        (omega arith) (omega arith)
  batch_turn_at-IsOnce n (suc i) answer batch (slot ∷ slots) x y h =
      again
        (batch_turn_at-IsOnce n i answer batch slots (x + calls_for k slot) (y + done slot)
          (again h (omega arith) (omega arith)))
        (omega arith) (omega arith)

  batch_run-IsOnce :
      (n : ℕ) (schedule : List (ℕ × Answer B)) (batch : Batch B) (slots : List Slot)
      → IsOnce n batch (0 + sum_by (calls_for k) slots) (0 + sum_by done slots)
      → IsOnce n
          (batch_run schedule batch slots).0
          (0 + sum_by (calls_for k) (batch_run schedule batch slots).1)
          (0 + sum_by done (batch_run schedule batch slots).1)
  unfolding batch_run
  batch_run-IsOnce n [] batch slots h = h
  batch_run-IsOnce n ((i, answer) ∷ schedule) batch slots h =
      let t = batch_turn_at i answer batch slots in
      batch_run-IsOnce n schedule t.0 t.1 (batch_turn_at-IsOnce n i answer batch slots 0 0 h)

start_slots-sums :
    (k n : ℕ) → (sum_by (calls_for k) (start_slots n) ≡ 0) × (sum_by done (start_slots n) ≡ 0)
start_slots-sums k zero = (refl, refl)
start_slots-sums k (suc n) =
    let (a, b) = start_slots-sums k n in (omega (arith, a), omega (arith, b))

-- In every order of the turns: if a worker of `mapBounded` has returned, no call failed and none is
-- under way for index `k` of the list, then the element `k` of the results has been set exactly once.
pub batch_run-once :
    {B : Type 0} (schedule : List (ℕ × Answer B)) (size workers k : ℕ)
    → k < size
    → is_failed (batch_run schedule (start_batch size) (start_slots workers)).0.failure ≡ false
    → 0 < sum_by done (batch_run schedule (start_batch size) (start_slots workers)).1
    → sum_by (calls_for k) (batch_run schedule (start_batch size) (start_slots workers)).1 ≡ 0
    → sum_by (times_set k) (batch_run schedule (start_batch size) (start_slots workers)).0.results
      ≡ 1
batch_run-once {B} schedule size workers k small good some_done none_calls =
    let (a, b) = start_slots-sums k workers in
    let h : IsOnce k size (start_batch {B = B} size)
        (0 + sum_by (calls_for k) (start_slots workers)) (0 + sum_by done (start_slots workers)) =
      record {
        once = λ g. ground (arith, a);
        sized = refl;
        ended = λ g s. absurd (omega (arith, b, s));
      } in
    let r = batch_run-IsOnce k size schedule (start_batch size) (start_slots workers) h in
    let last = r.ended good (omega (arith, some_done)) in
    let sum = r.once good in ground (arith, last, small, none_calls, sum)

batch_turn-failed :
    {B : Type 0} (answer : Answer B) (batch : Batch B) (slot : Slot)
    → is_failed batch.failure ≡ true
    → (is_failed (batch_turn answer batch slot).0.failure ≡ true)
      × ((batch_turn answer batch slot).0.next ≡ batch.next)
unfolding batch_turn
batch_turn-failed go_on batch free h = rw h (h, refl)
batch_turn-failed (returned b) batch (calling index) h = (h, refl)
batch_turn-failed (threw e) batch (calling index) h = (keep_first-is_failed batch.failure e, refl)
batch_turn-failed go_on batch (calling index) h = (h, refl)
batch_turn-failed go_on batch finished h = (h, refl)
batch_turn-failed (returned b) batch free h = (h, refl)
batch_turn-failed (returned b) batch finished h = (h, refl)
batch_turn-failed (threw e) batch free h = (h, refl)
batch_turn-failed (threw e) batch finished h = (h, refl)

batch_turn_at-failed :
    {B : Type 0} (i : ℕ) (answer : Answer B) (batch : Batch B) (slots : List Slot)
    → is_failed batch.failure ≡ true
    → (is_failed (batch_turn_at i answer batch slots).0.failure ≡ true)
      × ((batch_turn_at i answer batch slots).0.next ≡ batch.next)
unfolding batch_turn_at
batch_turn_at-failed i answer batch [] h = (h, refl)
batch_turn_at-failed zero answer batch (slot ∷ slots) h = batch_turn-failed answer batch slot h
batch_turn_at-failed (suc i) answer batch (slot ∷ slots) h =
    batch_turn_at-failed i answer batch slots h

-- Once a call of `mapBounded` has failed, no other call is started, whatever turns follow, and it
-- stays failed.
pub batch_run-failed :
    {B : Type 0} (schedule : List (ℕ × Answer B)) (batch : Batch B) (slots : List Slot)
    → is_failed batch.failure ≡ true
    → (is_failed (batch_run schedule batch slots).0.failure ≡ true)
      × ((batch_run schedule batch slots).0.next ≡ batch.next)
unfolding batch_run
batch_run-failed [] batch slots h = (h, refl)
batch_run-failed ((i, answer) ∷ schedule) batch slots h =
    let t = batch_turn_at i answer batch slots in
    let (failed, same) = batch_turn_at-failed i answer batch slots h in
    let (last, kept) = batch_run-failed schedule t.0 t.1 failed in (last, kept ∙ same)
