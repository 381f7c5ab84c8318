-- ===== src/Engine/Transfer/Bounded.antt =====
-- engine/sync.ts: `mapBounded`, whose workers run at once over shared variables. A turn is what one of
-- them does between two awaits.
pub mod Complete
use edgeproc_browser.Base.{
  ℕ, zero, suc, ◌+◌, Bool, true, false, Option, none, some, List, [], ◌∷◌, ltb, if◌then◌else◌,
}
use edgeproc_browser.Engine.Fault.{Fault}

-- Where a worker stands: at the head of its loop, at its call for an index, or returned.
pub data Slot : Type 0 where
  free : Slot
  calling : (index : ℕ) → Slot
  finished : Slot

-- The shared variables; `results` has each element that was set, the latest first.
pub record Batch (B : Type 0) : Type 0 where
  pub size : ℕ
  pub next : ℕ
  pub results : List (ℕ × B)
  pub failure : Option Fault

-- What settles: nothing that is waited for, or the call.
pub data Answer (B : Type 0) : Type 0 where
  go_on : Answer B
  returned : B → Answer B
  threw : Fault → Answer B

-- failed
abbrev pub is_failed : Option Fault → Bool
is_failed none = false
is_failed (some _) = true

-- if (!failed) failure = error
abbrev pub keep_first : Option Fault → Fault → Option Fault
keep_first none e = some e
keep_first (some f) e = some f

module _ {B : Type 0} where
  unfoldable pub batch_turn : Answer B → Batch B → Slot → Batch B × Slot
  batch_turn go_on batch free =
      if is_failed batch.failure
      then (batch, finished)
      else if ltb batch.next batch.size
      then (record batch { next = batch.next + 1 }, calling batch.next)
      else (batch, finished)
  batch_turn (returned b) batch (calling index) =
      (record batch { results = (index, b) ∷ batch.results }, free)
  batch_turn (threw e) batch (calling index) =
      (record batch { failure = keep_first batch.failure e }, free)
  batch_turn _ batch slot = (batch, slot)

  unfoldable pub batch_turn_at : ℕ → Answer B → Batch B → List Slot → Batch B × List Slot
  batch_turn_at i answer batch [] = (batch, [])
  batch_turn_at zero answer batch (slot ∷ slots) =
      let (after, moved) = batch_turn answer batch slot in (after, moved ∷ slots)
  batch_turn_at (suc i) answer batch (slot ∷ slots) =
      let (after, others) = batch_turn_at i answer batch slots in (after, slot ∷ others)

  -- One turn after another, in any order.
  unfoldable pub batch_run : List (ℕ × Answer B) → Batch B → List Slot → Batch B × List Slot
  batch_run [] batch slots = (batch, slots)
  batch_run ((i, answer) ∷ schedule) batch slots =
      let (after, moved) = batch_turn_at i answer batch slots in batch_run schedule after moved

  abbrev pub start_batch : ℕ → Batch B
  start_batch size = record { size = size; next = 0; results = []; failure = none }

abbrev pub start_slots : ℕ → List Slot
start_slots zero = []
start_slots (suc n) = free ∷ start_slots n
