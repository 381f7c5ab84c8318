-- ===== src/Engine/FloorGate.antt =====
-- engine/sqliteStore.ts: the durable rollback floor, and the gate that asks it.
pub mod Admitted
pub mod Merged
pub mod Covered
pub mod Again
use edgeproc_browser.Base.{
  ℕ, Bool, true, false, ◌&&◌, not, Option, none, some, List, [], ◌∷◌, ltb, ◌==◌, if◌then◌else◌,
  Text, ok, err, Outcome, max,
}
use edgeproc_browser.Engine.Json.{Json, null, string, number, whole, array, nil, cons}
use edgeproc_browser.Engine.Fault.{Fault}
use edgeproc_browser.Engine.Canonical.{serialize}
use edgeproc_browser.Engine.ActivePointer.{
  Counter, count, VersionPointer, same_text, same_number, can_promote_pointer,
  select_highest_pointer,
}

-- FloorRow. A `floor_sequence` of -1 is `none`.
pub record FloorRow : Type 0 where
  pub pointer : Option VersionPointer
  pub floor_sequence : Option ℕ
  pub floor_identity : Option Text

abbrev pub empty_row : FloorRow
empty_row = record { pointer = none; floor_sequence = none; floor_identity = none }

-- x ?? null, as JSON
abbrev pub text_or_null : Option Text → Json
text_or_null none = null
text_or_null (some s) = string s

abbrev pub number_or_null : Option ℕ → Json
number_or_null none = null
number_or_null (some n) = number (whole n)

abbrev pub counter_or_null : Counter → Json
counter_or_null (count n) = number (whole n)
counter_or_null _ = null

-- JSON.stringify of the array of the fields
unfoldable pub pointer_identity : VersionPointer → Text
pointer_identity pointer = serialize (
    array (
      cons (string pointer.manifest_hash) (
        cons (string pointer.version) (
          cons (counter_or_null pointer.sequence) (
            cons (string pointer.signature) (
              cons (text_or_null pointer.bundle_id) (
                cons (text_or_null pointer.channel) (
                  cons (text_or_null pointer.key_id)
                    (cons (number_or_null pointer.expires_at) nil)))))))))

-- the counter, which is a safe one where there is one, and -1 otherwise
abbrev pub sequence_of_counter : Counter → Option ℕ
sequence_of_counter (count n) = some n
sequence_of_counter _ = none

unfoldable pub sequence_of : VersionPointer → Option ℕ
sequence_of pointer = sequence_of_counter pointer.sequence

-- a > b, and Math.max(a, b)
abbrev pub higher : Option ℕ → Option ℕ → Bool
higher none b = false
higher (some m) none = true
higher (some m) (some n) = ltb n m

abbrev pub max_sequence : Option ℕ → Option ℕ → Option ℕ
max_sequence none b = b
max_sequence a none = a
max_sequence (some m) (some n) = some (max m n)

-- the gate at a floor of 0 or more
abbrev pub passes : ℕ → Option ℕ → Bool → Bool
passes floor none same = false
passes floor (some n) same = if n == floor then same else ltb floor n

unfoldable pub admits : FloorRow → VersionPointer → Bool
admits row incoming = elim row.floor_sequence [
  | none ↦ can_promote_pointer row.pointer incoming
  | some floor ↦
      passes floor (sequence_of incoming)
        (same_text row.floor_identity (some (pointer_identity incoming)))
]

unfoldable pub install_pointer : FloorRow → VersionPointer → FloorRow
install_pointer row pointer = record {
  pointer = some pointer;
  floor_sequence = max_sequence row.floor_sequence (sequence_of pointer);
  floor_identity = some (pointer_identity pointer);
}

abbrev pub without_identity : FloorRow → FloorRow
without_identity row = record row { floor_identity = none }

-- Math.max(-1, …) over the pointers that are there
unfoldable pub highest_sequence : List (Option VersionPointer) → Option ℕ
highest_sequence [] = none
highest_sequence (none ∷ rest) = highest_sequence rest
highest_sequence (some pointer ∷ rest) = max_sequence (sequence_of pointer) (highest_sequence rest)

unfoldable pub conflicting_legacy_floor : FloorRow → Option ℕ → FloorRow
conflicting_legacy_floor row sequence =
    if higher sequence row.floor_sequence
    then record { pointer = none; floor_sequence = sequence; floor_identity = none }
    else if same_number sequence row.floor_sequence
    then without_identity row
    else row

abbrev pub is_none : {A : Type 0} → Option A → Bool
is_none none = true
is_none (some _) = false

-- `mergeLegacyFloor`, with the highest of the pointers
unfoldable pub merge_highest : FloorRow → VersionPointer → FloorRow
merge_highest row legacy =
    if admits row legacy
    then (if is_none (sequence_of legacy) && not (is_none row.pointer)
        then row
        else install_pointer row legacy)
    else if same_number (sequence_of legacy) row.floor_sequence
    then without_identity row
    else row

abbrev pub merge_outcome :
    FloorRow → List (Option VersionPointer) → Outcome Fault (Option VersionPointer) → FloorRow
merge_outcome row pointers (err e) = conflicting_legacy_floor row (highest_sequence pointers)
merge_outcome row pointers (ok none) = row
merge_outcome row pointers (ok (some legacy)) = merge_highest row legacy

unfoldable pub merge_legacy_floor : FloorRow → List (Option VersionPointer) → FloorRow
merge_legacy_floor row pointers = merge_outcome row pointers (select_highest_pointer pointers)
