-- ===== src/Engine/FloorGate/Merged.antt =====
-- engine/sqliteStore.ts: the floor after legacy pointers have been merged into it.
use edgeproc_browser.Base.{
  ◌⊎◌, ℕ, ◌≡◌, true, false, Option, none, some, List, arith, refl, Outcome, ok, err, Bool-cases,
  inl, inr, ap, ◌&&◌, not,
}
use edgeproc_browser.Engine.Fault.{Fault}
use edgeproc_browser.Engine.ActivePointer.{
  VersionPointer, same_number, same_text, can_promote_pointer, select_highest_pointer,
}
use edgeproc_browser.Engine.FloorGate.{
  FloorRow, sequence_of, admits, install_pointer, passes, higher, max_sequence, highest_sequence,
  conflicting_legacy_floor, is_none, merge_highest, merge_outcome, merge_legacy_floor,
  pointer_identity,
}
use edgeproc_browser.Engine.FloorGate.Admitted.{
  not_higher-AtMost, AtMost, AtMost-refl, AtMost-max_left,
}

higher-AtMost : (a b : Option ℕ) → higher a b ≡ true → AtMost b a
higher-AtMost none b h = cc
higher-AtMost (some m) none h = tt
higher-AtMost (some m) (some n) h = ground arith

pub higher_irrefl : (a : Option ℕ) → higher a a ≡ false
higher_irrefl none = refl
higher_irrefl (some m) = ground arith

max_again : (a b : Option ℕ) → max_sequence (max_sequence a b) b ≡ max_sequence a b
max_again none none = refl
max_again none (some n) = ap some (omega arith)
max_again (some m) none = refl
max_again (some m) (some n) = ap some (omega arith)

-- The floor alone.
pub conflicting-AtMost :
    (row : FloorRow) (sequence : Option ℕ)
    → AtMost row.floor_sequence (conflicting_legacy_floor row sequence).floor_sequence
      × AtMost sequence (conflicting_legacy_floor row sequence).floor_sequence
unfolding conflicting_legacy_floor
conflicting-AtMost row sequence = elim (Bool-cases (higher sequence row.floor_sequence)) [
  | inl e ↦ rw e (higher-AtMost sequence row.floor_sequence e, AtMost-refl sequence)
  | inr e ↦ elim (Bool-cases (same_number sequence row.floor_sequence)) [
    | inl k ↦
        rw (e, k) (AtMost-refl row.floor_sequence, not_higher-AtMost sequence row.floor_sequence e)
    | inr k ↦
        rw (e, k) (AtMost-refl row.floor_sequence, not_higher-AtMost sequence row.floor_sequence e)
  ]
]

pub install_again :
    (row : FloorRow) (p : VersionPointer)
    → install_pointer (install_pointer row p) p ≡ install_pointer row p
unfolding install_pointer
install_again row p =
    ap
      (λ (f : Option ℕ). record row {
        pointer = some p;
        floor_sequence = f;
        floor_identity = some (pointer_identity p);
      })
      (max_again row.floor_sequence (sequence_of p))

pub not_admitted-AtMost :
    (row : FloorRow) (p : VersionPointer)
    → admits row p ≡ false
    → (AtMost (sequence_of p) row.floor_sequence) ⊎ (row.floor_sequence ≡ none)
unfolding admits
not_admitted-AtMost row p h = go row.floor_sequence (sequence_of p) h
  where
    go :
        (f o : Option ℕ)
        → (elim f [
          | none ↦ can_promote_pointer row.pointer p
          | some floor ↦ passes floor o (same_text row.floor_identity (some (pointer_identity p)))
        ])
          ≡ false
        → (AtMost o f) ⊎ (f ≡ none)
    go none o h = inr refl
    go (some f) none h = inl tt
    go (some f) (some n) h = inl (ground arith)

merge_highest-AtMost :
    (row : FloorRow) (legacy : VersionPointer)
    → AtMost row.floor_sequence (merge_highest row legacy).floor_sequence
unfolding merge_highest install_pointer
merge_highest-AtMost row legacy = elim (Bool-cases (admits row legacy)) [
  | inl e ↦ elim (Bool-cases (is_none (sequence_of legacy) && not (is_none row.pointer))) [
    | inl k ↦ rw (e, k) (AtMost-refl row.floor_sequence)
    | inr k ↦ rw (e, k) (AtMost-max_left row.floor_sequence (sequence_of legacy))
  ]
  | inr e ↦ elim (Bool-cases (same_number (sequence_of legacy) row.floor_sequence)) [
    | inl k ↦ rw (e, k) (AtMost-refl row.floor_sequence)
    | inr k ↦ rw (e, k) (AtMost-refl row.floor_sequence)
  ]
]

-- Merging legacy pointers never lowers the floor.
pub merge_legacy_floor-AtMost :
    (row : FloorRow) (pointers : List (Option VersionPointer))
    → AtMost row.floor_sequence (merge_legacy_floor row pointers).floor_sequence
unfolding merge_legacy_floor
merge_legacy_floor-AtMost row pointers = go (select_highest_pointer pointers)
  where
    go :
        (r : Outcome Fault (Option VersionPointer))
        → AtMost row.floor_sequence (merge_outcome row pointers r).floor_sequence
    go (err e) = (conflicting-AtMost row (highest_sequence pointers)).0
    go (ok none) = AtMost-refl row.floor_sequence
    go (ok (some legacy)) = merge_highest-AtMost row legacy
