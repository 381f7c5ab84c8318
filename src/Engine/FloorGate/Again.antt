-- ===== src/Engine/FloorGate/Again.antt =====
-- engine/sqliteStore.ts: merging the same legacy pointers again changes nothing.
use edgeproc_browser.Engine.FloorGate.Merged.{install_again, higher_irrefl}
use edgeproc_browser.Base.{
  ℕ, ◌≡◌, Bool, true, false, Option, none, some, List, arith, refl, Outcome, ok, err, Bool-cases,
  inl, inr, if◌then◌else◌, ◌&&◌, not,
}
use edgeproc_browser.Engine.Fault.{Fault}
use edgeproc_browser.Engine.ActivePointer.{
  VersionPointer, same_number, same_text, can_promote_pointer, select_highest_pointer,
}
use edgeproc_browser.Engine.ActivePointer.Same.{same_number_iff}
use edgeproc_browser.Engine.FloorGate.{
  FloorRow, sequence_of, admits, install_pointer, passes, higher, without_identity,
  highest_sequence, conflicting_legacy_floor, is_none, merge_highest, merge_outcome,
  merge_legacy_floor, pointer_identity,
}
use edgeproc_browser.Engine.FloorGate.Admitted.{admits-install_pointer}

same_number_refl : (a : Option ℕ) → same_number a a ≡ true
same_number_refl a = (same_number_iff a a).1 refl

conflicting_again :
    (row : FloorRow) (sequence : Option ℕ)
    → conflicting_legacy_floor (conflicting_legacy_floor row sequence) sequence
      ≡ conflicting_legacy_floor row sequence
unfolding conflicting_legacy_floor
conflicting_again row sequence = elim (Bool-cases (higher sequence row.floor_sequence)) [
  | inl e ↦ rw (e, higher_irrefl sequence, same_number_refl sequence) refl
  | inr e ↦ elim (Bool-cases (same_number sequence row.floor_sequence)) [
    | inl k ↦ rw (e, k) (rw (e, k) refl)
    | inr k ↦ rw (e, k) (rw (e, k) refl)
  ]
]

-- A floor without an identity admits no more than it did.
without_identity-admits :
    (row : FloorRow) (p : VersionPointer)
    → admits row p ≡ false
    → same_number (sequence_of p) row.floor_sequence ≡ true
    → admits (without_identity row) p ≡ false
unfolding admits same_text same_number
without_identity-admits row p h k = go row.floor_sequence (sequence_of p) h k
  where
    go :
        (f o : Option ℕ)
        → (elim f [
          | none ↦ can_promote_pointer row.pointer p
          | some floor ↦ passes floor o (same_text row.floor_identity (some (pointer_identity p)))
        ])
          ≡ false
        → same_number o f ≡ true
        → (elim f [
          | none ↦ can_promote_pointer row.pointer p
          | some floor ↦ passes floor o (same_text none (some (pointer_identity p)))
        ])
          ≡ false
    go none o h k = h
    go (some f) none h k = cc
    go (some f) (some n) h k = ground arith

merge_highest_again :
    (row : FloorRow) (p : VersionPointer)
    → merge_highest (merge_highest row p) p ≡ merge_highest row p
unfolding merge_highest
merge_highest_again row p = elim (Bool-cases (admits row p)) [
  | inl e ↦ elim (Bool-cases (is_none (sequence_of p) && not (is_none row.pointer))) [
    | inl k ↦ rw (e, k) (rw (e, k) refl)
    | inr k ↦
        rw (e, k)
          (rw (admits-install_pointer row p e)
            (twice (is_none (sequence_of p) && not (is_none (install_pointer row p).pointer))))
  ]
  | inr e ↦ elim (Bool-cases (same_number (sequence_of p) row.floor_sequence)) [
    | inl k ↦ rw (e, k) (rw (without_identity-admits row p e k, k) refl)
    | inr k ↦ rw (e, k) (rw (e, k) refl)
  ]
]
  where
    twice :
        (b : Bool)
        → (if b then install_pointer row p else install_pointer (install_pointer row p) p)
          ≡ install_pointer row p
    twice true = refl
    twice false = install_again row p

-- Merging the same legacy pointers a second time changes nothing, whatever the row was: a migration
-- that is run again after a crash leaves the floor as the first run did.
pub merge_legacy_floor_again :
    (row : FloorRow) (pointers : List (Option VersionPointer))
    → merge_legacy_floor (merge_legacy_floor row pointers) pointers
      ≡ merge_legacy_floor row pointers
unfolding merge_legacy_floor
merge_legacy_floor_again row pointers = go (select_highest_pointer pointers)
  where
    go :
        (r : Outcome Fault (Option VersionPointer))
        → merge_outcome (merge_outcome row pointers r) pointers r ≡ merge_outcome row pointers r
    go (err e) = conflicting_again row (highest_sequence pointers)
    go (ok none) = refl
    go (ok (some legacy)) = merge_highest_again row legacy
