-- ===== src/Engine/FloorGate/Admitted.antt =====
-- engine/sqliteStore.ts: what the floor gate admits.
use edgeproc_browser.Base.{ℕ, ◌≤◌, ◌<◌, ◌≡◌, ◌↔◌, ◌⊎◌, true, false, Option, none, some, arith, refl}
use edgeproc_browser.Engine.ActivePointer.{VersionPointer, same_text, can_promote_pointer, above}
use edgeproc_browser.Engine.ActivePointer.Same.{same_text_iff, IsSame-refl, IsSame-same_fields}
use edgeproc_browser.Engine.FloorGate.{
  FloorRow, pointer_identity, sequence_of, admits, install_pointer, passes, higher, max_sequence,
}

-- The order of floors: -1 is below every other.
abbrev pub AtMost : Option ℕ → Option ℕ → Type 0
AtMost none b = Unit
AtMost (some m) none = ⊥
AtMost (some m) (some n) = m ≤ n

pub AtMost-refl : (a : Option ℕ) → AtMost a a
AtMost-refl none = tt
AtMost-refl (some m) = omega arith

pub AtMost-trans : (a b c : Option ℕ) → AtMost a b → AtMost b c → AtMost a c
AtMost-trans none b c h k = tt
AtMost-trans (some m) none c h k = absurd h
AtMost-trans (some m) (some n) none h k = absurd k
AtMost-trans (some m) (some n) (some l) h k = omega (arith, h, k)

pub AtMost-max_left : (a b : Option ℕ) → AtMost a (max_sequence a b)
AtMost-max_left none b = tt
AtMost-max_left (some m) none = omega arith
AtMost-max_left (some m) (some n) = omega arith

pub AtMost-max_right : (a b : Option ℕ) → AtMost b (max_sequence a b)
AtMost-max_right none b = AtMost-refl b
AtMost-max_right (some m) none = tt
AtMost-max_right (some m) (some n) = omega arith

pub not_higher-AtMost : (a b : Option ℕ) → higher a b ≡ false → AtMost a b
not_higher-AtMost none b h = tt
not_higher-AtMost (some m) none h = cc
not_higher-AtMost (some m) (some n) h = ground arith

pub AtMost-not_higher : (a b : Option ℕ) → AtMost a b → higher a b ≡ false
AtMost-not_higher none b h = refl
AtMost-not_higher (some m) none h = absurd h
AtMost-not_higher (some m) (some n) h = ground arith

-- With a floor, the gate admits a pointer exactly if its counter is above the floor, or is at the floor
-- and the pointer is the release that the floor names.
pub admits_iff :
    (row : FloorRow) (incoming : VersionPointer) (floor : ℕ)
    → row.floor_sequence ≡ some floor
    → (admits row incoming ≡ true) ↔ (
        (n : ℕ) × (sequence_of incoming ≡ some n)
        × ((floor < n) ⊎ ((n ≡ floor) × (row.floor_identity ≡ some (pointer_identity incoming)))))
unfolding admits
admits_iff row incoming floor e = rw e (go (sequence_of incoming))
  where
    go :
        (o : Option ℕ)
        → (passes floor o (same_text row.floor_identity (some (pointer_identity incoming))) ≡ true)
          ↔ ((n : ℕ) × (o ≡ some n)
              × ((floor < n)
                  ⊎ ((n ≡ floor) × (row.floor_identity ≡ some (pointer_identity incoming)))))
    go none = ((λ h. cc), (λ h. cc))
    go (some n) = (
      λ h. (
        n,
        refl,
        ground (arith, same_text_iff row.floor_identity (some (pointer_identity incoming))),
      ),
      λ (m, same, h).
          ground (arith, same_text_iff row.floor_identity (some (pointer_identity incoming))),
    )

-- A pointer that the gate admits is not below the floor.
pub admits-AtMost :
    (row : FloorRow) (incoming : VersionPointer)
    → admits row incoming ≡ true
    → AtMost row.floor_sequence (sequence_of incoming)
unfolding admits
admits-AtMost row incoming h = go row.floor_sequence (sequence_of incoming) h
  where
    go :
        (f o : Option ℕ)
        → (elim f [
          | none ↦ can_promote_pointer row.pointer incoming
          | some floor ↦
              passes floor o (same_text row.floor_identity (some (pointer_identity incoming)))
        ])
          ≡ true
        → AtMost f o
    go none o h = tt
    go (some f) none h = cc
    go (some f) (some n) h = ground arith

promote_again : (p : VersionPointer) → can_promote_pointer (some p) p ≡ true
unfolding can_promote_pointer above
promote_again p = ground (arith, IsSame-same_fields p p (IsSame-refl p))

-- What has been installed is admitted from then on.
pub admits-install_pointer :
    (row : FloorRow) (p : VersionPointer)
    → admits row p ≡ true
    → admits (install_pointer row p) p ≡ true
unfolding admits install_pointer
admits-install_pointer row p h = go row.floor_sequence (sequence_of p) (admits-AtMost row p h)
  where
    go :
        (f o : Option ℕ)
        → AtMost f o
        → (elim (max_sequence f o) [
          | none ↦ can_promote_pointer (some p) p
          | some floor ↦
              passes floor o (same_text (some (pointer_identity p)) (some (pointer_identity p)))
        ])
          ≡ true
    go none none k = promote_again p
    go none (some n) k =
        ground (arith, same_text_iff (some (pointer_identity p)) (some (pointer_identity p)))
    go (some f) none k = absurd k
    go (some f) (some n) k =
        ground (arith, same_text_iff (some (pointer_identity p)) (some (pointer_identity p)))
