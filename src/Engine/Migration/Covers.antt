-- ===== src/Engine/Migration/Covers.antt =====
-- engine/migration.ts: `importLegacyFloor` puts the older floors in force, or throws its one error.
use edgeproc_browser.Base.{ℕ, ◌≡◌, refl, sym, ◌∙◌, ap, subst, Option, List, ok, err, Outcome}
use edgeproc_browser.Base.Effects.{
  Exec, Fixes, Fixes-bind, Fixes-pure, Fixes-each, ◌>>=◌, after, catch, handled, raise,
}
use edgeproc_browser.Engine.Fault.{Fault, legacy_floor_unavailable}
use edgeproc_browser.Engine.ActivePointer.{VersionPointer}
use edgeproc_browser.Engine.ActivePointer.Choice.{EachPresent}
use edgeproc_browser.Engine.FloorGate.{sequence_of, merge_legacy_floor}
use edgeproc_browser.Engine.FloorGate.Admitted.{AtMost}
use edgeproc_browser.Engine.FloorGate.Covered.{IsFloored, merge_legacy_floor-covers}
use edgeproc_browser.Engine.Tables.{read_row}
use edgeproc_browser.Engine.ChunkStore.{Store, raise_legacy_floor, raise_work}
use edgeproc_browser.Engine.ChunkStore.Steady.{transaction-cases}
use edgeproc_browser.Engine.ChunkStore.Floor.{floor_of, write_row-floor}
use edgeproc_browser.Engine.Migration.{
  LegacySource, on_store, on_legacy, flattened, as_unavailable, read_legacy_pointers,
  import_legacy_floor,
}

-- Every one of the pointers is at or below the floor.
abbrev pub IsCovered : List (Option VersionPointer) → Option ℕ → Type 0
IsCovered pointers floor = EachPresent (λ c. AtMost (sequence_of c) floor) pointers

module _ (disk : ℕ → Option Fault) where
  raise_legacy_floor-covers :
      (s : Store) (pointers : List (Option VersionPointer))
      → IsFloored (read_row s.tables)
      → ((raise_legacy_floor disk pointers s).0 ≡ ok tt
          → IsCovered pointers (floor_of (raise_legacy_floor disk pointers s).1))
        × ((e : Fault)
            → (raise_legacy_floor disk pointers s).0 ≡ err e
            → (raise_legacy_floor disk pointers s).1.tables ≡ s.tables)
  unfolding raise_legacy_floor raise_work
  raise_legacy_floor-covers s pointers floored =
      transaction-cases disk
        (λ r.
          (r.0 ≡ ok tt → IsCovered pointers (floor_of r.1))
          × ((e : Fault) → r.0 ≡ err e → r.1.tables ≡ s.tables))
        (raise_work pointers) s (λ e n. ((λ h. absurd (cc)), (λ x h. refl)))
        λ u t e _. (
          λ h.
              subst (IsCovered pointers)
                (sym
                  (write_row-floor (merge_legacy_floor (read_row s.tables) pointers) s.tables t e))
                (merge_legacy_floor-covers (read_row s.tables) pointers floored),
          λ x h. absurd (cc),
        )

module _ {W : Type 0} (disk : ℕ → Option Fault) where
  -- What the browser's storage does leaves the store alone, and the other way round.
  pub on_legacy-Fixes :
      {A : Type 0} (m : Exec Fault W A) → Fixes (λ (x : Store × W). x.0) (on_legacy m)
  unfolding on_legacy
  on_legacy-Fixes m = record { at = λ x. refl }

  pub read_legacy_pointers-Fixes :
      (sources : List (LegacySource W))
      → Fixes (λ (x : Store × W). x.0) (read_legacy_pointers sources)
  unfolding read_legacy_pointers
  read_legacy_pointers-Fixes sources =
      Fixes-bind _ _ (Fixes-each _ sources (λ source. on_legacy-Fixes source.read_pointers))
        λ found. Fixes-pure (flattened found)

  -- What a run of `importLegacyFloor` from `s` has done: a floor that covers all the pointers that
  -- were read, or its one error and the tables as they were.
  pub data Imported (s : Store) (found : Outcome Fault (List (Option VersionPointer)))
      : Outcome Fault (Unit {0}) × (Store × W) → Type 0 where
    in_force :
        (pointers : List (Option VersionPointer)) (t : Store) (w : W)
        → found ≡ ok pointers
        → IsCovered pointers (floor_of t)
        → Imported s found (ok tt, (t, w))
    refused :
        (t : Store) (w : W)
        → t.tables ≡ s.tables
        → Imported s found (err legacy_floor_unavailable, (t, w))

  raised-Imported :
      (s u : Store) (w : W) (found : Outcome Fault (List (Option VersionPointer)))
      (pointers : List (Option VersionPointer))
      → u ≡ s
      → found ≡ ok pointers
      → IsFloored (read_row s.tables)
      → Imported s found (as_unavailable (on_store (raise_legacy_floor disk pointers)) (u, w))
  unfolding catch on_store
  raised-Imported s u w found pointers same read floored =
      go (raise_legacy_floor disk pointers u) refl (
        raise_legacy_floor-covers disk u pointers
          (subst (λ (x : Store). IsFloored (read_row x.tables)) (sym same) floored))
    where
      go :
          (r : Outcome Fault (Unit {0}) × Store)
          → raise_legacy_floor disk pointers u ≡ r
          → (r.0 ≡ ok tt → IsCovered pointers (floor_of r.1))
            × ((e : Fault) → r.0 ≡ err e → r.1.tables ≡ u.tables)
          → Imported s found (handled (λ e. raise legacy_floor_unavailable) (r.0, (r.1, w)))
      go (ok tt, t) e (covers, _) = in_force pointers t w read (covers refl)
      go (err x, t) e (_, kept) = refused t w (kept x refl ∙ ap (λ (y : Store). y.tables) same)

  -- From a row whose pointer is not above its floor: `importLegacyFloor` returns only with a floor at
  -- or above the sequence of every pointer that the older stores hold, and throws only
  -- LegacyFloorUnavailableError, with the tables as they were.
  pub import_legacy_floor-Imported :
      (sources : List (LegacySource W)) (s : Store) (w : W)
      → IsFloored (read_row s.tables)
      → Imported s (read_legacy_pointers sources (s, w)).0 (import_legacy_floor disk sources (s, w))
  unfolding import_legacy_floor catch ◌>>=◌
  import_legacy_floor-Imported sources s w floored =
      go (read_legacy_pointers sources (s, w)) ((read_legacy_pointers-Fixes sources).at (s, w))
    where
      go :
          (r : Outcome Fault (List (Option VersionPointer)) × (Store × W))
          → r.1.0 ≡ s
          → Imported s r.0 (
              after
                (λ pointers. as_unavailable (on_store (raise_legacy_floor disk pointers)))
                (handled (λ e. raise legacy_floor_unavailable) r))
      go (ok pointers, (u, v)) same = raised-Imported s u v (ok pointers) pointers same refl floored
      go (err x, (u, v)) same = refused u v (ap (λ (y : Store). y.tables) same)
