-- ===== src/Engine/Migration/InForce.antt =====
-- engine/migration.ts: the older floors are in force whenever a migration throws anything but its one
-- error, or nothing.
use edgeproc_browser.Base.{
  ◌≢◌, ℕ, ◌≡◌, ◌⊎◌, inl, inr, refl, Bool, true, false, Option, none, List, [], ◌∷◌, ok, err,
  Outcome, if◌then◌else◌,
}
use edgeproc_browser.Base.Effects.{Exec, ◌>>=◌, after, pure, raise, each}
use edgeproc_browser.Engine.Fault.{plain, Fault, legacy_floor_unavailable}
use edgeproc_browser.Engine.Platform.{Platform}
use edgeproc_browser.Engine.ActivePointer.{VersionPointer}
use edgeproc_browser.Engine.FloorGate.Admitted.{AtMost, AtMost-refl}
use edgeproc_browser.Engine.FloorGate.Covered.{IsFloored}
use edgeproc_browser.Engine.Tables.{
  VerifiedChunk, read_row, MigrationState, not_migrated, copied, done,
}
use edgeproc_browser.Engine.ChunkStore.{
  LegacyImport, Store, import_legacy, migration_state, read_floor,
}
use edgeproc_browser.Engine.ChunkStore.Steady.{has_chunk-Fixes, mark_migration_done-Fixes}
use edgeproc_browser.Engine.ChunkStore.Floor.{
  floor_of, transaction-Rises, import_work-Rises, Rises, Rises-bind, Fixes-Rises, lift-Rises,
}
use edgeproc_browser.Engine.Migration.{
  copy_snapshots, LegacySource, MigrationReport, on_store, on_legacy, read_legacy_pointers,
  import_legacy_floor, assert_copied, copy_legacy, finish_migration, migrate_from,
  migrate_legacy_stores,
}
use edgeproc_browser.Engine.Migration.Covers.{
  IsCovered, Imported, in_force, refused, import_legacy_floor-Imported,
}
use edgeproc_browser.Engine.Migration.Copied.{IsCovered-raise}

import_legacy-Rises :
    (disk : ℕ → Option Fault) (input : LegacyImport) → Rises floor_of (import_legacy disk input)
unfolding import_legacy
import_legacy-Rises disk input = transaction-Rises disk _ (import_work-Rises input)

module _ {W : Type 0} where
  abbrev floor_at : Store × W → Option ℕ
  floor_at x = floor_of x.0

  on_store-Rises :
      {A : Type 0} (m : Exec Fault Store A) → Rises floor_of m → Rises floor_at (on_store m)
  unfolding on_store
  on_store-Rises m k = record { at = λ x. k.at x.0 }

  on_legacy-Rises : {A : Type 0} (m : Exec Fault W A) → Rises floor_at (on_legacy m)
  unfolding on_legacy
  on_legacy-Rises m = record { at = λ x. AtMost-refl _ }

  each-Rises :
      {A B : Type 0} (f : A → Exec Fault (Store × W) B) (xs : List A)
      → ((a : A) → Rises floor_at (f a))
      → Rises floor_at (each f xs)
  unfolding each
  each-Rises f [] k = lift-Rises (ok [])
  each-Rises f (a ∷ xs) k =
      Rises-bind _ _ (k a) λ b. Rises-bind _ _ (each-Rises f xs k) λ bs. lift-Rises (ok (b ∷ bs))

  assert_copied-Rises : (c : VerifiedChunk) → Rises floor_at (assert_copied c)
  unfolding assert_copied
  assert_copied-Rises c =
      Rises-bind _ _ (on_store-Rises _ (Fixes-Rises _ (has_chunk-Fixes (λ n. none) c.hash)))
        λ present. record { at = λ x. go present x }
    where
      go :
          (b : Bool) (x : Store × W)
          → AtMost (floor_at x) (
              floor_at
                ((if b then pure tt else raise (plain "migrated chunk is missing after commit"))
                  x).1)
      go true x = AtMost-refl _
      go false x = AtMost-refl _

  finish-Rises :
      (disk : ℕ → Option Fault) (p : Platform) (sources : List (LegacySource W))
      (found : List VerifiedChunk × ℕ)
      → Rises floor_at (finish_migration disk p sources found)
  unfolding finish_migration read_floor
  finish-Rises disk p sources (chunks, skipped) =
      Rises-bind _ _ (each-Rises _ sources λ source. on_legacy-Rises source.remove) λ _.
        Rises-bind _ _ (on_store-Rises _ (Fixes-Rises _ (mark_migration_done-Fixes disk))) λ _.
          Rises-bind _ _ (on_store-Rises _ (record { at = λ s. AtMost-refl _ }))
            λ floor. lift-Rises (ok _)

  copy_snapshots-Rises :
      (disk : ℕ → Option Fault) (p : Platform) (sources : List (LegacySource W))
      → Rises floor_at (copy_snapshots disk p sources)
  unfolding copy_snapshots
  copy_snapshots-Rises disk p sources =
      Rises-bind _ _ (each-Rises _ sources λ source. on_legacy-Rises source.read) λ snapshots.
        Rises-bind _ _ (on_store-Rises _ (import_legacy-Rises disk _))
          λ _. Rises-bind _ _ (each-Rises _ _ assert_copied-Rises) λ _. lift-Rises (ok _)

-- The pointers of the older stores have been read, and the floor is at or above each.
abbrev pub IsInForce : {W : Type 0} → List (LegacySource W) → W → Store → Type 0
IsInForce {W} sources w t =
    (s : Store) × (pointers : List (Option VersionPointer)) × ((read_legacy_pointers sources
        (s, w)).0
      ≡ ok pointers)
    × IsCovered pointers (floor_of t)

module _ {W : Type 0} (disk : ℕ → Option Fault) (p : Platform)
    (sources : List (LegacySource W)) where
  -- What a run of the migration leaves, if it threw anything but the one error.
  abbrev pub InForceOr : W → Outcome Fault MigrationReport × (Store × W) → Type 0
  InForceOr w r = (r.0 ≡ err legacy_floor_unavailable) ⊎ IsInForce sources w r.1.0

  copying-InForceOr :
      (s : Store) (w : W)
      → IsFloored (read_row s.tables)
      → InForceOr w ((copy_legacy disk p sources >>= finish_migration disk p sources) (s, w))
  unfolding copy_legacy ◌>>=◌
  copying-InForceOr s w floored =
      go (import_legacy_floor disk sources (s, w))
        (import_legacy_floor-Imported disk sources s w floored)
    where
      rest : Exec Fault (Store × W) MigrationReport
      rest = copy_snapshots disk p sources >>= finish_migration disk p sources

      rest-Rises : Rises floor_at rest
      rest-Rises =
          Rises-bind _ _ (copy_snapshots-Rises disk p sources) (finish-Rises disk p sources)

      go :
          (r : Outcome Fault (Unit {0}) × (Store × W))
          → Imported disk s (read_legacy_pointers sources (s, w)).0 r
          → InForceOr w (
              after
                (finish_migration disk p sources)
                (after (λ _. copy_snapshots disk p sources) r))
      go _ (in_force pointers t v read covered) =
          inr (s, pointers, read, IsCovered-raise pointers _ _ (rest-Rises.at (t, v)) covered)
      go _ (refused t v kept) = inl refl

  pub migrate-InForceOr :
      (s : Store) (w : W)
      → IsFloored (read_row s.tables)
      → s.tables.legacy_migration ≢ done
      → InForceOr w (migrate_legacy_stores disk p sources (s, w))
  unfolding migrate_legacy_stores on_store migration_state ◌>>=◌
  migrate-InForceOr s w floored pending = go s.tables.legacy_migration pending
    where
      go :
          (state : MigrationState)
          → state ≢ done
          → InForceOr w (migrate_from disk p sources state (s, w))
      go done ne = absurd (ne refl)
      go not_migrated ne = copying-InForceOr s w floored
      go copied ne = copying-InForceOr s w floored
