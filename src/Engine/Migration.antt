-- ===== src/Engine/Migration.antt =====
-- engine/migration.ts: the one-time move of the older stores into the chunk database.
pub mod Covers
pub mod Copied
pub mod Removal
pub mod InForce
use edgeproc_browser.Base.{
  ℕ, suc, Bool, true, false, Option, none, some, List, [], ◌∷◌, ◌++◌, ltb, if◌then◌else◌, Text,
  Bytes, text_eq, length, ok, err, Outcome, select,
}
use edgeproc_browser.Base.Table.{Table, put, has, values}
use edgeproc_browser.Base.Effects.{Exec, ◌>>=◌, pure, raise, catch, each}
use edgeproc_browser.Engine.Fault.{Fault, plain, legacy_floor_unavailable}
use edgeproc_browser.Engine.Platform.{Platform, sha256_hex}
use edgeproc_browser.Engine.ActivePointer.{VersionPointer, is_sha256}
use edgeproc_browser.Engine.Zstd.{declared_content_size}
use edgeproc_browser.Engine.Integrity.{decompress_and_verify, max_decompressed_chunk_bytes}
use edgeproc_browser.Engine.Tables.{VerifiedChunk, NamedBytes, MigrationState, done}
use edgeproc_browser.Engine.ChunkStore.{
  Store, raise_legacy_floor, import_legacy, has_chunk, mark_migration_done, migration_state,
  read_floor,
}

-- LegacySnapshot
pub record LegacySnapshot : Type 0 where
  pub chunks : List NamedBytes
  pub manifests : List NamedBytes
  pub pointers : List (Option VersionPointer)

-- LegacySource: methods on what the browser stores, of which the migration knows no more.
pub record LegacySource (W : Type 0) : Type 0 where
  pub read_pointers : Exec Fault W (List (Option VersionPointer))
  pub read : Exec Fault W LegacySnapshot
  pub remove : Exec Fault W (Unit {0})

-- MigrationReport; `migrated` is its state.
pub record MigrationReport : Type 0 where
  pub migrated : Bool
  pub copied_chunks : ℕ
  pub skipped_chunks : ℕ
  pub floor : Option ℕ

-- A method of the store, and one of the browser's storage beside it.
unfoldable pub on_store : {W A : Type 0} → Exec Fault Store A → Exec Fault (Store × W) A
on_store m (s, w) = ((m s).0, ((m s).1, w))

unfoldable pub on_legacy : {W A : Type 0} → Exec Fault W A → Exec Fault (Store × W) A
on_legacy m (s, w) = ((m w).0, (s, (m w).1))

-- Array.prototype.flat
abbrev pub flattened : {A : Type 0} → List (List A) → List A
flattened [] = []
flattened (xs ∷ rest) = xs ++ flattened rest

abbrev pub flat_map : {A B : Type 0} → (A → List B) → List A → List B
flat_map f [] = []
flat_map f (a ∷ rest) = f a ++ flat_map f rest

module _ (p : Platform) where
  abbrev size_if_verified : Text → Bytes → ℕ → Outcome Fault Bytes → Option ℕ
  size_if_verified hash body size (ok _) = some size
  size_if_verified hash body size (err _) = none

  abbrev size_of_declared : Text → Bytes → Option ℕ → Option ℕ
  size_of_declared hash body none = none
  size_of_declared hash body (some size) =
      if ltb max_decompressed_chunk_bytes size
      then none
      else size_if_verified hash body size (decompress_and_verify p hash body size)

  unfoldable pub verified_size : Text → Bytes → Option ℕ
  verified_size hash body =
      if is_sha256 hash then size_of_declared hash body (declared_content_size body) else none

  -- one round of the loop of `verifiedChunks`
  abbrev pub verified_step :
      Table VerifiedChunk × ℕ → NamedBytes → Option ℕ → Table VerifiedChunk × ℕ
  verified_step (chunks, skipped) entry none = (chunks, suc skipped)
  verified_step (chunks, skipped) entry (some size) = (
    put chunks entry.hash (record { hash = entry.hash; size = size; body = entry.body }),
    skipped,
  )

  unfoldable pub verified_from : Table VerifiedChunk × ℕ → List NamedBytes → Table VerifiedChunk × ℕ
  verified_from found [] = found
  verified_from found (entry ∷ rest) =
      verified_from
        (if has found.0 entry.hash
          then found
          else verified_step found entry (verified_size entry.hash entry.body))
        rest

  unfoldable pub verified_chunks : List LegacySnapshot → List VerifiedChunk × ℕ
  verified_chunks snapshots =
      let found = verified_from ([], 0) (flat_map (λ item. item.chunks) snapshots) in
      (values found.0, found.1)

  unfoldable pub verified_manifests : List LegacySnapshot → List NamedBytes
  verified_manifests snapshots =
      select (λ entry. text_eq (sha256_hex p entry.body) entry.hash)
        (flat_map (λ item. item.manifests) snapshots)

-- catch (error) { throw new LegacyFloorUnavailableError(error) }
abbrev pub as_unavailable : {S A : Type 0} → Exec Fault S A → Exec Fault S A
as_unavailable m = catch m (λ e. raise legacy_floor_unavailable)

module _ {W : Type 0} where
  unfoldable pub read_legacy_pointers :
      List (LegacySource W) → Exec Fault (Store × W) (List (Option VersionPointer))
  read_legacy_pointers sources =
      each (λ (source : LegacySource W). on_legacy source.read_pointers) sources >>= λ found.
      pure (flattened found)

  unfoldable pub assert_copied : VerifiedChunk → Exec Fault (Store × W) (Unit {0})
  assert_copied chunk = on_store (has_chunk chunk.hash) >>= λ present.
      (if present then pure tt else raise (plain "migrated chunk is missing after commit"))

module _ {W : Type 0} (disk : ℕ → Option Fault) where
  unfoldable pub import_legacy_floor : List (LegacySource W) → Exec Fault (Store × W) (Unit {0})
  import_legacy_floor sources = as_unavailable (read_legacy_pointers sources) >>= λ pointers.
      as_unavailable (on_store (raise_legacy_floor disk pointers))

  module _ (p : Platform) where
    -- `migrateLegacyStores` once the floor is in force, up to the check of what has been committed
    unfoldable pub copy_snapshots :
        List (LegacySource W) → Exec Fault (Store × W) (List VerifiedChunk × ℕ)
    copy_snapshots sources =
        each (λ (source : LegacySource W). on_legacy source.read) sources >>= λ snapshots.
        on_store (
          import_legacy disk (record {
            chunks = (verified_chunks p snapshots).0;
            manifests = verified_manifests p snapshots;
            pointers = flat_map (λ item. item.pointers) snapshots;
          }))
        >>= λ _. each assert_copied (verified_chunks p snapshots).0 >>= λ _.
            pure (verified_chunks p snapshots)

    unfoldable pub copy_legacy :
        List (LegacySource W) → Exec Fault (Store × W) (List VerifiedChunk × ℕ)
    copy_legacy sources = import_legacy_floor sources >>= λ _. copy_snapshots sources

    -- the rest of it: the older stores are removed, and the move is recorded as done
    unfoldable pub finish_migration :
        List (LegacySource W) → List VerifiedChunk × ℕ → Exec Fault (Store × W) MigrationReport
    finish_migration sources (chunks, skipped) =
        each (λ (source : LegacySource W). on_legacy source.remove) sources >>= λ _.
        on_store (mark_migration_done disk) >>= λ _. on_store read_floor >>= λ floor. pure (record {
          migrated = true;
          copied_chunks = length chunks;
          skipped_chunks = skipped;
          floor = floor;
        })

    abbrev pub migrate_from :
        List (LegacySource W) → MigrationState → Exec Fault (Store × W) MigrationReport
    migrate_from sources done = on_store read_floor >>= λ floor.
        pure (record { migrated = false; copied_chunks = 0; skipped_chunks = 0; floor = floor })
    migrate_from sources _ = copy_legacy sources >>= finish_migration sources

    unfoldable pub migrate_legacy_stores :
        List (LegacySource W) → Exec Fault (Store × W) MigrationReport
    migrate_legacy_stores sources = on_store migration_state >>= migrate_from sources
