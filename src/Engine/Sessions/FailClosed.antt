-- ===== src/Engine/Sessions/FailClosed.antt =====
-- engine/chunkDatabase.ts: no operation runs without the floor that must be in force.
use edgeproc_browser.Base.{
  ◌≢◌, ℕ, ◌≡◌, inl, inr, refl, sym, ap, subst, Bool, true, false, Option, none, some, List, ok, err,
  Outcome,
}
use edgeproc_browser.Base.Effects.{
  Fixes-bind, Fixes-raise, Fixes-if, ◌>>=◌, after, attempt, lift, Fixes,
}
use edgeproc_browser.Base.Returns.{Returns, returned, threw}
use edgeproc_browser.Engine.Fault.{Fault, Result, legacy_floor_unavailable}
use edgeproc_browser.Engine.Platform.{Platform}
use edgeproc_browser.Engine.FloorGate.Covered.{IsFloored}
use edgeproc_browser.Engine.Tables.{floor_row, PointerRow, read_row, MigrationState, done}
use edgeproc_browser.Engine.ChunkStore.{
  clear_pending, chunk_schema_version, transaction, Store, open_store,
}
use edgeproc_browser.Engine.ChunkStore.Steady.{transaction-cases, open_store-Fixes}
use edgeproc_browser.Engine.Migration.{
  LegacySource, MigrationReport, on_store, read_legacy_pointers,
}
use edgeproc_browser.Engine.Migration.Covers.{
  Imported, in_force, refused, import_legacy_floor-Imported,
}
use edgeproc_browser.Engine.Migration.InForce.{IsInForce, InForceOr, migrate-InForceOr}
use edgeproc_browser.Engine.Sessions.{
  open_or_keep, memory_session, open_as, opfs, pool_in_use, opfs_refused, Opened,
  persistent_session, Session, Database, Environment, open_session, new_store, is_floor_unavailable,
  open_memory, open_persistent, migrate_once, migration_outcome, legacy_floor_into,
  refusal_or_throw, refuse_beside_persisted_floor,
}

abbrev migration_of : Store → MigrationState
migration_of s = s.tables.legacy_migration

cleared-Fixes : Fixes migration_of clear_pending
unfolding clear_pending
cleared-Fixes = record { at = λ s. refl }

created-Fixes :
    (disk : ℕ → Option Fault)
    → Fixes migration_of
        (transaction disk (λ t. (ok tt, record t { user_version = chunk_schema_version })))
created-Fixes disk = record {
  at = λ s.
      transaction-cases disk (λ r. migration_of r.1 ≡ migration_of s) _ s (λ e n. refl)
        λ v t e _. ap (λ r. r.1.legacy_migration) (sym e);
}

open_store-migration : (disk : ℕ → Option Fault) → Fixes migration_of (open_store disk)
unfolding open_store
open_store-migration disk = record {
  at = λ s.
      (Fixes-if _ _ _ (Fixes-raise _) (
          Fixes-if _ _ _ (Fixes-bind _ _ (created-Fixes disk) λ _. cleared-Fixes) cleared-Fixes)).at
        s;
}

module _ {W : Type 0} (disk : ℕ → Option Fault) (p : Platform)
    (sources : List (LegacySource W)) where
  unavailable_refuses :
      (r : Outcome Fault MigrationReport)
      → r ≡ err legacy_floor_unavailable
      → (migration_outcome r).0 ≡ some legacy_floor_unavailable
  unfolding is_floor_unavailable
  unavailable_refuses r e = rw e refl

  clash : (o : Option Fault) → o ≡ some legacy_floor_unavailable → o ≡ none → ⊥
  clash none e h = cc
  clash (some x) e h = cc

  settled :
      (w : W) (r : Outcome Fault MigrationReport × (Store × W))
      → InForceOr disk p sources w r
      → Returns {E = Fault}
          (λ found y. found.0 ≡ none → IsInForce sources w y.0)
          (ok (migration_outcome r.0), r.1)
  settled w r (inl e) = returned (λ h. absurd (clash _ (unavailable_refuses r.0 e) h))
  settled w r (inr covered) = returned (λ h. covered)

  -- A persistent session that is not refused has the older floors in force.
  opened-IsInForce :
      (s : Store) (w : W) (r : Outcome Fault (Unit {0}) × Store)
      → IsFloored (read_row r.1.tables)
      → r.1.tables.legacy_migration ≢ done
      → Returns
          (λ found y. found.0 ≡ none → IsInForce sources w y.0)
          (after (λ _. migrate_once disk p sources false) (r.0, (r.1, w)))
  unfolding migrate_once ◌>>=◌ attempt
  opened-IsInForce s w (err e, t) floored ne = threw
  opened-IsInForce s w (ok u, t) floored ne =
      settled w _ (migrate-InForceOr disk p sources t w floored ne)

  open_persistent-IsInForce :
      (s : Store) (w : W)
      → IsFloored (read_row s.tables)
      → s.tables.legacy_migration ≢ done
      → Returns
          (λ found y. found.0 ≡ none → IsInForce sources w y.0)
          (open_persistent disk p sources false (s, w))
  unfolding open_persistent ◌>>=◌ on_store read_row
  open_persistent-IsInForce s w floored ne =
      opened-IsInForce s w (open_store disk s)
        (subst (λ (o : Option PointerRow). IsFloored (floor_row o))
          (sym ((open_store-Fixes disk).at s)) floored)
        (subst (λ (m : MigrationState). m ≢ done) (sym ((open_store-migration disk).at s)) ne)

  -- A memory session opens only where no pool is on disk; one that is not refused has the floors too.
  floor_into-IsInForce :
      (s : Store) (w : W) (r : Outcome Fault (Unit {0}) × (Store × W))
      → Imported disk s (read_legacy_pointers sources (s, w)).0 r
      → Returns
          (λ refusal y. refusal ≡ none → IsInForce sources w y.0)
          (after (λ x. lift (refusal_or_throw x)) (ok r.0, r.1))
  unfolding is_floor_unavailable
  floor_into-IsInForce s w _ (in_force pointers t v read covered) =
      returned (λ h. (s, pointers, read, covered))
  floor_into-IsInForce s w _ (refused t v kept) = returned (λ h. absurd (cc))

  into_opened-IsInForce :
      (w : W) (r : Outcome Fault (Unit {0}) × Store)
      → IsFloored (read_row r.1.tables)
      → Returns
          (λ refusal y. refusal ≡ none → IsInForce sources w y.0)
          (after (λ _. legacy_floor_into disk sources) (r.0, (r.1, w)))
  unfolding legacy_floor_into ◌>>=◌ attempt
  into_opened-IsInForce w (err e, t) floored = threw
  into_opened-IsInForce w (ok u, t) floored =
      floor_into-IsInForce t w _ (import_legacy_floor-Imported disk sources t w floored)

  open_memory-IsInForce :
      (s : Store) (w : W) (exists : Result Bool)
      → IsFloored (read_row s.tables)
      → Returns
          (λ refusal y. (exists ≡ ok false) × (refusal ≡ none → IsInForce sources w y.0))
          (open_memory disk p sources exists (s, w))
  unfolding open_memory refuse_beside_persisted_floor ◌>>=◌ on_store read_row
  open_memory-IsInForce s w (err e) floored = threw
  open_memory-IsInForce s w (ok true) floored = threw
  open_memory-IsInForce s w (ok false) floored = weakened _ (
      into_opened-IsInForce w (open_store disk s) (
        subst (λ (o : Option PointerRow). IsFloored (floor_row o))
          (sym ((open_store-Fixes disk).at s)) floored))
    where
      weakened :
          (r : Outcome Fault (Option Fault) × (Store × W))
          → Returns (λ refusal y. refusal ≡ none → IsInForce sources w y.0) r
          → Returns
              (λ refusal y.
                (◌≡◌ {A = Result Bool} (ok false) (ok false))
                × (refusal ≡ none → IsInForce sources w y.0))
              r
      weakened (ok a, y) (returned h) = returned (refl, h)
      weakened (err e, y) threw = threw

  -- What holds of a session that opened: in memory only where OPFS refused and no pool of this database
  -- is on disk; and if it is not refused, the floor of its store covers the older stores' pointers.
  pub record IsGuarded (env : Environment) (w : W) (session : Session) : Type 0 where
    pub alone :
        session.in_memory ≡ true
        → (env.opened ≡ ok opfs_refused) × (env.persisted_pool_exists ≡ ok false)
    pub in_force : session.floor_refusal ≡ none → IsInForce sources w session.store

  new_store-IsFloored : IsFloored (read_row new_store.tables)
  unfolding read_row
  new_store-IsFloored q h = absurd (cc)

  persistent-IsGuarded :
      (env : Environment) (db : Database W) (r : Outcome Fault (Option Fault × Bool) × (Store × W))
      → Returns (λ found y. found.0 ≡ none → IsInForce sources db.legacy y.0) r
      → Returns (λ session _. IsGuarded env db.legacy session) (persistent_session disk p db r)
  persistent-IsGuarded env db (ok (refusal, migrated), y) (returned h) =
      returned (record { alone = λ e. absurd (cc); in_force = h })
  persistent-IsGuarded env db (err e, y) threw = threw

  memory-IsGuarded :
      (env : Environment) (db : Database W) (r : Outcome Fault (Option Fault) × (Store × W))
      → env.opened ≡ ok opfs_refused
      → Returns
          (λ refusal y.
            (env.persisted_pool_exists ≡ ok false)
            × (refusal ≡ none → IsInForce sources db.legacy y.0))
          r
      → Returns (λ session _. IsGuarded env db.legacy session) (memory_session disk p db r)
  memory-IsGuarded env db (ok refusal, y) e (returned (absent, h)) =
      returned (record { alone = λ _. (e, absent); in_force = h })
  memory-IsGuarded env db (err x, y) e threw = threw

  -- A session opens, where none is kept in memory, the move is still to be done, and the floor of the
  -- database on disk is at or above its own pointer: in memory only if OPFS refused and no pool of this
  -- database is on disk, never because the pool is in use; and unless it carries a refusal, its floor
  -- is at or above every pointer that the older stores hold.
  pub open_session-IsGuarded :
      (env : Environment) (db : Database W)
      → db.memory ≡ none
      → db.migrated ≡ false
      → IsFloored (read_row db.file.tables)
      → db.file.tables.legacy_migration ≢ done
      → Returns (λ session _. IsGuarded env db.legacy session) (open_session disk p sources env db)
  unfolding open_session
  open_session-IsGuarded env db empty pending floored ne = kept db.memory empty
    where
      unmoved :
          (b : Bool)
          → b ≡ false
          → Returns
              (λ session _. IsGuarded env db.legacy session)
              (persistent_session disk p db (open_persistent disk p sources b (db.file, db.legacy)))
      unmoved true e = absurd (cc)
      unmoved false e =
          persistent-IsGuarded env db _ (open_persistent-IsInForce db.file db.legacy floored ne)

      go :
          (r : Result Opened)
          → env.opened ≡ r
          → Returns (λ session _. IsGuarded env db.legacy session) (open_as disk p sources env r db)
      go (err e) k = threw
      go (ok opfs) k = unmoved db.migrated pending
      go (ok pool_in_use) k = threw
      go (ok opfs_refused) k =
          memory-IsGuarded env db _ k (
            open_memory-IsInForce new_store db.legacy env.persisted_pool_exists new_store-IsFloored)

      kept :
          (o : Option Store)
          → o ≡ none
          → Returns
              (λ session _. IsGuarded env db.legacy session)
              (open_or_keep disk p sources env o db)
      kept none e = go env.opened refl
      kept (some s) e = absurd (cc)
