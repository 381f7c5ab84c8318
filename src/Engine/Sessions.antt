-- ===== src/Engine/Sessions.antt =====
-- engine/chunkDatabase.ts: the sessions in which queued operations run on the chunk database.
pub mod Batches
pub mod FailClosed
pub mod Refused
use edgeproc_browser.Base.{
  ℕ, suc, zero, Bool, true, false, ◌&&◌, not, Option, none, some, List, [], ◌∷◌, if◌then◌else◌,
  length, ok, err, Outcome, Text, codes, ◌++◌, leb, all_units, ◌||◌, ◌==◌,
}
use edgeproc_browser.Base.Effects.{Exec, ◌>>=◌, pure, lift, each, attempt}
use edgeproc_browser.Engine.Fault.{
  Fault, Result, storage_unavailable, legacy_floor_unavailable, type_error,
}
use edgeproc_browser.Engine.Platform.{Platform}
use edgeproc_browser.Engine.Tables.{new_file}
use edgeproc_browser.Engine.ChunkStore.{Store, open_store, flush}
use edgeproc_browser.Engine.Migration.{
  LegacySource, MigrationReport, on_store, on_legacy, import_legacy_floor, migrate_legacy_stores,
}

-- [a-z], [a-z0-9-]
abbrev pub is_lower : ℕ → Bool
is_lower u = leb b'a' u && leb u b'z'

abbrev pub is_name_unit : ℕ → Bool
is_name_unit u = is_lower u || (leb b'0' u && leb u b'9') || (u == b'-')

-- validatedNamespace: /^[a-z][a-z0-9-]{0,62}$/u
unfoldable pub is_namespace : Text → Bool
is_namespace [] = false
is_namespace (u ∷ rest) = is_lower u && leb (length rest) 62 && all_units is_name_unit rest

unfoldable pub chunk_database_name : Text → Result Text
chunk_database_name namespace =
    if is_namespace namespace
    then ok (namespace ++ codes "-chunks")
    else err (type_error "cache namespace is not valid")

-- Queued. `A` is what its promise resolves to, `W` the browser's storage beside the store.
pub record Queued (W A : Type 0) : Type 0 where
  pub shared : Bool
  pub reset : Bool
  pub operation : Exec Fault (Store × W) A

-- One more operation in front of a queue that has been split at the first that is not shared.
abbrev pub split_before : {A : Type 0} → Bool → A → List A → List A × List A → List A × List A
split_before true q queue rest = (q ∷ rest.0, rest.1)
split_before false q queue rest = ([], q ∷ queue)

-- queue.splice(0, end), where `end` is the first that is not shared, or the length
unfoldable pub leading_shared :
    {W A : Type 0} → List (Queued W A) → List (Queued W A) × List (Queued W A)
leading_shared [] = ([], [])
leading_shared (q ∷ queue) = split_before q.shared q queue (leading_shared queue)

-- `#nextBatch`, with what it leaves in the queue
unfoldable pub next_batch :
    {W A : Type 0} → List (Queued W A) → List (Queued W A) × List (Queued W A)
next_batch [] = ([], [])
next_batch (q ∷ queue) = if not q.shared then (q ∷ [], queue) else leading_shared (q ∷ queue)

-- The batches of the loop of `#session`, on fuel; the length of the queue is enough.
unfoldable pub batches : {W A : Type 0} → ℕ → List (Queued W A) → List (List (Queued W A))
batches zero queue = []
batches (suc fuel) [] = []
batches (suc fuel) (q ∷ queue) = let next = next_batch (q ∷ queue) in next.0 ∷ batches fuel next.1

-- What `openSqlStorage` has opened: OPFS, or memory because the pool is in use or for another reason.
pub data Opened : Type 0 where
  opfs pool_in_use opfs_refused : Opened

-- The answers of the browser when a session opens.
pub record Environment : Type 0 where
  pub opened : Result Opened
  pub persisted_pool_exists : Result Bool

-- ChunkDatabase, with the file that its sessions share and what the browser stores beside it.
pub record Database (W : Type 0) : Type 0 where
  pub file : Store
  pub memory : Option Store
  pub migrated : Bool
  pub legacy : W

-- Session; `floor_refusal` is the error where a floor could not be read.
pub record Session : Type 0 where
  pub in_memory : Bool
  pub store : Store
  pub floor_refusal : Option Fault

-- error instanceof LegacyFloorUnavailableError
unfoldable pub is_floor_unavailable : Fault → Bool
is_floor_unavailable legacy_floor_unavailable = true
is_floor_unavailable _ = false

-- A new database in memory.
abbrev pub new_store : Store
new_store = record { tables = new_file; commits = 0; pending = []; pending_bytes = 0 }

-- try { m } finally { flush }: what the flush throws replaces the outcome
abbrev pub finally_outcome :
    {E S A : Type 0} → Outcome E A → Outcome E (Unit {0}) × S → Outcome E A × S
finally_outcome r (ok u, s) = (r, s)
finally_outcome r (err e, s) = (err e, s)

abbrev pub refused : Option Fault → Bool → Option Fault
refused none reset = none
refused (some e) reset = if reset then none else some e

-- `#legacyFloorInto`
abbrev pub refusal_or_throw : Outcome Fault (Unit {0}) → Result (Option Fault)
refusal_or_throw (ok u) = ok none
refusal_or_throw (err e) = if is_floor_unavailable e then ok (some e) else err e

-- `#refuseBesidePersistedFloor`
unfoldable pub refuse_beside_persisted_floor : Result Bool → Result (Unit {0})
refuse_beside_persisted_floor (err e) = err e
refuse_beside_persisted_floor (ok true) = err (storage_unavailable "opfs-unavailable")
refuse_beside_persisted_floor (ok false) = ok tt

-- `#migrateOnce`: the refusal, and whether the move is done
abbrev pub migration_outcome : Outcome Fault MigrationReport → Option Fault × Bool
migration_outcome (ok report) = (none, true)
migration_outcome (err e) = if is_floor_unavailable e then (some e, false) else (none, false)

abbrev kept_memory : Option Fault → Store → Option Store
kept_memory none s = some s
kept_memory (some _) s = none

module _ {W : Type 0} (disk : ℕ → Option Fault) where
  unfoldable pub with_flush : {A : Type 0} → Exec Fault (Store × W) A → Exec Fault (Store × W) A
  with_flush m x = finally_outcome (m x).0 (on_store (flush disk) (m x).1)

  abbrev pub remove_sources : List (LegacySource W) → Bool → Exec Fault (Store × W) (Unit {0})
  remove_sources sources false = pure tt
  remove_sources sources true =
      each (λ (source : LegacySource W). on_legacy source.remove) sources >>= λ _. pure tt

  abbrev pub run_allowed :
      {A : Type 0}
      → List (LegacySource W)
      → Option Fault
      → Queued W A
      → Exec Fault (Store × W) (Outcome Fault A)
  run_allowed sources (some e) q = pure (err e)
  run_allowed sources none q =
      attempt
        (with_flush q.operation >>= λ value. remove_sources sources q.reset >>= λ _. pure value)

  -- `#runOne`, with what the promise is settled with
  unfoldable pub run_one :
      {A : Type 0}
      → List (LegacySource W)
      → Option Fault
      → Queued W A
      → Exec Fault (Store × W) (Outcome Fault A)
  run_one sources refusal q = run_allowed sources (refused refusal q.reset) q

  -- The operations of a session, batch after batch; those of one batch one after the other.
  unfoldable pub run_session :
      {A : Type 0}
      → List (LegacySource W)
      → Option Fault
      → List (Queued W A)
      → Exec Fault (Store × W) (List (List (Outcome Fault A)))
  run_session sources refusal queue =
      each (each (run_one sources refusal)) (batches (length queue) queue)

  unfoldable pub legacy_floor_into : List (LegacySource W) → Exec Fault (Store × W) (Option Fault)
  legacy_floor_into sources =
      attempt (import_legacy_floor disk sources) >>= λ r. lift (refusal_or_throw r)

  module _ (p : Platform) where
    unfoldable pub migrate_once :
        List (LegacySource W) → Bool → Exec Fault (Store × W) (Option Fault × Bool)
    migrate_once sources true = pure (none, true)
    migrate_once sources false =
        attempt (migrate_legacy_stores disk p sources) >>= λ r. pure (migration_outcome r)

    -- the persistent branch of `#open`, on the file
    unfoldable pub open_persistent :
        List (LegacySource W) → Bool → Exec Fault (Store × W) (Option Fault × Bool)
    open_persistent sources migrated =
        on_store (open_store disk) >>= λ _. migrate_once sources migrated

    -- the memory branch, on a new database
    unfoldable pub open_memory :
        List (LegacySource W) → Result Bool → Exec Fault (Store × W) (Option Fault)
    open_memory sources exists = lift (refuse_beside_persisted_floor exists) >>= λ _.
        on_store (open_store disk) >>= λ _. legacy_floor_into sources

    -- a session on the file, or the error of opening one, and the database after it
    abbrev pub persistent_session :
        Database W
        → Outcome Fault (Option Fault × Bool) × (Store × W)
        → Outcome Fault Session × Database W
    persistent_session db (err e, (s, w)) = (err e, record db { file = s; legacy = w })
    persistent_session db (ok (refusal, migrated), (s, w)) = (
      ok (record { in_memory = false; store = s; floor_refusal = refusal }),
      record db { file = s; legacy = w; migrated = migrated },
    )

    abbrev pub memory_session :
        Database W → Outcome Fault (Option Fault) × (Store × W) → Outcome Fault Session × Database W
    memory_session db (err e, (s, w)) = (err e, record db { legacy = w })
    memory_session db (ok refusal, (s, w)) = (
      ok (record { in_memory = true; store = s; floor_refusal = refusal }),
      record db { memory = kept_memory refusal s; legacy = w },
    )

    abbrev pub open_as :
        List (LegacySource W) → Environment → Result Opened → Exec Fault (Database W) Session
    open_as sources env (err e) db = (err e, db)
    open_as sources env (ok opfs) db =
        persistent_session db (open_persistent sources db.migrated (db.file, db.legacy))
    open_as sources env (ok pool_in_use) db = (err (storage_unavailable "pool-in-use"), db)
    open_as sources env (ok opfs_refused) db =
        memory_session db (open_memory sources env.persisted_pool_exists (new_store, db.legacy))

    abbrev pub open_or_keep :
        List (LegacySource W) → Environment → Option Store → Exec Fault (Database W) Session
    open_or_keep sources env none db = open_as sources env env.opened db
    open_or_keep sources env (some s) db =
        (ok (record { in_memory = true; store = s; floor_refusal = none }), db)

    -- `#open`
    unfoldable pub open_session :
        List (LegacySource W) → Environment → Exec Fault (Database W) Session
    open_session sources env db = open_or_keep sources env db.memory db
