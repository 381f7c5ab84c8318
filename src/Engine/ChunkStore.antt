-- ===== src/Engine/ChunkStore.antt =====
-- engine/sqliteStore.ts: the content-addressed store over the tables.
pub mod Steady
pub mod Promoted
pub mod Floor
pub mod AsHost
pub mod History
pub mod Served
pub mod Stored
pub mod Pruned
use edgeproc_browser.Base.{
  ℕ, suc, ◌+◌, ◌*◌, Bool, true, false, ◌||◌, not, Option, none, some, List, [], ◌∷◌, ltb, leb, ◌==◌,
  if◌then◌else◌, Text, Bytes, text_eq, length, ok, err, Outcome, codes,
}
use edgeproc_browser.Base.Table.{Table, get, put, remove, has, values, contains, add}
use edgeproc_browser.Base.Effects.{Exec, ◌>>=◌, ◌>>◌, pure, raise, lift, attempt}
use edgeproc_browser.Engine.Json.{Json, array, items, property, as_object, as_string}
use edgeproc_browser.Engine.Fault.{
  Fault, Result, integrity, rollback, plain, is_integrity, below_floor,
}
use edgeproc_browser.Engine.Platform.{Platform, sha256_hex}
use edgeproc_browser.Engine.Integrity.{decompress_and_verify}
use edgeproc_browser.Engine.ActivePointer.{VersionPointer, same_pointer, is_sha256}
use edgeproc_browser.Engine.FloorGate.{FloorRow, admits, install_pointer, merge_legacy_floor}
use edgeproc_browser.Engine.Tables.{
  Tables, Cell, blob, other_kind, ChunkRow, VerifiedChunk, NamedBytes, MigrationState, done,
  insert_rows, insert_manifests, upsert_manifest, read_row, write_row, assert_present, keep_only,
  marked_copied,
}

-- The constants of sqliteStore.ts.
abbrev pub chunk_schema_version : ℕ
chunk_schema_version = 1

abbrev pub max_compressed_chunk_bytes : ℕ
max_compressed_chunk_bytes = 2 * 1024 * 1024

abbrev pub max_manifest_bytes : ℕ
max_manifest_bytes = 1024 * 1024

abbrev pub flush_chunks : ℕ
flush_chunks = 64

abbrev pub flush_bytes : ℕ
flush_bytes = 8 * 1024 * 1024

-- SqliteCacheStore over its connection; `commits` counts the write transactions that came to COMMIT.
pub record Store : Type 0 where
  pub tables : Tables
  pub commits : ℕ
  pub pending : Table VerifiedChunk
  pub pending_bytes : ℕ

-- LegacyImport
pub record LegacyImport : Type 0 where
  pub chunks : List VerifiedChunk
  pub manifests : List NamedBytes
  pub pointers : List (Option VersionPointer)

-- `#clearPending`
unfoldable pub clear_pending : Exec Fault Store (Unit {0})
clear_pending s = (ok tt, record s { pending = []; pending_bytes = 0 })

-- a read outside of a transaction
abbrev pub reads : {A : Type 0} → (Tables → A) → Exec Fault Store A
reads f s = (ok (f s.tables), s)

abbrev pub gated : FloorRow → Option VersionPointer → Option VersionPointer
gated row none = none
gated row (some pointer) = if admits row pointer then some pointer else none

unfoldable pub read_active : Exec Fault Store (Option VersionPointer)
read_active = reads λ t. gated (read_row t) (read_row t).pointer

unfoldable pub read_floor : Exec Fault Store (Option ℕ)
read_floor = reads λ t. (read_row t).floor_sequence

unfoldable pub has_chunk : Text → Exec Fault Store Bool
has_chunk hash s = (ok (has s.pending hash || has s.tables.chunk hash), s)

unfoldable pub migration_state : Exec Fault Store MigrationState
migration_state = reads λ t. t.legacy_migration

-- The loops of `activeChunkHashes`; `none` is null.
unfoldable pub chunk_hashes : List Text → List Json → Option (List Text)
chunk_hashes hashes [] = some hashes
chunk_hashes hashes (chunk ∷ rest) = elim (as_object chunk) [
  | none ↦ none
  | some ms ↦ elim (as_string (property ms (codes "hash"))) [
    | none ↦ none
    | some hash ↦ if is_sha256 hash then chunk_hashes (add hashes hash) rest else none
  ]
]

abbrev pub array_of : Option Json → Option (List Json)
array_of (some (array vs)) = some (items vs)
array_of _ = none

unfoldable pub file_hashes : List Text → List Json → Option (List Text)
file_hashes hashes [] = some hashes
file_hashes hashes (file ∷ rest) = elim (as_object file) [
  | none ↦ none
  | some ms ↦ elim (array_of (property ms (codes "chunks"))) [
    | none ↦ none
    | some chunks ↦ elim (chunk_hashes hashes chunks) [
      | none ↦ none
      | some more ↦ file_hashes more rest
    ]
  ]
]

unfoldable pub active_chunk_hashes : Json → Option (List Text)
active_chunk_hashes manifest = elim (as_object manifest) [
  | none ↦ none
  | some ms ↦ elim (array_of (property ms (codes "files"))) [
    | none ↦ none
    | some files ↦ file_hashes [] files
  ]
]

-- chunks !== undefined && assertPresent(chunks)
abbrev pub assert_listed : Option (List Text) → Tables → Result (Unit {0})
assert_listed none t = ok tt
assert_listed (some chunks) t = assert_present chunks t

abbrev pub assert_admitted : Bool → Result (Unit {0})
assert_admitted true = ok tt
assert_admitted false = err (rollback below_floor)

-- the work of `promote`
unfoldable pub promote_work :
    List VerifiedChunk → VersionPointer → Option (List Text) → Exec Fault Tables (Unit {0})
promote_work pending pointer chunks t =
    let inserted = insert_rows pending t in
    let row = read_row inserted in
    (lift (assert_listed chunks inserted)
        >> lift (assert_admitted (admits row pointer))
        >> write_row (install_pointer row pointer))
      inserted

unfoldable pub clear_active_if_work : VersionPointer → Exec Fault Tables Bool
clear_active_if_work expected t =
    let row = read_row t in
    if same_pointer row.pointer expected
    then (write_row (record row { pointer = none }) >>= λ _. pure true) t
    else (ok false, t)

-- the deletes of `pruneInactive`
unfoldable pub prune_work : List Text → Text → Exec Fault Tables (Unit {0})
prune_work keep manifest_hash t = (
  ok tt,
  record t {
    chunk = keep_only (contains keep) t.chunk;
    manifest = keep_only (λ hash. text_eq hash manifest_hash) t.manifest;
  },
)

unfoldable pub note_copied : Exec Fault Tables (Unit {0})
note_copied t = (ok tt, record t { legacy_migration = marked_copied t.legacy_migration })

unfoldable pub import_work : LegacyImport → Exec Fault Tables (Unit {0})
import_work input t =
    let inserted = insert_manifests input.manifests (insert_rows input.chunks t) in
    (write_row (merge_legacy_floor (read_row inserted) input.pointers) >> note_copied) inserted

unfoldable pub raise_work : List (Option VersionPointer) → Exec Fault Tables (Unit {0})
raise_work pointers t = write_row (merge_legacy_floor (read_row t) pointers) t

-- `disk`: what the n-th COMMIT throws, if it fails
module _ (disk : ℕ → Option Fault) where
  abbrev pub settled : {A : Type 0} → Store → A → Tables → Option Fault → Outcome Fault A × Store
  settled s a t (some e) = (err e, record s { commits = suc s.commits })
  settled s a t none = (ok a, record s { tables = t; commits = suc s.commits })

  abbrev pub committed : {A : Type 0} → Store → Outcome Fault A × Tables → Outcome Fault A × Store
  committed s (err e, t) = (err e, s)
  committed s (ok a, t) = settled s a t (disk s.commits)

  -- BEGIN IMMEDIATE … COMMIT, or one statement by itself: what throws leaves the tables as they were
  unfoldable pub transaction : {A : Type 0} → Exec Fault Tables A → Exec Fault Store A
  transaction work s = committed s (work s.tables)

  unfoldable pub flush : Exec Fault Store (Unit {0})
  flush s =
      (if length s.pending == 0
          then pure tt
          else (transaction (λ t. (ok tt, insert_rows (values s.pending) t)) >> clear_pending))
        s

  -- SqliteCacheStore.open: the tables are created if they are not there
  unfoldable pub open_store : Exec Fault Store (Unit {0})
  open_store s =
      (if ltb chunk_schema_version s.tables.user_version
          then raise (plain "chunk store schema is newer than this build")
          else if ltb s.tables.user_version chunk_schema_version
          then (transaction (λ t. (ok tt, record t { user_version = chunk_schema_version }))
              >> clear_pending)
          else clear_pending)
        s

  unfoldable pub promote : VersionPointer → Option (List Text) → Exec Fault Store (Unit {0})
  promote pointer chunks s =
      (transaction (promote_work (values s.pending) pointer chunks) >> clear_pending) s

  unfoldable pub clear_active_if : VersionPointer → Exec Fault Store Bool
  clear_active_if expected = transaction (clear_active_if_work expected)

  -- PRAGMA incremental_vacuum: no row changes
  unfoldable pub incremental_vacuum : Exec Fault Store (Unit {0})
  incremental_vacuum = transaction (pure tt)

  unfoldable pub clear : Exec Fault Store (Unit {0})
  clear =
      clear_pending
      >> transaction (λ t. (ok tt, record t { chunk = []; manifest = []; active_pointer = none }))
      >> incremental_vacuum

  unfoldable pub import_legacy : LegacyImport → Exec Fault Store (Unit {0})
  import_legacy input = transaction (import_work input)

  unfoldable pub raise_legacy_floor : List (Option VersionPointer) → Exec Fault Store (Unit {0})
  raise_legacy_floor pointers = transaction (raise_work pointers)

  unfoldable pub mark_migration_done : Exec Fault Store (Unit {0})
  mark_migration_done = transaction λ t. (ok tt, record t { legacy_migration = done })

  -- DELETE FROM chunk WHERE hash = ?
  unfoldable pub evict_chunk : Text → Exec Fault Store (Unit {0})
  evict_chunk hash = transaction λ t. (ok tt, record t { chunk = remove t.chunk hash })

  unfoldable pub evict_manifest : Text → Exec Fault Store (Unit {0})
  evict_manifest hash = transaction λ t. (ok tt, record t { manifest = remove t.manifest hash })

  module _ (p : Platform) where
    -- `putChunkCompressed`, once the chunk is verified
    unfoldable pub hold : VerifiedChunk → Exec Fault Store (Unit {0})
    hold c s = (
      ok tt,
      record s {
        pending = put s.pending c.hash c;
        pending_bytes = s.pending_bytes + length c.body;
      },
    )

    unfoldable pub flush_if_full : Exec Fault Store (Unit {0})
    flush_if_full s =
        (if leb flush_chunks (length s.pending) || leb flush_bytes s.pending_bytes
            then flush
            else pure tt)
          s

    unfoldable pub buffer_chunk : VerifiedChunk → Exec Fault Store (Unit {0})
    buffer_chunk c s = (if has s.pending c.hash then pure tt else (hold c >> flush_if_full)) s

    unfoldable pub put_chunk_compressed : Text → Bytes → ℕ → Exec Fault Store (Unit {0})
    put_chunk_compressed hash compressed expected_size =
        if length compressed == 0
        then raise (integrity "compressed chunk must not be empty")
        else if ltb max_compressed_chunk_bytes (length compressed)
        then raise (integrity "compressed chunk exceeds the store read cap")
        else (lift (decompress_and_verify p hash compressed expected_size) >>= λ _.
            buffer_chunk (record { hash = hash; size = expected_size; body = compressed }))

    -- the checks of `getChunk` on the body of the row
    unfoldable pub checked_body : Text → ℕ → Cell → Result Bytes
    checked_body hash expected_size other_kind = err (integrity "chunk is empty or not a BLOB")
    checked_body hash expected_size (blob body) =
        if length body == 0
        then err (integrity "chunk is empty or not a BLOB")
        else if ltb max_compressed_chunk_bytes (length body)
        then err (integrity "chunk exceeds the read cap")
        else decompress_and_verify p hash body expected_size

    -- the catch of `getChunk`
    unfoldable pub healed : Text → Result Bytes → Exec Fault Store Bytes
    healed hash (ok bytes) = pure bytes
    healed hash (err e) = if is_integrity e then evict_chunk hash >> raise e else raise e

    abbrev pub found_chunk : Text → ℕ → Option ChunkRow → Exec Fault Store Bytes
    found_chunk hash expected_size none = raise (plain "chunk not in store")
    found_chunk hash expected_size (some row) =
        healed hash (checked_body hash expected_size row.body)

    unfoldable pub read_chunk : Text → ℕ → Exec Fault Store Bytes
    read_chunk hash expected_size s = found_chunk hash expected_size (get s.tables.chunk hash) s

    unfoldable pub get_chunk : Text → ℕ → Exec Fault Store Bytes
    get_chunk hash expected_size = flush >> read_chunk hash expected_size

    unfoldable pub put_manifest : Bytes → Exec Fault Store Text
    put_manifest bytes =
        if length bytes == 0 || ltb max_manifest_bytes (length bytes)
        then raise (integrity "manifest is empty or exceeds the read cap")
        else (transaction (upsert_manifest (sha256_hex p bytes) bytes) >>= λ _.
            pure (sha256_hex p bytes))

    unfoldable pub valid_manifest : Text → Cell → Option Bytes
    valid_manifest hash other_kind = none
    valid_manifest hash (blob body) =
        if ltb max_manifest_bytes (length body) || not (text_eq (sha256_hex p body) hash)
        then none
        else some body

    abbrev pub checked_manifest : Text → Option Bytes → Exec Fault Store Bytes
    checked_manifest hash (some body) = pure body
    checked_manifest hash none =
        evict_manifest hash >> raise (integrity "manifest failed content-address check")

    abbrev pub found_manifest : Text → Option Cell → Exec Fault Store Bytes
    found_manifest hash none = raise (plain "manifest not in store")
    found_manifest hash (some cell) = checked_manifest hash (valid_manifest hash cell)

    unfoldable pub get_manifest : Text → Exec Fault Store Bytes
    get_manifest hash s = found_manifest hash (get s.tables.manifest hash) s

    -- JSON.parse of the manifest, and what it lists; `none` ends the pruning
    unfoldable pub listed_chunks : Outcome Fault Bytes → Option (List Text)
    listed_chunks (err e) = none
    listed_chunks (ok bytes) = elim (p.parse_json bytes) [
      | none ↦ none
      | some manifest ↦ active_chunk_hashes manifest
    ]

    abbrev pub prune_to : VersionPointer → Option (List Text) → Exec Fault Store (Unit {0})
    prune_to active none = pure tt
    prune_to active (some keep) =
        transaction (prune_work keep active.manifest_hash) >> incremental_vacuum

    abbrev pub prune_beside : Option VersionPointer → Exec Fault Store (Unit {0})
    prune_beside none = pure tt
    prune_beside (some active) = do
      read ← attempt (get_manifest active.manifest_hash)
      prune_to active (listed_chunks read)

    unfoldable pub prune_inactive : Exec Fault Store (Unit {0})
    prune_inactive = do flush; active ← read_active; prune_beside active
