-- ===== src/Engine/Tables.antt =====
-- engine/sqliteStore.ts: the tables of the chunk database, and the statements on them.
pub mod Counted
use edgeproc_browser.Base.{
  ℕ, Bool, false, not, Option, none, some, List, [], ◌∷◌, ◌==◌, if◌then◌else◌, Text, Bytes, length,
  select, ok, err, require,
}
use edgeproc_browser.Base.Table.{Table, put, has, contains, add}
use edgeproc_browser.Base.Effects.{Exec}
use edgeproc_browser.Engine.Json.{Json, object}
use edgeproc_browser.Engine.Fault.{Fault, Result, integrity, plain}
use edgeproc_browser.Engine.ActivePointer.{VersionPointer, parse_stored_pointer}
use edgeproc_browser.Engine.FloorGate.{FloorRow, empty_row, higher}

-- A column without a strict type: a BLOB, or a value of any other kind.
pub data Cell : Type 0 where
  blob : Bytes → Cell
  other_kind : Cell

pub record ChunkRow : Type 0 where
  pub size : ℕ
  pub body : Cell

-- `pointer` is what JSON.parse makes of the text; `none` is NULL or text that is not JSON.
pub record PointerRow : Type 0 where
  pub pointer : Option Json
  pub floor_sequence : Option ℕ
  pub floor_identity : Option Text

-- MigrationState, where `none` is a row that is not there
pub data MigrationState : Type 0 where
  not_migrated copied done : MigrationState

-- The file: PRAGMA user_version and the four tables. A table with a primary key is a map on it.
pub record Tables : Type 0 where
  pub user_version : ℕ
  pub chunk : Table ChunkRow
  pub manifest : Table Cell
  pub active_pointer : Option PointerRow
  pub legacy_migration : MigrationState

abbrev pub new_file : Tables
new_file = record {
  user_version = 0;
  chunk = [];
  manifest = [];
  active_pointer = none;
  legacy_migration = not_migrated;
}

-- VerifiedChunk
pub record VerifiedChunk : Type 0 where
  pub hash : Text
  pub size : ℕ
  pub body : Bytes

-- A row of the legacy stores' manifests.
pub record NamedBytes : Type 0 where
  pub hash : Text
  pub body : Bytes

-- CHECK (length(hash) = 64)
abbrev pub fits_key : Text → Bool
fits_key hash = length hash == 64

-- INSERT OR IGNORE: a row that is there, or that fails the CHECK, is skipped
unfoldable pub insert_or_ignore : {V : Type 0} → Table V → Text → V → Table V
insert_or_ignore t hash row = if has t hash then t else if fits_key hash then put t hash row else t

-- `#insertRows`
unfoldable pub insert_rows : List VerifiedChunk → Tables → Tables
insert_rows [] t = t
insert_rows (c ∷ rest) t = insert_rows rest (record t {
  chunk = insert_or_ignore t.chunk c.hash (record { size = c.size; body = blob c.body });
})

unfoldable pub insert_manifests : List NamedBytes → Tables → Tables
insert_manifests [] t = t
insert_manifests (m ∷ rest) t =
    insert_manifests rest (record t { manifest = insert_or_ignore t.manifest m.hash (blob m.body) })

-- INSERT … ON CONFLICT(hash) DO UPDATE SET body = excluded.body
unfoldable pub upsert_manifest : Text → Bytes → Exec Fault Tables (Unit {0})
upsert_manifest hash body t =
    if fits_key hash
    then (ok tt, record t { manifest = put t.manifest hash (blob body) })
    else (err (plain "CHECK constraint failed"), t)

abbrev pub parsed_pointer : Option Json → Option VersionPointer
parsed_pointer none = none
parsed_pointer (some value) = parse_stored_pointer value

abbrev pub floor_row : Option PointerRow → FloorRow
floor_row none = empty_row
floor_row (some row) = record {
  pointer = parsed_pointer row.pointer;
  floor_sequence = row.floor_sequence;
  floor_identity = row.floor_identity;
}

-- `#readRow`
unfoldable pub read_row : Tables → FloorRow
read_row t = floor_row t.active_pointer

abbrev pub pointer_text : Option VersionPointer → Option Json
pointer_text none = none
pointer_text (some pointer) = some (object pointer.raw)

abbrev pub pointer_row : FloorRow → PointerRow
pointer_row row = record {
  pointer = pointer_text row.pointer;
  floor_sequence = row.floor_sequence;
  floor_identity = row.floor_identity;
}

-- active_pointer_floor_monotonic: no trigger runs on an INSERT
abbrev pub lowers : Option PointerRow → FloorRow → Bool
lowers none row = false
lowers (some old) row = higher old.floor_sequence row.floor_sequence

-- `#writeRow`
unfoldable pub write_row : FloorRow → Exec Fault Tables (Unit {0})
write_row row t =
    if lowers t.active_pointer row
    then (err (plain "rollback floor may not decrease"), t)
    else (ok tt, record t { active_pointer = some (pointer_row row) })

-- [...new Set(hashes)]
unfoldable pub distinct : List Text → List Text
distinct [] = []
distinct (h ∷ hs) = add (distinct hs) h

abbrev pub column : {V : Type 0} → Table V → List Text
column [] = []
column ((k, v) ∷ t) = k ∷ column t

-- SELECT count(*) … WHERE hash IN (…)
unfoldable pub count_in : List Text → List Text → ℕ
count_in keys wanted = length (select (contains wanted) keys)

unfoldable pub assert_present : List Text → Tables → Result (Unit {0})
assert_present chunks t =
    require (count_in (column t.chunk) (distinct chunks) == length (distinct chunks))
      (integrity "refusing to promote: missing chunks")

-- DELETE … WHERE hash NOT IN (…)
unfoldable pub keep_only : {V : Type 0} → (Text → Bool) → Table V → Table V
keep_only kept [] = []
keep_only kept ((k, v) ∷ t) = let rest = keep_only kept t in if kept k then (k, v) ∷ rest else rest

abbrev pub marked_copied : MigrationState → MigrationState
marked_copied done = done
marked_copied _ = copied
