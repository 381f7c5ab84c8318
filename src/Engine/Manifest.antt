-- ===== src/Engine/Manifest.antt =====
-- engine/sync.ts: the manifest, its bounds, and the files that a sync selects.
pub mod Valid
pub mod Accepted
pub mod Selection
use edgeproc_browser.Base.{
  ℕ, ◌+◌, ◌*◌, Bool, true, false, ◌&&◌, not, Option, none, some, List, [], ◌∷◌, ltb, leb, ◌==◌,
  if◌then◌else◌, Text, codes, text_eq, starts_with, ends_with, split_on, length, any, select, ok,
  err, require, ◌>>=◌, ◌>>◌,
}
use edgeproc_browser.Base.Table.{Table, get, put, values, contains, add}
use edgeproc_browser.Engine.Json.{
  Json, Members, array, number, whole, items, property, safe_natural, as_string, max_safe_integer,
}
use edgeproc_browser.Engine.Fault.{Result, integrity, sync_cap}
use edgeproc_browser.Engine.ActivePointer.{VersionPointer}
use edgeproc_browser.Engine.Integrity.{max_decompressed_chunk_bytes}
use edgeproc_browser.Engine.Pointer.{object_at, assert_hash}

-- The caps of sync.ts.
abbrev pub max_sync_files : ℕ
max_sync_files = 1024

abbrev pub max_chunk_refs : ℕ
max_chunk_refs = 8192

abbrev pub max_distinct_chunks : ℕ
max_distinct_chunks = 4096

abbrev pub max_file_bytes : ℕ
max_file_bytes = 256 * 1024 * 1024

abbrev pub max_total_uncompressed_bytes : ℕ
max_total_uncompressed_bytes = 512 * 1024 * 1024

pub record ChunkRef : Type 0 where
  pub hash : Text
  pub size : ℕ

pub record FileEntry : Type 0 where
  pub path : Text
  pub size : ℕ
  pub file_sha256 : Text
  pub chunks : List ChunkRef

pub record IndexManifest : Type 0 where
  pub bundle_id : Text
  pub version : Text
  pub files : List FileEntry

unfoldable pub is_safe_path : Text → Bool
is_safe_path path =
    ltb 0 (length path)
    && leb (length path) 1024
    && not (starts_with path (codes "/"))
    && not (any (λ u. u == 92) path)
    && not (any (λ part. text_eq part (codes "..")) (split_on b'/' path))

-- assertSafePath, with the string
unfoldable pub assert_safe_path : Option Json → Result Text
assert_safe_path value = elim (as_string value) [
  | none ↦ err (integrity "manifest contains unsafe path")
  | some path ↦
      if is_safe_path path then ok path else err (integrity "manifest contains unsafe path")
]

-- assertBoundedInteger, with the number
unfoldable pub assert_bounded_integer : Option Json → ℕ → Result ℕ
assert_bounded_integer value maximum = elim (safe_natural value) [
  | none ↦ err (integrity "must be a non-negative safe integer")
  | some n ↦ if ltb maximum n then err (sync_cap "exceeds byte cap") else ok n
]

unfoldable pub checked_add : ℕ → ℕ → Result ℕ
checked_add total value =
    if leb (total + value) max_safe_integer
    then ok (total + value)
    else err (sync_cap "exceeds safe integer range")

-- The variables that the loop over the chunks keeps: chunk sizes by hash, references so far.
pub record Tally : Type 0 where
  pub sizes : Table ℕ
  pub references : ℕ

abbrev pub conflicts : Option ℕ → ℕ → Bool
conflicts none size = false
conflicts (some previous) size = not (previous == size)

-- One round of the loop over a file's chunks, with the size assembled so far.
unfoldable pub check_ref : Tally → ℕ → Json → Result (Tally × ℕ × ChunkRef)
check_ref tally assembled raw = do
  ref ← object_at raw
  hash ← assert_hash (property ref (codes "hash"))
  size ← assert_bounded_integer (property ref (codes "size")) max_decompressed_chunk_bytes
  require (leb (tally.references + 1) max_chunk_refs)
      (sync_cap "manifest exceeds chunk-reference cap")
  require (not (conflicts (get tally.sizes hash) size)) (integrity "chunk has conflicting sizes")
  assembled' ← checked_add assembled size
  ok (
    record { sizes = put tally.sizes hash size; references = tally.references + 1 },
    assembled',
    record { hash = hash; size = size },
  )

unfoldable pub check_refs : Tally → ℕ → List Json → Result (Tally × ℕ × List ChunkRef)
check_refs tally assembled [] = ok (tally, assembled, [])
check_refs tally assembled (raw ∷ rest) = do
  (tally', assembled', ref) ← check_ref tally assembled raw
  (last, total, refs) ← check_refs tally' assembled' rest
  ok (last, total, ref ∷ refs)

abbrev pub as_array : Option Json → Result (List Json)
as_array (some (array vs)) = ok (items vs)
as_array _ = err (integrity "chunks must be an array")

-- The variables of the loop over the files.
pub record Scan : Type 0 where
  pub paths : List Text
  pub tally : Tally
  pub total_files : ℕ

unfoldable pub check_file : Scan → Json → Result (Scan × FileEntry)
check_file scan raw = do
  file ← object_at raw
  path ← assert_safe_path (property file (codes "path"))
  require (not (contains scan.paths path)) (integrity "manifest repeats path")
  sha ← assert_hash (property file (codes "file_sha256"))
  size ← assert_bounded_integer (property file (codes "size")) max_file_bytes
  raws ← as_array (property file (codes "chunks"))
  (tally, assembled, refs) ← check_refs scan.tally 0 raws
  require (assembled == size) (integrity "file declares other bytes than its chunks total")
  total ← checked_add scan.total_files size
  ok (
    record { paths = add scan.paths path; tally = tally; total_files = total },
    record { path = path; size = size; file_sha256 = sha; chunks = refs },
  )

unfoldable pub check_files : Scan → List Json → Result (Scan × List FileEntry)
check_files scan [] = ok (scan, [])
check_files scan (raw ∷ rest) = do
  (scan', file) ← check_file scan raw
  (last, files) ← check_files scan' rest
  ok (last, file ∷ files)

-- the loop over `chunks.values()`
unfoldable pub add_sizes : ℕ → List ℕ → Result ℕ
add_sizes total [] = ok total
add_sizes total (size ∷ sizes) = do more ← checked_add total size; add_sizes more sizes

-- The shape of the manifest's own fields: bundle id, version and files.
unfoldable pub manifest_shape : Members → Result (Text × Text × List Json)
manifest_shape ms = elim (property ms (codes "schema_version")) [
  | some (number (whole schema)) ↦ elim (as_string (property ms (codes "bundle_id"))) [
    | none ↦ err (sync_cap "manifest schema/shape/file count is invalid")
    | some bundle ↦ elim (as_string (property ms (codes "version"))) [
      | none ↦ err (sync_cap "manifest schema/shape/file count is invalid")
      | some version ↦ elim (property ms (codes "files")) [
        | some (array vs) ↦
            if schema == 2 && leb (length (items vs)) max_sync_files
            then ok (bundle, version, items vs)
            else err (sync_cap "manifest schema/shape/file count is invalid")
        | _ ↦ err (sync_cap "manifest schema/shape/file count is invalid")
      ]
    ]
  ]
  | _ ↦ err (sync_cap "manifest schema/shape/file count is invalid")
]

-- pointer.bundle_id != null && manifest.bundle_id !== pointer.bundle_id, negated
abbrev pub same_bundle : Option Text → Text → Bool
same_bundle none found = true
same_bundle (some expected) found = text_eq found expected

-- The caps on the whole, after the loops.
unfoldable pub check_totals : Scan → Result (Unit {0})
check_totals scan = do
  require (leb (length scan.tally.sizes) max_distinct_chunks)
      (sync_cap "manifest exceeds distinct-chunk cap")
  total_chunks ← add_sizes 0 (values scan.tally.sizes)
  require
      (leb scan.total_files max_total_uncompressed_bytes
        && leb total_chunks max_total_uncompressed_bytes)
      (sync_cap "manifest exceeds uncompressed cap")

abbrev pub empty_scan : Scan
empty_scan = record { paths = []; tally = record { sizes = []; references = 0 }; total_files = 0 }

unfoldable pub assert_manifest : Json → VersionPointer → Result IndexManifest
assert_manifest value pointer = do
  ms ← object_at value
  (bundle, version, raws) ← manifest_shape ms
  require (text_eq version pointer.version) (integrity "pointer and manifest versions differ")
  require (same_bundle pointer.bundle_id bundle)
      (integrity "pointer and manifest bundle identities differ")
  (scan, files) ← check_files empty_scan raws
  check_totals scan
  ok (record { bundle_id = bundle; version = version; files = files })

-- wantedPaths, checked before anything is fetched
unfoldable pub validate_from : List Text → List Text → Result (Unit {0})
validate_from seen [] = ok tt
validate_from seen (path ∷ paths) = do
  require (is_safe_path path) (integrity "manifest contains unsafe path")
  require (not (contains seen path)) (integrity "wantedPaths repeats path")
  validate_from (add seen path) paths

unfoldable pub validate_wanted_paths : Option (List Text) → Result (Unit {0})
validate_wanted_paths none = ok tt
validate_wanted_paths (some paths) = do
  require (leb (length paths) max_sync_files) (sync_cap "wantedPaths exceeds path cap")
  validate_from [] paths

-- A wanted path ending in "/" is a directory, any other a file.
unfoldable pub wants : Text → FileEntry → Bool
wants path entry =
    if ends_with path b'/' then starts_with entry.path path else text_eq entry.path path

abbrev add_paths : List Text → List FileEntry → List Text
add_paths selected [] = selected
add_paths selected (entry ∷ entries) = add_paths (add selected entry.path) entries

-- the loop over the wanted paths
unfoldable pub select_paths : List Text → List FileEntry → List Text → Result (List Text)
select_paths selected files [] = ok selected
select_paths selected files (path ∷ paths) = do
  let matches = select (wants path) files
  require (ltb 0 (length matches)) (integrity "wanted path is not in the signed manifest")
  select_paths (add_paths selected matches) files paths

unfoldable pub selected_files : IndexManifest → Option (List Text) → Result (List FileEntry)
selected_files manifest none = ok manifest.files
selected_files manifest (some paths) = do
  selected ← select_paths [] manifest.files paths
  ok (select (λ entry. contains selected entry.path) manifest.files)
