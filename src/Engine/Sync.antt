-- ===== src/Engine/Sync.antt =====
-- engine/sync.ts: `syncIndex`, its offline path and its rollback floor, and `materializeFile`.
pub mod Offline
pub mod Floor
pub mod Promotion
pub mod Update
use edgeproc_browser.Base.{
  ◌&&◌, ℕ, Bool, true, false, Option, none, some, List, [], ◌∷◌, map, Text, Bytes, text_eq, length,
  find, ok, err, Outcome, if◌then◌else◌,
}
use edgeproc_browser.Base.Table.{add}
use edgeproc_browser.Base.Effects.{Exec, ◌>>=◌, ◌>>◌, pure, raise, lift, catch, attempt}
use edgeproc_browser.Engine.Json.{Members, object}
use edgeproc_browser.Engine.Fault.{
  Fault, Result, plain, rollback, pointer_expired, is_network, is_quota_error,
}
use edgeproc_browser.Engine.Platform.{Platform}
use edgeproc_browser.Engine.ActivePointer.{VersionPointer}
use edgeproc_browser.Engine.Freshness.{downgrade_reason}
use edgeproc_browser.Engine.Pointer.{
  SyncArgs, Authenticator, assert_version_pointer, pointer_authenticator, assert_expected_identity,
  is_expired,
}
use edgeproc_browser.Engine.Manifest.{
  ChunkRef, FileEntry, IndexManifest, assert_manifest, validate_wanted_paths, selected_files,
}
use edgeproc_browser.Engine.Host.{Host, SyncResult, pointer, manifest, promoted}
use edgeproc_browser.Engine.Transfer.{
  report, parsed, fetch_pointer, fetch_manifest, missing_chunks, total_fetch_limit, fetch_missing,
  verify_reassembly, reassemble, all_chunks,
}

abbrev pub hashes : List FileEntry → List Text
hashes files = map (λ (ref : ChunkRef). ref.hash) (all_chunks files)

abbrev add_all : List Text → List Text → List Text
add_all set [] = set
add_all set (hash ∷ rest) = add_all (add set hash) rest

-- the size of the set of the hashes
unfoldable pub distinct_chunks : List FileEntry → ℕ
distinct_chunks files = length (add_all [] (hashes files))

abbrev pub refusal_of : VersionPointer → Option VersionPointer → Result (Unit {0})
refusal_of incoming none = ok tt
refusal_of incoming (some active) = elim (downgrade_reason incoming active) [
  | none ↦ ok tt
  | some reason ↦ err (rollback reason)
]

abbrev pub is_some : {A : Type 0} → Option A → Bool
is_some none = false
is_some (some _) = true

abbrev pub result_of : VersionPointer → ℕ → ℕ → ℕ → Bool → SyncResult
result_of served fetched reused bytes expired = record {
  version = served.version;
  manifest_hash = served.manifest_hash;
  chunks_fetched = fetched;
  chunks_reused = reused;
  bytes_fetched = bytes;
  expired = expired;
}

abbrev pub file_entry : IndexManifest → Text → Result FileEntry
file_entry m path = elim (find (λ (entry : FileEntry). text_eq entry.path path) m.files) [
  | none ↦ err (plain "file not in manifest")
  | some entry ↦ ok entry
]

module _ {W : Type 0} (p : Platform) (host : Host W) where
  -- One reading of the clock.
  abbrev pub now : Exec Fault W (Option ℕ)
  now w = (ok (host.clock w), w)

  -- The rest of `syncFromCache`, with an active pointer `raw`.
  unfoldable pub serve : SyncArgs → Authenticator → Members → Exec Fault W (Option SyncResult)
  serve args authenticate raw = do
    active ← lift (assert_version_pointer false (object raw))
    lift (authenticate active)
    lift (assert_expected_identity active args)
    reading ← now
    expired ← lift (is_expired active reading)
    bytes ← host.get_manifest active.manifest_hash
    value ← lift (parsed (p.parse_json bytes))
    m ← lift (assert_manifest value active)
    files ← lift (selected_files m args.wanted_paths)
    report p host (manifest (length m.files) (length files))
    verify_reassembly p host files
    pure (some (result_of active 0 (distinct_chunks files) 0 expired))

  abbrev pub serve_from :
      SyncArgs → Authenticator → Option Members → Exec Fault W (Option SyncResult)
  serve_from args authenticate none = pure none
  serve_from args authenticate (some raw) = serve args authenticate raw

  unfoldable pub sync_from_cache : SyncArgs → Authenticator → Exec Fault W (Option SyncResult)
  sync_from_cache args authenticate = host.read_active >>= serve_from args authenticate

  abbrev pub floor_from : SyncArgs → Option Members → Exec Fault W (Option VersionPointer)
  floor_from args none = pure none
  floor_from args (some raw) = do
    active ← lift (assert_version_pointer false (object raw))
    lift (assert_expected_identity active args)
    pure (some active)

  unfoldable pub rollback_floor : SyncArgs → Exec Fault W (Option VersionPointer)
  rollback_floor args = host.read_active >>= floor_from args

  -- The body of the second `try`.
  unfoldable pub download : SyncArgs → VersionPointer → Exec Fault W SyncResult
  download args latest = do
    m ← fetch_manifest p host args.base_url latest
    files ← lift (selected_files m args.wanted_paths)
    report p host (manifest (length m.files) (length files))
    (missing, reused) ← missing_chunks p host files
    limit ← lift (total_fetch_limit args.max_total_fetch_bytes)
    fetched ← fetch_missing p host args.base_url missing limit
    verify_reassembly p host files
    host.promote latest (hashes files)
    let result = result_of latest (length missing) reused fetched false
    report p host (promoted result)
    pure result

  abbrev pub cached_or : Fault → Outcome Fault (Option SyncResult) → Exec Fault W SyncResult
  cached_or e (ok (some cached)) = pure cached
  cached_or e _ = raise e

  -- Its `catch`: the cache, when the disk is full and there is one.
  unfoldable pub on_failure : SyncArgs → Authenticator → Bool → Fault → Exec Fault W SyncResult
  on_failure args authenticate has_floor e =
      if has_floor && is_quota_error e
      then attempt (sync_from_cache args authenticate) >>= cached_or e
      else raise e

  -- What follows the first `try`, when the pointer has been fetched.
  unfoldable pub sync_online : SyncArgs → Authenticator → VersionPointer → Exec Fault W SyncResult
  sync_online args authenticate latest = do
    reading ← now
    expired ← lift (is_expired latest reading)
    lift (if expired then err pointer_expired else ok tt)
    lift (assert_expected_identity latest args)
    report p host (pointer latest.version)
    active ← rollback_floor args
    lift (refusal_of latest active)
    catch (download args latest) (on_failure args authenticate (is_some active))

  abbrev pub or_raise : Fault → Option SyncResult → Exec Fault W SyncResult
  or_raise e none = raise e
  or_raise e (some cached) = pure cached

  -- The `catch` of the first `try`.
  unfoldable pub sync_offline : SyncArgs → Authenticator → Fault → Exec Fault W SyncResult
  sync_offline args authenticate e =
      if is_network e then sync_from_cache args authenticate >>= or_raise e else raise e

  abbrev pub settled :
      SyncArgs → Authenticator → Outcome Fault VersionPointer → Exec Fault W SyncResult
  settled args authenticate (err e) = sync_offline args authenticate e
  settled args authenticate (ok latest) = sync_online args authenticate latest

  unfoldable pub sync_index : SyncArgs → Exec Fault W SyncResult
  sync_index args = do
    lift (validate_wanted_paths args.wanted_paths)
    authenticate ← lift (pointer_authenticator p args)
    fetched ← attempt (fetch_pointer p host args.base_url authenticate)
    settled args authenticate fetched

  unfoldable pub materialize_file : IndexManifest → Text → Exec Fault W Bytes
  materialize_file m path = do entry ← lift (file_entry m path); reassemble p host entry
