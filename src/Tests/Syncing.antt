-- ===== src/Tests/Syncing.antt =====
-- Whole syncs over the in-memory store.
use edgeproc_browser.Engine.Memory.{promote}
use edgeproc_browser.Engine.Zstd.{
  decompress_bounded, declared_content_size, parse_frame_header, field_offset, field_width,
  header_of, frame_byte_length, last_block_end, read_content_size,
}
use edgeproc_browser.Engine.Integrity.{decompress_and_verify}
use edgeproc_browser.Engine.Memory.{put_manifest, has_chunk, put_chunk_compressed, store_chunk}
use edgeproc_browser.Base.{join_with, text_leb}
use edgeproc_browser.Engine.Transfer.{
  fetch_manifest, absent, complete, fetch_chunk_with_retry, fetch_from, fetch_missing, fetch_one,
  missing_chunks, retry, total_fetch_limit, wanted_chunks,
}
use edgeproc_browser.Engine.Sync.{download}
use edgeproc_browser.Base.Double.{to_double}
use edgeproc_browser.Engine.Freshness.{
  version_freshness, parse_release, is_release, drop_v, compare_release, to_number,
}
use edgeproc_browser.Engine.ActivePointer.{above}
use edgeproc_browser.Engine.Freshness.{downgrade_reason, sequence_freshness, is_comparable}
use edgeproc_browser.Engine.Sync.{sync_online, rollback_floor}
use edgeproc_browser.Engine.Integrity.{verify_plaintext}
use edgeproc_browser.Engine.Memory.{get_manifest, get_chunk}
use edgeproc_browser.Engine.Platform.{verify_ed25519}
use edgeproc_browser.Engine.Keyring.{verify_unnamed, any_verifies}
use edgeproc_browser.Engine.Transfer.{concat, reassemble, report, verify_from, verify_reassembly}
use edgeproc_browser.Engine.Manifest.{
  add_sizes, assert_bounded_integer, assert_manifest, assert_safe_path, check_file, check_files,
  check_ref, check_refs, check_totals, checked_add, is_safe_path, manifest_shape, select_paths,
  selected_files, wants,
}
use edgeproc_browser.Base.Table.{add, get, put}
use edgeproc_browser.Engine.ActivePointer.{
  is_sha256, bounded_string, counter_of, is_key_id, optional_bounded_string, optional_expiry,
  optional_key_id, same_text, string_of,
}
use edgeproc_browser.Base.{all_units, ends_with, split_on, starts_with}
use edgeproc_browser.Engine.Json.{as_object, as_string, property, is_absent, safe_natural}
use edgeproc_browser.Engine.Pointer.{
  check_pointer, assert_hash, valid_sequence, assert_expected_identity, is_expired, meets,
}
use edgeproc_browser.Engine.Sync.{serve, distinct_chunks}
use edgeproc_browser.Engine.Memory.{read_active}
use edgeproc_browser.Base.Effects.{catch, each}
use edgeproc_browser.Engine.Fault.{is_network}
use edgeproc_browser.Engine.Sync.{sync_offline}
use edgeproc_browser.Engine.Transfer.{fetch_pointer, fetch_capped}
use edgeproc_browser.Base.Table.{contains}
use edgeproc_browser.Engine.Platform.{sha256_hex, hex}
use edgeproc_browser.Base.{text_eq}
use edgeproc_browser.Engine.Keyring.{assert_keyring, check_revoked, check_keys, derive_key_id}
use edgeproc_browser.Engine.Pointer.{pointer_authenticator, assert_version_pointer, object_at}
use edgeproc_browser.Engine.Manifest.{validate_wanted_paths}
use edgeproc_browser.Base.Effects.{◌>>=◌, attempt}
use edgeproc_browser.Base.{false, [], ◌∷◌, codes, some, none, ok, err, ◌≡◌, refl, ◌⊎◌}
use edgeproc_browser.Engine.Fault.{network}
use edgeproc_browser.Engine.Json.{Members}
use edgeproc_browser.Engine.ActivePointer.{VersionPointer, as_pointer}
use edgeproc_browser.Engine.Memory.{Memory, empty}
use edgeproc_browser.Engine.Memory.AsHost.{memory_host, active_of, memory-IsStore}
use edgeproc_browser.Engine.Host.{SyncResult}
use edgeproc_browser.Engine.Pointer.{Authenticator}
use edgeproc_browser.Engine.Keyring.{verify_with_keyring}
use edgeproc_browser.Engine.Sync.{sync_index, sync_from_cache}
use edgeproc_browser.Engine.Sync.Floor.{Served, sync_from_cache-Served}
use edgeproc_browser.Engine.Sync.Promotion.{Downloaded}
use edgeproc_browser.Engine.Sync.Update.{MayReplace, sync_index_active, sync_index_error}
use edgeproc_browser.Tests.Bundle.{
  platform, ring, outside, offline, arguments, older, latest, chunk_hash, chunk_bytes,
  manifest_hash, manifest_bytes,
}

-- An old pointer is active, and none of its chunks is there.
abbrev old_store : Memory
old_store = record { chunks = []; manifests = []; active = some older }

-- The bundle is there, and active.
abbrev full_store : Memory
full_store = record {
  chunks = (chunk_hash, chunk_bytes) ∷ [];
  manifests = (manifest_hash, manifest_bytes) ∷ [];
  active = some latest;
}

sync_index_active_example :
    (active_of (sync_index platform (memory_host platform outside) arguments old_store).1
      ≡ some older.raw)
    ⊎ ((pointer : VersionPointer) × (result : SyncResult) × ((sync_index platform
            (memory_host platform outside)
            arguments
            old_store).0
          ≡ ok result)
        × MayReplace platform
            (memory_host platform outside)
            arguments
            old_store
            (some older.raw)
            pointer
        × Downloaded platform
            (memory_host platform outside)
            arguments
            pointer
            result
            (active_of (sync_index platform (memory_host platform outside) arguments old_store).1))
sync_index_active_example =
    sync_index_active platform (memory_host platform outside) active_of
      (memory-IsStore platform outside) arguments old_store

-- that sync promotes
promoted_latest :
    active_of (sync_index platform (memory_host platform outside) arguments old_store).1
    ≡ some latest.raw
unfolding sync_index ◌>>=◌ validate_wanted_paths pointer_authenticator assert_keyring check_revoked
    check_keys text_eq derive_key_id sha256_hex hex contains attempt fetch_pointer fetch_capped
    assert_version_pointer object_at as_object check_pointer assert_hash as_string property
    is_sha256 all_units bounded_string valid_sequence safe_natural optional_key_id is_absent
    optional_expiry optional_bounded_string verify_with_keyring as_pointer verify_unnamed
    any_verifies verify_ed25519 string_of sync_online is_expired assert_expected_identity meets
    same_text report catch rollback_floor read_active downgrade_reason sequence_freshness
    is_comparable counter_of above version_freshness parse_release is_release split_on drop_v
    compare_release to_number to_double download fetch_manifest starts_with assert_manifest
    manifest_shape check_files check_file each ends_with join_with text_leb add get put put_manifest
    has_chunk put_chunk_compressed store_chunk decompress_and_verify decompress_bounded
    declared_content_size parse_frame_header field_offset field_width header_of frame_byte_length
    last_block_end read_content_size get_chunk verify_plaintext promote sync_offline is_network
    sync_from_cache serve is_key_id add_sizes assert_bounded_integer assert_safe_path check_ref
    check_refs check_totals checked_add is_safe_path select_paths selected_files wants
    distinct_chunks concat reassemble verify_from verify_reassembly get_manifest fetch_missing
    fetch_from fetch_one fetch_chunk_with_retry retry complete missing_chunks absent wanted_chunks
    total_fetch_limit
promoted_latest = refl

no_cache :
    (sync_index platform (memory_host platform offline) arguments empty).0 ≡ err (network "offline")
unfolding sync_index ◌>>=◌ validate_wanted_paths pointer_authenticator assert_keyring check_revoked
    check_keys text_eq derive_key_id sha256_hex hex contains attempt fetch_pointer fetch_capped
    sync_offline is_network sync_from_cache read_active
no_cache = refl

sync_index_error_example :
    active_of (sync_index platform (memory_host platform offline) arguments empty).1 ≡ none
sync_index_error_example =
    sync_index_error platform (memory_host platform offline) active_of
      (memory-IsStore platform offline) arguments empty (network "offline") no_cache

abbrev any_good : Authenticator
any_good pointer = verify_with_keyring platform ring [] pointer.signature none

abbrev cached_result : SyncResult
cached_result = record {
  version = codes "1.2.0";
  manifest_hash = manifest_hash;
  chunks_fetched = 0;
  chunks_reused = 1;
  bytes_fetched = 0;
  expired = false;
}

cache_served :
    (sync_from_cache platform (memory_host platform offline) arguments any_good full_store).0
    ≡ ok (some cached_result)
unfolding sync_from_cache ◌>>=◌ read_active serve assert_version_pointer object_at as_object
    check_pointer assert_hash as_string property as_pointer text_eq is_sha256 all_units
    bounded_string valid_sequence is_absent catch each ends_with split_on starts_with add contains
    get put counter_of is_key_id optional_bounded_string optional_expiry optional_key_id same_text
    string_of safe_natural add_sizes assert_bounded_integer assert_manifest assert_safe_path
    check_file check_files check_ref check_refs check_totals checked_add is_safe_path manifest_shape
    select_paths selected_files wants hex sha256_hex assert_expected_identity is_expired meets
    distinct_chunks concat reassemble report verify_from verify_reassembly verify_with_keyring
    verify_unnamed any_verifies verify_ed25519 get_manifest get_chunk verify_plaintext
cache_served = refl

sync_from_cache-Served_example :
    (raw : Members) × (active_of full_store ≡ some raw)
    × Served platform
        (memory_host platform offline)
        arguments
        any_good
        raw
        cached_result
        ((memory_host platform offline).read_active full_store).1
        (sync_from_cache platform (memory_host platform offline) arguments any_good full_store).1
sync_from_cache-Served_example =
    sync_from_cache-Served platform (memory_host platform offline) active_of
      (memory-IsStore platform offline) arguments any_good full_store cached_result cache_served
