-- ===== src/Tests/Migrating.antt =====
-- The migration of older stores, and the sessions of the chunk database.
use edgeproc_browser.Engine.LegacyStores.{
  read_pointer_slot, opfs_pointers, is_unreadable, is_readable,
}
use edgeproc_browser.Engine.Json.{as_object, as_string, is_absent, property, safe_natural}
use edgeproc_browser.Engine.Integrity.{decompress_and_verify}
use edgeproc_browser.Engine.FloorGate.{
  admits, conflicting_legacy_floor, highest_sequence, install_pointer, merge_highest,
  merge_legacy_floor, pointer_identity, sequence_of,
}
use edgeproc_browser.Engine.Canonical.{
  braced, decimal, escape, insert_member, print_number, quote, serialize, sort_members,
}
use edgeproc_browser.Base.Double.{to_double}
use edgeproc_browser.Engine.Zstd.{
  declared_content_size, parse_frame_header, field_offset, field_width, decompress_bounded,
  frame_byte_length, header_of, last_block_end, read_content_size,
}
use edgeproc_browser.Engine.ActivePointer.{
  is_sha256, above, as_pointer, bounded_string, can_promote_pointer, counter_of, is_key_id,
  optional_bounded_string, optional_expiry, optional_key_id, parse_stored_pointer, same_counter,
  same_fields, same_number, same_text, select_from, select_highest_pointer, select_step,
  stored_fields, stored_sequence, string_of,
}
use edgeproc_browser.Base.Table.{get, put}
use edgeproc_browser.Engine.Platform.{sha256_hex, hex}
use edgeproc_browser.Base.{text_eq, all_units, join_with, text_leb}
use edgeproc_browser.Engine.Migration.{
  verified_manifests, verified_chunks, verified_from, verified_size, assert_copied,
  finish_migration,
}
use edgeproc_browser.Engine.Tables.{insert_manifests, insert_rows, insert_or_ignore}
use edgeproc_browser.Engine.ChunkStore.{
  import_work, has_chunk, mark_migration_done, note_copied, read_floor,
}
use edgeproc_browser.Engine.Tables.{write_row}
use edgeproc_browser.Engine.ChunkStore.{
  migration_state, raise_legacy_floor, transaction, raise_work, import_legacy,
}
use edgeproc_browser.Engine.Migration.{on_store, copy_legacy, on_legacy, copy_snapshots}
use edgeproc_browser.Base.Effects.{◌>>=◌, catch, each}
use edgeproc_browser.Base.{
  arith, ℕ, ◌≡◌, refl, Bool, true, false, Option, none, some, List, [], ◌∷◌, ok, All, length,
}
use edgeproc_browser.Base.Effects.{pure}
use edgeproc_browser.Base.Returns.{Returns}
use edgeproc_browser.Engine.Fault.{Fault}
use edgeproc_browser.Engine.Tables.{read_row}
use edgeproc_browser.Engine.FloorGate.Covered.{IsFloored}
use edgeproc_browser.Engine.Migration.{
  LegacySource, LegacySnapshot, read_legacy_pointers, import_legacy_floor, migrate_legacy_stores,
  flattened,
}
use edgeproc_browser.Engine.Migration.Covers.{Imported, import_legacy_floor-Imported}
use edgeproc_browser.Engine.Sessions.{
  next_batch, leading_shared, Queued, Database, Environment, opfs, new_store, batches, open_session,
}
use edgeproc_browser.Engine.Sessions.Batches.{IsBatch, batches_lem}
use edgeproc_browser.Engine.Sessions.FailClosed.{IsGuarded, open_session-IsGuarded}
use edgeproc_browser.Base.{◌↔◌}
use edgeproc_browser.Engine.LegacyStores.{file, not_found, read_opfs_pointers}
use edgeproc_browser.Engine.LegacyStores.Slots.{read_opfs_pointers_iff, IsFloorOf}
use edgeproc_browser.Base.{map}
use edgeproc_browser.Engine.Fault.{legacy_floor_unavailable}
use edgeproc_browser.Engine.Sessions.{run_session}
use edgeproc_browser.Engine.Sessions.Refused.{rejected, run_session-refused}
use edgeproc_browser.Tests.Bundle.{
  latest, platform, older, chunk_hash, frame, manifest_hash, manifest_bytes,
}

abbrev disk : ℕ → Option Fault
disk n = none

abbrev snapshot : LegacySnapshot
snapshot = record {
  chunks =
      record { hash = chunk_hash; body = frame }
      ∷ record { hash = manifest_hash; body = frame }
      ∷ [];
  manifests = record { hash = manifest_hash; body = manifest_bytes } ∷ [];
  pointers = some older ∷ [];
}

-- An older store that is emptied by `remove` alone; its state tells whether it was.
abbrev source : LegacySource Bool
source = record {
  read_pointers = pure (some older ∷ none ∷ []);
  read = pure snapshot;
  remove = λ emptied. (ok tt, true);
}

abbrev sources : List (LegacySource Bool)
sources = source ∷ []

new_store-IsFloored : IsFloored (read_row new_store.tables)
unfolding read_row
new_store-IsFloored q h = absurd (cc)

import_legacy_floor-Imported_example :
    Imported disk new_store
      (read_legacy_pointers sources (new_store, false)).0
      (import_legacy_floor disk sources (new_store, false))
import_legacy_floor-Imported_example =
    import_legacy_floor-Imported disk sources new_store false new_store-IsFloored

-- that migration removes
source_removed : (migrate_legacy_stores disk platform sources (new_store, false)).1.1 ≡ true
unfolding migrate_legacy_stores ◌>>=◌ on_store migration_state copy_legacy import_legacy_floor catch
    read_legacy_pointers each on_legacy raise_legacy_floor transaction raise_work write_row
    copy_snapshots import_legacy import_work insert_manifests verified_manifests text_eq sha256_hex
    hex insert_rows verified_chunks verified_from get verified_size is_sha256 all_units
    declared_content_size parse_frame_header field_offset field_width to_double join_with text_leb
    put above as_pointer bounded_string can_promote_pointer counter_of is_key_id
    optional_bounded_string optional_expiry optional_key_id parse_stored_pointer same_counter
    same_fields same_number same_text select_from select_highest_pointer select_step stored_fields
    stored_sequence string_of braced decimal escape insert_member print_number quote serialize
    sort_members has_chunk mark_migration_done note_copied read_floor admits
    conflicting_legacy_floor highest_sequence install_pointer merge_highest merge_legacy_floor
    pointer_identity sequence_of decompress_and_verify as_object as_string is_absent property
    safe_natural assert_copied finish_migration insert_or_ignore read_row decompress_bounded
    frame_byte_length header_of last_block_end read_content_size
source_removed = refl

abbrev queued : Bool → Queued Bool ℕ
queued shared = record { shared = shared; reset = false; operation = pure 0 }

abbrev queue : List (Queued Bool ℕ)
queue = queued true ∷ queued true ∷ queued false ∷ queued true ∷ []

batches_example : (flattened (batches 4 queue) ≡ queue) × All IsBatch (batches 4 queue)
batches_example = batches_lem 4 queue (omega arith)

three_batches : length (batches 4 queue) ≡ 3
unfolding batches next_batch leading_shared
three_batches = refl

abbrev environment : Environment
environment = record { opened = ok opfs; persisted_pool_exists = ok true }

abbrev database : Database Bool
database = record { file = new_store; memory = none; migrated = false; legacy = false }

open_session-IsGuarded_example :
    Returns
      (λ session _. IsGuarded disk platform sources environment false session)
      (open_session disk platform sources environment database)
open_session-IsGuarded_example =
    open_session-IsGuarded disk platform sources environment database refl refl new_store-IsFloored
      (λ e. absurd (cc))

-- one torn file of the pair
torn_is_passed :
    read_opfs_pointers platform not_found (file []) (file (112 ∷ []))
    ≡ ok (none ∷ none ∷ some latest ∷ [])
unfolding optional_bounded_string as_pointer counter_of is_key_id optional_expiry optional_key_id
    string_of read_opfs_pointers read_pointer_slot opfs_pointers is_unreadable text_eq is_readable
    parse_stored_pointer as_object stored_fields as_string property is_sha256 all_units
    bounded_string stored_sequence is_absent safe_natural
torn_is_passed = refl

read_opfs_pointers_example :
    (read_opfs_pointers platform not_found (file []) (file (112 ∷ []))
      ≡ ok (none ∷ none ∷ some latest ∷ []))
    ↔ IsFloorOf platform not_found (file []) (file (112 ∷ [])) (none ∷ none ∷ some latest ∷ [])
read_opfs_pointers_example =
    read_opfs_pointers_iff platform not_found (file []) (file (112 ∷ []))
      (none ∷ none ∷ some latest ∷ [])

run_session-refused_example :
    run_session disk sources (some legacy_floor_unavailable) queue (new_store, false) ≡ (
      ok (map (map (rejected disk sources legacy_floor_unavailable)) (batches 4 queue)),
      (new_store, false),
    )
run_session-refused_example =
    run_session-refused disk sources legacy_floor_unavailable queue (new_store, false)
      (refl, (refl, (refl, (refl, tt))))
