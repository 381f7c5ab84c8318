-- ===== src/Tests/Durable.antt =====
-- The durable store: the floor gate, the tables, the promotion and the calls after it.
use edgeproc_browser.Engine.Manifest.{
  assert_bounded_integer, check_refs, check_ref, checked_add, check_totals, add_sizes,
}
use edgeproc_browser.Engine.Pointer.{assert_hash}
use edgeproc_browser.Base.{starts_with, split_on}
use edgeproc_browser.Engine.Manifest.{
  manifest_shape, check_files, check_file, assert_safe_path, is_safe_path,
}
use edgeproc_browser.Engine.Pointer.{object_at}
use edgeproc_browser.Engine.ChunkStore.{has_chunk, buffer_chunk, flush_if_full, hold}
use edgeproc_browser.Engine.Platform.{hex, sha256_hex}
use edgeproc_browser.Base.Table.{remove}
use edgeproc_browser.Base.Double.{to_double}
use edgeproc_browser.Engine.Zstd.{
  decompress_bounded, declared_content_size, parse_frame_header, field_offset, field_width,
  frame_byte_length, header_of, last_block_end, read_content_size,
}
use edgeproc_browser.Engine.ChunkStore.{flush, healed, evict_chunk}
use edgeproc_browser.Engine.Json.{as_object, as_string, is_absent, property, safe_natural}
use edgeproc_browser.Engine.FloorGate.{install_pointer}
use edgeproc_browser.Engine.Canonical.{
  braced, decimal, escape, insert_member, print_number, quote, serialize, sort_members,
}
use edgeproc_browser.Engine.ActivePointer.{
  can_promote_pointer, above, as_pointer, bounded_string, counter_of, is_key_id, is_sha256,
  optional_bounded_string, optional_expiry, optional_key_id, same_counter, same_fields, same_number,
  same_text, stored_fields, stored_sequence, string_of,
}
use edgeproc_browser.Base.{false, text_eq, all_units, join_with, text_leb}
use edgeproc_browser.Base.Table.{add}
use edgeproc_browser.Engine.Tables.{Tables, count_in, distinct, write_row}
use edgeproc_browser.Engine.ChunkStore.{transaction, promote_work, clear_pending}
use edgeproc_browser.Base.Effects.{◌>>=◌}
use edgeproc_browser.Base.Table.{get, put, contains}
use edgeproc_browser.Engine.Tables.{insert_rows, insert_or_ignore}
use edgeproc_browser.Base.{
  ℕ, ◌≡◌, ◌⊎◌, ◌↔◌, ◌<◌, refl, true, Option, none, some, List, [], ◌∷◌, Text, ok, err,
}
use edgeproc_browser.Engine.Json.{object}
use edgeproc_browser.Engine.Fault.{Fault}
use edgeproc_browser.Engine.ActivePointer.{VersionPointer, parse_stored_pointer}
use edgeproc_browser.Engine.ActivePointer.Choice.{EachPresent}
use edgeproc_browser.Engine.FloorGate.{
  FloorRow, empty_row, admits, pointer_identity, sequence_of, merge_legacy_floor,
}
use edgeproc_browser.Engine.FloorGate.Admitted.{AtMost, admits_iff}
use edgeproc_browser.Engine.FloorGate.Covered.{IsFloored, merge_legacy_floor-covers}
use edgeproc_browser.Engine.FloorGate.Again.{merge_legacy_floor_again}
use edgeproc_browser.Engine.Host.{IsStore}
use edgeproc_browser.Engine.Tables.{VerifiedChunk, assert_present, column, read_row}
use edgeproc_browser.Engine.Tables.Counted.{IsDistinct, IsComplete, assert_present_iff}
use edgeproc_browser.Engine.ChunkStore.{Store, promote, read_active}
use edgeproc_browser.Engine.ChunkStore.Promoted.{
  inserted, IsListed, promoted_store, promote_iff, promote_atomic,
}
use edgeproc_browser.Engine.ChunkStore.Floor.{floor_of}
use edgeproc_browser.Engine.ChunkStore.History.{
  History, start, then_call, promoting, History-AtMost, no_rollback,
}
use edgeproc_browser.Engine.ChunkStore.AsHost.{
  sqlite_host, active_of, read_active-promote, sqlite-IsStore,
}
use edgeproc_browser.Engine.Sessions.{new_store}
use edgeproc_browser.Engine.Fault.{integrity, is_integrity}
use edgeproc_browser.Base.{All}
use edgeproc_browser.Base.Table.{get, has}
use edgeproc_browser.Engine.Integrity.{decompress_and_verify}
use edgeproc_browser.Engine.Manifest.{assert_manifest}
use edgeproc_browser.Engine.Tables.{ChunkRow, other_kind}
use edgeproc_browser.Engine.ChunkStore.{
  get_chunk, read_chunk, checked_body, put_chunk_compressed, active_chunk_hashes,
}
use edgeproc_browser.Engine.ChunkStore.Served.{IsNamed, get_chunk-IsNamed, get_chunk_heals}
use edgeproc_browser.Engine.ChunkStore.Stored.{read_after_put}
use edgeproc_browser.Engine.ChunkStore.Pruned.{IsSpared, prune_work-IsSpared}
use edgeproc_browser.Tests.Bundle.{
  platform, outside, older, latest, chunk_hash, chunk_bytes, frame, manifest_json, bundle,
}

-- A disk on which every commit works.
abbrev disk : ℕ → Option Fault
disk n = none

abbrev chunk : VerifiedChunk
chunk = record { hash = chunk_hash; size = 3; body = frame }

-- The one chunk of the bundle is still pending.
abbrev held : Store
held = record new_store { pending = (chunk_hash, chunk) ∷ []; pending_bytes = 12 }

abbrev needed : Option (List Text)
needed = some (chunk_hash ∷ chunk_hash ∷ [])

keys_distinct : IsDistinct (column (inserted held).chunk)
unfolding insert_rows insert_or_ignore get put contains
keys_distinct = (refl, tt)

abbrev floored_row : FloorRow
floored_row = record { pointer = none; floor_sequence = some 5; floor_identity = none }

admits_example : (admits floored_row latest ≡ true) ↔ (
    (n : ℕ) × (sequence_of latest ≡ some n)
    × ((5 < n) ⊎ ((n ≡ 5) × (◌≡◌ {A = Option Text} none (some (pointer_identity latest))))))
admits_example = admits_iff floored_row latest 5 refl

abbrev legacy_pointers : List (Option VersionPointer)
legacy_pointers = some older ∷ none ∷ some latest ∷ []

empty_row-IsFloored : IsFloored empty_row
empty_row-IsFloored q h = absurd (cc)

merge_legacy_floor-covers_example :
    EachPresent
      (λ c. AtMost (sequence_of c) (merge_legacy_floor empty_row legacy_pointers).floor_sequence)
      legacy_pointers
merge_legacy_floor-covers_example =
    merge_legacy_floor-covers empty_row legacy_pointers empty_row-IsFloored

merge_legacy_floor_again_example :
    merge_legacy_floor (merge_legacy_floor floored_row legacy_pointers) legacy_pointers
    ≡ merge_legacy_floor floored_row legacy_pointers
merge_legacy_floor_again_example = merge_legacy_floor_again floored_row legacy_pointers

assert_present_example :
    (assert_present (chunk_hash ∷ chunk_hash ∷ []) (inserted held) ≡ ok tt)
    ↔ IsComplete (chunk_hash ∷ chunk_hash ∷ []) (inserted held)
assert_present_example =
    assert_present_iff (chunk_hash ∷ chunk_hash ∷ []) (inserted held) keys_distinct

promote_example : ((promote disk latest needed held).0 ≡ ok tt) ↔ (
    IsListed needed (inserted held)
    × (admits (read_row (inserted held)) latest ≡ true)
    × (◌≡◌ {A = Option Fault} none none))
promote_example = promote_iff disk held latest needed keys_distinct

promote_atomic_example :
    ((promote disk latest needed held).0 ≡ ok tt
      → (promote disk latest needed held).1 ≡ promoted_store disk held latest needed)
    × ((e : Fault)
        → (promote disk latest needed held).0 ≡ err e
        → ((promote disk latest needed held).1.tables ≡ held.tables)
          × ((promote disk latest needed held).1.pending ≡ held.pending))
promote_atomic_example = promote_atomic disk held latest needed

latest_promoted : (promote disk latest needed held).0 ≡ ok tt
unfolding promote ◌>>=◌ transaction promote_work assert_present count_in insert_rows
    insert_or_ignore get put contains distinct add text_eq admits read_row can_promote_pointer
    all_units join_with text_leb above as_pointer bounded_string counter_of is_key_id is_sha256
    optional_bounded_string optional_expiry optional_key_id parse_stored_pointer same_counter
    same_fields same_number same_text stored_fields stored_sequence string_of braced decimal escape
    insert_member print_number quote serialize sort_members clear_pending install_pointer
    pointer_identity sequence_of as_object as_string is_absent property safe_natural write_row
latest_promoted = refl

latest_parsed : parse_stored_pointer (object latest.raw) ≡ some latest
unfolding parse_stored_pointer as_object stored_fields as_string property as_pointer text_eq
    is_sha256 all_units bounded_string stored_sequence is_absent safe_natural
    optional_bounded_string optional_key_id optional_expiry
latest_parsed = refl

abbrev after_promotion : Store
after_promotion = (promote disk latest needed held).1

-- a call that is refused
abbrev after_refusal : Store
after_refusal = (promote disk older none after_promotion).1

refused_call : History disk platform after_promotion after_refusal
refused_call = then_call after_promotion after_refusal start (promoting after_promotion older none)

History-AtMost_example : AtMost (floor_of after_promotion) (floor_of after_refusal)
History-AtMost_example = History-AtMost disk platform after_promotion after_refusal refused_call

no_rollback_example :
    ((promote disk older none after_refusal).0 ≡ ok tt
      → AtMost (sequence_of latest) (sequence_of older))
    × ((read_active after_refusal).0 ≡ ok (some older)
        → AtMost (sequence_of latest) (sequence_of older))
no_rollback_example =
    no_rollback disk platform held after_refusal latest older needed none latest_promoted
      refused_call

read_active-promote_example : (read_active after_promotion).0 ≡ ok (some latest)
read_active-promote_example =
    read_active-promote disk held latest needed latest_parsed latest_promoted

sqlite-IsStore_example : IsStore (sqlite_host disk platform outside) active_of
sqlite-IsStore_example = sqlite-IsStore disk platform outside

held_read : (get_chunk disk platform chunk_hash 3 held).0 ≡ ok chunk_bytes
unfolding get_chunk ◌>>=◌ flush transaction clear_pending read_chunk get insert_rows
    insert_or_ignore put text_eq healed checked_body decompress_and_verify decompress_bounded
    declared_content_size parse_frame_header to_double remove evict_chunk is_integrity hex
    sha256_hex field_offset field_width frame_byte_length header_of last_block_end read_content_size
held_read = refl

-- A row that is not a BLOB.
abbrev spoiled_row : ChunkRow
spoiled_row = record { size = 3; body = other_kind }

abbrev spoiled : Store
spoiled = record new_store {
  tables = record new_store.tables { chunk = (chunk_hash, spoiled_row) ∷ [] };
}

spoiled_found : get spoiled.tables.chunk chunk_hash ≡ some spoiled_row
unfolding get text_eq
spoiled_found = refl

spoiled_fails :
    checked_body disk platform chunk_hash 3 other_kind
    ≡ err (integrity "chunk is empty or not a BLOB")
unfolding checked_body
spoiled_fails = refl

spoiled_kind : is_integrity (integrity "chunk is empty or not a BLOB") ≡ true
unfolding is_integrity
spoiled_kind = refl

frame_verified : decompress_and_verify platform chunk_hash frame 3 ≡ ok chunk_bytes
unfolding decompress_and_verify decompress_bounded declared_content_size parse_frame_header
    field_offset field_width header_of frame_byte_length last_block_end read_content_size text_eq
    sha256_hex hex
frame_verified = refl

new_unpending : has new_store.pending chunk_hash ≡ false
unfolding get
new_unpending = refl

new_absent : get new_store.tables.chunk chunk_hash ≡ none
unfolding get
new_absent = refl

chunk_put : (put_chunk_compressed disk platform chunk_hash frame 3 new_store).0 ≡ ok tt
unfolding put_chunk_compressed ◌>>=◌ decompress_and_verify decompress_bounded declared_content_size
    parse_frame_header field_offset field_width header_of frame_byte_length last_block_end
    read_content_size text_eq sha256_hex hex buffer_chunk get to_double put clear_pending flush
    flush_if_full hold transaction insert_or_ignore insert_rows
chunk_put = refl

manifest_accepted : assert_manifest manifest_json latest ≡ ok bundle
unfolding assert_manifest object_at as_object manifest_shape property text_eq as_string as_pointer
    string_of check_files check_file assert_safe_path is_safe_path starts_with split_on contains
    assert_hash is_sha256 all_units assert_bounded_integer safe_natural check_refs check_ref get
    checked_add check_totals put add_sizes
manifest_accepted = refl

get_chunk-IsNamed_example : IsNamed disk platform chunk_hash 3 chunk_bytes
get_chunk-IsNamed_example = get_chunk-IsNamed disk platform chunk_hash 3 held chunk_bytes held_read

spoiled_flushed : flush disk spoiled ≡ (ok tt, spoiled)
unfolding flush
spoiled_flushed = refl

get_chunk_heals_example :
    ((get_chunk disk platform chunk_hash 3 spoiled).0
      ≡ err (integrity "chunk is empty or not a BLOB"))
    × ((has_chunk chunk_hash (get_chunk disk platform chunk_hash 3 spoiled).1).0 ≡ ok false)
get_chunk_heals_example =
    get_chunk_heals disk platform chunk_hash 3 spoiled spoiled spoiled_row
      (integrity "chunk is empty or not a BLOB") spoiled_flushed spoiled_found spoiled_fails
      spoiled_kind refl

read_after_put_example :
    (get_chunk disk platform chunk_hash 3
      (put_chunk_compressed disk platform chunk_hash frame 3 new_store).1).0
    ≡ ok chunk_bytes
read_after_put_example =
    read_after_put disk platform chunk_hash frame 3 chunk_bytes frame_verified new_store tt
      new_unpending new_absent refl chunk_put refl

prune_work-IsSpared_example :
    (keep : List Text) × (active_chunk_hashes manifest_json ≡ some keep)
    × ((t : Tables)
        → All (λ file. All (IsSpared keep latest.manifest_hash t) file.chunks) bundle.files)
prune_work-IsSpared_example = prune_work-IsSpared manifest_json latest bundle manifest_accepted
