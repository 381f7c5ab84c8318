-- ===== src/Tests/Bundle.antt =====
-- A platform that computes, and a signed bundle of one file of one chunk.
use Prim.Native.Nat.{zero, suc}
use edgeproc_browser.Base.{
  starts_with, suc, ℕ, Option, none, some, [], ◌∷◌, ◌++◌, take, Text, Bytes, codes, text_eq, ok,
  err, if◌then◌else◌,
}
use edgeproc_browser.Engine.Json.{
  Json, Members, member, end, string, number, whole, array, object, cons, nil,
}
use edgeproc_browser.Engine.Fault.{network}
use edgeproc_browser.Engine.Platform.{Platform}
use edgeproc_browser.Engine.ActivePointer.{VersionPointer, as_pointer}
use edgeproc_browser.Engine.Keyring.{Keyring, raw_ring}
use edgeproc_browser.Engine.Pointer.{SyncArgs}
use edgeproc_browser.Engine.Memory.AsHost.{Outside}
use edgeproc_browser.Engine.Manifest.{ChunkRef, FileEntry, IndexManifest}

abbrev pub zeros_32 : Bytes
zeros_32 =
    0 ∷ 0 ∷ 0 ∷ 0 ∷ 0 ∷ 0 ∷ 0 ∷ 0 ∷ 0 ∷ 0 ∷ 0 ∷ 0 ∷ 0 ∷ 0 ∷ 0 ∷ 0 ∷ 0 ∷ 0 ∷ 0 ∷ 0 ∷ 0 ∷ 0 ∷ 0 ∷ 0
    ∷ 0 ∷ 0 ∷ 0 ∷ 0 ∷ 0 ∷ 0 ∷ 0 ∷ 0 ∷ []

abbrev pub drop_bytes : ℕ → Bytes → Bytes
drop_bytes zero bs = bs
drop_bytes (suc n) [] = []
drop_bytes (suc n) (b ∷ bs) = drop_bytes n bs

-- the first 32 bytes, padded
abbrev pub toy_digest : Bytes → Bytes
toy_digest bytes = take 32 (bytes ++ zeros_32)

abbrev pub chunk_bytes : Bytes
chunk_bytes = 97 ∷ 98 ∷ 99 ∷ []

abbrev pub chunk_hash : Text
chunk_hash = codes "6162630000000000000000000000000000000000000000000000000000000000"

-- one frame: magic, a descriptor of a single segment, the size 3, a last raw block of 3 bytes
abbrev pub frame : Bytes
frame = 40 ∷ 181 ∷ 47 ∷ 253 ∷ 32 ∷ 3 ∷ 25 ∷ 0 ∷ 0 ∷ chunk_bytes

abbrev pub manifest_bytes : Bytes
manifest_bytes = 109 ∷ []

abbrev pub manifest_hash : Text
manifest_hash = codes "6d00000000000000000000000000000000000000000000000000000000000000"

abbrev pub chunk_json : Json
chunk_json =
    object
      (member (codes "hash") (string chunk_hash) (member (codes "size") (number (whole 3)) end))

abbrev pub file_json : Json
file_json = object (
    member (codes "path") (string (codes "a/b")) (
      member (codes "file_sha256") (string chunk_hash) (
        member (codes "size") (number (whole 3))
          (member (codes "chunks") (array (cons chunk_json nil)) end))))

abbrev pub manifest_json : Json
manifest_json = object (
    member (codes "schema_version") (number (whole 2)) (
      member (codes "bundle_id") (string (codes "b")) (
        member (codes "version") (string (codes "1.2.0"))
          (member (codes "files") (array (cons file_json nil)) end))))

abbrev pub chunk_ref : ChunkRef
chunk_ref = record { hash = chunk_hash; size = 3 }

abbrev pub file : FileEntry
file = record { path = codes "a/b"; size = 3; file_sha256 = chunk_hash; chunks = chunk_ref ∷ [] }

abbrev pub bundle : IndexManifest
bundle = record { bundle_id = codes "b"; version = codes "1.2.0"; files = file ∷ [] }

abbrev pub pointer_members : Text → ℕ → Members
pointer_members version sequence = member (codes "manifest_hash") (string manifest_hash) (
    member (codes "version") (string version) (
      member (codes "sequence") (number (whole sequence))
        (member (codes "signature") (string (codes "good")) end)))

abbrev pub older : VersionPointer
older = as_pointer (pointer_members (codes "1.1.0") 4)

abbrev pub latest : VersionPointer
latest = as_pointer (pointer_members (codes "1.2.0") 5)

abbrev pub toy_json : Bytes → Option Json
toy_json bytes =
    if text_eq bytes manifest_bytes
    then some manifest_json
    else if text_eq bytes (112 ∷ [])
    then some (object (pointer_members (codes "1.2.0") 5))
    else none

abbrev pub platform : Platform
platform = record {
  digest = toy_digest;
  decode = λ bytes. some (drop_bytes 9 bytes);
  ed25519 = λ key message sig. some (text_eq sig (codes "good"));
  parse_json = toy_json;
  parse_json_strict = toy_json;
}

abbrev pub ring : Keyring
ring = raw_ring platform zeros_32

abbrev pub arguments : SyncArgs
arguments = record {
  base_url = [];
  verify = none;
  keyring = some ring;
  expected_bundle_id = none;
  expected_channel = some none;
  wanted_paths = none;
  max_total_fetch_bytes = none;
}

-- A server of the bundle, and a clock.
abbrev pub outside : Outside
outside = record {
  fetch = λ url max_bytes.
      if text_eq url (codes "/latest")
      then ok (112 ∷ [])
      else if starts_with url (codes "/manifest/")
      then ok manifest_bytes
      else ok frame;
  clock = some 1000;
}

-- No server.
abbrev pub offline : Outside
offline = record { fetch = λ url max_bytes. err (network "offline"); clock = some 1000 }
