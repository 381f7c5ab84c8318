-- ===== src/Engine/Memory.antt =====
-- engine/memoryStore.ts: the cache store over Maps.
pub mod Sound
pub mod AsHost
use edgeproc_browser.Base.{
  ℕ, Bool, true, false, not, Option, none, some, List, [], Text, Bytes, length, ◌==◌, if◌then◌else◌,
  ok, err, Outcome, String,
}
use edgeproc_browser.Base.Table.{Table, get, put, has}
use edgeproc_browser.Base.Effects.{Exec, ◌>>=◌, ◌>>◌, pure, lift}
use edgeproc_browser.Engine.Fault.{Fault, plain}
use edgeproc_browser.Engine.Platform.{Platform, sha256_hex}
use edgeproc_browser.Engine.Integrity.{decompress_and_verify, verify_plaintext}
use edgeproc_browser.Engine.ActivePointer.{VersionPointer, same_pointer}

-- MemoryCacheStore: chunks as verified plaintext
pub record Memory : Type 0 where
  pub chunks : Table Bytes
  pub manifests : Table Bytes
  pub active : Option VersionPointer

abbrev pub empty : Memory
empty = record { chunks = []; manifests = []; active = none }

abbrev found : {A : Type 0} → String → Option A → Outcome Fault A
found message none = err (plain message)
found message (some a) = ok a

abbrev sized : Bytes → ℕ → Outcome Fault (Unit {0})
sized plaintext expected_size =
    if length plaintext == expected_size
    then ok tt
    else err (plain "chunk has other bytes than expected")

unfoldable pub has_chunk : Text → Exec Fault Memory Bool
has_chunk hash s = (ok (has s.chunks hash), s)

unfoldable pub read_active : Exec Fault Memory (Option VersionPointer)
read_active s = (ok s.active, s)

unfoldable pub promote : VersionPointer → List Text → Exec Fault Memory (Unit {0})
promote pointer chunks s = (ok tt, record s { active = some pointer })

unfoldable pub clear_active_if : VersionPointer → Exec Fault Memory Bool
clear_active_if expected s =
    if same_pointer s.active expected then (ok true, record s { active = none }) else (ok false, s)

unfoldable pub prune_inactive : Exec Fault Memory (Unit {0})
prune_inactive s = (ok tt, s)

unfoldable pub clear : Exec Fault Memory (Unit {0})
clear s = (ok tt, empty)

unfoldable pub get_manifest : Text → Exec Fault Memory Bytes
get_manifest hash s = (found "manifest not in store" (get s.manifests hash), s)

module _ (p : Platform) where
  -- what is stored once the plaintext is verified
  unfoldable pub store_chunk : Text → Outcome Fault Bytes → Exec Fault Memory (Unit {0})
  store_chunk hash (ok plaintext) s = (ok tt, record s { chunks = put s.chunks hash plaintext })
  store_chunk hash (err e) s = (err e, s)

  unfoldable pub put_chunk_compressed : Text → Bytes → ℕ → Exec Fault Memory (Unit {0})
  put_chunk_compressed hash compressed expected_size =
      store_chunk hash (decompress_and_verify p hash compressed expected_size)

  -- `getChunk`, of the entry that is found
  abbrev pub checked_chunk : Text → ℕ → Outcome Fault Bytes → Exec Fault Memory Bytes
  checked_chunk hash expected_size entry = do
    plaintext ← lift entry
    lift (sized plaintext expected_size)
    lift (verify_plaintext p hash plaintext)
    pure plaintext

  unfoldable pub get_chunk : Text → ℕ → Exec Fault Memory Bytes
  get_chunk hash expected_size s =
      checked_chunk hash expected_size (found "chunk not in store" (get s.chunks hash)) s

  unfoldable pub put_manifest : Bytes → Exec Fault Memory Text
  put_manifest bytes s =
      let hash = sha256_hex p bytes in
      (ok hash, record s { manifests = put s.manifests hash bytes })
