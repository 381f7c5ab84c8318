-- ===== src/Engine/Transfer.antt =====
-- engine/sync.ts: fetching under caps, with retries and a budget, and reassembling files. The code
-- overlaps up to eight of these calls; here each settles before the next one starts.
pub mod Steady
pub mod Budget
pub mod Attempts
pub mod Workers
pub mod Bounded
pub mod Reader
use edgeproc_browser.Base.{
  ℕ, zero, suc, ◌+◌, ◌-◌, ◌*◌, ◌^◌, min, Bool, true, not, Option, none, some, List, [], ◌∷◌, ◌++◌,
  ltb, leb, ◌==◌, if◌then◌else◌, Text, Bytes, codes, text_eq, length, ok, err, String, sum_by,
}
use edgeproc_browser.Base.Table.{Table, put, values}
use edgeproc_browser.Base.Effects.{Exec, ◌>>=◌, ◌>>◌, pure, raise, lift, catch, each}
use edgeproc_browser.Engine.Json.{Json, Number, whole, max_safe_integer}
use edgeproc_browser.Engine.Fault.{
  Fault, Result, integrity, sync_cap, network, plain, is_network, is_sync_cap,
}
use edgeproc_browser.Engine.Platform.{Platform, sha256_hex}
use edgeproc_browser.Engine.ActivePointer.{VersionPointer}
use edgeproc_browser.Engine.Pointer.{Authenticator, assert_version_pointer}
use edgeproc_browser.Engine.Manifest.{ChunkRef, FileEntry, IndexManifest, assert_manifest}
use edgeproc_browser.Engine.Host.{Host, SyncProgress, chunks, chunk_retry, verify}

abbrev pub max_pointer_bytes : ℕ
max_pointer_bytes = 16 * 1024

abbrev pub max_manifest_bytes : ℕ
max_manifest_bytes = 1024 * 1024

abbrev pub max_compressed_chunk_bytes : ℕ
max_compressed_chunk_bytes = 2 * 1024 * 1024

abbrev pub max_total_fetch_bytes : ℕ
max_total_fetch_bytes = 256 * 1024 * 1024

abbrev pub chunk_fetch_attempts : ℕ
chunk_fetch_attempts = 6

abbrev pub chunk_retry_base_delay_ms : ℕ
chunk_retry_base_delay_ms = 250

-- The wanted chunks by hash; a repeated one keeps its place and takes the later reference.
unfoldable pub wanted_chunks : Table ChunkRef → List ChunkRef → Table ChunkRef
wanted_chunks wanted [] = wanted
wanted_chunks wanted (ref ∷ refs) = wanted_chunks (put wanted ref.hash ref) refs

abbrev pub all_chunks : List FileEntry → List ChunkRef
all_chunks [] = []
all_chunks (entry ∷ files) = entry.chunks ++ all_chunks files

-- refs.filter((_, index) => !present[index])
unfoldable pub absent : List ChunkRef → List Bool → List ChunkRef
absent [] present = []
absent (ref ∷ refs) [] = ref ∷ absent refs []
absent (ref ∷ refs) (here ∷ present) =
    let rest = absent refs present in if here then rest else ref ∷ rest

-- `reserve`: what one chunk may take of the bytes that remain
abbrev pub reservation : ℕ → ℕ
reservation remaining = min max_compressed_chunk_bytes remaining

-- The variables of a fetch pass: the budget's rest, and the counters that are reported.
pub record Pass : Type 0 where
  pub remaining : ℕ
  pub total : ℕ
  pub done : ℕ
  pub completed : ℕ

-- A chunk of `consumed` bytes has been stored.
unfoldable pub complete : Pass → ChunkRef → ℕ → Pass
complete pass ref consumed = record {
  remaining = pass.remaining - consumed;
  total = pass.total + consumed;
  done = pass.done + ref.size;
  completed = pass.completed + 1;
}

abbrev pub start : ℕ → Pass
start max_total_bytes = record { remaining = max_total_bytes; total = 0; done = 0; completed = 0 }

-- A cap error of one chunk is reported as one of the whole sync.
abbrev pub as_aggregate : Fault → Fault
as_aggregate e = if is_sync_cap e then sync_cap "sync exceeded aggregate fetch cap" else e

unfoldable pub total_fetch_limit : Option Number → Result ℕ
total_fetch_limit none = ok max_total_fetch_bytes
total_fetch_limit (some (whole n)) =
    if leb n max_safe_integer
    then (if leb 1 n
        then ok (min n max_total_fetch_bytes)
        else err (sync_cap "aggregate fetch cap"))
    else err (sync_cap "aggregate fetch cap")
total_fetch_limit (some _) = err (sync_cap "aggregate fetch cap")

abbrev pub flatten : List Bytes → Bytes
flatten [] = []
flatten (part ∷ parts) = part ++ flatten parts

abbrev zeros : ℕ → Bytes
zeros zero = []
zeros (suc n) = 0 ∷ zeros n

-- `concat`: parts past the end of the buffer are a RangeError; what no part fills is zero
unfoldable pub concat : List Bytes → ℕ → Result Bytes
concat parts expected =
    let blob = flatten parts in
    if ltb expected (length blob)
    then err (plain "offset is out of bounds")
    else ok (blob ++ zeros (expected - length blob))

-- the test on a response's length
abbrev pub capped : Bytes → ℕ → Result Bytes
capped bytes max_bytes =
    if ltb max_bytes (length bytes) then err (sync_cap "response cap") else ok bytes

-- parseJson, with the engine's error
abbrev pub parsed : Option Json → Result Json
parsed none = err (integrity "is not valid JSON")
parsed (some v) = ok v

abbrev pub matching : Bool → String → Result (Unit {0})
matching test message = if test then ok tt else err (integrity message)

module _ {W : Type 0} (p : Platform) (host : Host W) where
  -- The observer's exceptions are dropped.
  unfoldable pub report : SyncProgress → Exec Fault W (Unit {0})
  report progress = catch (host.on_progress progress) (λ _. pure tt)

  unfoldable pub fetch_capped : Text → ℕ → Exec Fault W Bytes
  fetch_capped url max_bytes = do
    bytes ← host.fetch_bytes url max_bytes
    lift (capped bytes max_bytes)

  unfoldable pub fetch_pointer : Text → Authenticator → Exec Fault W VersionPointer
  fetch_pointer base_url authenticate = do
    raw ← fetch_capped (base_url ++ codes "/latest") max_pointer_bytes
    value ← lift (parsed (p.parse_json raw))
    pointer ← lift (assert_version_pointer true value)
    lift (authenticate pointer)
    pure pointer

  unfoldable pub fetch_manifest : Text → VersionPointer → Exec Fault W IndexManifest
  fetch_manifest base_url pointer = do
    raw ←
        fetch_capped (base_url ++ (codes "/manifest/" ++ pointer.manifest_hash)) max_manifest_bytes
    lift (
        matching (text_eq (sha256_hex p raw) pointer.manifest_hash)
          "manifest failed content-address check")
    value ← lift (parsed (p.parse_json raw))
    manifest ← lift (assert_manifest value pointer)
    _ ← host.put_manifest raw
    pure manifest

  unfoldable pub missing_chunks : List FileEntry → Exec Fault W (List ChunkRef × ℕ)
  missing_chunks files = do
    let refs = values (wanted_chunks [] (all_chunks files))
    present ← each (λ (ref : ChunkRef). host.has_chunk ref.hash) refs
    let missing = absent refs present
    pure (missing, length refs - length missing)

  -- The loop over the attempts, with those that are left.
  unfoldable pub retry : Text → Text → ℕ → ℕ → ℕ → Exec Fault W Bytes
  retry hash url max_bytes attempt zero = raise (network "chunk is unreachable")
  retry hash url max_bytes attempt (suc left) = catch (fetch_capped url max_bytes) λ e.
      if not (is_network e)
      then raise e
      else if ltb (attempt + 1) chunk_fetch_attempts
      then (do
        report (chunk_retry hash (attempt + 1) chunk_fetch_attempts)
        host.sleep (chunk_retry_base_delay_ms * 2 ^ attempt)
        retry hash url max_bytes (attempt + 1) left)
      else raise e

  unfoldable pub fetch_chunk_with_retry : Text → Text → ℕ → Exec Fault W Bytes
  fetch_chunk_with_retry hash url max_bytes = retry hash url max_bytes 0 chunk_fetch_attempts

  -- One round of a worker: reserve, fetch, store, release.
  unfoldable pub fetch_one : Text → ℕ → ℕ → Pass → ChunkRef → Exec Fault W Pass
  fetch_one base_url total_chunks bytes_total pass ref =
      if pass.remaining == 0 then raise (sync_cap "sync exceeded aggregate fetch cap") else (do
        compressed ←
            fetch_chunk_with_retry ref.hash (base_url ++ (codes "/chunk/" ++ ref.hash))
              (reservation pass.remaining)
        host.put_chunk_compressed ref.hash compressed ref.size
        let next = complete pass ref (length compressed)
        report (chunks next.completed total_chunks next.total bytes_total next.done)
        pure next)

  unfoldable pub fetch_from : Text → ℕ → ℕ → Pass → List ChunkRef → Exec Fault W Pass
  fetch_from base_url total_chunks bytes_total pass [] = pure pass
  fetch_from base_url total_chunks bytes_total pass (ref ∷ refs) = do
    next ← fetch_one base_url total_chunks bytes_total pass ref
    fetch_from base_url total_chunks bytes_total next refs

  unfoldable pub fetch_missing : Text → List ChunkRef → ℕ → Exec Fault W ℕ
  fetch_missing base_url missing max_total_bytes =
      catch
        (do
          pass ←
              fetch_from base_url (length missing) (sum_by (λ r. r.size) missing)
                (start max_total_bytes) missing
          pure pass.total)
        (λ e. raise (as_aggregate e))

  unfoldable pub reassemble : FileEntry → Exec Fault W Bytes
  reassemble entry = do
    parts ← each (λ (ref : ChunkRef). host.get_chunk ref.hash ref.size) entry.chunks
    blob ← lift (concat parts entry.size)
    lift (matching (text_eq (sha256_hex p blob) entry.file_sha256) "file failed reassembly check")
    pure blob

  -- the loop of `verifyReassembly`, with the files verified so far and in all
  unfoldable pub verify_from : ℕ → ℕ → List FileEntry → Exec Fault W (Unit {0})
  verify_from verified total [] = pure tt
  verify_from verified total (entry ∷ files) = do
    _ ← reassemble entry
    report (verify (verified + 1) total)
    verify_from (verified + 1) total files

  unfoldable pub verify_reassembly : List FileEntry → Exec Fault W (Unit {0})
  verify_reassembly files = verify_from 0 (length files) files
