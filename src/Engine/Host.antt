-- ===== src/Engine/Host.antt =====
-- What engine/sync.ts is handed: the CacheStore of engine/types.ts, the transport, the clock, the
-- observer and the sleep. Each is a method on a world `W`, of which the engine knows no more.
use edgeproc_browser.Base.{ℕ, ◌≡◌, Option, some, List, Bool, Text, Bytes, ok, err}
use edgeproc_browser.Base.Effects.{Exec, Fixes}
use edgeproc_browser.Engine.Json.{Members, object}
use edgeproc_browser.Engine.Fault.{Fault}
use edgeproc_browser.Engine.ActivePointer.{VersionPointer, parse_stored_pointer}

pub record SyncResult : Type 0 where
  pub version : Text
  pub manifest_hash : Text
  pub chunks_fetched : ℕ
  pub chunks_reused : ℕ
  pub bytes_fetched : ℕ
  pub expired : Bool

-- SyncProgress; the `chunks` report is that of a completed chunk.
pub data SyncProgress : Type 0 where
  pointer : (version : Text) → SyncProgress
  manifest : (total_files selected_files : ℕ) → SyncProgress
  chunks : (fetched_chunks total_chunks bytes_fetched bytes_total bytes_done : ℕ) → SyncProgress
  chunk_retry : (hash : Text) (attempt max_attempts : ℕ) → SyncProgress
  verify : (verified_files total_files : ℕ) → SyncProgress
  promoted : SyncResult → SyncProgress

pub record Host (W : Type 0) : Type 0 where
  pub has_chunk : Text → Exec Fault W Bool
  pub put_chunk_compressed : Text → Bytes → ℕ → Exec Fault W (Unit {0})
  pub get_chunk : Text → ℕ → Exec Fault W Bytes
  pub put_manifest : Bytes → Exec Fault W Text
  pub get_manifest : Text → Exec Fault W Bytes
  -- the object that was promoted; it is checked again on every read
  pub read_active : Exec Fault W (Option Members)
  pub promote : VersionPointer → List Text → Exec Fault W (Unit {0})
  -- FetchBytes with maxBytes
  pub fetch_bytes : Text → ℕ → Exec Fault W Bytes
  -- the whole seconds of a finite reading of the clock
  pub clock : W → Option ℕ
  pub on_progress : SyncProgress → Exec Fault W (Unit {0})
  -- the backoff, without its random part
  pub sleep : ℕ → Exec Fault W (Unit {0})

-- What a store promises of the active pointer: only `promote` moves it, and not if it throws. The
-- pointer is one that its own object is read as, which each pointer that has been checked is.
pub record IsStore {W : Type 0} (host : Host W) (active : W → Option Members) : Type 0 where
  pub has_chunk : (h : Text) → Fixes active (host.has_chunk h)
  pub put_chunk : (h : Text) (b : Bytes) (n : ℕ) → Fixes active (host.put_chunk_compressed h b n)
  pub get_chunk : (h : Text) (n : ℕ) → Fixes active (host.get_chunk h n)
  pub put_manifest : (b : Bytes) → Fixes active (host.put_manifest b)
  pub get_manifest : (h : Text) → Fixes active (host.get_manifest h)
  pub reads : Fixes active host.read_active
  pub read_eq : (w : W) (o : Option Members) → (host.read_active w).0 ≡ ok o → o ≡ active w
  pub promotes :
      (p : VersionPointer) (cs : List Text) (w : W)
      → parse_stored_pointer (object p.raw) ≡ some p
      → (host.promote p cs w).0 ≡ ok tt
      → active (host.promote p cs w).1 ≡ some p.raw
  pub promote_fails :
      (p : VersionPointer) (cs : List Text) (w : W) (e : Fault)
      → (host.promote p cs w).0 ≡ err e
      → active (host.promote p cs w).1 ≡ active w
  pub fetch : (url : Text) (n : ℕ) → Fixes active (host.fetch_bytes url n)
  pub progress : (p : SyncProgress) → Fixes active (host.on_progress p)
  pub sleeps : (n : ℕ) → Fixes active (host.sleep n)
