-- ===== src/Engine/Transfer/Steady.antt =====
-- engine/sync.ts: the active pointer while chunks are fetched, stored and read.
use edgeproc_browser.Base.{◌+◌, length, Option, List, [], ◌∷◌, Text, zero, suc, ℕ}
use edgeproc_browser.Base.Effects.{
  Fixes, Fixes-bind, Fixes-pure, Fixes-raise, Fixes-if, Fixes-catch, fixes_rules,
}
use edgeproc_browser.Engine.Json.{Members}
use edgeproc_browser.Engine.Platform.{Platform}
use edgeproc_browser.Engine.Host.{Host, IsStore, SyncProgress}
use edgeproc_browser.Engine.Manifest.{ChunkRef, FileEntry}
use edgeproc_browser.Engine.Transfer.{
  Pass, fetch_chunk_with_retry, Authenticator, VersionPointer, retry, missing_chunks, fetch_pointer,
  reassemble, fetch_missing, verify_reassembly, fetch_from, verify_from, fetch_one, fetch_manifest,
  report, fetch_capped,
}

module _ {W : Type 0} (p : Platform) (host : Host W) (active : W → Option Members)
    (store : IsStore host active) where
  pub report-Fixes : (progress : SyncProgress) → Fixes active (report p host progress)
  unfolding report
  report-Fixes progress = Fixes-catch _ _ (store.progress progress) (λ e. Fixes-pure _)

  pub fetch_capped-Fixes : (url : Text) (n : ℕ) → Fixes active (fetch_capped p host url n)
  unfolding fetch_capped
  fetch_capped-Fixes url n = search (fixes_rules, store.fetch)

  pub fetch_pointer-Fixes :
      (base : Text) (authenticate : Authenticator)
      → Fixes active (fetch_pointer p host base authenticate)
  unfolding fetch_pointer
  fetch_pointer-Fixes base authenticate = search (fixes_rules, fetch_capped-Fixes) depth 12

  pub fetch_manifest-Fixes :
      (base : Text) (pointer : VersionPointer) → Fixes active (fetch_manifest p host base pointer)
  unfolding fetch_manifest
  fetch_manifest-Fixes base pointer =
      search (fixes_rules, fetch_capped-Fixes, store.put_manifest) depth 12

  pub missing_chunks-Fixes : (files : List FileEntry) → Fixes active (missing_chunks p host files)
  unfolding missing_chunks
  missing_chunks-Fixes files = search (fixes_rules, store.has_chunk) depth 12

  retry-Fixes :
      (hash url : Text) (n attempt left : ℕ) → Fixes active (retry p host hash url n attempt left)
  unfolding retry
  retry-Fixes hash url n attempt zero = Fixes-raise _
  retry-Fixes hash url n attempt (suc left) = Fixes-catch _ _ (fetch_capped-Fixes url n) λ e.
      Fixes-if _ _ _ (Fixes-raise _) (
        Fixes-if _ _ _
          (Fixes-bind _ _ (report-Fixes _)
            λ _. Fixes-bind _ _ (store.sleeps _) λ _. retry-Fixes hash url n (attempt + 1) left)
          (Fixes-raise _))

  fetch_one-Fixes :
      (base : Text) (m n : ℕ) (pass : Pass) (ref : ChunkRef)
      → Fixes active (fetch_one p host base m n pass ref)
  unfolding fetch_one fetch_chunk_with_retry
  fetch_one-Fixes base m n pass ref =
      search (fixes_rules, retry-Fixes, store.put_chunk, report-Fixes) depth 12

  fetch_from-Fixes :
      (base : Text) (m n : ℕ) (pass : Pass) (refs : List ChunkRef)
      → Fixes active (fetch_from p host base m n pass refs)
  unfolding fetch_from
  fetch_from-Fixes base m n pass [] = Fixes-pure _
  fetch_from-Fixes base m n pass (ref ∷ refs) =
      Fixes-bind _ _ (fetch_one-Fixes base m n pass ref) λ next. fetch_from-Fixes base m n next refs

  pub fetch_missing-Fixes :
      (base : Text) (missing : List ChunkRef) (n : ℕ)
      → Fixes active (fetch_missing p host base missing n)
  unfolding fetch_missing
  fetch_missing-Fixes base missing n = search (fixes_rules, fetch_from-Fixes) depth 12

  pub reassemble-Fixes : (entry : FileEntry) → Fixes active (reassemble p host entry)
  unfolding reassemble
  reassemble-Fixes entry = search (fixes_rules, store.get_chunk) depth 12

  verify_from-Fixes :
      (done total : ℕ) (files : List FileEntry) → Fixes active (verify_from p host done total files)
  unfolding verify_from
  verify_from-Fixes done total [] = Fixes-pure _
  verify_from-Fixes done total (entry ∷ files) =
      Fixes-bind _ _ (reassemble-Fixes entry)
        λ _. Fixes-bind _ _ (report-Fixes _) λ _. verify_from-Fixes (done + 1) total files

  pub verify_reassembly-Fixes :
      (files : List FileEntry) → Fixes active (verify_reassembly p host files)
  unfolding verify_reassembly
  verify_reassembly-Fixes files = verify_from-Fixes 0 (length files) files
