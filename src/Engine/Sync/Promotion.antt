-- ===== src/Engine/Sync/Promotion.antt =====
-- engine/sync.ts: what `syncIndex` leaves as the active pointer.
use edgeproc_browser.Base.{
  ◌∙◌, sym, subst, ap, String, Bool, text_eq_iff, List, Bytes, refl, Option, some, Text, ok, err,
  ◌≡◌, true, false, Outcome,
}
use edgeproc_browser.Base.Effects.{after, handled, catch, ◌>>=◌, pure}
use edgeproc_browser.Base.Returns.{
  Returns, returned, bind_Returns, lift-Returns, Returns-at, Ends, ended, failed, bind_Ends,
  lift-Ends,
}
use edgeproc_browser.Engine.Json.{Members, Json, object}
use edgeproc_browser.Engine.Fault.{Fault}
use edgeproc_browser.Engine.Platform.{Platform, sha256_hex}
use edgeproc_browser.Engine.ActivePointer.{VersionPointer, parse_stored_pointer}
use edgeproc_browser.Engine.Manifest.{FileEntry, IndexManifest, assert_manifest, selected_files}
use edgeproc_browser.Engine.Pointer.{SyncArgs, Authenticator, assert_version_pointer}
use edgeproc_browser.Engine.Host.{promoted, Host, IsStore, SyncResult, SyncProgress}
use edgeproc_browser.Engine.Transfer.{
  matching, report, fetch_manifest, verify_reassembly, fetch_pointer,
}
use edgeproc_browser.Engine.Transfer.Steady.{
  report-Fixes, fetch_manifest-Fixes, missing_chunks-Fixes, fetch_missing-Fixes,
  verify_reassembly-Fixes,
}
use edgeproc_browser.Engine.Sync.Floor.{parsed-some}
use edgeproc_browser.Engine.Sync.{download, hashes}

matching-holds : (b : Bool) (message : String) (u : Unit {0}) → matching b message ≡ ok u → b ≡ true
matching-holds true message u h = refl
matching-holds false message u h = absurd (cc)

module _ {W : Type 0} (p : Platform) (host : Host W) where
  -- The bytes of the manifest are those that the pointer signs, and are accepted under it.
  pub record IsSigned (latest : VersionPointer) (m : IndexManifest) : Type 0 where
    pub bytes : Bytes
    pub value : Json
    pub named : sha256_hex p bytes ≡ latest.manifest_hash
    pub read : p.parse_json bytes ≡ some value
    pub accepted : assert_manifest value latest ≡ ok m

  fetch_manifest-IsSigned :
      (base : Text) (latest : VersionPointer) (w : W)
      → Returns (λ m _. IsSigned latest m) (fetch_manifest p host base latest w)
  unfolding fetch_manifest
  fetch_manifest-IsSigned base latest w = bind_Returns _ _ _ λ raw t _.
      lift-Returns _ _ _ λ _ named. lift-Returns _ _ _ λ value read.
        lift-Returns _ _ _ λ m accepted. bind_Returns _ _ _ λ _ u _. returned (record {
          bytes = raw;
          value = value;
          named = (text_eq_iff _ _).0 (matching-holds _ _ _ named);
          read = parsed-some _ _ read;
          accepted = accepted;
        })

  -- A fetched pointer has been checked, and authenticated.
  abbrev pub IsFetched : Authenticator → VersionPointer → Type 0
  IsFetched authenticate latest =
      ((value : Json) × (assert_version_pointer true value ≡ ok latest))
      × (authenticate latest ≡ ok tt)

  pub fetch_pointer-IsFetched :
      (base : Text) (authenticate : Authenticator) (w : W)
      → Returns
          (λ latest _. IsFetched authenticate latest)
          (fetch_pointer p host base authenticate w)
  unfolding fetch_pointer
  fetch_pointer-IsFetched base authenticate w = bind_Returns _ _ _ λ raw t _.
      lift-Returns _ _ _ λ value _.
        lift-Returns _ _ _
          λ latest checked. lift-Returns _ _ _ λ _ authentic. returned ((value, checked), authentic)

  report-returns : (progress : SyncProgress) (w : W) → (report p host progress w).0 ≡ ok tt
  unfolding report catch
  report-returns progress w = go (host.on_progress progress w)
    where
      go : (r : Outcome Fault (Unit {0}) × W) → (handled (λ _. pure tt) r).0 ≡ ok tt
      go (ok u, t) = refl
      go (err e, t) = refl

  -- All that an accepted pointer and its bundle have passed when the pointer is promoted.
  pub record Complete (args : SyncArgs) (latest : VersionPointer) : Type 0 where
    pub m : IndexManifest
    pub files : List FileEntry
    pub earlier : W
    pub later : W
    pub signed : IsSigned latest m
    pub selected : selected_files m args.wanted_paths ≡ ok files
    pub reassembled : verify_reassembly p host files earlier ≡ (ok tt, later)
    pub promoted : (host.promote latest (hashes files) later).0 ≡ ok tt

  -- What `download` has done when it returns, and what then is active.
  abbrev pub Downloaded : SyncArgs → VersionPointer → SyncResult → Option Members → Type 0
  Downloaded args latest result now_active =
      (now_active ≡ some latest.raw)
      × Complete args latest
      × (result.version ≡ latest.version)
      × (result.manifest_hash ≡ latest.manifest_hash)

module _ {W : Type 0} (p : Platform) (host : Host W) (active : W → Option Members)
    (store : IsStore host active) (args : SyncArgs) where
  promoting :
      (latest : VersionPointer) (files : List FileEntry) (result : SyncResult) (x : Option Members)
      (w : W)
      → parse_stored_pointer (object latest.raw) ≡ some latest
      → active w ≡ x
      → ((host.promote latest (hashes files) w).0 ≡ ok tt
          → Downloaded p host args latest result (some latest.raw))
      → Ends active (Downloaded p host args latest) x (
          (host.promote latest (hashes files) >>= λ _.
          report p host (promoted result) >>= λ _. pure result)
            w)
  unfolding ◌>>=◌
  promoting latest files result x w parses same k = go (host.promote latest (hashes files) w) refl
    where
      reported :
          (r : Outcome Fault (Unit {0}) × W)
          → r.0 ≡ ok tt
          → active r.1 ≡ some latest.raw
          → Downloaded p host args latest result (some latest.raw)
          → Ends active (Downloaded p host args latest) x (after (λ _. pure result) r)
      reported (ok u, t) e moved done =
          ended (subst (Downloaded p host args latest result) (sym moved) done)
      reported (err y, t) e moved done = absurd (cc)

      go :
          (r : Outcome Fault (Unit {0}) × W)
          → host.promote latest (hashes files) w ≡ r
          → Ends active
              (Downloaded p host args latest)
              x
              (after (λ _. report p host (promoted result) >>= λ _. pure result) r)
      go (ok u, t) e =
          let won : (host.promote latest (hashes files) w).0 ≡ ok tt = ap (λ r. r.0) e in
          let moved : active t ≡ some latest.raw =
            ap (λ r. active r.1) (sym e) ∙ store.promotes latest (hashes files) w parses won in
          reported (report p host (promoted result) t) (report-returns p host _ t)
            ((report-Fixes p host active store _).at t ∙ moved) (k won)
      go (err y, t) e = failed (
          ap (λ r. active r.1) (sym e)
          ∙ store.promote_fails latest (hashes files) w y (ap (λ r. r.0) e)
          ∙ same)

  pub download-Ends :
      (latest : VersionPointer) (x : Option Members) (w : W)
      → parse_stored_pointer (object latest.raw) ≡ some latest
      → active w ≡ x
      → Ends active (Downloaded p host args latest) x (download p host args latest w)
  unfolding download
  download-Ends latest x w parses same =
      bind_Ends _ _ w (fetch_manifest-Fixes p host active store _ latest) same λ m t fetched k1.
        lift-Ends _ _ t k1 λ files selected.
          bind_Ends _ _ t (report-Fixes p host active store _) k1 λ _ t2 _ k2.
            bind_Ends _ _ t2 (missing_chunks-Fixes p host active store files) k2 λ found t3 _ k3.
              lift-Ends _ _ t3 k3 λ limit _.
                bind_Ends _ _ t3 (fetch_missing-Fixes p host active store _ found.0 limit) k3
                  λ bytes t4 _ k4.
                    bind_Ends _ _ t4 (verify_reassembly-Fixes p host active store files) k4
                      λ _ t5 reassembled k5. promoting latest files _ x t5 parses k5 λ won. (
                        refl,
                        record {
                          m = m;
                          files = files;
                          earlier = t4;
                          later = t5;
                          signed =
                              Returns-at _ m (fetch_manifest-IsSigned p host args.base_url latest w)
                                (ap (λ r. r.0) fetched);
                          selected = selected;
                          reassembled = reassembled;
                          promoted = won;
                        },
                        refl,
                        refl,
                      )
