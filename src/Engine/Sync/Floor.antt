-- ===== src/Engine/Sync/Floor.antt =====
-- engine/sync.ts: what the cache is served under, and what the rollback floor is.
use edgeproc_browser.Base.{
  ok-injective, Bytes, length, ◌∙◌, ap, sym, List, ℕ, subst, refl, Option, none, some, ok, err, ◌≡◌,
  false, Outcome,
}
use edgeproc_browser.Base.Effects.{Exec, after, >>=-returns, ◌>>=◌}
use edgeproc_browser.Base.Returns.{Ends, Returns, returned, bind_Returns, lift-Returns, Returns-at}
use edgeproc_browser.Engine.Json.{Members, object, Json}
use edgeproc_browser.Engine.Fault.{Fault}
use edgeproc_browser.Engine.Platform.{Platform}
use edgeproc_browser.Engine.ActivePointer.{VersionPointer}
use edgeproc_browser.Engine.Manifest.{FileEntry, IndexManifest, assert_manifest, selected_files}
use edgeproc_browser.Engine.Pointer.{
  SyncArgs, Authenticator, assert_version_pointer, assert_expected_identity, is_expired,
}
use edgeproc_browser.Engine.Host.{Host, IsStore, SyncResult, manifest}
use edgeproc_browser.Engine.Transfer.{verify_reassembly, report, parsed}
use edgeproc_browser.Engine.Sync.{
  now, serve, serve_from, sync_from_cache, floor_from, rollback_floor, result_of, distinct_chunks,
}

-- What the floor is, for an active pointer in the store.
abbrev pub IsFloor : SyncArgs → Option Members → Option VersionPointer → Type 0
IsFloor args none floor = floor ≡ none
IsFloor args (some raw) floor =
    (old : VersionPointer) × (floor ≡ some old)
    × (assert_version_pointer false (object raw) ≡ ok old)
    × (assert_expected_identity old args ≡ ok tt)

pub parsed-some : (o : Option Json) (v : Json) → parsed o ≡ ok v → o ≡ some v
parsed-some none v h = absurd (cc)
parsed-some (some u) v h = ap some (ok-injective h)

-- Past a reading of the clock.
module _ {W A : Type 0} (p : Platform) (host : Host W) where
  now_Returns :
      {Q : A → W → Type 0} (f : Option ℕ → Exec Fault W A) (w : W)
      → Returns Q (f (host.clock w) w)
      → Returns Q ((now p host >>= f) w)
  unfolding ◌>>=◌
  now_Returns f w h = h

  pub now_Ends :
      {X : Type 0} {view : W → X} {Q : A → X → Type 0} {x : X} (f : Option ℕ → Exec Fault W A)
      (w : W)
      → Ends view Q x (f (host.clock w) w)
      → Ends view Q x ((now p host >>= f) w)
  unfolding ◌>>=◌
  now_Ends f w h = h

module _ {W : Type 0} (p : Platform) (host : Host W) (args : SyncArgs)
    (authenticate : Authenticator) where
  -- A result out of the cache, in the world `w` in which the active pointer `raw` has been read, with
  -- `later` the world at the end: the pointer passes the checks and the signature check of the call,
  -- has the expected identity, and is flagged by the clock of `w`; `files` are those that the call
  -- wants of the manifest that the store holds under the pointer's hash, and all of them were
  -- reassembled out of the stored chunks.
  pub record Served (raw : Members) (result : SyncResult) (w later : W) : Type 0 where
    pub pointer : VersionPointer
    pub bytes : Bytes
    pub value : Json
    pub m : IndexManifest
    pub files : List FileEntry
    pub found_in : W
    pub told : W
    pub checked : assert_version_pointer false (object raw) ≡ ok pointer
    pub authentic : authenticate pointer ≡ ok tt
    pub identity : assert_expected_identity pointer args ≡ ok tt
    pub flagged : is_expired pointer (host.clock w) ≡ ok result.expired
    pub stored : host.get_manifest pointer.manifest_hash w ≡ (ok bytes, found_in)
    pub read : p.parse_json bytes ≡ some value
    pub accepted : assert_manifest value pointer ≡ ok m
    pub selected : selected_files m args.wanted_paths ≡ ok files
    pub reported : report p host (manifest (length m.files) (length files)) found_in ≡ (ok tt, told)
    pub reassembled : verify_reassembly p host files told ≡ (ok tt, later)
    pub version : result.version ≡ pointer.version
    pub manifest_hash : result.manifest_hash ≡ pointer.manifest_hash
    pub counted : result.chunks_reused ≡ distinct_chunks files
    pub nothing_fetched : (result.chunks_fetched ≡ 0) × (result.bytes_fetched ≡ 0)

  abbrev pub ServedFrom : Members → W → Option SyncResult → W → Type 0
  ServedFrom raw w cached later =
      (result : SyncResult) × (cached ≡ some result) × Served raw result w later

  serve-ServedFrom :
      (raw : Members) (w : W) → Returns (ServedFrom raw w) (serve p host args authenticate raw w)
  unfolding serve
  serve-ServedFrom raw w = lift-Returns _ _ _ λ active checked. lift-Returns _ _ _ λ _ authentic.
      lift-Returns _ _ _ λ _ identity. now_Returns p host _ w (
        lift-Returns _ _ _ λ expired flagged. bind_Returns _ _ _ λ bytes t1 stored.
          lift-Returns _ _ _ λ value read. lift-Returns _ _ _ λ m accepted.
            lift-Returns _ _ _ λ files selected. bind_Returns _ _ _ λ _ t2 reported.
              bind_Returns _ _ _ λ _ t3 reassembled. returned (
                result_of active 0 (distinct_chunks files) 0 expired,
                refl,
                record {
                  pointer = active;
                  bytes = bytes;
                  value = value;
                  m = m;
                  files = files;
                  found_in = t1;
                  told = t2;
                  checked = checked;
                  authentic = authentic;
                  identity = identity;
                  flagged = flagged;
                  stored = stored;
                  read = parsed-some _ _ read;
                  accepted = accepted;
                  selected = selected;
                  reported = reported;
                  reassembled = reassembled;
                  version = refl;
                  manifest_hash = refl;
                  counted = refl;
                  nothing_fetched = (refl, refl);
                },
              ))

  serve_from-ServedFrom :
      (found : Option Members) (w : W) (result : SyncResult)
      → (serve_from p host args authenticate found w).0 ≡ ok (some result)
      → (raw : Members) × (found ≡ some raw)
        × Served raw result w (serve_from p host args authenticate found w).1
  serve_from-ServedFrom none w result h = absurd (cc)
  serve_from-ServedFrom (some raw) w result h =
      let (found, same, served) = Returns-at _ _ (serve-ServedFrom raw w) h in
      (raw, refl, subst (λ r. Served raw r w (serve p host args authenticate raw w).1) (cc) served)

module _ {W : Type 0} (p : Platform) (host : Host W) (active : W → Option Members)
    (store : IsStore host active) (args : SyncArgs) where
  -- Over a store that keeps its contract, a result of `syncFromCache` is that of the active pointer of
  -- the store, which passes the given signature check, has the expected identity, and is flagged
  -- as expired or not by the clock at that time; all files that the call wants of the manifest, which the store
  -- returns for the hash of the pointer, have been reassembled out of the stored chunks, and nothing was
  -- fetched.
  pub sync_from_cache-Served :
      (authenticate : Authenticator) (w : W) (result : SyncResult)
      → (sync_from_cache p host args authenticate w).0 ≡ ok (some result)
      → (raw : Members) × (active w ≡ some raw)
        × Served p host args authenticate raw result
            (host.read_active w).1
            (sync_from_cache p host args authenticate w).1
  unfolding sync_from_cache ◌>>=◌
  sync_from_cache-Served authenticate w result h = go (host.read_active w) refl h
    where
      go :
          (r : Outcome Fault (Option Members) × W)
          → host.read_active w ≡ r
          → (after (serve_from p host args authenticate) r).0 ≡ ok (some result)
          → (raw : Members) × (active w ≡ some raw)
            × Served p host args authenticate raw result r.1
                (after (serve_from p host args authenticate) r).1
      go (ok found, t) e k =
          let (raw, same, served) =
            serve_from-ServedFrom p host args authenticate found t result k in
          (raw, sym (store.read_eq w found (ap (λ r. r.0) e)) ∙ same, served)
      go (err x, t) e k = absurd (cc)

  floor_from-IsFloor :
      (found : Option Members) (w : W)
      → Returns (λ floor _. IsFloor args found floor) (floor_from p host args found w)
  floor_from-IsFloor none w = returned refl
  floor_from-IsFloor (some raw) w =
      lift-Returns _ _ _
        λ old checked. lift-Returns _ _ _ λ _ identity. returned (old, refl, checked, identity)

  pub rollback_floor-IsFloor :
      (w t : W) (floor : Option VersionPointer)
      → rollback_floor p host args w ≡ (ok floor, t)
      → IsFloor args (active w) floor
  unfolding rollback_floor
  rollback_floor-IsFloor w t floor h =
      let (found, u, e, k) = >>=-returns host.read_active (floor_from p host args) w t floor h in
      subst (λ o. IsFloor args o floor) (store.read_eq w found (ap (λ r. r.0) e))
        (Returns-at _ _ (floor_from-IsFloor found u) (ap (λ r. r.0) k))
