-- ===== src/Engine/Sync/Update.antt =====
-- engine/sync.ts: what `syncIndex` leaves as the active pointer, whatever happens.
use edgeproc_browser.Base.{
  inr, inl, ◌⊎◌, ◌∙◌, subst, ap, Bool, refl, Option, none, some, ok, err, ◌≡◌, true, false, Outcome,
}
use edgeproc_browser.Base.Effects.{Fixes-attempt, attempt, Exec}
use edgeproc_browser.Base.Returns.{
  Returns-at, Ends, ended, failed, bind_Ends, lift-Ends, catch-Ends, Fixes-Ends,
}
use edgeproc_browser.Engine.Json.{Members, object}
use edgeproc_browser.Engine.Fault.{pointer_expired, rollback, Refusal, Fault}
use edgeproc_browser.Engine.Platform.{Platform}
use edgeproc_browser.Engine.ActivePointer.{VersionPointer}
use edgeproc_browser.Engine.Freshness.{downgrade_reason}
use edgeproc_browser.Engine.Pointer.{
  SyncArgs, Authenticator, assert_version_pointer, assert_expected_identity, is_expired,
  pointer_authenticator,
}
use edgeproc_browser.Engine.Pointer.Checked.{
  parse_stored_pointer-assert_version_pointer, HasCounter, assert_version_pointer-IsChecked,
}
use edgeproc_browser.Engine.Host.{Host, IsStore, SyncResult}
use edgeproc_browser.Engine.Transfer.Steady.{report-Fixes, fetch_pointer-Fixes}
use edgeproc_browser.Engine.Sync.{fetch_pointer, sync_index, sync_online, settled, refusal_of}
use edgeproc_browser.Engine.Sync.Offline.{
  sync_offline-Fixes, on_failure-Fixes, rollback_floor-Fixes,
}
use edgeproc_browser.Engine.Sync.Floor.{now_Ends, IsFloor, rollback_floor-IsFloor}
use edgeproc_browser.Base.{if◌then◌else◌}
use edgeproc_browser.Engine.Sync.Promotion.{
  Downloaded, IsFetched, fetch_pointer-IsFetched, download-Ends,
}

attempted :
    {W A : Type 0} (m : Exec Fault W A) (w t : W) (r : Outcome Fault A)
    → attempt m w ≡ (ok r, t)
    → m w ≡ (r, t)
unfolding attempt
attempted {W} {A} m w t r e = go (m w) e
  where
    go :
        (z : Outcome Fault A × W)
        → ◌≡◌ {A = Outcome Fault (Outcome Fault A) × W} (ok z.0, z.1) (ok r, t)
        → z ≡ (r, t)
    go (a, b) e = cc

module _ {W : Type 0} (p : Platform) (host : Host W) (args : SyncArgs) where
  -- The pointer `latest`, fetched in the call that started in `w`, may replace what was active: it is
  -- authentic, with a counter, not expired by the clock when it had come, of the expected identity, and
  -- no downgrade of the floor.
  pub record MayReplace (w : W) (x : Option Members) (latest : VersionPointer) : Type 0 where
    pub authenticate : Authenticator
    pub trust : pointer_authenticator p args ≡ ok authenticate
    pub authentic : authenticate latest ≡ ok tt
    pub counted : HasCounter latest
    pub sent : (fetch_pointer p host args.base_url authenticate w).0 ≡ ok latest
    pub current :
        is_expired latest (host.clock (fetch_pointer p host args.base_url authenticate w).1)
        ≡ ok false
    pub identity : assert_expected_identity latest args ≡ ok tt
    pub fresh_for :
        (raw : Members)
        → x ≡ some raw
        → (old : VersionPointer) × (assert_version_pointer false (object raw) ≡ ok old)
          × (downgrade_reason latest old ≡ none)

module _ {W : Type 0} (p : Platform) (host : Host W) (active : W → Option Members)
    (store : IsStore host active) (args : SyncArgs) where
  -- How a run of `syncIndex` ends that returns `result` and leaves `now_active`.
  pub data Settled (start : W) (x : Option Members) (result : SyncResult)
      (now_active : Option Members) : Type 0 where
    -- the cache was served
    unmoved : now_active ≡ x → Settled start x result now_active
    -- the fetched pointer was promoted
    moved :
        (latest : VersionPointer)
        → MayReplace p host args start x latest
        → Downloaded p host args latest result now_active
        → Settled start x result now_active

  weaken :
      {start : W} {x : Option Members} {latest : VersionPointer} {r : Outcome Fault SyncResult × W}
      → MayReplace p host args start x latest
      → Ends active (Downloaded p host args latest) x r
      → Ends active (Settled start x) x r
  weaken may (ended q) = ended (moved _ may q)
  weaken may (failed k) = failed k

  refusal_lem :
      (latest old : VersionPointer) (u : Unit {0})
      → refusal_of latest (some old) ≡ ok u
      → downgrade_reason latest old ≡ none
  refusal_lem latest old u h = go (downgrade_reason latest old) h
    where
      go :
          (o : Option Refusal)
          → (elim o [ none ↦ ok tt | some reason ↦ err (rollback reason) ]) ≡ ok u
          → o ≡ none
      go none h = refl
      go (some r) h = absurd (cc)

  floor_lem :
      (x : Option Members) (latest : VersionPointer) (floor : Option VersionPointer) (u : Unit {0})
      → IsFloor args x floor
      → refusal_of latest floor ≡ ok u
      → (raw : Members) → x ≡ some raw
      → (old : VersionPointer) × (assert_version_pointer false (object raw) ≡ ok old)
        × (downgrade_reason latest old ≡ none)
  floor_lem none latest floor u is_floor h raw e = absurd (cc)
  floor_lem (some r) latest floor u (old, same, checked, _) h raw e = (
    old,
    subst (λ z. assert_version_pointer false (object z) ≡ ok old) (cc) checked,
    refusal_lem latest old u (subst (λ f. refusal_of latest f ≡ ok u) same h),
  )

  unexpired :
      (b : Bool) (u : Unit {0}) → (if b then err pointer_expired else ok tt) ≡ ok u → b ≡ false
  unexpired true u h = absurd (cc)
  unexpired false u h = refl

  sync_online-Ends :
      (authenticate : Authenticator) (latest : VersionPointer) (x : Option Members) (start w : W)
      → pointer_authenticator p args ≡ ok authenticate
      → IsFetched p host authenticate latest
      → fetch_pointer p host args.base_url authenticate start ≡ (ok latest, w)
      → active w ≡ x
      → Ends active (Settled start x) x (sync_online p host args authenticate latest w)
  unfolding sync_online
  sync_online-Ends authenticate latest x start t trust ((value, checked), authentic) sent k1 =
      now_Ends p host _ t (
        lift-Ends _ _ t k1 λ expired flagged. lift-Ends _ _ t k1 λ _ current.
          lift-Ends _ _ t k1 λ _ identity.
            bind_Ends _ _ t (report-Fixes p host active store _) k1 λ _ t2 _ k2.
              bind_Ends _ _ t2 (rollback_floor-Fixes p host active store args) k2
                λ floor t3 floored k3. lift-Ends _ _ t3 k3 λ u accepted.
                  let is_floor =
                    rollback_floor-IsFloor p host active store args t2 t3 floor floored in
                  let may : MayReplace p host args start x latest = record {
                    authenticate = authenticate;
                    trust = trust;
                    authentic = authentic;
                    counted = (assert_version_pointer-IsChecked true value latest checked).1 refl;
                    sent = ap (λ r. r.0) sent;
                    current =
                        ap (λ r. is_expired latest (host.clock r.1)) sent
                        ∙ flagged
                        ∙ ap ok (unexpired expired _ current);
                    identity = identity;
                    fresh_for =
                        floor_lem x latest floor u (subst (λ y. IsFloor args y floor) k2 is_floor)
                          accepted;
                  } in
                  catch-Ends _ _ t3
                    (weaken may (
                      download-Ends p host active store args latest x t3
                        (parse_stored_pointer-assert_version_pointer true value latest checked) k3))
                    λ e t4 k4.
                      Fixes-Ends _ t4 (on_failure-Fixes p host active store args authenticate _ e)
                        k4 λ _ _ _ kept. unmoved kept)

  settled-Ends :
      (authenticate : Authenticator) (r : Outcome Fault VersionPointer) (x : Option Members)
      (start w : W)
      → pointer_authenticator p args ≡ ok authenticate
      → fetch_pointer p host args.base_url authenticate start ≡ (r, w)
      → ((latest : VersionPointer) → r ≡ ok latest → IsFetched p host authenticate latest)
      → active w ≡ x
      → Ends active (Settled start x) x (settled p host args authenticate r w)
  settled-Ends authenticate (ok latest) x start w trust sent fetched same =
      sync_online-Ends authenticate latest x start w trust (fetched latest refl) sent same
  settled-Ends authenticate (err e) x start w trust sent fetched same =
      Fixes-Ends _ w (sync_offline-Fixes p host active store args authenticate e) same
        λ _ _ _ kept. unmoved kept

  sync_index-Ends :
      (w : W) → Ends active (Settled w (active w)) (active w) (sync_index p host args w)
  unfolding sync_index
  sync_index-Ends w = lift-Ends _ _ w refl λ _ _. lift-Ends _ _ w refl λ authenticate trust.
      bind_Ends _ _ w (Fixes-attempt _ (fetch_pointer-Fixes p host active store _ authenticate))
        refl
        λ r t e k.
          settled-Ends authenticate r (active w) w t trust (attempted _ w t r e)
            (λ latest is_ok.
              Returns-at _ latest (fetch_pointer-IsFetched p host args.base_url authenticate w)
                (ap (λ z. z.0) (attempted _ w t r e) ∙ is_ok))
            k

  -- Over a store that keeps its contract: if `syncIndex` moves the active pointer, it returns a result,
  -- and the new one is the pointer that the call fetched and the result names: it is authentic under
  -- the key or the keyring of the call, has a counter, the expected identity and no deadline behind the
  -- clock as it was when the pointer had come, is no downgrade of the pointer that was active, and its
  -- manifest and all selected files were verified before.
  pub sync_index_active :
      (w : W)
      → (active (sync_index p host args w).1 ≡ active w)
        ⊎ ((latest : VersionPointer) × (result : SyncResult) × ((sync_index p host args w).0
              ≡ ok result)
            × MayReplace p host args w (active w) latest
            × Downloaded p host args latest result (active (sync_index p host args w).1))
  sync_index_active w = go (sync_index p host args w) (sync_index-Ends w)
    where
      go :
          (r : Outcome Fault SyncResult × W)
          → Ends active (Settled w (active w)) (active w) r
          → (active r.1 ≡ active w)
            ⊎ ((latest : VersionPointer) × (result : SyncResult) × (r.0 ≡ ok result)
                × MayReplace p host args w (active w) latest
                × Downloaded p host args latest result (active r.1))
      go (ok result, t) (ended (unmoved k)) = inl k
      go (ok result, t) (ended (moved latest may done)) = inr (latest, result, refl, may, done)
      go (err e, t) (failed k) = inl k

  -- Over a store that keeps its contract: when `syncIndex` throws, the active pointer is what it was before the call.
  pub sync_index_error :
      (w : W) (e : Fault)
      → (sync_index p host args w).0 ≡ err e
      → active (sync_index p host args w).1 ≡ active w
  sync_index_error w e h = go (sync_index p host args w) (sync_index-Ends w) h
    where
      go :
          (r : Outcome Fault SyncResult × W)
          → Ends active (Settled w (active w)) (active w) r
          → r.0 ≡ err e
          → active r.1 ≡ active w
      go (ok result, t) q h = absurd (cc)
      go (err x, t) (failed k) h = k
