-- ===== src/Engine/Sync/Offline.antt =====
-- engine/sync.ts: `syncFromCache` and the rollback floor.
use edgeproc_browser.Base.{refl, Outcome, Bool, Option, none, some, ok, err}
use edgeproc_browser.Base.Effects.{Fixes, Fixes-bind, Fixes-pure, Fixes-raise, fixes_rules}
use edgeproc_browser.Engine.Json.{Members}
use edgeproc_browser.Engine.Platform.{Platform}
use edgeproc_browser.Engine.Pointer.{SyncArgs, Authenticator}
use edgeproc_browser.Engine.Host.{SyncResult, Host, IsStore}
use edgeproc_browser.Engine.Transfer.Steady.{report-Fixes, verify_reassembly-Fixes}
use edgeproc_browser.Engine.Sync.{
  serve_from, or_raise, cached_or, Fault, serve, sync_from_cache, floor_from, rollback_floor,
  sync_offline, on_failure, now,
}

module _ {W : Type 0} (p : Platform) (host : Host W) (active : W → Option Members)
    (store : IsStore host active) where
  pub now-Fixes : Fixes active (now p host)
  now-Fixes = record { at = λ w. refl }

  serve-Fixes :
      (args : SyncArgs) (authenticate : Authenticator) (raw : Members)
      → Fixes active (serve p host args authenticate raw)
  unfolding serve
  serve-Fixes args authenticate raw =
      search (fixes_rules, now-Fixes, store.get_manifest, report-Fixes, verify_reassembly-Fixes)
        depth 24

  serve_from-Fixes :
      (args : SyncArgs) (authenticate : Authenticator) (found : Option Members)
      → Fixes active (serve_from p host args authenticate found)
  serve_from-Fixes args authenticate none = Fixes-pure _
  serve_from-Fixes args authenticate (some raw) = serve-Fixes args authenticate raw

  pub sync_from_cache-Fixes :
      (args : SyncArgs) (authenticate : Authenticator)
      → Fixes active (sync_from_cache p host args authenticate)
  unfolding sync_from_cache
  sync_from_cache-Fixes args authenticate =
      Fixes-bind _ _ store.reads (serve_from-Fixes args authenticate)

  floor_from-Fixes :
      (args : SyncArgs) (found : Option Members) → Fixes active (floor_from p host args found)
  floor_from-Fixes args none = Fixes-pure _
  floor_from-Fixes args (some raw) = search fixes_rules depth 12

  pub rollback_floor-Fixes : (args : SyncArgs) → Fixes active (rollback_floor p host args)
  unfolding rollback_floor
  rollback_floor-Fixes args = Fixes-bind _ _ store.reads (floor_from-Fixes args)

  or_raise-Fixes :
      (e : Fault) (cached : Option SyncResult) → Fixes active (or_raise p host e cached)
  or_raise-Fixes e none = Fixes-raise _
  or_raise-Fixes e (some result) = Fixes-pure _

  pub sync_offline-Fixes :
      (args : SyncArgs) (authenticate : Authenticator) (e : Fault)
      → Fixes active (sync_offline p host args authenticate e)
  unfolding sync_offline
  sync_offline-Fixes args authenticate e =
      search (fixes_rules, sync_from_cache-Fixes, or_raise-Fixes) depth 12

  cached_or-Fixes :
      (e : Fault) (r : Outcome Fault (Option SyncResult)) → Fixes active (cached_or p host e r)
  cached_or-Fixes e (ok none) = Fixes-raise _
  cached_or-Fixes e (ok (some cached)) = Fixes-pure _
  cached_or-Fixes e (err x) = Fixes-raise _

  pub on_failure-Fixes :
      (args : SyncArgs) (authenticate : Authenticator) (has_floor : Bool) (e : Fault)
      → Fixes active (on_failure p host args authenticate has_floor e)
  unfolding on_failure
  on_failure-Fixes args authenticate has_floor e =
      search (fixes_rules, sync_from_cache-Fixes, cached_or-Fixes) depth 12
