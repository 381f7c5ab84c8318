-- ===== src/Engine/Loading.antt =====
-- engine/keyring.ts: `loadTrustRoot`.
use edgeproc_browser.Base.{ok, ◌≡◌, Text}
use edgeproc_browser.Base.Effects.{Exec, ◌>>=◌, lift}
use edgeproc_browser.Base.Returns.{Gives, Gives-then, Gives-lift, Returns-at}
use edgeproc_browser.Engine.Keyring.Trust.{IsTrusted, parse_trust_root-IsTrusted}
use edgeproc_browser.Engine.Fault.{Fault}
use edgeproc_browser.Engine.Platform.{Platform}
use edgeproc_browser.Engine.Keyring.{Keyring, parse_trust_root, max_trust_root_bytes}
use edgeproc_browser.Engine.Host.{Host}

module _ {W : Type 0} (p : Platform) (host : Host W) where
  unfoldable pub load_trust_root : Text → Exec Fault W Keyring
  load_trust_root url = do
    bytes ← host.fetch_bytes url max_trust_root_bytes
    lift (parse_trust_root p bytes)

  -- A trust root that `loadTrustRoot` returns has its keys under the ids that are derived from them,
  -- each once and of 32 bytes, within the caps, and one at least that is not revoked.
  pub load_trust_root-IsTrusted :
      (url : Text) (w : W) (ring : Keyring) → (load_trust_root url w).0 ≡ ok ring → IsTrusted p ring
  unfolding load_trust_root
  load_trust_root-IsTrusted url w ring h =
      let gives : Gives (IsTrusted p) (load_trust_root url) = Gives-then _ _ λ bytes.
        Gives-lift (parse_trust_root p bytes)
          λ found e. (parse_trust_root-IsTrusted p bytes found e).0 in
      Returns-at _ ring (gives.at w) h
