-- ===== src/Engine/Freshness/Rollback.antt =====
-- engine/sync.ts: what `downgradeReason` lets through.
use edgeproc_browser.Base.{
  ◌≤◌, ◌↔◌, false, inl, inr, Bool-cases, ℕ, ◌<◌, ◌≡◌, ◌⊎◌, true, Bool, none, arith, text_eq_iff,
  ◌&&◌,
}
use edgeproc_browser.Engine.ActivePointer.{count, above, VersionPointer}
use edgeproc_browser.Engine.ActivePointer.Same.{same_text_iff}
use edgeproc_browser.Engine.Freshness.{
  stale, fresh, version_freshness, is_comparable, sequence_freshness, downgrade_reason,
  same_identity,
}
use edgeproc_browser.Engine.Json.{max_safe_integer}
use edgeproc_browser.Engine.Freshness.Version.{
  version_freshness_stale, OlderVersion, VersionFresh, version_freshness_fresh,
}

-- One release, in one bundle and channel.
pub record SameIdentity (a b : VersionPointer) : Type 0 where
  pub manifest_hash : a.manifest_hash ≡ b.manifest_hash
  pub version : a.version ≡ b.version
  pub bundle_id : a.bundle_id ≡ b.bundle_id
  pub channel : a.channel ≡ b.channel

and_four :
    (a b c d : Bool) → (a && b && c && d) ≡ true → (a ≡ true) × (b ≡ true) × (c ≡ true) × (d ≡ true)
and_four a b c d = ground arith

module _ (a b : VersionPointer) where
  same_identity-SameIdentity : same_identity a b ≡ true → SameIdentity a b
  unfolding same_identity
  same_identity-SameIdentity h =
      let (hash, version, bundle, channel) = and_four _ _ _ _ h in
      record {
        manifest_hash = (text_eq_iff _ _).0 hash;
        version = (text_eq_iff _ _).0 version;
        bundle_id = (same_text_iff _ _).0 bundle;
        channel = (same_text_iff _ _).0 channel;
      }

  SameIdentity-same_identity : SameIdentity a b → same_identity a b ≡ true
  unfolding same_identity
  SameIdentity-same_identity h = ground (
    arith,
    text_eq_iff a.manifest_hash b.manifest_hash,
    text_eq_iff a.version b.version,
    same_text_iff a.bundle_id b.bundle_id,
    same_text_iff a.channel b.channel,
  )

-- The counters prove `incoming` fresh, when the active counter `n` can be compared.
abbrev pub CounterFresh : VersionPointer → VersionPointer → ℕ → ℕ → Type 0
CounterFresh incoming active m n = (n < m) ⊎ ((m ≡ n) × SameIdentity incoming active)

-- The verdict of `sequenceFreshness` on two counters that can be compared.
module _ (incoming active : VersionPointer) (m n : ℕ) (p : incoming.sequence ≡ count m)
    (q : active.sequence ≡ count n) (safe : n ≤ max_safe_integer) where
  sequence_fresh : CounterFresh incoming active m n → sequence_freshness incoming active ≡ fresh
  unfolding sequence_freshness is_comparable above
  sequence_fresh (inl more) = ground arith
  sequence_fresh (inr (same, identity)) =
      ground (arith, SameIdentity-same_identity incoming active identity)

  sequence_verdict : (sequence_freshness incoming active ≡ stale) ⊎ CounterFresh incoming active m n
  unfolding sequence_freshness is_comparable above
  sequence_verdict = elim (Bool-cases (same_identity incoming active)) [
    | inl same ↦
        let identity = same_identity-SameIdentity incoming active same in ground (arith, identity)
    | inr other ↦ ground arith
  ]

  accepted_counter :
      downgrade_reason incoming active ≡ none
      → CounterFresh incoming active m n × (¬ (OlderVersion incoming active))
  unfolding downgrade_reason
  accepted_counter h = (
    elim sequence_verdict [ inl bad ↦ absurd (ground arith) | inr good ↦ good ],
    λ older. ground (arith, (version_freshness_stale incoming active).1 older),
  )

  accepted_of_counter :
      CounterFresh incoming active m n × (¬ (OlderVersion incoming active))
      → downgrade_reason incoming active ≡ none
  unfolding downgrade_reason
  accepted_of_counter (newer, version) = ground (
    arith,
    sequence_fresh newer,
    λ (e : version_freshness incoming active ≡ stale).
        version ((version_freshness_stale incoming active).0 e),
  )

-- Against an active pointer whose counter can be compared, `downgradeReason` lets a pointer through
-- exactly if its counter is above the active one, or is the same with the same manifest, version,
-- bundle and channel; and its version is not an older release.
pub downgrade_reason_counter :
    (incoming active : VersionPointer) (m n : ℕ)
    → incoming.sequence ≡ count m
    → active.sequence ≡ count n
    → n ≤ max_safe_integer
    → (downgrade_reason incoming active ≡ none)
      ↔ (CounterFresh incoming active m n × (¬ (OlderVersion incoming active)))
downgrade_reason_counter incoming active m n p q safe = (
  accepted_counter incoming active m n p q safe,
  accepted_of_counter incoming active m n p q safe,
)

-- Against an active pointer without a counter, only the versions can let a pointer through.
pub downgrade_reason_version :
    (incoming active : VersionPointer)
    → is_comparable active.sequence ≡ false
    → (downgrade_reason incoming active ≡ none) ↔ VersionFresh incoming active
unfolding downgrade_reason sequence_freshness
downgrade_reason_version incoming active old = (
  λ h. (version_freshness_fresh incoming active).0 (ground (arith)),
  λ h. ground (arith, (version_freshness_fresh incoming active).1 h),
)
