-- ===== src/Engine/Freshness/Version.antt =====
-- engine/sync.ts: the verdict of `versionFreshness`.
use edgeproc_browser.Base.{
  ◌↔◌, subst, inr, false, inl, ℕ, ◌≡◌, ◌⊎◌, refl, true, Bool, Option, none, some, List, arith,
  text_eq, text_eq_iff,
}
use edgeproc_browser.Engine.ActivePointer.{VersionPointer}
use edgeproc_browser.Engine.Freshness.{
  fresh, stale, undecidable, Freshness, version_freshness, parse_release, compare_release,
  by_releases, by_order,
}
use edgeproc_browser.Engine.Freshness.Release.{
  Says-unique, IsOlder-asymm, IsOlder, compare_release_iff, Says,
}
use Prim.Native.Nat.{Ordering}

-- The versions parse, and the first is older.
abbrev pub OlderVersion : VersionPointer → VersionPointer → Type 0
OlderVersion a b =
    (here : List ℕ) × (there : List ℕ) × (parse_release a.version ≡ some here)
    × (parse_release b.version ≡ some there)
    × IsOlder here there

-- The versions parse, and `incoming` is newer, or is not older with the same manifest.
abbrev pub VersionFresh : VersionPointer → VersionPointer → Type 0
VersionFresh incoming active =
    (here : List ℕ) × (there : List ℕ) × (parse_release incoming.version ≡ some here)
    × (parse_release active.version ≡ some there)
    × (IsOlder there here
        ⊎ (Says Ordering.eq here there × (incoming.manifest_hash ≡ active.manifest_hash)))

-- The releases that the two verdicts speak of are those that the versions parse to.
module _ (incoming active : VersionPointer) (here there : List ℕ)
    (p : parse_release incoming.version ≡ some here)
    (q : parse_release active.version ≡ some there) where
  IsOlder-at : OlderVersion incoming active → IsOlder here there
  IsOlder-at (s, t, p', q', older) =
      let e : s ≡ here = cc in
      let f : t ≡ there = cc in subst (λ x. IsOlder x there) e (subst (λ y. IsOlder s y) f older)

  fresh_at :
      VersionFresh incoming active
      → IsOlder there here
        ⊎ (Says Ordering.eq here there × (incoming.manifest_hash ≡ active.manifest_hash))
  fresh_at (s, t, p', q', newer) =
      let e : s ≡ here = cc in
      let f : t ≡ there = cc in
      subst
        (λ x.
          IsOlder there x
          ⊎ (Says Ordering.eq x there × (incoming.manifest_hash ≡ active.manifest_hash)))
        e
        (subst
          (λ y.
            IsOlder y s ⊎ (Says Ordering.eq s y × (incoming.manifest_hash ≡ active.manifest_hash)))
          f newer)

  not_both : IsOlder here there → IsOlder there here ⊎ Says Ordering.eq here there → ⊥
  not_both older (inl newer) = IsOlder-asymm older newer
  not_both older (inr same) =
      absurd (cc (Says-unique here there Ordering.lt Ordering.eq older same))

OlderVersion-ne-VersionFresh :
    (incoming active : VersionPointer)
    → OlderVersion incoming active
    → VersionFresh incoming active
    → ⊥
OlderVersion-ne-VersionFresh i a (s, t, p, q, older) newer = elim (fresh_at i a s t p q newer) [
  | inl h ↦ not_both i a s t p q older (inl h)
  | inr (same, _) ↦ not_both i a s t p q older (inr same)
]

-- What each verdict of `versionFreshness` means.
abbrev Means : Freshness → VersionPointer → VersionPointer → Type 0
Means stale incoming active = OlderVersion incoming active
Means fresh incoming active = VersionFresh incoming active
Means undecidable incoming active = ¬ (OlderVersion incoming active ⊎ VersionFresh incoming active)

module _ (incoming active : VersionPointer) where
  no_release :
      (parse_release incoming.version ≡ none) ⊎ (parse_release active.version ≡ none)
      → Means undecidable incoming active
  no_release (inl e) (inl (_, _, p, _, _)) = cc
  no_release (inl e) (inr (_, _, p, _, _)) = cc
  no_release (inr e) (inl (_, _, _, q, _)) = cc
  no_release (inr e) (inr (_, _, _, q, _)) = cc

  module _ (here there : List ℕ) (p : parse_release incoming.version ≡ some here)
      (q : parse_release active.version ≡ some there) where
    equal_releases :
        Says Ordering.eq here there
        → text_eq incoming.manifest_hash active.manifest_hash ≡ false
        → Means undecidable incoming active
    equal_releases same differ (inl older) =
        not_both incoming active here there p q (IsOlder-at incoming active here there p q older)
          (inr same)
    equal_releases same differ (inr newer) = elim (fresh_at incoming active here there p q newer) [
      | inl h ↦ absurd (cc (Says-unique here there Ordering.gt Ordering.eq h same))
      | inr (_, manifest) ↦
          ground (arith, text_eq_iff incoming.manifest_hash active.manifest_hash, manifest)
    ]

    by_order-Means :
        (o : Ordering) (b : Bool)
        → Says o here there
        → text_eq incoming.manifest_hash active.manifest_hash ≡ b
        → Means (by_order o b) incoming active
    by_order-Means Ordering.lt b h e = (here, there, p, q, h)
    by_order-Means Ordering.gt b h e = (here, there, p, q, inl h)
    by_order-Means Ordering.eq true h e = (here, there, p, q, inr (h, (text_eq_iff _ _).0 e))
    by_order-Means Ordering.eq false h e = equal_releases h e

  version_freshness-Means : Means (version_freshness incoming active) incoming active
  unfolding version_freshness
  version_freshness-Means =
      go (parse_release incoming.version) (parse_release active.version) refl refl
    where
      go :
          (x y : Option (List ℕ))
          → parse_release incoming.version ≡ x
          → parse_release active.version ≡ y
          → Means
              (by_releases x y (text_eq incoming.manifest_hash active.manifest_hash))
              incoming
              active
      go (some here) (some there) p q =
          by_order-Means here there p q (compare_release here there) _
            ((compare_release_iff here there _).0 refl) refl
      go none y p q = no_release (inl p)
      go (some here) none p q = no_release (inr q)

  -- `versionFreshness` is "stale" exactly if both versions parse as releases and the incoming one is
  -- older.
  pub version_freshness_stale :
      (version_freshness incoming active ≡ stale) ↔ OlderVersion incoming active
  version_freshness_stale = (
    λ e. subst (λ f. Means f incoming active) e version_freshness-Means,
    λ h. only (version_freshness incoming active) version_freshness-Means h,
  )
    where
      only : (f : Freshness) → Means f incoming active → OlderVersion incoming active → f ≡ stale
      only stale m h = refl
      only fresh m h = absurd (OlderVersion-ne-VersionFresh incoming active h m)
      only undecidable m h = absurd (m (inl h))

  -- `versionFreshness` is "fresh" exactly if both versions parse as releases and the active one is
  -- older, or they are equal and the manifest is the same.
  pub version_freshness_fresh :
      (version_freshness incoming active ≡ fresh) ↔ VersionFresh incoming active
  version_freshness_fresh = (
    λ e. subst (λ f. Means f incoming active) e version_freshness-Means,
    λ h. only (version_freshness incoming active) version_freshness-Means h,
  )
    where
      only : (f : Freshness) → Means f incoming active → VersionFresh incoming active → f ≡ fresh
      only stale m h = absurd (OlderVersion-ne-VersionFresh incoming active m h)
      only fresh m h = refl
      only undecidable m h = absurd (m (inr h))
