-- ===== src/Engine/LegacyStores/Keys.antt =====
-- engine/legacyStores.ts: the keys that are the library's own.
use mathlib.Core.Option.{some-injective}
use edgeproc_browser.Base.{
  subst, ◌⊎◌, inl, inr, ℕ, ◌≡◌, ◌↔◌, refl, Bool, true, false, Option, none, some, [], ◌∷◌, ◌++◌,
  arith, Text, length, starts_with, ◌&&◌, if◌then◌else◌,
}
use edgeproc_browser.Engine.ActivePointer.{is_sha256}
use edgeproc_browser.Engine.LegacyStores.{
  Kind, chunk, manifest, slice_from, prefix_of, try_kind, own_key,
}

-- A text that starts with another is that one and the rest.
starts_with_iff : (s t : Text) → (starts_with s t ≡ true) ↔ (s ≡ t ++ slice_from (length t) s)
unfolding starts_with
starts_with_iff s [] = ((λ h. refl), (λ h. refl))
starts_with_iff [] (b ∷ t) = ((λ h. cc), (λ h. cc))
starts_with_iff (a ∷ s) (b ∷ t) = ground (arith, starts_with_iff s t)

starts_with-append : (t s : Text) → starts_with (t ++ s) t ≡ true
unfolding starts_with
starts_with-append [] s = refl
starts_with-append (b ∷ t) s = ground (arith, starts_with-append t s)

slice_from-append : (t s : Text) → slice_from (length t) (t ++ s) ≡ s
slice_from-append [] s = refl
slice_from-append (b ∷ t) s = slice_from-append t s

-- The key of an object of the library.
abbrev pub IsKeyOf : Text → ℕ → Kind → Text → Type 0
IsKeyOf key separator kind hash = (key ≡ prefix_of kind separator ++ hash) × (is_sha256 hash ≡ true)

module _ (key : Text) (separator : ℕ) where
  try_kind-IsKeyOf :
      (kind : Kind) (otherwise : Option (Kind × Text)) (k : Kind) (hash : Text)
      → try_kind kind separator key otherwise ≡ some (k, hash)
      → (IsKeyOf key separator k hash) ⊎ (otherwise ≡ some (k, hash))
  try_kind-IsKeyOf kind otherwise k hash h =
      go (starts_with key (prefix_of kind separator))
        (is_sha256 (slice_from (length (prefix_of kind separator)) key)) refl refl h
    where
      go :
          (a b : Bool)
          → starts_with key (prefix_of kind separator) ≡ a
          → is_sha256 (slice_from (length (prefix_of kind separator)) key) ≡ b
          → (if a && b
              then some (kind, slice_from (length (prefix_of kind separator)) key)
              else otherwise)
            ≡ some (k, hash)
          → (IsKeyOf key separator k hash) ⊎ (otherwise ≡ some (k, hash))
      go true true e f h = inl (
          subst (λ (x : Kind × Text). IsKeyOf key separator x.0 x.1) (some-injective _ _ h)
            ((starts_with_iff key (prefix_of kind separator)).0 e, f))
      go true false e f h = inr h
      go false b e f h = inr h

  found-IsKeyOf :
      (kind : Kind) (hash : Text)
      → own_key (some key) separator ≡ some (kind, hash)
      → IsKeyOf key separator kind hash
  unfolding own_key
  found-IsKeyOf kind hash h = elim (try_kind-IsKeyOf chunk _ kind hash h) [
    | inl found ↦ found
    | inr e ↦ elim (try_kind-IsKeyOf manifest none kind hash e) [ inl k ↦ k | inr k ↦ absurd (cc) ]
  ]

try_kind-append :
    (kind : Kind) (separator : ℕ) (hash : Text) (otherwise : Option (Kind × Text))
    → is_sha256 hash ≡ true
    → try_kind kind separator (prefix_of kind separator ++ hash) otherwise ≡ some (kind, hash)
try_kind-append kind separator hash otherwise h =
    rw
      (
        starts_with-append (prefix_of kind separator) hash,
        slice_from-append (prefix_of kind separator) hash,
        h,
      )
      refl

own_key-append :
    (kind : Kind) (separator : ℕ) (hash : Text)
    → is_sha256 hash ≡ true
    → own_key (some (prefix_of kind separator ++ hash)) separator ≡ some (kind, hash)
unfolding own_key starts_with
own_key-append chunk separator hash h = try_kind-append chunk separator hash _ h
own_key-append manifest separator hash h = try_kind-append manifest separator hash none h

-- `ownKey` reads a key as the kind and the hash exactly if the key is their prefix and the hash, and the
-- hash is a SHA-256: no other key is the library's, and none is read as two things.
pub own_key_iff :
    (key : Text) (separator : ℕ) (kind : Kind) (hash : Text)
    → (own_key (some key) separator ≡ some (kind, hash)) ↔ IsKeyOf key separator kind hash
own_key_iff key separator kind hash = (
  found-IsKeyOf key separator kind hash,
  λ (same, h). rw same (own_key-append kind separator hash h),
)
