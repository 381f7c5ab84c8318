-- ===== src/Engine/Keyring/Trust.antt =====
-- engine/keyring.ts: what a parsed trust root is known to be.
use edgeproc_browser.Base.{
  ℕ, ◌+◌, ◌≤◌, ◌<◌, true, false, ◌≡◌, ◌≢◌, inl, inr, refl, subst, List, [], ◌∷◌, arith, Text, Bytes,
  text_eq, text_eq_iff, Bool-cases, Outcome-cases, ok, if◌then◌else◌, All, length,
}
use mathlib.Core.List.{Memᴰ}
use edgeproc_browser.Base.Table.{contains, add, contains-add}
use edgeproc_browser.Engine.ActivePointer.{is_key_id}
use edgeproc_browser.Engine.Platform.{Platform}
use edgeproc_browser.Engine.Keyring.{
  Keyring, TrustedKey, derive_key_id, check_keys, check_revoked, assert_keyring, parse_trust_root,
  max_keys, max_revoked, raw_key_bytes, decode_trust_root, max_trust_root_bytes,
}

-- No name stands twice.
abbrev pub IsDistinct : List Text → Type 0
IsDistinct [] = Unit
IsDistinct (a ∷ s) = All (λ b. a ≢ b) s × IsDistinct s

abbrev pub ids : List TrustedKey → List Text
ids [] = []
ids (k ∷ keys) = k.id ∷ ids keys

-- None of the names is in the set.
abbrev IsNew : List Text → List Text → Type 0
IsNew seen names = All (λ b. contains seen b ≡ false) names

IsNew-add :
    (seen : List Text) (a : Text) (names : List Text)
    → IsNew (add seen a) names
    → IsNew seen names × All (λ b. a ≢ b) names
IsNew-add seen a [] h = (tt, tt)
IsNew-add seen a (b ∷ names) h =
    let (new, differ) = IsNew-add seen a names h.1 in
    let here : contains seen b ≡ false = ground (arith, contains-add seen a b, h.0) in
    let other : text_eq a b ≡ false = ground (arith, contains-add seen a b, h.0) in
    ((here, new), ((λ e. ground (arith, text_eq_iff a b, e, other)), differ))

check_revoked_sound :
    (seen names : List Text)
    → check_revoked seen names ≡ ok tt
    → All (λ b. is_key_id b ≡ true) names × IsNew seen names × IsDistinct names
unfolding check_revoked
check_revoked_sound seen [] h = (tt, tt, tt)
check_revoked_sound seen (a ∷ names) h =
    let (formed, new, distinct) = check_revoked_sound (add seen a) names (ground arith) in
    let (old, differ) = IsNew-add seen a names new in
    ((ground arith, formed), (ground arith, old), (differ, distinct))

module _ (p : Platform) where
  -- The key has the length of a raw key, and the id is derived from it.
  abbrev pub IsDerived : TrustedKey → Type 0
  IsDerived k = (length k.public_key ≡ raw_key_bytes) × (derive_key_id p k.public_key ≡ k.id)

  check_keys_sound :
      (revoked seen : List Text) (usable n : ℕ) (keys : List TrustedKey)
      → check_keys p revoked seen usable keys ≡ ok n
      → All IsDerived keys × IsNew seen (ids keys) × IsDistinct (ids keys)
  unfolding check_keys
  check_keys_sound revoked seen usable n [] h = (tt, tt, tt)
  check_keys_sound revoked seen usable n (k ∷ keys) h =
      let (derived, new, distinct) =
        check_keys_sound revoked (add seen k.id)
          (if contains revoked k.id then usable else usable + 1) n keys (ground arith) in
      let (old, differ) = IsNew-add seen k.id (ids keys) new in
      (
        ((ground arith, ground (arith, text_eq_iff (derive_key_id p k.public_key) k.id)), derived),
        (ground arith, old),
        (differ, distinct),
      )

  check_keys-usable :
      (revoked seen : List Text) (usable n : ℕ) (keys : List TrustedKey)
      → check_keys p revoked seen usable keys ≡ ok n
      → usable < n
      → (k : TrustedKey) × Memᴰ k keys × (contains revoked k.id ≡ false)
  unfolding check_keys
  check_keys-usable revoked seen usable n [] h more = absurd (ground arith)
  check_keys-usable revoked seen usable n (k ∷ keys) h more =
      elim (Bool-cases (contains revoked k.id)) [
        | inr kept ↦ (k, Memᴰ.head refl, kept)
        | inl out ↦
            let (j, m, kept) =
              check_keys-usable revoked (add seen k.id) usable n keys (ground arith) more in
            (j, Memᴰ.tail m, kept)
      ]

  -- A trust root that holds together.
  pub record IsTrusted (ring : Keyring) : Type 0 where
    pub key_count : length ring.keys ≤ max_keys
    pub revoked_count : length ring.revoked ≤ max_revoked
    pub derived : All IsDerived ring.keys
    pub distinct : IsDistinct (ids ring.keys)
    pub revoked_formed : All (λ b. is_key_id b ≡ true) ring.revoked
    pub revoked_distinct : IsDistinct ring.revoked
    pub usable : (k : TrustedKey) × Memᴰ k ring.keys × (contains ring.revoked k.id ≡ false)

  assert_keyring-parts :
      (ring : Keyring)
      → assert_keyring p ring ≡ ok tt
      → (length ring.revoked ≤ max_revoked)
        × (check_revoked [] ring.revoked ≡ ok tt)
        × (length ring.keys ≤ max_keys)
        × ((n : ℕ) × (check_keys p ring.revoked [] 0 ring.keys ≡ ok n) × (0 < n))
  unfolding assert_keyring
  assert_keyring-parts ring h = (
    ground arith,
    ground arith,
    ground arith,
    elim (Outcome-cases (check_keys p ring.revoked [] 0 ring.keys)) [
      | inl (n, e) ↦ (n, e, ground arith)
      | inr (x, e) ↦ absurd (ground arith)
    ],
  )

  assert_keyring-IsTrusted : (ring : Keyring) → assert_keyring p ring ≡ ok tt → IsTrusted ring
  assert_keyring-IsTrusted ring h =
      let (few, revoked, count, (n, checked, some_left)) = assert_keyring-parts ring h in
      let (formed, _, revoked_distinct) = check_revoked_sound [] ring.revoked revoked in
      let (derived, _, distinct) = check_keys_sound ring.revoked [] 0 n ring.keys checked in
      record {
        key_count = count;
        revoked_count = few;
        derived = derived;
        distinct = distinct;
        revoked_formed = formed;
        revoked_distinct = revoked_distinct;
        usable = check_keys-usable ring.revoked [] 0 n ring.keys checked some_left;
      }

  parse_trust_root-parts :
      (bytes : Bytes) (ring : Keyring)
      → parse_trust_root p bytes ≡ ok ring
      → (assert_keyring p ring ≡ ok tt) × (length bytes ≤ max_trust_root_bytes)
  unfolding parse_trust_root
  parse_trust_root-parts bytes ring h = elim (Outcome-cases (decode_trust_root p bytes)) [
    | inr (x, e) ↦ absurd (ground arith)
    | inl (made, e) ↦ elim (Outcome-cases (assert_keyring p made)) [
      | inr (x, f) ↦ absurd (ground arith)
      | inl (tt, f) ↦
          let same : made ≡ ring = ground arith in
          (subst (λ k. assert_keyring p k ≡ ok tt) same f, ground arith)
    ]
  ]

  -- A trust root that `parseTrustRoot` returns has at most 64 keys of 32 bytes under the ids that are
  -- derived from them, each id once; at most 1024 revoked ids, well formed, each once; and a key that
  -- is not revoked. The bytes were at most 64 KiB.
  pub parse_trust_root-IsTrusted :
      (bytes : Bytes) (ring : Keyring)
      → parse_trust_root p bytes ≡ ok ring
      → IsTrusted ring × (length bytes ≤ max_trust_root_bytes)
  parse_trust_root-IsTrusted bytes ring h =
      let (checked, capped) = parse_trust_root-parts bytes ring h in
      (assert_keyring-IsTrusted ring checked, capped)
