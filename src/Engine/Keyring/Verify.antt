-- ===== src/Engine/Keyring/Verify.antt =====
-- engine/keyring.ts: which keys may verify.
use edgeproc_browser.Base.{
  Bool, true, false, ◌≡◌, ◌↔◌, inl, inr, refl, sym, none, some, List, [], ◌∷◌, arith, Text, Bytes,
  text_eq, text_eq_iff, Bool-cases, Option-cases, ok, err, find, select, not,
}
use mathlib.Core.List.{Memᴰ}
use edgeproc_browser.Base.Table.{contains}
use edgeproc_browser.Engine.Fault.{Result, key_revoked}
use edgeproc_browser.Engine.Platform.{Platform, verify_ed25519}
use edgeproc_browser.Engine.Keyring.{
  Keyring, TrustedKey, any_verifies, verify_named, verify_unnamed, verify_with_keyring,
}

module _ {A : Type 0} (test : A → Bool) where
  Memᴰ-extend :
      (a x : A) (xs ys : List A)
      → test x ≡ true
      → (Memᴰ a ys → Memᴰ a xs × (test a ≡ true))
      → Memᴰ a (x ∷ ys)
      → Memᴰ a (x ∷ xs) × (test a ≡ true)
  Memᴰ-extend a x xs ys e f (Memᴰ.head same) = (Memᴰ.head same, rw same e)
  Memᴰ-extend a x xs ys e f (Memᴰ.tail m) = (Memᴰ.tail (f m).0, (f m).1)

  Memᴰ-select : (a : A) (xs : List A) → Memᴰ a (select test xs) → Memᴰ a xs × (test a ≡ true)
  Memᴰ-select a [] m = elim m [ ]
  Memᴰ-select a (x ∷ xs) m = elim (Bool-cases (test x)) [
    | inl e ↦ Memᴰ-extend a x xs (select test xs) e (Memᴰ-select a xs) (rw e at m)
    | inr e ↦ let (k, t) = Memᴰ-select a xs (rw e at m) in (Memᴰ.tail k, t)
  ]

  select-Memᴰ : (a : A) (xs : List A) → Memᴰ a xs → test a ≡ true → Memᴰ a (select test xs)
  select-Memᴰ a [] m h = elim m [ ]
  select-Memᴰ a (x ∷ xs) (Memᴰ.head e) h = rw (rw e at h) (Memᴰ.head e)
  select-Memᴰ a (x ∷ xs) (Memᴰ.tail m) h = elim (Bool-cases (test x)) [
    | inl e ↦ rw e (Memᴰ.tail (select-Memᴰ a xs m h))
    | inr e ↦ rw e (select-Memᴰ a xs m h)
  ]

  find-Memᴰ : (a : A) (xs : List A) → find test xs ≡ some a → Memᴰ a xs × (test a ≡ true)
  find-Memᴰ a [] h = cc
  find-Memᴰ a (x ∷ xs) h = elim (Bool-cases (test x)) [
    | inl e ↦ let same : x ≡ a = ground arith in (Memᴰ.head (sym same), ground arith)
    | inr e ↦ let (m, t) = find-Memᴰ a xs (rw e at h) in (Memᴰ.tail m, t)
  ]

module _ (p : Platform) (message : Bytes) (sig : Text) where
  -- The key verifies the signature.
  abbrev pub Verifies : TrustedKey → Type 0
  Verifies key = verify_ed25519 p key.public_key message sig ≡ ok tt

  -- A key of the list verifies it.
  abbrev pub SomeVerifies : List TrustedKey → Type 0
  SomeVerifies keys = (key : TrustedKey) × Memᴰ key keys × Verifies key

  any_verifies-SomeVerifies :
      (keys : List TrustedKey) → any_verifies p keys message sig ≡ true → SomeVerifies keys
  unfolding any_verifies
  any_verifies-SomeVerifies [] h = cc
  any_verifies-SomeVerifies (k ∷ keys) h =
      go (verify_ed25519 p k.public_key message sig) refl (any_verifies-SomeVerifies keys)
    where
      go :
          (r : Result (Unit {0}))
          → verify_ed25519 p k.public_key message sig ≡ r
          → (any_verifies p keys message sig ≡ true → SomeVerifies keys)
          → SomeVerifies (k ∷ keys)
      go (ok tt) e later = (k, Memᴰ.head refl, e)
      go (err x) e later = let (key, m, v) = later (ground arith) in (key, Memᴰ.tail m, v)

  SomeVerifies-any_verifies :
      (keys : List TrustedKey) (key : TrustedKey)
      → Memᴰ key keys
      → Verifies key
      → any_verifies p keys message sig ≡ true
  unfolding any_verifies
  SomeVerifies-any_verifies [] key m v = elim m [ ]
  SomeVerifies-any_verifies (k ∷ keys) key (Memᴰ.head e) v = rw (← e) (rw (v, any_verifies))
  SomeVerifies-any_verifies (k ∷ keys) key (Memᴰ.tail m) v =
      ground (arith, SomeVerifies-any_verifies keys key m v)

module _ (p : Platform) (ring : Keyring) (message : Bytes) (sig : Text) where
  -- A key of the ring that is not revoked verifies it.
  abbrev pub Trusted : TrustedKey → Type 0
  Trusted key =
      Memᴰ key ring.keys × (contains ring.revoked key.id ≡ false) × Verifies p message sig key

  -- Without a key id the signature is accepted exactly if some key of the ring that is not revoked
  -- verifies it.
  pub verify_unnamed_iff :
      (verify_with_keyring p ring message sig none ≡ ok tt) ↔ ((key : TrustedKey) × Trusted key)
  unfolding verify_with_keyring verify_unnamed
  verify_unnamed_iff = (
    λ h.
        let (key, m, v) =
          any_verifies-SomeVerifies p message sig
            (select (λ k. not (contains ring.revoked k.id)) ring.keys) (ground arith) in
        let (listed, kept) = Memᴰ-select (λ k. not (contains ring.revoked k.id)) key ring.keys m in
        (key, (listed, ground arith, v)),
    λ (key, (listed, kept, v)).
        let found =
          SomeVerifies-any_verifies p message sig
            (select (λ k. not (contains ring.revoked k.id)) ring.keys) key
            (select-Memᴰ (λ k. not (contains ring.revoked k.id)) key ring.keys listed
              (ground arith))
            v in
        rw found,
  )

  -- With a key id only a key of that id that the ring lists and has not revoked may verify.
  pub verify_named-Trusted :
      (key_id : Text)
      → verify_with_keyring p ring message sig (some key_id) ≡ ok tt
      → (key : TrustedKey) × (key.id ≡ key_id) × Trusted key
  unfolding verify_with_keyring verify_named
  verify_named-Trusted key_id h = elim (Option-cases (find (λ k. text_eq k.id key_id) ring.keys)) [
    | inl e ↦ absurd (ground arith)
    | inr (key, e) ↦
        let (listed, named) = find-Memᴰ (λ k. text_eq k.id key_id) key ring.keys e in
        let same = (text_eq_iff key.id key_id).0 named in
        (key, same, (listed, rw same (ground arith), ground arith))
  ]

  -- A key id that the ring has revoked is refused whatever the signature.
  pub verify_named_revoked :
      (key_id : Text)
      → contains ring.revoked key_id ≡ true
      → verify_with_keyring p ring message sig (some key_id) ≡ err key_revoked
  unfolding verify_with_keyring verify_named
  verify_named_revoked key_id h = rw h
