-- ===== src/Engine/Pointer/Checked.antt =====
-- engine/sync.ts: what `assertVersionPointer` and `assertExpectedIdentity` establish.
use mathlib.Core.Option.{some-injective}
use edgeproc_browser.Base.{
  ◌∙◌, ℕ, ◌≤◌, ◌<◌, Bool, true, false, ◌≡◌, ◌↔◌, inl, inr, refl, subst, Option, none, some, arith,
  Text, Option-cases, Outcome-cases, ok, length, codes,
}
use edgeproc_browser.Engine.Json.{
  Json, null, boolean, array, Members, object, as_object, as_string, property, is_absent,
  safe_natural, max_safe_integer, number, string,
}
use edgeproc_browser.Engine.ActivePointer.{
  VersionPointer, count, is_sha256, stored_sequence, stored_fields, parse_stored_pointer,
  bounded_string, optional_bounded_string, optional_key_id, optional_expiry, as_pointer, string_of,
  counter_of, is_key_id,
}
use edgeproc_browser.Engine.ActivePointer.Same.{same_text_iff}
use edgeproc_browser.Engine.Pointer.{
  SyncArgs, object_at, assert_hash, valid_sequence, check_pointer, assert_version_pointer, meets,
  assert_expected_identity,
}

-- The checked object, and the pointer that it is read as.
assert_version_pointer-parts :
    (b : Bool) (v : Json) (p : VersionPointer)
    → assert_version_pointer b v ≡ ok p
    → (ms : Members) × (v ≡ object ms) × (check_pointer b ms ≡ ok tt) × (p ≡ as_pointer ms)
unfolding assert_version_pointer object_at as_object
assert_version_pointer-parts b (object ms) p h = elim (Outcome-cases (check_pointer b ms)) [
  | inr (x, e) ↦ absurd (ground arith)
  | inl (tt, e) ↦ (ms, refl, e, ground arith)
]
assert_version_pointer-parts b _ p h = cc

check_pointer-relax :
    (b : Bool) (ms : Members) → check_pointer b ms ≡ ok tt → check_pointer false ms ≡ ok tt
unfolding check_pointer valid_sequence
check_pointer-relax true ms h = ground arith
check_pointer-relax false ms h = h

-- The bounds on a checked pointer.
pub record IsChecked (p : VersionPointer) : Type 0 where
  pub hash : is_sha256 p.manifest_hash ≡ true
  pub version_bounds : (0 < length p.version) × (length p.version ≤ 200)
  pub signature_bounds : (0 < length p.signature) × (length p.signature ≤ 512)
  pub key : (k : Text) → p.key_id ≡ some k → is_key_id k ≡ true
  pub deadline : (n : ℕ) → p.expires_at ≡ some n → (0 < n) × (n ≤ max_safe_integer)
  pub bundle : (s : Text) → p.bundle_id ≡ some s → length s ≤ 200
  pub channel : (s : Text) → p.channel ≡ some s → length s ≤ 200

-- The counter of a pointer that must have one.
abbrev pub HasCounter : VersionPointer → Type 0
HasCounter p = (n : ℕ) × (p.sequence ≡ count n) × (n ≤ max_safe_integer)

counter_at : (v : Option Json) (n : ℕ) → safe_natural v ≡ some n → counter_of v ≡ count n
unfolding counter_of safe_natural
counter_at none n e = cc
counter_at (some null) n e = cc
counter_at (some (boolean b)) n e = cc
counter_at (some (number x)) n e = ground arith
counter_at (some (string t)) n e = cc
counter_at (some (array xs)) n e = cc
counter_at (some (object ms)) n e = cc

safe_bound : (v : Option Json) (n : ℕ) → safe_natural v ≡ some n → n ≤ max_safe_integer
unfolding safe_natural
safe_bound v n e = ground arith

module _ (v : Option Json) where
  hash_lem : (s : Text) → assert_hash v ≡ ok s → is_sha256 (string_of v) ≡ true
  unfolding assert_hash string_of
  hash_lem s h = ground arith

  bounded_lem :
      (most : ℕ)
      → bounded_string v most ≡ true
      → (0 < length (string_of v)) × (length (string_of v) ≤ most)
  unfolding bounded_string string_of
  bounded_lem most h = ground arith

  optional_bounded_lem :
      (most : ℕ) (s : Text)
      → optional_bounded_string v most ≡ true
      → as_string v ≡ some s
      → length s ≤ most
  unfolding optional_bounded_string is_absent as_string
  optional_bounded_lem most s h e = ground arith

  key_id_lem : (k : Text) → optional_key_id v ≡ true → as_string v ≡ some k → is_key_id k ≡ true
  unfolding optional_key_id is_absent as_string
  key_id_lem k h e = ground arith

  expiry_lem :
      (n : ℕ)
      → optional_expiry v ≡ true
      → safe_natural v ≡ some n
      → (0 < n) × (n ≤ max_safe_integer)
  unfolding optional_expiry is_absent safe_natural
  expiry_lem n h e = ground arith

  counter_lem :
      valid_sequence true v ≡ true → (n : ℕ) × (counter_of v ≡ count n) × (n ≤ max_safe_integer)
  unfolding valid_sequence
  counter_lem h = elim (Option-cases (safe_natural v)) [
    | inl e ↦ absurd (ground arith)
    | inr (n, e) ↦ (n, counter_at v n e, safe_bound v n e)
  ]

module _ (b : Bool) (ms : Members) (h : check_pointer b ms ≡ ok tt) where
  tests_passed :
      ((s : Text) × (assert_hash (property ms (codes "manifest_hash")) ≡ ok s))
      × (bounded_string (property ms (codes "version")) 200 ≡ true)
      × (bounded_string (property ms (codes "signature")) 512 ≡ true)
      × (valid_sequence b (property ms (codes "sequence")) ≡ true)
      × (optional_key_id (property ms (codes "key_id")) ≡ true)
      × (optional_expiry (property ms (codes "expires_at")) ≡ true)
      × (optional_bounded_string (property ms (codes "bundle_id")) 200 ≡ true)
      × (optional_bounded_string (property ms (codes "channel")) 200 ≡ true)
  unfolding check_pointer
  tests_passed = elim (Outcome-cases (assert_hash (property ms (codes "manifest_hash")))) [
    | inr (x, e) ↦ absurd (ground arith)
    | inl (s, e) ↦ (
      (s, e),
      ground arith,
      ground arith,
      ground arith,
      ground arith,
      ground arith,
      ground arith,
      ground arith,
    )
  ]

  IsChecked-fields : IsChecked (as_pointer ms)
  unfolding as_pointer
  IsChecked-fields =
      let ((s, hash), version, sig, _, key, expiry, bundle, channel) = tests_passed in
      record {
        hash = hash_lem _ s hash;
        version_bounds = bounded_lem _ 200 version;
        signature_bounds = bounded_lem _ 512 sig;
        key = λ k e. key_id_lem _ k key e;
        deadline = λ n e. expiry_lem _ n expiry e;
        bundle = λ t e. optional_bounded_lem _ 200 t bundle e;
        channel = λ t e. optional_bounded_lem _ 200 t channel e;
      }

  counter_field : b ≡ true → HasCounter (as_pointer ms)
  unfolding as_pointer
  counter_field e =
      let (_, _, _, sequence, _, _, _, _) = tests_passed in
      counter_lem (property ms (codes "sequence"))
        (subst (λ c. valid_sequence c (property ms (codes "sequence")) ≡ true) e sequence)

checked_again :
    (ms : Members)
    → check_pointer false ms ≡ ok tt
    → assert_version_pointer false (object (as_pointer ms).raw) ≡ ok (as_pointer ms)
unfolding assert_version_pointer object_at as_object as_pointer
checked_again ms k = rw k

stored_sequence-valid :
    (b : Bool) (v : Option Json) → valid_sequence b v ≡ true → stored_sequence v ≡ true
unfolding valid_sequence stored_sequence
stored_sequence-valid true v h = ground arith
stored_sequence-valid false v h = ground arith

stored_hash :
    (v : Option Json) (s : Text)
    → assert_hash v ≡ ok s
    → (elim (as_string v) [ none ↦ false | some t ↦ is_sha256 t ]) ≡ true
unfolding assert_hash
stored_hash v s h = ground arith

stored_fields-checked :
    (b : Bool) (ms : Members) → check_pointer b ms ≡ ok tt → stored_fields ms ≡ true
unfolding stored_fields
stored_fields-checked b ms h =
    let ((s, hash), version, sig, sequence, key, expiry, bundle, channel) = tests_passed b ms h in
    rw
      (
        stored_hash _ s hash,
        version,
        sig,
        stored_sequence-valid b _ sequence,
        bundle,
        channel,
        key,
        expiry,
      )
      refl

-- A pointer that `assertVersionPointer` accepts is what `parseStoredPointer` makes of its object.
pub parse_stored_pointer-assert_version_pointer :
    (b : Bool) (v : Json) (p : VersionPointer)
    → assert_version_pointer b v ≡ ok p
    → parse_stored_pointer (object p.raw) ≡ some p
unfolding parse_stored_pointer as_object as_pointer
parse_stored_pointer-assert_version_pointer b v p h =
    let (ms, _, checked, same) = assert_version_pointer-parts b v p h in
    rw same (rw (stored_fields-checked b ms checked) refl)

-- A pointer that `assertVersionPointer` accepts is within its bounds, and has a safe counter where one
-- is required; its object is accepted again, to the same pointer, where none is.
pub assert_version_pointer-IsChecked :
    (b : Bool) (v : Json) (p : VersionPointer)
    → assert_version_pointer b v ≡ ok p
    → IsChecked p × (b ≡ true → HasCounter p) × (assert_version_pointer false (object p.raw) ≡ ok p)
assert_version_pointer-IsChecked b v p h =
    let (ms, _, checked, same) = assert_version_pointer-parts b v p h in
    rw same (
      IsChecked-fields b ms checked,
      counter_field b ms checked,
      checked_again ms (check_pointer-relax b ms checked),
    )

meets_iff :
    (o : Option (Option Text)) (found : Option Text)
    → (meets o found ≡ true) ↔ ((e : Option Text) → o ≡ some e → found ≡ e)
unfolding meets
meets_iff none found = ((λ _ e h. cc), (λ _. refl))
meets_iff (some x) found = (
  λ h e k. (same_text_iff found x).0 h ∙ some-injective x e k,
  λ f. (same_text_iff found x).1 (f x refl),
)

identity-parts :
    (p : VersionPointer) (args : SyncArgs)
    → (assert_expected_identity p args ≡ ok tt) ↔ (
        (meets args.expected_bundle_id p.bundle_id ≡ true)
        × (meets args.expected_channel p.channel ≡ true))
unfolding assert_expected_identity
identity-parts p args = ((λ h. ground arith), (λ h. ground arith))

-- `assertExpectedIdentity` accepts a pointer exactly if each identity that is asked for is its own,
-- null standing for an absent one.
pub assert_expected_identity_iff :
    (p : VersionPointer) (args : SyncArgs)
    → (assert_expected_identity p args ≡ ok tt) ↔ (
        ((e : Option Text) → args.expected_bundle_id ≡ some e → p.bundle_id ≡ e)
        × ((e : Option Text) → args.expected_channel ≡ some e → p.channel ≡ e))
assert_expected_identity_iff p args = (
  λ h.
      let (bundle, channel) = (identity-parts p args).0 h in
      ((meets_iff _ _).0 bundle, (meets_iff _ _).0 channel),
  λ (bundle, channel).
      (identity-parts p args).1 ((meets_iff _ _).1 bundle, (meets_iff _ _).1 channel),
)
