-- ===== src/Engine/Pointer.antt =====
-- engine/sync.ts: the signed pointer, its checks, its signature, its identity and its deadline.
pub mod Checked
pub mod Signing
use edgeproc_browser.Base.{
  ℕ, Bool, true, false, ◌&&◌, ◌||◌, not, Option, none, some, List, [], ◌∷◌, ◌++◌, leb,
  if◌then◌else◌, Text, Bytes, codes, ok, err, require, ◌>>=◌, ◌>>◌,
}
use edgeproc_browser.Engine.Json.{
  Json, Members, Number, property, safe_natural, as_string, is_absent, as_object, object,
}
use edgeproc_browser.Engine.Fault.{Result, integrity, type_error}
use edgeproc_browser.Engine.ActivePointer.{
  VersionPointer, is_sha256, bounded_string, optional_bounded_string, optional_key_id,
  optional_expiry, as_pointer, same_text,
}
use edgeproc_browser.Engine.Canonical.{canonical_bytes}
use edgeproc_browser.Engine.Keyring.{Keyring, assert_keyring, verify_with_keyring}
use edgeproc_browser.Engine.Platform.{Platform}

-- SyncArgs | KeyringSyncArgs; the store, the transport and the clock are those of the host.
pub record SyncArgs : Type 0 where
  pub base_url : Text
  pub verify : Option (Bytes → Text → Result (Unit {0}))
  pub keyring : Option Keyring
  -- `none` skips the check; `some none` asks for an absent identity
  pub expected_bundle_id : Option (Option Text)
  pub expected_channel : Option (Option Text)
  pub wanted_paths : Option (List Text)
  pub max_total_fetch_bytes : Option Number

unfoldable pub object_at : Json → Result Members
object_at value = elim (as_object value) [
  | none ↦ err (integrity "must be an object")
  | some ms ↦ ok ms
]

-- assertHash, with the string
unfoldable pub assert_hash : Option Json → Result Text
assert_hash value = elim (as_string value) [
  | none ↦ err (integrity "must be a lowercase SHA-256 digest")
  | some s ↦ if is_sha256 s then ok s else err (integrity "must be a lowercase SHA-256 digest")
]

abbrev has_number : Option ℕ → Bool
has_number none = false
has_number (some _) = true

-- The test of the sequence: a counter, or none where one is not required.
unfoldable pub valid_sequence : Bool → Option Json → Bool
valid_sequence true value = has_number (safe_natural value)
valid_sequence false value = is_absent value || has_number (safe_natural value)

-- The object passes all of `assertVersionPointer`.
unfoldable pub check_pointer : Bool → Members → Result (Unit {0})
check_pointer require_sequence ms = do
  _ ← assert_hash (property ms (codes "manifest_hash"))
  require
      (bounded_string (property ms (codes "version")) 200
        && bounded_string (property ms (codes "signature")) 512)
      (integrity "signed latest pointer has invalid version/signature")
  require (valid_sequence require_sequence (property ms (codes "sequence")))
      (integrity "signed latest pointer is missing a non-negative monotonic sequence")
  require (optional_key_id (property ms (codes "key_id")))
      (integrity "pointer key_id must be 16 lowercase hex characters or null")
  require (optional_expiry (property ms (codes "expires_at")))
      (integrity "pointer expires_at must be a positive safe integer or null")
  require (optional_bounded_string (property ms (codes "bundle_id")) 200)
      (integrity "pointer bundle_id must be a string of at most 200 characters or null")
  require (optional_bounded_string (property ms (codes "channel")) 200)
      (integrity "pointer channel must be a string of at most 200 characters or null")

unfoldable pub assert_version_pointer : Bool → Json → Result VersionPointer
assert_version_pointer require_sequence value = do
  ms ← object_at value
  check_pointer require_sequence ms
  ok (as_pointer ms)

-- The field is left out of the signed bytes where it is null or absent.
abbrev pub unless_set : Option Text → Text → List Text
unless_set none key = key ∷ []
unless_set (some _) key = []

abbrev pub unless_number : Option ℕ → Text → List Text
unless_number none key = key ∷ []
unless_number (some _) key = []

unfoldable pub excluded : VersionPointer → List Text
excluded pointer =
    codes "signature"
    ∷ (unless_set pointer.bundle_id (codes "bundle_id")
        ++ (unless_set pointer.channel (codes "channel")
            ++ (unless_set pointer.key_id (codes "key_id")
                ++ unless_number pointer.expires_at (codes "expires_at"))))

unfoldable pub pointer_signing_bytes : VersionPointer → Bytes
pointer_signing_bytes pointer = canonical_bytes pointer.raw (excluded pointer)

-- PointerAuthenticator
abbrev pub Authenticator : Type 0
Authenticator = VersionPointer → Result (Unit {0})

unfoldable pub pointer_authenticator : Platform → SyncArgs → Result Authenticator
pointer_authenticator p args = elim args.verify [
  | none ↦ elim args.keyring [
    | none ↦ err (type_error "syncIndex needs exactly one of verify or keyring")
    | some ring ↦
        assert_keyring p ring
        >> ok (λ pointer.
          verify_with_keyring p ring (pointer_signing_bytes pointer) pointer.signature
            pointer.key_id)
  ]
  | some verify ↦ elim args.keyring [
    | none ↦ ok (λ pointer. verify (pointer_signing_bytes pointer) pointer.signature)
    | some _ ↦ err (type_error "syncIndex needs exactly one of verify or keyring")
  ]
]

-- One of the two comparisons of `assertExpectedIdentity`.
unfoldable pub meets : Option (Option Text) → Option Text → Bool
meets none found = true
meets (some expected) found = same_text found expected

unfoldable pub assert_expected_identity : VersionPointer → SyncArgs → Result (Unit {0})
assert_expected_identity pointer args = do
  require (meets args.expected_bundle_id pointer.bundle_id)
      (integrity "signed pointer does not match expected bundle identity")
  require (meets args.expected_channel pointer.channel)
      (integrity "signed pointer does not match expected release channel")

-- `isExpired` at a reading of the clock: the whole seconds of a finite one, 0 below 0. A fraction
-- does not matter, since the deadline is whole.
unfoldable pub is_expired : VersionPointer → Option ℕ → Result Bool
is_expired pointer reading = elim pointer.expires_at [
  | none ↦ ok false
  | some deadline ↦ elim reading [
    | none ↦ err (type_error "sync clock must return finite Unix seconds")
    | some now ↦ ok (leb deadline now)
  ]
]
