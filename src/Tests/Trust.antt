-- ===== src/Tests/Trust.antt =====
-- The trust root, its keys, and the manifest under a pointer.
use edgeproc_browser.Base.Effects.{◌>>=◌}
use edgeproc_browser.Base.Table.{get, put}
use edgeproc_browser.Base.{split_on, all_units}
use edgeproc_browser.Engine.Manifest.{
  assert_safe_path, is_safe_path, assert_bounded_integer, checked_add, add_sizes,
}
use edgeproc_browser.Engine.ActivePointer.{as_pointer, string_of, is_sha256, counter_of}
use edgeproc_browser.Engine.Json.{as_object, as_string, safe_natural}
use edgeproc_browser.Engine.Pointer.{object_at, assert_hash}
use edgeproc_browser.Base.Table.{contains, add}
use edgeproc_browser.Base.{ends_with, starts_with}
use edgeproc_browser.Engine.Manifest.{select_paths}
use edgeproc_browser.Base.{text_eq, [], ◌∷◌, codes, some, none, ok, ◌≡◌, ◌↔◌, refl, length, ◌≤◌}
use edgeproc_browser.Engine.Platform.{hex, sha256_hex, verify_ed25519}
use edgeproc_browser.Engine.Json.{property}
use edgeproc_browser.Engine.Keyring.{
  TrustedKey, parse_trust_root, decode_trust_root, assert_keyring, check_keys, check_revoked,
  derive_key_id, verify_with_keyring, verify_named, max_trust_root_bytes,
}
use edgeproc_browser.Engine.Keyring.Trust.{IsTrusted, parse_trust_root-IsTrusted}
use edgeproc_browser.Engine.Keyring.Verify.{Trusted, verify_unnamed_iff, verify_named-Trusted}
use edgeproc_browser.Engine.Manifest.{
  check_totals, check_refs, check_ref, wants, check_file, check_files, manifest_shape,
  assert_manifest, selected_files,
}
use edgeproc_browser.Engine.Manifest.Accepted.{IsValid, assert_manifest-IsValid}
use edgeproc_browser.Engine.Loading.{load_trust_root}
use edgeproc_browser.Engine.Memory.{empty}
use edgeproc_browser.Engine.Memory.AsHost.{Outside, memory_host}
use edgeproc_browser.Tests.Bundle.{platform, ring, zeros_32, manifest_json, latest, bundle, file}

root_accepted : parse_trust_root platform zeros_32 ≡ ok ring
unfolding parse_trust_root decode_trust_root assert_keyring check_revoked check_keys derive_key_id
    sha256_hex hex text_eq contains add
root_accepted = refl

parse_trust_root-IsTrusted_example :
    IsTrusted platform ring × (length zeros_32 ≤ max_trust_root_bytes)
parse_trust_root-IsTrusted_example = parse_trust_root-IsTrusted platform zeros_32 ring root_accepted

verify_unnamed_example :
    (verify_with_keyring platform ring (1 ∷ []) (codes "good") none ≡ ok tt)
    ↔ ((key : TrustedKey) × Trusted platform ring (1 ∷ []) (codes "good") key)
verify_unnamed_example = verify_unnamed_iff platform ring (1 ∷ []) (codes "good")

signed_by_name :
    verify_with_keyring platform ring (1 ∷ []) (codes "good") (some (codes "0000000000000000"))
    ≡ ok tt
unfolding verify_with_keyring verify_named verify_ed25519 derive_key_id sha256_hex hex text_eq
    contains
signed_by_name = refl

verify_named-Trusted_example :
    (key : TrustedKey) × (key.id ≡ codes "0000000000000000")
    × Trusted platform ring (1 ∷ []) (codes "good") key
verify_named-Trusted_example =
    verify_named-Trusted platform ring (1 ∷ []) (codes "good") (codes "0000000000000000")
      signed_by_name

manifest_accepted : assert_manifest manifest_json latest ≡ ok bundle
unfolding assert_manifest manifest_shape check_files check_file check_ref check_refs check_totals
    property text_eq object_at as_object as_string as_pointer string_of assert_safe_path
    is_safe_path starts_with split_on contains assert_hash is_sha256 all_units
    assert_bounded_integer safe_natural get checked_add add put counter_of add_sizes
manifest_accepted = refl

assert_manifest-IsValid_example : IsValid latest bundle
assert_manifest-IsValid_example =
    assert_manifest-IsValid manifest_json latest bundle manifest_accepted

file_selected : selected_files bundle (some (codes "a/" ∷ [])) ≡ ok (file ∷ [])
unfolding selected_files text_eq select_paths wants ends_with starts_with contains add
file_selected = refl

-- A server of the trust root.
abbrev root_server : Outside
root_server = record { fetch = λ url max_bytes. ok zeros_32; clock = none }

root_loaded : (load_trust_root platform (memory_host platform root_server) [] empty).0 ≡ ok ring
unfolding load_trust_root ◌>>=◌ parse_trust_root decode_trust_root assert_keyring check_revoked
    check_keys text_eq derive_key_id sha256_hex hex contains
root_loaded = refl
