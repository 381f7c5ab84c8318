-- ===== src/Engine/Pointer/Signing.antt =====
-- engine/sync.ts: what the bytes of `pointerSigningBytes` depend on.
use edgeproc_browser.Base.{
  arith, true, ◌≡◌, refl, ap, sym, ◌∙◌, ℕ, Option, none, some, List, ◌∷◌, ◌++◌, Text, text_eq,
  codes,
}
use edgeproc_browser.Base.Table.{contains}
use edgeproc_browser.Engine.Json.{
  Json, object, Members, null, member, property, as_string, safe_natural, string,
}
use edgeproc_browser.Engine.ActivePointer.{as_pointer, counter_of}
use edgeproc_browser.Engine.Canonical.{proto_key, encode, canonical_bytes, without_keys, serialize}
use edgeproc_browser.Engine.Pointer.{excluded, unless_set, unless_number, pointer_signing_bytes}

-- The optional fields.
pub data OptionalField : Type 0 where
  bundle_id channel key_id expires_at : OptionalField

abbrev pub key_of : OptionalField → Text
key_of bundle_id = codes "bundle_id"
key_of channel = codes "channel"
key_of key_id = codes "key_id"
key_of expires_at = codes "expires_at"

excluded-null :
    (f : OptionalField) (ms : Members)
    → property ms (key_of f) ≡ none
    → excluded (as_pointer (member (key_of f) null ms)) ≡ excluded (as_pointer ms)
unfolding excluded as_pointer property text_eq as_string safe_natural
excluded-null bundle_id ms h = rw h refl
excluded-null channel ms h = rw h refl
excluded-null key_id ms h = rw h refl
excluded-null expires_at ms h = rw h refl

-- The excluded keys, from the optional fields.
abbrev keys_of : Option Text → Option Text → Option Text → Option ℕ → List Text
keys_of b c k e =
    codes "signature"
    ∷ (unless_set b (codes "bundle_id")
        ++ (unless_set c (codes "channel")
            ++ (unless_set k (codes "key_id") ++ unless_number e (codes "expires_at"))))

channel_listed :
    (b k : Option Text) (e : Option ℕ) → contains (keys_of b none k e) (codes "channel") ≡ true
unfolding contains text_eq
channel_listed none k e = refl
channel_listed (some _) k e = refl

key_id_listed :
    (b c : Option Text) (e : Option ℕ) → contains (keys_of b c none e) (codes "key_id") ≡ true
unfolding contains text_eq
key_id_listed none none e = refl
key_id_listed none (some _) e = refl
key_id_listed (some _) none e = refl
key_id_listed (some _) (some _) e = refl

expires_at_listed :
    (b c k : Option Text) → contains (keys_of b c k none) (codes "expires_at") ≡ true
unfolding contains text_eq
expires_at_listed none none none = refl
expires_at_listed none none (some _) = refl
expires_at_listed none (some _) none = refl
expires_at_listed none (some _) (some _) = refl
expires_at_listed (some _) none none = refl
expires_at_listed (some _) none (some _) = refl
expires_at_listed (some _) (some _) none = refl
expires_at_listed (some _) (some _) (some _) = refl

excluded_absent :
    (f : OptionalField) (ms : Members)
    → property ms (key_of f) ≡ none
    → contains (excluded (as_pointer ms)) (key_of f) ≡ true
unfolding excluded as_pointer text_eq contains as_string safe_natural
excluded_absent bundle_id ms h = rw h refl
excluded_absent channel ms h = rw h (
    channel_listed (as_string (property ms (codes "bundle_id")))
      (as_string (property ms (codes "key_id"))) (safe_natural (property ms (codes "expires_at"))))
excluded_absent key_id ms h = rw h (
    key_id_listed (as_string (property ms (codes "bundle_id")))
      (as_string (property ms (codes "channel"))) (safe_natural (property ms (codes "expires_at"))))
excluded_absent expires_at ms h = rw h (
    expires_at_listed (as_string (property ms (codes "bundle_id")))
      (as_string (property ms (codes "channel"))) (as_string (property ms (codes "key_id"))))

-- The signed bytes of the object that a pointer is read from.
signing_lem :
    (ms : Members)
    → pointer_signing_bytes (as_pointer ms)
      ≡ encode (serialize (object (without_keys (proto_key ∷ excluded (as_pointer ms)) ms)))
unfolding pointer_signing_bytes canonical_bytes as_pointer
signing_lem ms = refl

contains-cons : (j k : Text) (s : List Text) → contains s k ≡ true → contains (j ∷ s) k ≡ true
unfolding contains
contains-cons j k s h = ground (arith, h)

without_keys_excluded :
    (exclude : List Text) (k : Text) (v : Json) (ms : Members)
    → contains exclude k ≡ true
    → without_keys exclude (member k v ms) ≡ without_keys exclude ms
unfolding without_keys
without_keys_excluded exclude k v ms h = rw h refl

-- An optional field that a pointer does not have can be added as null: the signed bytes stay as they
-- are, so a pointer that predates the field keeps its signature.
pub pointer_signing_bytes-null :
    (f : OptionalField) (ms : Members)
    → property ms (key_of f) ≡ none
    → pointer_signing_bytes (as_pointer (member (key_of f) null ms))
      ≡ pointer_signing_bytes (as_pointer ms)
pointer_signing_bytes-null f ms h =
    let without =
      ap (λ ex. without_keys (proto_key ∷ ex) (member (key_of f) null ms)) (excluded-null f ms h)
      ∙ without_keys_excluded (proto_key ∷ excluded (as_pointer ms)) (key_of f) null ms
          (contains-cons proto_key (key_of f) _ (excluded_absent f ms h)) in
    signing_lem (member (key_of f) null ms)
    ∙ (ap (λ kept. encode (serialize (object kept))) without ∙ sym (signing_lem ms))

-- The signed bytes do not depend on the signature.
pub pointer_signing_bytes-signature :
    (s t : Text) (ms : Members)
    → pointer_signing_bytes (as_pointer (member (codes "signature") (string s) ms))
      ≡ pointer_signing_bytes (as_pointer (member (codes "signature") (string t) ms))
unfolding pointer_signing_bytes canonical_bytes excluded as_pointer without_keys contains text_eq
    property as_string safe_natural counter_of
pointer_signing_bytes-signature s t ms = refl
