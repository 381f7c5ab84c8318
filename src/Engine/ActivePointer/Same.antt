-- ===== src/Engine/ActivePointer/Same.antt =====
-- engine/activePointer.ts: what `samePointer` compares.
use edgeproc_browser.Base.{
  ℕ, ◌≡◌, ◌↔◌, true, Option, none, some, arith, text_eq_iff, Text, Bool, ◌&&◌,
}
use edgeproc_browser.Engine.ActivePointer.{
  Counter, undefined, null, count, VersionPointer, same_text, same_number, same_counter,
  same_fields,
}

-- Two pointers agree on every field that `samePointer` reads.
pub record IsSame (a b : VersionPointer) : Type 0 where
  pub manifest_hash : a.manifest_hash ≡ b.manifest_hash
  pub version : a.version ≡ b.version
  pub sequence : a.sequence ≡ b.sequence
  pub signature : a.signature ≡ b.signature
  pub bundle_id : a.bundle_id ≡ b.bundle_id
  pub channel : a.channel ≡ b.channel
  pub key_id : a.key_id ≡ b.key_id
  pub expires_at : a.expires_at ≡ b.expires_at

pub same_text_iff : (a b : Option Text) → (same_text a b ≡ true) ↔ (a ≡ b)
unfolding same_text
same_text_iff none none = ground arith
same_text_iff (some s) none = ground arith
same_text_iff none (some t) = ground arith
same_text_iff (some s) (some t) = ground (arith, text_eq_iff s t)

pub same_number_iff : (a b : Option ℕ) → (same_number a b ≡ true) ↔ (a ≡ b)
unfolding same_number
same_number_iff none none = ground arith
same_number_iff (some s) none = ground arith
same_number_iff none (some t) = ground arith
same_number_iff (some s) (some t) = ground arith

pub same_counter_iff : (a b : Counter) → (same_counter a b ≡ true) ↔ (a ≡ b)
unfolding same_counter
same_counter_iff undefined undefined = ground arith
same_counter_iff undefined _ = ground arith
same_counter_iff null null = ground arith
same_counter_iff null _ = ground arith
same_counter_iff (count m) (count n) = ground arith
same_counter_iff (count m) _ = ground arith

pub and_eight :
    (a b c d e f g h : Bool)
    → (a && b && c && d && e && f && g && h) ≡ true
    → (a ≡ true)
      × (b ≡ true)
      × (c ≡ true)
      × (d ≡ true)
      × (e ≡ true)
      × (f ≡ true)
      × (g ≡ true)
      × (h ≡ true)
and_eight a b c d e f g h = ground arith

module _ (a b : VersionPointer) where
  pub same_fields-IsSame : same_fields a b ≡ true → IsSame a b
  unfolding same_fields
  same_fields-IsSame h =
      let (hash, version, counter, sig, bundle, channel, key, expiry) =
        and_eight _ _ _ _ _ _ _ _ h in
      record {
        manifest_hash = (text_eq_iff _ _).0 hash;
        version = (text_eq_iff _ _).0 version;
        sequence = (same_counter_iff _ _).0 counter;
        signature = (text_eq_iff _ _).0 sig;
        bundle_id = (same_text_iff _ _).0 bundle;
        channel = (same_text_iff _ _).0 channel;
        key_id = (same_text_iff _ _).0 key;
        expires_at = (same_number_iff _ _).0 expiry;
      }

  pub IsSame-same_fields : IsSame a b → same_fields a b ≡ true
  unfolding same_fields
  IsSame-same_fields h = ground (
    arith,
    text_eq_iff a.manifest_hash b.manifest_hash,
    text_eq_iff a.version b.version,
    same_counter_iff a.sequence b.sequence,
    text_eq_iff a.signature b.signature,
    same_text_iff a.bundle_id b.bundle_id,
    same_text_iff a.channel b.channel,
    same_text_iff a.key_id b.key_id,
    same_number_iff a.expires_at b.expires_at,
  )

  -- `samePointer` answers true for two pointers exactly if they agree in all eight fields, an absent
  -- optional field being the same as a null one; the counter alone tells absent from null.
  pub same_fields_iff : (same_fields a b ≡ true) ↔ IsSame a b
  same_fields_iff = (same_fields-IsSame, IsSame-same_fields)

pub IsSame-refl : (a : VersionPointer) → IsSame a a
IsSame-refl a = ground arith

pub IsSame-symm : {a b : VersionPointer} → IsSame a b → IsSame b a
IsSame-symm h = ground arith

pub IsSame-trans : {a b c : VersionPointer} → IsSame a b → IsSame b c → IsSame a c
IsSame-trans h k = ground arith
