-- ===== src/Engine/Keyring.antt =====
-- engine/keyring.ts: the trust root as a keyring, its checks, and the verification under it.
pub mod Trust
pub mod Verify
use edgeproc_browser.Base.{
  ℕ, suc, ◌+◌, ◌-◌, ◌*◌, Bool, true, false, ◌&&◌, not, Option, none, some, List, [], ◌∷◌, ltb, leb,
  ◌==◌, if◌then◌else◌, Text, Bytes, codes, text_eq, length, take, every, find, select, ok, err,
  require, ◌>>=◌, ◌>>◌,
}
use edgeproc_browser.Base.Table.{contains, add}
use edgeproc_browser.Engine.Json.{
  Json, Members, array, object, end, member, items, property, as_string, as_object,
}
use edgeproc_browser.Engine.Fault.{Result, keyring, signature, key_revoked, unknown_key}
use edgeproc_browser.Engine.Platform.{Platform, sha256_hex, verify_ed25519}
use edgeproc_browser.Engine.ActivePointer.{is_sha256, is_key_id}

-- MAX_TRUST_ROOT_BYTES, MAX_KEYS, MAX_REVOKED, RAW_KEY_BYTES
abbrev pub max_trust_root_bytes : ℕ
max_trust_root_bytes = 64 * 1024

abbrev pub max_keys : ℕ
max_keys = 64

abbrev pub max_revoked : ℕ
max_revoked = 1024

abbrev pub raw_key_bytes : ℕ
raw_key_bytes = 32

pub record TrustedKey : Type 0 where
  pub id : Text
  pub public_key : Bytes

pub record Keyring : Type 0 where
  pub keys : List TrustedKey
  pub revoked : List Text

-- Number.parseInt of one hexadecimal digit
abbrev hex_value : ℕ → ℕ
hex_value u = if leb u b'9' then u - b'0' else u - 87

unfoldable pub from_hex : Text → Bytes
from_hex [] = []
from_hex (u ∷ []) = []
from_hex (u ∷ v ∷ s) = (16 * hex_value u + hex_value v) ∷ from_hex s

abbrev count_members : Members → ℕ
count_members end = 0
count_members (member k v ms) = suc (count_members ms)

abbrev is_present : Option Json → Bool
is_present none = false
is_present (some _) = true

-- The keys are distinct, so as many keys as fields, each field among them, are exactly the fields.
unfoldable pub exact_object : Json → List Text → Result Members
exact_object value fields = elim (as_object value) [
  | none ↦ err (keyring "must be an object")
  | some ms ↦
      if count_members ms == length fields && every (λ f. is_present (property ms f)) fields
      then ok ms
      else err (keyring "must have exactly the fields")
]

unfoldable pub bounded_array : Option Json → ℕ → Result (List Json)
bounded_array (some (array vs)) maximum =
    if ltb maximum (length (items vs)) then err (keyring "exceeds entries") else ok (items vs)
bounded_array _ maximum = err (keyring "must be an array")

-- the loop of `revokedIds`
unfoldable pub revoked_from : List Text → List Json → Result (List Text)
revoked_from seen [] = ok []
revoked_from seen (v ∷ vs) = elim (as_string (some v)) [
  | none ↦ err (keyring "revoked key ids must be 16 lowercase hex chars")
  | some id ↦
      let rest = revoked_from (add seen id) vs in
      if not (is_key_id id)
      then err (keyring "revoked key ids must be 16 lowercase hex chars")
      else if contains seen id
      then err (keyring "key is revoked twice")
      else rest >>= λ ids. ok (id ∷ ids)
]

unfoldable pub revoked_ids : Option Json → Result (List Text)
revoked_ids value = do ids ← bounded_array value max_revoked; revoked_from [] ids

-- The same checks on a list that is typed as one already.
unfoldable pub check_revoked : List Text → List Text → Result (Unit {0})
check_revoked seen [] = ok tt
check_revoked seen (id ∷ ids) =
    let rest = check_revoked (add seen id) ids in
    if not (is_key_id id)
    then err (keyring "revoked key ids must be 16 lowercase hex chars")
    else if contains seen id
    then err (keyring "key is revoked twice")
    else rest

unfoldable pub trusted_key : Json → Result TrustedKey
trusted_key value = do
  entry ← exact_object value (codes "key_id" ∷ codes "public_key" ∷ [])
  id ← elim (as_string (property entry (codes "key_id"))) [
    | none ↦ err (keyring "key_id must be 16 lowercase hex chars")
    | some s ↦ if is_key_id s then ok s else err (keyring "key_id must be 16 lowercase hex chars")
  ]
  key ← elim (as_string (property entry (codes "public_key"))) [
    | none ↦ err (keyring "public_key must be 64 lowercase hex chars")
    | some s ↦
        if is_sha256 s then ok s else err (keyring "public_key must be 64 lowercase hex chars")
  ]
  ok (record { id = id; public_key = from_hex key })

unfoldable pub trusted_keys : List Json → Result (List TrustedKey)
trusted_keys [] = ok []
trusted_keys (v ∷ vs) = do key ← trusted_key v; keys ← trusted_keys vs; ok (key ∷ keys)

module _ (p : Platform) where
  unfoldable pub derive_key_id : Bytes → Text
  derive_key_id public_key = take 16 (sha256_hex p public_key)

  -- the loop of `assertKeyring` over the keys, with the count of the usable ones
  unfoldable pub check_keys : List Text → List Text → ℕ → List TrustedKey → Result ℕ
  check_keys revoked seen usable [] = ok usable
  check_keys revoked seen usable (key ∷ keys) =
      let rest =
        check_keys revoked (add seen key.id)
          (if contains revoked key.id then usable else usable + 1) keys in
      if not
        (length key.public_key == raw_key_bytes && text_eq (derive_key_id key.public_key) key.id)
      then err (keyring "key_id must be derived from a 32-byte public key")
      else if contains seen key.id
      then err (keyring "key is listed twice")
      else rest

  unfoldable pub assert_keyring : Keyring → Result (Unit {0})
  assert_keyring ring = do
    require (leb (length ring.revoked) max_revoked) (keyring "revoked exceeds entries")
    check_revoked [] ring.revoked
    require (leb (length ring.keys) max_keys) (keyring "keys exceeds entries")
    usable ← check_keys ring.revoked [] 0 ring.keys
    require (ltb 0 usable) (keyring "keyring has no unrevoked key")

  abbrev pub raw_ring : Bytes → Keyring
  raw_ring bytes = record {
    keys = record { id = derive_key_id bytes; public_key = bytes } ∷ [];
    revoked = [];
  }

  unfoldable pub parse_document : Bytes → Result Keyring
  parse_document bytes = do
    value ← elim (p.parse_json_strict bytes) [
      | none ↦ err (keyring "trust root is neither a 32-byte key nor a JSON keyring")
      | some v ↦ ok v
    ]
    document ← exact_object value (codes "keys" ∷ codes "revoked" ∷ codes "schema" ∷ [])
    require
        (elim (as_string (property document (codes "schema"))) [
          | none ↦ false
          | some s ↦ text_eq s (codes "edgeproc.keyring/v1")
        ])
        (keyring "keyring schema must be edgeproc.keyring/v1")
    entries ← bounded_array (property document (codes "keys")) max_keys
    keys ← trusted_keys entries
    revoked ← revoked_ids (property document (codes "revoked"))
    ok (record { keys = keys; revoked = revoked })

  -- the ring before it is checked
  unfoldable pub decode_trust_root : Bytes → Result Keyring
  decode_trust_root bytes =
      if length bytes == raw_key_bytes then ok (raw_ring bytes) else parse_document bytes

  unfoldable pub parse_trust_root : Bytes → Result Keyring
  parse_trust_root bytes = do
    require (leb (length bytes) max_trust_root_bytes) (keyring "trust root exceeds cap")
    ring ← decode_trust_root bytes
    assert_keyring ring
    ok ring

  unfoldable pub any_verifies : List TrustedKey → Bytes → Text → Bool
  any_verifies [] message sig = false
  any_verifies (key ∷ keys) message sig = elim (verify_ed25519 p key.public_key message sig) [
    | ok _ ↦ true
    | err _ ↦ any_verifies keys message sig
  ]

  -- with a key id
  unfoldable pub verify_named : Keyring → Bytes → Text → Text → Result (Unit {0})
  verify_named ring message sig key_id =
      if contains ring.revoked key_id
      then err key_revoked
      else elim (find (λ k. text_eq k.id key_id) ring.keys) [
        | none ↦ err unknown_key
        | some key ↦ verify_ed25519 p key.public_key message sig
      ]

  -- without one
  unfoldable pub verify_unnamed : Keyring → Bytes → Text → Result (Unit {0})
  verify_unnamed ring message sig =
      let unrevoked = select (λ k. not (contains ring.revoked k.id)) ring.keys in
      let still_listed = select (λ k. contains ring.revoked k.id) ring.keys in
      if any_verifies unrevoked message sig
      then ok tt
      else if any_verifies still_listed message sig
      then err key_revoked
      else err signature

  unfoldable pub verify_with_keyring : Keyring → Bytes → Text → Option Text → Result (Unit {0})
  verify_with_keyring ring message sig none = verify_unnamed ring message sig
  verify_with_keyring ring message sig (some key_id) = verify_named ring message sig key_id
