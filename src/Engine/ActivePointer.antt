-- ===== src/Engine/ActivePointer.antt =====
-- engine/activePointer.ts: the durable active pointer, parsed, compared and chosen.
pub mod Same
pub mod Choice
use edgeproc_browser.Base.{
  ℕ, Bool, true, false, ◌&&◌, ◌||◌, not, Option, none, some, List, [], ◌∷◌, ltb, leb, ◌==◌,
  if◌then◌else◌, Text, codes, text_eq, all_units, length, ok, err, ◌>>=◌,
}
use edgeproc_browser.Engine.Json.{
  Json, Members, property, safe_natural, as_string, is_absent, as_object,
}
use edgeproc_browser.Engine.Fault.{Result, integrity}

-- `sequence`, where the code tells undefined from null.
pub data Counter : Type 0 where
  undefined null : Counter
  count : ℕ → Counter

-- VersionPointer. An absent optional field and one that is null are both `none`. `raw` is the object
-- itself, whose canonical bytes the signature covers.
pub record VersionPointer : Type 0 where
  pub manifest_hash : Text
  pub version : Text
  pub bundle_id : Option Text
  pub channel : Option Text
  pub sequence : Counter
  pub key_id : Option Text
  pub expires_at : Option ℕ
  pub signature : Text
  pub raw : Members

-- [0-9a-f]
abbrev pub is_hex : ℕ → Bool
is_hex u = (leb b'0' u && leb u b'9') || (leb b'a' u && leb u b'f')

-- /^[0-9a-f]{64}$/u
unfoldable pub is_sha256 : Text → Bool
is_sha256 s = length s == 64 && all_units is_hex s

-- /^[0-9a-f]{16}$/u
unfoldable pub is_key_id : Text → Bool
is_key_id s = length s == 16 && all_units is_hex s

unfoldable pub bounded_string : Option Json → ℕ → Bool
bounded_string v most = elim (as_string v) [
  | none ↦ false
  | some s ↦ ltb 0 (length s) && leb (length s) most
]

unfoldable pub optional_bounded_string : Option Json → ℕ → Bool
optional_bounded_string v most =
    is_absent v || elim (as_string v) [ none ↦ false | some s ↦ leb (length s) most ]

unfoldable pub optional_key_id : Option Json → Bool
optional_key_id v = is_absent v || elim (as_string v) [ none ↦ false | some s ↦ is_key_id s ]

unfoldable pub optional_expiry : Option Json → Bool
optional_expiry v = is_absent v || elim (safe_natural v) [ none ↦ false | some n ↦ ltb 0 n ]

unfoldable pub stored_sequence : Option Json → Bool
stored_sequence v = is_absent v || elim (safe_natural v) [ none ↦ false | some _ ↦ true ]

-- A string field that a test has found to be a string.
unfoldable pub string_of : Option Json → Text
string_of v = elim (as_string v) [ none ↦ [] | some s ↦ s ]

unfoldable pub counter_of : Option Json → Counter
counter_of none = undefined
counter_of (some Json.null) = null
counter_of v = elim (safe_natural v) [ none ↦ undefined | some n ↦ count n ]

-- The object read at the type of its fields, `value as VersionPointer`.
unfoldable pub as_pointer : Members → VersionPointer
as_pointer ms = record {
  manifest_hash = string_of (property ms (codes "manifest_hash"));
  version = string_of (property ms (codes "version"));
  bundle_id = as_string (property ms (codes "bundle_id"));
  channel = as_string (property ms (codes "channel"));
  sequence = counter_of (property ms (codes "sequence"));
  key_id = as_string (property ms (codes "key_id"));
  expires_at = safe_natural (property ms (codes "expires_at"));
  signature = string_of (property ms (codes "signature"));
  raw = ms;
}

-- the chain of tests of `parseStoredPointer` on the object
unfoldable pub stored_fields : Members → Bool
stored_fields ms =
    elim (as_string (property ms (codes "manifest_hash"))) [ none ↦ false | some s ↦ is_sha256 s ]
    && bounded_string (property ms (codes "version")) 200
    && bounded_string (property ms (codes "signature")) 512
    && stored_sequence (property ms (codes "sequence"))
    && optional_bounded_string (property ms (codes "bundle_id")) 200
    && optional_bounded_string (property ms (codes "channel")) 200
    && optional_key_id (property ms (codes "key_id"))
    && optional_expiry (property ms (codes "expires_at"))

unfoldable pub parse_stored_pointer : Json → Option VersionPointer
parse_stored_pointer value = elim (as_object value) [
  | none ↦ none
  | some ms ↦ if stored_fields ms then some (as_pointer ms) else none
]

-- (left ?? null) === (right ?? null)
unfoldable pub same_text : Option Text → Option Text → Bool
same_text none none = true
same_text (some s) (some t) = text_eq s t
same_text _ _ = false

unfoldable pub same_number : Option ℕ → Option ℕ → Bool
same_number none none = true
same_number (some m) (some n) = m == n
same_number _ _ = false

-- left.sequence === right.sequence
unfoldable pub same_counter : Counter → Counter → Bool
same_counter undefined undefined = true
same_counter null null = true
same_counter (count m) (count n) = m == n
same_counter _ _ = false

-- the comparisons of `samePointer` between two pointers
unfoldable pub same_fields : VersionPointer → VersionPointer → Bool
same_fields left right =
    text_eq left.manifest_hash right.manifest_hash
    && text_eq left.version right.version
    && same_counter left.sequence right.sequence
    && text_eq left.signature right.signature
    && same_text left.bundle_id right.bundle_id
    && same_text left.channel right.channel
    && same_text left.key_id right.key_id
    && same_number left.expires_at right.expires_at

unfoldable pub same_pointer : Option VersionPointer → VersionPointer → Bool
same_pointer none right = false
same_pointer (some left) right = same_fields left right

-- Number.isSafeInteger(sequence) && sequence >= 0
abbrev pub has_count : Counter → Bool
has_count (count _) = true
has_count _ = false

-- The number that an order comparison takes a counter for: null is 0, undefined is NaN.
abbrev pub numeric : Counter → Option ℕ
numeric undefined = none
numeric null = some 0
numeric (count n) = some n

abbrev pub exceeds : Option ℕ → Option ℕ → Bool
exceeds (some m) (some n) = ltb n m
exceeds _ _ = false

-- a > b
unfoldable pub above : Counter → Counter → Bool
above a b = exceeds (numeric a) (numeric b)

-- One round of the loop of `selectHighestPointer`.
unfoldable pub select_step : Option VersionPointer → VersionPointer → Result (Option VersionPointer)
select_step none candidate = ok (some candidate)
select_step (some highest) candidate =
    if has_count candidate.sequence && not (has_count highest.sequence)
    then ok (some candidate)
    else if not (has_count candidate.sequence)
    then (if not (has_count highest.sequence) && not (same_fields candidate highest)
        then err (integrity "legacy durable active pointers disagree")
        else ok (some highest))
    else if same_counter candidate.sequence highest.sequence && not (same_fields candidate highest)
    then err (integrity "durable active pointers disagree at the same sequence")
    else if above candidate.sequence highest.sequence
    then ok (some candidate)
    else ok (some highest)

-- the loop, from the highest pointer so far
unfoldable pub select_from :
    Option VersionPointer → List (Option VersionPointer) → Result (Option VersionPointer)
select_from highest [] = ok highest
select_from highest (none ∷ rest) = select_from highest rest
select_from highest (some candidate ∷ rest) = do
  next ← select_step highest candidate
  select_from next rest

unfoldable pub select_highest_pointer :
    List (Option VersionPointer) → Result (Option VersionPointer)
select_highest_pointer candidates = select_from none candidates

unfoldable pub can_promote_pointer : Option VersionPointer → VersionPointer → Bool
can_promote_pointer none incoming = true
can_promote_pointer (some current) incoming =
    if not (has_count current.sequence)
    then true
    else if above incoming.sequence current.sequence
    then true
    else if above current.sequence incoming.sequence
    then false
    else same_fields current incoming
