-- ===== src/Engine/Freshness.antt =====
-- engine/sync.ts: the proof of freshness that a promotion needs.
pub mod Release
pub mod Version
pub mod Rollback
use edgeproc_browser.Base.{
  ℕ, ◌+◌, ◌-◌, ◌*◌, Bool, true, false, ◌&&◌, ◌||◌, not, Option, none, some, List, [], ◌∷◌, map, ltb,
  leb, ◌==◌, if◌then◌else◌, Text, text_eq, all_units, split_on, length, every,
}
use edgeproc_browser.Base.Double.{to_double}
use edgeproc_browser.Engine.Json.{max_safe_integer}
use edgeproc_browser.Engine.Fault.{Refusal, stale_sequence, stale_version, unprovable}
use edgeproc_browser.Engine.ActivePointer.{VersionPointer, Counter, count, same_text, above}
use Prim.Native.Nat.{compare, Ordering}

pub data Freshness : Type 0 where
  fresh stale undecidable : Freshness

-- [0-9]
abbrev pub is_digit : ℕ → Bool
is_digit u = leb b'0' u && leb u b'9'

-- version.replace(/^v/u, "")
unfoldable pub drop_v : Text → Text
drop_v [] = []
drop_v (u ∷ s) = if u == b'v' then s else u ∷ s

-- /^v?\d+(?:\.\d+)*$/u
unfoldable pub is_release : Text → Bool
is_release s = every (λ p. ltb 0 (length p) && all_units is_digit p) (split_on b'.' (drop_v s))

abbrev decimal_from : ℕ → Text → ℕ
decimal_from n [] = n
decimal_from n (u ∷ s) = decimal_from (n * 10 + (u - b'0')) s

-- Number(part), for a part of digits
unfoldable pub to_number : Text → ℕ
to_number s = to_double (decimal_from 0 s)

-- MAX_VERSION_CHARS
abbrev pub max_version_chars : ℕ
max_version_chars = 200

unfoldable pub parse_release : Text → Option (List ℕ)
parse_release version =
    if ltb max_version_chars (length version) || not (is_release version)
    then none
    else some (map to_number (split_on b'.' (drop_v version)))

-- One round: a difference other than 0 decides.
abbrev pub unless_equal : Ordering → Ordering → Ordering
unless_equal Ordering.eq rest = rest
unless_equal Ordering.lt rest = Ordering.lt
unless_equal Ordering.gt rest = Ordering.gt

-- The sign of `compareRelease`, which is all that its caller reads; a missing part is 0.
unfoldable pub compare_release : List ℕ → List ℕ → Ordering
compare_release [] [] = Ordering.eq
compare_release (a ∷ s) [] = unless_equal (compare a 0) (compare_release s [])
compare_release [] (b ∷ t) = unless_equal (compare 0 b) (compare_release [] t)
compare_release (a ∷ s) (b ∷ t) = unless_equal (compare a b) (compare_release s t)

unfoldable pub same_identity : VersionPointer → VersionPointer → Bool
same_identity a b =
    text_eq a.manifest_hash b.manifest_hash
    && text_eq a.version b.version
    && same_text a.bundle_id b.bundle_id
    && same_text a.channel b.channel

-- Number.isSafeInteger(counter) && counter >= 0
unfoldable pub is_comparable : Counter → Bool
is_comparable (count n) = leb n max_safe_integer
is_comparable _ = false

unfoldable pub sequence_freshness : VersionPointer → VersionPointer → Freshness
sequence_freshness incoming active =
    if not (is_comparable active.sequence)
    then undecidable
    else if above incoming.sequence active.sequence
    then fresh
    else if above active.sequence incoming.sequence
    then stale
    else if same_identity incoming active
    then fresh
    else stale

abbrev pub by_order : Ordering → Bool → Freshness
by_order Ordering.lt same_manifest = stale
by_order Ordering.gt same_manifest = fresh
by_order Ordering.eq same_manifest = if same_manifest then fresh else undecidable

abbrev pub by_releases : Option (List ℕ) → Option (List ℕ) → Bool → Freshness
by_releases (some here) (some there) same_manifest =
    by_order (compare_release here there) same_manifest
by_releases _ _ same_manifest = undecidable

unfoldable pub version_freshness : VersionPointer → VersionPointer → Freshness
version_freshness incoming active =
    by_releases (parse_release incoming.version) (parse_release active.version)
      (text_eq incoming.manifest_hash active.manifest_hash)

abbrev pub is_stale : Freshness → Bool
is_stale stale = true
is_stale _ = false

abbrev pub is_fresh : Freshness → Bool
is_fresh fresh = true
is_fresh _ = false

unfoldable pub downgrade_reason : VersionPointer → VersionPointer → Option Refusal
downgrade_reason incoming active =
    let sequence = sequence_freshness incoming active in
    let version = version_freshness incoming active in
    if is_stale sequence
    then some stale_sequence
    else if is_stale version
    then some stale_version
    else if is_fresh sequence || is_fresh version
    then none
    else some unprovable
