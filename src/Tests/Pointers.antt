-- ===== src/Tests/Pointers.antt =====
-- Pointers: checked, compared, chosen, signed, and let through or not.
use edgeproc_browser.Engine.Freshness.{sequence_freshness}
use edgeproc_browser.Base.{all_units}
use edgeproc_browser.Engine.ActivePointer.{
  is_sha256, bounded_string, optional_key_id, optional_expiry, optional_bounded_string,
}
use edgeproc_browser.Engine.Json.{as_object, as_string, is_absent}
use edgeproc_browser.Engine.Pointer.{object_at, assert_hash, valid_sequence}
use edgeproc_browser.Engine.ActivePointer.{select_from, select_step, same_counter, above}
use edgeproc_browser.Base.{
  text_eq, [], ◌∷◌, codes, some, none, ok, ◌≡◌, ◌↔◌, refl, true, false, arith,
}
use edgeproc_browser.Engine.Json.{safe_natural, object, property}
use edgeproc_browser.Engine.ActivePointer.{
  counter_of, VersionPointer, as_pointer, count, undefined, select_highest_pointer,
}
use edgeproc_browser.Engine.Fault.{stale_sequence}
use edgeproc_browser.Engine.Freshness.{downgrade_reason, is_comparable}
use edgeproc_browser.Engine.Freshness.Version.{OlderVersion, VersionFresh}
use edgeproc_browser.Engine.Freshness.Rollback.{
  CounterFresh, downgrade_reason_counter, downgrade_reason_version,
}
use edgeproc_browser.Engine.Pointer.{check_pointer, assert_version_pointer}
use edgeproc_browser.Engine.Pointer.Checked.{
  IsChecked, HasCounter, assert_version_pointer-IsChecked,
}
use edgeproc_browser.Engine.Pointer.Signing.{key_of, channel}
use edgeproc_browser.Tests.Bundle.{older, latest, pointer_members}

abbrev without_counter : VersionPointer
without_counter = record older { sequence = undefined }

sequence_of_latest : latest.sequence ≡ count 5
unfolding as_pointer counter_of safe_natural property text_eq
sequence_of_latest = refl

sequence_of_older : older.sequence ≡ count 4
unfolding as_pointer counter_of safe_natural property text_eq
sequence_of_older = refl

downgrade_reason_counter_example :
    (downgrade_reason latest older ≡ none)
    ↔ (CounterFresh latest older 5 4 × (¬ (OlderVersion latest older)))
downgrade_reason_counter_example =
    downgrade_reason_counter latest older 5 4 sequence_of_latest sequence_of_older (omega arith)

not_comparable : is_comparable without_counter.sequence ≡ false
unfolding is_comparable
not_comparable = refl

downgrade_reason_version_example :
    (downgrade_reason latest without_counter ≡ none) ↔ VersionFresh latest without_counter
downgrade_reason_version_example = downgrade_reason_version latest without_counter not_comparable

-- the counter and the version both go back
refused_old : downgrade_reason older latest ≡ some stale_sequence
unfolding downgrade_reason sequence_freshness is_comparable as_pointer counter_of property text_eq
    safe_natural above
refused_old = refl

highest_found : select_highest_pointer (some older ∷ none ∷ some latest ∷ []) ≡ ok (some latest)
unfolding select_highest_pointer select_from select_step as_pointer counter_of property text_eq
    safe_natural same_counter above
highest_found = refl

latest_checked :
    assert_version_pointer true (object (pointer_members (codes "1.2.0") 5)) ≡ ok latest
unfolding assert_version_pointer check_pointer property text_eq object_at as_object assert_hash
    as_string is_sha256 all_units bounded_string valid_sequence safe_natural optional_key_id
    is_absent optional_expiry optional_bounded_string
latest_checked = refl

assert_version_pointer-IsChecked_example :
    IsChecked latest
    × (true ≡ true → HasCounter latest)
    × (assert_version_pointer false (object latest.raw) ≡ ok latest)
assert_version_pointer-IsChecked_example =
    assert_version_pointer-IsChecked true (object (pointer_members (codes "1.2.0") 5)) latest
      latest_checked

no_channel : property (pointer_members (codes "1.2.0") 5) (key_of channel) ≡ none
unfolding property text_eq
no_channel = refl
