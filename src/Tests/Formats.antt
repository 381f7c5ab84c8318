-- ===== src/Tests/Formats.antt =====
-- Frames, chunks, canonical bytes and releases.
use edgeproc_browser.Base.Double.{to_double}
use edgeproc_browser.Base.{split_on, all_units}
use edgeproc_browser.Engine.Freshness.{is_release, drop_v, to_number}
use edgeproc_browser.Engine.Zstd.{field_offset, field_width, read_content_size}
use Prim.Native.Nat.{ℕ}
use edgeproc_browser.Base.{
  Option, get_or, ap, arith, ◌≢◌, text_eq, ◌∙◌, sym, Text, codes, some, none, ok, ◌≡◌, ◌↔◌, refl,
}
use edgeproc_browser.Engine.Json.{Members, member, end, string, null}
use edgeproc_browser.Engine.Platform.{hex, sha256_hex}
use edgeproc_browser.Engine.Integrity.{decompress_and_verify}
use edgeproc_browser.Engine.Integrity.Laws.{IsVerified, decompress_and_verify_iff}
use edgeproc_browser.Engine.Zstd.{
  declared_content_size, decompress_bounded, parse_frame_header, frame_byte_length, last_block_end,
  header_of, block_header, is_length,
}
use edgeproc_browser.Engine.Zstd.Frame.{IsFrame, declared_content_size_iff}
use edgeproc_browser.Engine.Canonical.Order.{Reordered, swap}
use edgeproc_browser.Engine.Freshness.{parse_release}
use edgeproc_browser.Tests.Bundle.{platform, frame, chunk_bytes, chunk_hash}

frame_size : declared_content_size frame ≡ some 3
unfolding declared_content_size parse_frame_header header_of frame_byte_length last_block_end
    block_header field_offset field_width read_content_size
frame_size = refl

declared_content_size_example : (declared_content_size frame ≡ some 3) ↔ IsFrame frame 3
declared_content_size_example = declared_content_size_iff frame 3

abbrev or_zero : Option ℕ → ℕ
or_zero none = 0
or_zero (some n) = n

not_a_frame_of_4 : ¬ (IsFrame frame 4)
not_a_frame_of_4 h =
    let e = sym frame_size ∙ (declared_content_size_iff frame 4).1 h in
    omega (arith, ap (or_zero) e)

decompress_and_verify_example :
    (decompress_and_verify platform chunk_hash frame 3 ≡ ok chunk_bytes)
    ↔ IsVerified platform chunk_hash frame 3 chunk_bytes
decompress_and_verify_example = decompress_and_verify_iff platform chunk_hash frame 3 chunk_bytes

accepted_chunk : decompress_and_verify platform chunk_hash frame 3 ≡ ok chunk_bytes
unfolding decompress_and_verify decompress_bounded declared_content_size parse_frame_header
    header_of frame_byte_length last_block_end block_header is_length sha256_hex hex text_eq
    field_offset field_width read_content_size
accepted_chunk = refl

abbrev ab_members : Members
ab_members = member (codes "b") null (member (codes "a") (string (codes "x")) end)

abbrev ba_members : Members
ba_members = member (codes "a") (string (codes "x")) (member (codes "b") null end)

letters_differ : codes "b" ≢ codes "a"
letters_differ h = omega (arith, ap (λ (s : Text). get_or s 0 0) h)

keys_swapped : Reordered ab_members ba_members
keys_swapped = swap (codes "b") (codes "a") null (string (codes "x")) end letters_differ

-- A component past 2^53 loses its last digit: two releases read alike.
long_components :
    parse_release (codes "9007199254740993") ≡ parse_release (codes "9007199254740992")
unfolding parse_release is_release drop_v split_on all_units to_number to_double
long_components = refl
