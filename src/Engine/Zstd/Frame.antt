-- ===== src/Engine/Zstd/Frame.antt =====
-- engine/zstd.ts: what `declaredContentSize` accepts.
use edgeproc_browser.Base.{
  ℕ, suc, ◌+◌, ◌≤◌, ◌≡◌, ◌≢◌, ◌⊎◌, ◌↔◌, refl, ap, Option, none, some, arith, Bytes, length,
  Bool-cases, inl, inr, ltb, ◌==◌, ◌++◌, length-append, [], ◌∷◌, Option-cases, if◌then◌else◌, true,
  false, ok, err,
}
use edgeproc_browser.Base.Double.{to_double}
use edgeproc_browser.Engine.Fault.{plain}
use edgeproc_browser.Engine.Zstd.{
  FrameHeader, parse_frame_header, frame_byte_length, declared_content_size, last_block_end,
  is_length, decompress_bounded, header_of, field_width, field_offset, read_content_size, byte_at,
}
use edgeproc_browser.Engine.Zstd.Blocks.{
  uint64_at-append, uint32_at-append, Blocks, last_block_end-Blocks, Blocks-last_block_end,
  Blocks-append, byte_at-append, uint16_at-append,
}

-- The bytes are one frame, from its header to its checksum, and the header declares `size`.
pub record IsFrame (bytes : Bytes) (size : ℕ) : Type 0 where
  pub header : FrameHeader
  pub parsed : parse_frame_header bytes ≡ some header
  pub declared : header.declared_size ≡ some size
  pub stop : ℕ
  pub blocks : Blocks bytes header.body_offset stop
  pub spans : stop + (if header.has_checksum then 4 else 0) ≡ length bytes

is_length_iff : (o : Option ℕ) (n : ℕ) → (is_length o n ≡ true) ↔ (o ≡ some n)
is_length_iff none n = ground arith
is_length_iff (some m) n = ground arith

frame_byte_length_iff :
    (bytes : Bytes) (header : FrameHeader) (n : ℕ)
    → (frame_byte_length bytes header ≡ some n) ↔ (
        (stop : ℕ) × Blocks bytes header.body_offset stop
        × (stop + (if header.has_checksum then 4 else 0) ≡ n))
unfolding frame_byte_length
frame_byte_length_iff bytes header n = (
  λ h. elim (Option-cases (last_block_end (suc (length bytes)) bytes header.body_offset)) [
    | inl e ↦ absurd (ground arith)
    | inr (stop, e) ↦ (stop, last_block_end-Blocks _ bytes header.body_offset stop e, ground arith)
  ],
  λ (stop, b, e). ground (arith, Blocks-last_block_end (suc (length bytes)) b (omega arith)),
)

module _ (bytes : Bytes) (size : ℕ) where
  declared_content_size-IsFrame : declared_content_size bytes ≡ some size → IsFrame bytes size
  unfolding declared_content_size
  declared_content_size-IsFrame h = elim (Option-cases (parse_frame_header bytes)) [
    | inl e ↦ absurd (ground arith)
    | inr (header, e) ↦
        let spanned : is_length (frame_byte_length bytes header) (length bytes) ≡ true =
          ground arith in
        let declares : header.declared_size ≡ some size = ground arith in
        let (stop, b, ends) =
          (frame_byte_length_iff bytes header (length bytes)).0 ((is_length_iff _ _).0 spanned) in
        record {
          header = header;
          parsed = e;
          declared = declares;
          stop = stop;
          blocks = b;
          spans = ends;
        }
  ]

  IsFrame-declared_content_size : IsFrame bytes size → declared_content_size bytes ≡ some size
  unfolding declared_content_size
  IsFrame-declared_content_size f =
      let spanned : frame_byte_length bytes f.header ≡ some (length bytes) =
        (frame_byte_length_iff bytes f.header (length bytes)).1 (f.stop, f.blocks, f.spans) in
      ground (arith, f.parsed, f.declared, spanned)

  -- `declaredContentSize` answers a size exactly for the inputs that are one whole frame that
  -- declares it: a header, blocks up to the marked one, the checksum if the header has one, no more.
  pub declared_content_size_iff : (declared_content_size bytes ≡ some size) ↔ IsFrame bytes size
  declared_content_size_iff = (declared_content_size-IsFrame, IsFrame-declared_content_size)

-- What follows a frame does not change how its header reads.
module _ (f g : Bytes) where
  read_content_size-append :
      (offset width : ℕ)
      → offset + width ≤ length f
      → (width ≡ 1) ⊎ ((width ≡ 2) ⊎ ((width ≡ 4) ⊎ (width ≡ 8)))
      → read_content_size (f ++ g) offset width ≡ read_content_size f offset width
  unfolding read_content_size
  read_content_size-append offset width h (inl e) = rw e (byte_at-append f g offset (omega arith))
  read_content_size-append offset width h (inr (inl e)) =
      rw e (ap (λ (n : ℕ). n + 256) (uint16_at-append f g offset (omega arith)))
  read_content_size-append offset width h (inr (inr (inl e))) =
      rw e (uint32_at-append f g offset (omega arith))
  read_content_size-append offset width h (inr (inr (inr e))) =
      rw e (ap to_double (uint64_at-append f g offset (omega arith)))

  field_width_cases :
      (d : ℕ)
      → (field_width d == 0) ≡ false
      → (field_width d ≡ 1) ⊎ ((field_width d ≡ 2) ⊎ ((field_width d ≡ 4) ⊎ (field_width d ≡ 8)))
  unfolding field_width
  field_width_cases d h = ground arith

  header_of-append :
      (d : ℕ) → field_offset d + field_width d ≤ length f → header_of (f ++ g) d ≡ header_of f d
  unfolding header_of
  header_of-append d h = elim (Bool-cases (field_width d == 0)) [
    | inl absent ↦ rw absent refl
    | inr present ↦
        rw
          (read_content_size-append (field_offset d) (field_width d) h
            (field_width_cases d present))
          refl
  ]

  parse_frame_header-append :
      (header : FrameHeader)
      → parse_frame_header f ≡ some header
      → parse_frame_header (f ++ g) ≡ some header
  unfolding parse_frame_header
  parse_frame_header-append header h = elim (Bool-cases (ltb (length f) 6)) [
    | inl short ↦ absurd (ground arith)
    | inr long ↦
        let longer = length-append f g in
        let descriptor = byte_at-append f g 4 (ground arith) in
        let magic = uint32_at-append f g 0 (ground arith) in
        ground (arith, longer, descriptor, magic, header_of-append (byte_at f 4))
  ]

-- Any bytes after an accepted frame, a second frame among them, make the input refused.
pub declared_content_size-append :
    (f g : Bytes) (size : ℕ)
    → declared_content_size f ≡ some size
    → g ≢ []
    → declared_content_size (f ++ g) ≡ none
unfolding declared_content_size
declared_content_size-append f [] size h more = absurd (more refl)
declared_content_size-append f (b ∷ g) size h more =
    let frame = declared_content_size-IsFrame f size h in
    let parsed = parse_frame_header-append f (b ∷ g) frame.header frame.parsed in
    let spanned : frame_byte_length (f ++ b ∷ g) frame.header ≡ some (length f) =
      (frame_byte_length_iff (f ++ b ∷ g) frame.header (length f)).1
        (frame.stop, Blocks-append f (b ∷ g) frame.blocks, frame.spans) in
    ground (arith, parsed, frame.declared, spanned, length-append f (b ∷ g))

-- Unless the frame declares the signed size, the input is refused and no decoder decides otherwise.
pub decompress_bounded_undeclared :
    (decode : Bytes → Option Bytes) (bytes : Bytes) (size : ℕ)
    → ¬ (IsFrame bytes size)
    → decompress_bounded decode bytes size
      ≡ err (plain "zstd frame does not declare its signed size")
unfolding decompress_bounded
decompress_bounded_undeclared decode bytes size h =
    elim (Bool-cases (is_length (declared_content_size bytes) size)) [
      | inl e ↦ absurd (h (declared_content_size-IsFrame bytes size ((is_length_iff _ _).0 e)))
      | inr e ↦ rw e
    ]

module _ (decode : Bytes → Option Bytes) (bytes : Bytes) (size : ℕ) (out : Bytes) where
  decompress_bounded-ok :
      decompress_bounded decode bytes size ≡ ok out
      → (is_length (declared_content_size bytes) size ≡ true)
        × (decode bytes ≡ some out)
        × (length out ≡ size)
  unfolding decompress_bounded
  decompress_bounded-ok h = (ground arith, ground arith, ground arith)

  decompress_bounded_of :
      is_length (declared_content_size bytes) size ≡ true
      → decode bytes ≡ some out
      → length out ≡ size
      → decompress_bounded decode bytes size ≡ ok out
  unfolding decompress_bounded
  decompress_bounded_of h k e = ground arith

  -- The output, where there is one, is the decoder's, has the expected length, and comes from one
  -- frame that declares that length; and there is one whenever these hold.
  pub decompress_bounded_iff :
      (decompress_bounded decode bytes size ≡ ok out)
      ↔ ((decode bytes ≡ some out) × (length out ≡ size) × IsFrame bytes size)
  decompress_bounded_iff = (
    λ h.
        let (declares, decoded, long) = decompress_bounded-ok h in
        (decoded, long, declared_content_size-IsFrame bytes size ((is_length_iff _ _).0 declares)),
    λ (decoded, long, frame).
        decompress_bounded_of
          ((is_length_iff _ _).1 (IsFrame-declared_content_size bytes size frame)) decoded long,
  )
