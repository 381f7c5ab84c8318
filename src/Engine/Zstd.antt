-- ===== src/Engine/Zstd.antt =====
-- engine/zstd.ts: the bound on the output, read off the frame before any byte reaches the decoder.
pub mod Blocks
pub mod Frame
use edgeproc_browser.Base.{
  ℕ, zero, suc, ◌+◌, ◌*◌, ◌/◌, ◌%◌, ◌^◌, Bool, false, not, Option, none, some, ltb, ◌==◌,
  if◌then◌else◌, Bytes, length, get_or, ok, err, require, ◌>>=◌, ◌>>◌,
}
use edgeproc_browser.Base.Double.{to_double}
use edgeproc_browser.Engine.Fault.{Result, plain}

-- view.getUint8(at), for an offset in range
abbrev pub byte_at : Bytes → ℕ → ℕ
byte_at bytes i = get_or bytes i 0

-- view.getUint16(at, true), and the wider ones
abbrev pub uint16_at : Bytes → ℕ → ℕ
uint16_at bytes i = byte_at bytes i + 256 * byte_at bytes (i + 1)

abbrev pub uint32_at : Bytes → ℕ → ℕ
uint32_at bytes i = uint16_at bytes i + 2 ^ 16 * uint16_at bytes (i + 2)

abbrev pub uint64_at : Bytes → ℕ → ℕ
uint64_at bytes i = uint32_at bytes i + 2 ^ 32 * uint32_at bytes (i + 4)

-- ZSTD_MAGIC
abbrev pub zstd_magic : ℕ
zstd_magic = 0xfd2fb528

pub record FrameHeader : Type 0 where
  pub declared_size : Option ℕ
  pub body_offset : ℕ
  pub has_checksum : Bool

-- FCS_FIELD_SIZES[flag]
abbrev pub fcs_field_size : ℕ → ℕ
fcs_field_size flag = if flag == 1 then 2 else if flag == 2 then 4 else if flag == 3 then 8 else 0

-- DICTIONARY_ID_SIZES[flag]
abbrev pub dictionary_id_size : ℕ → ℕ
dictionary_id_size flag =
    if flag == 1 then 1 else if flag == 2 then 2 else if flag == 3 then 4 else 0

unfoldable pub read_content_size : Bytes → ℕ → ℕ → ℕ
read_content_size bytes offset width =
    if width == 1
    then byte_at bytes offset
    else if width == 2
    then uint16_at bytes offset + 256
    else if width == 4
    then uint32_at bytes offset
    else to_double (uint64_at bytes offset)

-- descriptor & SINGLE_SEGMENT_BIT
abbrev pub single_segment : ℕ → Bool
single_segment descriptor = descriptor / 32 % 2 == 1

-- The width of the Frame_Content_Size field.
unfoldable pub field_width : ℕ → ℕ
field_width descriptor =
    let flag = descriptor / 64 in
    if flag == 0 then (if single_segment descriptor then 1 else 0) else fcs_field_size flag

-- Its offset.
unfoldable pub field_offset : ℕ → ℕ
field_offset descriptor =
    5 + (if single_segment descriptor then 0 else 1) + dictionary_id_size (descriptor % 4)

-- The header of a frame whose first bytes passed the tests.
unfoldable pub header_of : Bytes → ℕ → FrameHeader
header_of bytes descriptor = record {
  declared_size =
      if field_width descriptor == 0
      then none
      else some (read_content_size bytes (field_offset descriptor) (field_width descriptor));
  body_offset = field_offset descriptor + field_width descriptor;
  has_checksum = descriptor / 4 % 2 == 1;
}

-- MIN_DECLARING_FRAME_BYTES is 6; MUST_BE_ZERO_BITS are bits 3 and 4.
unfoldable pub parse_frame_header : Bytes → Option FrameHeader
parse_frame_header bytes =
    let descriptor = byte_at bytes 4 in
    if ltb (length bytes) 6
    then none
    else if not (uint32_at bytes 0 == zstd_magic)
    then none
    else if not (descriptor / 8 % 4 == 0)
    then none
    else if ltb (length bytes) (field_offset descriptor + field_width descriptor)
    then none
    else some (header_of bytes descriptor)

-- The 24-bit Block_Header at an offset, its type and the offset after its block.
abbrev pub block_header : Bytes → ℕ → ℕ
block_header bytes at = uint16_at bytes at + 2 ^ 16 * byte_at bytes (at + 2)

abbrev pub block_type : ℕ → ℕ
block_type raw = raw / 2 % 4

abbrev pub block_end : ℕ → ℕ → ℕ
block_end raw at = at + 3 + (if block_type raw == 1 then 1 else raw / 8)

-- The loop of `frameByteLength`, on fuel, up to the end of the last block.
unfoldable pub last_block_end : ℕ → Bytes → ℕ → Option ℕ
last_block_end zero bytes at = none
last_block_end (suc fuel) bytes at =
    let raw = block_header bytes at in
    let next = block_end raw at in
    let rest = last_block_end fuel bytes next in
    if ltb (length bytes) (at + 3)
    then none
    else if block_type raw == 3
    then none
    else if ltb (length bytes) next
    then none
    else if raw % 2 == 1
    then some next
    else rest

-- Each round moves on by three bytes at least, so a round for each byte is enough.
unfoldable pub frame_byte_length : Bytes → FrameHeader → Option ℕ
frame_byte_length bytes header =
    elim (last_block_end (suc (length bytes)) bytes header.body_offset) [
      | none ↦ none
      | some at ↦ some (at + (if header.has_checksum then 4 else 0))
    ]

abbrev pub is_length : Option ℕ → ℕ → Bool
is_length none n = false
is_length (some m) n = m == n

unfoldable pub declared_content_size : Bytes → Option ℕ
declared_content_size bytes = elim (parse_frame_header bytes) [
  | none ↦ none
  | some header ↦ elim header.declared_size [
    | none ↦ none
    | some size ↦
        if is_length (frame_byte_length bytes header) (length bytes) then some size else none
  ]
]

-- `decode` is the decoder of @hpcc-js/wasm-zstd on one whole input; `none` is an error that it throws.
unfoldable pub decompress_bounded : (Bytes → Option Bytes) → Bytes → ℕ → Result Bytes
decompress_bounded decode bytes expected_size = do
  require (is_length (declared_content_size bytes) expected_size)
      (plain "zstd frame does not declare its signed size")
  output ← elim (decode bytes) [ none ↦ err (plain "zstd decoder") | some output ↦ ok output ]
  require (length output == expected_size) (plain "zstd output does not match its signed size")
  ok output
