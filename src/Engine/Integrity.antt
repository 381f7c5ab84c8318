-- ===== src/Engine/Integrity.antt =====
-- engine/integrity.ts: a chunk's name is the SHA-256 of its plaintext.
pub mod Laws
use edgeproc_browser.Base.{
  ℕ, ◌*◌, leb, ◌==◌, Text, Bytes, text_eq, length, ok, err, require, ◌>>=◌, ◌>>◌,
}
use edgeproc_browser.Engine.Fault.{Fault, Result, integrity}
use edgeproc_browser.Engine.Platform.{Platform, sha256_hex}
use edgeproc_browser.Engine.Zstd.{decompress_bounded}

-- MAX_DECOMPRESSED_CHUNK_BYTES
abbrev pub max_decompressed_chunk_bytes : ℕ
max_decompressed_chunk_bytes = 8 * 1024 * 1024

-- catch (cause) { throw new IntegrityError(message, { cause }) }
abbrev pub as_integrity : {A : Type 0} → Fault → Result A → Result A
as_integrity e (ok a) = ok a
as_integrity e (err _) = err e

module _ (p : Platform) where
  -- the size is a whole number here, so the tests on its sign and kind are met
  unfoldable pub decompress_and_verify : Text → Bytes → ℕ → Result Bytes
  decompress_and_verify chunk_hash compressed expected_size = do
    require (leb expected_size max_decompressed_chunk_bytes)
        (integrity "chunk declares invalid decompressed size")
    plaintext ←
        as_integrity (integrity "chunk failed to decompress")
          (decompress_bounded p.decode compressed expected_size)
    require (length plaintext == expected_size) (integrity "chunk decompressed to another size")
    require (text_eq (sha256_hex p plaintext) chunk_hash)
        (integrity "chunk failed content-address check")
    ok plaintext

  unfoldable pub verify_plaintext : Text → Bytes → Result (Unit {0})
  verify_plaintext chunk_hash plaintext =
      require (text_eq (sha256_hex p plaintext) chunk_hash)
        (integrity "chunk failed content-address check")
