-- ===== src/Engine/Integrity/Laws.antt =====
-- engine/integrity.ts: what an ingested chunk is known to be.
use edgeproc_browser.Base.{ℕ, ◌≤◌, ◌≡◌, ◌↔◌, Text, Bytes, length, ok, arith, text_eq_iff, some}
use edgeproc_browser.Engine.Platform.{Platform, sha256_hex}
use edgeproc_browser.Engine.Zstd.{decompress_bounded}
use edgeproc_browser.Engine.Zstd.Frame.{IsFrame, decompress_bounded_iff}
use edgeproc_browser.Engine.Integrity.{decompress_and_verify, max_decompressed_chunk_bytes}

module _ (p : Platform) (chunk_hash : Text) (compressed : Bytes) (size : ℕ)
    (plaintext : Bytes) where
  -- What is established of the plaintext: the decoder's output for one frame that declares the size,
  -- of that size, within the cap, under its own hash.
  pub record IsVerified : Type 0 where
    pub decoded : p.decode compressed ≡ some plaintext
    pub long : length plaintext ≡ size
    pub frame : IsFrame compressed size
    pub capped : size ≤ max_decompressed_chunk_bytes
    pub named : sha256_hex p plaintext ≡ chunk_hash

  verified_parts :
      decompress_and_verify p chunk_hash compressed size ≡ ok plaintext
      → (size ≤ max_decompressed_chunk_bytes)
        × (decompress_bounded p.decode compressed size ≡ ok plaintext)
        × (sha256_hex p plaintext ≡ chunk_hash)
  unfolding decompress_and_verify
  verified_parts h =
      (ground arith, ground arith, ground (arith, text_eq_iff (sha256_hex p plaintext) chunk_hash))

  decompress_and_verify-IsVerified :
      decompress_and_verify p chunk_hash compressed size ≡ ok plaintext → IsVerified
  decompress_and_verify-IsVerified h =
      let (capped, bounded, named) = verified_parts h in
      let (decoded, long, frame) =
        (decompress_bounded_iff p.decode compressed size plaintext).0 bounded in
      record { decoded = decoded; long = long; frame = frame; capped = capped; named = named }

  IsVerified-decompress_and_verify :
      IsVerified → decompress_and_verify p chunk_hash compressed size ≡ ok plaintext
  unfolding decompress_and_verify
  IsVerified-decompress_and_verify v =
      let bounded =
        (decompress_bounded_iff p.decode compressed size plaintext).1
          (v.decoded, v.long, v.frame) in
      ground
        (arith, bounded, v.long, v.capped, text_eq_iff (sha256_hex p plaintext) chunk_hash, v.named)

  -- `decompressAndVerify` returns a plaintext exactly if the input is one frame that declares the
  -- signed size within the cap, and the decoder's output has that size and hashes to the chunk's name.
  pub decompress_and_verify_iff :
      (decompress_and_verify p chunk_hash compressed size ≡ ok plaintext) ↔ IsVerified
  decompress_and_verify_iff = (decompress_and_verify-IsVerified, IsVerified-decompress_and_verify)
