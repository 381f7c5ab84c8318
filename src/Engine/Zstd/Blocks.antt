-- ===== src/Engine/Zstd/Blocks.antt =====
-- engine/zstd.ts: the walk over the block headers against the blocks of a frame.
use edgeproc_browser.Base.{
  ℕ, zero, suc, ◌+◌, ◌%◌, ◌≤◌, ◌<◌, ◌≡◌, ◌≢◌, refl, some, arith, Bytes, length, Bool-cases, inl,
  inr, ltb, ◌==◌, ◌++◌, get_or-append, length-append,
}
use edgeproc_browser.Engine.Zstd.{
  block_header, block_type, block_end, last_block_end, byte_at, uint16_at, uint32_at, uint64_at,
}

-- RFC 8878: blocks follow one another from `at`, the last of them marked, and end at `stop`.
pub data Blocks (bytes : Bytes) : ℕ → ℕ → Type 0 where
  last :
      {at stop : ℕ}
      → at + 3 ≤ length bytes
      → block_type (block_header bytes at) ≢ 3
      → block_end (block_header bytes at) at ≤ length bytes
      → block_header bytes at % 2 ≡ 1
      → stop ≡ block_end (block_header bytes at) at
      → Blocks bytes at stop
  more :
      {at stop next : ℕ}
      → at + 3 ≤ length bytes
      → block_type (block_header bytes at) ≢ 3
      → next ≤ length bytes
      → block_header bytes at % 2 ≡ 0
      → next ≡ block_end (block_header bytes at) at
      → Blocks bytes next stop
      → Blocks bytes at stop

pub last_block_end-Blocks :
    (fuel : ℕ) (bytes : Bytes) (at stop : ℕ)
    → last_block_end fuel bytes at ≡ some stop
    → Blocks bytes at stop
unfolding last_block_end
last_block_end-Blocks zero bytes at stop h = cc
last_block_end-Blocks (suc fuel) bytes at stop h =
    let raw = block_header bytes at in
    elim (Bool-cases (ltb (length bytes) (at + 3))) [
      | inl short ↦ absurd (ground arith)
      | inr fits ↦ elim (Bool-cases (block_type raw == 3)) [
        | inl reserved ↦ absurd (ground arith)
        | inr known ↦ elim (Bool-cases (ltb (length bytes) (block_end raw at))) [
          | inl over ↦ absurd (ground arith)
          | inr inside ↦ elim (Bool-cases (raw % 2 == 1)) [
            | inl marked ↦
                last (ground arith) (ground arith) (ground arith) (ground arith) (ground arith)
            | inr unmarked ↦
                more (ground arith) (ground arith) (ground arith) (ground arith) refl
                  (last_block_end-Blocks fuel bytes (block_end raw at) stop (ground arith))
          ]
        ]
      ]
    ]

pub Blocks-last_block_end :
    {bytes : Bytes} {at stop : ℕ} (fuel : ℕ)
    → Blocks bytes at stop
    → length bytes < fuel + at
    → last_block_end fuel bytes at ≡ some stop
unfolding last_block_end
Blocks-last_block_end zero (last fits known inside marked e) h = absurd (omega arith)
Blocks-last_block_end zero (more fits known inside marked e b) h = absurd (omega arith)
Blocks-last_block_end (suc fuel) (last fits known inside marked e) h = ground arith
Blocks-last_block_end (suc fuel) (more fits known inside marked e b) h =
    ground (arith, Blocks-last_block_end fuel b)

-- What follows the blocks does not change them.
module _ (f g : Bytes) where
  pub byte_at-append : (i : ℕ) → i < length f → byte_at (f ++ g) i ≡ byte_at f i
  byte_at-append i h = get_or-append f g i 0 h

  pub uint16_at-append : (i : ℕ) → i + 1 < length f → uint16_at (f ++ g) i ≡ uint16_at f i
  uint16_at-append i h =
      omega (arith, byte_at-append i (omega arith), byte_at-append (i + 1) (omega arith))

  pub uint32_at-append : (i : ℕ) → i + 3 < length f → uint32_at (f ++ g) i ≡ uint32_at f i
  uint32_at-append i h =
      omega (arith, uint16_at-append i (omega arith), uint16_at-append (i + 2) (omega arith))

  pub uint64_at-append : (i : ℕ) → i + 7 < length f → uint64_at (f ++ g) i ≡ uint64_at f i
  uint64_at-append i h =
      omega (arith, uint32_at-append i (omega arith), uint32_at-append (i + 4) (omega arith))

  block_header-append : (i : ℕ) → i + 3 ≤ length f → block_header (f ++ g) i ≡ block_header f i
  block_header-append i h =
      omega (arith, uint16_at-append i (omega arith), byte_at-append (i + 2) (omega arith))

  pub Blocks-append : {at stop : ℕ} → Blocks f at stop → Blocks (f ++ g) at stop
  Blocks-append {at} (last fits known inside marked e) =
      let same = block_header-append at fits in
      let longer = length-append f g in
      last (omega (arith, longer)) (rw same known) (rw same (omega (arith, longer)))
        (rw same marked) (rw same e)
  Blocks-append {at} (more fits known inside marked e b) =
      let same = block_header-append at fits in
      let longer = length-append f g in
      more (omega (arith, longer)) (rw same known) (omega (arith, longer)) (rw same marked)
        (rw same e) (Blocks-append b)
