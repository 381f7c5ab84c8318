-- ===== src/Base/Double.antt =====
-- The double that stands for a whole number: ECMAScript's Number of an exact value.
use Prim.Native.Nat.{ℕ, zero, suc, ◌+◌, ◌*◌, ◌/◌, ◌%◌, ◌^◌, ◌<◌}
use mathlib.Core.Path.{◌≡◌, refl}
use mathlib.Core.Bool.{true, false, ◌&&◌, ◌||◌}
use native.Mathlib.Omega.{arith}
use edgeproc_browser.Base.Tests.{ltb, ◌==◌, if◌then◌else◌}

-- To the 53 bits of a double, half to even: `n` is `q` times `2 ^ k` and a rest.
round_at : ℕ → ℕ → ℕ
round_at n k =
    let q = n / 2 ^ k in
    let twice = 2 * (n % 2 ^ k) in
    let up = ltb (2 ^ k) twice || (twice == 2 ^ k && q % 2 == 1) in
    (if up then q + 1 else q) * 2 ^ k

-- The least `k` at which 53 bits hold the quotient; at most `fuel`.
excess_bits : ℕ → ℕ → ℕ
excess_bits zero n = 0
excess_bits (suc fuel) n = elim (ltb n (2 ^ 53)) [
  | true ↦ 0
  | false ↦ suc (excess_bits fuel (n / 2))
]

-- The double next to a whole number of at most 200 digits, which is below 2 ^ 665.
unfoldable pub to_double : ℕ → ℕ
unfolding round_at excess_bits
to_double n = round_at n (excess_bits 665 n)

-- Below 2 ^ 53 a double is exact.
excess_bits-zero : (fuel n : ℕ) → n < 2 ^ 53 → excess_bits fuel n ≡ 0
unfolding excess_bits
excess_bits-zero zero n h = refl
excess_bits-zero (suc fuel) n h = ground arith

round_at-zero : (n : ℕ) → round_at n 0 ≡ n
unfolding round_at
round_at-zero n = ground arith

pub to_double-exact : (n : ℕ) → n < 2 ^ 53 → to_double n ≡ n
unfolding to_double
to_double-exact n h = rw (excess_bits-zero 665 n h) (round_at-zero n)
