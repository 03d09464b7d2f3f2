-- ===== src/Prelude/Word.antt =====
-- Go's conversions to uint32: the number modulo 2 ^ 32.
use Prim.Native.Nat.{ℕ, ◌%◌, ◌<◌}
use mathlib.Core.Path.{◌≡◌}
use native.Mathlib.Omega.{arith}

abbrev pub word32 : ℕ
word32 = 0x1_0000_0000

unfoldable pub uint32 : ℕ → ℕ
uint32 n = n % word32

-- The conversion keeps a number that fits.
pub uint32_small : (n : ℕ) → n < word32 → uint32 n ≡ n
unfolding uint32
uint32_small n h = omega (arith, h)
