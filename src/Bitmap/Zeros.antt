-- ===== src/Bitmap/Zeros.antt =====
-- `|` and `&` of words where one is zero or the result is.
use access_management.Prelude.{ℕ, zero, suc, ◌/◌, ◌≡◌, refl, ◌&&◌, ◌==◌, arith}
use access_management.Bitmap.Words.{bit, or_bits, and_bits, Fits}

pub or_bits-zero : (n a : ℕ) → Fits n a → or_bits n a 0 ≡ a
unfolding or_bits Fits bit
or_bits-zero zero a f = omega arith
or_bits-zero (suc n) a f = ground (arith, or_bits-zero n (a / 2) f)

pub and_bits-zero : (n a : ℕ) → and_bits n a 0 ≡ 0
unfolding and_bits bit
and_bits-zero zero a = refl
and_bits-zero (suc n) a = ground (arith, and_bits-zero n (a / 2))

pub and_bits-zero_left : (n a : ℕ) → and_bits n 0 a ≡ 0
unfolding and_bits bit
and_bits-zero_left zero a = refl
and_bits-zero_left (suc n) a = ground (arith, and_bits-zero_left n (a / 2))

pub or_bits-is_zero :
    (n a b : ℕ) → Fits n a → Fits n b → (or_bits n a b == 0) ≡ ((a == 0) && (b == 0))
unfolding or_bits Fits bit
or_bits-is_zero zero a b f g = ground arith
or_bits-is_zero (suc n) a b f g = ground (arith, or_bits-is_zero n (a / 2) (b / 2) f g)
