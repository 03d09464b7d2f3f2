-- ===== src/Bitmap/Words.antt =====
-- 64-bit words as numbers: single bits, `|`, `&`, `&^`, and math/bits as far as bitmap.go uses it.
use access_management.Prelude.{
  ℕ, zero, suc, ◌+◌, ◌*◌, ◌/◌, ◌%◌, ◌≤◌, ◌<◌, ◌≡◌, refl, Bool, true, false, ◌&&◌, ◌||◌, not, ◌==◌,
  arith, if◌then◌else◌, Bool-cases, inl, inr,
}

-- w & (1 << i) != 0
unfoldable pub bit : ℕ → ℕ → Bool
bit zero w = w % 2 == 1
bit (suc i) w = bit i (w / 2)

-- w | (1 << i)
unfoldable pub set_bit : ℕ → ℕ → ℕ
set_bit zero w = w / 2 * 2 + 1
set_bit (suc i) w = set_bit i (w / 2) * 2 + w % 2

-- w &^ (1 << i)
unfoldable pub clear_bit : ℕ → ℕ → ℕ
clear_bit zero w = w / 2 * 2
clear_bit (suc i) w = clear_bit i (w / 2) * 2 + w % 2

abbrev or_digit : ℕ → ℕ → ℕ
or_digit a b = if bit 0 a || bit 0 b then 1 else 0

abbrev and_digit : ℕ → ℕ → ℕ
and_digit a b = if bit 0 a && bit 0 b then 1 else 0

-- a | b and a & b, on the lowest n bits
unfoldable pub or_bits : ℕ → ℕ → ℕ → ℕ
unfolding bit
or_bits zero a b = 0
or_bits (suc n) a b = or_bits n (a / 2) (b / 2) * 2 + or_digit a b

unfoldable pub and_bits : ℕ → ℕ → ℕ → ℕ
unfolding bit
and_bits zero a b = 0
and_bits (suc n) a b = and_bits n (a / 2) (b / 2) * 2 + and_digit a b

-- bits.TrailingZeros64 and bits.OnesCount64, on words of n bits
unfoldable pub trailing_zeros : ℕ → ℕ → ℕ
unfolding bit
trailing_zeros zero w = 0
trailing_zeros (suc n) w = let rest = trailing_zeros n (w / 2) in if bit 0 w then 0 else suc rest

unfoldable pub ones_count : ℕ → ℕ → ℕ
ones_count zero w = 0
ones_count (suc n) w = ones_count n (w / 2) + w % 2

-- The number of bits of a uint64.
unfoldable pub word_bits : ℕ
word_bits = 64

-- A number of at most n bits.
unfoldable pub Fits : ℕ → ℕ → Type 0
Fits zero w = w ≡ 0
Fits (suc n) w = Fits n (w / 2)

pub bit-zero : (i : ℕ) → bit i 0 ≡ false
unfolding bit
bit-zero zero = refl
bit-zero (suc i) = bit-zero i

pub bit-set_bit : (i j w : ℕ) → bit j (set_bit i w) ≡ ((i == j) || bit j w)
unfolding bit set_bit
bit-set_bit zero zero w = ground arith
bit-set_bit zero (suc j) w = let e : (w / 2 * 2 + 1) / 2 ≡ w / 2 = omega arith in ground (arith, e)
bit-set_bit (suc i) zero w = ground arith
bit-set_bit (suc i) (suc j) w =
    let e : (set_bit i (w / 2) * 2 + w % 2) / 2 ≡ set_bit i (w / 2) = omega arith in
    ground (arith, e, bit-set_bit i j (w / 2))

pub bit-clear_bit : (i j w : ℕ) → bit j (clear_bit i w) ≡ (not (i == j) && bit j w)
unfolding bit clear_bit
bit-clear_bit zero zero w = ground arith
bit-clear_bit zero (suc j) w = let e : w / 2 * 2 / 2 ≡ w / 2 = omega arith in ground (arith, e)
bit-clear_bit (suc i) zero w = ground arith
bit-clear_bit (suc i) (suc j) w =
    let e : (clear_bit i (w / 2) * 2 + w % 2) / 2 ≡ clear_bit i (w / 2) = omega arith in
    ground (arith, e, bit-clear_bit i j (w / 2))

pub bit-or_bits : (n j a b : ℕ) → j < n → bit j (or_bits n a b) ≡ (bit j a || bit j b)
unfolding bit or_bits
bit-or_bits zero j a b h = absurd (omega arith)
bit-or_bits (suc n) zero a b h = ground arith
bit-or_bits (suc n) (suc j) a b h =
    let e : (or_bits n (a / 2) (b / 2) * 2 + or_digit a b) / 2 ≡ or_bits n (a / 2) (b / 2) =
      ground arith in
    ground (arith, e, bit-or_bits n j (a / 2) (b / 2))

pub bit-and_bits : (n j a b : ℕ) → j < n → bit j (and_bits n a b) ≡ (bit j a && bit j b)
unfolding bit and_bits
bit-and_bits zero j a b h = absurd (omega arith)
bit-and_bits (suc n) zero a b h = ground arith
bit-and_bits (suc n) (suc j) a b h =
    let e : (and_bits n (a / 2) (b / 2) * 2 + and_digit a b) / 2 ≡ and_bits n (a / 2) (b / 2) =
      ground arith in
    ground (arith, e, bit-and_bits n j (a / 2) (b / 2))

pub Fits-zero : (n : ℕ) → Fits n 0
unfolding Fits
Fits-zero zero = refl
Fits-zero (suc n) = Fits-zero n

pub Fits-set_bit : (n i w : ℕ) → i < n → Fits n w → Fits n (set_bit i w)
unfolding Fits set_bit
Fits-set_bit zero i w h f = absurd (omega arith)
Fits-set_bit (suc n) zero w h f = let e : (w / 2 * 2 + 1) / 2 ≡ w / 2 = omega arith in rw e f
Fits-set_bit (suc n) (suc i) w h f =
    let e : (set_bit i (w / 2) * 2 + w % 2) / 2 ≡ set_bit i (w / 2) = omega arith in
    rw e (Fits-set_bit n i (w / 2) (omega arith) f)

pub Fits-clear_bit : (n i w : ℕ) → Fits n w → Fits n (clear_bit i w)
unfolding Fits clear_bit
Fits-clear_bit zero zero w f = omega arith
Fits-clear_bit zero (suc i) w f =
    let z : clear_bit i (w / 2) ≡ 0 = Fits-clear_bit zero i (w / 2) (omega arith) in omega arith
Fits-clear_bit (suc n) zero w f = let e : w / 2 * 2 / 2 ≡ w / 2 = omega arith in rw e f
Fits-clear_bit (suc n) (suc i) w f =
    let e : (clear_bit i (w / 2) * 2 + w % 2) / 2 ≡ clear_bit i (w / 2) = omega arith in
    rw e (Fits-clear_bit n i (w / 2) f)

pub Fits-or_bits : (n a b : ℕ) → Fits n (or_bits n a b)
unfolding Fits or_bits
Fits-or_bits zero a b = refl
Fits-or_bits (suc n) a b =
    let e : (or_bits n (a / 2) (b / 2) * 2 + or_digit a b) / 2 ≡ or_bits n (a / 2) (b / 2) =
      ground arith in
    rw e (Fits-or_bits n (a / 2) (b / 2))

pub Fits-and_bits : (n a b : ℕ) → Fits n (and_bits n a b)
unfolding Fits and_bits
Fits-and_bits zero a b = refl
Fits-and_bits (suc n) a b =
    let e : (and_bits n (a / 2) (b / 2) * 2 + and_digit a b) / 2 ≡ and_bits n (a / 2) (b / 2) =
      ground arith in
    rw e (Fits-and_bits n (a / 2) (b / 2))

pub bit-lt : (n i w : ℕ) → Fits n w → bit i w ≡ true → i < n
unfolding Fits bit
bit-lt zero zero w f h = absurd (ground arith)
bit-lt zero (suc i) w f h =
    absurd (ground (arith, bit-zero i, (let z : w / 2 ≡ 0 = omega arith in rw z at h)))
bit-lt (suc n) zero w f h = omega arith
bit-lt (suc n) (suc i) w f h = omega (arith, bit-lt n i (w / 2) f h)

-- A word that is not zero has a bit, at the number of its trailing zeros.
pub bit-trailing_zeros : (n w : ℕ) → Fits n w → (w == 0) ≡ false → bit (trailing_zeros n w) w ≡ true
unfolding Fits bit trailing_zeros
bit-trailing_zeros zero w f h = absurd (ground arith)
bit-trailing_zeros (suc n) w f h = elim (Bool-cases (w % 2 == 1)) [
  | inl odd ↦ rw odd odd
  | inr even ↦ rw even (bit-trailing_zeros n (w / 2) f (ground arith))
]

pub nonzero_of_bit : (i w : ℕ) → bit i w ≡ true → (w == 0) ≡ false
unfolding bit
nonzero_of_bit zero w h = ground arith
nonzero_of_bit (suc i) w h = ground (arith, nonzero_of_bit i (w / 2) h)

pub ones_count-le : (n w : ℕ) → ones_count n w ≤ n
unfolding ones_count
ones_count-le zero w = omega arith
ones_count-le (suc n) w = omega (arith, ones_count-le n (w / 2))

pub ones_count-clear_bit :
    (n i w : ℕ) → i < n → bit i w ≡ true → suc (ones_count n (clear_bit i w)) ≡ ones_count n w
unfolding ones_count clear_bit bit
ones_count-clear_bit zero i w h b = absurd (omega arith)
ones_count-clear_bit (suc n) zero w h b =
    let e : w / 2 * 2 / 2 ≡ w / 2 = omega arith in
    let o : w % 2 ≡ 1 = ground arith in
    let z : w / 2 * 2 % 2 ≡ 0 = omega arith in rw e (omega arith)
ones_count-clear_bit (suc n) (suc i) w h b =
    let e : (clear_bit i (w / 2) * 2 + w % 2) / 2 ≡ clear_bit i (w / 2) = omega arith in
    rw e (omega (arith, ones_count-clear_bit n i (w / 2) (omega arith) b))

pub ones_count-nonzero : (n w : ℕ) → Fits n w → ones_count n w ≡ 0 → (w == 0) ≡ true
unfolding ones_count Fits
ones_count-nonzero zero w f h = ground arith
ones_count-nonzero (suc n) w f h = ground (arith, ones_count-nonzero n (w / 2) f)

pub clear_bit-zero : (i : ℕ) → clear_bit i 0 ≡ 0
unfolding clear_bit
clear_bit-zero zero = refl
clear_bit-zero (suc i) = rw (clear_bit-zero i) refl

-- No bit stands below the trailing zeros' number.
pub trailing_zeros-le : (n i w : ℕ) → bit i w ≡ true → trailing_zeros n w ≤ i
unfolding bit trailing_zeros
trailing_zeros-le zero i w h = omega arith
trailing_zeros-le (suc n) zero w h = ground (arith, h)
trailing_zeros-le (suc n) (suc i) w h = ground (arith, trailing_zeros-le n i (w / 2) h)
