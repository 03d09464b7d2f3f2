-- ===== src/Bitmap/Loops.antt =====
-- `for m != 0 { j := bits.TrailingZeros64(m); …; m &^= 1 << j }`: a loop over the bits of a word.
use access_management.Prelude.{
  ℕ, zero, suc, ◌≤◌, ◌<◌, ◌≡◌, refl, ◌∙◌, ◌==◌, ==_iff, arith, if◌then◌else◌, Bool-cases, inl, inr,
}
use access_management.Bitmap.Words.{
  bit, clear_bit, trailing_zeros, ones_count, Fits, bit-clear_bit, Fits-clear_bit, bit-lt,
  bit-trailing_zeros, ones_count-le, ones_count-clear_bit, ones_count-nonzero, nonzero_of_bit,
}

module _ {ℓ} {S : Type ℓ} (n : ℕ) (body : ℕ → S → S) where
  -- The loop on fuel: a word of n bits has at most n rounds.
  unfoldable pub rounds : ℕ → ℕ → S → S
  rounds zero m s = s
  rounds (suc k) m s =
      let rest = rounds k (clear_bit (trailing_zeros n m) m) (body (trailing_zeros n m) s) in
      if m == 0 then s else rest

  unfoldable pub for_bits : ℕ → S → S
  unfolding rounds
  for_bits m s = rounds n m s

  -- An observation that only the round of bit `i` changes is changed once, if the word has the bit.
  module _ {κ} {A : Type κ} (obs : S → A) (hit : A → A) (i : ℕ)
      (one : (j : ℕ) (s : S)
        → j < n
        → obs (body j s) ≡ (if j == i then hit (obs s) else obs s)) where
    obs-rounds :
        (k m : ℕ) (s : S)
        → Fits n m
        → ones_count n m ≤ k
        → obs (rounds k m s) ≡ (if bit i m then hit (obs s) else obs s)
    unfolding rounds
    obs-rounds zero m s f l =
        let z = ones_count-nonzero n m f (omega arith) in ground (arith, z, nonzero_of_bit i m)
    obs-rounds (suc k) m s f l = elim (Bool-cases (m == 0)) [
      | inl z ↦ rw z (ground (arith, z, nonzero_of_bit i m))
      | inr more ↦
          let tz = trailing_zeros n m in
          let has = bit-trailing_zeros n m f more in
          let lt = bit-lt n (trailing_zeros n m) m f has in
          rw more (
            ground (
              arith,
              obs-rounds k (clear_bit (trailing_zeros n m) m) (body (trailing_zeros n m) s)
                  (Fits-clear_bit n (trailing_zeros n m) m f)
                  (omega (arith, ones_count-clear_bit n (trailing_zeros n m) m lt has)),
              bit-clear_bit (trailing_zeros n m) i m,
              one (trailing_zeros n m) s lt,
              has,
              ==_iff (trailing_zeros n m) i,
            ))
    ]

    pub obs-for_bits :
        (m : ℕ) (s : S) → Fits n m → obs (for_bits m s) ≡ (if bit i m then hit (obs s) else obs s)
    unfolding for_bits
    obs-for_bits m s f = obs-rounds n m s f (ones_count-le n m)

  -- What every round keeps, the loop keeps.
  module _ {κ} (P : S → Type κ) (kept : (j : ℕ) (s : S) → j < n → P s → P (body j s)) where
    rounds_keep : (k m : ℕ) (s : S) → Fits n m → P s → P (rounds k m s)
    unfolding rounds
    rounds_keep zero m s f p = p
    rounds_keep (suc k) m s f p = elim (Bool-cases (m == 0)) [
      | inl z ↦ rw z p
      | inr more ↦
          let has = bit-trailing_zeros n m f more in
          rw more (
            rounds_keep k (clear_bit (trailing_zeros n m) m) (body (trailing_zeros n m) s)
              (Fits-clear_bit n (trailing_zeros n m) m f)
              (kept (trailing_zeros n m) s (bit-lt n (trailing_zeros n m) m f has) p))
    ]

    pub for_bits_keep : (m : ℕ) (s : S) → Fits n m → P s → P (for_bits m s)
    unfolding for_bits
    for_bits_keep m s f p = rounds_keep n m s f p

  -- An observation that no round changes is not changed.
  module _ {κ} {A : Type κ} (obs : S → A)
      (none_changes : (j : ℕ) (s : S) → j < n → obs (body j s) ≡ obs s) where
    pub obs-for_bits_same : (m : ℕ) (s : S) → Fits n m → obs (for_bits m s) ≡ obs s
    obs-for_bits_same m s f =
        for_bits_keep (λ s'. obs s' ≡ obs s) (λ j s' lt p. none_changes j s' lt ∙ p) m s f refl
