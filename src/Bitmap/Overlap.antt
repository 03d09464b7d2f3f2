-- ===== src/Bitmap/Overlap.antt =====
-- What intersectionNonEmpty decides: whether several bitmaps have a member in common.
use access_management.Prelude.{
  ℕ, zero, suc, ◌+◌, ◌*◌, ◌/◌, ◌%◌, ◌≤◌, ◌<◌, ◌≡◌, ◌↔◌, refl, Bool, true, ◌&&◌, not, List, [], ◌∷◌,
  ◌==◌, ==_iff, ltb, length, all, All, if◌then◌else◌, arith, Bool-cases, inl, inr,
}
use access_management.Bitmap.Words.{
  bit, and_bits, word_bits, trailing_zeros, Fits, bit-zero, bit-and_bits, Fits-and_bits, bit-lt,
  bit-trailing_zeros, nonzero_of_bit,
}
use access_management.Bitmap.Cells.{cell}
use access_management.Bitmap.Sets.{
  Bitmap, contains, min_length, some_from, combine, combine_until_zero, meta_intersects,
  intersection_non_empty,
}
use access_management.Bitmap.Consistency.{IsBitmap, contains-cell}

some_from-found :
    (test : ℕ → Bool) (i n k : ℕ) → i ≤ k → k < i + n → test k ≡ true → some_from test i n ≡ true
unfolding some_from
some_from-found test i zero k h l e = absurd (omega arith)
some_from-found test i (suc n) k h l e = elim (Bool-cases (i == k)) [
  | inl same ↦ let s = (==_iff i k).0 same in ground (arith, s, e)
  | inr later ↦
      ground (arith, some_from-found test (suc i) n k (ground (arith, later)) (omega arith) e)
]

found_from : (test : ℕ → Bool) (i n : ℕ) → some_from test i n ≡ true → (k : ℕ) × (test k ≡ true)
unfolding some_from
found_from test i zero h = absurd (ground (arith, h))
found_from test i (suc n) h = elim (Bool-cases (test i)) [
  | inl e ↦ (i, e)
  | inr e ↦ found_from test (suc i) n (ground (arith, e, h))
]

min_length-lt :
    (part : Bitmap → List ℕ) (n k : ℕ) (bitmaps : List Bitmap)
    → k < n
    → all (λ b. ltb k (length (part b))) bitmaps ≡ true
    → k < min_length part n bitmaps
unfolding min_length
min_length-lt part n k [] h a = h
min_length-lt part n k (b ∷ bitmaps) h a =
    min_length-lt part (if ltb (length (part b)) n then length (part b) else n) k bitmaps
      (ground (arith, a)) (ground (arith, a))

module _ (i j : ℕ) (lt : j < word_bits) where
  bit-combine :
      (w : ℕ) (bitmaps : List Bitmap)
      → bit j (combine i w bitmaps) ≡ (bit j w && all (λ b. bit j (cell b.meta i)) bitmaps)
  unfolding combine
  bit-combine w [] = ground arith
  bit-combine w (b ∷ bitmaps) = ground (
    arith,
    bit-combine (and_bits word_bits w (cell b.meta i)) bitmaps,
    bit-and_bits word_bits j w (cell b.meta i) lt,
  )

  bit-combine_until_zero :
      (w : ℕ) (bitmaps : List Bitmap)
      → bit j (combine_until_zero i w bitmaps)
        ≡ (bit j w && all (λ b. bit j (cell b.words i)) bitmaps)
  unfolding combine_until_zero
  bit-combine_until_zero w [] = ground arith
  bit-combine_until_zero w (b ∷ bitmaps) = ground (
    arith,
    bit-combine_until_zero (and_bits word_bits w (cell b.words i)) bitmaps,
    bit-and_bits word_bits j w (cell b.words i) lt,
    bit-zero j,
  )

Fits-combine :
    (i w : ℕ) (bitmaps : List Bitmap)
    → Fits word_bits w
    → Fits word_bits (combine_until_zero i w bitmaps)
unfolding combine_until_zero
Fits-combine i w [] f = f
Fits-combine i w (b ∷ bitmaps) f = ground (
  arith,
  Fits-combine i (and_bits word_bits w (cell b.words i)) bitmaps
      (Fits-and_bits word_bits w (cell b.words i)),
  Fits-and_bits word_bits w (cell b.words i),
)

module _ (first : Bitmap) (rest : List Bitmap) (v : IsBitmap first) (vs : All IsBitmap rest) where
  abbrev shared : ℕ → Bool
  shared x = contains x first && all (λ b. contains x b) rest

  all-contains :
      (x : ℕ) (bitmaps : List Bitmap)
      → all (λ b. contains x b) bitmaps ≡ all (λ b. bit (x % 64) (cell b.words (x / 64))) bitmaps
  all-contains x [] = refl
  all-contains x (b ∷ bitmaps) = ground (arith, all-contains x bitmaps, contains-cell x b)

  -- A common member is found.
  member_in_range :
      (x : ℕ) (b : Bitmap)
      → IsBitmap b
      → contains x b ≡ true
      → (ltb (x / 64) (length b.words) ≡ true)
        × (ltb (x / 64 / 64) (length b.meta) ≡ true)
        × (bit (x / 64 % 64) (cell b.meta (x / 64 / 64)) ≡ true)
  unfolding contains
  member_in_range x b u h = (
    ground (arith, h),
    ground (arith, h, u.meta_length),
    ground (arith, h, u.marks (x / 64), nonzero_of_bit (x % 64) (cell b.words (x / 64))),
  )

  all_in_range :
      (x : ℕ) (bitmaps : List Bitmap)
      → All IsBitmap bitmaps
      → all (λ b. contains x b) bitmaps ≡ true
      → (all (λ b. ltb (x / 64) (length b.words)) bitmaps ≡ true)
        × (all (λ b. ltb (x / 64 / 64) (length b.meta)) bitmaps ≡ true)
        × (all (λ b. bit (x / 64 % 64) (cell b.meta (x / 64 / 64))) bitmaps ≡ true)
  all_in_range x [] us h = (refl, refl, refl)
  all_in_range x (b ∷ bitmaps) us h =
      let one = member_in_range x b us.0 (ground (arith, h)) in
      let others = all_in_range x bitmaps us.1 (ground (arith, h)) in
      (
        ground (arith, one.0, others.0),
        ground (arith, one.1, others.1),
        ground (arith, one.2, others.2),
      )

  meta_intersects-shared : (x : ℕ) → shared x ≡ true → meta_intersects first rest ≡ true
  unfolding meta_intersects word_bits
  meta_intersects-shared x h =
      let i = x / 64 / 64 in
      let here = member_in_range x first v (ground (arith, h)) in
      let others = all_in_range x rest vs (ground (arith, h)) in
      let has = bit-combine i (x / 64 % 64) (omega arith) (cell first.meta i) rest in
      some_from-found (λ i. not (combine i (cell first.meta i) rest == 0)) 0
        (min_length (λ b. b.meta) (length first.meta) rest) i (omega arith)
        (omega (
          arith,
          min_length-lt (λ b. b.meta) (length first.meta) i rest (ground (arith, here.1)) others.1,
        ))
        (ground (
          arith,
          has,
          here.2,
          others.2,
          nonzero_of_bit (x / 64 % 64) (combine i (cell first.meta i) rest),
        ))

  shared-found : (x : ℕ) → shared x ≡ true → intersection_non_empty first rest ≡ true
  unfolding intersection_non_empty word_bits
  shared-found x h =
      let i = x / 64 in
      let here = member_in_range x first v (ground (arith, h)) in
      let others = all_in_range x rest vs (ground (arith, h)) in
      let has = bit-combine_until_zero i (x % 64) (omega arith) (cell first.words i) rest in
      let found =
        some_from-found (λ i. not (combine_until_zero i (cell first.words i) rest == 0)) 0
          (min_length (λ b. b.words) (length first.words) rest) i (omega arith)
          (omega (
            arith,
            min_length-lt (λ b. b.words) (length first.words) i rest (ground (arith, here.0))
                others.0,
          ))
          (ground (
            arith,
            has,
            h,
            contains-cell x first,
            all-contains x rest,
            nonzero_of_bit (x % 64) (combine_until_zero i (cell first.words i) rest),
          )) in
      ground (arith, found, meta_intersects-shared x h)

  found-shared : intersection_non_empty first rest ≡ true → (x : ℕ) × (shared x ≡ true)
  unfolding intersection_non_empty word_bits
  found-shared h =
      let found =
        found_from (λ i. not (combine_until_zero i (cell first.words i) rest == 0)) 0
          (min_length (λ b. b.words) (length first.words) rest) (ground (arith, h)) in
      let k = found.0 in
      let w = combine_until_zero k (cell first.words k) rest in
      let f = Fits-combine k (cell first.words k) rest (v.words_fit k) in
      let t = trailing_zeros word_bits w in
      let has = bit-trailing_zeros word_bits w f (ground (arith, found.1)) in
      let lt : t < 64 = bit-lt word_bits t w f has in
      let q : (k * 64 + t) / 64 ≡ k = omega arith in
      let r : (k * 64 + t) % 64 ≡ t = omega arith in
      let each = bit-combine_until_zero k t lt (cell first.words k) rest in
      (
        k * 64 + t,
        rw (all-contains (k * 64 + t) rest, contains-cell (k * 64 + t) first, q, r)
            (ground (arith, each, has)),
      )

  -- intersectionNonEmpty says whether the bitmaps, all well-formed, have a member in common.
  pub intersection_non_empty_iff :
      (intersection_non_empty first rest ≡ true)
      ↔ ((x : ℕ) × ((contains x first && all (λ b. contains x b) rest) ≡ true))
  intersection_non_empty_iff = (found-shared, λ found. shared-found found.0 found.1)
