-- ===== src/Bitmap/Intersection.antt =====
-- What And does: the words that both bitmaps share, its invariant and its members.
use access_management.Prelude.{
  ℕ, zero, suc, ◌+◌, ◌-◌, ◌/◌, ◌%◌, ◌≤◌, ◌<◌, ◌≡◌, refl, ◌&&◌, not, List, [], ◌∷◌, ◌==◌, ==_iff,
  leb, length, if◌then◌else◌, arith, Bool-cases, inl, inr, ◌∙◌,
}
use access_management.Bitmap.Words.{
  bit, and_bits, word_bits, Fits, bit-zero, bit-and_bits, Fits-and_bits, Fits-zero,
}
use access_management.Bitmap.Zeros.{and_bits-zero_left}
use access_management.Bitmap.Cells.{cell, cell_of_rest}
use access_management.Bitmap.Sets.{Bitmap, contains, and, and_from, and_group}
use access_management.Bitmap.Consistency.{IsBitmap, contains-cell}
use access_management.Bitmap.Groups.{
  length-and_group, Fits-and_group, observed-and_group, cell-other_group,
}

module _ (other : Bitmap) (u : IsBitmap other) where
  length-and_from :
      (ms : List ℕ) (mi : ℕ) (words : List ℕ)
      → ((i : ℕ) → Fits word_bits (cell ms i))
      → (length (and_from other mi ms words).0 ≡ length words)
        × (length (and_from other mi ms words).1 ≡ length ms)
  unfolding and_from cell
  length-and_from [] mi words f = (refl, refl)
  length-and_from (m ∷ ms) mi words f =
      let rest = length-and_from ms (suc mi) (and_group other mi m words).0 (λ i. f (suc i)) in
      (rest.0 ∙ length-and_group other u mi m words (f 0), omega (arith, rest.1))

  Fits-and_from :
      (ms : List ℕ) (mi : ℕ) (words : List ℕ) (i : ℕ)
      → ((i : ℕ) → Fits word_bits (cell ms i))
      → Fits word_bits (cell (and_from other mi ms words).1 i)
  unfolding and_from cell
  Fits-and_from [] mi words i f = Fits-zero word_bits
  Fits-and_from (m ∷ ms) mi words zero f = Fits-and_group other u mi m words (f 0)
  Fits-and_from (m ∷ ms) mi words (suc i) f =
      Fits-and_from ms (suc mi) (and_group other mi m words).0 i (λ i. f (suc i))

  module _ (k : ℕ) where
    -- The words and the words of meta after the loop, from its index mi.
    cell-and_from :
        (ms : List ℕ) (mi : ℕ) (words : List ℕ)
        → ((i : ℕ) → Fits word_bits (cell ms i))
        → cell (and_from other mi ms words).0 k ≡ (
            if leb mi (k / 64) && bit (k % 64) (cell ms (k / 64 - mi))
            then and_bits word_bits (cell words k) (cell other.words k)
            else cell words k)
    unfolding and_from cell
    cell-and_from [] mi words f = ground (arith, bit-zero (k % 64))
    cell-and_from (m ∷ ms) mi words f =
        let here : mi ≡ k / 64 → cell (m ∷ ms) (k / 64 - mi) ≡ m =
          λ e. let z : k / 64 - mi ≡ 0 = omega arith in rw z refl in
        let group : mi ≡ k / 64
            → cell (and_group other mi m words).0 k ≡ (
                if bit (k % 64) m
                then and_bits word_bits (cell words k) (cell other.words k)
                else cell words k) =
          λ e. (observed-and_group other u mi m words (f 0) k e).0 in
        ground (
          arith,
          cell-and_from ms (suc mi) (and_group other mi m words).0 (λ i. f (suc i)),
          group,
          cell-other_group other u mi m words (f 0) k,
          ==_iff mi (k / 64),
          here,
          cell_of_rest m ms mi (k / 64),
        )

    meta-and_from :
        (ms : List ℕ) (mi : ℕ) (words : List ℕ)
        → ((i : ℕ) → Fits word_bits (cell ms i))
        → mi ≤ k / 64
        → bit (k % 64) (cell (and_from other mi ms words).1 (k / 64 - mi)) ≡ (
            bit (k % 64) (cell ms (k / 64 - mi))
            && not (and_bits word_bits (cell words k) (cell other.words k) == 0))
    unfolding and_from cell
    meta-and_from [] mi words f h = ground (arith, bit-zero (k % 64))
    meta-and_from (m ∷ ms) mi words f h = elim (Bool-cases (mi == k / 64)) [
      | inl e ↦
          let here : mi ≡ k / 64 = ground (arith, ==_iff mi (k / 64)) in
          let z : k / 64 - mi ≡ 0 = omega arith in
          rw z (observed-and_group other u mi m words (f 0) k here).1
      | inr e ↦
          let later : mi < k / 64 = ground (arith, ==_iff mi (k / 64)) in
          let rest =
            meta-and_from ms (suc mi) (and_group other mi m words).0 (λ i. f (suc i)) later in
          let s : k / 64 - mi ≡ suc (k / 64 - suc mi) = omega arith in
          rw (s, ← cell-other_group other u mi m words (f 0) k e) rest
    ]

module _ (b other : Bitmap) (v : IsBitmap b) (u : IsBitmap other) where
  -- The words of an intersection are the intersections of the words.
  pub cell-and :
      (k : ℕ)
      → cell (and b other).words k ≡ and_bits word_bits (cell b.words k) (cell other.words k)
  unfolding and
  cell-and k = ground (
    arith,
    cell-and_from other u k b.meta 0 b.words v.metas_fit,
    v.marks k,
    and_bits-zero_left word_bits (cell other.words k),
  )

  and-marks :
      (k : ℕ)
      → bit (k % 64) (cell (and b other).meta (k / 64)) ≡ not (cell (and b other).words k == 0)
  unfolding and
  and-marks k = ground (
    arith,
    meta-and_from other u k b.meta 0 b.words v.metas_fit (omega arith),
    cell-and_from other u k b.meta 0 b.words v.metas_fit,
    v.marks k,
    and_bits-zero_left word_bits (cell other.words k),
  )

  and-meta_length : length (and b other).meta ≡ (length (and b other).words + 63) / 64
  unfolding and
  and-meta_length =
      let l = length-and_from other u b.meta 0 b.words v.metas_fit in
      omega (arith, l.0, l.1, v.meta_length)

  -- And keeps the invariant.
  pub and-IsBitmap : IsBitmap (and b other)
  unfolding and
  and-IsBitmap = record {
    meta_length = and-meta_length;
    marks = and-marks;
    words_fit =
        λ k. rw (cell-and k) (Fits-and_bits word_bits (cell b.words k) (cell other.words k));
    metas_fit = λ k. Fits-and_from other u b.meta 0 b.words k v.metas_fit;
  }

  -- The members after And, of well-formed bitmaps, are those of both.
  pub contains-and : (x : ℕ) → contains x (and b other) ≡ (contains x b && contains x other)
  unfolding word_bits
  contains-and x = ground (
    arith,
    contains-cell x b,
    contains-cell x other,
    contains-cell x (and b other),
    cell-and (x / 64),
    bit-and_bits word_bits (x % 64) (cell b.words (x / 64)) (cell other.words (x / 64)),
  )
