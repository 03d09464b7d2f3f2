-- ===== src/Bitmap/Consistency.antt =====
-- The invariant of a bitmap, and what Add, Remove and IsEmpty do to its members.
use access_management.Prelude.{
  ℕ, ◌+◌, ◌-◌, ◌/◌, ◌%◌, ◌≤◌, ◌<◌, ◌≡◌, refl, false, not, ◌==◌, ==_iff, length, length-append,
  if◌then◌else◌, arith, Bool-cases, inl, inr,
}
use access_management.Bitmap.Words.{
  bit, set_bit, word_bits, Fits, bit-zero, bit-set_bit, Fits-zero, Fits-set_bit,
}
use access_management.Bitmap.Cells.{
  cell, zeros, cell-modify, length-modify, length-zeros, cell-grown, cell_beyond,
}
use access_management.Bitmap.Sets.{Bitmap, new_bitmap, ensure, mark, contains}

-- meta has a word for each 64 words and marks exactly those that are not zero, and all are words
-- of 64 bits.
pub record IsBitmap (b : Bitmap) : Type 0 where
  pub meta_length : length b.meta ≡ (length b.words + 63) / 64
  pub marks : (i : ℕ) → bit (i % 64) (cell b.meta (i / 64)) ≡ not (cell b.words i == 0)
  pub words_fit : (i : ℕ) → Fits word_bits (cell b.words i)
  pub metas_fit : (i : ℕ) → Fits word_bits (cell b.meta i)

-- The bit that stands for a number, a word out of range read as zero.
pub contains-cell : (id : ℕ) (b : Bitmap) → contains id b ≡ bit (id % 64) (cell b.words (id / 64))
unfolding contains
contains-cell id b = ground (arith, cell_beyond b.words (id / 64), bit-zero (id % 64))

pub new_bitmap-IsBitmap : IsBitmap new_bitmap
unfolding new_bitmap cell
new_bitmap-IsBitmap = record {
  meta_length = refl;
  marks = λ i. bit-zero (i % 64);
  words_fit = λ i. Fits-zero word_bits;
  metas_fit = λ i. Fits-zero word_bits;
}

pub contains-new_bitmap : (id : ℕ) → contains id new_bitmap ≡ false
unfolding new_bitmap cell
contains-new_bitmap id = ground (arith, contains-cell id new_bitmap, bit-zero (id % 64))

pub cell-ensure : (n : ℕ) (b : Bitmap) (i : ℕ) → cell (ensure n b).words i ≡ cell b.words i
unfolding ensure
cell-ensure n b i = ground (arith, cell-grown b.words (n - length b.words) i)

pub meta-ensure : (n : ℕ) (b : Bitmap) (i : ℕ) → cell (ensure n b).meta i ≡ cell b.meta i
unfolding ensure
meta-ensure n b i = ground (arith, cell-grown b.meta ((n + 63) / 64 - length b.meta) i)

pub length-ensure : (n : ℕ) (b : Bitmap) → n ≤ length (ensure n b).words
unfolding ensure
length-ensure n b =
    ground
      (arith, length-append b.words (zeros (n - length b.words)), length-zeros (n - length b.words))

pub meta_length-ensure :
    (n : ℕ) (b : Bitmap)
    → IsBitmap b
    → length (ensure n b).meta ≡ (length (ensure n b).words + 63) / 64
unfolding ensure
meta_length-ensure n b v = ground (
  arith,
  v.meta_length,
  length-append b.words (zeros (n - length b.words)),
  length-zeros (n - length b.words),
  length-append b.meta (zeros ((n + 63) / 64 - length b.meta)),
  length-zeros ((n + 63) / 64 - length b.meta),
)

pub ensure-IsBitmap : (n : ℕ) (b : Bitmap) → IsBitmap b → IsBitmap (ensure n b)
ensure-IsBitmap n b v = record {
  meta_length = meta_length-ensure n b v;
  marks = λ i. rw (cell-ensure n b i, meta-ensure n b (i / 64)) (v.marks i);
  words_fit = λ i. rw (cell-ensure n b i) (v.words_fit i);
  metas_fit = λ i. rw (meta-ensure n b i) (v.metas_fit i);
}

-- Cell i takes a value that is not zero, and meta its mark.
module _ (i : ℕ) (f : ℕ → ℕ) (b : Bitmap) (v : IsBitmap b) (inside : i < length b.words)
    (some_bit : (f (cell b.words i) == 0) ≡ false)
    (fits : Fits word_bits (f (cell b.words i))) where
  pub cell-mark :
      (k : ℕ) → cell (mark i f b).words k ≡ (if i == k then f (cell b.words k) else cell b.words k)
  unfolding mark
  cell-mark k = ground (arith, cell-modify i f b.words k)

  meta-mark :
      (k : ℕ)
      → cell (mark i f b).meta k
        ≡ (if i / 64 == k then set_bit (i % 64) (cell b.meta k) else cell b.meta k)
  unfolding mark
  meta-mark k = ground (arith, cell-modify (i / 64) (set_bit (i % 64)) b.meta k, v.meta_length)

  mark-marks :
      (k : ℕ)
      → bit (k % 64) (cell (mark i f b).meta (k / 64)) ≡ not (cell (mark i f b).words k == 0)
  mark-marks k = ground (
    arith,
    cell-mark k,
    meta-mark (k / 64),
    v.marks k,
    bit-set_bit (i % 64) (k % 64) (cell b.meta (k / 64)),
    some_bit,
    ==_iff i k,
  )

  mark-words_fit : (k : ℕ) → Fits word_bits (cell (mark i f b).words k)
  mark-words_fit k = elim (Bool-cases (i == k)) [
    | inl e ↦ let same = (==_iff i k).0 e in rw (cell-mark k, e, ← same) fits
    | inr e ↦ rw (cell-mark k, e) (v.words_fit k)
  ]

  mark-metas_fit : (k : ℕ) → Fits word_bits (cell (mark i f b).meta k)
  unfolding word_bits
  mark-metas_fit k = elim (Bool-cases (i / 64 == k)) [
    | inl e ↦
        rw (meta-mark k, e)
          (Fits-set_bit word_bits (i % 64) (cell b.meta k) (omega arith) (v.metas_fit k))
    | inr e ↦ rw (meta-mark k, e) (v.metas_fit k)
  ]

  pub mark-IsBitmap : IsBitmap (mark i f b)
  unfolding mark
  mark-IsBitmap = record {
    meta_length = omega (
      arith,
      v.meta_length,
      length-modify i f b.words,
      length-modify (i / 64) (set_bit (i % 64)) b.meta,
    );
    marks = mark-marks;
    words_fit = mark-words_fit;
    metas_fit = mark-metas_fit;
  }
