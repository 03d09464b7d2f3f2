-- ===== src/Bitmap/Batch.antt =====
-- What AddSortedBatch does to the members of a bitmap.
use access_management.Prelude.{
  ℕ, ◌+◌, ◌/◌, ◌%◌, ◌≤◌, ◌<◌, ◌≡◌, true, false, ◌&&◌, ◌||◌, List, [], ◌∷◌, ◌==◌, ==_iff, length,
  any, arith, Bool-cases, inl, inr,
}
use access_management.Bitmap.Words.{
  bit, set_bit, or_bits, word_bits, Fits, bit-zero, bit-set_bit, bit-or_bits, Fits-or_bits,
  Fits-set_bit, Fits-zero, nonzero_of_bit,
}
use access_management.Bitmap.Zeros.{or_bits-is_zero}
use access_management.Bitmap.Cells.{cell, length-modify}
use access_management.Bitmap.Sets.{
  Bitmap, new_bitmap, ensure, mark, contains, batch_from, last_of, add_sorted_batch,
  new_bitmap_from_ids,
}
use access_management.Bitmap.Consistency.{
  IsBitmap, contains-cell, contains-new_bitmap, new_bitmap-IsBitmap, cell-ensure, length-ensure,
  ensure-IsBitmap, cell-mark, mark-IsBitmap,
}

-- A strictly ascending list above a bound.
unfoldable pub Above : ℕ → List ℕ → Type 0
Above x [] = Unit
Above x (y ∷ ys) = (x < y) × Above y ys

unfoldable pub Ascending : List ℕ → Type 0
unfolding Above
Ascending [] = Unit
Ascending (x ∷ xs) = Above x xs

-- Every number stands in one of the first n words.
Within : ℕ → List ℕ → Type 0
Within n [] = Unit
Within n (x ∷ xs) = (x / 64 < n) × Within n xs

Within-le : (n m : ℕ) (xs : List ℕ) → n ≤ m → Within n xs → Within m xs
unfolding Within
Within-le n m [] h w = tt
Within-le n m (x ∷ xs) h w = (omega (arith, w.0), Within-le n m xs h w.1)

last_of-ge : (x : ℕ) (xs : List ℕ) → Above x xs → x ≤ last_of x xs
unfolding last_of Above
last_of-ge x [] a = omega arith
last_of-ge x (y ∷ ys) a = omega (arith, last_of-ge y ys a.1, a.0)

Above-Within : (x : ℕ) (xs : List ℕ) → Above x xs → Within (last_of x xs / 64 + 1) xs
unfolding last_of Above Within
Above-Within x [] a = tt
Above-Within x (y ∷ ys) a = (omega (arith, last_of-ge y ys a.1), Above-Within y ys a.1)

-- A word with bits joins the words of a bitmap.
module _ (wi w : ℕ) (b : Bitmap) (v : IsBitmap b) (inside : wi < length b.words)
    (nonzero : (w == 0) ≡ false) (f : Fits word_bits w) where
  abbrev flushed : Bitmap
  flushed = mark wi (λ u. or_bits word_bits u w) b

  joined-nonzero : (or_bits word_bits (cell b.words wi) w == 0) ≡ false
  joined-nonzero =
      ground (arith, or_bits-is_zero word_bits (cell b.words wi) w (v.words_fit wi) f, nonzero)

  flushed-IsBitmap : IsBitmap flushed
  flushed-IsBitmap =
      mark-IsBitmap wi (λ u. or_bits word_bits u w) b v inside joined-nonzero
        (Fits-or_bits word_bits (cell b.words wi) w)

  contains-flushed :
      (x : ℕ) → contains x flushed ≡ (contains x b || (x / 64 == wi && bit (x % 64) w))
  unfolding word_bits
  contains-flushed x = ground (
    arith,
    contains-cell x b,
    contains-cell x flushed,
    ==_iff wi (x / 64),
    ==_iff (x / 64) wi,
    cell-mark wi (λ u. or_bits word_bits u w) b v inside joined-nonzero
        (Fits-or_bits word_bits (cell b.words wi) w) (x / 64),
    bit-or_bits word_bits (x % 64) (cell b.words (x / 64)) w,
  )

length-mark : (i : ℕ) (f : ℕ → ℕ) (b : Bitmap) → length (mark i f b).words ≡ length b.words
unfolding mark
length-mark i f b = length-modify i f b.words

set-nonzero : (i w : ℕ) → (set_bit i w == 0) ≡ false
set-nonzero i w = nonzero_of_bit i (set_bit i w) (ground (arith, bit-set_bit i i w))

set-Fits : (id w : ℕ) → Fits word_bits w → Fits word_bits (set_bit (id % 64) w)
unfolding word_bits
set-Fits id w f = Fits-set_bit word_bits (id % 64) w (omega arith) f

-- The loop keeps the invariant and adds the accumulated bits and the numbers that remain.
batch_from-lem :
    (ids : List ℕ) (wi w : ℕ) (b : Bitmap)
    → IsBitmap b
    → wi < length b.words
    → (w == 0) ≡ false
    → Fits word_bits w
    → Within (length b.words) ids
    → IsBitmap (batch_from ids wi w b)
      × ((x : ℕ)
          → contains x (batch_from ids wi w b)
            ≡ (contains x b || (x / 64 == wi && bit (x % 64) w) || any (λ y. x == y) ids))
unfolding batch_from Within
batch_from-lem [] wi w b v inside nonzero f within = (
  flushed-IsBitmap wi w b v inside nonzero f,
  λ x. ground (arith, contains-flushed wi w b v inside nonzero f x),
)
batch_from-lem (id ∷ ids) wi w b v inside nonzero f within = elim (Bool-cases (id / 64 == wi)) [
  | inl e ↦
      let rest =
        batch_from-lem ids wi (set_bit (id % 64) w) b v inside (set-nonzero (id % 64) w)
          (set-Fits id w f) within.1 in
      rw e (
        rest.0,
        λ x. ground (
          arith,
          rest.1 x,
          bit-set_bit (id % 64) (x % 64) w,
          ==_iff x id,
          ==_iff (x / 64) wi,
          ==_iff (id / 64) wi,
          ==_iff (id % 64) (x % 64),
          e,
        ),
      )
  | inr e ↦
      let l = length-mark wi (λ u. or_bits word_bits u w) b in
      let rest =
        batch_from-lem ids (id / 64) (set_bit (id % 64) 0) (flushed wi w b v inside nonzero f)
          (flushed-IsBitmap wi w b v inside nonzero f) (omega (arith, l, within.0))
          (set-nonzero (id % 64) 0) (set-Fits id 0 (Fits-zero word_bits)) (rw l within.1) in
      rw e (
        rest.0,
        λ x. ground (
          arith,
          rest.1 x,
          contains-flushed wi w b v inside nonzero f x,
          bit-set_bit (id % 64) (x % 64) 0,
          bit-zero (x % 64),
          ==_iff x id,
          ==_iff (x / 64) (id / 64),
          ==_iff (id % 64) (x % 64),
        ),
      )
]

-- AddSortedBatch of an ascending list keeps the invariant and adds the numbers of the list.
add_sorted_batch-lem :
    (ids : List ℕ) (b : Bitmap)
    → IsBitmap b
    → Ascending ids
    → IsBitmap (add_sorted_batch ids b)
      × ((x : ℕ) → contains x (add_sorted_batch ids b) ≡ (contains x b || any (λ y. x == y) ids))
unfolding add_sorted_batch batch_from Ascending
add_sorted_batch-lem [] b v a = (v, λ x. ground arith)
add_sorted_batch-lem (id ∷ ids) b v a =
    let n = last_of id ids / 64 + 1 in
    let l = length-ensure n b in
    let rest =
      batch_from-lem ids (id / 64) (set_bit (id % 64) 0) (ensure n b) (ensure-IsBitmap n b v)
        (omega (arith, l, last_of-ge id ids a)) (set-nonzero (id % 64) 0)
        (set-Fits id 0 (Fits-zero word_bits))
        (Within-le n (length (ensure n b).words) ids l (Above-Within id ids a)) in
    let e : (id / 64 == id / 64) ≡ true = ground arith in
    rw e (
      rest.0,
      λ x. ground (
        arith,
        rest.1 x,
        contains-cell x b,
        contains-cell x (ensure n b),
        cell-ensure n b (x / 64),
        bit-set_bit (id % 64) (x % 64) 0,
        bit-zero (x % 64),
        ==_iff x id,
        ==_iff (x / 64) (id / 64),
        ==_iff (id % 64) (x % 64),
      ),
    )

-- The bitmap of an ascending list is well formed and has the numbers of the list as its members.
pub new_bitmap_from_ids-lem :
    (ids : List ℕ)
    → Ascending ids
    → IsBitmap (new_bitmap_from_ids ids)
      × ((x : ℕ) → contains x (new_bitmap_from_ids ids) ≡ any (λ y. x == y) ids)
unfolding new_bitmap_from_ids
new_bitmap_from_ids-lem ids a =
    let made = add_sorted_batch-lem ids new_bitmap new_bitmap-IsBitmap a in
    (made.0, λ x. ground (arith, made.1 x, contains-new_bitmap x))
