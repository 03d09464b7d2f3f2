-- ===== src/Bitmap/Positions.antt =====
-- Where an iterator stands: what it has still to give, and that nextWord keeps it.
use access_management.Prelude.{
  ℕ, zero, suc, ◌+◌, ◌*◌, ◌/◌, ◌%◌, ◌≤◌, ◌<◌, ◌≡◌, Bool, true, false, ◌&&◌, ◌||◌, ◌==◌, ==_iff, ltb,
  leb, length, arith, Bool-cases, inl, inr, ◌∙◌,
}
use access_management.Bitmap.Words.{
  bit, trailing_zeros, word_bits, Fits, bit-zero, bit-clear_bit, Fits-clear_bit, Fits-zero, bit-lt,
  bit-trailing_zeros, nonzero_of_bit, trailing_zeros-le,
}
use access_management.Bitmap.Cells.{cell, cell_beyond}
use access_management.Bitmap.Sets.{Bitmap, contains}
use access_management.Bitmap.Consistency.{IsBitmap, contains-cell}
use access_management.Bitmap.Iterator.{BitmapIterator, take_word, next_group, next_word}

module _ (bm : Bitmap) where
  -- What the iterator bm has still to give: of the words after its word, and in all.
  abbrev pub left : BitmapIterator → ℕ → Bool
  left it x =
      contains x bm
      && ((x / 64 / 64 == it.meta_idx && bit (x / 64 % 64) it.meta_w)
          || ltb it.meta_idx (x / 64 / 64))

  abbrev pub pending : BitmapIterator → ℕ → Bool
  pending it x = (x / 64 == it.word_idx && bit (x % 64) it.word) || left it x

  pub record IsPositioned (it : BitmapIterator) : Type 0 where
    pub word_fit : Fits word_bits it.word
    pub meta_fit : Fits word_bits it.meta_w
    pub of_meta : (j : ℕ) → bit j it.meta_w ≡ true → bit j (cell bm.meta it.meta_idx) ≡ true
    pub later :
        (j : ℕ)
        → (it.word == 0) ≡ false
        → bit j it.meta_w ≡ true
        → it.word_idx < it.meta_idx * 64 + j
    pub here : it.word_idx < it.meta_idx * 64 + 64

  module _ (v : IsBitmap bm) where
    take_word-nonzero :
        (it : BitmapIterator)
        → IsPositioned it
        → (it.meta_w == 0) ≡ false
        → ((take_word bm it).word == 0) ≡ false
    unfolding take_word word_bits
    take_word-nonzero it p h =
        let j = trailing_zeros word_bits it.meta_w in
        let has = bit-trailing_zeros word_bits it.meta_w p.meta_fit h in
        let lt : j < 64 = bit-lt word_bits j it.meta_w p.meta_fit has in
        let q : (it.meta_idx * 64 + j) / 64 ≡ it.meta_idx = omega arith in
        let r : (it.meta_idx * 64 + j) % 64 ≡ j = omega arith in
        ground (arith, p.of_meta j has, (rw (q, r) at (v.marks (it.meta_idx * 64 + j))))

    pending-take_word :
        (it : BitmapIterator)
        → IsPositioned it
        → (it.meta_w == 0) ≡ false
        → (x : ℕ) → pending (take_word bm it) x ≡ left it x
    unfolding take_word word_bits
    pending-take_word it p h x =
        let j = trailing_zeros word_bits it.meta_w in
        let has = bit-trailing_zeros word_bits it.meta_w p.meta_fit h in
        let lt : j < 64 = bit-lt word_bits j it.meta_w p.meta_fit has in
        ground (
          arith,
          has,
          bit-clear_bit j (x / 64 % 64) it.meta_w,
          contains-cell x bm,
          ==_iff (x / 64) (it.meta_idx * 64 + j),
          ==_iff j (x / 64 % 64),
        )

    take_word-IsPositioned :
        (it : BitmapIterator)
        → IsPositioned it
        → (it.meta_w == 0) ≡ false
        → IsPositioned (take_word bm it)
    unfolding take_word word_bits
    take_word-IsPositioned it p h =
        let j = trailing_zeros word_bits it.meta_w in
        let has = bit-trailing_zeros word_bits it.meta_w p.meta_fit h in
        let lt : j < 64 = bit-lt word_bits j it.meta_w p.meta_fit has in
        record {
          word_fit = v.words_fit (it.meta_idx * 64 + j);
          meta_fit = Fits-clear_bit word_bits j it.meta_w p.meta_fit;
          of_meta = λ i b. p.of_meta i (ground (arith, b, bit-clear_bit j i it.meta_w));
          later = λ i w b. ground (
            arith,
            b,
            bit-clear_bit j i it.meta_w,
            trailing_zeros-le word_bits i it.meta_w,
            ==_iff j i,
          );
          here = omega arith;
        }

    next_group-IsPositioned :
        (it : BitmapIterator) → IsPositioned it → IsPositioned (next_group bm it)
    next_group-IsPositioned it p = record {
      word_fit = p.word_fit;
      meta_fit = v.metas_fit (it.meta_idx + 1);
      of_meta = λ j b. b;
      later = λ j w b. omega (arith, p.here);
      here = omega (arith, p.here);
    }

    -- A member's word is marked, so that its group is not past the end of meta.
    pub marked :
        (x : ℕ) → contains x bm ≡ true → bit (x / 64 % 64) (cell bm.meta (x / 64 / 64)) ≡ true
    marked x h = ground (
      arith,
      h,
      contains-cell x bm,
      v.marks (x / 64),
      nonzero_of_bit (x % 64) (cell bm.words (x / 64)),
    )

    left-next_group :
        (it : BitmapIterator)
        → (it.meta_w == 0) ≡ true
        → (x : ℕ) → left (next_group bm it) x ≡ left it x
    left-next_group it h x =
        let z : it.meta_w ≡ 0 = ground (arith, h) in
        ground (arith, z, bit-zero (x / 64 % 64), marked x, ==_iff (x / 64 / 64) (it.meta_idx + 1))

    left-past :
        (it : BitmapIterator)
        → (it.meta_w == 0) ≡ true
        → length bm.meta ≤ it.meta_idx + 1
        → (x : ℕ) → left it x ≡ false
    left-past it h l x =
        let z : it.meta_w ≡ 0 = ground (arith, h) in
        ground (arith, z, bit-zero (x / 64 % 64), marked x, cell_beyond bm.meta (x / 64 / 64), l)

    -- The iterator bm stands at a word with bits, or nothing is left.
    pub record IsReady (it : BitmapIterator) : Type 0 where
      pub positioned : IsPositioned it
      pub live : (it.word == 0) ≡ true → (x : ℕ) → left it x ≡ false

    pub nothing_left :
        (it : BitmapIterator) → length bm.meta ≤ it.meta_idx → (x : ℕ) → left it x ≡ false
    nothing_left it l x =
        ground (arith, marked x, cell_beyond bm.meta (x / 64 / 64), l, bit-zero (x / 64 % 64))

    past-lem :
        (it : BitmapIterator)
        → IsPositioned it
        → (it.meta_w == 0) ≡ true
        → length bm.meta ≤ it.meta_idx + 1
        → IsReady (record it { meta_idx = it.meta_idx + 1; word = 0 })
          × ((x : ℕ) → pending (record it { meta_idx = it.meta_idx + 1; word = 0 }) x ≡ left it x)
    past-lem it p h l =
        let z : it.meta_w ≡ 0 = ground (arith, h) in
        let over = record it { meta_idx = it.meta_idx + 1; word = 0 } in
        (
          record {
            positioned = record {
              word_fit = Fits-zero word_bits;
              meta_fit = p.meta_fit;
              of_meta = λ j b. absurd (ground (arith, b, z, bit-zero j));
              later = λ j w b. absurd (ground (arith, b, z, bit-zero j));
              here = omega (arith, p.here);
            };
            live = λ e x. nothing_left over l x;
          },
          λ x. ground (arith, bit-zero (x % 64), nothing_left over l x, left-past it h l x),
        )

    pub next_word-lem :
        (f : ℕ) (it : BitmapIterator)
        → IsPositioned it
        → length bm.meta ≤ it.meta_idx + f
        → IsReady (next_word bm f it) × ((x : ℕ) → pending (next_word bm f it) x ≡ left it x)
    unfolding next_word
    next_word-lem zero it p l = (
      record {
        positioned = record {
          word_fit = Fits-zero word_bits;
          meta_fit = p.meta_fit;
          of_meta = p.of_meta;
          later = λ j w b. absurd (ground (arith, w));
          here = p.here;
        };
        live = λ z x. nothing_left it (omega (arith, l)) x;
      },
      λ x. ground (arith, bit-zero (x % 64), nothing_left it (omega (arith, l)) x),
    )
    next_word-lem (suc f) it p l = elim (Bool-cases (it.meta_w == 0)) [
      | inr some_words ↦
          let nonzero = take_word-nonzero it p some_words in
          rw (some_words, nonzero)
            (
              record {
                positioned = take_word-IsPositioned it p some_words;
                live = λ z x. absurd (ground (arith, z, nonzero));
              },
              pending-take_word it p some_words,
            )
      | inl no_words ↦ elim (Bool-cases (leb (length bm.meta) (it.meta_idx + 1))) [
        | inl last ↦ rw (no_words, last) (past-lem it p no_words (ground (arith, last)))
        | inr further ↦
            let rest =
              next_word-lem f (next_group bm it) (next_group-IsPositioned it p) (omega arith) in
            rw (no_words, further) (rest.0, λ x. rest.1 x ∙ left-next_group it no_words x)
      ]
    ]
