-- ===== src/Bitmap/Iteration.antt =====
-- The iterator gives exactly the members of a bitmap, in ascending order.
use access_management.Prelude.{
  word32, uint32_small, ℕ, zero, suc, ◌+◌, ◌*◌, ◌/◌, ◌%◌, ◌≤◌, ◌<◌, ◌≡◌, refl, true, false, ◌&&◌,
  not, List, [], ◌∷◌, ◌==◌, ==_iff, leb, length, any, arith, Bool-cases, inl, inr,
}
use access_management.Bitmap.Words.{
  clear_bit, trailing_zeros, word_bits, bit-zero, bit-clear_bit, Fits-clear_bit, Fits-zero, bit-lt,
  bit-trailing_zeros, trailing_zeros-le,
}
use access_management.Bitmap.Cells.{cell, cell_beyond}
use access_management.Bitmap.Sets.{Bitmap, contains}
use access_management.Bitmap.Consistency.{IsBitmap}
use access_management.Bitmap.Batch.{Above, Ascending}
use access_management.Bitmap.Iterator.{
  BitmapIterator, has_next, advance, iterator, next_id, after_next, ids_from, ids,
}
use access_management.Bitmap.Positions.{
  pending, IsPositioned, IsReady, next_word-lem, marked, nothing_left,
}

module _ (bm : Bitmap) where
  module _ (v : IsBitmap bm) where
    -- The number that Next reads off, before its conversion to uint32.
    number : BitmapIterator → ℕ
    number it = it.word_idx * 64 + trailing_zeros word_bits it.word

    next_id-number : (it : BitmapIterator) → number it < word32 → next_id bm it ≡ number it
    unfolding next_id number
    next_id-number it h = uint32_small _ h

    -- What Next leaves: all that was pending bm but the number given, which comes first.
    number-pending :
        (it : BitmapIterator)
        → IsReady bm v it
        → has_next it ≡ true
        → pending bm it (number it) ≡ true
    unfolding has_next number word_bits
    number-pending it r h =
        let p = r.positioned in
        let t = trailing_zeros word_bits it.word in
        let has = bit-trailing_zeros word_bits it.word p.word_fit (ground (arith, h)) in
        let lt : t < 64 = bit-lt word_bits t it.word p.word_fit has in
        let q : (it.word_idx * 64 + t) / 64 ≡ it.word_idx = omega arith in
        let m : (it.word_idx * 64 + t) % 64 ≡ t = omega arith in rw (q, m) (ground (arith, has))

    number-le :
        (it : BitmapIterator)
        → IsReady bm v it
        → has_next it ≡ true
        → (x : ℕ) → pending bm it x ≡ true
        → number it ≤ x
    unfolding has_next number word_bits
    number-le it r h x e =
        let p = r.positioned in
        let t = trailing_zeros word_bits it.word in
        let has = bit-trailing_zeros word_bits it.word p.word_fit (ground (arith, h)) in
        let lt : t < 64 = bit-lt word_bits t it.word p.word_fit has in
        ground
          (arith, e, trailing_zeros-le word_bits (x % 64) it.word, p.later (x / 64 % 64), p.here)

    cleared : BitmapIterator → BitmapIterator
    cleared it = record it { word = clear_bit (trailing_zeros word_bits it.word) it.word }

    pending-cleared :
        (it : BitmapIterator)
        → IsReady bm v it
        → has_next it ≡ true
        → (x : ℕ) → pending bm (cleared it) x ≡ (not (number it == x) && pending bm it x)
    unfolding has_next number word_bits cleared
    pending-cleared it r h x =
        let p = r.positioned in
        let t = trailing_zeros word_bits it.word in
        let has = bit-trailing_zeros word_bits it.word p.word_fit (ground (arith, h)) in
        let lt : t < 64 = bit-lt word_bits t it.word p.word_fit has in
        ground (
          arith,
          bit-clear_bit t (x % 64) it.word,
          p.later (x / 64 % 64),
          p.here,
          ==_iff (it.word_idx * 64 + t) x,
          ==_iff t (x % 64),
          ==_iff (x / 64) it.word_idx,
        )

    cleared-IsPositioned :
        (it : BitmapIterator)
        → IsPositioned bm it
        → (it.word == 0) ≡ false
        → IsPositioned bm (cleared it)
    unfolding cleared
    cleared-IsPositioned it p h = record {
      word_fit = Fits-clear_bit word_bits (trailing_zeros word_bits it.word) it.word p.word_fit;
      meta_fit = p.meta_fit;
      of_meta = p.of_meta;
      later = λ j w b. p.later j h b;
      here = p.here;
    }

    after_next-lem :
        (it : BitmapIterator)
        → IsReady bm v it
        → has_next it ≡ true
        → IsReady bm v (after_next bm it)
          × ((x : ℕ) → pending bm (after_next bm it) x ≡ (not (number it == x) && pending bm it x))
    unfolding after_next has_next cleared
    after_next-lem it r h =
        let some_bits : (it.word == 0) ≡ false = ground (arith, h) in
        let p = cleared-IsPositioned it r.positioned some_bits in
        elim (Bool-cases (clear_bit (trailing_zeros word_bits it.word) it.word == 0)) [
          | inl last ↦
              let rest = next_word-lem bm v (length bm.meta) (cleared it) p (omega arith) in
              rw last (
                rest.0,
                λ x. ground (arith, rest.1 x, pending-cleared it r h x, last, bit-zero (x % 64)),
              )
          | inr more ↦ rw more (
            record { positioned = p; live = λ z x. absurd (ground (arith, z, more)) },
            λ x. pending-cleared it r h x,
          )
        ]

    abbrev from_group : ℕ → BitmapIterator
    from_group mi = record { meta_idx = mi; meta_w = 0; word = 0; word_idx = 0 }

    none_from : (mi x : ℕ) → length bm.meta ≤ mi → (contains x bm && leb mi (x / 64 / 64)) ≡ false
    none_from mi x l =
        ground (arith, marked bm v x, cell_beyond bm.meta (x / 64 / 64), l, bit-zero (x / 64 % 64))

    from_group-IsReady :
        (mi : ℕ)
        → length bm.meta ≤ mi
        → IsReady bm v (from_group mi)
          × ((x : ℕ) → pending bm (from_group mi) x ≡ (contains x bm && leb mi (x / 64 / 64)))
    from_group-IsReady mi l = (
      record {
        positioned = record {
          word_fit = Fits-zero word_bits;
          meta_fit = Fits-zero word_bits;
          of_meta = λ j b. absurd (ground (arith, b, bit-zero j));
          later = λ j w b. absurd (ground (arith, b, bit-zero j));
          here = omega arith;
        };
        live = λ z x. nothing_left bm v (from_group mi) l x;
      },
      λ x.
          ground
            (arith, nothing_left bm v (from_group mi) l x, none_from mi x l, bit-zero (x % 64)),
    )

    advance-lem :
        (f mi : ℕ)
        → length bm.meta ≤ mi + f
        → IsReady bm v (advance bm f (from_group mi))
          × ((x : ℕ)
              → pending bm (advance bm f (from_group mi)) x
                ≡ (contains x bm && leb mi (x / 64 / 64)))
    unfolding advance
    advance-lem zero mi l = from_group-IsReady mi (omega (arith, l))
    advance-lem (suc f) mi l = elim (Bool-cases (leb (length bm.meta) mi)) [
      | inl over ↦ rw over (from_group-IsReady mi (ground (arith, over)))
      | inr inside ↦ elim (Bool-cases (cell bm.meta mi == 0)) [
        | inr some_words ↦
            let start = record (from_group mi) { meta_w = cell bm.meta mi } in
            let p : IsPositioned bm start = record {
              word_fit = Fits-zero word_bits;
              meta_fit = v.metas_fit mi;
              of_meta = λ j b. b;
              later = λ j w b. absurd (ground (arith, w));
              here = omega arith;
            } in
            let rest = next_word-lem bm v (length bm.meta) start p (omega arith) in
            rw (inside, some_words)
              (rest.0, λ x. ground (arith, rest.1 x, marked bm v x, ==_iff (x / 64 / 64) mi))
        | inl no_words ↦
            let rest = advance-lem f (mi + 1) (omega (arith, l)) in
            let z : cell bm.meta mi ≡ 0 = ground (arith, no_words) in
            rw (inside, no_words)
              (
                rest.0,
                λ x. ground (
                  arith,
                  rest.1 x,
                  marked bm v x,
                  z,
                  bit-zero (x / 64 % 64),
                  ==_iff (x / 64 / 64) mi,
                ),
              )
      ]
    ]

    -- A list of numbers from a bound upwards, strictly ascending.
    UpFrom : ℕ → List ℕ → Type 0
    UpFrom lo [] = Unit
    UpFrom lo (y ∷ ys) = (lo ≤ y) × UpFrom (suc y) ys

    UpFrom-Above : (x : ℕ) (ys : List ℕ) → UpFrom (suc x) ys → Above x ys
    unfolding UpFrom Above
    UpFrom-Above x [] u = tt
    UpFrom-Above x (y ∷ ys) u = (omega (arith, u.0), UpFrom-Above y ys u.1)

    UpFrom-Ascending : (lo : ℕ) (ys : List ℕ) → UpFrom lo ys → Ascending ys
    unfolding UpFrom Ascending
    UpFrom-Ascending lo [] u = tt
    UpFrom-Ascending lo (y ∷ ys) u = UpFrom-Above y ys u.1

    nothing_pending :
        (it : BitmapIterator)
        → IsReady bm v it
        → has_next it ≡ false
        → (x : ℕ) → pending bm it x ≡ false
    unfolding has_next
    nothing_pending it r h x =
        let z : it.word ≡ 0 = ground (arith, h) in
        ground (arith, z, bit-zero (x % 64), r.live (ground (arith, h)) x)

    ids_from-lem :
        (f : ℕ) (it : BitmapIterator) (lo n : ℕ)
        → IsReady bm v it
        → ((x : ℕ) → pending bm it x ≡ true → (lo ≤ x) × (x < n) × (x < word32))
        → n ≤ lo + f
        → UpFrom lo (ids_from bm f it)
          × ((x : ℕ) → any (λ y. x == y) (ids_from bm f it) ≡ pending bm it x)
    unfolding ids_from UpFrom
    ids_from-lem zero it lo n r between l = (
      tt,
      λ x. elim (Bool-cases (pending bm it x)) [
        | inl e ↦ absurd (omega (arith, (between x e).0, (between x e).1, l))
        | inr e ↦ rw e refl
      ],
    )
    ids_from-lem (suc f) it lo n r between l = elim (Bool-cases (has_next it)) [
      | inr h ↦ rw h (tt, λ x. ground (arith, nothing_pending it r h x))
      | inl h ↦
          let step = after_next-lem it r h in
          let first = number-pending it r h in
          let bounds = between (number it) first in
          let rest =
            ids_from-lem f (after_next bm it) (suc (number it)) n step.0
              (λ x e.
                let was : pending bm it x ≡ true = ground (arith, e, step.1 x) in
                (
                  ground (arith, e, step.1 x, number-le it r h x was, ==_iff (number it) x),
                  (between x was).1,
                  (between x was).2,
                ))
              (omega (arith, l, bounds.0)) in
          rw (h, next_id-number it bounds.2)
            (
              (bounds.0, rest.0),
              λ x.
                  ground
                    (arith, rest.1 x, step.1 x, first, ==_iff (number it) x, ==_iff x (number it)),
            )
    ]

    ready :
        IsReady bm v (iterator bm)
        × ((x : ℕ) → pending bm (iterator bm) x ≡ (contains x bm && leb 0 (x / 64 / 64)))
    unfolding iterator
    ready = advance-lem (length bm.meta) 0 (omega arith)

    in_words : (x : ℕ) → contains x bm ≡ true → x < length bm.words * 64
    unfolding contains
    in_words x h = ground (arith, h)

    pub ids_lem :
        ((x : ℕ) → contains x bm ≡ true → x < word32)
        → Ascending (ids bm) × ((x : ℕ) → any (λ y. x == y) (ids bm) ≡ contains x bm)
    unfolding ids
    ids_lem small =
        let all_of =
          ids_from-lem (length bm.words * 64) (iterator bm) 0 (length bm.words * 64) ready.0
            (λ x e.
              let m : contains x bm ≡ true = ground (arith, e, ready.1 x) in
              (omega arith, in_words x m, small x m))
            (omega arith) in
        (
          UpFrom-Ascending 0 (ids_from bm (length bm.words * 64) (iterator bm)) all_of.0,
          λ x. ground (arith, all_of.1 x, ready.1 x),
        )
