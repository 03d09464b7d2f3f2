-- ===== src/Bitmap/Members.antt =====
-- What Add, Remove and IsEmpty do to the members of a bitmap, and that they keep its invariant.
use access_management.Prelude.{
  ℕ, zero, suc, ◌+◌, ◌*◌, ◌/◌, ◌%◌, ◌<◌, ◌≡◌, ◌↔◌, refl, true, false, ◌&&◌, ◌||◌, not, List, [],
  ◌∷◌, ◌==◌, ==_iff, ltb, length, all, if◌then◌else◌, arith, Bool-cases, inl, inr,
}
use access_management.Bitmap.Words.{
  bit, set_bit, clear_bit, word_bits, trailing_zeros, Fits, bit-zero, bit-set_bit, bit-clear_bit,
  Fits-set_bit, Fits-clear_bit, bit-lt, bit-trailing_zeros, nonzero_of_bit, clear_bit-zero,
}
use access_management.Bitmap.Cells.{cell, cell-modify, length-modify, cell_beyond}
use access_management.Bitmap.Sets.{Bitmap, ensure, add, remove, contains, is_empty}
use access_management.Bitmap.Consistency.{
  IsBitmap, contains-cell, cell-ensure, length-ensure, ensure-IsBitmap, cell-mark, mark-IsBitmap,
}

module _ (id : ℕ) (b : Bitmap) (v : IsBitmap b) where
  added-nonzero : (w : ℕ) → (set_bit (id % 64) w == 0) ≡ false
  added-nonzero w =
      nonzero_of_bit (id % 64) (set_bit (id % 64) w)
        (ground (arith, bit-set_bit (id % 64) (id % 64) w))

  added-Fits : Fits word_bits (set_bit (id % 64) (cell (ensure (id / 64 + 1) b).words (id / 64)))
  unfolding word_bits
  added-Fits = rw (cell-ensure (id / 64 + 1) b (id / 64)) (
      Fits-set_bit word_bits (id % 64) (cell b.words (id / 64)) (omega arith)
        (v.words_fit (id / 64)))

  added-inside : id / 64 < length (ensure (id / 64 + 1) b).words
  added-inside = omega (arith, length-ensure (id / 64 + 1) b)

  -- Add keeps the invariant.
  pub add-IsBitmap : IsBitmap (add id b)
  unfolding add
  add-IsBitmap =
      mark-IsBitmap (id / 64) (set_bit (id % 64)) (ensure (id / 64 + 1) b)
        (ensure-IsBitmap (id / 64 + 1) b v) added-inside
        (added-nonzero (cell (ensure (id / 64 + 1) b).words (id / 64))) added-Fits

  -- After Add, the members are the one added and those before.
  pub contains-add : (x : ℕ) → contains x (add id b) ≡ ((id == x) || contains x b)
  unfolding add
  contains-add x =
      let c =
        cell-mark (id / 64) (set_bit (id % 64)) (ensure (id / 64 + 1) b)
          (ensure-IsBitmap (id / 64 + 1) b v) added-inside
          (added-nonzero (cell (ensure (id / 64 + 1) b).words (id / 64))) added-Fits (x / 64) in
      ground (
        arith,
        contains-cell x b,
        contains-cell x (add id b),
        c,
        cell-ensure (id / 64 + 1) b (x / 64),
        bit-set_bit (id % 64) (x % 64) (cell b.words (x / 64)),
        ==_iff id x,
        ==_iff (id / 64) (x / 64),
        ==_iff (id % 64) (x % 64),
      )

  pub cell-remove :
      (k : ℕ)
      → cell (remove id b).words k
        ≡ (if id / 64 == k then clear_bit (id % 64) (cell b.words k) else cell b.words k)
  unfolding remove
  cell-remove k = ground (
    arith,
    cell-modify (id / 64) (clear_bit (id % 64)) b.words k,
    cell_beyond b.words k,
    clear_bit-zero (id % 64),
    ==_iff (id / 64) k,
  )

  meta-remove :
      (k : ℕ)
      → cell (remove id b).meta k ≡ (
          if id / 64 / 64 == k
            && (ltb (id / 64) (length b.words)
                && (clear_bit (id % 64) (cell b.words (id / 64)) == 0))
          then clear_bit (id / 64 % 64) (cell b.meta k)
          else cell b.meta k)
  unfolding remove
  meta-remove k = ground (
    arith,
    cell-modify (id / 64) (clear_bit (id % 64)) b.words (id / 64),
    v.meta_length,
    cell-modify (id / 64 / 64) (clear_bit (id / 64 % 64)) b.meta k,
  )

  remove-marks :
      (k : ℕ)
      → bit (k % 64) (cell (remove id b).meta (k / 64)) ≡ not (cell (remove id b).words k == 0)
  remove-marks k = ground (
    arith,
    cell-remove k,
    meta-remove (k / 64),
    v.marks k,
    cell_beyond b.words k,
    bit-clear_bit (id / 64 % 64) (k % 64) (cell b.meta (k / 64)),
    ==_iff (id / 64) k,
    clear_bit-zero (id % 64),
  )

  remove-words_fit : (k : ℕ) → Fits word_bits (cell (remove id b).words k)
  remove-words_fit k = elim (Bool-cases (id / 64 == k)) [
    | inl e ↦
        rw (cell-remove k, e) (Fits-clear_bit word_bits (id % 64) (cell b.words k) (v.words_fit k))
    | inr e ↦ rw (cell-remove k, e) (v.words_fit k)
  ]

  remove-metas_fit : (k : ℕ) → Fits word_bits (cell (remove id b).meta k)
  remove-metas_fit k =
      elim (Bool-cases (
        id / 64 / 64 == k
        && (ltb (id / 64) (length b.words)
            && (clear_bit (id % 64) (cell b.words (id / 64)) == 0)))) [
              | inl e ↦
                  rw (meta-remove k, e)
                    (Fits-clear_bit word_bits (id / 64 % 64) (cell b.meta k) (v.metas_fit k))
              | inr e ↦ rw (meta-remove k, e) (v.metas_fit k)
            ]

  remove-meta_length : length (remove id b).meta ≡ (length (remove id b).words + 63) / 64
  unfolding remove
  remove-meta_length = ground (
    arith,
    v.meta_length,
    length-modify (id / 64) (clear_bit (id % 64)) b.words,
    length-modify (id / 64 / 64) (clear_bit (id / 64 % 64)) b.meta,
  )

  -- Remove keeps the invariant.
  pub remove-IsBitmap : IsBitmap (remove id b)
  remove-IsBitmap = record {
    meta_length = remove-meta_length;
    marks = remove-marks;
    words_fit = remove-words_fit;
    metas_fit = remove-metas_fit;
  }

  -- After Remove, the members are those before without the one removed.
  pub contains-remove : (x : ℕ) → contains x (remove id b) ≡ (not (id == x) && contains x b)
  contains-remove x = ground (
    arith,
    contains-cell x b,
    contains-cell x (remove id b),
    cell-remove (x / 64),
    bit-clear_bit (id % 64) (x % 64) (cell b.words (x / 64)),
    ==_iff id x,
    ==_iff (id / 64) (x / 64),
    ==_iff (id % 64) (x % 64),
  )

cell-all_zero : (ms : List ℕ) (k : ℕ) → all (λ m. m == 0) ms ≡ true → cell ms k ≡ 0
unfolding cell
cell-all_zero [] k h = refl
cell-all_zero (m ∷ ms) zero h = ground arith
cell-all_zero (m ∷ ms) (suc k) h = cell-all_zero ms k (ground arith)

nonzero_cell : (ms : List ℕ) → all (λ m. m == 0) ms ≡ false → (k : ℕ) × ((cell ms k == 0) ≡ false)
unfolding cell
nonzero_cell [] h = absurd (ground arith)
nonzero_cell (m ∷ ms) h = elim (Bool-cases (m == 0)) [
  | inl e ↦ let found = nonzero_cell ms (ground arith) in (suc found.0, found.1)
  | inr e ↦ (zero, e)
]

-- A word that is not zero holds a member.
pub member_of_word :
    (b : Bitmap)
    → IsBitmap b
    → (k : ℕ) → (cell b.words k == 0) ≡ false
    → (x : ℕ) × (contains x b ≡ true)
unfolding word_bits
member_of_word b v k h =
    let t = trailing_zeros word_bits (cell b.words k) in
    let has = bit-trailing_zeros word_bits (cell b.words k) (v.words_fit k) h in
    let lt : t < 64 = bit-lt word_bits t (cell b.words k) (v.words_fit k) has in
    let q : (k * 64 + t) / 64 ≡ k = omega arith in
    let r : (k * 64 + t) % 64 ≡ t = omega arith in
    (k * 64 + t, rw (contains-cell (k * 64 + t) b, q, r) has)

-- A bitmap that is not empty has a member.
pub member_of_nonempty :
    (b : Bitmap) → IsBitmap b → is_empty b ≡ false → (x : ℕ) × (contains x b ≡ true)
unfolding is_empty word_bits
member_of_nonempty b v h =
    let found = nonzero_cell b.meta h in
    let k = found.0 in
    let t = trailing_zeros word_bits (cell b.meta k) in
    let has = bit-trailing_zeros word_bits (cell b.meta k) (v.metas_fit k) found.1 in
    let lt : t < 64 = bit-lt word_bits t (cell b.meta k) (v.metas_fit k) has in
    let q : (k * 64 + t) / 64 ≡ k = omega arith in
    let r : (k * 64 + t) % 64 ≡ t = omega arith in
    let m : bit t (cell b.meta k) ≡ not (cell b.words (k * 64 + t) == 0) =
      rw (q, r) at (v.marks (k * 64 + t)) in
    member_of_word b v (k * 64 + t) (ground (arith, m, has))

pub contains-is_empty :
    (b : Bitmap) → IsBitmap b → is_empty b ≡ true → (x : ℕ) → contains x b ≡ false
unfolding is_empty
contains-is_empty b v h x = ground (
  arith,
  contains-cell x b,
  v.marks (x / 64),
  cell-all_zero b.meta (x / 64 / 64) h,
  bit-zero (x / 64 % 64),
  bit-zero (x % 64),
)

-- IsEmpty says whether there is no member.
pub is_empty_iff :
    (b : Bitmap) → IsBitmap b → (is_empty b ≡ true) ↔ ((x : ℕ) → contains x b ≡ false)
is_empty_iff b v = (
  contains-is_empty b v,
  λ none_in. elim (Bool-cases (is_empty b)) [
    | inl e ↦ e
    | inr e ↦ let found = member_of_nonempty b v e in ground (arith, found.1, none_in found.0)
  ],
)
