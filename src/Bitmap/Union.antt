-- ===== src/Bitmap/Union.antt =====
-- What Or does: the words of both bitmaps joined, its invariant and its members.
use access_management.Prelude.{
  ℕ, suc, ◌+◌, ◌-◌, ◌*◌, ◌/◌, ◌%◌, ◌≡◌, refl, ◌&&◌, ◌||◌, not, List, [], ◌∷◌, ◌==◌, ==_iff, ltb,
  leb, length, if◌then◌else◌, arith, Bool-cases, inl, inr, ◌∙◌,
}
use access_management.Bitmap.Words.{
  bit, or_bits, word_bits, Fits, bit-zero, bit-or_bits, Fits-or_bits,
}
use access_management.Bitmap.Zeros.{or_bits-zero, or_bits-is_zero}
use access_management.Bitmap.Loops.{for_bits, obs-for_bits, obs-for_bits_same}
use access_management.Bitmap.Cells.{cell, cell-modify, length-modify, cell_beyond, cell_of_rest}
use access_management.Bitmap.Sets.{Bitmap, ensure, contains, or, or_from, or_group, or_round}
use access_management.Bitmap.Consistency.{
  IsBitmap, contains-cell, cell-ensure, meta-ensure, length-ensure, ensure-IsBitmap,
}

-- A word and the number of words.
abbrev observed : ℕ → List ℕ → ℕ × ℕ
observed k words = (cell words k, length words)

module _ (other : List ℕ) (k : ℕ) where
  abbrev joined : ℕ × ℕ → ℕ × ℕ
  joined (w, l) = (if ltb k l then or_bits word_bits w (cell other k) else w, l)

  observed-or_round :
      (base j : ℕ) (words : List ℕ)
      → observed k (or_round other base j words)
        ≡ (if base + j == k then joined (observed k words) else observed k words)
  observed-or_round base j words = ground (
    arith,
    length-modify (base + j) (λ w. or_bits word_bits w (cell other (base + j))) words,
    cell-modify (base + j) (λ w. or_bits word_bits w (cell other (base + j))) words k,
  )

  observed-or_rounds :
      (mi m : ℕ) (words : List ℕ)
      → Fits word_bits m
      → observed k (for_bits word_bits (or_round other (mi * 64)) m words)
        ≡ (if mi == k / 64 && bit (k % 64) m then joined (observed k words) else observed k words)
  unfolding word_bits
  observed-or_rounds mi m words f = elim (Bool-cases (mi == k / 64)) [
    | inl e ↦ rw e (
        obs-for_bits word_bits (or_round other (mi * 64)) (observed k) joined (k % 64)
          (λ j s lt. ground (arith, observed-or_round (mi * 64) j s)) m words f)
    | inr e ↦ rw e (
        obs-for_bits_same word_bits (or_round other (mi * 64)) (observed k)
          (λ j s lt. ground (arith, observed-or_round (mi * 64) j s)) m words f)
  ]

  observed-or_group :
      (mi m : ℕ) (b : Bitmap)
      → Fits word_bits m
      → observed k (or_group other mi m b).words ≡ (
          if mi == k / 64 && bit (k % 64) m
          then joined (observed k b.words)
          else observed k b.words)
  unfolding or_group
  observed-or_group mi m b f = elim (Bool-cases (m == 0)) [
    | inl z ↦ rw z (ground (arith, z, bit-zero (k % 64)))
    | inr e ↦ rw e (observed-or_rounds mi m b.words f)
  ]

  -- The words after the loop over meta, from its index mi.
  observed-or_from :
      (ms : List ℕ) (mi : ℕ) (b : Bitmap)
      → ((i : ℕ) → Fits word_bits (cell ms i))
      → observed k (or_from other mi ms b).words ≡ (
          if leb mi (k / 64) && bit (k % 64) (cell ms (k / 64 - mi))
          then joined (observed k b.words)
          else observed k b.words)
  unfolding or_from cell
  observed-or_from [] mi b f = ground (arith, bit-zero (k % 64))
  observed-or_from (m ∷ ms) mi b f =
      let here : mi ≡ k / 64 → cell (m ∷ ms) (k / 64 - mi) ≡ m =
        λ e. let z : k / 64 - mi ≡ 0 = omega arith in rw z refl in
      ground (
        arith,
        observed-or_from ms (suc mi) (or_group other mi m b) (λ i. f (suc i)),
        observed-or_group mi m b (f 0),
        ==_iff mi (k / 64),
        here,
        cell_of_rest m ms mi (k / 64),
      )

-- The words of meta after the loop, from its index mi.
meta-or_group :
    (other : List ℕ) (mi m : ℕ) (b : Bitmap) (k : ℕ)
    → Fits word_bits (cell b.meta k)
    → cell (or_group other mi m b).meta k ≡ (
        if mi == k && ltb mi (length b.meta)
        then or_bits word_bits (cell b.meta k) m
        else cell b.meta k)
unfolding or_group
meta-or_group other mi m b k f = ground (
  arith,
  cell-modify mi (λ w. or_bits word_bits w m) b.meta k,
  or_bits-zero word_bits (cell b.meta k),
)

Fits-or_group :
    (other : List ℕ) (mi m : ℕ) (b : Bitmap) (k : ℕ)
    → Fits word_bits (cell b.meta k)
    → Fits word_bits (cell (or_group other mi m b).meta k)
Fits-or_group other mi m b k f = elim (Bool-cases (mi == k && ltb mi (length b.meta))) [
  | inl e ↦ rw (meta-or_group other mi m b k f, e) (Fits-or_bits word_bits (cell b.meta k) m)
  | inr e ↦ rw (meta-or_group other mi m b k f, e) f
]

length-or_group :
    (other : List ℕ) (mi m : ℕ) (b : Bitmap)
    → Fits word_bits m
    → (length (or_group other mi m b).meta ≡ length b.meta)
      × (length (or_group other mi m b).words ≡ length b.words)
unfolding or_group
length-or_group other mi m b f =
    let w =
      obs-for_bits_same word_bits (or_round other (mi * 64)) length
        (λ j s lt.
          length-modify (mi * 64 + j) (λ w. or_bits word_bits w (cell other (mi * 64 + j))) s)
        m b.words f in
    ground (arith, w, length-modify mi (λ w. or_bits word_bits w m) b.meta)

length-or_from :
    (other ms : List ℕ) (mi : ℕ) (b : Bitmap)
    → ((i : ℕ) → Fits word_bits (cell ms i))
    → (length (or_from other mi ms b).meta ≡ length b.meta)
      × (length (or_from other mi ms b).words ≡ length b.words)
unfolding or_from cell
length-or_from other [] mi b f = (refl, refl)
length-or_from other (m ∷ ms) mi b f =
    let one = length-or_group other mi m b (f 0) in
    let rest = length-or_from other ms (suc mi) (or_group other mi m b) (λ i. f (suc i)) in
    (rest.0 ∙ one.0, rest.1 ∙ one.1)

meta-or_from :
    (other ms : List ℕ) (mi : ℕ) (b : Bitmap) (k : ℕ)
    → ((i : ℕ) → Fits word_bits (cell ms i))
    → Fits word_bits (cell b.meta k)
    → cell (or_from other mi ms b).meta k ≡ (
        if leb mi k && ltb k (length b.meta)
        then or_bits word_bits (cell b.meta k) (cell ms (k - mi))
        else cell b.meta k)
unfolding or_from cell
meta-or_from other [] mi b k f g = ground (arith, or_bits-zero word_bits (cell b.meta k) g)
meta-or_from other (m ∷ ms) mi b k f g =
    let here : mi ≡ k → cell (m ∷ ms) (k - mi) ≡ m =
      λ e. let z : k - mi ≡ 0 = omega arith in rw z refl in
    ground (
      arith,
      meta-or_from other ms (suc mi) (or_group other mi m b) k (λ i. f (suc i))
          (Fits-or_group other mi m b k g),
      meta-or_group other mi m b k g,
      ==_iff mi k,
      here,
      cell_of_rest m ms mi k,
      (length-or_group other mi m b (f 0)).0,
    )

module _ (b other : Bitmap) (v : IsBitmap b) (u : IsBitmap other) where
  -- The words of a union are the unions of the words, and those of meta too.
  pub cell-or :
      (k : ℕ) → cell (or b other).words k ≡ or_bits word_bits (cell b.words k) (cell other.words k)
  unfolding or
  cell-or k = ground (
    arith,
    observed-or_from other.words k other.meta 0 (ensure (length other.words) b) u.metas_fit,
    u.marks k,
    cell-ensure (length other.words) b k,
    length-ensure (length other.words) b,
    or_bits-zero word_bits (cell b.words k) (v.words_fit k),
    cell_beyond other.words k,
  )

  meta-or :
      (k : ℕ) → cell (or b other).meta k ≡ or_bits word_bits (cell b.meta k) (cell other.meta k)
  unfolding or
  meta-or k =
      let c = ensure-IsBitmap (length other.words) b v in
      ground (
        arith,
        meta-or_from other.words other.meta 0 (ensure (length other.words) b) k u.metas_fit
            (c.metas_fit k),
        meta-ensure (length other.words) b k,
        length-ensure (length other.words) b,
        c.meta_length,
        u.meta_length,
        or_bits-zero word_bits (cell b.meta k) (v.metas_fit k),
        cell_beyond other.meta k,
      )

  or-marks :
      (k : ℕ)
      → bit (k % 64) (cell (or b other).meta (k / 64)) ≡ not (cell (or b other).words k == 0)
  unfolding word_bits
  or-marks k = ground (
    arith,
    cell-or k,
    meta-or (k / 64),
    v.marks k,
    u.marks k,
    bit-or_bits word_bits (k % 64) (cell b.meta (k / 64)) (cell other.meta (k / 64)),
    or_bits-is_zero word_bits (cell b.words k) (cell other.words k) (v.words_fit k) (u.words_fit k),
  )

  or-meta_length : length (or b other).meta ≡ (length (or b other).words + 63) / 64
  unfolding or
  or-meta_length =
      let c = ensure-IsBitmap (length other.words) b v in
      let l = length-or_from other.words other.meta 0 (ensure (length other.words) b) u.metas_fit in
      omega (arith, l.0, l.1, c.meta_length)

  -- Or keeps the invariant.
  pub or-IsBitmap : IsBitmap (or b other)
  or-IsBitmap = record {
    meta_length = or-meta_length;
    marks = or-marks;
    words_fit = λ k. rw (cell-or k) (Fits-or_bits word_bits (cell b.words k) (cell other.words k));
    metas_fit = λ k. rw (meta-or k) (Fits-or_bits word_bits (cell b.meta k) (cell other.meta k));
  }

  -- The members after Or, of well-formed bitmaps, are those of either.
  pub contains-or : (x : ℕ) → contains x (or b other) ≡ (contains x b || contains x other)
  unfolding word_bits
  contains-or x = ground (
    arith,
    contains-cell x b,
    contains-cell x other,
    contains-cell x (or b other),
    cell-or (x / 64),
    bit-or_bits word_bits (x % 64) (cell b.words (x / 64)) (cell other.words (x / 64)),
  )
