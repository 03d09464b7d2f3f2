-- ===== src/Bitmap/Groups.antt =====
-- And on one group of 64 words: the words it leaves and the marks that meta gets for them.
use access_management.Prelude.{
  ℕ, ◌+◌, ◌*◌, ◌/◌, ◌%◌, ◌<◌, ◌≡◌, Bool, true, false, ◌&&◌, ◌||◌, not, List, ◌==◌, ==_iff, ltb, leb,
  length, if◌then◌else◌, arith, ap,
}
use access_management.Bitmap.Words.{
  bit, and_bits, word_bits, Fits, bit-zero, bit-set_bit, bit-and_bits, Fits-zero, Fits-set_bit,
}
use access_management.Bitmap.Zeros.{and_bits-zero, and_bits-zero_left}
use access_management.Bitmap.Loops.{for_bits, obs-for_bits, obs-for_bits_same, for_bits_keep}
use access_management.Bitmap.Cells.{cell, cell-modify, length-modify, cell_beyond}
use access_management.Bitmap.Sets.{Bitmap, and_group, and_round, zero_round}
use access_management.Bitmap.Consistency.{IsBitmap}

-- A word, the number of words, and a bit of the new word of meta.
abbrev observed : ℕ → List ℕ × ℕ → ℕ × ℕ × Bool
observed k (words, new_meta) = (cell words k, length words, bit (k % 64) new_meta)

module _ (other : List ℕ) (k : ℕ) where
  -- What the round of bit k does.
  abbrev met : ℕ × ℕ × Bool → ℕ × ℕ × Bool
  met (w, l, marked) =
      if ltb k l
      then (
        and_bits word_bits w (cell other k),
        l,
        not (and_bits word_bits w (cell other k) == 0) || marked,
      )
      else (w, l, marked)

  observed-and_round :
      (j : ℕ) (s : List ℕ × ℕ)
      → j < 64
      → observed k (and_round other (k / 64 * 64) j s)
        ≡ (if j == k % 64 then met (observed k s) else observed k s)
  observed-and_round j (words, new_meta) lt =
      let i = k / 64 * 64 + j in
      let anded = λ (w : ℕ). and_bits word_bits w (cell other i) in
      ground (
        arith,
        cell-modify i anded words k,
        cell-modify i anded words i,
        cell-modify i (λ w. 0) words k,
        length-modify i anded words,
        length-modify i (λ w. 0) words,
        bit-set_bit j (k % 64) new_meta,
        ==_iff j (k % 64),
        cell_beyond other k,
        and_bits-zero word_bits (cell words k),
        cell_beyond words k,
      )

  -- A round of another group changes no word of this one.
  cell-and_round :
      (base j : ℕ) (s : List ℕ × ℕ)
      → (base + j == k) ≡ false
      → cell (and_round other base j s).0 k ≡ cell s.0 k
  cell-and_round base j (words, new_meta) h = ground (
    arith,
    cell-modify (base + j) (λ w. and_bits word_bits w (cell other (base + j))) words k,
    cell-modify (base + j) (λ w. 0) words k,
  )

length-and_round :
    (other : List ℕ) (base j : ℕ) (s : List ℕ × ℕ)
    → length (and_round other base j s).0 ≡ length s.0
length-and_round other base j (words, new_meta) = ground (
  arith,
  length-modify (base + j) (λ w. and_bits word_bits w (cell other (base + j))) words,
  length-modify (base + j) (λ w. 0) words,
)

Fits-and_round :
    (other : List ℕ) (base j : ℕ) (s : List ℕ × ℕ)
    → j < word_bits
    → Fits word_bits s.1
    → Fits word_bits (and_round other base j s).1
Fits-and_round other base j (words, new_meta) lt f =
    ground (arith, Fits-set_bit word_bits j new_meta lt f, f)

-- One round over meta, of a group of words.
module _ (other : Bitmap) (u : IsBitmap other) (mi m : ℕ) (words : List ℕ)
    (f : Fits word_bits m) where
  abbrev pub group : List ℕ × ℕ
  group = and_group other mi m words

  pub length-and_group : length group.0 ≡ length words
  unfolding and_group
  length-and_group = ground (
    arith,
    obs-for_bits_same word_bits (zero_round (mi * 64)) length
        (λ j s lt. length-modify (mi * 64 + j) (λ w. 0) s) m words f,
    obs-for_bits_same word_bits (and_round other.words (mi * 64)) (λ (s : List ℕ × ℕ). length s.0)
        (λ j s lt. length-and_round other.words (mi * 64) j s) m (words, 0) f,
  )

  pub Fits-and_group : Fits word_bits group.1
  unfolding and_group
  Fits-and_group =
      let kept =
        for_bits_keep word_bits (and_round other.words (mi * 64)) (λ s. Fits word_bits s.1)
          (Fits-and_round other.words (mi * 64)) m (words, 0) f (Fits-zero word_bits) in
      ground (arith, kept, Fits-zero word_bits, f)

  module _ (k : ℕ) (here : mi ≡ k / 64) where
    -- Where the words of meta share no bit, the other bitmap has no word at all.
    no_word :
        leb (length other.meta) mi || and_bits word_bits m (cell other.meta mi) == 0 ≡ true
        → bit (k % 64) m ≡ true
        → cell other.words k ≡ 0
    unfolding word_bits
    no_word none_in has = ground (
      arith,
      u.marks k,
      cell_beyond other.meta mi,
      bit-zero (k % 64),
      bit-and_bits word_bits (k % 64) m (cell other.meta mi),
      here,
    )

    cell-zero_rounds :
        cell (for_bits word_bits (zero_round (mi * 64)) m words) k
        ≡ (if bit (k % 64) m then 0 else cell words k)
    unfolding word_bits
    cell-zero_rounds =
        obs-for_bits word_bits (zero_round (mi * 64)) (λ ws. cell ws k) (λ w. 0) (k % 64)
          (λ j s lt. ground (arith, cell-modify (mi * 64 + j) (λ w. 0) s k, cell_beyond s k)) m
          words f

    observed-and_rounds :
        observed k (for_bits word_bits (and_round other.words (mi * 64)) m (words, 0)) ≡ (
          if bit (k % 64) m
          then met other.words k (observed k (words, 0))
          else observed k (words, 0))
    unfolding word_bits
    observed-and_rounds = rw here (
        obs-for_bits word_bits (and_round other.words (k / 64 * 64)) (observed k)
          (met other.words k) (k % 64) (observed-and_round other.words k) m (words, 0) f)

    -- The words that the round leaves, and the marks that it gives them.
    pub observed-and_group :
        (cell group.0 k ≡ (
          if bit (k % 64) m
          then and_bits word_bits (cell words k) (cell other.words k)
          else cell words k))
        × (bit (k % 64) group.1
            ≡ (bit (k % 64) m && not (and_bits word_bits (cell words k) (cell other.words k) == 0)))
    unfolding and_group
    observed-and_group = (
      ground (
        arith,
        no_word,
        cell-zero_rounds,
        ap (λ (o : ℕ × ℕ × Bool). o.0) observed-and_rounds,
        bit-zero (k % 64),
        and_bits-zero word_bits (cell words k),
        and_bits-zero_left word_bits (cell other.words k),
        cell_beyond words k,
      ),
      ground (
        arith,
        no_word,
        ap (λ (o : ℕ × ℕ × Bool). o.2) observed-and_rounds,
        bit-zero (k % 64),
        and_bits-zero word_bits (cell words k),
        and_bits-zero_left word_bits (cell other.words k),
        cell_beyond words k,
      ),
    )

  pub cell-other_group : (k : ℕ) → (mi == k / 64) ≡ false → cell group.0 k ≡ cell words k
  unfolding and_group word_bits
  cell-other_group k h = ground (
    arith,
    obs-for_bits_same word_bits (zero_round (mi * 64)) (λ ws. cell ws k)
        (λ j s lt. ground (arith, cell-modify (mi * 64 + j) (λ w. 0) s k)) m words f,
    obs-for_bits_same word_bits (and_round other.words (mi * 64)) (λ (s : List ℕ × ℕ). cell s.0 k)
        (λ j s lt. cell-and_round other.words k (mi * 64) j s (ground arith)) m (words, 0) f,
  )
