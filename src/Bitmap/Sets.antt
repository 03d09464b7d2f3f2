-- ===== src/Bitmap/Sets.antt =====
-- Bitmap and its operations. What `ensure` and `Clear` keep of the capacity of a slice is left out:
-- cells between the length and the capacity are zero, as Clear and make leave them.
use access_management.Prelude.{
  ℕ, zero, suc, not, ltb, ◌+◌, ◌-◌, ◌*◌, ◌/◌, ◌%◌, Bool, false, ◌||◌, List, [], ◌∷◌, ◌++◌, ◌==◌,
  leb, length, all, if◌then◌else◌,
}
use access_management.Bitmap.Words.{
  bit, set_bit, clear_bit, or_bits, and_bits, ones_count, word_bits,
}
use access_management.Bitmap.Loops.{for_bits}
use access_management.Bitmap.Cells.{cell, modify, zeros}

-- words holds the bits, meta marks the words that are not zero.
pub record Bitmap : Type 0 where
  pub words : List ℕ
  pub meta : List ℕ

-- NewBitmap
unfoldable pub new_bitmap : Bitmap
new_bitmap = record { words = []; meta = [] }

-- Clear
unfoldable pub clear : Bitmap → Bitmap
clear b = new_bitmap

-- ensure
unfoldable pub ensure : ℕ → Bitmap → Bitmap
ensure n b = if leb n (length b.words) then b else record {
  words = b.words ++ zeros (n - length b.words);
  meta = b.meta ++ zeros ((n + 63) / 64 - length b.meta);
}

-- b.words[i] |= w and b.meta[i/64] |= 1 << (uint(i) % 64), of Add and AddSortedBatch
unfoldable pub mark : ℕ → (ℕ → ℕ) → Bitmap → Bitmap
mark i f b = record { words = modify i f b.words; meta = modify (i / 64) (set_bit (i % 64)) b.meta }

-- Add
unfoldable pub add : ℕ → Bitmap → Bitmap
add id b = mark (id / 64) (set_bit (id % 64)) (ensure (id / 64 + 1) b)

-- Remove
unfoldable pub remove : ℕ → Bitmap → Bitmap
remove id b =
    let i = id / 64 in
    let words = modify i (clear_bit (id % 64)) b.words in
    if leb (length b.words) i
    then b
    else if cell words i == 0
    then record { words = words; meta = modify (i / 64) (clear_bit (i % 64)) b.meta }
    else record b { words = words }

-- Contains
unfoldable pub contains : ℕ → Bitmap → Bool
contains id b =
    if leb (length b.words) (id / 64) then false else bit (id % 64) (cell b.words (id / 64))

-- IsEmpty
unfoldable pub is_empty : Bitmap → Bool
is_empty b = all (λ m. m == 0) b.meta

-- WordsLen
abbrev pub words_len : Bitmap → ℕ
words_len b = length b.words

-- The loop of GetCardinality over meta, from its index mi.
unfoldable pub cardinality_from : ℕ → List ℕ → List ℕ → ℕ → ℕ
cardinality_from mi [] words n = n
cardinality_from mi (m ∷ ms) words n =
    cardinality_from (suc mi) ms words
      (for_bits word_bits (λ j n'. n' + ones_count word_bits (cell words (mi * 64 + j))) m n)

-- GetCardinality
unfoldable pub get_cardinality : Bitmap → ℕ
get_cardinality b = cardinality_from 0 b.meta b.words 0

-- b.words[base+j] |= other.words[base+j]
abbrev pub or_round : List ℕ → ℕ → ℕ → List ℕ → List ℕ
or_round other base j words =
    modify (base + j) (λ w. or_bits word_bits w (cell other (base + j))) words

-- One round of Or over other.meta: the group of words that its word mi marks.
unfoldable pub or_group : List ℕ → ℕ → ℕ → Bitmap → Bitmap
or_group other mi m b = if m == 0 then b else record {
  words = for_bits word_bits (or_round other (mi * 64)) m b.words;
  meta = modify mi (λ w. or_bits word_bits w m) b.meta;
}

-- The loop of Or over other.meta, from its index mi.
unfoldable pub or_from : List ℕ → ℕ → List ℕ → Bitmap → Bitmap
or_from other mi [] b = b
or_from other mi (m ∷ ms) b = or_from other (suc mi) ms (or_group other mi m b)

-- Or
unfoldable pub or : Bitmap → Bitmap → Bitmap
or b other = or_from other.words 0 other.meta (ensure (length other.words) b)

-- b.words[base+j] = 0
abbrev pub zero_round : ℕ → ℕ → List ℕ → List ℕ
zero_round base j words = modify (base + j) (λ w. 0) words

-- A word of And with the new word of meta.
abbrev pub and_round : List ℕ → ℕ → ℕ → List ℕ × ℕ → List ℕ × ℕ
and_round other base j (words, new_meta) =
    let anded = modify (base + j) (λ w. and_bits word_bits w (cell other (base + j))) words in
    if leb (length other) (base + j)
    then (modify (base + j) (λ w. 0) words, new_meta)
    else if cell anded (base + j) == 0
    then (anded, new_meta)
    else (anded, set_bit j new_meta)

-- One round of And over b.meta: the words and the new word of meta.
unfoldable pub and_group : Bitmap → ℕ → ℕ → List ℕ → List ℕ × ℕ
and_group other mi m words =
    if m == 0
    then (words, m)
    else if leb (length other.meta) mi || and_bits word_bits m (cell other.meta mi) == 0
    then (for_bits word_bits (zero_round (mi * 64)) m words, 0)
    else for_bits word_bits (and_round other.words (mi * 64)) m (words, 0)

-- The loop of And over b.meta, from its index mi.
unfoldable pub and_from : Bitmap → ℕ → List ℕ → List ℕ → List ℕ × List ℕ
and_from other mi [] words = (words, [])
and_from other mi (m ∷ ms) words =
    let group = and_group other mi m words in
    let rest = and_from other (suc mi) ms group.0 in (rest.0, group.1 ∷ rest.1)

-- And
unfoldable pub and : Bitmap → Bitmap → Bitmap
and b other =
    let result = and_from other 0 b.meta b.words in record { words = result.0; meta = result.1 }

-- ids[len(ids)-1], of a slice that starts with x
unfoldable pub last_of : ℕ → List ℕ → ℕ
last_of x [] = x
last_of x (y ∷ ys) = last_of y ys

-- The loop of AddSortedBatch: the word being accumulated is words[wi], its bits are w.
unfoldable pub batch_from : List ℕ → ℕ → ℕ → Bitmap → Bitmap
batch_from [] wi w b = mark wi (λ v. or_bits word_bits v w) b
batch_from (id ∷ ids) wi w b =
    let i = id / 64 in
    let flush = batch_from ids i (set_bit (id % 64) 0) (mark wi (λ v. or_bits word_bits v w) b) in
    let same = batch_from ids wi (set_bit (id % 64) w) b in if i == wi then same else flush

-- AddSortedBatch
unfoldable pub add_sorted_batch : List ℕ → Bitmap → Bitmap
add_sorted_batch [] b = b
add_sorted_batch (id ∷ ids) b =
    batch_from (id ∷ ids) (id / 64) 0 (ensure (last_of id ids / 64 + 1) b)

-- newBitmapFromIDs
unfoldable pub new_bitmap_from_ids : List ℕ → Bitmap
new_bitmap_from_ids ids = add_sorted_batch ids new_bitmap

-- minMeta and minWords
unfoldable pub min_length : (Bitmap → List ℕ) → ℕ → List Bitmap → ℕ
min_length part n [] = n
min_length part n (b ∷ bitmaps) =
    min_length part (if ltb (length (part b)) n then length (part b) else n) bitmaps

-- `for i := range n { if test(i) { return true } }`, from i
unfoldable pub some_from : (ℕ → Bool) → ℕ → ℕ → Bool
some_from test i zero = false
some_from test i (suc n) = test i || some_from test (suc i) n

-- The word i of meta combined, over `bitmaps[1:]`
unfoldable pub combine : ℕ → ℕ → List Bitmap → ℕ
combine i w [] = w
combine i w (b ∷ bitmaps) = combine i (and_bits word_bits w (cell b.meta i)) bitmaps

-- The word i combined, until it is zero
unfoldable pub combine_until_zero : ℕ → ℕ → List Bitmap → ℕ
combine_until_zero i w [] = w
combine_until_zero i w (b ∷ bitmaps) =
    let anded = and_bits word_bits w (cell b.words i) in
    let rest = combine_until_zero i anded bitmaps in if anded == 0 then anded else rest

-- MetaIntersects
unfoldable pub meta_intersects : Bitmap → List Bitmap → Bool
meta_intersects first rest =
    some_from (λ i. not (combine i (cell first.meta i) rest == 0)) 0
      (min_length (λ b. b.meta) (length first.meta) rest)

-- intersectionNonEmpty
unfoldable pub intersection_non_empty : Bitmap → List Bitmap → Bool
intersection_non_empty first rest =
    if not (meta_intersects first rest)
    then false
    else some_from (λ i. not (combine_until_zero i (cell first.words i) rest == 0)) 0
        (min_length (λ b. b.words) (words_len first) rest)
