-- ===== src/Bitmap/Iterator.antt =====
-- BitmapIterator: the members of a bitmap in ascending order. The bitmap `bm` of an iterator, which
-- must not change meanwhile, is an argument of its functions. The loops run on fuel for the words of
-- meta that are left, and, in the loop over the members, for the numbers that are left.
use access_management.Prelude.{
  uint32, ℕ, zero, suc, ◌+◌, ◌*◌, Bool, not, List, [], ◌∷◌, ◌==◌, leb, length, if◌then◌else◌,
}
use access_management.Bitmap.Words.{clear_bit, trailing_zeros, word_bits}
use access_management.Bitmap.Cells.{cell}
use access_management.Bitmap.Sets.{Bitmap}

pub record BitmapIterator : Type 0 where
  pub meta_idx : ℕ
  pub meta_w : ℕ
  pub word : ℕ
  pub word_idx : ℕ

-- HasNext
unfoldable pub has_next : BitmapIterator → Bool
has_next it = not (it.word == 0)

module _ (bm : Bitmap) where
  -- The round of nextWord that takes a word of the group.
  unfoldable pub take_word : BitmapIterator → BitmapIterator
  take_word it =
      let j = trailing_zeros word_bits it.meta_w in
      record it {
        meta_w = clear_bit j it.meta_w;
        word_idx = it.meta_idx * 64 + j;
        word = cell bm.words (it.meta_idx * 64 + j);
      }

  abbrev pub next_group : BitmapIterator → BitmapIterator
  next_group it = record it { meta_idx = it.meta_idx + 1; meta_w = cell bm.meta (it.meta_idx + 1) }

  -- nextWord
  unfoldable pub next_word : ℕ → BitmapIterator → BitmapIterator
  unfolding take_word
  next_word zero it = record it { word = 0 }
  next_word (suc f) it =
      let again = next_word f (take_word it) in
      let further = next_word f (next_group it) in
      if not (it.meta_w == 0)
      then if not ((take_word it).word == 0) then take_word it else again
      else if leb (length bm.meta) (it.meta_idx + 1)
      then record it { meta_idx = it.meta_idx + 1; word = 0 }
      else further

  -- advance
  unfoldable pub advance : ℕ → BitmapIterator → BitmapIterator
  advance zero it = record it { word = 0 }
  advance (suc f) it =
      let rest = advance f (record it { meta_idx = it.meta_idx + 1 }) in
      if leb (length bm.meta) it.meta_idx
      then record it { word = 0 }
      else if not (cell bm.meta it.meta_idx == 0)
      then next_word (length bm.meta) (record it { meta_w = cell bm.meta it.meta_idx })
      else rest

  -- Iterator
  unfoldable pub iterator : BitmapIterator
  iterator = advance (length bm.meta) (record { meta_idx = 0; meta_w = 0; word = 0; word_idx = 0 })

  -- Next: the number, converted to uint32, and the iterator after it.
  unfoldable pub next_id : BitmapIterator → ℕ
  next_id it = uint32 (it.word_idx * 64 + trailing_zeros word_bits it.word)

  unfoldable pub after_next : BitmapIterator → BitmapIterator
  after_next it =
      let it' = record it { word = clear_bit (trailing_zeros word_bits it.word) it.word } in
      if it'.word == 0 then next_word (length bm.meta) it' else it'

  -- `for it.HasNext() { … it.Next() … }`: the numbers in their order.
  unfoldable pub ids_from : ℕ → BitmapIterator → List ℕ
  ids_from zero it = []
  ids_from (suc f) it =
      let rest = ids_from f (after_next it) in if has_next it then next_id it ∷ rest else []

  unfoldable pub ids : List ℕ
  ids = ids_from (length bm.words * 64) iterator
