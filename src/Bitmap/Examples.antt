-- ===== src/Bitmap/Examples.antt =====
-- The theorems on bitmaps at two small bitmaps.
use access_management.Prelude.{
  ℕ, ◌<◌, ◌^◌, ◌≡◌, ◌↔◌, ◌&&◌, ◌||◌, true, [], ◌∷◌, ◌++◌, all, length, arith,
}
use access_management.Bitmap.Words.{set_bit}
use access_management.Bitmap.Cells.{modify, zeros}
use access_management.Bitmap.Sets.{
  Bitmap, new_bitmap, ensure, mark, add, or, and, contains, intersection_non_empty,
}
use access_management.Bitmap.Consistency.{IsBitmap, new_bitmap-IsBitmap}
use access_management.Bitmap.Members.{add-IsBitmap}
use access_management.Bitmap.Union.{contains-or}
use access_management.Bitmap.Intersection.{contains-and}
use access_management.Bitmap.Overlap.{intersection_non_empty_iff}
use access_management.Bitmap.Binary.{
  marshal_binary, unmarshal_binary, decoded, unmarshal_binary-marshal_binary,
}

abbrev three : Bitmap
three = add 3 new_bitmap

three-IsBitmap : IsBitmap three
three-IsBitmap = add-IsBitmap 3 new_bitmap new_bitmap-IsBitmap

abbrev three_seventy : Bitmap
three_seventy = add 70 three

three_seventy-IsBitmap : IsBitmap three_seventy
three_seventy-IsBitmap = add-IsBitmap 70 three three-IsBitmap

contains-or_example :
    contains 70 (or three three_seventy) ≡ (contains 70 three || contains 70 three_seventy)
contains-or_example = contains-or three three_seventy three-IsBitmap three_seventy-IsBitmap 70

contains-and_example :
    contains 3 (and three three_seventy) ≡ (contains 3 three && contains 3 three_seventy)
contains-and_example = contains-and three three_seventy three-IsBitmap three_seventy-IsBitmap 3

intersection_non_empty_iff_example :
    (intersection_non_empty three (three_seventy ∷ []) ≡ true)
    ↔ ((x : ℕ) × ((contains x three && all (λ b. contains x b) (three_seventy ∷ [])) ≡ true))
intersection_non_empty_iff_example =
    intersection_non_empty_iff three (three_seventy ∷ []) three-IsBitmap
      (three_seventy-IsBitmap, tt)

three-small : length three.words < 2 ^ 32
unfolding add mark ensure new_bitmap modify zeros set_bit
three-small = omega arith

unmarshal_binary-marshal_binary_example :
    unmarshal_binary (marshal_binary three ++ (7 ∷ []))
    ≡ decoded three (length (marshal_binary three))
unmarshal_binary-marshal_binary_example =
    unmarshal_binary-marshal_binary three (7 ∷ []) three-IsBitmap three-small
