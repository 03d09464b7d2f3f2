-- ===== src/RuleIndex/BitmapSets.antt =====
-- The index's sets of row numbers are the bitmaps of internal/ruletable/index/bitmap.go that are well
-- formed.
use access_management.Prelude.{
  ℕ, ◌≡◌, refl, Bool, true, false, ◌&&◌, ◌==◌, ltb, arith, List, [], ◌∷◌, any, all, All, ap, ◌↔◌,
  all, All, ap, ◌↔◌,
}
use access_management.Bitmap.Sets.{
  Bitmap, new_bitmap, contains, add, remove, or, and, is_empty, words_len, new_bitmap_from_ids,
  intersection_non_empty,
}
use access_management.Bitmap.Consistency.{IsBitmap, new_bitmap-IsBitmap, contains-new_bitmap}
use access_management.Bitmap.Members.{
  add-IsBitmap, contains-add, remove-IsBitmap, contains-remove, contains-is_empty,
  member_of_nonempty,
}
use access_management.Bitmap.Union.{or-IsBitmap, contains-or}
use access_management.Bitmap.Iterator.{ids as iterated}
use access_management.Bitmap.Iteration.{ids_lem}
use access_management.Bitmap.Overlap.{intersection_non_empty_iff}
use access_management.Bitmap.Intersection.{and-IsBitmap, contains-and}
use access_management.Bitmap.Batch.{Above, Ascending, new_bitmap_from_ids-lem}
use access_management.RuleIndex.SetOps.{SetOps}

abbrev Valid : Type 0
Valid = (b : Bitmap) × IsBitmap b

-- newBitmapFromIDs is given ascending numbers; the model wants a bitmap for any list, and takes the
-- empty one for a list that is not ascending.
abbrev above : ℕ → List ℕ → Bool
above x [] = true
above x (y ∷ ys) = ltb x y && above y ys

abbrev ascending : List ℕ → Bool
ascending [] = true
ascending (x ∷ xs) = above x xs

above-Above : (x : ℕ) (xs : List ℕ) → above x xs ≡ true → Above x xs
unfolding Above
above-Above x [] h = tt
above-Above x (y ∷ ys) h = (ground (arith, h), above-Above y ys (ground (arith, h)))

Above-above : (x : ℕ) (xs : List ℕ) → Above x xs → above x xs ≡ true
unfolding Above
Above-above x [] h = refl
Above-above x (y ∷ ys) h = ground (arith, h.0, Above-above y ys h.1)

ascending-Ascending : (xs : List ℕ) → ascending xs ≡ true → Ascending xs
unfolding Ascending
ascending-Ascending [] h = tt
ascending-Ascending (x ∷ xs) h = above-Above x xs h

Ascending-ascending : (xs : List ℕ) → Ascending xs → ascending xs ≡ true
unfolding Ascending
Ascending-ascending [] h = refl
Ascending-ascending (x ∷ xs) h = Above-above x xs h

of_ascending : (ids : List ℕ) (b : Bool) → ascending ids ≡ b → Valid
of_ascending ids true h =
    (new_bitmap_from_ids ids, (new_bitmap_from_ids-lem ids (ascending-Ascending ids h)).0)
of_ascending ids false h = (new_bitmap, new_bitmap-IsBitmap)

pub of_ids : List ℕ → Valid
of_ids ids = of_ascending ids (ascending ids) refl

contains-of_ascending :
    (ids : List ℕ) (b : Bool) (h : ascending ids ≡ b) (x : ℕ)
    → Ascending ids
    → contains x (of_ascending ids b h).0 ≡ any (λ y. x == y) ids
unfolding of_ascending
contains-of_ascending ids true h x a = (new_bitmap_from_ids-lem ids (ascending-Ascending ids h)).1 x
contains-of_ascending ids false h x a = absurd (ground (arith, h, Ascending-ascending ids a))

pub contains-of_ids :
    (ids : List ℕ) (x : ℕ) → Ascending ids → contains x (of_ids ids).0 ≡ any (λ y. x == y) ids
unfolding of_ids
contains-of_ids ids x a = contains-of_ascending ids (ascending ids) refl x a

abbrev bitmaps_of : List Valid → List Bitmap
bitmaps_of [] = []
bitmaps_of (s ∷ sets) = s.0 ∷ bitmaps_of sets

bitmaps_of-All : (sets : List Valid) → All IsBitmap (bitmaps_of sets)
bitmaps_of-All [] = tt
bitmaps_of-All (s ∷ sets) = (s.1, bitmaps_of-All sets)

all-bitmaps_of :
    (x : ℕ) (sets : List Valid)
    → all (λ b. contains x b) (bitmaps_of sets) ≡ all (λ (t : Valid). contains x t.0) sets
all-bitmaps_of x [] = refl
all-bitmaps_of x (s ∷ sets) = ap (λ r. contains x s.0 && r) (all-bitmaps_of x sets)

abbrev pub meet : Valid → List Valid → Bool
meet s sets = intersection_non_empty s.0 (bitmaps_of sets)

pub meet_iff :
    (s : Valid) (sets : List Valid)
    → (meet s sets ≡ true)
      ↔ ((x : ℕ) × ((contains x s.0 && all (λ (t : Valid). contains x t.0) sets) ≡ true))
meet_iff s sets =
    let both = intersection_non_empty_iff s.0 (bitmaps_of sets) s.1 (bitmaps_of-All sets) in
    (
      λ h. let found = both.0 h in (found.0, rw (← all-bitmaps_of found.0 sets) found.1),
      λ found. both.1 (found.0, rw (all-bitmaps_of found.0 sets) found.1),
    )

-- The well-formed bitmaps implement the sets of the index.
unfoldable pub bitmap_sets : SetOps
bitmap_sets = record {
  Set = Valid;
  contains = λ x s. contains x s.0;
  empty = (new_bitmap, new_bitmap-IsBitmap);
  add = λ id s. (add id s.0, add-IsBitmap id s.0 s.1);
  remove = λ id s. (remove id s.0, remove-IsBitmap id s.0 s.1);
  or = λ s t. (or s.0 t.0, or-IsBitmap s.0 t.0 s.1 t.1);
  and = λ s t. (and s.0 t.0, and-IsBitmap s.0 t.0 s.1 t.1);
  is_empty = λ s. is_empty s.0;
  words_len = λ s. words_len s.0;
  of_ids = of_ids;
  contains-empty = contains-new_bitmap;
  contains-add = λ id s x. contains-add id s.0 s.1 x;
  contains-remove = λ id s x. contains-remove id s.0 s.1 x;
  contains-or = λ s t x. contains-or s.0 t.0 s.1 t.1 x;
  contains-and = λ s t x. contains-and s.0 t.0 s.1 t.1 x;
  contains-is_empty = λ s x h. contains-is_empty s.0 s.1 h x;
  member_of_nonempty = λ s h. member_of_nonempty s.0 s.1 h;
  contains-of_ids = contains-of_ids;
  intersection_non_empty = meet;
  ids = λ s. iterated s.0;
  ids-Ascending = λ s small. (ids_lem s.0 s.1 small).0;
  any-ids = λ s small. (ids_lem s.0 s.1 small).1;
  intersection_non_empty_iff = meet_iff;
}
