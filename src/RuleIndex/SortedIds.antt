-- ===== src/RuleIndex/SortedIds.antt =====
-- internal/ruletable/index/lazy_dimension.go: row numbers as an ascending list. The list's binary search is that of an ascending list: it finds the number or the
-- place where it belongs.
use access_management.Prelude.{
  ℕ, ◌<◌, ◌≤◌, ◌≡◌, refl, true, false, ◌&&◌, ◌||◌, not, List, [], ◌∷◌, ◌==◌, ==_iff, ltb, any,
  if◌then◌else◌, arith, is_empty, str_comparable, inl, inr, Bool-cases,
}
use access_management.Bitmap.Batch.{Above, Ascending}

-- insertSortedUnique
unfoldable pub insert_sorted_unique : List ℕ → ℕ → List ℕ
insert_sorted_unique [] id = id ∷ []
insert_sorted_unique (x ∷ ids) id =
    let rest = insert_sorted_unique ids id in
    if id == x then x ∷ ids else if ltb id x then id ∷ x ∷ ids else x ∷ rest

-- slices.Delete at the place that slices.BinarySearch found, or the list as it is
unfoldable pub delete_sorted : List ℕ → ℕ → List ℕ
delete_sorted [] id = []
delete_sorted (x ∷ ids) id = let rest = delete_sorted ids id in if id == x then ids else x ∷ rest

pub any-insert_sorted_unique :
    (ids : List ℕ) (id x : ℕ)
    → any (λ y. x == y) (insert_sorted_unique ids id) ≡ ((id == x) || any (λ y. x == y) ids)
unfolding insert_sorted_unique
any-insert_sorted_unique [] id x = ground (arith, ==_iff id x, ==_iff x id)
any-insert_sorted_unique (y ∷ ids) id x =
    ground (arith, any-insert_sorted_unique ids id x, ==_iff id x, ==_iff x id, ==_iff id y)

Above-insert_sorted :
    (b : ℕ) (ids : List ℕ) (id : ℕ) → b < id → Above b ids → Above b (insert_sorted_unique ids id)
unfolding insert_sorted_unique Above
Above-insert_sorted b [] id h a = (h, tt)
Above-insert_sorted b (x ∷ ids) id h a = elim (Bool-cases (id == x)) [
  | inl e ↦ rw e a
  | inr e ↦ elim (Bool-cases (ltb id x)) [
    | inl l ↦ rw (e, l) (h, (ground (arith, l), a.1))
    | inr g ↦ rw (e, g) (a.0, Above-insert_sorted x ids id (ground (arith, e, g)) a.1)
  ]
]

pub Ascending-insert_sorted :
    (ids : List ℕ) (id : ℕ) → Ascending ids → Ascending (insert_sorted_unique ids id)
unfolding insert_sorted_unique Above Ascending
Ascending-insert_sorted [] id a = tt
Ascending-insert_sorted (x ∷ ids) id a = elim (Bool-cases (id == x)) [
  | inl e ↦ rw e a
  | inr e ↦ elim (Bool-cases (ltb id x)) [
    | inl l ↦ rw (e, l) (ground (arith, l), a)
    | inr g ↦ rw (e, g) (Above-insert_sorted x ids id (ground (arith, e, g)) a)
  ]
]

Above-weak : (b x : ℕ) (ids : List ℕ) → b < x → Above x ids → Above b ids
unfolding Above
Above-weak b x [] h a = tt
Above-weak b x (y ∷ ids) h a = (omega (arith, a.0), a.1)

Above-Ascending : (x : ℕ) (ids : List ℕ) → Above x ids → Ascending ids
unfolding Above Ascending
Above-Ascending x [] a = tt
Above-Ascending x (y ∷ ids) a = a.1

not_any-Above : (b : ℕ) (ids : List ℕ) (x : ℕ) → x ≤ b → Above b ids → any (λ y. x == y) ids ≡ false
unfolding Above
not_any-Above b [] x h a = refl
not_any-Above b (y ∷ ids) x h a =
    ground (arith, a.0, not_any-Above y ids x (omega (arith, a.0)) a.1)

pub any-delete_sorted :
    (ids : List ℕ) (id x : ℕ)
    → Ascending ids
    → any (λ y. x == y) (delete_sorted ids id) ≡ (not (id == x) && any (λ y. x == y) ids)
unfolding delete_sorted Ascending
any-delete_sorted [] id x a = ground arith
any-delete_sorted (y ∷ ids) id x a = ground (
  arith,
  any-delete_sorted ids id x (Above-Ascending y ids a),
  ==_iff id x,
  ==_iff x id,
  ==_iff id y,
  ==_iff x y,
  not_any-Above y ids y (omega arith) a,
)

Above-delete_sorted : (b : ℕ) (ids : List ℕ) (id : ℕ) → Above b ids → Above b (delete_sorted ids id)
unfolding delete_sorted Above
Above-delete_sorted b [] id a = tt
Above-delete_sorted b (x ∷ ids) id a = elim (Bool-cases (id == x)) [
  | inl e ↦ rw e (Above-weak b x ids a.0 a.1)
  | inr e ↦ rw e (a.0, Above-delete_sorted x ids id a.1)
]

pub Ascending-delete_sorted :
    (ids : List ℕ) (id : ℕ) → Ascending ids → Ascending (delete_sorted ids id)
unfolding delete_sorted Ascending
Ascending-delete_sorted [] id a = tt
Ascending-delete_sorted (x ∷ ids) id a = elim (Bool-cases (id == x)) [
  | inl e ↦ rw e (Above-Ascending x ids a)
  | inr e ↦ rw e (Above-delete_sorted x ids id a)
]

pub any_nothing : (ids : List ℕ) (x : ℕ) → is_empty ids ≡ true → any (λ y. x == y) ids ≡ false
any_nothing [] x h = refl
any_nothing (y ∷ ids) x h = absurd (ground arith)
