-- ===== src/Prelude/Nested.antt =====
-- Go maps of maps, as association lists of association lists.
use mathlib.Core.Path.{◌≡◌, refl}
use mathlib.Core.Logic.{inl, inr}
use mathlib.Core.Bool.{◌&&◌}
use mathlib.Core.Option.{Option, none, some}
use mathlib.Core.List.{List, [], ◌∷◌}
use native.Mathlib.Omega.{arith}
use access_management.Prelude.Tests.{if◌then◌else◌, Option-cases}
use access_management.Prelude.Keys.{Comparable}
use access_management.Prelude.Assoc.{lookup, insert, delete, lookup-insert, lookup-delete}

abbrev pub or_empty {ℓ} : {A : Type ℓ} → Option (List A) → List A
or_empty none = []
or_empty (some xs) = xs

module _ {ℓ κ μ} {K : Type ℓ} {L : Type κ} {V : Type μ} ⦃e : Comparable K⦄ ⦃d : Comparable L⦄ where
  -- m[k][l], where a missing inner map reads as an empty one
  unfoldable pub find : K → L → List (K × List (L × V)) → Option V
  find k l m = lookup l (or_empty (lookup k m))

  -- m[k][l] = v, after the inner map is made if it is missing
  unfoldable pub put : K → L → V → List (K × List (L × V)) → List (K × List (L × V))
  put k l v m = insert k (insert l v (or_empty (lookup k m))) m

  -- if inner, ok := m[k]; ok { delete(inner, l) }
  unfoldable pub remove : K → L → List (K × List (L × V)) → List (K × List (L × V))
  remove k l m = elim (lookup k m) [ none ↦ m | some inner ↦ insert k (delete l inner) m ]

  -- if len(m[k]) == 0 { delete(m, k) }
  unfoldable pub prune : K → List (K × List (L × V)) → List (K × List (L × V))
  prune k m = elim (or_empty (lookup k m)) [ [] ↦ delete k m | _ ∷ _ ↦ m ]

  pub find-put :
      (k : K) (l : L) (v : V) (i : K) (j : L) (m : List (K × List (L × V)))
      → find i j (put k l v m) ≡ (if e.beq k i && d.beq l j then some v else find i j m)
  unfolding find put
  find-put k l v i j m = ground (
    arith,
    e.beq_iff k i,
    lookup-insert k i (insert l v (or_empty (lookup k m))) m,
    lookup-insert l j v (or_empty (lookup k m)),
  )

  pub find-remove :
      (k : K) (l : L) (i : K) (j : L) (m : List (K × List (L × V)))
      → find i j (remove k l m) ≡ (if e.beq k i && d.beq l j then none else find i j m)
  unfolding find remove lookup
  find-remove k l i j m = elim (Option-cases (lookup k m)) [
    | inl n ↦ ground (arith, e.beq_iff k i)
    | inr (inner, s) ↦
        ground (arith, e.beq_iff k i, lookup-insert k i (delete l inner) m, lookup-delete l j inner)
  ]

  pub find-delete :
      (k : K) (i : K) (j : L) (m : List (K × List (L × V)))
      → find i j (delete k m) ≡ (if e.beq k i then none else find i j m)
  unfolding find lookup
  find-delete k i j m = ground (arith, lookup-delete k i m)

  pub find-prune :
      (k : K) (i : K) (j : L) (m : List (K × List (L × V))) → find i j (prune k m) ≡ find i j m
  unfolding find prune lookup
  find-prune k i j m = by_inner (or_empty (lookup k m)) refl
    where
      by_inner :
          (inner : List (L × V))
          → or_empty (lookup k m) ≡ inner
          → find i j (elim inner [ [] ↦ delete k m | _ ∷ _ ↦ m ]) ≡ find i j m
      by_inner [] s = ground (arith, e.beq_iff k i, lookup-delete k i m)
      by_inner (x ∷ xs) s = refl
