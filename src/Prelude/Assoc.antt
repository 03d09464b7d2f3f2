-- ===== src/Prelude/Assoc.antt =====
-- Go maps as association lists. The order of entries stands for the order of iteration.
use mathlib.Core.Path.{◌≡◌, refl}
use mathlib.Core.Logic.{inl, inr}
use mathlib.Core.Option.{Option, none, some}
use mathlib.Core.List.{List, [], ◌∷◌}
use native.Mathlib.Omega.{arith}
use access_management.Prelude.Tests.{if◌then◌else◌, if_either, is_some, Bool-cases}
use access_management.Prelude.Lists.{All, any}
use access_management.Prelude.Keys.{Comparable}

module _ {ℓ κ} {K : Type ℓ} {V : Type κ} ⦃e : Comparable K⦄ where
  unfoldable pub lookup : K → List (K × V) → Option V
  lookup k [] = none
  lookup k ((j, v) ∷ m) = if e.beq j k then some v else lookup k m

  -- m[k] = v
  unfoldable pub insert : K → V → List (K × V) → List (K × V)
  insert k v [] = (k, v) ∷ []
  insert k v ((j, w) ∷ m) = if e.beq j k then (k, v) ∷ m else (j, w) ∷ insert k v m

  -- delete(m, k)
  unfoldable pub delete : K → List (K × V) → List (K × V)
  delete k [] = []
  delete k ((j, w) ∷ m) = let rest = delete k m in if e.beq j k then rest else (j, w) ∷ rest

  pub lookup-insert :
      (k j : K) (v : V) (m : List (K × V))
      → lookup j (insert k v m) ≡ (if e.beq k j then some v else lookup j m)
  unfolding lookup insert
  lookup-insert k j v [] = refl
  lookup-insert k j v ((i, w) ∷ m) =
      ground (arith, e.beq_iff k j, e.beq_iff i k, e.beq_iff i j, lookup-insert k j v m)

  pub lookup-delete :
      (k j : K) (m : List (K × V))
      → lookup j (delete k m) ≡ (if e.beq k j then none else lookup j m)
  unfolding lookup delete
  lookup-delete k j [] = ground arith
  lookup-delete k j ((i, w) ∷ m) =
      ground (arith, e.beq_iff k j, e.beq_iff i k, e.beq_iff i j, lookup-delete k j m)

-- A predicate on a value, if there is one.
abbrev pub Found {κ μ} : {V : Type κ} → (V → Type μ) → Option V → Type μ
Found P none = Unit
Found P (some v) = P v

-- A predicate on every entry of a map.
module _ {ℓ κ μ} {K : Type ℓ} {V : Type κ} ⦃e : Comparable K⦄ (P : K × V → Type μ) where
  pub insert-All : (k : K) (v : V) (m : List (K × V)) → P (k, v) → All P m → All P (insert k v m)
  unfolding insert
  insert-All k v [] p a = (p, tt)
  insert-All k v ((j, w) ∷ m) p a =
      if_either (All P) (e.beq j k) ((k, v) ∷ m) ((j, w) ∷ insert k v m) (p, a.1)
        (a.0, insert-All k v m p a.1)

  pub delete-All : (k : K) (m : List (K × V)) → All P m → All P (delete k m)
  unfolding delete
  delete-All k [] a = tt
  delete-All k ((j, w) ∷ m) a =
      if_either (All P) (e.beq j k) (delete k m) ((j, w) ∷ delete k m) (delete-All k m a.1)
        (a.0, delete-All k m a.1)

  -- The entry at a key, if there is one, is one of the map's.
  pub lookup-All : (k : K) (m : List (K × V)) → All P m → Found (λ v. P (k, v)) (lookup k m)
  unfolding lookup
  lookup-All k [] a = tt
  lookup-All k ((j, v) ∷ m) a = elim (Bool-cases (e.beq j k)) [
    | inl h ↦ let s = (e.beq_iff j k).0 h in rw (h, ← s) a.0
    | inr h ↦ rw h (lookup-All k m a.1)
  ]

-- A predicate on every value of a map.
module _ {ℓ κ μ} {K : Type ℓ} {V : Type κ} ⦃e : Comparable K⦄ (P : V → Type μ) where
  abbrev pub AllValues : List (K × V) → Type μ
  AllValues m = All (λ (x : K × V). P x.1) m

  -- What holds of every value of a map holds of the value at a key, if there is one.
  pub lookup-AllValues : (k : K) (m : List (K × V)) → AllValues m → Found P (lookup k m)
  unfolding lookup
  lookup-AllValues k [] a = tt
  lookup-AllValues k ((j, v) ∷ m) a =
      if_either (Found P) (e.beq j k) (some v) (lookup k m) a.0 (lookup-AllValues k m a.1)

module _ {ℓ κ} {K : Type ℓ} {V : Type κ} ⦃e : Comparable K⦄ where
  -- A map has a value at the keys of its entries.
  pub is_some-lookup :
      (k : K) (m : List (K × V)) → is_some (lookup k m) ≡ any (λ (x : K × V). e.beq x.0 k) m
  unfolding lookup
  is_some-lookup k [] = refl
  is_some-lookup k ((j, v) ∷ m) = ground (arith, is_some-lookup k m)
