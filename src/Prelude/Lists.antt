-- ===== src/Prelude/Lists.antt =====
-- Lists measured and indexed by native numbers, and predicates on their members.
use Prim.Native.Nat.{ℕ, zero, suc, ◌+◌, ◌≤◌}
use mathlib.Core.Path.{◌≡◌, refl}
use mathlib.Core.Bool.{Bool, true, false, ◌&&◌, ◌||◌}
use mathlib.Core.List.{List, [], ◌∷◌, ◌++◌}
use mathlib.Core.Option.{Option, none, some}
use access_management.Prelude.Tests.{◌==◌, ltb, if◌then◌else◌}
use native.Mathlib.Omega.{arith}

module _ {ℓ} {A : Type ℓ} where
  abbrev pub length : List A → ℕ
  length [] = 0
  length (x ∷ xs) = suc (length xs)

  abbrev pub get_elem? : List A → ℕ → Option A
  get_elem? [] i = none
  get_elem? (x ∷ xs) zero = some x
  get_elem? (x ∷ xs) (suc i) = get_elem? xs i

  abbrev pub take : ℕ → List A → List A
  take zero xs = []
  take (suc n) [] = []
  take (suc n) (x ∷ xs) = x ∷ take n xs

  abbrev pub drop : ℕ → List A → List A
  drop zero xs = xs
  drop (suc n) [] = []
  drop (suc n) (x ∷ xs) = drop n xs

  -- xs[n] = y
  abbrev pub set_at : ℕ → A → List A → List A
  set_at n y [] = []
  set_at zero y (x ∷ xs) = y ∷ xs
  set_at (suc n) y (x ∷ xs) = x ∷ set_at n y xs

  pub length-append : (xs ys : List A) → length (xs ++ ys) ≡ length xs + length ys
  length-append [] ys = omega arith
  length-append (x ∷ xs) ys = omega (arith, length-append xs ys)

  pub length-set_at : (n : ℕ) (y : A) (xs : List A) → length (set_at n y xs) ≡ length xs
  length-set_at n y [] = refl
  length-set_at zero y (x ∷ xs) = refl
  length-set_at (suc n) y (x ∷ xs) = omega (arith, length-set_at n y xs)

  pub get_elem?-set_at :
      (n : ℕ) (y : A) (xs : List A) (k : ℕ)
      → get_elem? (set_at n y xs) k
        ≡ (if n == k && ltb n (length xs) then some y else get_elem? xs k)
  get_elem?-set_at n y [] k = ground arith
  get_elem?-set_at zero y (x ∷ xs) zero = ground arith
  get_elem?-set_at zero y (x ∷ xs) (suc k) = ground arith
  get_elem?-set_at (suc n) y (x ∷ xs) zero = ground arith
  get_elem?-set_at (suc n) y (x ∷ xs) (suc k) = ground (arith, get_elem?-set_at n y xs k)

  -- An element put at the end.
  pub get_elem?-append_last :
      (xs : List A) (y : A) (k : ℕ)
      → get_elem? (xs ++ (y ∷ [])) k ≡ (if k == length xs then some y else get_elem? xs k)
  get_elem?-append_last [] y zero = ground arith
  get_elem?-append_last [] y (suc k) = ground arith
  get_elem?-append_last (x ∷ xs) y zero = ground arith
  get_elem?-append_last (x ∷ xs) y (suc k) = ground (arith, get_elem?-append_last xs y k)

  pub get_elem?-beyond : (xs : List A) (k : ℕ) → length xs ≤ k → get_elem? xs k ≡ none
  get_elem?-beyond [] k h = refl
  get_elem?-beyond (x ∷ xs) zero h = absurd (omega arith)
  get_elem?-beyond (x ∷ xs) (suc k) h = get_elem?-beyond xs k (omega arith)

  abbrev pub is_empty : List A → Bool
  is_empty [] = true
  is_empty (x ∷ xs) = false

  -- `p` holds of some member, of every member.
  abbrev pub any : (A → Bool) → List A → Bool
  any p [] = false
  any p (x ∷ xs) = p x || any p xs

  abbrev pub all : (A → Bool) → List A → Bool
  all p [] = true
  all p (x ∷ xs) = p x && all p xs

module _ {ℓ κ} {A : Type ℓ} where
  -- A predicate on every member.
  abbrev pub All : (A → Type κ) → List A → Type κ
  All P [] = Unit
  All P (x ∷ xs) = P x × All P xs
