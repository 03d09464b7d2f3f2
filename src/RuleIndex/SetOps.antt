-- ===== src/RuleIndex/SetOps.antt =====
-- What the index needs of internal/ruletable/index/bitmap.go: sets of row numbers, their operations
-- and the laws of their members. Bitmap fills it.
use access_management.Prelude.{
  word32, ◌<◌, true, ℕ, ◌≡◌, Bool, true, false, ◌&&◌, ◌||◌, not, List, ◌==◌, any, all, ◌↔◌,
}
use access_management.Bitmap.Batch.{Ascending}

pub record SetOps : Type 1 where
  pub Set : Type 0
  pub contains : ℕ → Set → Bool
  pub empty : Set
  pub add : ℕ → Set → Set
  pub remove : ℕ → Set → Set
  pub or : Set → Set → Set
  pub and : Set → Set → Set
  pub is_empty : Set → Bool
  pub words_len : Set → ℕ
  pub of_ids : List ℕ → Set
  pub intersection_non_empty : Set → List Set → Bool
  pub ids : Set → List ℕ
  pub contains-empty : (x : ℕ) → contains x empty ≡ false
  pub contains-add :
      (id : ℕ) (s : Set) (x : ℕ) → contains x (add id s) ≡ ((id == x) || contains x s)
  pub contains-remove :
      (id : ℕ) (s : Set) (x : ℕ) → contains x (remove id s) ≡ (not (id == x) && contains x s)
  pub contains-or : (s t : Set) (x : ℕ) → contains x (or s t) ≡ (contains x s || contains x t)
  pub contains-and : (s t : Set) (x : ℕ) → contains x (and s t) ≡ (contains x s && contains x t)
  pub contains-is_empty : (s : Set) (x : ℕ) → is_empty s ≡ true → contains x s ≡ false
  pub member_of_nonempty : (s : Set) → is_empty s ≡ false → (x : ℕ) × (contains x s ≡ true)
  pub contains-of_ids :
      (ids : List ℕ) (x : ℕ) → Ascending ids → contains x (of_ids ids) ≡ any (λ y. x == y) ids
  pub intersection_non_empty_iff :
      (s : Set) (sets : List Set)
      → (intersection_non_empty s sets ≡ true)
        ↔ ((x : ℕ) × ((contains x s && all (λ t. contains x t) sets) ≡ true))
  -- The numbers in their order, of a set whose members are all of type uint32.
  pub ids-Ascending : (s : Set) → ((x : ℕ) → contains x s ≡ true → x < word32) → Ascending (ids s)
  pub any-ids :
      (s : Set)
      → ((x : ℕ) → contains x s ≡ true → x < word32)
      → (x : ℕ) → any (λ y. x == y) (ids s) ≡ contains x s
