-- ===== src/RuleIndex/Dimension.antt =====
-- internal/ruletable/index/bitmap_index.go, dimension: for each value of a field, its row numbers.
use access_management.Prelude.{
  ℕ, ◌≡◌, refl, Bool, false, ◌&&◌, ◌||◌, not, Option, none, some, List, [], ◌∷◌, ◌==◌, any,
  if◌then◌else◌, arith, Comparable, lookup, insert, delete, lookup-insert, lookup-delete,
  Option-cases, inl, inr, ◌∙◌,
}
use access_management.RuleIndex.SetOps.{SetOps}
use access_management.RuleIndex.Pool.{union_of, contains-union_of}

module _ (B : SetOps) where
  -- A set that may be missing, as a map gives it.
  abbrev pub set_has : ℕ → Option B.Set → Bool
  set_has id none = false
  set_has id (some s) = B.contains id s

  abbrev pub set_or_new : Option B.Set → B.Set
  set_or_new none = B.empty
  set_or_new (some s) = s

  -- `if bm, ok := …; ok { parts = append(parts, bm) }`, the other parts being those that follow
  abbrev pub append_found : Option B.Set → List B.Set → List B.Set
  append_found none parts = parts
  append_found (some s) parts = s ∷ parts

  module _ {K : Type 0} ⦃e : Comparable K⦄ where
    -- dimension.Add
    unfoldable pub dimension_add : K → ℕ → List (K × B.Set) → List (K × B.Set)
    dimension_add key id d = insert key (B.add id (set_or_new (lookup key d))) d

    abbrev remove_found : K → ℕ → List (K × B.Set) → Option B.Set → List (K × B.Set)
    remove_found key id d none = d
    remove_found key id d (some s) =
        if B.is_empty (B.remove id s) then delete key d else insert key (B.remove id s) d

    -- dimension.Remove
    unfoldable pub dimension_remove : K → ℕ → List (K × B.Set) → List (K × B.Set)
    dimension_remove key id d = remove_found key id d (lookup key d)

    -- The sets of the keys that the map has, in the order of the keys.
    unfoldable pub found_sets : List K → List (K × B.Set) → List B.Set
    found_sets [] d = []
    found_sets (k ∷ keys) d = append_found (lookup k d) (found_sets keys d)

    -- dimension.QueryMultiple
    unfoldable pub dimension_query_multiple : List K → List (K × B.Set) → B.Set
    dimension_query_multiple keys d = union_of B (found_sets keys d)

    -- Whether a row is filed under a key.
    unfoldable pub filed : K → ℕ → List (K × B.Set) → Bool
    filed key id d = set_has id (lookup key d)

    pub filed-dimension_add :
        (key : K) (id : ℕ) (d : List (K × B.Set)) (k : K) (i : ℕ)
        → filed k i (dimension_add key id d) ≡ ((e.beq key k && (id == i)) || filed k i d)
    unfolding filed dimension_add
    filed-dimension_add key id d k i = elim (Option-cases (lookup key d)) [
      | inl absent ↦ ground (
        arith,
        absent,
        lookup-insert key k (B.add id (set_or_new (lookup key d))) d,
        B.contains-add id B.empty i,
        B.contains-empty i,
        e.beq_iff key k,
      )
      | inr found ↦ ground (
        arith,
        found.1,
        lookup-insert key k (B.add id (set_or_new (lookup key d))) d,
        B.contains-add id found.0 i,
        e.beq_iff key k,
      )
    ]

    pub filed-dimension_remove :
        (key : K) (id : ℕ) (d : List (K × B.Set)) (k : K) (i : ℕ)
        → filed k i (dimension_remove key id d) ≡ (not (e.beq key k && (id == i)) && filed k i d)
    unfolding filed dimension_remove
    filed-dimension_remove key id d k i = elim (Option-cases (lookup key d)) [
      | inl absent ↦ rw absent (ground (arith, absent, e.beq_iff key k))
      | inr found ↦ rw found.1 (
          ground (
            arith,
            found.1,
            lookup-insert key k (B.remove id found.0) d,
            lookup-delete key k d,
            B.contains-remove id found.0 i,
            B.contains-is_empty (B.remove id found.0) i,
            e.beq_iff key k,
          ))
    ]

    filed-found_sets :
        (keys : List K) (d : List (K × B.Set)) (i : ℕ)
        → any (λ s. B.contains i s) (found_sets keys d) ≡ any (λ k. filed k i d) keys
    unfolding filed found_sets
    filed-found_sets [] d i = refl
    filed-found_sets (k ∷ keys) d i = elim (Option-cases (lookup k d)) [
      | inl absent ↦ rw absent (filed-found_sets keys d i)
      | inr found ↦ rw found.1 (ground (arith, filed-found_sets keys d i))
    ]

    -- The members of QueryMultiple's result are the rows filed under one of the keys.
    pub contains-dimension_query_multiple :
        (keys : List K) (d : List (K × B.Set)) (i : ℕ)
        → B.contains i (dimension_query_multiple keys d) ≡ any (λ k. filed k i d) keys
    unfolding dimension_query_multiple
    contains-dimension_query_multiple keys d i =
        contains-union_of B i (found_sets keys d) ∙ filed-found_sets keys d i
