-- ===== src/RuleIndex/Lazy.antt =====
-- internal/ruletable/index/lazy_dimension.go: for each value of a field, its row numbers, kept as an
-- ascending list until a query needs a bitmap.
use access_management.Prelude.{
  ℕ, ◌≡◌, refl, Bool, true, false, ◌&&◌, ◌||◌, not, Option, none, some, List, [], ◌∷◌, ◌==◌, ==_iff,
  any, is_some, if◌then◌else◌, arith, Str, lookup, insert, delete, is_empty, lookup-insert,
  lookup-delete, AllValues, Found, lookup-AllValues, insert-All, delete-All, str_comparable, str_eq,
  str_eq_iff, if_either,
}
use access_management.Bitmap.Batch.{Ascending}
use access_management.RuleIndex.SetOps.{SetOps}
use access_management.RuleIndex.Dimension.{set_has}
use access_management.RuleIndex.SortedIds.{
  insert_sorted_unique, delete_sorted, any-insert_sorted_unique, Ascending-insert_sorted,
  any-delete_sorted, Ascending-delete_sorted, any_nothing,
}

module _ (B : SetOps) where
  -- lazyState: `ids` before a bitmap is made, `bm` after
  pub data LazyState : Type 0 where
    cold : List ℕ → LazyState
    hot : B.Set → LazyState

  -- lazyDimension
  abbrev pub LazyDimension : Type 0
  LazyDimension = List (Str × LazyState)

  unfoldable state_add : ℕ → Option LazyState → LazyState
  state_add id none = cold (id ∷ [])
  state_add id (some (hot bm)) = hot (B.add id bm)
  state_add id (some (cold ids)) = cold (insert_sorted_unique ids id)

  -- lazyDimension.Add
  unfoldable pub lazy_add : Str → ℕ → LazyDimension → LazyDimension
  unfolding state_add
  lazy_add key id d = insert key (state_add id (lookup key d)) d

  unfoldable state_remove : Str → ℕ → LazyDimension → Option LazyState → LazyDimension
  state_remove key id d none = d
  state_remove key id d (some (hot bm)) =
      if B.is_empty (B.remove id bm) then delete key d else insert key (hot (B.remove id bm)) d
  state_remove key id d (some (cold ids)) =
      if not (any (λ y. id == y) ids)
      then d
      else if is_empty (delete_sorted ids id)
      then delete key d
      else insert key (cold (delete_sorted ids id)) d

  -- lazyDimension.Remove
  unfoldable pub lazy_remove : Str → ℕ → LazyDimension → LazyDimension
  unfolding state_remove
  lazy_remove key id d = state_remove key id d (lookup key d)

  unfoldable state_bitmap : Option LazyState → Option B.Set
  state_bitmap none = none
  state_bitmap (some (hot bm)) = some bm
  state_bitmap (some (cold ids)) = some (B.of_ids ids)

  unfoldable state_store : Str → LazyDimension → Option LazyState → LazyDimension
  state_store key d none = d
  state_store key d (some (hot bm)) = d
  state_store key d (some (cold ids)) = insert key (hot (B.of_ids ids)) d

  -- lazyDimension.Bitmap: its answer, and what its CompareAndSwap leaves in the map
  unfoldable pub lazy_bitmap : Str → LazyDimension → Option B.Set
  unfolding state_bitmap
  lazy_bitmap key d = state_bitmap (lookup key d)

  unfoldable pub lazy_materialise : Str → LazyDimension → LazyDimension
  unfolding state_store
  lazy_materialise key d = state_store key d (lookup key d)

  -- lazyDimension.has
  unfoldable pub lazy_has : Str → LazyDimension → Bool
  lazy_has key d = is_some (lookup key d)

  unfoldable pub state_filed : ℕ → Option LazyState → Bool
  state_filed id none = false
  state_filed id (some (hot bm)) = B.contains id bm
  state_filed id (some (cold ids)) = any (λ y. id == y) ids

  -- Whether a row is filed under a key.
  unfoldable pub lazy_filed : Str → ℕ → LazyDimension → Bool
  unfolding state_filed
  lazy_filed key id d = state_filed id (lookup key d)

  -- The lists of cold entries are ascending.
  IsState : LazyState → Type 0
  IsState (cold ids) = Ascending ids
  IsState (hot bm) = Unit

  unfoldable pub IsLazy : LazyDimension → Type 0
  unfolding IsState
  IsLazy d = AllValues IsState d

  state_add-IsState : (id : ℕ) (o : Option LazyState) → Found IsState o → IsState (state_add id o)
  unfolding state_add IsState Ascending
  state_add-IsState id none v = tt
  state_add-IsState id (some (hot bm)) v = tt
  state_add-IsState id (some (cold ids)) v = Ascending-insert_sorted ids id v

  pub lazy_add-IsLazy :
      (key : Str) (id : ℕ) (d : LazyDimension) → IsLazy d → IsLazy (lazy_add key id d)
  unfolding IsLazy lazy_add
  lazy_add-IsLazy key id d v =
      insert-All (λ (x : Str × LazyState). IsState x.1) key (state_add id (lookup key d)) d
        (state_add-IsState id (lookup key d) (lookup-AllValues IsState key d v)) v

  state_filed-add :
      (id : ℕ) (o : Option LazyState) (x : ℕ)
      → state_filed x (some (state_add id o)) ≡ ((id == x) || state_filed x o)
  unfolding state_add state_filed
  state_filed-add id none x = ground (arith, ==_iff id x, ==_iff x id)
  state_filed-add id (some (hot bm)) x = B.contains-add id bm x
  state_filed-add id (some (cold ids)) x = any-insert_sorted_unique ids id x

  pub filed-lazy_add :
      (key : Str) (id : ℕ) (d : LazyDimension) (k : Str) (x : ℕ)
      → lazy_filed k x (lazy_add key id d) ≡ ((str_eq key k && (id == x)) || lazy_filed k x d)
  unfolding lazy_filed lazy_add
  filed-lazy_add key id d k x = ground (
    arith,
    lookup-insert key k (state_add id (lookup key d)) d,
    state_filed-add id (lookup key d) x,
    str_eq_iff key k,
  )

  state_remove-IsLazy :
      (key : Str) (id : ℕ) (d : LazyDimension) (o : Option LazyState)
      → Found IsState o
      → IsLazy d
      → IsLazy (state_remove key id d o)
  unfolding IsLazy state_remove IsState
  state_remove-IsLazy key id d none f v = v
  state_remove-IsLazy key id d (some (hot bm)) f v =
      if_either IsLazy (B.is_empty (B.remove id bm)) (delete key d)
        (insert key (hot (B.remove id bm)) d)
        (delete-All (λ (x : Str × LazyState). IsState x.1) key d v)
        (insert-All (λ (x : Str × LazyState). IsState x.1) key (hot (B.remove id bm)) d tt v)
  state_remove-IsLazy key id d (some (cold ids)) f v =
      let shorter = insert key (cold (delete_sorted ids id)) d in
      if_either IsLazy (not (any (λ y. id == y) ids)) d
        (if is_empty (delete_sorted ids id) then delete key d else shorter) v
        (if_either IsLazy (is_empty (delete_sorted ids id)) (delete key d) shorter
          (delete-All (λ (x : Str × LazyState). IsState x.1) key d v)
          (insert-All (λ (x : Str × LazyState). IsState x.1) key (cold (delete_sorted ids id)) d
            (Ascending-delete_sorted ids id f) v))

  pub lazy_remove-IsLazy :
      (key : Str) (id : ℕ) (d : LazyDimension) → IsLazy d → IsLazy (lazy_remove key id d)
  unfolding IsLazy lazy_remove
  lazy_remove-IsLazy key id d v =
      state_remove-IsLazy key id d (lookup key d) (lookup-AllValues IsState key d v) v

  filed-state_remove :
      (key : Str) (id : ℕ) (d : LazyDimension) (o : Option LazyState) (k : Str) (x : ℕ)
      → Found IsState o
      → lookup key d ≡ o
      → lazy_filed k x (state_remove key id d o)
        ≡ (not (str_eq key k && (id == x)) && lazy_filed k x d)
  unfolding lazy_filed state_remove state_filed IsState
  filed-state_remove key id d none k x f e = ground (arith, str_eq_iff key k)
  filed-state_remove key id d (some (hot bm)) k x f e = ground (
    arith,
    lookup-insert key k (hot (B.remove id bm)) d,
    lookup-delete key k d,
    B.contains-remove id bm x,
    B.contains-is_empty (B.remove id bm) x,
    str_eq_iff key k,
  )
  filed-state_remove key id d (some (cold ids)) k x f e = ground (
    arith,
    lookup-insert key k (cold (delete_sorted ids id)) d,
    lookup-delete key k d,
    any-delete_sorted ids id x f,
    any_nothing (delete_sorted ids id) x,
    ==_iff id x,
    str_eq_iff key k,
  )

  pub filed-lazy_remove :
      (key : Str) (id : ℕ) (d : LazyDimension) (k : Str) (x : ℕ)
      → IsLazy d
      → lazy_filed k x (lazy_remove key id d)
        ≡ (not (str_eq key k && (id == x)) && lazy_filed k x d)
  unfolding lazy_remove IsLazy
  filed-lazy_remove key id d k x v =
      filed-state_remove key id d (lookup key d) k x (lookup-AllValues IsState key d v) refl

  contains-state_bitmap :
      (o : Option LazyState) (x : ℕ)
      → Found IsState o
      → set_has B x (state_bitmap o) ≡ state_filed x o
  unfolding state_bitmap state_filed IsState
  contains-state_bitmap none x f = refl
  contains-state_bitmap (some (hot bm)) x f = refl
  contains-state_bitmap (some (cold ids)) x f = B.contains-of_ids ids x f

  -- The bitmap of a key has the rows filed under it; a missing key has none.
  pub contains-lazy_bitmap :
      (key : Str) (d : LazyDimension) (x : ℕ)
      → IsLazy d
      → set_has B x (lazy_bitmap key d) ≡ lazy_filed key x d
  unfolding lazy_bitmap lazy_filed IsLazy
  contains-lazy_bitmap key d x v =
      contains-state_bitmap (lookup key d) x (lookup-AllValues IsState key d v)

  lazy_bitmap-state_store :
      (j : Str) (d : LazyDimension) (o : Option LazyState) (k : Str)
      → lookup j d ≡ o
      → lazy_bitmap k (state_store j d o) ≡ lazy_bitmap k d
  unfolding lazy_bitmap state_store state_bitmap
  lazy_bitmap-state_store j d none k e = refl
  lazy_bitmap-state_store j d (some (hot bm)) k e = refl
  lazy_bitmap-state_store j d (some (cold ids)) k e =
      ground (arith, lookup-insert j k (hot (B.of_ids ids)) d, str_eq_iff j k)

  -- Storing a bitmap changes the answer of no query.
  pub lazy_bitmap-lazy_materialise :
      (j k : Str) (d : LazyDimension) → lazy_bitmap k (lazy_materialise j d) ≡ lazy_bitmap k d
  unfolding lazy_materialise
  lazy_bitmap-lazy_materialise j k d = lazy_bitmap-state_store j d (lookup j d) k refl

  -- A row that is filed under a key makes the map have the key.
  pub lazy_has-filed :
      (key : Str) (d : LazyDimension) (x : ℕ) → lazy_filed key x d ≡ true → lazy_has key d ≡ true
  unfolding lazy_has lazy_filed state_filed
  lazy_has-filed key d x h = ground arith
