-- ===== src/RuleIndex/Additions.antt =====
-- addBinding keeps the invariant of an index and puts the row in.
use access_management.Prelude.{
  ℕ, suc, word32, uint32, uint32_small, subst, sym, ◌≡◌, ◌≤◌, ◌<◌, true, false, ◌||◌, Option, none,
  some, List, [], ◌∷◌, ◌==◌, ==_iff, ltb, is_some, if◌then◌else◌, arith, Str, length, length-append,
  length-set_at, any, get_elem?, get_elem?-set_at, get_elem?-append_last, get_elem?-beyond,
  is_empty, str_comparable, str_eq_iff, Bool-cases, inl, inr, if_either,
}
use access_management.Check.Types.{Kind, EvaluationKeyTuple}
use access_management.RuleIndex.SetOps.{SetOps}
use access_management.RuleIndex.Dimension.{filed, filed-dimension_add}
use access_management.RuleIndex.Lazy.{lazy_filed, IsLazy, lazy_add, lazy_add-IsLazy, filed-lazy_add}
use access_management.RuleIndex.Globs.{GlobLibrary, GlobDimension, glob_set}
use access_management.RuleIndex.GlobFiling.{
  glob_filed, key_is, IsGlobDimension, glob_set-IsGlobDimension, filed-glob_set,
}
use access_management.RuleIndex.Rows.{
  Handle, BitmapIndex, get_binding, kind_comparable, alloc_id, alloc_from, place, add_binding,
  eval_key, no_eval_key,
}
use access_management.RuleIndex.Indexes.{
  IsIndex, Distinct, equals, has_kind, allows_set, scope_key, version_key, role_key, resource_key,
  principal_key, action_key,
}

-- A list whose element at a place in range is replaced, or that gets an element at its end.
get_elem?-place :
    {A : Type 0} (id : ℕ) (a : A) (xs : List A) (k : ℕ)
    → id ≤ length xs
    → get_elem? (place id a xs) k ≡ (if id == k then some a else get_elem? xs k)
get_elem?-place id a xs k h =
    ground (arith, get_elem?-set_at id a xs k, get_elem?-append_last xs a k, ==_iff id k)

length-place :
    {A : Type 0} (id : ℕ) (a : A) (xs : List A)
    → id ≤ length xs
    → length (place id a xs) ≡ (if ltb id (length xs) then length xs else suc (length xs))
length-place id a xs h = ground (arith, length-set_at id a xs, length-append xs (a ∷ []))

-- A free slot, or the one past the end.
alloc_lem :
    (free : List ℕ) (n : ℕ) (slot : ℕ → Option Handle)
    → ((x : ℕ) → any (λ y. x == y) free ≡ true → (x < n) × (slot x ≡ none))
    → slot n ≡ none
    → (slot (alloc_from free n).0 ≡ none) × ((alloc_from free n).0 ≤ n)
alloc_lem [] n slot h e = (e, omega arith)
alloc_lem (id ∷ free) n slot h e =
    let found = h id (ground arith) in (found.1, omega (arith, found.0))

-- The free numbers that are left when one is taken.
rest_lem :
    (free : List ℕ) (n x : ℕ)
    → Distinct free
    → any (λ y. x == y) (alloc_from free n).1 ≡ true
    → (any (λ y. x == y) free ≡ true) × (((alloc_from free n).0 == x) ≡ false)
unfolding Distinct
rest_lem [] n x d h = absurd (ground arith)
rest_lem (id ∷ free) n x d h = (ground (arith, h), ground (arith, h, d.0, ==_iff id x))

rest-Distinct : (free : List ℕ) (n : ℕ) → Distinct free → Distinct (alloc_from free n).1
unfolding Distinct
rest-Distinct [] n d = tt
rest-Distinct (id ∷ free) n d = d.1

module _ (B : SetOps) (L : GlobLibrary) (b : Handle) (key : EvaluationKeyTuple)
    (idx : BitmapIndex B L) (v : IsIndex B L idx) (room : length idx.bindings < word32) where
  abbrev new_id : ℕ
  new_id = (alloc_id B L idx).0

  abbrev added : BitmapIndex B L
  added = add_binding B L b key idx

  abbrev row : ℕ → Option Handle
  row x = get_binding B L x idx

  -- The number given to a row is one that no row has, where the index has fewer than 2 ^ 32 slots.
  pub new_id_lem : (row new_id ≡ none) × (new_id ≤ length idx.bindings)
  unfolding get_binding
  new_id_lem =
      subst
        (λ n.
          (row (alloc_from idx.free_ids n).0 ≡ none)
          × ((alloc_from idx.free_ids n).0 ≤ length idx.bindings))
        (sym (uint32_small (length idx.bindings) room))
        (alloc_lem idx.free_ids (length idx.bindings) row v.free_slots
          (ground (arith, get_elem?-beyond idx.bindings (length idx.bindings) (omega arith))))

  -- The rows are those before and the one added, under the number it is given.
  pub get_binding-add_binding :
      (x : ℕ)
      → get_binding B L x added ≡ (if new_id == x then some (record b { id = new_id }) else row x)
  unfolding get_binding add_binding
  get_binding-add_binding x =
      ground (
        arith,
        get_elem?-place new_id (some (record b { id = new_id })) idx.bindings x new_id_lem.1,
      )

  added_scopes :
      (k : Str) (x : ℕ) → filed B k x added.scope ≡ equals (scope_key (get_binding B L x added)) k
  unfolding add_binding
  added_scopes k x = ground (
    arith,
    get_binding-add_binding x,
    new_id_lem.0,
    v.scopes k x,
    ==_iff new_id x,
    filed-dimension_add B b.scope_of new_id idx.scope k x,
  )

  added_versions :
      (k : Str) (x : ℕ)
      → filed B k x added.version ≡ equals (version_key (get_binding B L x added)) k
  unfolding add_binding
  added_versions k x = ground (
    arith,
    get_binding-add_binding x,
    new_id_lem.0,
    v.versions k x,
    ==_iff new_id x,
    filed-dimension_add B b.version_of new_id idx.version k x,
  )

  added_kinds :
      (k : Kind) (x : ℕ) → filed B k x added.policy_kind ≡ has_kind (get_binding B L x added) k
  unfolding add_binding
  added_kinds k x = ground (
    arith,
    get_binding-add_binding x,
    new_id_lem.0,
    v.kinds k x,
    ==_iff new_id x,
    filed-dimension_add B b.policy_kind new_id idx.policy_kind k x,
  )

  added_principals :
      (k : Str) (x : ℕ)
      → lazy_filed B k x added.principal ≡ equals (principal_key (get_binding B L x added)) k
  unfolding add_binding
  added_principals k x = ground (
    arith,
    get_binding-add_binding x,
    new_id_lem.0,
    v.principals k x,
    ==_iff new_id x,
    filed-lazy_add B b.principal_of new_id idx.principal k x,
  )

  added_roles :
      (k : Str) (x : ℕ)
      → glob_filed B L k x added.role ≡ key_is L (role_key (get_binding B L x added)) k
  unfolding add_binding
  added_roles k x = ground (
    arith,
    get_binding-add_binding x,
    new_id_lem.0,
    v.roles k x,
    ==_iff new_id x,
    str_eq_iff b.role_of k,
    filed-glob_set B L b.role_of new_id idx.role v.roles_glob k x,
  )

  added_resources :
      (k : Str) (x : ℕ)
      → glob_filed B L k x added.resource ≡ key_is L (resource_key (get_binding B L x added)) k
  unfolding add_binding
  added_resources k x = ground (
    arith,
    get_binding-add_binding x,
    new_id_lem.0,
    v.resources k x,
    ==_iff new_id x,
    filed-glob_set B L b.resource_of new_id idx.resource v.resources_glob k x,
  )

  added_actions :
      (k : Str) (x : ℕ)
      → glob_filed B L k x added.action ≡ key_is L (action_key (get_binding B L x added)) k
  unfolding add_binding
  added_actions k x = ground (
    arith,
    get_binding-add_binding x,
    new_id_lem.0,
    v.actions k x,
    ==_iff new_id x,
    filed-glob_set B L b.action_of new_id idx.action v.actions_glob k x,
  )

  added_allow_sets :
      (x : ℕ) → B.contains x added.allow_actions_bitmap ≡ allows_set (get_binding B L x added)
  unfolding add_binding
  added_allow_sets x = ground (
    arith,
    get_binding-add_binding x,
    new_id_lem.0,
    v.allow_sets x,
    ==_iff new_id x,
    B.contains-add new_id idx.allow_actions_bitmap x,
  )

  added_universe : (x : ℕ) → B.contains x added.universe ≡ is_some (get_binding B L x added)
  unfolding add_binding
  added_universe x = ground (
    arith,
    get_binding-add_binding x,
    new_id_lem.0,
    v.universe x,
    B.contains-add new_id idx.universe x,
  )

  added_numbered : (x : ℕ) (r : Handle) → get_binding B L x added ≡ some r → r.id ≡ x
  added_numbered x r e = elim (Bool-cases (new_id == x)) [
    | inl h ↦ ground (arith, get_binding-add_binding x, h, e, ==_iff new_id x)
    | inr h ↦ v.numbered x r (ground (arith, get_binding-add_binding x, h, e))
  ]

  added_free :
      (x : ℕ)
      → any (λ y. x == y) added.free_ids ≡ true
      → (x < length added.bindings) × (get_binding B L x added ≡ none)
  unfolding add_binding
  added_free x h =
      let rest = rest_lem idx.free_ids (uint32 (length idx.bindings)) x v.free_distinct h in
      let old = v.free_slots x rest.0 in
      (
        ground (
          arith,
          old.0,
          length-place new_id (some (record b { id = new_id })) idx.bindings new_id_lem.1,
        ),
        ground (arith, get_binding-add_binding x, rest.1, old.1),
      )

  added_few : length added.bindings ≤ word32
  unfolding add_binding
  added_few =
      ground (
        arith,
        room,
        length-place new_id (some (record b { id = new_id })) idx.bindings new_id_lem.1,
      )

  added_keys : length added.eval_keys ≡ length added.bindings
  unfolding add_binding
  added_keys = ground (
    arith,
    length-place new_id (some (record b { id = new_id })) idx.bindings new_id_lem.1,
    length-set_at new_id key idx.eval_keys,
    length-append idx.eval_keys (key ∷ []),
    v.all_keys,
  )

  added_globs :
      (d : GlobDimension B L) (f : Str)
      → IsGlobDimension B L d
      → IsGlobDimension B L (if is_empty f then d else glob_set B L f new_id d)
  added_globs d f g =
      if_either (IsGlobDimension B L) (is_empty f) d (glob_set B L f new_id d) g
        (glob_set-IsGlobDimension B L f new_id d g)

  added_action_globs : IsGlobDimension B L added.action
  unfolding add_binding
  added_action_globs =
      if_either (IsGlobDimension B L) (is_some b.allow_actions || is_empty b.action_of) idx.action
        (glob_set B L b.action_of new_id idx.action) v.actions_glob
        (glob_set-IsGlobDimension B L b.action_of new_id idx.action v.actions_glob)

  added-IsLazy : IsLazy B added.principal
  unfolding add_binding
  added-IsLazy =
      if_either (IsLazy B) (is_empty b.principal_of) idx.principal
        (lazy_add B b.principal_of new_id idx.principal) v.principals_lazy
        (lazy_add-IsLazy B b.principal_of new_id idx.principal v.principals_lazy)

  -- addBinding keeps an index well-formed that has fewer than 2 ^ 32 slots, whether it reuses a free
  -- number or takes a new one.
  pub add_binding-IsIndex : IsIndex B L added
  unfolding add_binding
  add_binding-IsIndex = record {
    numbered = added_numbered;
    free_slots = added_free;
    free_distinct = rest-Distinct idx.free_ids (uint32 (length idx.bindings)) v.free_distinct;
    few = added_few;
    all_keys = added_keys;
    universe = added_universe;
    allow_sets = added_allow_sets;
    scopes = added_scopes;
    versions = added_versions;
    kinds = added_kinds;
    principals_lazy = added-IsLazy;
    principals = added_principals;
    roles_glob = added_globs idx.role b.role_of v.roles_glob;
    roles = added_roles;
    resources_glob = added_globs idx.resource b.resource_of v.resources_glob;
    resources = added_resources;
    actions_glob = added_action_globs;
    actions = added_actions;
  }

  -- The evaluation key of the number given is the row's.
  pub eval_key-add_binding : (new_id == no_eval_key) ≡ false → eval_key B L new_id added ≡ key
  unfolding eval_key add_binding
  eval_key-add_binding h = ground (
    arith,
    h,
    new_id_lem.1,
    v.all_keys,
    get_elem?-set_at new_id key idx.eval_keys new_id,
    get_elem?-append_last idx.eval_keys key new_id,
  )
