-- ===== src/RuleIndex/Removals.antt =====
-- removeBinding keeps the invariant of an index and takes the row out.
use access_management.Prelude.{
  ℕ, ◌≡◌, ◌<◌, true, ◌||◌, Option, none, some, ◌==◌, ==_iff, is_some, if◌then◌else◌, arith, Str,
  length, length-set_at, any, get_elem?-set_at, get_elem?-beyond, is_empty, str_comparable,
  str_eq_iff, if_either,
}
use access_management.Check.Types.{Kind}
use access_management.RuleIndex.SetOps.{SetOps}
use access_management.RuleIndex.Dimension.{filed, filed-dimension_remove}
use access_management.RuleIndex.Lazy.{lazy_filed, lazy_remove-IsLazy, filed-lazy_remove}
use access_management.RuleIndex.Globs.{GlobLibrary, glob_remove}
use access_management.RuleIndex.GlobFiling.{
  glob_filed, key_is, IsGlobDimension, glob_remove-IsGlobDimension, filed-glob_remove,
}
use access_management.RuleIndex.Rows.{
  Handle, BitmapIndex, get_binding, kind_comparable, blank_key, remove_binding, free_id,
}
use access_management.RuleIndex.Indexes.{
  IsIndex, Distinct, equals, has_kind, allows_set, scope_key, version_key, role_key, resource_key,
  principal_key, action_key,
}

module _ (B : SetOps) (L : GlobLibrary) (b : Handle) (idx : BitmapIndex B L) (v : IsIndex B L idx)
    (live : get_binding B L b.id idx ≡ some b) where
  abbrev removed : BitmapIndex B L
  removed = remove_binding B L b idx

  abbrev row : ℕ → Option Handle
  row x = get_binding B L x idx

  -- The rows are those before without the one removed.
  pub get_binding-remove_binding :
      (x : ℕ) → get_binding B L x removed ≡ (if b.id == x then none else row x)
  unfolding get_binding remove_binding free_id
  get_binding-remove_binding x = ground (
    arith,
    get_elem?-set_at b.id none idx.bindings x,
    get_elem?-beyond idx.bindings x,
    ==_iff b.id x,
  )

  removed_scopes :
      (k : Str) (x : ℕ)
      → filed B k x removed.scope ≡ equals (scope_key (get_binding B L x removed)) k
  unfolding remove_binding free_id
  removed_scopes k x = ground (
    arith,
    get_binding-remove_binding x,
    live,
    v.scopes k x,
    ==_iff b.id x,
    str_eq_iff b.scope_of k,
    filed-dimension_remove B b.scope_of b.id idx.scope k x,
  )

  removed_versions :
      (k : Str) (x : ℕ)
      → filed B k x removed.version ≡ equals (version_key (get_binding B L x removed)) k
  unfolding remove_binding free_id
  removed_versions k x = ground (
    arith,
    get_binding-remove_binding x,
    live,
    v.versions k x,
    ==_iff b.id x,
    str_eq_iff b.version_of k,
    filed-dimension_remove B b.version_of b.id idx.version k x,
  )

  removed_kinds :
      (k : Kind) (x : ℕ) → filed B k x removed.policy_kind ≡ has_kind (get_binding B L x removed) k
  unfolding remove_binding free_id
  removed_kinds k x = ground (
    arith,
    get_binding-remove_binding x,
    live,
    v.kinds k x,
    ==_iff b.id x,
    filed-dimension_remove B b.policy_kind b.id idx.policy_kind k x,
  )

  removed_principals :
      (k : Str) (x : ℕ)
      → lazy_filed B k x removed.principal ≡ equals (principal_key (get_binding B L x removed)) k
  unfolding remove_binding free_id
  removed_principals k x = ground (
    arith,
    get_binding-remove_binding x,
    live,
    v.principals k x,
    ==_iff b.id x,
    str_eq_iff b.principal_of k,
    filed-lazy_remove B b.principal_of b.id idx.principal k x v.principals_lazy,
  )

  removed_roles :
      (k : Str) (x : ℕ)
      → glob_filed B L k x removed.role ≡ key_is L (role_key (get_binding B L x removed)) k
  unfolding remove_binding free_id
  removed_roles k x = ground (
    arith,
    get_binding-remove_binding x,
    live,
    v.roles k x,
    ==_iff b.id x,
    str_eq_iff b.role_of k,
    filed-glob_remove B L b.role_of b.id idx.role v.roles_glob k x,
  )

  removed_resources :
      (k : Str) (x : ℕ)
      → glob_filed B L k x removed.resource ≡ key_is L (resource_key (get_binding B L x removed)) k
  unfolding remove_binding free_id
  removed_resources k x = ground (
    arith,
    get_binding-remove_binding x,
    live,
    v.resources k x,
    ==_iff b.id x,
    str_eq_iff b.resource_of k,
    filed-glob_remove B L b.resource_of b.id idx.resource v.resources_glob k x,
  )

  removed_actions :
      (k : Str) (x : ℕ)
      → glob_filed B L k x removed.action ≡ key_is L (action_key (get_binding B L x removed)) k
  unfolding remove_binding free_id
  removed_actions k x = ground (
    arith,
    get_binding-remove_binding x,
    live,
    v.actions k x,
    ==_iff b.id x,
    str_eq_iff b.action_of k,
    filed-glob_remove B L b.action_of b.id idx.action v.actions_glob k x,
  )

  removed_allow_sets :
      (x : ℕ) → B.contains x removed.allow_actions_bitmap ≡ allows_set (get_binding B L x removed)
  unfolding remove_binding free_id
  removed_allow_sets x = ground (
    arith,
    get_binding-remove_binding x,
    live,
    v.allow_sets x,
    ==_iff b.id x,
    B.contains-remove b.id idx.allow_actions_bitmap x,
  )

  removed_universe : (x : ℕ) → B.contains x removed.universe ≡ is_some (get_binding B L x removed)
  unfolding remove_binding free_id
  removed_universe x = ground (
    arith,
    get_binding-remove_binding x,
    live,
    v.universe x,
    B.contains-remove b.id idx.universe x,
  )

  in_range : b.id < length idx.bindings
  unfolding get_binding
  in_range = ground (arith, live, get_elem?-beyond idx.bindings b.id)

  removed_free :
      (x : ℕ)
      → any (λ y. x == y) removed.free_ids ≡ true
      → (x < length removed.bindings) × (get_binding B L x removed ≡ none)
  unfolding remove_binding free_id
  removed_free x h = (
    ground
        (arith, h, in_range, v.free_slots x, length-set_at b.id none idx.bindings, ==_iff x b.id),
    ground (arith, h, get_binding-remove_binding x, v.free_slots x, ==_iff x b.id, ==_iff b.id x),
  )

  -- removeBinding keeps the invariant.
  pub remove_binding-IsIndex : IsIndex B L removed
  unfolding remove_binding free_id Distinct
  remove_binding-IsIndex = record {
    numbered = λ x r e. v.numbered x r (ground (arith, e, get_binding-remove_binding x));
    free_slots = removed_free;
    free_distinct = (ground (arith, v.free_slots b.id, live), v.free_distinct);
    few = omega (arith, v.few, length-set_at b.id none idx.bindings);
    all_keys = omega (
      arith,
      v.all_keys,
      length-set_at b.id blank_key idx.eval_keys,
      length-set_at b.id none idx.bindings,
    );
    universe = removed_universe;
    allow_sets = removed_allow_sets;
    scopes = removed_scopes;
    versions = removed_versions;
    kinds = removed_kinds;
    principals_lazy = lazy_remove-IsLazy B b.principal_of b.id idx.principal v.principals_lazy;
    principals = removed_principals;
    roles_glob = glob_remove-IsGlobDimension B L b.role_of b.id idx.role v.roles_glob;
    roles = removed_roles;
    resources_glob =
        glob_remove-IsGlobDimension B L b.resource_of b.id idx.resource v.resources_glob;
    resources = removed_resources;
    actions_glob =
        if_either (IsGlobDimension B L) (is_some b.allow_actions || is_empty b.action_of) idx.action
          (glob_remove B L b.action_of b.id idx.action) v.actions_glob
          (glob_remove-IsGlobDimension B L b.action_of b.id idx.action v.actions_glob);
    actions = removed_actions;
  }
