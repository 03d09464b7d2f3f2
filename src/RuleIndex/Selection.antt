-- ===== src/RuleIndex/Selection.antt =====
-- Query selects exactly the rows that match what is asked for.
use access_management.Prelude.{
  ℕ, ◌≡◌, ◌∙◌, refl, Bool, true, false, ◌&&◌, ◌||◌, Option, none, some, List, [], ◌∷◌, any, all,
  arith, if◌then◌else◌, Str, str_eq, is_empty, lookup, Option-cases, inl, inr, Bool-cases,
  str_comparable, ap,
}
use access_management.Check.Types.{Kind, kind_unspecified}
use access_management.RuleIndex.SetOps.{SetOps}
use access_management.RuleIndex.Pool.{contains-and2, contains-and_into}
use access_management.RuleIndex.Dimension.{filed, set_has}
use access_management.RuleIndex.Lazy.{lazy_bitmap, contains-lazy_bitmap}
use access_management.RuleIndex.Globs.{GlobLibrary, glob_query, glob_query_multiple}
use access_management.RuleIndex.GlobFiling.{key_matches}
use access_management.RuleIndex.GlobQueries.{contains-glob_query, contains-glob_query_multiple}
use access_management.RuleIndex.Rows.{Handle, BitmapIndex, get_binding, kind_eq, kind_comparable}
use access_management.RuleIndex.Indexes.{IsIndex, equals, scope_key, role_key, action_key}
use access_management.RuleIndex.Queries.{
  ResourceKind, intersection_of, required, nonempty, given_sets, base_of, selected, with_action,
  query_rows, principal_dimension, version_dimension, resource_dimension, role_dimension,
  kind_dimension, resource_query,
}
use access_management.RuleIndex.Matches.{
  asked, row_matches, resource_matches, action_matches, value_matches, key_matches-given,
  equals-given,
}
use access_management.RuleIndex.ResourceQueries.{contains-resource_query}

module _ (B : SetOps) (x : ℕ) where
  contains-intersection_of :
      (universe : B.Set) (dims : List B.Set)
      → B.contains x (intersection_of B universe dims)
        ≡ (if is_empty dims then B.contains x universe else all (λ s. B.contains x s) dims)
  unfolding intersection_of
  contains-intersection_of u [] = refl
  contains-intersection_of u (s ∷ []) = ground arith
  contains-intersection_of u (s ∷ t ∷ []) = ground (arith, contains-and2 B s t x)
  contains-intersection_of u (s ∷ t ∷ w ∷ dims) = contains-and_into B x s (t ∷ w ∷ dims)

  -- Whether a dimension lets a row through.
  abbrev passes : Option (Option B.Set) → Bool
  passes none = false
  passes (some none) = true
  passes (some (some s)) = B.contains x s

  passes-required : (o : Option B.Set) → passes (required B o) ≡ set_has B x o
  passes-required none = refl
  passes-required (some s) = refl

  passes-nonempty : (s : B.Set) → passes (nonempty B s) ≡ B.contains x s
  passes-nonempty s = elim (Bool-cases (B.is_empty s)) [
    | inl e ↦ rw e (ground (arith, B.contains-is_empty s x))
    | inr e ↦ rw e refl
  ]

  abbrev through : Option B.Set → Bool
  through none = true
  through (some s) = B.contains x s

  passes-through : (o : Option B.Set) → passes (some o) ≡ through o
  passes-through none = refl
  passes-through (some s) = refl

  all-given_sets :
      (dims : List (Option B.Set))
      → all (λ s. B.contains x s) (given_sets B dims) ≡ all through dims
  all-given_sets [] = refl
  all-given_sets (none ∷ dims) = all-given_sets dims
  all-given_sets (some s ∷ dims) = ground (arith, all-given_sets dims)

  scope_given :
      (v : Option B.Set) (s : B.Set) (dims : List (Option B.Set))
      → is_empty (given_sets B (v ∷ some s ∷ dims)) ≡ false
  scope_given none s dims = refl
  scope_given (some v) s dims = refl

  -- The base is the conjunction of the dimensions, of which the scope is always filtered.
  set_has-base_of :
      (u : B.Set) (p : Option (Option B.Set)) (s : Option B.Set) (v r o k : Option (Option B.Set))
      → set_has B x (base_of B u p (required B s) v r o k)
        ≡ (passes v && (set_has B x s && (passes r && (passes o && (passes k && passes p)))))
  unfolding base_of
  set_has-base_of u none s v r o k = ground arith
  set_has-base_of u (some p) none v r o k = ground arith
  set_has-base_of u (some p) (some s) none r o k = ground arith
  set_has-base_of u (some p) (some s) (some v) none o k = ground arith
  set_has-base_of u (some p) (some s) (some v) (some r) none k = ground arith
  set_has-base_of u (some p) (some s) (some v) (some r) (some o) none = ground arith
  set_has-base_of u (some p) (some s) (some v) (some r) (some o) (some k) =
      let dims = v ∷ some s ∷ r ∷ o ∷ k ∷ p ∷ [] in
      let base = intersection_of B u (given_sets B dims) in
      ground (
        arith,
        contains-intersection_of u (given_sets B dims),
        all-given_sets dims,
        scope_given v s (r ∷ o ∷ k ∷ p ∷ []),
        B.contains-is_empty base x,
        passes-through v,
        passes-through r,
        passes-through o,
        passes-through k,
        passes-through p,
      )

  module _ (L : GlobLibrary) (idx : BitmapIndex B L) (v : IsIndex B L idx) where
    abbrev row : Option Handle
    row = get_binding B L x idx

    scope_lem : (scope : Str) → set_has B x (lookup scope idx.scope) ≡ equals (scope_key row) scope
    unfolding filed
    scope_lem scope = v.scopes scope x

    set_has-with_action :
        (action : Str) (base : Option B.Set)
        → B.contains x (selected B L action idx base)
          ≡ (set_has B x base && (is_empty action || key_matches L (action_key row) action))
    unfolding with_action selected
    set_has-with_action action none = B.contains-empty x
    set_has-with_action action (some s) =
        let actions = glob_query B L action idx.action in
        ground (
          arith,
          contains-and2 B s actions x,
          B.contains-empty x,
          B.contains-is_empty actions x,
          contains-glob_query B L x idx.action (action_key row) v.actions_glob (λ k. v.actions k x)
              action,
        )

    module _ (b : Handle) (e : row ≡ some b) where
      version_lem :
          (version : Str)
          → passes (version_dimension B L version idx)
            ≡ (is_empty version || str_eq b.version_of version)
      unfolding filed version_dimension
      version_lem version = ground (
        arith,
        passes-required (lookup version idx.version),
        v.versions version x,
        e,
        equals-given b.version_of version,
      )

      principal_lem :
          (id : Str)
          → passes (principal_dimension B L id idx) ≡ (is_empty id || str_eq b.principal_of id)
      unfolding principal_dimension
      principal_lem id = ground (
        arith,
        passes-required (lazy_bitmap B id idx.principal),
        v.principals id x,
        e,
        contains-lazy_bitmap B id idx.principal x v.principals_lazy,
        equals-given b.principal_of id,
      )

      kind_lem :
          (k : Kind)
          → passes (kind_dimension B L k idx)
            ≡ (kind_eq k kind_unspecified || kind_eq b.policy_kind k)
      unfolding filed kind_dimension
      kind_lem k = ground (arith, passes-required (lookup k idx.policy_kind), v.kinds k x, e)

      resource_lem :
          (kind : ResourceKind) (k : Kind)
          → passes (resource_dimension B L kind k idx)
            ≡ (is_empty kind.raw || resource_matches L kind k b)
      unfolding resource_dimension
      resource_lem kind k = ground (
        arith,
        passes-nonempty (resource_query B L kind k idx),
        contains-resource_query B x L idx v kind k b e,
      )

      any_role :
          (roles : List Str)
          → any (λ r. key_matches L (role_key row) r) roles
            ≡ any (λ r. value_matches L b.role_of r) roles
      any_role [] = refl
      any_role (r ∷ roles) = ground (arith, any_role roles, e, key_matches-given L b.role_of r)

      role_lem :
          (roles : List Str)
          → passes (role_dimension B L roles idx)
            ≡ (is_empty roles || any (λ r. value_matches L b.role_of r) roles)
      unfolding role_dimension
      role_lem roles = ground (
        arith,
        passes-nonempty (glob_query_multiple B L roles idx.role),
        any_role roles,
        contains-glob_query_multiple B L x idx.role (role_key row) v.roles_glob (λ k. v.roles k x)
            roles,
      )

      -- A row of the index makes it one that is not empty.
      universe_nonempty : B.is_empty idx.universe ≡ false
      universe_nonempty = elim (Bool-cases (B.is_empty idx.universe)) [
        | inl h ↦ ground (arith, B.contains-is_empty idx.universe x h, v.universe x, e)
        | inr h ↦ h
      ]

      scope_here : (scope : Str) → set_has B x (lookup scope idx.scope) ≡ str_eq b.scope_of scope
      scope_here scope = scope_lem scope ∙ ap (λ (o : Option Handle). equals (scope_key o) scope) e

      action_here :
          (action : Str)
          → (is_empty action || key_matches L (action_key row) action)
            ≡ (is_empty action || action_matches L action b)
      action_here action = ground (arith, e, key_matches-given L b.action_of action)

    -- In an index that satisfies the invariant, the numbers that Query selects are those of the rows that
    -- match what is asked for.
    pub contains-query_rows :
        (version : Str) (kind : ResourceKind) (scope action : Str) (roles : List Str) (k : Kind)
        (principal_id : Str)
        → B.contains x (query_rows B L version kind scope action roles k principal_id idx)
          ≡ asked (row_matches L version kind scope action roles k principal_id) row
    unfolding query_rows row_matches
    contains-query_rows version kind scope action roles k principal_id =
        let principals = principal_dimension B L principal_id idx in
        let versions = version_dimension B L version idx in
        let resources = resource_dimension B L kind k idx in
        let role_sets = role_dimension B L roles idx in
        let kinds = kind_dimension B L k idx in
        let scopes = lookup scope idx.scope in
        let base =
          base_of B idx.universe principals (required B scopes) versions resources role_sets
            kinds in
        let conjunction =
          set_has-base_of idx.universe principals scopes versions resources role_sets kinds in
        elim (Option-cases row) [
          | inl none_here ↦ ground (
            arith,
            none_here,
            set_has-with_action action base,
            conjunction,
            scope_lem scope,
            B.contains-empty x,
          )
          | inr found ↦
              let b = found.0 in
              let e = found.1 in
              rw
                (
                  e,
                  universe_nonempty b e,
                  set_has-with_action action base,
                  conjunction,
                  version_lem b e version,
                  scope_here b e scope,
                  resource_lem b e kind k,
                  role_lem b e roles,
                  kind_lem b e k,
                  principal_lem b e principal_id,
                  action_here b e action,
                )
                refl
        ]
