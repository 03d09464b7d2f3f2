-- ===== src/RuleIndex/Existence.antt =====
-- internal/ruletable/index/index.go: ScopedResourceExists and ScopedPrincipalExists.
use access_management.Prelude.{
  ℕ, ◌≡◌, ◌↔◌, refl, Bool, true, false, not, ◌&&◌, Option, none, some, List, [], ◌∷◌, ◌++◌, any,
  all, arith, if◌then◌else◌, Str, str_eq, is_empty, lookup, Option-cases, inl, inr, str_comparable,
  ap,
}
use access_management.Check.Types.{Kind, principal, resource}
use access_management.RuleIndex.SetOps.{SetOps}
use access_management.RuleIndex.Dimension.{
  filed, set_has, dimension_query_multiple, contains-dimension_query_multiple,
}
use access_management.RuleIndex.Globs.{GlobLibrary}
use access_management.RuleIndex.Rows.{Handle, BitmapIndex, get_binding, kind_eq, kind_comparable}
use access_management.RuleIndex.Indexes.{IsIndex, equals, scope_key}
use access_management.RuleIndex.Queries.{ResourceKind, resource_query}
use access_management.RuleIndex.Matches.{asked, resource_matches}
use access_management.RuleIndex.ResourceQueries.{contains-resource_query}

module _ (B : SetOps) where
  -- The set of a version, those of the other dimensions (an empty one among them ends the search), and
  -- that of the policy kind.
  unfoldable pub exists_in : Option B.Set → List B.Set → Option B.Set → Bool
  exists_in none dims kinds = false
  exists_in (some v) dims none = false
  exists_in (some v) dims (some k) =
      if any (λ s. B.is_empty s) dims then false else B.intersection_non_empty v (dims ++ (k ∷ []))

  module _ (L : GlobLibrary) where
    -- ScopedResourceExists
    unfoldable pub scoped_resource_exists : Str → ResourceKind → List Str → BitmapIndex B L → Bool
    scoped_resource_exists version kind scopes idx =
        if is_empty scopes
        then false
        else exists_in (lookup version idx.version)
            (dimension_query_multiple B scopes idx.scope
              ∷ resource_query B L kind resource idx
              ∷ [])
            (lookup resource idx.policy_kind)

    -- ScopedPrincipalExists
    unfoldable pub scoped_principal_exists : Str → List Str → BitmapIndex B L → Bool
    scoped_principal_exists version scopes idx =
        if is_empty scopes
        then false
        else exists_in (lookup version idx.version)
            (dimension_query_multiple B scopes idx.scope ∷ []) (lookup principal idx.policy_kind)

  -- A row that has every dimension.
  abbrev in_all : Option B.Set → List B.Set → Option B.Set → ℕ → Bool
  in_all v dims k x = set_has B x v && (set_has B x k && all (λ s. B.contains x s) dims)

  empty-all :
      (dims : List B.Set) (x : ℕ)
      → any (λ s. B.is_empty s) dims ≡ true
      → all (λ s. B.contains x s) dims ≡ false
  empty-all [] x h = absurd (ground (arith, h))
  empty-all (s ∷ dims) x h = ground (arith, h, B.contains-is_empty s x, empty-all dims x)

  all-last :
      (dims : List B.Set) (k : B.Set) (x : ℕ)
      → all (λ s. B.contains x s) (dims ++ (k ∷ []))
        ≡ (all (λ s. B.contains x s) dims && B.contains x k)
  all-last [] k x = ground arith
  all-last (s ∷ dims) k x = ground (arith, all-last dims k x)

  pub exists_in_iff :
      (v : Option B.Set) (dims : List B.Set) (k : Option B.Set)
      → (exists_in v dims k ≡ true) ↔ ((x : ℕ) × (in_all v dims k x ≡ true))
  unfolding exists_in
  exists_in_iff none dims k =
      (λ h. absurd (ground (arith, h)), λ found. absurd (ground (arith, found.1)))
  exists_in_iff (some v) dims none =
      (λ h. absurd (ground (arith, h)), λ found. absurd (ground (arith, found.1)))
  exists_in_iff (some v) dims (some k) = (
    λ h.
        let found = (B.intersection_non_empty_iff v (dims ++ (k ∷ []))).0 (ground (arith, h)) in
        (found.0, ground (arith, found.1, all-last dims k found.0)),
    λ found.
        let back =
          (B.intersection_non_empty_iff v (dims ++ (k ∷ []))).1
            (found.0, ground (arith, found.1, all-last dims k found.0)) in
        ground (arith, back, found.1, empty-all dims found.0),
  )

-- The row is of the version and of one of the scopes, and of the kind.
abbrev pub scoped_row : Str → List Str → Kind → Handle → Bool
scoped_row version scopes k b =
    (not (is_empty b.version_of) && str_eq b.version_of version)
    && (kind_eq b.policy_kind k && any (λ s. str_eq b.scope_of s) scopes)

no_scope :
    (version : Str) (k : Kind) (o : Option Handle) → asked (scoped_row version [] k) o ≡ false
no_scope version k none = refl
no_scope version k (some b) = ground arith

-- The row's resource matches the kind, too.
abbrev pub scoped_resource_row : (L : GlobLibrary) → Str → List Str → ResourceKind → Handle → Bool
scoped_resource_row L version scopes kind b =
    scoped_row version scopes resource b && resource_matches L kind resource b

module _ (B : SetOps) (L : GlobLibrary) (idx : BitmapIndex B L) (v : IsIndex B L idx) where
  abbrev row : ℕ → Option Handle
  row x = get_binding B L x idx

  any-scopes :
      (scopes : List Str) (x : ℕ)
      → any (λ s. filed B s x idx.scope) scopes ≡ any (λ s. equals (scope_key (row x)) s) scopes
  any-scopes [] x = refl
  any-scopes (s ∷ scopes) x = ground (arith, any-scopes scopes x, v.scopes s x)

  in_all-scoped :
      (version : Str) (scopes : List Str) (k : Kind) (x : ℕ)
      → in_all B
          (lookup version idx.version)
          (dimension_query_multiple B scopes idx.scope ∷ [])
          (lookup k idx.policy_kind)
          x
        ≡ asked (scoped_row version scopes k) (row x)
  unfolding filed
  in_all-scoped version scopes k x = elim (Option-cases (row x)) [
    | inl none_here ↦ ground (arith, none_here, v.versions version x)
    | inr found ↦ ground (
      arith,
      found.1,
      v.versions version x,
      v.kinds k x,
      any-scopes scopes x,
      ap (λ (o : Option Handle). any (λ s. equals (scope_key o) s) scopes) found.1,
      contains-dimension_query_multiple B scopes idx.scope x,
    )
  ]

  -- ScopedPrincipalExists says whether there is a principal row of the version in one of the scopes.
  pub scoped_principal_exists_iff :
      (version : Str) (scopes : List Str)
      → (scoped_principal_exists B L version scopes idx ≡ true)
        ↔ ((x : ℕ) × (asked (scoped_row version scopes principal) (row x) ≡ true))
  unfolding scoped_principal_exists
  scoped_principal_exists_iff version [] = (
    λ h. absurd (ground (arith, h)),
    λ found. ground (arith, found.1, no_scope version principal (row found.0)),
  )
  scoped_principal_exists_iff version (s ∷ scopes) =
      let both =
        exists_in_iff B (lookup version idx.version)
          (dimension_query_multiple B (s ∷ scopes) idx.scope ∷ [])
          (lookup principal idx.policy_kind) in
      (
        λ h.
            let found = both.0 h in
            (
              found.0,
              ground (arith, found.1, in_all-scoped version (s ∷ scopes) principal found.0),
            ),
        λ found. both.1 (
          found.0,
          ground (arith, found.1, in_all-scoped version (s ∷ scopes) principal found.0),
        ),
      )

  in_all-scoped_resource :
      (version : Str) (scopes : List Str) (kind : ResourceKind) (x : ℕ)
      → in_all B
          (lookup version idx.version)
          (dimension_query_multiple B scopes idx.scope ∷ resource_query B L kind resource idx ∷ [])
          (lookup resource idx.policy_kind)
          x
        ≡ asked (scoped_resource_row L version scopes kind) (row x)
  in_all-scoped_resource version scopes kind x = elim (Option-cases (row x)) [
    | inl none_here ↦ ground (arith, none_here, in_all-scoped version scopes resource x)
    | inr found ↦ ground (
      arith,
      found.1,
      in_all-scoped version scopes resource x,
      ap (asked (scoped_row version scopes resource)) found.1,
      contains-resource_query B x L idx v kind resource found.0 found.1,
    )
  ]

  -- In a well-formed index, ScopedResourceExists says whether there is a resource row of the version in one of the scopes whose
  -- resource matches the kind.
  pub scoped_resource_exists_iff :
      (version : Str) (kind : ResourceKind) (scopes : List Str)
      → (scoped_resource_exists B L version kind scopes idx ≡ true)
        ↔ ((x : ℕ) × (asked (scoped_resource_row L version scopes kind) (row x) ≡ true))
  unfolding scoped_resource_exists
  scoped_resource_exists_iff version kind [] = (
    λ h. absurd (ground (arith, h)),
    λ found. elim (Option-cases (row found.0)) [
      | inl none_here ↦ ground (arith, found.1, none_here)
      | inr b ↦ ground (arith, found.1, b.1)
    ],
  )
  scoped_resource_exists_iff version kind (s ∷ scopes) =
      let dims =
        dimension_query_multiple B (s ∷ scopes) idx.scope
        ∷ resource_query B L kind resource idx
        ∷ [] in
      let both =
        exists_in_iff B (lookup version idx.version) dims (lookup resource idx.policy_kind) in
      (
        λ h.
            let found = both.0 h in
            (
              found.0,
              ground (arith, found.1, in_all-scoped_resource version (s ∷ scopes) kind found.0),
            ),
        λ found. both.1 (
          found.0,
          ground (arith, found.1, in_all-scoped_resource version (s ∷ scopes) kind found.0),
        ),
      )
