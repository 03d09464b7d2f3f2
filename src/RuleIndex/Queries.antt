-- ===== src/RuleIndex/Queries.antt =====
-- internal/ruletable/index/index.go: ResourceKind, resourceQuery, Query, ScopedResourceExists and
-- ScopedPrincipalExists, as far as they select row numbers.
use access_management.Prelude.{
  ℕ, Bool, true, false, not, ◌&&◌, Option, none, some, List, [], ◌∷◌, is_some, if◌then◌else◌, Str,
  str_eq, lookup, is_empty, str_comparable,
}
use access_management.Namer.Sanitize.{sanitize}
use access_management.Check.Types.{Kind, kind_unspecified, principal, resource}
use access_management.RuleIndex.SetOps.{SetOps}
use access_management.RuleIndex.Pool.{union_of, and2, and_into}
use access_management.RuleIndex.Dimension.{append_found}
use access_management.RuleIndex.Lazy.{lazy_bitmap}
use access_management.RuleIndex.Globs.{GlobLibrary, glob_query, glob_query_multiple, matching_globs}
use access_management.RuleIndex.Rows.{Handle, get_binding, BitmapIndex, kind_eq, kind_comparable}

-- ResourceKind
pub record ResourceKind : Type 0 where
  pub raw : Str
  pub sanitized : Str

-- NewResourceKind
unfoldable pub new_resource_kind : Str → ResourceKind
new_resource_kind kind = record {
  raw = kind;
  sanitized = if str_eq (sanitize kind) kind then [] else sanitize kind;
}

module _ (B : SetOps) where
  -- The AND of the dimensions that are filtered, `universe` when there is none.
  unfoldable pub intersection_of : B.Set → List B.Set → B.Set
  intersection_of universe [] = universe
  intersection_of universe (s ∷ []) = s
  intersection_of universe (s ∷ t ∷ []) = and2 B s t
  intersection_of universe (s ∷ t ∷ u ∷ dims) = and_into B s (t ∷ u ∷ dims)

  -- A set or nil
  abbrev pub some_sets : List B.Set → Option B.Set
  some_sets [] = none
  some_sets (s ∷ sets) = some (union_of B (s ∷ sets))

  abbrev pub masked : Option B.Set → Option B.Set → Option B.Set
  masked mask none = none
  masked none (some s) = some s
  masked (some m) (some s) = some (and2 B s m)

  abbrev pub append_nonempty : Option B.Set → List B.Set → List B.Set
  append_nonempty none parts = parts
  append_nonempty (some s) parts = if B.is_empty s then parts else s ∷ parts

  -- The dimensions of Query. `some none` filters nothing; `none` is an early `return buf`.
  abbrev pub required : Option B.Set → Option (Option B.Set)
  required none = none
  required (some s) = some (some s)

  abbrev pub nonempty : B.Set → Option (Option B.Set)
  nonempty s = if B.is_empty s then none else some (some s)

  abbrev pub given_sets : List (Option B.Set) → List B.Set
  given_sets [] = []
  given_sets (none ∷ dims) = given_sets dims
  given_sets (some s ∷ dims) = s ∷ given_sets dims

  -- baseBM of the dimensions principal, scope, version, resource, role and policyKind, in the order in
  -- which Query looks them up; it returns early when one of them finds nothing, and when their AND is empty.
  unfoldable pub base_of :
      (universe : B.Set) (principals scopes versions resources roles kinds : Option (Option B.Set))
      → Option B.Set
  base_of universe (some p) (some s) (some v) (some r) (some o) (some k) =
      let base = intersection_of universe (given_sets (v ∷ s ∷ r ∷ o ∷ k ∷ p ∷ [])) in
      if B.is_empty base then none else some base
  base_of universe p s v r o k = none

  module _ (L : GlobLibrary) where
    -- The mask of principal rows and whether globs are matched against the sanitized kind.
    unfoldable pub sanitized_globs : Kind → BitmapIndex B L → Option B.Set × Bool
    sanitized_globs resource idx = (none, false)
    sanitized_globs principal idx = (none, true)
    sanitized_globs k idx =
        (lookup principal idx.policy_kind, is_some (lookup principal idx.policy_kind))

    abbrev pub only_sanitized : ResourceKind → Bool → L.Pattern → Bool
    only_sanitized kind match_sanitized g =
        not (L.matches g kind.raw) && (match_sanitized && L.matches g kind.sanitized)

    -- resourceQuery
    unfoldable pub resource_query : ResourceKind → Kind → BitmapIndex B L → B.Set
    unfolding sanitized_globs
    resource_query kind k idx =
        let gd = idx.resource in
        let mask = sanitized_globs k idx in
        let only = matching_globs B L (only_sanitized kind mask.1) gd.compiled gd.globs [] in
        let globs = append_nonempty (masked mask.0 (some_sets only)) [] in
        if is_empty kind.sanitized
        then glob_query B L kind.raw gd
        else union_of B (
            append_found B (lazy_bitmap B kind.raw gd.literals) (
              append_found B (lazy_bitmap B kind.sanitized gd.literals)
                (matching_globs B L (λ g. L.matches g kind.raw) gd.compiled gd.globs globs)))

    unfoldable pub principal_dimension : Str → BitmapIndex B L → Option (Option B.Set)
    principal_dimension id idx =
        if is_empty id then some none else required (lazy_bitmap B id idx.principal)

    unfoldable pub version_dimension : Str → BitmapIndex B L → Option (Option B.Set)
    version_dimension v idx = if is_empty v then some none else required (lookup v idx.version)

    unfoldable pub resource_dimension :
        ResourceKind → Kind → BitmapIndex B L → Option (Option B.Set)
    resource_dimension kind k idx =
        if is_empty kind.raw then some none else nonempty (resource_query kind k idx)

    unfoldable pub role_dimension : List Str → BitmapIndex B L → Option (Option B.Set)
    role_dimension roles idx =
        if is_empty roles then some none else nonempty (glob_query_multiple B L roles idx.role)

    unfoldable pub kind_dimension : Kind → BitmapIndex B L → Option (Option B.Set)
    kind_dimension k idx =
        if kind_eq k kind_unspecified then some none else required (lookup k idx.policy_kind)

    unfoldable pub with_action : Str → BitmapIndex B L → B.Set → B.Set
    with_action action idx base =
        let actions = glob_query B L action idx.action in
        if is_empty action
        then base
        else if B.is_empty actions
        then B.empty
        else and2 B base actions

    unfoldable pub selected : Str → BitmapIndex B L → Option B.Set → B.Set
    selected action idx none = B.empty
    selected action idx (some base) = with_action action idx base

    -- Query: resultBM, the row numbers of the regular bindings that it appends to the buffer; empty
    -- where it returns early.
    unfoldable pub query_rows :
        Str → ResourceKind → Str → Str → List Str → Kind → Str → BitmapIndex B L → B.Set
    query_rows version kind scope action roles k principal_id idx =
        if B.is_empty idx.universe
        then B.empty
        else selected action idx (
            base_of idx.universe (principal_dimension principal_id idx)
              (required (lookup scope idx.scope)) (version_dimension version idx)
              (resource_dimension kind k idx) (role_dimension roles idx) (kind_dimension k idx))

    abbrev pub append_row : Option Handle → List Handle → List Handle
    append_row none rows = rows
    append_row (some b) rows = b ∷ rows

    -- The loop of Query over the numbers that the iterator gives.
    unfoldable pub rows_of : List ℕ → BitmapIndex B L → List Handle
    rows_of [] idx = []
    rows_of (id ∷ ids) idx = append_row (get_binding B L id idx) (rows_of ids idx)

    -- Query: the regular bindings, which it appends to the buffer after any denies for role policies.
    unfoldable pub query_regular :
        Str → ResourceKind → Str → Str → List Str → Kind → Str → BitmapIndex B L → List Handle
    query_regular version kind scope action roles k principal_id idx =
        rows_of (B.ids (query_rows version kind scope action roles k principal_id idx)) idx
