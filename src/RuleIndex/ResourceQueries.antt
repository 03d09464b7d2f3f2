-- ===== src/RuleIndex/ResourceQueries.antt =====
-- Which rows resourceQuery finds.
use access_management.Prelude.{
  ℕ, ◌≡◌, refl, Bool, true, false, ◌&&◌, ◌||◌, Option, none, some, List, [], ◌∷◌, any, arith,
  is_empty, Option-cases, inl, inr, Bool-cases, str_comparable,
}
use access_management.Check.Types.{
  Kind, kind_unspecified, derived_roles, export_variables, principal, resource, role_policy,
  export_constants,
}
use access_management.RuleIndex.SetOps.{SetOps}
use access_management.RuleIndex.Pool.{union_of, contains-union_of, contains-and2}
use access_management.RuleIndex.Dimension.{filed, set_has, append_found}
use access_management.RuleIndex.Lazy.{lazy_bitmap, contains-lazy_bitmap}
use access_management.RuleIndex.Globs.{
  GlobLibrary, get_or_compile_glob, matches_glob, matching_globs,
}
use access_management.RuleIndex.GlobFiling.{key_matches, field_matches}
use access_management.RuleIndex.GlobQueries.{
  any-append_found, any-matching_globs, any_filed-pattern, filed-literal, pattern_passes,
  literal_is, contains-glob_query,
}
use access_management.RuleIndex.Rows.{Handle, BitmapIndex, get_binding, kind_comparable}
use access_management.RuleIndex.Indexes.{IsIndex, resource_key}
use access_management.RuleIndex.Queries.{
  ResourceKind, resource_query, sanitized_globs, only_sanitized, some_sets, masked, append_nonempty,
}
use access_management.RuleIndex.Matches.{reads_sanitized, resource_matches, key_matches-given}

module _ (B : SetOps) (x : ℕ) where
  abbrev mask_has : Option B.Set → Bool
  mask_has none = true
  mask_has (some m) = B.contains x m

  contains-masked :
      (mask : Option B.Set) (sets : List B.Set)
      → set_has B x (masked B mask (some_sets B sets))
        ≡ (mask_has mask && any (λ s. B.contains x s) sets)
  contains-masked none [] = refl
  contains-masked (some m) [] = ground arith
  contains-masked none (s ∷ sets) = contains-union_of B x (s ∷ sets)
  contains-masked (some m) (s ∷ sets) =
      ground (arith, contains-and2 B (union_of B (s ∷ sets)) m x, contains-union_of B x (s ∷ sets))

  any-append_nonempty :
      (o : Option B.Set) (parts : List B.Set)
      → any (λ s. B.contains x s) (append_nonempty B o parts)
        ≡ (set_has B x o || any (λ s. B.contains x s) parts)
  any-append_nonempty none parts = refl
  any-append_nonempty (some s) parts = ground (arith, B.contains-is_empty s x)

  module _ (L : GlobLibrary) (idx : BitmapIndex B L) (v : IsIndex B L idx) where
    abbrev row : Option Handle
    row = get_binding B L x idx

    -- The mask and the flag let through the rows whose globs are matched against the sanitized kind.
    reads_sanitized-lem :
        (k : Kind) (b : Handle) (p : Bool)
        → row ≡ some b
        → (mask_has (sanitized_globs B L k idx).0 && ((sanitized_globs B L k idx).1 && p))
          ≡ (reads_sanitized k b && p)
    unfolding sanitized_globs filed
    reads_sanitized-lem resource b p h = refl
    reads_sanitized-lem principal b p h = refl
    reads_sanitized-lem kind_unspecified b p h = ground (arith, v.kinds principal x, h)
    reads_sanitized-lem derived_roles b p h = ground (arith, v.kinds principal x, h)
    reads_sanitized-lem export_variables b p h = ground (arith, v.kinds principal x, h)
    reads_sanitized-lem role_policy b p h = ground (arith, v.kinds principal x, h)
    reads_sanitized-lem export_constants b p h = ground (arith, v.kinds principal x, h)

    -- The rows found, by what their key passes.
    resource_query-parts :
        (kind : ResourceKind) (k : Kind)
        → is_empty kind.sanitized ≡ false
        → B.contains x (resource_query B L kind k idx) ≡ (
            literal_is (resource_key row) kind.raw
            || (literal_is (resource_key row) kind.sanitized
                || (pattern_passes L (λ g. L.matches g kind.raw) (resource_key row)
                    || (mask_has (sanitized_globs B L k idx).0
                        && pattern_passes L
                            (only_sanitized B L kind (sanitized_globs B L k idx).1)
                            (resource_key row)))))
    unfolding resource_query
    resource_query-parts kind k h =
        let gd = idx.resource in
        let mask = sanitized_globs B L k idx in
        let test = only_sanitized B L kind mask.1 in
        let only = matching_globs B L test gd.compiled gd.globs [] in
        let globs = append_nonempty B (masked B mask.0 (some_sets B only)) [] in
        let raws = matching_globs B L (λ g. L.matches g kind.raw) gd.compiled gd.globs globs in
        let literals = append_found B (lazy_bitmap B kind.sanitized gd.literals) raws in
        rw h (
          ground (
            arith,
            contains-union_of B x (append_found B (lazy_bitmap B kind.raw gd.literals) literals),
            any-append_found B L x (lazy_bitmap B kind.raw gd.literals) literals,
            any-append_found B L x (lazy_bitmap B kind.sanitized gd.literals) raws,
            any-matching_globs B L x (λ g. L.matches g kind.raw) gd.compiled gd.globs globs
                v.resources_glob.globs_lazy,
            any-matching_globs B L x test gd.compiled gd.globs [] v.resources_glob.globs_lazy,
            any-append_nonempty (masked B mask.0 (some_sets B only)) [],
            contains-masked mask.0 only,
            contains-lazy_bitmap B kind.raw gd.literals x v.resources_glob.literals_lazy,
            contains-lazy_bitmap B kind.sanitized gd.literals x v.resources_glob.literals_lazy,
            any_filed-pattern B L x gd v.resources_glob (resource_key row)
                (λ g. L.matches g kind.raw) (λ k. v.resources k x),
            any_filed-pattern B L x gd v.resources_glob (resource_key row) test
                (λ k. v.resources k x),
            filed-literal B L x gd v.resources_glob (resource_key row) kind.raw
                (λ k. v.resources k x),
            filed-literal B L x gd v.resources_glob (resource_key row) kind.sanitized
                (λ k. v.resources k x),
          ))

    sanitized_query :
        (kind : ResourceKind) (k : Kind) (b : Handle)
        → row ≡ some b
        → is_empty kind.sanitized ≡ false
        → B.contains x (resource_query B L kind k idx) ≡ resource_matches L kind k b
    unfolding field_matches matches_glob
    sanitized_query kind k b e h =
        let parts = resource_query-parts kind k h in
        elim (Option-cases (get_or_compile_glob L b.resource_of)) [
          | inl fails ↦ rw fails (ground (arith, fails, e, h, parts))
          | inr found ↦
              let reads = reads_sanitized-lem k b (L.matches found.0 kind.sanitized) e in
              rw found.1 (ground (arith, found.1, e, h, parts, reads))
        ]

    raw_query_key :
        (kind : ResourceKind) (k : Kind)
        → is_empty kind.sanitized ≡ true
        → B.contains x (resource_query B L kind k idx) ≡ key_matches L (resource_key row) kind.raw
    unfolding resource_query
    raw_query_key kind k h = rw h (
        contains-glob_query B L x idx.resource (resource_key row) v.resources_glob
          (λ k. v.resources k x) kind.raw)

    raw_query :
        (kind : ResourceKind) (k : Kind) (b : Handle)
        → row ≡ some b
        → is_empty kind.sanitized ≡ true
        → B.contains x (resource_query B L kind k idx) ≡ resource_matches L kind k b
    raw_query kind k b e h =
        ground (arith, raw_query_key kind k h, e, h, key_matches-given L b.resource_of kind.raw)

    -- resourceQuery finds a row when its resource matches the kind as written, or the sanitized kind,
    -- as a literal or as a pattern of a principal policy.
    pub contains-resource_query :
        (kind : ResourceKind) (k : Kind) (b : Handle)
        → row ≡ some b
        → B.contains x (resource_query B L kind k idx) ≡ resource_matches L kind k b
    contains-resource_query kind k b e = elim (Bool-cases (is_empty kind.sanitized)) [
      | inr h ↦ sanitized_query kind k b e h
      | inl h ↦ raw_query kind k b e h
    ]

    pub resource_query-none :
        (kind : ResourceKind) (k : Kind)
        → row ≡ none
        → B.contains x (resource_query B L kind k idx) ≡ false
    resource_query-none kind k e = elim (Bool-cases (is_empty kind.sanitized)) [
      | inr h ↦ ground (arith, resource_query-parts kind k h, e)
      | inl h ↦ ground (arith, raw_query_key kind k h, e)
    ]
