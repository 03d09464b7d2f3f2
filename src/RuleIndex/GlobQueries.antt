-- ===== src/RuleIndex/GlobQueries.antt =====
-- Which rows a query of a glob dimension finds: those whose field matches a value asked for.
use access_management.Prelude.{
  ℕ, ◌≡◌, ◌∙◌, refl, Bool, false, ◌&&◌, ◌||◌, not, Option, none, some, List, [], ◌∷◌, any, All,
  arith, Str, is_some-lookup, str_comparable, str_eq, str_eq_iff, str_eq_refl, Option-cases, inl,
  inr,
}
use access_management.RuleIndex.SetOps.{SetOps}
use access_management.RuleIndex.Pool.{contains-union_of}
use access_management.RuleIndex.Dimension.{set_has, append_found}
use access_management.RuleIndex.Lazy.{
  LazyDimension, lazy_bitmap, lazy_filed, IsLazy, contains-lazy_bitmap,
}
use access_management.RuleIndex.Globs.{
  GlobLibrary, GlobDimension, is_glob, get_or_compile_glob, matches_glob, matching_globs,
  glob_query, glob_query_multiple, query_parts,
}
use access_management.RuleIndex.GlobFiling.{
  key_is, key_matches, fileable, field_matches, glob_filed, IsGlobDimension, Compiled,
}

-- A test of the compiled pattern, if there is one.
abbrev compiled_passes : {P : Type 0} → (P → Bool) → Option P → Bool
compiled_passes test none = false
compiled_passes test (some g) = test g

-- The row's key is a pattern that passes a test; it is the literal given.
abbrev pub pattern_passes : (L : GlobLibrary) → (L.Pattern → Bool) → Option Str → Bool
pattern_passes L test none = false
pattern_passes L test (some f) = is_glob f && compiled_passes test (get_or_compile_glob L f)

abbrev pub literal_is : Option Str → Str → Bool
literal_is none value = false
literal_is (some f) value = not (is_glob f) && str_eq f value

module _ (B : SetOps) (L : GlobLibrary) (x : ℕ) where
  pub any-append_found :
      (o : Option B.Set) (parts : List B.Set)
      → any (λ s. B.contains x s) (append_found B o parts)
        ≡ (set_has B x o || any (λ s. B.contains x s) parts)
  any-append_found none parts = refl
  any-append_found (some s) parts = refl

  pub any-matching_globs :
      (test : L.Pattern → Bool) (compiled : List (Str × L.Pattern)) (globs : LazyDimension B)
      (parts : List B.Set)
      → IsLazy B globs
      → any (λ s. B.contains x s) (matching_globs B L test compiled globs parts) ≡ (
          any (λ (e : Str × L.Pattern). test e.1 && lazy_filed B e.0 x globs) compiled
          || any (λ s. B.contains x s) parts)
  unfolding matching_globs
  any-matching_globs test [] globs parts v = refl
  any-matching_globs test ((p, g) ∷ compiled) globs parts v = ground (
    arith,
    any-matching_globs test compiled globs parts v,
    any-append_found (lazy_bitmap B p globs) (matching_globs B L test compiled globs parts),
    contains-lazy_bitmap B p globs x v,
  )

  -- The rows filed under a value or under a pattern that matches it.
  abbrev found_for : Str → GlobDimension B L → Bool
  found_for value gd =
      lazy_filed B value x gd.literals
      || any (λ (e : Str × L.Pattern). L.matches e.1 value && lazy_filed B e.0 x gd.globs)
          gd.compiled

  contains-glob_query-filed :
      (value : Str) (gd : GlobDimension B L)
      → IsGlobDimension B L gd
      → B.contains x (glob_query B L value gd) ≡ found_for value gd
  unfolding glob_query
  contains-glob_query-filed value gd v =
      let literal = lazy_bitmap B value gd.literals in
      let globs = matching_globs B L (λ g. L.matches g value) gd.compiled gd.globs [] in
      ground (
        arith,
        contains-union_of B x (append_found B literal globs),
        any-append_found literal globs,
        any-matching_globs (λ g. L.matches g value) gd.compiled gd.globs [] v.globs_lazy,
        contains-lazy_bitmap B value gd.literals x v.literals_lazy,
        B.contains-empty x,
      )

  any-query_parts :
      (values : List Str) (gd : GlobDimension B L)
      → IsGlobDimension B L gd
      → any (λ s. B.contains x s) (query_parts B L values gd) ≡ any (λ v. found_for v gd) values
  unfolding query_parts
  any-query_parts [] gd v = refl
  any-query_parts (value ∷ values) gd v =
      let rest = query_parts B L values gd in
      let literal = lazy_bitmap B value gd.literals in
      let globs = matching_globs B L (λ g. L.matches g value) gd.compiled gd.globs rest in
      ground (
        arith,
        any-append_found literal globs,
        any-query_parts values gd v,
        any-matching_globs (λ g. L.matches g value) gd.compiled gd.globs rest v.globs_lazy,
        contains-lazy_bitmap B value gd.literals x v.literals_lazy,
      )

  unfiled :
      (test : L.Pattern → Bool) (gd : GlobDimension B L) (compiled : List (Str × L.Pattern))
      → ((k : Str) → glob_filed B L k x gd ≡ false)
      → All (Compiled B L) compiled
      → any (λ (e : Str × L.Pattern). test e.1 && lazy_filed B e.0 x gd.globs) compiled ≡ false
  unfolding glob_filed Compiled
  unfiled test gd [] none_filed c = refl
  unfiled test gd ((p, g) ∷ compiled) none_filed c =
      ground (arith, unfiled test gd compiled none_filed c.1, none_filed p, c.0.0)

  filed_once :
      (test : L.Pattern → Bool) (gd : GlobDimension B L) (compiled : List (Str × L.Pattern))
      (f : Str)
      → ((k : Str) → glob_filed B L k x gd ≡ key_is L (some f) k)
      → All (Compiled B L) compiled
      → any (λ (e : Str × L.Pattern). test e.1 && lazy_filed B e.0 x gd.globs) compiled
        ≡ (pattern_passes L test (some f) && any (λ (e : Str × L.Pattern). str_eq e.0 f) compiled)
  unfolding glob_filed Compiled fileable
  filed_once test gd [] f filed_as c = ground arith
  filed_once test gd ((p, g) ∷ compiled) f filed_as c = ground (
    arith,
    filed_once test gd compiled f filed_as c.1,
    filed_as p,
    c.0.0,
    c.0.1,
    str_eq_iff f p,
    str_eq_iff p f,
  )

  module _ (gd : GlobDimension B L) (v : IsGlobDimension B L gd) where
    -- A loop over the compiled patterns finds the row when its pattern passes the test.
    pub any_filed-pattern :
        (o : Option Str) (test : L.Pattern → Bool)
        → ((k : Str) → glob_filed B L k x gd ≡ key_is L o k)
        → any (λ (e : Str × L.Pattern). test e.1 && lazy_filed B e.0 x gd.globs) gd.compiled
          ≡ pattern_passes L test o
    unfolding glob_filed fileable
    any_filed-pattern none test filed_as = unfiled test gd gd.compiled filed_as v.compiled_of
    any_filed-pattern (some f) test filed_as = elim (Option-cases (get_or_compile_glob L f)) [
      | inl fails ↦ ground (arith, fails, filed_once test gd gd.compiled f filed_as v.compiled_of)
      | inr found ↦ ground (
        arith,
        found.1,
        filed_once test gd gd.compiled f filed_as v.compiled_of,
        filed_as f,
        v.all_compiled f x,
        is_some-lookup f gd.compiled,
        str_eq_refl f,
      )
    ]

    -- The literals find the row when its literal is the value.
    pub filed-literal :
        (o : Option Str) (value : Str)
        → ((k : Str) → glob_filed B L k x gd ≡ key_is L o k)
        → lazy_filed B value x gd.literals ≡ literal_is o value
    unfolding glob_filed fileable
    filed-literal none value filed_as = ground (arith, filed_as value, v.no_glob value x)
    filed-literal (some f) value filed_as =
        ground (arith, filed_as value, v.no_glob value x, str_eq_iff f value)

    found_for-lem :
        (o : Option Str) (value : Str)
        → ((k : Str) → glob_filed B L k x gd ≡ key_is L o k)
        → found_for value gd ≡ key_matches L o value
    unfolding field_matches matches_glob
    found_for-lem none value filed_as = ground (
      arith,
      any_filed-pattern none (λ g. L.matches g value) filed_as,
      filed-literal none value filed_as,
    )
    found_for-lem (some f) value filed_as = elim (Option-cases (get_or_compile_glob L f)) [
      | inl fails ↦ rw fails (
          ground (
            arith,
            fails,
            any_filed-pattern (some f) (λ g. L.matches g value) filed_as,
            filed-literal (some f) value filed_as,
          ))
      | inr found ↦ rw found.1 (
          ground (
            arith,
            found.1,
            any_filed-pattern (some f) (λ g. L.matches g value) filed_as,
            filed-literal (some f) value filed_as,
          ))
    ]

  module _ (gd : GlobDimension B L) (o : Option Str) (v : IsGlobDimension B L gd)
      (filed_as : (k : Str) → glob_filed B L k x gd ≡ key_is L o k) where
    -- A query for a value finds the row when its field matches the value.
    pub contains-glob_query :
        (value : Str) → B.contains x (glob_query B L value gd) ≡ key_matches L o value
    contains-glob_query value =
        contains-glob_query-filed value gd v ∙ found_for-lem gd v o value filed_as

    any_found :
        (values : List Str) → any (λ v. found_for v gd) values ≡ any (λ v. key_matches L o v) values
    any_found [] = refl
    any_found (value ∷ values) =
        ground (arith, any_found values, found_for-lem gd v o value filed_as)

    -- A query for several values finds the row when its field matches one of them.
    pub contains-glob_query_multiple :
        (values : List Str)
        → B.contains x (glob_query_multiple B L values gd) ≡ any (λ v. key_matches L o v) values
    unfolding glob_query_multiple
    contains-glob_query_multiple values =
        contains-union_of B x (query_parts B L values gd)
        ∙ any-query_parts values gd v
        ∙ any_found values
