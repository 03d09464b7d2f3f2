-- ===== src/RuleIndex/Start.antt =====
-- A new index has no rows and satisfies the invariant.
use access_management.Prelude.{ℕ, ◌≡◌, refl, false, arith, Str, if_either, lookup}
use access_management.RuleIndex.SetOps.{SetOps}
use access_management.RuleIndex.Dimension.{filed}
use access_management.RuleIndex.Lazy.{IsLazy, lazy_filed}
use access_management.RuleIndex.Globs.{GlobLibrary, new_glob_dimension, is_glob}
use access_management.RuleIndex.GlobFiling.{IsGlobDimension, glob_filed}
use access_management.RuleIndex.Rows.{new_bitmap_index, get_binding}
use access_management.RuleIndex.Indexes.{IsIndex, Distinct}

module _ (B : SetOps) (L : GlobLibrary) where
  new_glob_dimension-IsGlobDimension : IsGlobDimension B L (new_glob_dimension B L)
  unfolding IsLazy lazy_filed lookup
  new_glob_dimension-IsGlobDimension = record {
    literals_lazy = tt;
    globs_lazy = tt;
    no_glob = λ k x h. refl;
    compiled_of = tt;
    all_compiled = λ k x h. ground (arith, h);
  }

  nothing_filed : (k : Str) (x : ℕ) → glob_filed B L k x (new_glob_dimension B L) ≡ false
  unfolding glob_filed lazy_filed lookup
  nothing_filed k x = if_either (λ b. b ≡ false) (is_glob k) false false refl refl

  -- A new index satisfies the invariant.
  pub new_bitmap_index-IsIndex : IsIndex B L (new_bitmap_index B L)
  unfolding get_binding filed lazy_filed Distinct IsLazy lookup
  new_bitmap_index-IsIndex = record {
    numbered = λ x b e. ground (arith, e);
    free_slots = λ x h. absurd (ground (arith, h));
    free_distinct = tt;
    few = omega arith;
    all_keys = refl;
    universe = B.contains-empty;
    allow_sets = B.contains-empty;
    scopes = λ k x. refl;
    versions = λ k x. refl;
    kinds = λ k x. refl;
    principals_lazy = tt;
    principals = λ k x. refl;
    roles_glob = new_glob_dimension-IsGlobDimension;
    roles = nothing_filed;
    resources_glob = new_glob_dimension-IsGlobDimension;
    resources = nothing_filed;
    actions_glob = new_glob_dimension-IsGlobDimension;
    actions = nothing_filed;
  }
