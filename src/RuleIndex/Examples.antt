-- ===== src/RuleIndex/Examples.antt =====
-- The theorems on the rule table index at a small index: one row for all resources of version
-- "default", with a toy pattern library.
use access_management.Prelude.{
  word32, uint32, length, ◌<◌, arith, List, All, any, ◌==◌, ℕ, ◌≡◌, refl, true, ◌||◌, none, some,
  [], ◌∷◌, Str, codes, str_eq, lookup, ◌↔◌,
}
use access_management.Check.Types.{resource}
use access_management.RuleIndex.BitmapSets.{bitmap_sets}
use access_management.RuleIndex.Globs.{GlobLibrary}
use access_management.RuleIndex.Rows.{
  Handle, BitmapIndex, new_bitmap_index, add_binding, get_binding, blank_key,
}
use access_management.RuleIndex.Indexes.{IsIndex}
use access_management.RuleIndex.Start.{new_bitmap_index-IsIndex}
use access_management.RuleIndex.Additions.{add_binding-IsIndex}
use access_management.RuleIndex.Deletion.{
  TracksOrigins, delete_policy, without, add_binding-TracksOrigins, get_binding-delete_policy,
  delete_policy-IsIndex,
}
use access_management.RuleIndex.Existence.{
  scoped_resource_exists, scoped_resource_row, scoped_resource_exists_iff,
}
use access_management.RuleIndex.Queries.{query_regular, new_resource_kind}
use access_management.RuleIndex.Matches.{asked, row_matches}
use access_management.RuleIndex.Results.{Live, numbers, query_regular_lem}
use access_management.Bitmap.Batch.{Ascending}

-- A pattern matches itself, and "**" matches everything.
abbrev toy_globs : GlobLibrary
toy_globs = record {
  Pattern = Str;
  compile = λ g. some g;
  matches = λ g v. str_eq g (codes "**") || str_eq g v;
}

abbrev view_row : Handle
view_row = record {
  resource_of = codes "*";
  action_of = codes "view";
  role_of = codes "user";
  scope_of = [];
  version_of = codes "default";
  principal_of = [];
  origin_fqn = codes "p1";
  allow_actions = none;
  policy_kind = resource;
  id = 0;
}

abbrev fresh : BitmapIndex bitmap_sets toy_globs
fresh = new_bitmap_index bitmap_sets toy_globs

fresh-IsIndex : IsIndex bitmap_sets toy_globs fresh
fresh-IsIndex = new_bitmap_index-IsIndex bitmap_sets toy_globs

abbrev one_row : BitmapIndex bitmap_sets toy_globs
one_row = add_binding bitmap_sets toy_globs view_row blank_key fresh

fresh-small : length fresh.bindings < word32
fresh-small = omega arith

one_row-small : length one_row.bindings < word32
unfolding add_binding uint32
one_row-small = omega arith

one_row-IsIndex : IsIndex bitmap_sets toy_globs one_row
one_row-IsIndex =
    add_binding-IsIndex bitmap_sets toy_globs view_row blank_key fresh fresh-IsIndex fresh-small

fresh-TracksOrigins : TracksOrigins bitmap_sets toy_globs fresh
unfolding TracksOrigins get_binding lookup
fresh-TracksOrigins = λ f x. refl

one_row-TracksOrigins : TracksOrigins bitmap_sets toy_globs one_row
one_row-TracksOrigins =
    add_binding-TracksOrigins bitmap_sets toy_globs view_row blank_key fresh fresh-IsIndex
      fresh-small fresh-TracksOrigins

add_binding-IsIndex_example :
    IsIndex bitmap_sets toy_globs (add_binding bitmap_sets toy_globs view_row blank_key one_row)
add_binding-IsIndex_example =
    add_binding-IsIndex bitmap_sets toy_globs view_row blank_key one_row one_row-IsIndex
      one_row-small

abbrev user_views : List Handle
user_views =
    query_regular bitmap_sets toy_globs (codes "default")
      (new_resource_kind (codes "leave_request")) [] (codes "view") (codes "user" ∷ []) resource []
      one_row

query_regular_lem_example :
    All (Live bitmap_sets toy_globs one_row) user_views
    × Ascending (numbers user_views)
    × ((x : ℕ)
        → any (λ y. x == y) (numbers user_views)
          ≡ asked
              (row_matches toy_globs
                (codes "default")
                (new_resource_kind (codes "leave_request"))
                []
                (codes "view")
                (codes "user" ∷ [])
                resource
                [])
              (get_binding bitmap_sets toy_globs x one_row))
query_regular_lem_example =
    query_regular_lem bitmap_sets toy_globs one_row one_row-IsIndex (codes "default")
      (new_resource_kind (codes "leave_request")) [] (codes "view") (codes "user" ∷ []) resource []

get_binding-delete_policy_example :
    get_binding bitmap_sets toy_globs 0 (delete_policy bitmap_sets toy_globs (codes "p1") one_row)
    ≡ without (codes "p1") (get_binding bitmap_sets toy_globs 0 one_row)
get_binding-delete_policy_example =
    get_binding-delete_policy bitmap_sets toy_globs (codes "p1") one_row one_row-IsIndex
      one_row-TracksOrigins 0

delete_policy-IsIndex_example :
    IsIndex bitmap_sets toy_globs (delete_policy bitmap_sets toy_globs (codes "p1") one_row)
    × TracksOrigins bitmap_sets toy_globs (delete_policy bitmap_sets toy_globs (codes "p1") one_row)
delete_policy-IsIndex_example =
    delete_policy-IsIndex bitmap_sets toy_globs (codes "p1") one_row one_row-IsIndex
      one_row-TracksOrigins

scoped_resource_exists_iff_example :
    (scoped_resource_exists bitmap_sets toy_globs
        (codes "default")
        (new_resource_kind (codes "leave_request"))
        ([] ∷ [])
        one_row
      ≡ true)
    ↔ ((x : ℕ) × (asked
            (scoped_resource_row toy_globs
              (codes "default")
              ([] ∷ [])
              (new_resource_kind (codes "leave_request")))
            (get_binding bitmap_sets toy_globs x one_row)
          ≡ true))
scoped_resource_exists_iff_example =
    scoped_resource_exists_iff bitmap_sets toy_globs one_row one_row-IsIndex (codes "default")
      (new_resource_kind (codes "leave_request")) ([] ∷ [])
