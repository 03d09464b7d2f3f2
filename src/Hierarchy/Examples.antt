-- ===== src/Hierarchy/Examples.antt =====
-- The theorems about hierarchies at small ones.
use access_management.Prelude.{
  ◌≡◌, refl, ◌↔◌, ◌&&◌, ◌||◌, true, none, [], ◌∷◌, Str, codes, ltb, str_eq,
}
use access_management.Hierarchy.Values.{
  Hierarchy, split, join, matches, ancestor_of, descendent_of, overlaps, equal_at, common,
  common_ancestors,
}
use access_management.Hierarchy.Prefixes.{split-join}
use access_management.Hierarchy.Relations.{
  ancestor_of_iff, overlaps-or, matches-common_ancestors, common_ancestors-fails,
}

abbrev a : Str
a = codes "a"

abbrev b : Str
b = codes "b"

abbrev c : Str
c = codes "c"

abbrev nothing : Hierarchy
nothing = []

-- witnesses
split-join_example : split (join (a ∷ b ∷ [])) ≡ a ∷ b ∷ []
split-join_example = split-join a (b ∷ []) (refl, (refl, tt))

ancestor_of_iff_example :
    (ancestor_of (a ∷ []) (a ∷ b ∷ []) ≡ true)
    ↔ ((s : Str) × (r : Hierarchy) × (a ∷ b ∷ [] ≡ a ∷ s ∷ r))
ancestor_of_iff_example = ancestor_of_iff (a ∷ []) (a ∷ b ∷ [])

overlaps-or_example : overlaps (a ∷ b ∷ []) (a ∷ []) ≡ (
    equal_at (a ∷ b ∷ []) (a ∷ [])
    || (ancestor_of (a ∷ b ∷ []) (a ∷ []) || descendent_of (a ∷ b ∷ []) (a ∷ [])))
overlaps-or_example = overlaps-or (a ∷ b ∷ []) (a ∷ [])

matches-common_ancestors_example :
    matches (a ∷ []) (a ∷ [])
    ≡ ((matches (a ∷ []) (a ∷ b ∷ []) && matches (a ∷ []) (a ∷ c ∷ [])) && (ltb 1 2 || ltb 1 2))
unfolding common_ancestors common str_eq
matches-common_ancestors_example =
    matches-common_ancestors (a ∷ b ∷ []) (a ∷ c ∷ []) (a ∷ []) (a ∷ []) refl

common_ancestors-fails_example :
    (common_ancestors (a ∷ []) nothing ≡ none) ↔ ((a ∷ nothing ≡ nothing) × (nothing ≡ nothing))
common_ancestors-fails_example = common_ancestors-fails (a ∷ []) nothing
