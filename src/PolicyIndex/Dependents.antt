-- ===== src/PolicyIndex/Dependents.antt =====
-- GetDependents and addTransitiveDependents of internal/storage/index/index.go.
use access_management.Prelude.{
  ℕ, zero, suc, ◌+◌, Bool, Option, none, some, option_then, List, [], ◌∷◌, lookup, insert, is_some,
  nat_comparable, length, if◌then◌else◌,
}
use access_management.PolicyIndex.State.{ModuleId, ModuleIdSet, Index, linked, members}
use access_management.PolicyIndex.Links.{Links}

-- _, ok := dependents[id]
abbrev pub contains : ModuleIdSet → ModuleId → Bool
contains set id = is_some (lookup id set)

-- The loop over the dependents of a module, with the recursive call as `visit`: none if one of the
-- calls does not return.
unfoldable pub add_each :
    (ModuleId → ModuleIdSet → Option ModuleIdSet) → List ModuleId → ModuleIdSet → Option ModuleIdSet
add_each visit [] set = some set
add_each visit (d ∷ ds) set =
    let visited = visit d (insert d tt set) in
    option_then (if contains set d then some set else visited) (λ s. add_each visit ds s)

-- addTransitiveDependents, on fuel for the depth of the recursion: none if it does not suffice
unfoldable pub add_transitive_dependents : ℕ → Links → ModuleId → ModuleIdSet → Option ModuleIdSet
unfolding add_each linked
add_transitive_dependents zero dependents id set = none
add_transitive_dependents (suc n) dependents id set =
    add_each (λ d s. add_transitive_dependents n dependents d s) (linked dependents id) set

-- A recursive call is for a module that was not yet in the set, and goes on only if that module is
-- a key of idx.dependents: the depth is at most the number of the keys, one for the start and one
-- for a module that is no key.
unfoldable pub transitive_dependents : Index → ModuleId → Option ModuleIdSet
unfolding add_transitive_dependents
transitive_dependents idx id =
    add_transitive_dependents (length idx.dependents + 2) idx.dependents id []

-- GetDependents; none if a search does not return
unfoldable pub get_dependents : Index → List ModuleId → Option (List (ModuleId × List ModuleId))
unfolding transitive_dependents members
get_dependents idx [] = some []
get_dependents idx (id ∷ ids) =
    let rest = get_dependents idx ids in
    option_then (transitive_dependents idx id)
      (λ found. option_then rest (λ m. some (insert id (members found) m)))
