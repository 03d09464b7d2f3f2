-- ===== src/ParentRoles/Index.antt =====
-- collectParentRoles, compileParentRoleAncestors and AddParentRoles of the rule table's index
-- (internal/ruletable/index/index.go).
use access_management.Prelude.{
  ℕ, zero, suc, Bool, Option, none, some, option_then, List, [], ◌∷◌, ◌++◌, map, Str, lookup,
  insert, is_some, is_empty, str_comparable, length, or_empty, if◌then◌else◌,
}

-- map[string]struct{}
abbrev pub RoleSet : Type 0
RoleSet = List (Str × Unit)

-- The roles of a scope with their direct parents (RoleParentRoles).
abbrev pub ParentsOf : Type 0
ParentsOf = List (Str × List Str)

abbrev pub contains : RoleSet → Str → Bool
contains set role = is_some (lookup role set)

-- The sets that collectParentRoles fills: the parents found, and the roles visited.
pub record Collected : Type 0 where
  pub parents : RoleSet
  pub visited : RoleSet

-- The loop over the direct parents, with the recursive call as `visit`: none if one of the calls
-- does not return.
unfoldable pub collect_each :
    (Str → Collected → Option Collected) → List Str → Collected → Option Collected
collect_each visit [] c = some c
collect_each visit (p ∷ ps) c =
    option_then (visit p (record c { parents = insert p tt c.parents }))
      (λ c'. collect_each visit ps c')

-- collectParentRoles in one scope, on fuel for the depth of the recursion: none if it does not
-- suffice
unfoldable pub collect_parent_roles : ℕ → ParentsOf → Str → Collected → Option Collected
unfolding collect_each
collect_parent_roles zero m role c = none
collect_parent_roles (suc n) m role c =
    let marked = record c { visited = insert role tt c.visited } in
    let walked =
      collect_each (λ p s. collect_parent_roles n m p s) (or_empty (lookup role m)) marked in
    if contains c.visited role then some c else walked

abbrev pub nothing_collected : Collected
nothing_collected = record { parents = []; visited = [] }

-- All ancestors of a role. A call goes deeper only from a role that was not visited and is a key of
-- the map, so the depth is at most the number of the keys, and one for a role that is none.
unfoldable pub ancestors : ParentsOf → Str → Option (List Str)
unfolding collect_parent_roles
ancestors m role =
    option_then (collect_parent_roles (suc (length m)) m role nothing_collected)
      (λ c. some (map (λ p. p.0) c.parents))

unfoldable pub compile_roles : ParentsOf → ParentsOf → Option ParentsOf
unfolding ancestors
compile_roles m [] = some []
compile_roles m ((role, ps) ∷ rest) =
    let others = compile_roles m rest in
    option_then (ancestors m role) (λ as'. option_then others (λ cs. some ((role, as') ∷ cs)))

-- compileParentRoleAncestors; a scope whose entry is nil has none
unfoldable pub compile_parent_role_ancestors :
    List (Str × Option ParentsOf) → Option (List (Str × ParentsOf))
unfolding compile_roles
compile_parent_role_ancestors [] = some []
compile_parent_role_ancestors ((scope, none) ∷ rest) = compile_parent_role_ancestors rest
compile_parent_role_ancestors ((scope, some m) ∷ rest) =
    let others = compile_parent_role_ancestors rest in
    option_then (compile_roles m m) (λ cs. option_then others (λ more. some ((scope, cs) ∷ more)))

-- merged[role] = append(merged[role], parents...), for the roles of a scope
unfoldable pub merge_roles : ParentsOf → ParentsOf → ParentsOf
merge_roles [] merged = merged
merge_roles ((role, ps) ∷ rest) merged =
    merge_roles rest (insert role (or_empty (lookup role merged) ++ ps) merged)

unfoldable pub merge_scopes : List (Str × ParentsOf) → List Str → ParentsOf → ParentsOf
unfolding merge_roles
merge_scopes compiled [] merged = merged
merge_scopes compiled (scope ∷ scopes) merged =
    merge_scopes compiled scopes (merge_roles (or_empty (lookup scope compiled)) merged)

unfoldable pub parents_of_all : ParentsOf → List Str → List Str
parents_of_all merged [] = []
parents_of_all merged (role ∷ roles) = or_empty (lookup role merged) ++ parents_of_all merged roles

-- AddParentRoles
unfoldable pub add_parent_roles : List (Str × ParentsOf) → List Str → List Str → List Str
unfolding merge_scopes parents_of_all
add_parent_roles compiled scopes roles =
    let merged = merge_scopes compiled scopes [] in
    if is_empty compiled
    then roles
    else if is_empty merged
    then roles
    else roles ++ parents_of_all merged roles
