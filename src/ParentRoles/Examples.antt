-- ===== src/ParentRoles/Examples.antt =====
-- Parent roles with a cycle, and the theorem about them.
use access_management.Prelude.{
  ◌≡◌, refl, ◌↔◌, ◌⊎◌, true, Option, some, List, [], ◌∷◌, Str, codes, lookup, str_eq,
  str_comparable, mem,
}
use access_management.ParentRoles.Index.{ParentsOf, compile_parent_role_ancestors, add_parent_roles}
use access_management.ParentRoles.Reachability.{IsAncestor}
use access_management.ParentRoles.Additions.{add_parent_roles_iff}

abbrev user : Str
user = codes "user"

abbrev editor : Str
editor = codes "editor"

abbrev acme : Str
acme = codes "acme"

-- each of the two roles is a parent of the other
abbrev cyclic : ParentsOf
cyclic = (editor, user ∷ []) ∷ (user, editor ∷ []) ∷ []

abbrev raw : List (Str × Option ParentsOf)
raw = (acme, some cyclic) ∷ []

-- witnesses
add_parent_roles_iff_example :
    (compiled : List (Str × ParentsOf)) × (compile_parent_role_ancestors raw ≡ some compiled)
    × ((x : Str)
        → (mem x (add_parent_roles compiled (acme ∷ []) (editor ∷ [])) ≡ true) ↔ (
            (mem x (editor ∷ []) ≡ true)
            ⊎ ((r : Str) × (mem r (editor ∷ []) ≡ true) × IsAncestor cyclic r x)))
unfolding lookup str_eq
add_parent_roles_iff_example = add_parent_roles_iff raw acme cyclic (editor ∷ []) refl
