-- ===== src/ParentRoles/Additions.antt =====
-- AddParentRoles adds exactly the ancestors of the roles.
use access_management.Prelude.{
  ap, ◌∙◌, map, option_then, ◌≡◌, refl, ◌↔◌, ◌⊎◌, inl, inr, Bool, true, false, ◌&&◌, ◌||◌, Option,
  none, some, List, [], ◌∷◌, ◌++◌, Str, arith, lookup, insert, lookup-insert, is_some,
  str_comparable, str_eq, str_eq_iff, mem, Bool-cases, or_empty, is_empty,
}
use access_management.ParentRoles.Index.{
  ParentsOf, compile_roles, compile_parent_role_ancestors, merge_roles, merge_scopes,
  parents_of_all, add_parent_roles,
}
use access_management.ParentRoles.Reachability.{
  IsAncestor, direct, further, found_ancestors, ancestors-found, mem-found_ancestors,
}

mem-append : (x : Str) (xs ys : List Str) → mem x (xs ++ ys) ≡ (mem x xs || mem x ys)
unfolding mem
mem-append x [] ys = refl
mem-append x (y ∷ xs) ys = ground (arith, mem-append x xs ys)

-- What compile_roles makes of the entries `rest` of the map `m`.
abbrev compiled_roles : ParentsOf → ParentsOf → ParentsOf
compiled_roles m rest = map (λ entry. (entry.0, found_ancestors m entry.0)) rest

compile_roles-compiled_roles :
    (m rest : ParentsOf) → compile_roles m rest ≡ some (compiled_roles m rest)
unfolding compile_roles
compile_roles-compiled_roles m [] = refl
compile_roles-compiled_roles m ((role, ps) ∷ rest) =
    ap
      (λ o.
        option_then o (λ as'. option_then (compile_roles m rest) (λ cs. some ((role, as') ∷ cs))))
      (ancestors-found m role)
    ∙ ap (λ o. option_then o (λ cs. some ((role, found_ancestors m role) ∷ cs)))
        (compile_roles-compiled_roles m rest)

-- What compileParentRoleAncestors returns.
compiled_scopes : List (Str × Option ParentsOf) → List (Str × ParentsOf)
compiled_scopes [] = []
compiled_scopes ((scope, none) ∷ raw) = compiled_scopes raw
compiled_scopes ((scope, some m) ∷ raw) = (scope, compiled_roles m m) ∷ compiled_scopes raw

compile-compiled_scopes :
    (raw : List (Str × Option ParentsOf))
    → compile_parent_role_ancestors raw ≡ some (compiled_scopes raw)
unfolding compile_parent_role_ancestors compiled_scopes
compile-compiled_scopes [] = refl
compile-compiled_scopes ((scope, none) ∷ raw) = compile-compiled_scopes raw
compile-compiled_scopes ((scope, some m) ∷ raw) =
    ap
      (λ o.
        option_then o (λ cs.
          option_then (compile_parent_role_ancestors raw) (λ more. some ((scope, cs) ∷ more))))
      (compile_roles-compiled_roles m m)
    ∙ ap (λ o. option_then o (λ more. some ((scope, compiled_roles m m) ∷ more)))
        (compile-compiled_scopes raw)

lookup-compiled_scopes :
    (raw : List (Str × Option ParentsOf)) (scope : Str) (m : ParentsOf)
    → lookup scope raw ≡ some (some m)
    → lookup scope (compiled_scopes raw) ≡ some (compiled_roles m m)
unfolding lookup compiled_scopes
lookup-compiled_scopes [] scope m h = cc
lookup-compiled_scopes ((s, none) ∷ raw) scope m h =
    ground (arith, lookup-compiled_scopes raw scope m)
lookup-compiled_scopes ((s, some k) ∷ raw) scope m h =
    ground (arith, lookup-compiled_scopes raw scope m)

-- Some entry of `role` lists `x`.
lists : Str → Str → ParentsOf → Bool
lists role x [] = false
lists role x ((k, ps) ∷ m) = (str_eq k role && mem x ps) || lists role x m

mem-merge_roles :
    (x role : Str) (cs merged : ParentsOf)
    → mem x (or_empty (lookup role (merge_roles cs merged)))
      ≡ (mem x (or_empty (lookup role merged)) || lists role x cs)
unfolding merge_roles lists
mem-merge_roles x role [] merged = ground arith
mem-merge_roles x role ((k, ps) ∷ cs) merged = ground (
  arith,
  mem-merge_roles x role cs (insert k (or_empty (lookup k merged) ++ ps) merged),
  lookup-insert k role (or_empty (lookup k merged) ++ ps) merged,
  mem-append x (or_empty (lookup k merged)) ps,
  str_eq_iff k role,
)

lists-compiled_roles :
    (role x : Str) (m rest : ParentsOf)
    → lists role x (compiled_roles m rest)
      ≡ (is_some (lookup role rest) && mem x (found_ancestors m role))
unfolding lists lookup
lists-compiled_roles role x m [] = refl
lists-compiled_roles role x m ((k, ps) ∷ rest) =
    ground (arith, lists-compiled_roles role x m rest, str_eq_iff k role)

known_role :
    (m : ParentsOf) (role : Str) {x : Str} → IsAncestor m role x → is_some (lookup role m) ≡ true
unfolding mem
known_role m role (direct l) = ground (arith, l)
known_role m role (further r l) = known_role m role r

module _ (m : ParentsOf) where
  -- What the check merges for one scope.
  abbrev merged : ParentsOf
  merged = merge_roles (compiled_roles m m) []

  mem-merged : (role x : Str) → (mem x (or_empty (lookup role merged)) ≡ true) ↔ IsAncestor m role x
  unfolding lookup mem
  mem-merged role x = (
    (λ h. (mem-found_ancestors m role x).0 (
        ground (
          arith,
          h,
          mem-merge_roles x role (compiled_roles m m) [],
          lists-compiled_roles role x m m,
        ))),
    (λ r. ground (
      arith,
      (mem-found_ancestors m role x).1 r,
      known_role m role r,
      mem-merge_roles x role (compiled_roles m m) [],
      lists-compiled_roles role x m m,
    )),
  )

  parents_from :
      (roles : List Str) (x : Str)
      → mem x (parents_of_all merged roles) ≡ true
      → (r : Str) × (mem r roles ≡ true) × IsAncestor m r x
  unfolding parents_of_all mem
  parents_from [] x h = absurd (ground (arith, h))
  parents_from (role ∷ roles) x h = elim (Bool-cases (mem x (or_empty (lookup role merged)))) [
    | inl own ↦ (role, ground (arith, str_eq_iff role role), (mem-merged role x).0 own)
    | inr other ↦
        let (r, i, a) = parents_from roles x (
          ground (
            arith,
            h,
            other,
            mem-append x (or_empty (lookup role merged)) (parents_of_all merged roles),
          )) in
        (r, ground (arith, i), a)
  ]

  parents_to :
      (roles : List Str) (r x : Str)
      → mem r roles ≡ true
      → IsAncestor m r x
      → mem x (parents_of_all merged roles) ≡ true
  unfolding parents_of_all mem
  parents_to [] r x i a = absurd (ground (arith, i))
  parents_to (role ∷ roles) r x i a = elim (Bool-cases (str_eq role r)) [
    | inl e ↦ ground (
      arith,
      e,
      str_eq_iff role r,
      (mem-merged r x).1 a,
      mem-append x (or_empty (lookup role merged)) (parents_of_all merged roles),
    )
    | inr e ↦ ground (
      arith,
      e,
      i,
      parents_to roles r x (ground (arith, i, e)) a,
      mem-append x (or_empty (lookup role merged)) (parents_of_all merged roles),
    )
  ]

no_parents_of_all :
    (merged : ParentsOf) (roles : List Str)
    → is_empty merged ≡ true
    → parents_of_all merged roles ≡ []
unfolding parents_of_all lookup
no_parents_of_all [] [] h = refl
no_parents_of_all [] (r ∷ roles) h = no_parents_of_all [] roles h
no_parents_of_all (e ∷ merged) roles h = absurd (ground (arith, h))

mem-add_parent_roles :
    (compiled : List (Str × ParentsOf)) (scope : Str) (cs : ParentsOf) (roles : List Str) (x : Str)
    → lookup scope compiled ≡ some cs
    → mem x (add_parent_roles compiled (scope ∷ []) roles)
      ≡ (mem x roles || mem x (parents_of_all (merge_roles cs []) roles))
unfolding add_parent_roles merge_scopes lookup mem
mem-add_parent_roles [] scope cs roles x h = cc
mem-add_parent_roles (c ∷ compiled) scope cs roles x h = ground (
  arith,
  h,
  mem-append x roles (parents_of_all (merge_roles cs []) roles),
  no_parents_of_all (merge_roles cs []) roles,
)

-- Where a scope has an entry in the map of parent roles, compileParentRoleAncestors returns for this
-- map, whatever cycles its scopes have: the depth of its search is bounded by the number of roles
-- with parents. With what it returns, AddParentRoles answers for the scope exactly the roles given
-- and all their ancestors by the parent roles of the scope.
pub add_parent_roles_iff :
    (raw : List (Str × Option ParentsOf)) (scope : Str) (m : ParentsOf) (roles : List Str)
    → lookup scope raw ≡ some (some m)
    → (compiled : List (Str × ParentsOf)) × (compile_parent_role_ancestors raw ≡ some compiled)
      × ((x : Str)
          → (mem x (add_parent_roles compiled (scope ∷ []) roles) ≡ true)
            ↔ ((mem x roles ≡ true) ⊎ ((r : Str) × (mem r roles ≡ true) × IsAncestor m r x)))
add_parent_roles_iff raw scope m roles h =
    (compiled_scopes raw, compile-compiled_scopes raw, exactly)
  where
    split :
        (x : Str)
        → mem x (add_parent_roles (compiled_scopes raw) (scope ∷ []) roles)
          ≡ (mem x roles || mem x (parents_of_all (merge_roles (compiled_roles m m) []) roles))
    split x =
        mem-add_parent_roles (compiled_scopes raw) scope (compiled_roles m m) roles x
          (lookup-compiled_scopes raw scope m h)

    exactly :
        (x : Str)
        → (mem x (add_parent_roles (compiled_scopes raw) (scope ∷ []) roles) ≡ true)
          ↔ ((mem x roles ≡ true) ⊎ ((r : Str) × (mem r roles ≡ true) × IsAncestor m r x))
    exactly x = (
      (λ k. elim (Bool-cases (mem x roles)) [
        | inl given ↦ inl given
        | inr new ↦ inr (parents_from m roles x (ground (arith, k, split x, new)))
      ]),
      (λ a. elim a [
        | inl given ↦ ground (arith, split x, given)
        | inr (r, i, up) ↦ ground (arith, split x, parents_to m roles r x i up)
      ]),
    )
