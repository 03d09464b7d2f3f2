-- ===== src/ParentRoles/Reachability.antt =====
-- collectParentRoles collects exactly the ancestors of a role.
use access_management.Prelude.{
  ℕ, zero, suc, ap, Option, some, option_then, option_then-some, ◌≡◌, refl, ◌↔◌, ◌⊎◌, inl, inr,
  true, ◌&&◌, List, [], ◌∷◌, map, Str, arith, lookup, insert, str_comparable, str_eq, str_eq_iff,
  mem, length, Bool-cases, or_empty,
}
use access_management.ParentRoles.Index.{
  RoleSet, ParentsOf, contains, Collected, collect_each, collect_parent_roles, ancestors,
  nothing_collected,
}
use access_management.ParentRoles.Closure.{
  is_parent, contains-insert, unseen_at_most, WalksTo, collect_parent_roles-Walks,
}

-- `y` is a parent of `x`, or of one of its ancestors.
pub data IsAncestor (m : ParentsOf) (x : Str) : Str → Type 0 where
  direct : {y : Str} → is_parent m x y ≡ true → IsAncestor m x y
  further : {y z : Str} → IsAncestor m x y → is_parent m y z ≡ true → IsAncestor m x z

IsAncestor-after :
    (m : ParentsOf) (x y : Str)
    → is_parent m x y ≡ true
    → {z : Str} → IsAncestor m y z
    → IsAncestor m x z
IsAncestor-after m x y h (direct l) = further (direct h) l
IsAncestor-after m x y h (further r l) = further (IsAncestor-after m x y h r) l

-- Whatever a visit adds to the parents, if it returns, is an ancestor of its start.
abbrev Adds : ParentsOf → Str → Collected → Option Collected → Type 0
Adds m role a o =
    (b : Collected)
    → o ≡ some b
    → (x : Str) → contains b.parents x ≡ true
    → (contains a.parents x ≡ true) ⊎ IsAncestor m role x

Adds-none : (m : ParentsOf) (role : Str) (a : Collected) → Adds m role a (some a)
Adds-none m role a b e x h = inl (ground (arith, e, h))

module _ (n : ℕ) (m : ParentsOf)
    (adds : (p : Str) (c : Collected) → Adds m p c (collect_parent_roles n m p c))
    (role : Str) where
  abbrev visit : Str → Collected → Option Collected
  visit p c = collect_parent_roles n m p c

  visit-Adds :
      (p : Str) (a : Collected)
      → is_parent m role p ≡ true
      → Adds m role a (visit p (record a { parents = insert p tt a.parents }))
  visit-Adds p a l b e x h = elim (adds p (record a { parents = insert p tt a.parents }) b e x h) [
    | inl inside ↦ elim (Bool-cases (str_eq p x)) [
      | inl s ↦ inr (direct (ground (arith, s, l, str_eq_iff p x)))
      | inr s ↦ inl (ground (arith, s, inside, contains-insert p x a.parents))
    ]
    | inr reached ↦ inr (IsAncestor-after m role p l reached)
  ]

  collect_each-Adds :
      (ps : List Str) (a : Collected)
      → ((p : Str) → mem p ps ≡ true → is_parent m role p ≡ true)
      → Adds m role a (collect_each visit ps a)
  unfolding collect_each mem
  collect_each-Adds [] a l b e x h = Adds-none m role a b e x h
  collect_each-Adds (p ∷ ps) a l b e x h =
      let (c, first, rest) =
        option_then-some (visit p (record a { parents = insert p tt a.parents }))
          (λ s. collect_each visit ps s) e in
      elim (collect_each-Adds ps c (λ q k. l q (ground (arith, k))) b rest x h) [
        | inl inside ↦ visit-Adds p a (l p (ground (arith, str_eq_iff p p))) c first x inside
        | inr reached ↦ inr reached
      ]

collect_parent_roles-Adds :
    (n : ℕ) (m : ParentsOf) (role : Str) (c : Collected)
    → Adds m role c (collect_parent_roles n m role c)
unfolding collect_parent_roles
collect_parent_roles-Adds zero m role c = λ b e. absurd (ground (arith, e))
collect_parent_roles-Adds (suc n) m role c = elim (Bool-cases (contains c.visited role)) [
  | inl seen ↦ rw seen (Adds-none m role c)
  | inr new ↦ rw new (
      collect_each-Adds n m (collect_parent_roles-Adds n m) role (or_empty (lookup role m))
        (record c { visited = insert role tt c.visited }) (λ p k. k))
]

mem-keys : (set : RoleSet) (x : Str) → mem x (map (λ p. p.0) set) ≡ contains set x
unfolding mem lookup
mem-keys [] x = refl
mem-keys ((y, t) ∷ set) x = ground (arith, mem-keys set x)

module _ (m : ParentsOf) (role : Str) where
  walked :
      WalksTo m
        (role ∷ [])
        nothing_collected
        (collect_parent_roles (suc (length m)) m role nothing_collected)
  walked =
      collect_parent_roles-Walks (suc (length m)) m role nothing_collected
        (omega (arith, unseen_at_most m []))

  abbrev collected : Collected
  collected = walked.0

  ancestor_is_visited :
      {x : Str}
      → IsAncestor m role x
      → (contains collected.visited x && contains collected.parents x) ≡ true
  unfolding mem lookup
  ancestor_is_visited {x} (direct l) =
      walked.2.closed role x refl (walked.2.covers role (ground (arith, str_eq_iff role role))) l
  ancestor_is_visited {x} (further {y = y} r l) =
      walked.2.closed y x refl (ground (arith, ancestor_is_visited r)) l

  found_is_ancestor : (x : Str) → contains collected.parents x ≡ true → IsAncestor m role x
  unfolding lookup
  found_is_ancestor x h =
      elim (collect_parent_roles-Adds (suc (length m)) m role nothing_collected collected walked.1 x
        h) [ inl inside ↦ absurd (ground (arith, inside)) | inr reached ↦ reached ]

  -- The ancestors that the search finds.
  pub found_ancestors : List Str
  found_ancestors = map (λ p. p.0) collected.parents

  pub ancestors-found : ancestors m role ≡ some found_ancestors
  unfolding ancestors found_ancestors
  ancestors-found = ap (λ o. option_then o (λ c. some (map (λ p. p.0) c.parents))) walked.1

  pub mem-found_ancestors : (x : Str) → (mem x found_ancestors ≡ true) ↔ IsAncestor m role x
  unfolding found_ancestors
  mem-found_ancestors x = (
    (λ h. found_is_ancestor x (ground (arith, h, mem-keys collected.parents x))),
    (λ r. ground (arith, ancestor_is_visited r, mem-keys collected.parents x)),
  )
