-- ===== src/ParentRoles/Closure.antt =====
-- collectParentRoles visits a set of roles that is closed under parents, on enough fuel.
use access_management.Prelude.{
  ℕ, zero, suc, refl, ap, ◌∙◌, Option, some, option_then, ◌+◌, ◌≤◌, ◌<◌, ◌≡◌, inl, inr, Bool, true,
  false, ◌&&◌, ◌||◌, List, [], ◌∷◌, Str, arith, lookup, insert, lookup-insert, is_some,
  str_comparable, str_eq, str_eq_iff, mem, length, Bool-cases, if◌then◌else◌, or_empty,
}
use access_management.ParentRoles.Index.{
  RoleSet, ParentsOf, contains, Collected, collect_each, collect_parent_roles,
}

-- `y` is a direct parent of `x`.
abbrev pub is_parent : ParentsOf → Str → Str → Bool
is_parent m x y = mem y (or_empty (lookup x m))

-- The roles with parents that are not in the set.
pub unseen : ParentsOf → RoleSet → ℕ
unseen [] set = 0
unseen ((k, ps) ∷ m) set = (if contains set k then 0 else 1) + unseen m set

pub contains-insert :
    (d x : Str) (set : RoleSet) → contains (insert d tt set) x ≡ (str_eq d x || contains set x)
contains-insert d x set = ground (arith, lookup-insert d x tt set)

unseen_mono :
    (m : ParentsOf) (a b : RoleSet)
    → ((x : Str) → contains a x ≡ true → contains b x ≡ true)
    → unseen m b ≤ unseen m a
unfolding unseen
unseen_mono [] a b h = omega arith
unseen_mono ((k, ps) ∷ m) a b h = ground (arith, unseen_mono m a b h, h k)

pub unseen_at_most : (m : ParentsOf) (set : RoleSet) → unseen m set ≤ length m
unfolding unseen
unseen_at_most [] set = omega arith
unseen_at_most ((k, ps) ∷ m) set = ground (arith, unseen_at_most m set)

insert_mono :
    (d : Str) (set : RoleSet) (x : Str)
    → contains set x ≡ true
    → contains (insert d tt set) x ≡ true
insert_mono d set x h = ground (arith, contains-insert d x set)

unseen-insert :
    (d : Str) (m : ParentsOf) (set : RoleSet)
    → is_some (lookup d m) ≡ true
    → contains set d ≡ false
    → unseen m (insert d tt set) < unseen m set
unfolding unseen lookup
unseen-insert d [] set k n = absurd (ground arith)
unseen-insert d ((j, ps) ∷ m) set k n = ground (
  arith,
  unseen-insert d m set,
  unseen_mono m set (insert d tt set) (insert_mono d set),
  contains-insert d j set,
  str_eq_iff j d,
)

-- From the sets `a` a visit of `targets` leads to the sets `b`.
pub record Walks (m : ParentsOf) (targets : List Str) (a b : Collected) : Type 0 where
  pub keeps_visited : (x : Str) → contains a.visited x ≡ true → contains b.visited x ≡ true
  pub keeps_parents : (x : Str) → contains a.parents x ≡ true → contains b.parents x ≡ true
  pub covers : (x : Str) → mem x targets ≡ true → contains b.visited x ≡ true
  pub closed :
      (x y : Str)
      → contains a.visited x ≡ false
      → contains b.visited x ≡ true
      → is_parent m x y ≡ true
      → (contains b.visited y && contains b.parents y) ≡ true

-- The loop over parents also gathers them.
abbrev Gathers : ParentsOf → List Str → Collected → Collected → Type 0
Gathers m ps a b = Walks m ps a b × ((x : Str) → mem x ps ≡ true → contains b.parents x ≡ true)

Walks-seen :
    (m : ParentsOf) (role : Str) (a : Collected)
    → contains a.visited role ≡ true
    → Walks m (role ∷ []) a a
unfolding mem
Walks-seen m role a s = record {
  keeps_visited = λ x h. h;
  keeps_parents = λ x h. h;
  covers = λ x h. ground (arith, h, s, str_eq_iff role x);
  closed = λ x y n h l. absurd (ground (arith, n, h));
}

Gathers-none : (m : ParentsOf) (a : Collected) → Gathers m [] a a
unfolding mem
Gathers-none m a = (
  record {
    keeps_visited = λ x h. h;
    keeps_parents = λ x h. h;
    covers = λ x h. absurd (ground (arith, h));
    closed = λ x y n h l. absurd (ground (arith, n, h));
  },
  (λ x h. absurd (ground (arith, h))),
)

abbrev marked : Str → Collected → Collected
marked role a = record a { visited = insert role tt a.visited }

abbrev noted : Str → Collected → Collected
noted p a = record a { parents = insert p tt a.parents }

Walks-new :
    (m : ParentsOf) (role : Str) (a b : Collected)
    → Gathers m (or_empty (lookup role m)) (marked role a) b
    → Walks m (role ∷ []) a b
unfolding mem
Walks-new m role a b (w, g) = record {
  keeps_visited = λ x h. w.keeps_visited x (insert_mono role a.visited x h);
  keeps_parents = λ x h. w.keeps_parents x h;
  covers = λ x h. w.keeps_visited x (ground (arith, h, contains-insert role x a.visited));
  closed = λ x y n h l. ground (
    arith,
    n,
    h,
    l,
    w.closed x y,
    w.covers y,
    g y,
    contains-insert role x a.visited,
    str_eq_iff role x,
  );
}

Gathers-cons :
    (m : ParentsOf) (p : Str) (ps : List Str) (a b c : Collected)
    → Walks m (p ∷ []) (noted p a) b
    → Gathers m ps b c
    → Gathers m (p ∷ ps) a c
unfolding mem
Gathers-cons m p ps a b c v (w, g) = (
  record {
    keeps_visited = λ x h. w.keeps_visited x (v.keeps_visited x h);
    keeps_parents = λ x h. w.keeps_parents x (v.keeps_parents x (insert_mono p a.parents x h));
    covers = λ x h. ground (arith, h, v.covers x, w.keeps_visited x, w.covers x);
    closed = λ x y n h l.
        ground (arith, n, h, l, v.closed x y, w.closed x y, w.keeps_visited y, w.keeps_parents y);
  },
  (λ x h.
      ground (arith, h, g x, w.keeps_parents x, v.keeps_parents x, contains-insert p x a.parents)),
)

-- A visit of `targets` from the sets `a` returns, and leads to sets as described.
abbrev pub WalksTo : ParentsOf → List Str → Collected → Option Collected → Type 0
WalksTo m targets a o = (b : Collected) × (o ≡ some b) × Walks m targets a b

-- The same for the loop over parents.
abbrev GathersTo : ParentsOf → List Str → Collected → Option Collected → Type 0
GathersTo m ps a o = (b : Collected) × (o ≡ some b) × Gathers m ps a b

module _ (n : ℕ) (m : ParentsOf)
    (walks : (role : Str) (c : Collected)
      → unseen m c.visited < n
      → WalksTo m (role ∷ []) c (collect_parent_roles n m role c)) where
  abbrev visit : Str → Collected → Option Collected
  visit p c = collect_parent_roles n m p c

  collect_each-Gathers :
      (ps : List Str) (a : Collected)
      → unseen m a.visited < n
      → GathersTo m ps a (collect_each visit ps a)
  unfolding collect_each
  collect_each-Gathers [] a l = (a, refl, Gathers-none m a)
  collect_each-Gathers (p ∷ ps) a l =
      let (b, e, v) = walks p (noted p a) l in
      let (c, e', g) =
        collect_each-Gathers ps b
          (omega (arith, l, unseen_mono m a.visited b.visited v.keeps_visited)) in
      (
        c,
        ap (λ o. option_then o (λ s. collect_each visit ps s)) e ∙ e',
        Gathers-cons m p ps a b c v g,
      )

no_parents :
    (m : ParentsOf) (role : Str) → is_some (lookup role m) ≡ false → or_empty (lookup role m) ≡ []
no_parents m role h = ground arith

pub collect_parent_roles-Walks :
    (n : ℕ) (m : ParentsOf) (role : Str) (c : Collected)
    → unseen m c.visited < n
    → WalksTo m (role ∷ []) c (collect_parent_roles n m role c)
unfolding collect_parent_roles collect_each
collect_parent_roles-Walks zero m role c l = absurd (omega arith)
collect_parent_roles-Walks (suc n) m role c l = elim (Bool-cases (contains c.visited role)) [
  | inl seen ↦ rw seen (c, refl, Walks-seen m role c seen)
  | inr new ↦ elim (Bool-cases (is_some (lookup role m))) [
    | inl known ↦ rw new (
        let (b, e, g) =
          collect_each-Gathers n m (collect_parent_roles-Walks n m) (or_empty (lookup role m))
            (marked role c) (omega (arith, l, unseen-insert role m c.visited known new)) in
        (b, e, Walks-new m role c b g))
    | inr unknown ↦
        rw (new, no_parents m role unknown)
          (
            marked role c,
            refl,
            Walks-new m role c (marked role c)
                (rw (no_parents m role unknown) (Gathers-none m (marked role c))),
          )
  ]
]
