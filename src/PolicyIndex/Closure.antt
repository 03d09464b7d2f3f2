-- ===== src/PolicyIndex/Closure.antt =====
-- addTransitiveDependents reaches a set that is closed under dependents, on enough fuel.
use access_management.Prelude.{
  ℕ, zero, suc, ◌+◌, ◌≤◌, ◌<◌, ◌≡◌, ◌⊎◌, inl, inr, true, false, ◌||◌, refl, ap, ◌∙◌, Option, some,
  option_then, List, [], ◌∷◌, ◌==◌, arith, lookup, insert, lookup-insert, is_some, nat_comparable,
  length, Bool-cases, if◌then◌else◌,
}
use access_management.PolicyIndex.State.{ModuleId, ModuleIdSet, linked, members}
use access_management.PolicyIndex.Links.{Links, has_link, has_id, has_id-linked}
use access_management.PolicyIndex.Dependents.{contains, add_each, add_transitive_dependents}

-- The modules with links that are not in the set.
pub unseen : Links → ModuleIdSet → ℕ
unseen [] set = 0
unseen ((k, s) ∷ m) set = (if contains set k then 0 else 1) + unseen m set

pub contains-insert :
    (d x : ModuleId) (set : ModuleIdSet)
    → contains (insert d tt set) x ≡ ((d == x) || contains set x)
contains-insert d x set = ground (arith, lookup-insert d x tt set)

unseen_mono :
    (m : Links) (a b : ModuleIdSet)
    → ((x : ModuleId) → contains a x ≡ true → contains b x ≡ true)
    → unseen m b ≤ unseen m a
unfolding unseen
unseen_mono [] a b h = omega arith
unseen_mono ((k, s) ∷ m) a b h = ground (arith, unseen_mono m a b h, h k)

pub unseen_at_most : (m : Links) (set : ModuleIdSet) → unseen m set ≤ length m
unfolding unseen
unseen_at_most [] set = omega arith
unseen_at_most ((k, s) ∷ m) set = ground (arith, unseen_at_most m set)

insert_mono :
    (d : ModuleId) (set : ModuleIdSet) (x : ModuleId)
    → contains set x ≡ true
    → contains (insert d tt set) x ≡ true
insert_mono d set x h = ground (arith, contains-insert d x set)

unseen-insert :
    (d : ModuleId) (m : Links) (set : ModuleIdSet)
    → is_some (lookup d m) ≡ true
    → contains set d ≡ false
    → unseen m (insert d tt set) < unseen m set
unfolding unseen lookup
unseen-insert d [] set k n = absurd (ground arith)
unseen-insert d ((j, s) ∷ m) set k n = ground (
  arith,
  unseen-insert d m set,
  unseen_mono m set (insert d tt set) (insert_mono d set),
  contains-insert d j set,
)

-- From the set `a` a visit of `targets` leads to the set `b`.
pub record Visits (m : Links) (targets : List ModuleId) (a b : ModuleIdSet) : Type 0 where
  pub keeps : (x : ModuleId) → contains a x ≡ true → contains b x ≡ true
  pub covers : (x : ModuleId) → has_id x targets ≡ true → contains b x ≡ true
  pub closed :
      (x y : ModuleId)
      → contains a x ≡ false
      → contains b x ≡ true
      → has_link m x y ≡ true
      → contains b y ≡ true

-- Enough fuel for a visit of the links of `id`.
abbrev pub IsFuel : ℕ → Links → ModuleId → ModuleIdSet → Type 0
IsFuel n m id set = (suc (unseen m set) < n) ⊎ ((0 < n) × (linked m id ≡ []))

-- A visit of `targets` from the set `a` returns, and leads to a set as described.
abbrev pub VisitsTo : Links → List ModuleId → ModuleIdSet → Option ModuleIdSet → Type 0
VisitsTo m targets a o = (b : ModuleIdSet) × (o ≡ some b) × Visits m targets a b

Visits-none : (m : Links) (a : ModuleIdSet) → Visits m [] a a
Visits-none m a = record {
  keeps = λ x h. h;
  covers = λ x h. absurd (ground (arith, h));
  closed = λ x y n h l. absurd (ground (arith, n, h));
}

Visits-seen :
    (m : Links) (d : ModuleId) (a : ModuleIdSet) → contains a d ≡ true → Visits m (d ∷ []) a a
Visits-seen m d a s = record {
  keeps = λ x h. h;
  covers = λ x h. ground (arith, h, s);
  closed = λ x y n h l. absurd (ground (arith, n, h));
}

Visits-new :
    (m : Links) (d : ModuleId) (a b : ModuleIdSet)
    → Visits m (linked m d) (insert d tt a) b
    → Visits m (d ∷ []) a b
Visits-new m d a b v = record {
  keeps = λ x h. v.keeps x (insert_mono d a x h);
  covers = λ x h. v.keeps x (ground (arith, h, contains-insert d x a));
  closed = λ x y n h l.
      ground (arith, n, h, l, v.closed x y, v.covers y, contains-insert d x a, has_id-linked m d y);
}

Visits-cons :
    (m : Links) (d : ModuleId) (ds : List ModuleId) (a b c : ModuleIdSet)
    → Visits m (d ∷ []) a b
    → Visits m ds b c
    → Visits m (d ∷ ds) a c
Visits-cons m d ds a b c v w = record {
  keeps = λ x h. w.keeps x (v.keeps x h);
  covers = λ x h. ground (arith, h, v.covers x, w.keeps x, w.covers x);
  closed = λ x y n h l. ground (arith, n, h, l, v.closed x y, w.closed x y, w.keeps y);
}

linked-unknown : (m : Links) (d : ModuleId) → is_some (lookup d m) ≡ false → linked m d ≡ []
unfolding linked members
linked-unknown m d h = ground arith

child-IsFuel :
    (n : ℕ) (m : Links) (d : ModuleId) (set : ModuleIdSet)
    → suc (unseen m set) ≤ n
    → contains set d ≡ false
    → IsFuel n m d (insert d tt set)
child-IsFuel n m d set l s = elim (Bool-cases (is_some (lookup d m))) [
  | inl known ↦ inl (omega (arith, unseen-insert d m set known s))
  | inr unknown ↦ inr (omega arith, linked-unknown m d unknown)
]

module _ (n : ℕ) (m : Links)
    (visits : (d : ModuleId) (set : ModuleIdSet)
      → IsFuel n m d set
      → VisitsTo m (linked m d) set (add_transitive_dependents n m d set)) where
  abbrev visit : ModuleId → ModuleIdSet → Option ModuleIdSet
  visit d set = add_transitive_dependents n m d set

  visit-Visits :
      (d : ModuleId) (set : ModuleIdSet)
      → suc (unseen m set) ≤ n
      → VisitsTo m (d ∷ []) set (if contains set d then some set else visit d (insert d tt set))
  visit-Visits d set l = elim (Bool-cases (contains set d)) [
    | inl seen ↦ rw seen (set, refl, Visits-seen m d set seen)
    | inr new ↦ rw new (
        let (b, e, v) = visits d (insert d tt set) (child-IsFuel n m d set l new) in
        (b, e, Visits-new m d set b v))
  ]

  add_each-Visits :
      (ds : List ModuleId) (set : ModuleIdSet)
      → suc (unseen m set) ≤ n
      → VisitsTo m ds set (add_each visit ds set)
  unfolding add_each
  add_each-Visits [] set l = (set, refl, Visits-none m set)
  add_each-Visits (d ∷ ds) set l =
      let (b, e, v) = visit-Visits d set l in
      let (c, e', w) = add_each-Visits ds b (omega (arith, l, unseen_mono m set b v.keeps)) in
      (c, ap (λ o. option_then o (λ s. add_each visit ds s)) e ∙ e', Visits-cons m d ds set b c v w)

pub add_transitive_dependents-Visits :
    (n : ℕ) (m : Links) (id : ModuleId) (set : ModuleIdSet)
    → IsFuel n m id set
    → VisitsTo m (linked m id) set (add_transitive_dependents n m id set)
unfolding add_transitive_dependents add_each
add_transitive_dependents-Visits zero m id set (inl l) = absurd (omega arith)
add_transitive_dependents-Visits zero m id set (inr e) = absurd (omega (arith, e.0))
add_transitive_dependents-Visits (suc n) m id set (inl l) =
    add_each-Visits n m (add_transitive_dependents-Visits n m) (linked m id) set (omega arith)
add_transitive_dependents-Visits (suc n) m id set (inr (l, e)) = rw e (set, refl, Visits-none m set)
