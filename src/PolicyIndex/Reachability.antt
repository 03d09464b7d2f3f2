-- ===== src/PolicyIndex/Reachability.antt =====
-- GetDependents finds exactly the modules that depend on a module, directly or through others.
use mathlib.Core.Path.{subst}
use access_management.Prelude.{
  ℕ, zero, suc, ◌+◌, ◌≡◌, refl, ap, ◌∙◌, Bool, false, Option, none, option_then, option_then-some,
  ◌↔◌, ◌⊎◌, inl, inr, true, List, [], ◌∷◌, ◌==◌, ==_iff, arith, lookup, insert, lookup-insert, some,
  nat_comparable, length, Bool-cases, if◌then◌else◌,
}
use access_management.PolicyIndex.State.{ModuleId, ModuleIdSet, Index, linked, members}
use access_management.PolicyIndex.Links.{Links, has_link, has_id, has_id-linked, has_id-members}
use access_management.PolicyIndex.Dependents.{
  contains, add_each, add_transitive_dependents, transitive_dependents, get_dependents,
}
use access_management.PolicyIndex.Closure.{
  contains-insert, unseen_at_most, VisitsTo, add_transitive_dependents-Visits,
}

-- `y` is linked to `x`, directly or through others.
pub data Reaches (m : Links) (x : ModuleId) : ModuleId → Type 0 where
  direct : {y : ModuleId} → has_link m x y ≡ true → Reaches m x y
  further : {y z : ModuleId} → Reaches m x y → has_link m y z ≡ true → Reaches m x z

Reaches-after :
    (m : Links) (x y : ModuleId)
    → has_link m x y ≡ true
    → {z : ModuleId} → Reaches m y z
    → Reaches m x z
Reaches-after m x y h (direct l) = further (direct h) l
Reaches-after m x y h (further r l) = further (Reaches-after m x y h r) l

-- The entry of `id` in what GetDependents returns, by whether `id` was asked for: exactly the modules
-- that are linked to it.
pub data Listed (idx : Index) (m : List (ModuleId × List ModuleId)) (id : ModuleId)
    : Bool → Type 0 where
  asked :
      (found : List ModuleId)
      → lookup id m ≡ some found
      → ((x : ModuleId) → (has_id x found ≡ true) ↔ Reaches idx.dependents id x)
      → Listed idx m id true
  not_asked : lookup id m ≡ none → Listed idx m id false

Listed-insert :
    (idx : Index) (m : List (ModuleId × List ModuleId)) (j : ModuleId) (js : List ModuleId)
    (id : ModuleId) (b : Bool)
    → (j == id) ≡ false
    → Listed idx m id b
    → Listed idx (insert j js m) id b
Listed-insert idx m j js id b d (Listed.asked found h k) =
    Listed.asked found (ground (arith, d, h, lookup-insert j id js m)) k
Listed-insert idx m j js id b d (Listed.not_asked h) =
    Listed.not_asked (ground (arith, d, h, lookup-insert j id js m))

-- Whatever a visit adds, if it returns, is linked to its start.
abbrev Adds : Links → ModuleId → ModuleIdSet → Option ModuleIdSet → Type 0
Adds m id a o =
    (b : ModuleIdSet)
    → o ≡ some b
    → (x : ModuleId) → contains b x ≡ true
    → (contains a x ≡ true) ⊎ Reaches m id x

Adds-none : (m : Links) (id : ModuleId) (set : ModuleIdSet) → Adds m id set (some set)
Adds-none m id set b e x h = inl (ground (arith, e, h))

module _ (n : ℕ) (m : Links)
    (adds : (d : ModuleId) (set : ModuleIdSet) → Adds m d set (add_transitive_dependents n m d set))
    (id : ModuleId) where
  abbrev visit : ModuleId → ModuleIdSet → Option ModuleIdSet
  visit d set = add_transitive_dependents n m d set

  visit-Adds :
      (d : ModuleId) (set : ModuleIdSet)
      → has_link m id d ≡ true
      → Adds m id set (if contains set d then some set else visit d (insert d tt set))
  visit-Adds d set l b e x h = elim (Bool-cases (contains set d)) [
    | inl seen ↦ Adds-none m id set b (ground (arith, seen, e)) x h
    | inr new ↦ elim (adds d (insert d tt set) b (ground (arith, new, e)) x h) [
      | inl inside ↦ elim (Bool-cases (d == x)) [
        | inl s ↦ inr (direct (ground (arith, s, l)))
        | inr s ↦ inl (ground (arith, s, inside, contains-insert d x set))
      ]
      | inr reached ↦ inr (Reaches-after m id d l reached)
    ]
  ]

  add_each-Adds :
      (ds : List ModuleId) (set : ModuleIdSet)
      → ((d : ModuleId) → has_id d ds ≡ true → has_link m id d ≡ true)
      → Adds m id set (add_each visit ds set)
  unfolding add_each
  add_each-Adds [] set l b e x h = Adds-none m id set b e x h
  add_each-Adds (d ∷ ds) set l b e x h =
      let (c, first, rest) =
        option_then-some (if contains set d then some set else visit d (insert d tt set))
          (λ s. add_each visit ds s) e in
      elim (add_each-Adds ds c (λ f k. l f (ground (arith, k))) b rest x h) [
        | inl inside ↦ visit-Adds d set (l d (ground arith)) c first x inside
        | inr reached ↦ inr reached
      ]

add_transitive_dependents-Adds :
    (n : ℕ) (m : Links) (id : ModuleId) (set : ModuleIdSet)
    → Adds m id set (add_transitive_dependents n m id set)
unfolding add_transitive_dependents
add_transitive_dependents-Adds zero m id set = λ b e. absurd (ground (arith, e))
add_transitive_dependents-Adds (suc n) m id set =
    add_each-Adds n m (add_transitive_dependents-Adds n m) id (linked m id) set
      (λ d k. ground (arith, k, has_id-linked m id d))

module _ (idx : Index) (id : ModuleId) where
  searched : VisitsTo idx.dependents (linked idx.dependents id) [] (transitive_dependents idx id)
  unfolding transitive_dependents
  searched =
      add_transitive_dependents-Visits (length idx.dependents + 2) idx.dependents id []
        (inl (omega (arith, unseen_at_most idx.dependents [])))

  abbrev found : ModuleIdSet
  found = searched.0

  reached_is_found : {x : ModuleId} → Reaches idx.dependents id x → contains found x ≡ true
  unfolding lookup
  reached_is_found {x} (direct l) =
      searched.2.covers x (ground (arith, l, has_id-linked idx.dependents id x))
  reached_is_found {x} (further {y = y} r l) = searched.2.closed y x refl (reached_is_found r) l

  found_is_reached : (x : ModuleId) → contains found x ≡ true → Reaches idx.dependents id x
  unfolding transitive_dependents lookup
  found_is_reached x h =
      elim (add_transitive_dependents-Adds (length idx.dependents + 2) idx.dependents id [] found
        searched.1 x h) [ inl inside ↦ absurd (ground (arith, inside)) | inr reached ↦ reached ]

  members-found : (x : ModuleId) → (has_id x (members found) ≡ true) ↔ Reaches idx.dependents id x
  members-found x = (
    (λ h. found_is_reached x (ground (arith, h, has_id-members found x))),
    (λ r. ground (arith, reached_is_found r, has_id-members found x)),
  )

get_dependents-cons :
    (idx : Index) (j : ModuleId) (ids : List ModuleId) (m : List (ModuleId × List ModuleId))
    → get_dependents idx ids ≡ some m
    → get_dependents idx (j ∷ ids) ≡ some (insert j (members (found idx j)) m)
unfolding get_dependents
get_dependents-cons idx j ids m e =
    ap
      (λ o.
        option_then o
          (λ s. option_then (get_dependents idx ids) (λ m'. some (insert j (members s) m'))))
      (searched idx j).1
    ∙ ap (λ o. option_then o (λ m'. some (insert j (members (found idx j)) m'))) e

-- GetDependents returns for every list of modules, whatever cycles the dependents have: the depth of
-- its recursion is bounded by the number of modules with dependents. What it returns lists for each
-- module asked for exactly the modules that depend on it, directly or through others, and has no
-- entry for another module.
pub get_dependents-Reaches :
    (idx : Index) (ids : List ModuleId)
    → (m : List (ModuleId × List ModuleId)) × (get_dependents idx ids ≡ some m)
      × ((id : ModuleId) → Listed idx m id (has_id id ids))
unfolding lookup
get_dependents-Reaches idx [] = ([], unfold get_dependents in refl, (λ id. Listed.not_asked refl))
get_dependents-Reaches idx (j ∷ ids) =
    let (m, e, all_listed) = get_dependents-Reaches idx ids in
    (
      insert j (members (found idx j)) m,
      get_dependents-cons idx j ids m e,
      (λ id. elim (Bool-cases (j == id)) [
        | inl s ↦ simp s (
            Listed.asked (members (found idx j))
              (ground (arith, s, ==_iff j id, lookup-insert j id (members (found idx j)) m))
              (λ x.
                subst (λ k. (has_id x (members (found idx j)) ≡ true) ↔ Reaches idx.dependents k x)
                  ((==_iff j id).0 s) (members-found idx j x)))
        | inr d ↦
            simp d
              (Listed-insert idx m j (members (found idx j)) id (has_id id ids) d (all_listed id))
      ]),
    )
