-- ===== src/Hierarchy/Relations.antt =====
-- The relations between hierarchies by the prefixes they share.
use access_management.Prelude.{
  ℕ, zero, suc, ◌+◌, ◌-◌, ◌≡◌, refl, ap, ◌∙◌, ◌↔◌, true, false, ◌&&◌, ◌||◌, none, some, [], ◌∷◌,
  ◌++◌, Str, ◌==◌, ltb, leb, length, take, str_eq_iff, str_eq_refl, arith, length-append,
}
use access_management.Hierarchy.Values.{
  Hierarchy, matches, matches_up_to, ancestor_of, descendent_of, immediate_parent_of, sibling_of,
  overlaps, common_ancestors, equal_at, common_of, without_last,
}
use access_management.Hierarchy.Prefixes.{
  matches-append, prefix_of_matches, length-matches, matches_swap, matches-common, matches-take,
}

longer :
    (h r : Hierarchy)
    → leb (length (h ++ r)) (length h) ≡ false
    → (s : Str) × (t : Hierarchy) × (r ≡ s ∷ t)
longer h [] l = absurd (ground (arith, length-append h []))
longer h (s ∷ t) l = (s, t, refl)

ancestor-append : (h : Hierarchy) (s : Str) (r : Hierarchy) → ancestor_of h (h ++ s ∷ r) ≡ true
unfolding ancestor_of
ancestor-append h s r = ground (arith, matches-append h (s ∷ r), length-append h (s ∷ r))

-- ancestorOf holds exactly if the other hierarchy has this one's parts first, and then more.
pub ancestor_of_iff :
    (h c : Hierarchy) → (ancestor_of h c ≡ true) ↔ ((s : Str) × (r : Hierarchy) × (c ≡ h ++ s ∷ r))
unfolding ancestor_of
ancestor_of_iff h c = (
  (λ a.
      let (r, e) = prefix_of_matches h c (ground arith) in
      let (s, t, d) = longer h r (ground (arith, e)) in (s, t, e ∙ ap (λ u. h ++ u) d)),
  (λ (s, r, e). rw e (ancestor-append h s r)),
)

one_longer : (h r : Hierarchy) → (length (h ++ r) == length h + 1) ≡ true → (s : Str) × (r ≡ s ∷ [])
one_longer h [] l = absurd (ground (arith, length-append h []))
one_longer h (s ∷ []) l = (s, refl)
one_longer h (s ∷ t ∷ r) l = absurd (ground (arith, length-append h (s ∷ t ∷ r)))

parent-append : (h : Hierarchy) (s : Str) → immediate_parent_of h (h ++ s ∷ []) ≡ true
unfolding immediate_parent_of
parent-append h s = ground (arith, matches-append h (s ∷ []), length-append h (s ∷ []))

-- immediateParentOf holds exactly if the other hierarchy is this one with one part added.
pub immediate_parent_of_iff :
    (h c : Hierarchy) → (immediate_parent_of h c ≡ true) ↔ ((s : Str) × (c ≡ h ++ s ∷ []))
unfolding immediate_parent_of
immediate_parent_of_iff h c = (
  (λ a.
      let (r, e) = prefix_of_matches h c (ground arith) in
      let (s, d) = one_longer h r (ground (arith, e)) in (s, e ∙ ap (λ u. h ++ u) d)),
  (λ (s, e). rw e (parent-append h s)),
)

-- overlaps holds exactly if the hierarchies are equal or one is an ancestor of the other.
pub overlaps-or :
    (h o : Hierarchy) → overlaps h o ≡ (equal_at h o || (ancestor_of h o || descendent_of h o))
unfolding overlaps ancestor_of descendent_of
overlaps-or h o = ground (arith, length-matches h o, length-matches o h, matches_swap h o)

siblings_from :
    (p : Hierarchy) (x : Str) (o : Hierarchy)
    → length o ≡ suc (length p)
    → matches_up_to (length p) (p ++ x ∷ []) o ≡ true
    → (y : Str) × (o ≡ p ++ y ∷ [])
unfolding matches_up_to
siblings_from [] x [] l m = absurd (omega arith)
siblings_from [] x (y ∷ []) l m = (y, refl)
siblings_from [] x (y ∷ z ∷ o) l m = absurd (omega arith)
siblings_from (s ∷ p) x [] l m = absurd (omega arith)
siblings_from (s ∷ p) x (t ∷ o) l m =
    let (y, e) = siblings_from p x o (omega arith) (ground arith) in
    (y, ground (arith, e, str_eq_iff s t))

matches_up_to-append :
    (p : Hierarchy) (x y : Str) → matches_up_to (length p) (p ++ x ∷ []) (p ++ y ∷ []) ≡ true
unfolding matches_up_to
matches_up_to-append [] x y = refl
matches_up_to-append (s ∷ p) x y = ground (arith, matches_up_to-append p x y, str_eq_refl s)

last_index : (p : Hierarchy) (x : Str) → length (p ++ x ∷ []) - 1 ≡ length p
last_index p x = omega (arith, length-append p (x ∷ []))

sibling-append : (p : Hierarchy) (x y : Str) → sibling_of (p ++ x ∷ []) (p ++ y ∷ []) ≡ true
unfolding sibling_of
sibling-append p x y = ground (
  arith,
  length-append p (x ∷ []),
  length-append p (y ∷ []),
  matches_up_to-append p x y,
  ap (λ n. matches_up_to n (p ++ x ∷ []) (p ++ y ∷ [])) (last_index p x),
)

-- siblingOf, for a hierarchy with a last part, holds exactly if the other one differs from it in
-- the last part at most.
pub sibling_of_iff :
    (p : Hierarchy) (x : Str) (o : Hierarchy)
    → (sibling_of (p ++ x ∷ []) o ≡ true) ↔ ((y : Str) × (o ≡ p ++ y ∷ []))
unfolding sibling_of
sibling_of_iff p x o = (
  (λ a.
      siblings_from p x o (ground (arith, length-append p (x ∷ [])))
        (ground (arith, ap (λ n. matches_up_to n (p ++ x ∷ []) o) (last_index p x)))),
  (λ (y, e). rw e (sibling-append p x y)),
)

matches-common_of :
    (n : ℕ) (a b c p : Hierarchy)
    → common_of (without_last n a) (without_last n b) ≡ some c
    → matches p c ≡ ((matches p a && matches p b) && ltb (length p) n)
matches-common_of zero a b c p e = absurd (ground arith)
matches-common_of (suc n) a b c p e =
    ground (arith, matches-common p (take n a) (take n b), matches-take n p a, matches-take n p b)

-- The prefixes of what commonAncestors returns are those of both hierarchies that are shorter than
-- the longer of the two.
pub matches-common_ancestors :
    (h o c p : Hierarchy)
    → common_ancestors h o ≡ some c
    → matches p c
      ≡ ((matches p h && matches p o) && (ltb (length p) (length h) || ltb (length p) (length o)))
unfolding common_ancestors
matches-common_ancestors h o c p e = ground (
  arith,
  matches-common_of (length o) h o c p,
  matches-common p h o,
  matches-common p o h,
  length-matches p h,
  length-matches p o,
)

-- commonAncestors fails exactly on two empty hierarchies.
pub common_ancestors-fails :
    (h o : Hierarchy) → (common_ancestors h o ≡ none) ↔ ((h ≡ []) × (o ≡ []))
unfolding common_ancestors
common_ancestors-fails [] [] = ((λ e. (refl, refl)), (λ e. refl))
common_ancestors-fails [] (y ∷ o) = ((λ e. absurd (ground arith)), (λ (e, d). absurd cc))
common_ancestors-fails (x ∷ h) o = ((λ e. absurd (ground arith)), (λ (e, d). absurd cc))
