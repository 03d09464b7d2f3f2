-- ===== src/Namer/Scopes/Parents.antt =====
-- Which scopes ScopeParents yields, and that buildFQNTree walks the same scopes.
use access_management.Prelude.{
  ℕ, zero, suc, ◌<◌, ◌≡◌, ◌≢◌, ◌↔◌, ◌⊎◌, inl, inr, refl, ap, true, false, ◌||◌, [], ◌∷◌, ◌++◌, map,
  arith, Str, ◌==◌, length, get_elem?, take, drop, mem, str_eq_iff, str_eq, str_eq_refl, Bool-cases,
  length-append,
}
use mathlib.Core.Path.{subst}
use access_management.Namer.Scopes.{
  is_dot, parents_from, scope_parents, with_scope, tree_from, build_fqn_tree,
}

-- `p` stands above `scope`: it ends just before a dot of `scope`, or is the root scope.
abbrev pub IsParent : Str → Str → Type 0
IsParent p scope = ((r : Str) × (scope ≡ p ++ b'.' ∷ r)) ⊎ ((p ≡ []) × (scope ≢ []))

split_at_dot :
    (i : ℕ) (s : Str) → is_dot (get_elem? s i) ≡ true → s ≡ take i s ++ b'.' ∷ drop (suc i) s
split_at_dot i [] h = cc
split_at_dot zero (c ∷ s) h = ground arith
split_at_dot (suc i) (c ∷ s) h = ap (λ t. c ∷ t) (split_at_dot i s h)

take-append : (p : Str) (r : Str) → take (length p) (p ++ r) ≡ p
take-append [] r = refl
take-append (c ∷ p) r = ap (λ t. c ∷ t) (take-append p r)

dot_after : (p : Str) (r : Str) → is_dot (get_elem? (p ++ b'.' ∷ r) (length p)) ≡ true
dot_after [] r = refl
dot_after (c ∷ p) r = dot_after p r

IsParent-at :
    (i : ℕ) (s : Str) → s ≢ [] → (is_dot (get_elem? s i) || i == 0) ≡ true → IsParent (take i s) s
IsParent-at zero s n h = inr (refl, n)
IsParent-at (suc i) s n h = inl (drop (suc (suc i)) s, split_at_dot (suc i) s (ground arith))

yielded-IsParent : (n : ℕ) (p s : Str) → s ≢ [] → mem p (parents_from n s) ≡ true → IsParent p s
unfolding parents_from mem
yielded-IsParent zero p s ne h = cc
yielded-IsParent (suc i) p s ne h = elim (Bool-cases (is_dot (get_elem? s i) || i == 0)) [
  | inl parent ↦ elim (Bool-cases (str_eq (take i s) p)) [
    | inl e ↦ subst (λ q. IsParent q s) ((str_eq_iff (take i s) p).0 e) (IsParent-at i s ne parent)
    | inr d ↦ yielded-IsParent i p s ne (ground arith)
  ]
  | inr skipped ↦ yielded-IsParent i p s ne (ground arith)
]

is_yielded :
    (i n : ℕ) (s : Str)
    → i < n
    → (is_dot (get_elem? s i) || i == 0) ≡ true
    → mem (take i s) (parents_from n s) ≡ true
unfolding parents_from mem
is_yielded i zero s lt h = absurd (omega arith)
is_yielded i (suc n) s lt h = ground (arith, str_eq_refl (take i s), is_yielded i n s)

length-before : (p r : Str) → length p < length (p ++ b'.' ∷ r)
length-before p r = omega (arith, length-append p (b'.' ∷ r))

IsParent-yielded : (p s : Str) → IsParent p s → mem p (scope_parents s) ≡ true
unfolding scope_parents
IsParent-yielded p s (inl (r, e)) = rw e (
    subst (λ q. mem q (parents_from (length (p ++ b'.' ∷ r)) (p ++ b'.' ∷ r)) ≡ true)
      (take-append p (b'.' ∷ r))
      (is_yielded (length p) _ (p ++ b'.' ∷ r) (length-before p r) (ground (arith, dot_after p r))))
IsParent-yielded p [] (inr (e, ne)) = absurd (ne refl)
IsParent-yielded p (c ∷ s) (inr (e, ne)) =
    rw e (is_yielded 0 (length (c ∷ s)) (c ∷ s) (omega arith) (ground arith))

-- ScopeParents yields a scope exactly if it stands above the given one: it ends just before a dot
-- of that scope, or it is the root scope and that scope is not.
pub mem-scope_parents : (p s : Str) → (mem p (scope_parents s) ≡ true) ↔ IsParent p s
unfolding scope_parents mem
mem-scope_parents p [] = (λ h. absurd (ground arith), IsParent-yielded p [])
mem-scope_parents p (c ∷ s) =
    (yielded-IsParent (length (c ∷ s)) p (c ∷ s) (λ e. cc), IsParent-yielded p (c ∷ s))

module _ {ℓ} {T : Type ℓ} (element_fn : Str → T) (fqn : Str) where
  tree_from-eq-map :
      (i : ℕ) (s : Str)
      → is_dot (get_elem? s 0) ≡ false
      → tree_from element_fn fqn (suc i) s ++ element_fn fqn ∷ []
        ≡ map (λ p. element_fn (with_scope fqn p)) (parents_from (suc i) s)
  unfolding tree_from parents_from with_scope
  tree_from-eq-map zero s h = ground arith
  tree_from-eq-map (suc i) s h = ground (arith, tree_from-eq-map i s h)

  -- For a scope that is not the root and has no leading dot, buildFQNTree makes one element for
  -- the scope and one for each scope that ScopeParents yields, in that order.
  pub build_fqn_tree-eq-map :
      (s : Str)
      → s ≢ []
      → is_dot (get_elem? s 0) ≡ false
      → build_fqn_tree element_fn fqn s
        ≡ map (λ p. element_fn (with_scope fqn p)) (s ∷ scope_parents s)
  unfolding build_fqn_tree scope_parents
  build_fqn_tree-eq-map [] ne h = absurd (ne refl)
  build_fqn_tree-eq-map (c ∷ s) ne h =
      ap (λ t. element_fn (with_scope fqn (c ∷ s)) ∷ t) (tree_from-eq-map (length s) (c ∷ s) h)
