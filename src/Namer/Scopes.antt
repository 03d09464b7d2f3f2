-- ===== src/Namer/Scopes.antt =====
-- ScopeParents, ScopeValue and `withScope` of internal/namer/namer.go.
pub mod Parents
use access_management.Prelude.{
  ℕ, zero, suc, ◌≡◌, refl, Bool, false, ◌||◌, Option, none, some, List, [], ◌∷◌, ◌++◌, Str, ◌==◌,
  if◌then◌else◌, length, get_elem?, take, is_empty,
}

-- scope[i] == '.'
abbrev is_dot : Option ℕ → Bool
is_dot none = false
is_dot (some c) = c == b'.'

-- The loop of ScopeParents, with `i` bytes left to look at: a yield is an element.
unfoldable pub parents_from : ℕ → Str → List Str
parents_from zero scope = []
parents_from (suc i) scope =
    let rest = parents_from i scope in
    if is_dot (get_elem? scope i) || i == 0 then take i scope ∷ rest else rest

unfoldable pub scope_parents : Str → List Str
unfolding parents_from
scope_parents scope = parents_from (length scope) scope

-- strings.TrimPrefix(scope, ".")
unfoldable pub scope_value : Str → Str
scope_value [] = []
scope_value (c ∷ s) = if c == b'.' then s else c ∷ s

unfoldable pub with_scope : Str → Str → Str
with_scope fqn scope = if is_empty scope then fqn else fqn ++ b'/' ∷ scope

-- The loop of buildFQNTree, with `i` bytes left to look at.
module _ {ℓ} {T : Type ℓ} (element_fn : Str → T) (fqn : Str) where
  tree_from : ℕ → Str → List T
  tree_from zero scope = []
  tree_from (suc i) scope =
      let rest = tree_from i scope in
      if is_dot (get_elem? scope i) then element_fn (with_scope fqn (take i scope)) ∷ rest else rest

  unfoldable pub build_fqn_tree : Str → List T
  unfolding tree_from
  build_fqn_tree scope =
      if is_empty scope
      then element_fn fqn ∷ []
      else element_fn (with_scope fqn scope) ∷ tree_from (length scope) scope ++ element_fn fqn ∷ []

parents_of_abc :
    scope_parents (b'a' ∷ b'.' ∷ b'b' ∷ b'.' ∷ b'c' ∷ [])
    ≡ (b'a' ∷ b'.' ∷ b'b' ∷ []) ∷ (b'a' ∷ []) ∷ [] ∷ []
unfolding scope_parents
parents_of_abc = refl
