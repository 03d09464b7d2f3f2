-- ===== src/Check/ScopeSearch.antt =====
-- Which scopes GetAllScopes finds.
use access_management.Prelude.{
  ◌≡◌, refl, Bool, ◌||◌, List, [], ◌∷◌, ◌++◌, Str, arith, mem, Bool-cases, inl, inr, if◌then◌else◌,
}
use access_management.Namer.Scopes.{scope_parents}
use access_management.Check.Scopes.{AllScopes, no_scopes, add_scope, search_parents, get_all_scopes}

-- The scopes of a list that hold policies, in its order.
abbrev pub with_policies : List Str → List Str → List Str
with_policies scope_map [] = []
with_policies scope_map (s ∷ ss) =
    let rest = with_policies scope_map ss in if mem s scope_map then s ∷ rest else rest

append_assoc : (a b c : List Str) → (a ++ b) ++ c ≡ a ++ (b ++ c)
append_assoc [] b c = refl
append_assoc (x ∷ a) b c = ground (arith, append_assoc a b c)

append_nil : (a : List Str) → a ++ [] ≡ a
append_nil [] = refl
append_nil (x ∷ a) = ground (arith, append_nil a)

module _ (fqn_of : Str → Str) where
  scopes-add_scope :
      (acc : AllScopes) (s : Str) → (add_scope fqn_of acc s).scopes ≡ acc.scopes ++ s ∷ []
  scopes-add_scope acc s = ground arith

  scopes-search_parents :
      (scope_map : List Str) (acc : AllScopes) (ss : List Str)
      → (search_parents fqn_of scope_map acc ss).scopes ≡ acc.scopes ++ with_policies scope_map ss
  scopes-search_parents scope_map acc [] = ground (arith, append_nil acc.scopes)
  scopes-search_parents scope_map acc (s ∷ ss) = elim (Bool-cases (mem s scope_map)) [
    | inl there ↦ ground (
      arith,
      there,
      scopes-search_parents scope_map (add_scope fqn_of acc s) ss,
      scopes-add_scope acc s,
      append_assoc acc.scopes (s ∷ []) (with_policies scope_map ss),
    )
    | inr absent ↦ ground (arith, absent, scopes-search_parents scope_map acc ss)
  ]

  -- GetAllScopes returns those of the scope and the scopes above it that hold policies, in this
  -- order, or none if the scope itself holds none and the search is not lenient.
  pub scopes-get_all_scopes :
      (scope_map : List Str) (scope : Str) (lenient : Bool)
      → (get_all_scopes fqn_of scope_map scope lenient).scopes ≡ (
          if mem scope scope_map || lenient
          then with_policies scope_map (scope ∷ scope_parents scope)
          else [])
  unfolding get_all_scopes
  scopes-get_all_scopes scope_map scope lenient = ground (
    arith,
    scopes-search_parents scope_map (add_scope fqn_of no_scopes scope) (scope_parents scope),
    scopes-search_parents scope_map no_scopes (scope_parents scope),
  )
