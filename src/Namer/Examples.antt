-- ===== src/Namer/Examples.antt =====
-- The theorems about names at concrete scopes, names and versions.
use access_management.Prelude.{◌≡◌, ◌↔◌, refl, inl, inr, true, [], ◌∷◌, map, codes, mem}
use access_management.Namer.Sanitize.{
  sanitize, matches_old_name_pattern, replace_runs, is_invalid_identifier_char, Sanitized,
  sanitize-Sanitized,
}
use access_management.Namer.Scopes.{with_scope, build_fqn_tree, scope_parents}
use access_management.Namer.Scopes.Parents.{IsParent, mem-scope_parents, build_fqn_tree-eq-map}
use access_management.Namer.Fqn.{scope_from_fqn, resource_policy_fqn}
use access_management.Namer.Fqn.Roundtrip.{scope_from_fqn-resource_policy_fqn}

mem-scope_parents_example :
    (mem (codes "a") (scope_parents (codes "a.b")) ≡ true) ↔ IsParent (codes "a") (codes "a.b")
mem-scope_parents_example = mem-scope_parents (codes "a") (codes "a.b")

build_fqn_tree-eq-map_example :
    build_fqn_tree (λ s. s) (codes "x") (codes "a.b")
    ≡ map (λ p. with_scope (codes "x") p) (codes "a.b" ∷ scope_parents (codes "a.b"))
build_fqn_tree-eq-map_example =
    build_fqn_tree-eq-map (λ s. s) (codes "x") (codes "a.b") (λ e. cc) refl

sanitize-Sanitized_example : Sanitized (codes "a@-b") (sanitize (codes "a@-b"))
sanitize-Sanitized_example = sanitize-Sanitized (codes "a@-b")

at_signs : sanitize (codes "a@-b") ≡ codes "a_b"
unfolding sanitize matches_old_name_pattern replace_runs is_invalid_identifier_char
at_signs = refl

old_doc : matches_old_name_pattern (codes "doc") ≡ true
unfolding matches_old_name_pattern
old_doc = refl

scope_from_fqn-resource_policy_fqn_example :
    scope_from_fqn (resource_policy_fqn (codes "doc") [] (codes "a.b")) ≡ codes "a.b"
scope_from_fqn-resource_policy_fqn_example =
    scope_from_fqn-resource_policy_fqn (codes "doc") [] (codes "a.b") (inr old_doc) (inl refl)
