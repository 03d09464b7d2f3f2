-- ===== src/Namer/Fqn/Roundtrip.antt =====
-- Reading the parts of a name back.
use access_management.Prelude.{
  ℕ, ◌⊎◌, ◌≡◌, refl, Bool, true, false, [], ◌∷◌, ◌++◌, arith, Str, ◌==◌, any,
}
use access_management.Namer.Sanitize.{
  sanitize, matches_old_name_pattern, is_invalid_identifier_char, sanitize_valid,
}
use access_management.Namer.Scopes.{with_scope}
use access_management.Namer.Fqn.{
  scope_from_fqn, versioned_fqn, resource_policies_prefix, resource_policy_fqn,
}

abbrev is_slash : ℕ → Bool
is_slash c = c == b'/'

no_slash-append :
    (s t : Str) → any is_slash s ≡ false → any is_slash t ≡ false → any is_slash (s ++ t) ≡ false
no_slash-append [] t h k = k
no_slash-append (c ∷ s) t h k = ground (arith, no_slash-append s t)

scope_from_fqn-append : (s t : Str) → any is_slash s ≡ false → scope_from_fqn (s ++ b'/' ∷ t) ≡ t
unfolding scope_from_fqn
scope_from_fqn-append [] t h = refl
scope_from_fqn-append (c ∷ s) t h = ground (arith, scope_from_fqn-append s t)

scope_from_fqn-no_slash : (s : Str) → any is_slash s ≡ false → scope_from_fqn s ≡ []
unfolding scope_from_fqn
scope_from_fqn-no_slash [] h = refl
scope_from_fqn-no_slash (c ∷ s) h = ground (arith, scope_from_fqn-no_slash s)

pub scope_from_fqn-with_scope :
    (fqn scope : Str) → any is_slash fqn ≡ false → scope_from_fqn (with_scope fqn scope) ≡ scope
unfolding with_scope
scope_from_fqn-with_scope fqn [] h = scope_from_fqn-no_slash fqn h
scope_from_fqn-with_scope fqn (c ∷ s) h = scope_from_fqn-append fqn (c ∷ s) h

valid-no_slash : (s : Str) → any is_invalid_identifier_char s ≡ false → any is_slash s ≡ false
unfolding is_invalid_identifier_char
valid-no_slash [] h = refl
valid-no_slash (c ∷ s) h = ground (arith, valid-no_slash s)

-- A name that follows the old pattern, or is empty.
abbrev pub IsOldName : Str → Type 0
IsOldName v = (v ≡ []) ⊎ (matches_old_name_pattern v ≡ true)

sanitize-no_slash : (v : Str) → IsOldName v → any is_slash (sanitize v) ≡ false
sanitize-no_slash v h = valid-no_slash (sanitize v) (sanitize_valid v h)

versioned_no_slash :
    (p r v : Str)
    → any is_slash p ≡ false
    → IsOldName r
    → IsOldName v
    → any is_slash (p ++ (b'.' ∷ sanitize r ++ (b'.' ∷ b'v' ∷ sanitize v))) ≡ false
versioned_no_slash p r v hp hr hv =
    no_slash-append p _ hp
      (no_slash-append (sanitize r) _ (sanitize-no_slash r hr) (sanitize-no_slash v hv))

-- The scope is read back from the name of a resource policy, if the resource and the version
-- follow the old name pattern.
pub scope_from_fqn-resource_policy_fqn :
    (resource version scope : Str)
    → IsOldName resource
    → IsOldName version
    → scope_from_fqn (resource_policy_fqn resource version scope) ≡ scope
unfolding resource_policy_fqn versioned_fqn
scope_from_fqn-resource_policy_fqn resource version scope hr hv =
    scope_from_fqn-with_scope _ scope
      (versioned_no_slash resource_policies_prefix resource version refl hr hv)
