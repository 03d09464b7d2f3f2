-- ===== src/RuleIndex/Matches.antt =====
-- When a row is one that a query asks for, said of the row's own fields.
use access_management.Prelude.{
  ◌≡◌, refl, Bool, true, false, not, ◌&&◌, ◌||◌, Option, none, some, List, [], ◌∷◌, any, is_some,
  arith, if◌then◌else◌, Str, str_eq, is_empty,
}
use access_management.Check.Types.{Kind, kind_unspecified, principal, resource}
use access_management.RuleIndex.Globs.{GlobLibrary, is_glob, matches_glob}
use access_management.RuleIndex.GlobFiling.{field_matches, key_matches}
use access_management.RuleIndex.Rows.{Handle, kind_eq}
use access_management.RuleIndex.Indexes.{given, equals}
use access_management.RuleIndex.Queries.{ResourceKind}

-- Principal rows' globs are matched against the sanitized kind, those of other rows are not.
abbrev pub reads_sanitized : Kind → Handle → Bool
reads_sanitized resource b = false
reads_sanitized principal b = true
reads_sanitized k b = kind_eq b.policy_kind principal

-- A test of the row at a number, if there is one.
abbrev pub asked : (Handle → Bool) → Option Handle → Bool
asked p none = false
asked p (some b) = p b

module _ (L : GlobLibrary) where
  -- An empty field matches nothing.
  abbrev pub value_matches : Str → Str → Bool
  value_matches f v = not (is_empty f) && field_matches L f v

  abbrev pub sanitized_matches : ResourceKind → Kind → Handle → Bool
  sanitized_matches kind k b =
      not (is_empty b.resource_of)
      && (if is_glob b.resource_of
          then reads_sanitized k b && matches_glob L b.resource_of kind.sanitized
          else str_eq b.resource_of kind.sanitized)

  abbrev pub resource_matches : ResourceKind → Kind → Handle → Bool
  resource_matches kind k b =
      value_matches b.resource_of kind.raw
      || (not (is_empty kind.sanitized) && sanitized_matches kind k b)

  abbrev pub action_matches : Str → Handle → Bool
  action_matches action b = not (is_some b.allow_actions) && value_matches b.action_of action

  -- The row has the scope, and each other field matches what is asked for, where something is.
  abbrev pub fields_match : Str → ResourceKind → Str → List Str → Kind → Str → Handle → Bool
  fields_match version kind scope roles k principal_id b =
      (is_empty version || str_eq b.version_of version)
      && (str_eq b.scope_of scope
          && ((is_empty kind.raw || resource_matches kind k b)
              && ((is_empty roles || any (λ r. value_matches b.role_of r) roles)
                  && ((kind_eq k kind_unspecified || kind_eq b.policy_kind k)
                      && (is_empty principal_id || str_eq b.principal_of principal_id)))))

  unfoldable pub row_matches :
      Str → ResourceKind → Str → Str → List Str → Kind → Str → Handle → Bool
  row_matches version kind scope action roles k principal_id b =
      fields_match version kind scope roles k principal_id b
      && (is_empty action || action_matches action b)

  pub key_matches-given : (f v : Str) → key_matches L (given f) v ≡ value_matches f v
  key_matches-given [] v = refl
  key_matches-given (c ∷ f) v = refl

pub equals-given : (f v : Str) → is_empty v ≡ false → equals (given f) v ≡ str_eq f v
unfolding str_eq
equals-given [] [] h = absurd (ground arith)
equals-given [] (c ∷ v) h = refl
equals-given (c ∷ f) v h = refl
