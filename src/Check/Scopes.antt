-- ===== src/Check/Scopes.antt =====
-- GetAllScopes of internal/ruletable/ruletable.go, and Scope and PolicyVersion of
-- internal/evaluator/evaluator.go.
use access_management.Prelude.{Bool, List, [], ◌∷◌, ◌++◌, Str, mem, is_empty, if◌then◌else◌}
use access_management.Namer.Scopes.{scope_parents, scope_value}
use access_management.Namer.Fqn.{policy_key_from_fqn}

-- evaluator.EvalParams, the fields that a check reads
pub record EvalParams : Type 0 where
  pub default_policy_version : Str
  pub default_scope : Str
  pub lenient_scope_search : Bool
  pub strict_evaluation : Bool

unfoldable pub policy_version : Str → EvalParams → Str
policy_version version params = if is_empty version then params.default_policy_version else version

unfoldable pub effective_scope : Str → EvalParams → Str
unfolding scope_value
effective_scope scope params = scope_value (if is_empty scope then params.default_scope else scope)

-- The scopes that hold policies, most specific first, with the key and the name of the first.
pub record AllScopes : Type 0 where
  pub scopes : List Str
  pub policy_key : Str
  pub fqn : Str

abbrev pub no_scopes : AllScopes
no_scopes = record { scopes = []; policy_key = []; fqn = [] }

-- One scope that holds a policy: the first to be found gives the names.
module _ (fqn_of : Str → Str) where
  abbrev pub add_scope : AllScopes → Str → AllScopes
  add_scope acc s =
      if is_empty acc.policy_key
      then record {
        scopes = acc.scopes ++ s ∷ [];
        policy_key = policy_key_from_fqn (fqn_of s);
        fqn = fqn_of s;
      }
      else record acc { scopes = acc.scopes ++ s ∷ [] }

  abbrev pub search_parents : List Str → AllScopes → List Str → AllScopes
  search_parents scope_map acc [] = acc
  search_parents scope_map acc (s ∷ ss) =
      search_parents scope_map (if mem s scope_map then add_scope acc s else acc) ss

  -- GetAllScopes; `fqn_of` is the naming function at the name and version.
  unfoldable pub get_all_scopes : List Str → Str → Bool → AllScopes
  get_all_scopes scope_map scope lenient =
      if mem scope scope_map
      then search_parents scope_map (add_scope no_scopes scope) (scope_parents scope)
      else if lenient
      then search_parents scope_map no_scopes (scope_parents scope)
      else no_scopes
