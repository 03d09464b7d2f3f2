-- ===== src/Namer/Fqn.antt =====
-- The fully qualified names of internal/namer/namer.go.
pub mod Roundtrip
use access_management.Prelude.{
  Bool, true, false, ◌&&◌, ◌||◌, Option, none, some, List, [], ◌∷◌, ◌++◌, Str, ◌==◌, leb, ◌+◌, map,
  codes, str_eq, is_empty, if◌then◌else◌,
}
use access_management.Namer.Sanitize.{sanitize}
use access_management.Namer.Scopes.{with_scope}

-- strings.TrimPrefix
abbrev after_prefix : Str → Str → Option Str
after_prefix [] s = some s
after_prefix (c ∷ p) [] = none
after_prefix (c ∷ p) (d ∷ s) = let rest = after_prefix p s in if c == d then rest else none

unfoldable pub trim_prefix : Str → Str → Str
trim_prefix p s = elim (after_prefix p s) [ none ↦ s | some rest ↦ rest ]

abbrev pub fqn_prefix : Str
fqn_prefix = codes "cerbos."

abbrev pub derived_roles_prefix : Str
derived_roles_prefix = codes "cerbos.derived_roles"

abbrev pub export_constants_prefix : Str
export_constants_prefix = codes "cerbos.export_constants"

abbrev pub export_variables_prefix : Str
export_variables_prefix = codes "cerbos.export_variables"

abbrev pub principal_policies_prefix : Str
principal_policies_prefix = codes "cerbos.principal"

abbrev pub resource_policies_prefix : Str
resource_policies_prefix = codes "cerbos.resource"

abbrev pub role_policies_prefix : Str
role_policies_prefix = codes "cerbos.role"

abbrev pub default_version : Str
default_version = codes "default"

-- fmt.Sprintf("%s.%s.v%s", prefix, sanitize(name), sanitize(version)), then withScope
unfoldable pub versioned_fqn : Str → Str → Str → Str → Str
versioned_fqn prefix_ name version scope =
    with_scope (prefix_ ++ (b'.' ∷ sanitize name ++ (b'.' ∷ b'v' ∷ sanitize version))) scope

unfoldable pub resource_policy_fqn : Str → Str → Str → Str
resource_policy_fqn resource version scope =
    versioned_fqn resource_policies_prefix resource version scope

unfoldable pub principal_policy_fqn : Str → Str → Str → Str
principal_policy_fqn principal version scope =
    versioned_fqn principal_policies_prefix principal version scope

unfoldable pub role_policy_fqn : Str → Str → Str → Str
role_policy_fqn role version scope =
    versioned_fqn role_policies_prefix role (if is_empty version then default_version else version)
      scope

-- fmt.Sprintf("%s.%s", prefix, sanitize(name))
abbrev simple_fqn : Str → Str → Str
simple_fqn prefix_ name = prefix_ ++ b'.' ∷ sanitize name

unfoldable pub derived_roles_fqn : Str → Str
derived_roles_fqn name = simple_fqn derived_roles_prefix name

unfoldable pub export_constants_fqn : Str → Str
export_constants_fqn name = simple_fqn export_constants_prefix name

unfoldable pub export_variables_fqn : Str → Str
export_variables_fqn name = simple_fqn export_variables_prefix name

-- the part of strings.Cut(fqn, "/") behind the slash
unfoldable pub scope_from_fqn : Str → Str
scope_from_fqn [] = []
scope_from_fqn (c ∷ s) = let rest = scope_from_fqn s in if c == b'/' then s else rest

unfoldable pub policy_key_from_fqn : Str → Str
unfolding trim_prefix
policy_key_from_fqn m = trim_prefix fqn_prefix m

unfoldable pub fqn_from_policy_key : Str → Str
fqn_from_policy_key s = fqn_prefix ++ s

unfoldable pub simple_name : Str → Str
unfolding trim_prefix
simple_name fqn = trim_prefix (derived_roles_prefix ++ b'.' ∷ []) (
    trim_prefix (export_constants_prefix ++ b'.' ∷ [])
      (trim_prefix (export_variables_prefix ++ b'.' ∷ []) fqn))

-- runtimev1.RuleTableMetadata.Name with the version, and the two older metadata messages
pub data PolicySetMeta : Type 0 where
  resource_meta principal_meta role_meta : Str → Str → PolicySetMeta

abbrev policy_fqn_of : PolicySetMeta → Str → Str
policy_fqn_of (resource_meta name version) scope = resource_policy_fqn name version scope
policy_fqn_of (principal_meta name version) scope = principal_policy_fqn name version scope
policy_fqn_of (role_meta name version) scope = role_policy_fqn name version scope

unfoldable pub rule_fqn : PolicySetMeta → Str → Str → Str
rule_fqn m scope rule_name = policy_key_from_fqn (policy_fqn_of m scope) ++ b'#' ∷ rule_name

pub record PolicyCoords : Type 0 where
  pub kind : Str
  pub name : Str
  pub version : Str
  pub scope : Str

-- strings.ToLower on ASCII
abbrev to_lower : Str → Str
to_lower = map (λ c. if leb b'A' c && leb c b'Z' then c + 32 else c)

-- PolicyCoords.FQN; `none` is the panic on an unknown kind.
unfoldable pub coords_fqn : PolicyCoords → Option Str
coords_fqn pc =
    let prefix_ = fqn_prefix ++ to_lower pc.kind in
    if str_eq prefix_ derived_roles_prefix
    then some (derived_roles_fqn pc.name)
    else if str_eq prefix_ export_constants_prefix
    then some (export_constants_fqn pc.name)
    else if str_eq prefix_ export_variables_prefix
    then some (export_variables_fqn pc.name)
    else if str_eq prefix_ principal_policies_prefix
    then some (principal_policy_fqn pc.name pc.version pc.scope)
    else if str_eq prefix_ resource_policies_prefix
    then some (resource_policy_fqn pc.name pc.version pc.scope)
    else if str_eq prefix_ role_policies_prefix
    then some (role_policy_fqn pc.name pc.version pc.scope)
    else none
