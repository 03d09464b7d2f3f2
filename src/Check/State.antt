-- ===== src/Check/State.antt =====
-- What a check reads (the rule table) and what it changes (caches, results and the context).
use access_management.Prelude.{ℕ, Bool, Option, List, Str}
use access_management.Check.Types.{
  Effect, Kind, ScopePermissions, DerivedRole, EvaluationKeyTuple, Binding, Vars, CelError, Failure,
}
use access_management.Check.Condition.{EvalContext}
use access_management.Check.Variables.{OutputEntry}
use access_management.Namer.Fqn.{PolicySetMeta}

-- EffectInfo
pub record EffectInfo : Type 0 where
  pub policy : Str
  pub scope : Str
  pub effect : Effect

-- runtimev1.RuleTableMetadata, with the attributes of its sources as (policy key, text).
pub record Meta : Type 0 where
  pub name : PolicySetMeta
  pub source_attributes : List (Str × Str)

-- The operations of *RuleTable and its index that a check calls.
pub record RuleTable (V : Type 0) : Type 0 where
  -- Query: version, resource kind, scope, action, roles, policy kind, principal
  pub query : Str → Str → Str → Str → List Str → Kind → Str → List (Binding V)
  pub scoped_principal_exists : Str → List Str → Bool
  pub scoped_resource_exists : Str → Str → List Str → Bool
  pub add_parent_roles : List Str → List Str → List Str
  -- GetDerivedRoles, by the name of the policy
  pub derived_roles_of : Str → List (Str × DerivedRole V)
  pub get_meta : Str → Option Meta
  pub scope_permissions_of : Str → ScopePermissions
  pub principal_scope_map : List Str
  pub resource_scope_map : List Str

-- scopedDerivedRoles
pub record ScopedDerivedRoles : Type 0 where
  pub roles : List Str
  pub err_roles : List Str

-- The variables of `check` that outlive a rule: evalCtx, the three caches, and the parts of the
-- result that rules add to.
pub record State (V : Type 0) : Type 0 where
  pub ctx : EvalContext
  pub var_cache : List (ℕ × Vars V)
  pub condition_cache : List (EvaluationKeyTuple × Bool)
  pub processed : List (Str × ScopedDerivedRoles)
  pub effective_derived_roles : List Str
  pub effective_policies : List (Str × Str)
  pub outputs : List (OutputEntry V)
  pub cel_errors : List CelError

-- The variables of one role's walk through the scopes.
pub record Frame (V : Type 0) : Type 0 where
  pub state : State V
  pub role_effect : EffectInfo
  pub has_allow : Bool

-- How a step of a loop over bindings or scopes ends: it goes on, leaves the scopes loop, leaves the
-- policies loop with an effect, or fails the check.
pub data Flow (V : Type 0) : Type 0 where
  next : Frame V → Flow V
  break_scopes : Frame V → Flow V
  break_policies : EffectInfo → State V → Flow V
  failed : Failure → Flow V

infixl 5 ◌>>=◌
abbrev pub ◌>>=◌ : {V : Type 0} → Flow V → (Frame V → Flow V) → Flow V
next fr >>= k = k fr
break_scopes fr >>= k = break_scopes fr
break_policies e st >>= k = break_policies e st
failed f >>= k = failed f
