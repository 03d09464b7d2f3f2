-- ===== src/Check/Actions.antt =====
-- RuleTable.check and checkWithAuditTrail of internal/ruletable/check.go.
use access_management.Prelude.{
  Bool, true, ◌&&◌, ◌||◌, not, Option, none, some, List, [], ◌∷◌, Str, mem, map, is_empty, lookup,
  insert, str_comparable, if◌then◌else◌, str_eq,
}
use access_management.Namer.Fqn.{principal_policy_fqn, resource_policy_fqn}
use access_management.Check.Types.{deny, CelError, Result, ok, err}
use access_management.Check.Condition.{CelEngine}
use access_management.Check.Variables.{OutputEntry}
use access_management.Check.State.{EffectInfo, RuleTable, State}
use access_management.Check.Rules.{no_policy_match, is_deny}
use access_management.Check.Walk.{Query}
use access_management.Check.Roles.{ActionFlow, running, finished, action_failed, resolve_action}
use access_management.Check.Scopes.{
  EvalParams, policy_version, effective_scope, AllScopes, get_all_scopes,
}

-- enginev1.CheckInput; attributes reach only cel-go and the schema validator.
pub record CheckInput : Type 0 where
  pub request_id : Str
  pub principal_id : Str
  pub principal_roles : List Str
  pub principal_policy_version : Str
  pub principal_scope : Str
  pub resource_kind : Str
  pub resource_id : Str
  pub resource_policy_version : Str
  pub resource_scope : Str
  pub actions : List Str

-- schema.ValidationResult
pub record Validation : Type 0 where
  pub errors : List Str
  pub reject : Bool

-- policyEvalResult
pub record PolicyEvalResult (V : Type 0) : Type 0 where
  pub effects : List (Str × EffectInfo)
  pub effective_derived_roles : List Str
  pub effective_policies : List (Str × Str)
  pub cel_errors : List CelError
  pub validation_errors : List Str
  pub outputs : List (OutputEntry V)
  pub to_resolve : List Str
  pub actions : List Str

-- delete(toResolve, action)
unfoldable pub remove_action : Str → List Str → List Str
remove_action a [] = []
remove_action a (x ∷ xs) = let rest = remove_action a xs in if str_eq x a then rest else x ∷ rest

module _ {V : Type 0} where
  unfoldable pub new_eval_result : List Str → PolicyEvalResult V
  new_eval_result actions = record {
    effects = [];
    effective_derived_roles = [];
    effective_policies = [];
    cel_errors = [];
    validation_errors = [];
    outputs = [];
    to_resolve = actions;
    actions = actions;
  }

unfoldable pub keep_in : List Str → List Str → List Str
keep_in to_resolve [] = []
keep_in to_resolve (a ∷ as') =
    let rest = keep_in to_resolve as' in if mem a to_resolve then a ∷ rest else rest

abbrev pub deny_info : Str → EffectInfo
deny_info policy_key = record { policy = policy_key; scope = []; effect = deny }

-- Whether setEffect replaces an effect that is there.
abbrev pub may_replace : Option EffectInfo → Bool
may_replace none = true
may_replace (some current) = not (is_deny current.effect)

module _ {V : Type 0} where
  unfoldable pub unresolved_actions : PolicyEvalResult V → List Str
  unfolding keep_in
  unresolved_actions er = keep_in er.to_resolve er.actions

  -- setEffect: a DENY is never replaced but by a DENY.
  unfoldable pub set_effect : Str → EffectInfo → PolicyEvalResult V → PolicyEvalResult V
  unfolding remove_action
  set_effect action e er =
      let removed = record er { to_resolve = remove_action action er.to_resolve } in
      if is_deny e.effect || may_replace (lookup action er.effects)
      then record removed { effects = insert action e er.effects }
      else removed

  -- The parts of the result that the state of the loops holds.
  abbrev pub collect : State V → PolicyEvalResult V → PolicyEvalResult V
  collect st er = record er {
    effective_derived_roles = st.effective_derived_roles;
    effective_policies = st.effective_policies;
    cel_errors = st.cel_errors;
    outputs = st.outputs;
  }

  -- The actions of a request that the schema rejects.
  abbrev pub reject_all : Str → List Str → PolicyEvalResult V → PolicyEvalResult V
  reject_all policy_key [] er = er
  reject_all policy_key (a ∷ as') er =
      reject_all policy_key as' (set_effect a (deny_info policy_key) er)

  abbrev pub initial_state : Bool → State V
  initial_state strict = record {
    ctx = record {
      effective_derived_roles = [];
      err_derived_roles = [];
      strict_evaluation_mode = strict;
    };
    var_cache = [];
    condition_cache = [];
    processed = [];
    effective_derived_roles = [];
    effective_policies = [];
    outputs = [];
    cel_errors = [];
  }

module _ {V : Type 0} (cel : CelEngine V) (rt : RuleTable V) where
  abbrev pub after_action :
      Str
      → PolicyEvalResult V
      → ActionFlow V
      → (State V → PolicyEvalResult V → Result (PolicyEvalResult V))
      → Result (PolicyEvalResult V)
  after_action action er (running e st) rest = rest st (set_effect action e er)
  after_action action er (finished e st) rest = rest st (set_effect action e er)
  after_action action er (action_failed f) rest = err f

  -- The loop over the actions to resolve.
  unfoldable pub resolve_actions :
      Query → List Str → State V → PolicyEvalResult V → Result (PolicyEvalResult V)
  resolve_actions q [] st er = ok (collect st er)
  resolve_actions q (a ∷ as') st er =
      after_action a er (resolve_action cel rt q a st) (λ st' er'. resolve_actions q as' st' er')

  module _ (validate : Str → CheckInput → Result Validation) (params : EvalParams) where
    abbrev pub query_of : CheckInput → AllScopes → AllScopes → Query
    query_of input principals resources =
        let version = policy_version input.resource_policy_version params in
        let scope = effective_scope input.resource_scope params in
        record {
          principal_id = input.principal_id;
          principal_roles = input.principal_roles;
          resource_kind = input.resource_kind;
          resource_version = version;
          resource_scope = scope;
          including_parent_roles = rt.add_parent_roles (scope ∷ []) input.principal_roles;
          principal_scopes = principals.scopes;
          resource_scopes = resources.scopes;
          principal_policy_key = principals.policy_key;
          resource_policy_key = resources.policy_key;
          scoped_principal_exists =
              rt.scoped_principal_exists (policy_version input.principal_policy_version params)
                principals.scopes;
          scoped_resource_exists =
              rt.scoped_resource_exists version input.resource_kind resources.scopes;
        }

    -- From the check that there is something to resolve on.
    unfoldable pub evaluate_actions : Query → PolicyEvalResult V → Result (PolicyEvalResult V)
    evaluate_actions q er =
        if is_empty (unresolved_actions er)
          || not (q.scoped_principal_exists || q.scoped_resource_exists)
        then ok er
        else resolve_actions q (unresolved_actions er) (initial_state params.strict_evaluation) er

    abbrev pub after_validation :
        CheckInput
        → AllScopes
        → AllScopes
        → PolicyEvalResult V
        → Result Validation
        → Result (PolicyEvalResult V)
    after_validation input principals resources er (err f) = err f
    after_validation input principals resources er (ok v) =
        let er' = record er { validation_errors = v.errors } in
        if not (is_empty v.errors) && v.reject
        then ok (reject_all resources.policy_key input.actions er')
        else evaluate_actions (query_of input principals resources) er'

    abbrev pub in_scopes : CheckInput → AllScopes → AllScopes → Result (PolicyEvalResult V)
    in_scopes input principals resources =
        if is_empty principals.scopes && is_empty resources.scopes
        then ok (new_eval_result input.actions)
        else after_validation input principals resources (new_eval_result input.actions)
            (validate resources.fqn input)

    unfoldable pub principal_scopes_of : CheckInput → AllScopes
    principal_scopes_of input =
        get_all_scopes
          (principal_policy_fqn input.principal_id
            (policy_version input.principal_policy_version params))
          rt.principal_scope_map (effective_scope input.principal_scope params)
          params.lenient_scope_search

    unfoldable pub resource_scopes_of : CheckInput → AllScopes
    resource_scopes_of input =
        get_all_scopes
          (resource_policy_fqn input.resource_kind
            (policy_version input.resource_policy_version params))
          rt.resource_scope_map (effective_scope input.resource_scope params)
          params.lenient_scope_search

    -- RuleTable.check
    unfoldable pub check : CheckInput → Result (PolicyEvalResult V)
    check input = in_scopes input (principal_scopes_of input) (resource_scopes_of input)

-- The effect that a response shows for an action: DENY where the check set none.
abbrev pub shown_effect : Option EffectInfo → EffectInfo
shown_effect none = record { policy = no_policy_match; scope = []; effect = deny }
shown_effect (some e) = e

unfoldable pub output_effect : {V : Type 0} → PolicyEvalResult V → Str → EffectInfo
output_effect er action = shown_effect (lookup action er.effects)

-- enginev1.CheckOutput: the effect of each action of the request, in its order.
unfoldable pub output_actions :
    {V : Type 0} → CheckInput → PolicyEvalResult V → List (Str × EffectInfo)
unfolding output_effect
output_actions input er = map (λ a. (a, output_effect er a)) input.actions
