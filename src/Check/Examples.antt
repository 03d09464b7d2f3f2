-- ===== src/Check/Examples.antt =====
-- A small rule table, and the theorems about checks at requests to it.
use access_management.Prelude.{
  str_comparable, ◌⊎◌, ◌||◌, if◌then◌else◌, ◌≡◌, refl, Bool, true, false, none, some, List, [], ◌∷◌,
  Str, codes, arith, mem, not, ◌&&◌, lookup, insert, str_eq,
}
use access_management.Check.Types.{
  Conditions, allow, deny, Kind, resource, Condition, expr, override_parent, Binding, Result, ok,
  err,
}
use access_management.Check.Condition.{
  EvalContext, evaluate_cel_expr, value, cel_error, CelEngine, satisfies_condition, satisfies,
  evaluate_bool_cel_expr,
}
use access_management.Check.Condition.Logic.{
  holds, AllExprs, Answers, satisfies_condition-holds, satisfies_condition-Answers,
}
use access_management.Check.Outcomes.{input_query}
use access_management.Check.Answers.{check_decides}
use access_management.Check.Refusals.{IsSetTo, set_effect-IsSetTo, check-rejected}
use access_management.Check.Outcomes.{OnResult}
use access_management.Check.Resolution.{IsResolved, evaluate_actions-IsResolved}
use access_management.Check.ScopeSearch.{with_policies, scopes-get_all_scopes}
use access_management.Check.Rules.{
  process_bindings, process_binding, load_variables, decide, apply_decision, audit,
}
use access_management.Check.Walk.{
  walk_scopes, process_scope, enter_scope, bindings_of, settle_scope,
}
use access_management.Check.Roles.{resolve_action, walk_kinds, walk_roles, walk_role}
use access_management.Namer.Scopes.{scope_parents}
use access_management.Check.State.{RuleTable}
use access_management.Check.Scopes.{EvalParams, get_all_scopes, policy_version, effective_scope}
use access_management.Check.Actions.{
  evaluate_actions, unresolved_actions, resolve_actions, set_effect, new_eval_result, CheckInput,
  Validation, PolicyEvalResult, check, output_effect, principal_scopes_of, resource_scopes_of,
}

-- Every expression is true.
abbrev truth : CelEngine Bool
truth = record { run = λ a e. value true; as_bool = λ v. some v; to_output = λ v. ok v }

abbrev allow_rule : Binding Bool
allow_rule = record {
  name = codes "r";
  origin_fqn = codes "cerbos.resource.doc.vdefault";
  scope = [];
  eval_key = record {
    prefix_ = codes "cerbos.resource";
    resource_ = codes "doc";
    principal_ = [];
    role = [];
    derived_role = [];
    version = codes "default";
    scope = [];
    rule_name = codes "r";
    rule_id = 0;
  };
  no_match_for_scope_permissions = false;
  effect = allow;
  condition = some (expr (record { original = codes "true" }));
  derived_role_condition = none;
  params = none;
  derived_role_params = none;
  emit_output = none;
  from_role_policy = false;
}

abbrev rules_for : Kind → List (Binding Bool)
rules_for resource = allow_rule ∷ []
rules_for _ = []

-- One resource policy in the root scope.
abbrev table : RuleTable Bool
table = record {
  query = λ version kind scope action roles pt pid. rules_for pt;
  scoped_principal_exists = λ version scopes. false;
  scoped_resource_exists = λ version kind scopes. true;
  add_parent_roles = λ scopes roles. roles;
  derived_roles_of = λ fqn. [];
  get_meta = λ fqn. none;
  scope_permissions_of = λ scope. override_parent;
  principal_scope_map = [];
  resource_scope_map = [] ∷ [];
}

abbrev no_errors : Str → CheckInput → Result Validation
no_errors fqn input = ok (record { errors = []; reject = false })

abbrev rejecting : Str → CheckInput → Result Validation
rejecting fqn input = ok (record { errors = codes "bad" ∷ []; reject = true })

abbrev params : EvalParams
params = record {
  default_policy_version = codes "default";
  default_scope = [];
  lenient_scope_search = false;
  strict_evaluation = false;
}

abbrev view : Str
view = codes "view"

abbrev request : CheckInput
request = record {
  request_id = codes "1";
  principal_id = codes "ann";
  principal_roles = codes "user" ∷ [];
  principal_policy_version = [];
  principal_scope = [];
  resource_kind = codes "doc";
  resource_id = codes "d1";
  resource_policy_version = [];
  resource_scope = [];
  actions = view ∷ [];
}

-- The check, open to computation.
run_check : CheckInput → Result (PolicyEvalResult Bool)
unfolding check evaluate_actions unresolved_actions resolve_actions resolve_action walk_kinds
    walk_roles walk_role walk_scopes process_scope enter_scope bindings_of settle_scope
    process_bindings process_binding load_variables decide apply_decision audit satisfies_condition
    satisfies evaluate_bool_cel_expr set_effect principal_scopes_of resource_scopes_of
    get_all_scopes policy_version effective_scope scope_parents new_eval_result mem lookup insert
    str_eq
run_check input = check truth table no_errors params input

answer : PolicyEvalResult Bool
unfolding run_check
answer = elim (run_check request) [ ok er ↦ er | err f ↦ new_eval_result [] ]

answered : check truth table no_errors params request ≡ ok answer
unfolding answer
answered = refl

-- witnesses
check_decides_example :
    ((output_effect answer view).effect ≡ allow) ⊎ ((output_effect answer view).effect ≡ deny)
check_decides_example = check_decides truth table no_errors params request answered view

check-rejected_example :
    (er : PolicyEvalResult Bool) × (check truth table rejecting params request ≡ ok er)
    × (er.validation_errors ≡ codes "bad" ∷ [])
    × (output_effect er view ≡ record {
      policy = (resource_scopes_of truth table rejecting params request).policy_key;
      scope = [];
      effect = deny;
    })
unfolding run_check
check-rejected_example =
    check-rejected truth table rejecting params request
      (record { errors = codes "bad" ∷ []; reject = true }) [] [] (codes "bad") [] view refl refl
      refl refl refl

abbrev denied_view : PolicyEvalResult Bool
denied_view =
    set_effect view (record { policy = []; scope = []; effect = deny })
      (new_eval_result (view ∷ []))

set_effect-IsSetTo_example :
    IsSetTo
      (record { policy = []; scope = []; effect = allow })
      (str_eq view view)
      (lookup view denied_view.effects)
      (lookup view
        (set_effect view (record { policy = []; scope = []; effect = allow }) denied_view).effects)
    × (mem view
          (set_effect view
            (record { policy = []; scope = []; effect = allow })
            denied_view).to_resolve
        ≡ (not (str_eq view view) && mem view denied_view.to_resolve))
set_effect-IsSetTo_example =
    set_effect-IsSetTo view view (record { policy = []; scope = []; effect = allow }) denied_view

-- a condition with a nested `none`, where every expression is true
abbrev nested : Condition
nested = Condition.all_of (
    Conditions.cons (expr (record { original = codes "a" })) (
      Conditions.cons
        (Condition.none_of
          (Conditions.cons (expr (record { original = codes "b" })) Conditions.nil))
        Conditions.nil))

abbrev lax : EvalContext
lax = record {
  effective_derived_roles = [];
  err_derived_roles = [];
  strict_evaluation_mode = false;
}

satisfies_condition-holds_example :
    satisfies_condition truth lax [] [] (some nested) [] ≡ (ok false, [])
unfolding holds AllExprs evaluate_bool_cel_expr
satisfies_condition-holds_example =
    satisfies_condition-holds truth lax [] [] (λ e. true) nested []
      ((λ log. refl), (((λ log. refl), tt), tt))

-- The expression "b" raises a CEL runtime error, every other is true.
abbrev partial_truth : CelEngine Bool
partial_truth = record truth {
  run =
      λ a e. if str_eq e.original (codes "b") then cel_error (codes "no such key") else value true;
}

satisfies_condition-Answers_example :
    Answers (satisfies_condition partial_truth lax [] [] (some nested) [])
unfolding AllExprs evaluate_cel_expr str_eq
satisfies_condition-Answers_example =
    satisfies_condition-Answers partial_truth lax [] [] nested [] refl
      ((λ m e. absurd (ground arith)), (((λ m e. absurd (ground arith)), tt), tt))

evaluate_actions-IsResolved_example : OnResult (IsResolved view) (
    evaluate_actions truth table no_errors params
      (input_query truth table no_errors params request)
      (record (new_eval_result (codes "edit" ∷ view ∷ [])) { validation_errors = [] }))
unfolding mem str_eq
evaluate_actions-IsResolved_example =
    evaluate_actions-IsResolved truth table view no_errors params
      (input_query truth table no_errors params request) (codes "edit" ∷ view ∷ []) [] refl refl

scopes-get_all_scopes_example :
    (get_all_scopes (λ s. s) ([] ∷ codes "a" ∷ []) (codes "a.b") true).scopes ≡ (
      if mem (codes "a.b") ([] ∷ codes "a" ∷ []) || true
      then with_policies ([] ∷ codes "a" ∷ []) (codes "a.b" ∷ scope_parents (codes "a.b"))
      else [])
scopes-get_all_scopes_example =
    scopes-get_all_scopes (λ s. s) ([] ∷ codes "a" ∷ []) (codes "a.b") true
