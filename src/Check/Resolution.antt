-- ===== src/Check/Resolution.antt =====
-- The loop over the actions leaves none without an effect.
use access_management.Prelude.{
  ◌≡◌, refl, true, false, ◌&&◌, ◌||◌, List, [], ◌∷◌, Str, arith, lookup, is_some, is_empty, mem,
  str_eq, str_eq_iff, str_comparable,
}
use access_management.Check.Types.{Result}
use access_management.Check.Condition.{CelEngine}
use access_management.Check.State.{EffectInfo, RuleTable, State}
use access_management.Check.Walk.{Query}
use access_management.Check.Roles.{ActionFlow, running, finished, action_failed, resolve_action}
use access_management.Check.Scopes.{EvalParams}
use access_management.Check.Actions.{
  CheckInput, Validation, PolicyEvalResult, new_eval_result, unresolved_actions, keep_in,
  set_effect, after_action, resolve_actions, evaluate_actions, initial_state,
}
use access_management.Check.Outcomes.{OnResult}
use access_management.Check.Refusals.{lookup-set_effect}

-- The action has an effect.
abbrev pub IsResolved : {V : Type 0} → Str → PolicyEvalResult V → Type 0
IsResolved a er = is_some (lookup a er.effects) ≡ true

module _ {V : Type 0} where
  set_effect-IsResolved :
      (action a : Str) (e : EffectInfo) (er : PolicyEvalResult V)
      → (str_eq action a || is_some (lookup a er.effects)) ≡ true
      → IsResolved a (set_effect action e er)
  set_effect-IsResolved action a e er h = ground (arith, h, lookup-set_effect action a e er)

module _ {V : Type 0} (cel : CelEngine V) (rt : RuleTable V) (a : Str) where
  after_action-IsResolved :
      (action : Str) (er : PolicyEvalResult V) (m : ActionFlow V)
      (rest : State V → PolicyEvalResult V → Result (PolicyEvalResult V))
      → ((st : State V) (e : EffectInfo)
          → OnResult (IsResolved a) (rest st (set_effect action e er)))
      → OnResult (IsResolved a) (after_action cel rt action er m rest)
  after_action-IsResolved action er (running e st) rest k = k st e
  after_action-IsResolved action er (finished e st) rest k = k st e
  after_action-IsResolved action er (action_failed f) rest k = tt

  resolve_actions-IsResolved :
      (q : Query) (actions : List Str) (st : State V) (er : PolicyEvalResult V)
      → (mem a actions || is_some (lookup a er.effects)) ≡ true
      → OnResult (IsResolved a) (resolve_actions cel rt q actions st er)
  unfolding resolve_actions mem
  resolve_actions-IsResolved q [] st er h = h
  resolve_actions-IsResolved q (x ∷ xs) st er h =
      after_action-IsResolved x er (resolve_action cel rt q x st)
        (λ st' er'. resolve_actions cel rt q xs st' er')
        (λ st' e.
          resolve_actions-IsResolved q xs st' (set_effect x e er)
            (ground (arith, h, lookup-set_effect x a e er)))

  mem-keep_in : (ts actions : List Str) → mem a (keep_in ts actions) ≡ (mem a ts && mem a actions)
  unfolding keep_in mem
  mem-keep_in ts [] = ground arith
  mem-keep_in ts (x ∷ xs) = ground (arith, mem-keep_in ts xs, str_eq_iff x a)

  not_empty : (xs : List Str) → mem a xs ≡ true → is_empty xs ≡ false
  unfolding mem
  not_empty [] h = absurd (ground (arith, h))
  not_empty (x ∷ xs) h = refl

  unresolved-new :
      (actions errors : List Str)
      → mem a actions ≡ true
      → mem a (
          unresolved_actions
            (record (new_eval_result {V = V} actions) { validation_errors = errors }))
        ≡ true
  unfolding unresolved_actions new_eval_result
  unresolved-new actions errors h = ground (arith, h, mem-keep_in actions actions)

  -- Where a principal or resource policy exists in the scopes searched, the evaluation that starts
  -- from a new result gives every action of the request an effect of its own, if it does not fail.
  pub evaluate_actions-IsResolved :
      (validate : Str → CheckInput → Result Validation) (params : EvalParams) (q : Query)
      (actions errors : List Str)
      → (q.scoped_principal_exists || q.scoped_resource_exists) ≡ true
      → mem a actions ≡ true
      → OnResult (IsResolved a) (
          evaluate_actions cel rt validate params q
            (record (new_eval_result actions) { validation_errors = errors }))
  unfolding evaluate_actions
  evaluate_actions-IsResolved validate params q actions errors exists m =
      let start = record (new_eval_result {V = V} actions) { validation_errors = errors } in
      let pending = unresolved-new actions errors m in
      rw (not_empty (unresolved_actions start) pending, exists)
        (resolve_actions-IsResolved q (unresolved_actions start)
          (initial_state params.strict_evaluation) start (ground (arith, pending)))
