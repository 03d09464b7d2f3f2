-- ===== src/Check/Outcomes.antt =====
-- What a whole check answers, action by action.
use mathlib.Core.Path.{subst₂}
use access_management.Prelude.{
  ◌≡◌, refl, Bool, false, not, ◌&&◌, ◌||◌, inl, inr, some, List, [], ◌∷◌, Str, arith, Bool-cases,
  if_either, lookup, insert, lookup-insert, str_eq, str_eq_iff, str_comparable, is_empty,
}
use access_management.Check.Types.{Result, ok, err}
use access_management.Check.Condition.{CelEngine}
use access_management.Check.State.{EffectInfo, RuleTable, State}
use access_management.Check.Rules.{is_deny}
use access_management.Check.Walk.{Query, is_no_match}
use access_management.Check.Roles.{
  ActionFlow, running, finished, action_failed, resolve_action, conclude,
}
use access_management.Check.Scopes.{EvalParams, AllScopes}
use access_management.Check.Actions.{
  CheckInput, Validation, PolicyEvalResult, set_effect, may_replace, unresolved_actions,
  resolve_actions, after_action, reject_all, deny_info, initial_state, new_eval_result,
  evaluate_actions, query_of, principal_scopes_of, resource_scopes_of, after_validation, check,
}
use access_management.Check.Caches.{IsSound}
use access_management.Check.Grants.{IsGranted}
use access_management.Check.Decisions.{
  ActionHas, GrantedIn, AnyGranted, resolve_action-IsGranted, IsDenied-IsGranted,
}

insert-AllEffects :
    (W : Str → EffectInfo → Type 0) (action : Str) (e : EffectInfo) (m : List (Str × EffectInfo))
    → ((a : Str) (e' : EffectInfo) → lookup a m ≡ some e' → W a e')
    → W action e
    → (a : Str) (e' : EffectInfo) → lookup a (insert action e m) ≡ some e'
    → W a e'
insert-AllEffects W action e m all w a e' h = elim (Bool-cases (str_eq action a)) [
  | inl s ↦ subst₂ W ((str_eq_iff action a).0 s) (ground (arith, lookup-insert action a e m)) w
  | inr d ↦ all a e' (ground (arith, lookup-insert action a e m))
]

module _ {V : Type 0} (W : Str → EffectInfo → Type 0) where
  -- Every effect that the result holds satisfies `W`.
  abbrev pub AllEffects : PolicyEvalResult V → Type 0
  AllEffects er = (a : Str) (e : EffectInfo) → lookup a er.effects ≡ some e → W a e

  set_effect-AllEffects :
      (action : Str) (e : EffectInfo) (er : PolicyEvalResult V)
      → AllEffects er
      → W action e
      → AllEffects (set_effect action e er)
  unfolding set_effect
  set_effect-AllEffects action e er all w =
      elim (Bool-cases (is_deny e.effect || may_replace (lookup action er.effects))) [
        | inl r ↦ simp r (insert-AllEffects W action e er.effects all w)
        | inr k ↦ simp k all
      ]

  reject_all-AllEffects :
      (key : Str) (actions : List Str) (er : PolicyEvalResult V)
      → AllEffects er
      → ((a : Str) → W a (deny_info key))
      → AllEffects (reject_all key actions er)
  reject_all-AllEffects key [] er all w = all
  reject_all-AllEffects key (a ∷ as') er all w =
      reject_all-AllEffects key as' (set_effect a (deny_info key) er)
        (set_effect-AllEffects a (deny_info key) er all (w a)) w

-- The results of a check, where it has one.
abbrev pub OnResult :
    {V : Type 0} → (PolicyEvalResult V → Type 0) → Result (PolicyEvalResult V) → Type 0
OnResult P (ok er) = P er
OnResult P (err f) = Unit

conclude_decides :
    {V : Type 0} (m : ActionFlow V) → ActionHas (λ e st. is_no_match e.effect ≡ false) (conclude m)
conclude_decides (running e st) = ground arith
conclude_decides (finished e st) = ground arith
conclude_decides (action_failed f) = tt

module _ {V : Type 0} (cel : CelEngine V) (rt : RuleTable V) where
  -- What a check guarantees of the effect of an action: it is decided, and an ALLOW has its rule.
  pub record IsJustified (q : Query) (action : Str) (e : EffectInfo) : Type 0 where
    pub granted : IsGranted (AnyGranted cel rt q action) e
    pub is_decided : is_no_match e.effect ≡ false

  abbrev JustifiedIn : Query → Str → EffectInfo → State V → Type 0
  JustifiedIn q action e st = IsJustified q action e × IsSound cel rt q st

  justified :
      (q : Query) (action : Str) (m : ActionFlow V)
      → ActionHas (GrantedIn cel rt q (AnyGranted cel rt q action)) m
      → ActionHas (λ e st. is_no_match e.effect ≡ false) m
      → ActionHas (JustifiedIn q action) m
  justified q action (running e st) h d = (record { granted = h.0; is_decided = d }, h.1)
  justified q action (finished e st) h d = (record { granted = h.0; is_decided = d }, h.1)
  justified q action (action_failed f) h d = tt

  resolve_action-IsJustified :
      (q : Query) (action : Str) (st : State V)
      → IsSound cel rt q st
      → ActionHas (JustifiedIn q action) (resolve_action cel rt q action st)
  resolve_action-IsJustified q action st s =
      justified q action _ (resolve_action-IsGranted cel rt q action st s)
        (unfold resolve_action in conclude_decides _)

  after_action-Keeps :
      (q : Query) (action : Str) (er : PolicyEvalResult V) (m : ActionFlow V)
      (rest : State V → PolicyEvalResult V → Result (PolicyEvalResult V))
      → ActionHas (JustifiedIn q action) m
      → AllEffects (IsJustified q) er
      → ((st : State V) (er' : PolicyEvalResult V)
          → IsSound cel rt q st
          → AllEffects (IsJustified q) er'
          → OnResult (AllEffects (IsJustified q)) (rest st er'))
      → OnResult (AllEffects (IsJustified q)) (after_action cel rt action er m rest)
  after_action-Keeps q action er (running e st) rest h all k =
      k st _ h.1 (set_effect-AllEffects (IsJustified q) action e er all h.0)
  after_action-Keeps q action er (finished e st) rest h all k =
      k st _ h.1 (set_effect-AllEffects (IsJustified q) action e er all h.0)
  after_action-Keeps q action er (action_failed f) rest h all k = tt

  resolve_actions-Keeps :
      (q : Query) (actions : List Str) (st : State V) (er : PolicyEvalResult V)
      → IsSound cel rt q st
      → AllEffects (IsJustified q) er
      → OnResult (AllEffects (IsJustified q)) (resolve_actions cel rt q actions st er)
  unfolding resolve_actions
  resolve_actions-Keeps q [] st er s all = all
  resolve_actions-Keeps q (a ∷ as') st er s all =
      after_action-Keeps q a er (resolve_action cel rt q a st)
        (λ st' er'. resolve_actions cel rt q as' st' er') (resolve_action-IsJustified q a st s) all
        (λ st' er' s' all'. resolve_actions-Keeps q as' st' er' s' all')

  initial_state-IsSound : (q : Query) (strict : Bool) → IsSound cel rt q (initial_state strict)
  unfolding lookup
  initial_state-IsSound q strict =
      ((λ k vars h. absurd (ground (arith, h))), (λ key h. absurd (ground (arith, h))))

  denied-IsJustified : (q : Query) (action key : Str) → IsJustified q action (deny_info key)
  denied-IsJustified q action key = record {
    granted = IsDenied-IsGranted _ _ refl;
    is_decided = refl;
  }

  new-AllEffects :
      (q : Query) (actions : List Str)
      → AllEffects (IsJustified q) (new_eval_result {V = V} actions)
  unfolding new_eval_result lookup
  new-AllEffects q actions a e h = absurd (ground arith)

  module _ (validate : Str → CheckInput → Result Validation) (params : EvalParams) where
    -- The query under which an input is evaluated.
    abbrev pub input_query : CheckInput → Query
    input_query input =
        query_of cel rt validate params input (principal_scopes_of cel rt validate params input)
          (resource_scopes_of cel rt validate params input)

    evaluate_actions-Keeps :
        (q : Query) (er : PolicyEvalResult V)
        → AllEffects (IsJustified q) er
        → OnResult (AllEffects (IsJustified q)) (evaluate_actions cel rt validate params q er)
    unfolding evaluate_actions
    evaluate_actions-Keeps q er all =
        if_either (OnResult (AllEffects (IsJustified q)))
          (is_empty (unresolved_actions er)
            || not (q.scoped_principal_exists || q.scoped_resource_exists))
          (ok er)
          (resolve_actions cel rt q (unresolved_actions er) (initial_state params.strict_evaluation)
            er)
          all
          (resolve_actions-Keeps q (unresolved_actions er) (initial_state params.strict_evaluation)
            er (initial_state-IsSound q params.strict_evaluation) all)

    after_validation-Keeps :
        (input : CheckInput) (ps rs : AllScopes) (er : PolicyEvalResult V) (v : Result Validation)
        → AllEffects (IsJustified (query_of cel rt validate params input ps rs)) er
        → OnResult
            (AllEffects (IsJustified (query_of cel rt validate params input ps rs)))
            (after_validation cel rt validate params input ps rs er v)
    after_validation-Keeps input ps rs er (err f) all = tt
    after_validation-Keeps input ps rs er (ok v) all =
        if_either
          (OnResult (AllEffects (IsJustified (query_of cel rt validate params input ps rs))))
          (not (is_empty v.errors) && v.reject)
          (ok (reject_all rs.policy_key input.actions (record er { validation_errors = v.errors })))
          (evaluate_actions cel rt validate params (query_of cel rt validate params input ps rs)
            (record er { validation_errors = v.errors }))
          (reject_all-AllEffects _ rs.policy_key input.actions
            (record er { validation_errors = v.errors }) all
            (λ a. denied-IsJustified _ a rs.policy_key))
          (evaluate_actions-Keeps _ (record er { validation_errors = v.errors }) all)

    pub check-IsJustified :
        (input : CheckInput)
        → OnResult
            (AllEffects (IsJustified (input_query input)))
            (check cel rt validate params input)
    unfolding check
    check-IsJustified input =
        if_either (OnResult (AllEffects (IsJustified (input_query input))))
          (is_empty (principal_scopes_of cel rt validate params input).scopes
            && is_empty (resource_scopes_of cel rt validate params input).scopes)
          (ok (new_eval_result input.actions))
          (after_validation cel rt validate params input
            (principal_scopes_of cel rt validate params input)
            (resource_scopes_of cel rt validate params input) (new_eval_result input.actions)
            (validate (resource_scopes_of cel rt validate params input).fqn input))
          (new-AllEffects (input_query input) input.actions)
          (after_validation-Keeps input (principal_scopes_of cel rt validate params input)
            (resource_scopes_of cel rt validate params input) (new_eval_result input.actions)
            (validate (resource_scopes_of cel rt validate params input).fqn input)
            (new-AllEffects (input_query input) input.actions))
