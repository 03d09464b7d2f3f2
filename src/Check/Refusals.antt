-- ===== src/Check/Refusals.antt =====
-- The answer to a request that the schema rejects, and what setEffect does.
use mathlib.Core.Path.{subst}
use access_management.Prelude.{
  ◌≡◌, ◌≢◌, refl, sym, true, false, Bool, not, ◌&&◌, ◌||◌, Option, none, some, inl, inr, Bool-cases,
  List, [], ◌∷◌, Str, arith, if◌then◌else◌, lookup, lookup-insert, str_eq, str_eq_iff,
  str_comparable, mem,
}
use access_management.Check.Types.{Effect, unspecified, no_match, allow, deny, Result, ok}
use access_management.Check.Condition.{CelEngine}
use access_management.Check.State.{EffectInfo, RuleTable}
use access_management.Check.Rules.{is_deny}
use access_management.Check.Scopes.{EvalParams}
use access_management.Check.Actions.{
  CheckInput, Validation, PolicyEvalResult, set_effect, may_replace, remove_action, reject_all,
  deny_info, new_eval_result, resource_scopes_of, check, output_effect,
}

-- What setEffect makes of the effect `old` of an action, where it is given `e` for that action
-- (`true`) or for another one (`false`).
pub data IsSetTo (e : EffectInfo) : Bool → Option EffectInfo → Option EffectInfo → Type 0 where
  of_another : {old : Option EffectInfo} → IsSetTo e false old old
  is_first : IsSetTo e true none (some e)
  replaced : {old : EffectInfo} → old.effect ≢ deny → IsSetTo e true (some old) (some e)
  denied : {old : EffectInfo} → e.effect ≡ deny → IsSetTo e true (some old) (some e)
  stays_denied :
      {old : EffectInfo}
      → old.effect ≡ deny
      → e.effect ≢ deny
      → IsSetTo e true (some old) (some old)

mem-remove_action :
    (action a : Str) (xs : List Str)
    → mem a (remove_action action xs) ≡ (not (str_eq action a) && mem a xs)
unfolding mem remove_action
mem-remove_action action a [] = ground arith
mem-remove_action action a (x ∷ xs) =
    ground (
      arith,
      mem-remove_action action a xs,
      str_eq_iff x action,
      str_eq_iff x a,
      str_eq_iff action a,
    )

not_deny : (e : Effect) → is_deny e ≡ false → e ≢ deny
not_deny e h d = absurd (ground (arith, h, d))

is_deny_deny : (e : Effect) → is_deny e ≡ true → e ≡ deny
is_deny_deny unspecified h = absurd (ground (arith, h))
is_deny_deny no_match h = absurd (ground (arith, h))
is_deny_deny allow h = absurd (ground (arith, h))
is_deny_deny deny h = refl

set_own :
    (e : EffectInfo) (o : Option EffectInfo)
    → IsSetTo e true o (if is_deny e.effect || may_replace o then some e else o)
set_own e none = elim (Bool-cases (is_deny e.effect)) [
  | inl d ↦ simp d IsSetTo.is_first
  | inr d ↦ simp d IsSetTo.is_first
]
set_own e (some old) = elim (Bool-cases (is_deny e.effect)) [
  | inl d ↦ simp d (IsSetTo.denied (is_deny_deny e.effect d))
  | inr d ↦ elim (Bool-cases (is_deny old.effect)) [
    | inl o ↦ simp (d, o) (IsSetTo.stays_denied (is_deny_deny old.effect o) (not_deny e.effect d))
    | inr o ↦ simp (d, o) (IsSetTo.replaced (not_deny old.effect o))
  ]
]

module _ {V : Type 0} where
  pub lookup-set_effect :
      (action a : Str) (e : EffectInfo) (er : PolicyEvalResult V)
      → lookup a (set_effect action e er).effects ≡ (
          if str_eq action a
          then (if is_deny e.effect || may_replace (lookup a er.effects)
              then some e
              else lookup a er.effects)
          else lookup a er.effects)
  unfolding set_effect
  lookup-set_effect action a e er =
      ground (arith, str_eq_iff action a, lookup-insert action a e er.effects)

  to_resolve-set_effect :
      (action a : Str) (e : EffectInfo) (er : PolicyEvalResult V)
      → mem a (set_effect action e er).to_resolve ≡ (not (str_eq action a) && mem a er.to_resolve)
  unfolding set_effect
  to_resolve-set_effect action a e er = ground (arith, mem-remove_action action a er.to_resolve)

  -- setEffect gives the action the new effect if it had none, if its old one was no DENY, or if the
  -- new one is a DENY; a DENY stays where the new effect is none. Other actions keep their effects,
  -- and the action alone is no longer to be resolved.
  pub set_effect-IsSetTo :
      (action a : Str) (e : EffectInfo) (er : PolicyEvalResult V)
      → IsSetTo e
          (str_eq action a)
          (lookup a er.effects)
          (lookup a (set_effect action e er).effects)
        × (mem a (set_effect action e er).to_resolve
            ≡ (not (str_eq action a) && mem a er.to_resolve))
  set_effect-IsSetTo action a e er = (
    subst (IsSetTo e (str_eq action a) (lookup a er.effects))
        (sym (lookup-set_effect action a e er))
        (elim (Bool-cases (str_eq action a)) [
          | inl s ↦ simp s (set_own e (lookup a er.effects))
          | inr n ↦ simp n IsSetTo.of_another
        ]),
    to_resolve-set_effect action a e er,
  )

  reject_all-denies :
      (key : Str) (actions : List Str) (er : PolicyEvalResult V) (a : Str)
      → lookup a (reject_all key actions er).effects
        ≡ (if mem a actions then some (deny_info key) else lookup a er.effects)
  unfolding mem
  reject_all-denies key [] er a = refl
  reject_all-denies key (x ∷ xs) er a = ground (
    arith,
    reject_all-denies key xs (set_effect x (deny_info key) er) a,
    lookup-set_effect x a (deny_info key) er,
  )

module _ {V : Type 0} where
  validation_errors-reject_all :
      (key : Str) (actions : List Str) (er : PolicyEvalResult V)
      → (reject_all key actions er).validation_errors ≡ er.validation_errors
  unfolding set_effect
  validation_errors-reject_all key [] er = refl
  validation_errors-reject_all key (x ∷ xs) er =
      ground (arith, validation_errors-reject_all key xs (set_effect x (deny_info key) er))

module _ {V : Type 0} (cel : CelEngine V) (rt : RuleTable V)
    (validate : Str → CheckInput → Result Validation) (params : EvalParams)
    (input : CheckInput) where
  -- A request that the schema validator rejects with errors is answered with a DENY of the
  -- resource policy for each of its actions, and with these errors; no rule is read.
  pub check-rejected :
      (v : Validation) (s : Str) (ss : List Str) (x : Str) (xs : List Str) (action : Str)
      → (resource_scopes_of cel rt validate params input).scopes ≡ s ∷ ss
      → validate (resource_scopes_of cel rt validate params input).fqn input ≡ ok v
      → v.errors ≡ x ∷ xs
      → v.reject ≡ true
      → mem action input.actions ≡ true
      → (er : PolicyEvalResult V) × (check cel rt validate params input ≡ ok er)
        × (er.validation_errors ≡ v.errors)
        × (output_effect er action ≡ record {
          policy = (resource_scopes_of cel rt validate params input).policy_key;
          scope = [];
          effect = deny;
        })
  unfolding check output_effect
  check-rejected v s ss x xs action hs hv he hr m = (
    reject_all (resource_scopes_of cel rt validate params input).policy_key input.actions
        (record (new_eval_result input.actions) { validation_errors = v.errors }),
    ground arith,
    validation_errors-reject_all _ input.actions _,
    ground (
      arith,
      reject_all-denies (resource_scopes_of cel rt validate params input).policy_key input.actions
          (record (new_eval_result {V = V} input.actions) { validation_errors = v.errors }) action,
    ),
  )
