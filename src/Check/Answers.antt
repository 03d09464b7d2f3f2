-- ===== src/Check/Answers.antt =====
-- The guarantees of a check, as the response shows them.
use mathlib.Core.Path.{subst}
use access_management.Prelude.{
  ◌≡◌, refl, false, ◌⊎◌, inl, inr, Option, none, some, Str, arith, lookup, str_comparable,
}
use access_management.Check.Types.{Effect, unspecified, no_match, allow, deny, Result, ok}
use access_management.Check.Condition.{CelEngine}
use access_management.Check.State.{EffectInfo, RuleTable}
use access_management.Check.Walk.{is_no_match}
use access_management.Check.Scopes.{EvalParams}
use access_management.Check.Actions.{
  CheckInput, Validation, PolicyEvalResult, check, output_effect, shown_effect,
}
use access_management.Check.Grants.{IsRuled}
use access_management.Check.Outcomes.{
  OnResult, AllEffects, IsJustified, input_query, check-IsJustified,
}

is_decided : (e : Effect) → IsRuled e → is_no_match e ≡ false → (e ≡ allow) ⊎ (e ≡ deny)
is_decided unspecified h d = absurd h
is_decided no_match h d = absurd (ground arith)
is_decided allow h d = inl refl
is_decided deny h d = inr refl

module _ {V : Type 0} where
  shown_ind :
      (W : EffectInfo → Type 0) (er : PolicyEvalResult V) (a : Str)
      → ((e : EffectInfo) → lookup a er.effects ≡ some e → W e)
      → W (shown_effect none)
      → W (output_effect er a)
  unfolding output_effect
  shown_ind W er a h d = by_lookup (lookup a er.effects) refl
    where
      by_lookup : (o : Option EffectInfo) → lookup a er.effects ≡ o → W (shown_effect o)
      by_lookup none e = d
      by_lookup (some x) e = h x e

module _ {V : Type 0} (cel : CelEngine V) (rt : RuleTable V)
    (validate : Str → CheckInput → Result Validation) (params : EvalParams) (input : CheckInput)
    {er : PolicyEvalResult V} (checked : check cel rt validate params input ≡ ok er) where
  justified : AllEffects (IsJustified cel rt (input_query cel rt validate params input)) er
  justified =
      subst (OnResult (AllEffects (IsJustified cel rt (input_query cel rt validate params input))))
        checked (check-IsJustified cel rt validate params input)

  -- Whatever the rule table, the conditions and the mode, a check that returns answers ALLOW or
  -- DENY for every action.
  pub check_decides :
      (action : Str)
      → ((output_effect er action).effect ≡ allow) ⊎ ((output_effect er action).effect ≡ deny)
  check_decides action =
      shown_ind (λ e. (e.effect ≡ allow) ⊎ (e.effect ≡ deny)) er action
        (λ e h.
          is_decided e.effect (justified action e h).granted.ruled
            (justified action e h).is_decided)
        (inr refl)
