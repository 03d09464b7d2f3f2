-- ===== src/Check/Caches/Deciding.antt =====
-- The decision on a rule keeps the caches sound, and says true only of a rule that held.
use mathlib.Core.List.{Memᴰ}
use mathlib.Core.Path.{subst}
use access_management.Prelude.{
  ◌≡◌, refl, sym, Bool, true, false, Option, none, some, List, Str, arith, lookup, nat_comparable,
  str_comparable,
}
use access_management.Check.Types.{
  Kind, Binding, Vars, CelError, Result, ok, err, Condition, EvaluationKeyTuple,
  eval_key_comparable,
}
use access_management.Check.Condition.{CelEngine, Logged, satisfies, satisfies_condition}
use access_management.Check.State.{RuleTable, State}
use access_management.Check.Rules.{
  Decision, decided, Loaded, loaded, load_failed, load_variables, decide_cached, own_decision,
  decide, decide_own, after_derived_role, decide_derived_role, evaluate_decision,
  on_condition_error,
}
use access_management.Check.Walk.{Query, bindings_of}
use access_management.Check.Caches.{
  Provided, DerivedHolds, Held, IsSound, cached_condition, LoadsFrom, load_variables-LoadsFrom,
}

module _ {V : Type 0} (cel : CelEngine V) (rt : RuleTable V) (q : Query) where
  -- What a decision on the rule leaves, and that its conditions hold where it is true.
  abbrev pub DecidesSoundly : EvaluationKeyTuple → Decision × State V → Type 0
  DecidesSoundly key r = IsSound cel rt q r.1 × (r.0 ≡ decided true → Held cel rt q key)

  strict_error :
      (key : EvaluationKeyTuple) (b : Bool)
      → on_condition_error b ≡ decided true
      → Held cel rt q key
  strict_error key true e = absurd (ground (arith, e))
  strict_error key false e = absurd (ground (arith, e))

  module _ (b : Binding V) (role action : Str) (kind : Kind) (scope : Str)
      (found : Memᴰ b (bindings_of cel rt q role action kind scope)) where
    decide_own-DecidesSoundly :
        (constants variables : Vars V) (st : State V)
        → Provided cel b.params constants variables
        → DerivedHolds cel b.derived_role_condition b.derived_role_params
        → IsSound cel rt q st
        → DecidesSoundly b.eval_key (decide_own cel b constants variables st)
    decide_own-DecidesSoundly constants variables st p d s =
        by_result (satisfies_condition cel st.ctx constants variables b.condition st.cel_errors)
          refl
      where
        held :
            (log : List CelError)
            → satisfies_condition cel st.ctx constants variables b.condition st.cel_errors
              ≡ (ok true, log)
            → Held cel rt q b.eval_key
        held log e = record {
          rule = b;
          role = role;
          action = action;
          kind = kind;
          scope = scope;
          rule_found = found;
          has_key = refl;
          constants = constants;
          variables = variables;
          provided = p;
          derived_condition_holds = d;
          ctx = st.ctx;
          log = st.cel_errors;
          log' = log;
          condition_holds = e;
        }

        by_result :
            (r : Logged (Result Bool))
            → satisfies_condition cel st.ctx constants variables b.condition st.cel_errors ≡ r
            → DecidesSoundly b.eval_key (own_decision b.eval_key st r)
        by_result (ok true, log) e = (
          (s.0, cached_condition cel rt q b.eval_key true st.condition_cache s.1 (λ _. held log e)),
          (λ _. held log e),
        )
        by_result (ok false, log) e = (
          (
            s.0,
            cached_condition cel rt q b.eval_key false st.condition_cache s.1
                (λ x. absurd (ground (arith, x))),
          ),
          (λ x. absurd (ground (arith, x))),
        )
        by_result (err f, log) e = (s, strict_error b.eval_key st.ctx.strict_evaluation_mode)

    decide_derived-DecidesSoundly :
        (c : Condition) (constants variables : Vars V) (l : Loaded V) (st : State V)
        → Provided cel b.params constants variables
        → b.derived_role_condition ≡ some c
        → LoadsFrom cel rt q b.derived_role_params l
        → IsSound cel rt q st
        → DecidesSoundly b.eval_key (decide_derived_role cel b c constants variables l st)
    decide_derived-DecidesSoundly c constants variables (load_failed f) st p o l s =
        (s, (λ x. absurd (ground (arith, x))))
    decide_derived-DecidesSoundly c constants variables (loaded dr_constants dr_variables st') st p
          o l s =
        by_result (satisfies cel st'.ctx dr_constants dr_variables c st'.cel_errors) refl
      where
        by_result :
            (r : Logged (Result Bool))
            → satisfies cel st'.ctx dr_constants dr_variables c st'.cel_errors ≡ r
            → DecidesSoundly b.eval_key (after_derived_role cel b constants variables st' r)
        by_result (ok true, log) e =
            decide_own-DecidesSoundly constants variables (record st' { cel_errors = log }) p
              (subst (λ x. DerivedHolds cel x b.derived_role_params) (sym o)
                (DerivedHolds.derived_holds dr_constants dr_variables l.1 st'.ctx st'.cel_errors log
                  e))
              l.0
        by_result (ok false, log) e = (
          (
            l.0.0,
            cached_condition cel rt q b.eval_key false st'.condition_cache l.0.1
                (λ x. absurd (ground (arith, x))),
          ),
          (λ x. absurd (ground (arith, x))),
        )
        by_result (err f, log) e = (l.0, strict_error b.eval_key st'.ctx.strict_evaluation_mode)

    pub decide-DecidesSoundly :
        (constants variables : Vars V) (st : State V)
        → Provided cel b.params constants variables
        → IsSound cel rt q st
        → DecidesSoundly b.eval_key (decide cel b constants variables st)
    unfolding decide
    decide-DecidesSoundly constants variables st p s =
        by_cached (lookup b.eval_key st.condition_cache) refl
      where
        evaluated :
            (o : Option Condition)
            → b.derived_role_condition ≡ o
            → DecidesSoundly b.eval_key (evaluate_decision cel b constants variables st o)
        evaluated none o =
            decide_own-DecidesSoundly constants variables st p
              (subst (λ x. DerivedHolds cel x b.derived_role_params) (sym o)
                DerivedHolds.not_derived)
              s
        evaluated (some c) o =
            decide_derived-DecidesSoundly c constants variables
              (load_variables cel b.derived_role_params st) st p o
              (load_variables-LoadsFrom cel rt q b.derived_role_params st s) s

        by_cached :
            (o : Option Bool)
            → lookup b.eval_key st.condition_cache ≡ o
            → DecidesSoundly b.eval_key (decide_cached cel b constants variables st o)
        by_cached none e = evaluated b.derived_role_condition refl
        by_cached (some true) e = (s, (λ _. s.1 b.eval_key e))
        by_cached (some false) e = (s, (λ x. absurd (ground (arith, x))))
