-- ===== src/Check/Rules.antt =====
-- One rule binding in the loop of RuleTable.check (internal/ruletable/check.go).
use access_management.Prelude.{
  Bool, true, false, ◌||◌, Option, none, some, List, [], ◌∷◌, ◌++◌, Str, lookup, insert, codes,
  nat_comparable, str_comparable, if◌then◌else◌,
}
use access_management.Namer.Fqn.{policy_key_from_fqn, rule_fqn}
use access_management.Check.Types.{
  Effect, allow, deny, Expr, RowParams, Vars, Binding, Failure, Result, ok, err, other,
  EvaluationKeyTuple, eval_key_comparable, Condition, OutputWhen,
}
use access_management.Check.Condition.{CelEngine, Logged, satisfies, satisfies_condition}
use access_management.Check.Variables.{evaluate_programs, evaluate_output}
use access_management.Check.State.{
  Meta, RuleTable, State, Frame, Flow, next, break_scopes, break_policies, failed, ◌>>=◌,
}

-- noMatchScopePermissions, noPolicyMatch
abbrev pub no_match_scope_permissions : Str
no_match_scope_permissions = codes "NO_MATCH_FOR_SCOPE_PERMISSIONS"

abbrev pub no_policy_match : Str
no_policy_match = codes "NO_MATCH"

-- maps.Copy(dst, src)
unfoldable pub copy : List (Str × Str) → List (Str × Str) → List (Str × Str)
copy dst [] = dst
copy dst ((k, v) ∷ src) = copy (insert k v dst) src

-- What becomes of the condition of a rule: it holds or not, the rule is passed over (`continue`),
-- an error in strict mode denies, or the check fails.
pub data Decision : Type 0 where
  decided : Bool → Decision
  skipped denied : Decision
  broken : Failure → Decision

-- An error of a condition, by mode.
abbrev pub on_condition_error : Bool → Decision
on_condition_error true = denied
on_condition_error false = skipped

-- The constants and variables of a rule, with the state after their evaluation, or the failure.
pub data Loaded (V : Type 0) : Type 0 where
  loaded : Vars V → Vars V → State V → Loaded V
  load_failed : Failure → Loaded V

module _ {V : Type 0} where
  -- varCache[key] = variables
  abbrev pub cache_variables : RowParams V → State V → Logged (Result (Vars V)) → Loaded V
  cache_variables p st (ok vars, log) =
      loaded p.constants vars
        (record st { var_cache = insert p.key vars st.var_cache; cel_errors = log })
  cache_variables p st (err f, log) = load_failed f

  -- conditionCache[key] = satisfied
  abbrev pub cache_condition : EvaluationKeyTuple → Bool → State V → State V
  cache_condition key b st = record st { condition_cache = insert key b st.condition_cache }

  -- The condition of the rule itself.
  abbrev pub own_decision : EvaluationKeyTuple → State V → Logged (Result Bool) → Decision × State V
  own_decision key st (ok b, log) =
      (decided b, cache_condition key b (record st { cel_errors = log }))
  own_decision key st (err f, log) =
      (on_condition_error st.ctx.strict_evaluation_mode, record st { cel_errors = log })

module _ {V : Type 0} (cel : CelEngine V) where
  -- By what varCache holds.
  abbrev pub load_cached : RowParams V → State V → Option (Vars V) → Loaded V
  load_cached p st (some vars) = loaded p.constants vars st
  load_cached p st none =
      cache_variables p st (evaluate_programs cel st.ctx p.constants p.cel_programs st.cel_errors)

  -- The variables of a rule or of its derived role: none, cached by key, or evaluated now.
  unfoldable pub load_variables : Option (RowParams V) → State V → Loaded V
  load_variables none st = loaded [] [] st
  load_variables (some p) st = load_cached p st (lookup p.key st.var_cache)

  abbrev pub decide_own : Binding V → Vars V → Vars V → State V → Decision × State V
  decide_own b constants variables st =
      own_decision b.eval_key st
        (satisfies_condition cel st.ctx constants variables b.condition st.cel_errors)

  -- The condition of the derived role comes first: if it is false the rule is passed over.
  abbrev pub after_derived_role :
      Binding V → Vars V → Vars V → State V → Logged (Result Bool) → Decision × State V
  after_derived_role b constants variables st (ok true, log) =
      decide_own b constants variables (record st { cel_errors = log })
  after_derived_role b constants variables st (ok false, log) =
      (skipped, cache_condition b.eval_key false (record st { cel_errors = log }))
  after_derived_role b constants variables st (err f, log) =
      (on_condition_error st.ctx.strict_evaluation_mode, record st { cel_errors = log })

  abbrev pub decide_derived_role :
      Binding V → Condition → Vars V → Vars V → Loaded V → State V → Decision × State V
  decide_derived_role b c constants variables (load_failed f) st = (broken f, st)
  decide_derived_role b c constants variables (loaded dr_constants dr_variables st') st =
      after_derived_role b constants variables st'
        (satisfies cel st'.ctx dr_constants dr_variables c st'.cel_errors)

  abbrev pub evaluate_decision :
      Binding V → Vars V → Vars V → State V → Option Condition → Decision × State V
  evaluate_decision b constants variables st none = decide_own b constants variables st
  evaluate_decision b constants variables st (some c) =
      decide_derived_role b c constants variables (load_variables b.derived_role_params st) st

  -- By what conditionCache holds.
  abbrev pub decide_cached :
      Binding V → Vars V → Vars V → State V → Option Bool → Decision × State V
  decide_cached b constants variables st (some c) = (decided c, st)
  decide_cached b constants variables st none =
      evaluate_decision b constants variables st b.derived_role_condition

  -- Whether a rule is satisfied, from the cache or by evaluation.
  unfoldable pub decide : Binding V → Vars V → Vars V → State V → Decision × State V
  unfolding load_variables
  decide b constants variables st =
      decide_cached b constants variables st (lookup b.eval_key st.condition_cache)

module _ {V : Type 0} where
  -- m.GetSourceAttributes() into the audit trail
  unfoldable pub audit : Option Meta → State V → State V
  audit none st = st
  audit (some m) st = record st {
    effective_policies = copy st.effective_policies m.source_attributes;
  }

module _ {V : Type 0} (cel : CelEngine V) (rt : RuleTable V) where
  -- result.outputs = append(…); without metadata namer.RuleFQN panics on the nil pointer.
  abbrev pub emit_as : Binding V → Str → Vars V → Vars V → Expr → Frame V → Option Meta → Flow V
  emit_as b action constants variables e fr none = failed (other (codes "panic"))
  emit_as b action constants variables e fr (some m) =
      let entry =
        evaluate_output cel fr.state.ctx constants variables (rule_fqn m.name b.scope b.name) action
          e in
      next (record fr { state = record fr.state { outputs = fr.state.outputs ++ entry ∷ [] } })

  abbrev pub emit : Binding V → Str → Vars V → Vars V → Option Expr → Frame V → Flow V
  emit b action constants variables none fr = next fr
  emit b action constants variables (some e) fr =
      emit_as b action constants variables e fr (rt.get_meta b.origin_fqn)

abbrev pub when_activated : Option OutputWhen → Option Expr
when_activated none = none
when_activated (some w) = w.rule_activated

abbrev pub when_not_met : Option OutputWhen → Option Expr
when_not_met none = none
when_not_met (some w) = w.condition_not_met

abbrev pub is_allow : Effect → Bool
is_allow allow = true
is_allow _ = false

abbrev pub is_deny : Effect → Bool
is_deny deny = true
is_deny _ = false

module _ {V : Type 0} where
  -- The effect of a satisfied rule: a DENY ends the walk through the scopes.
  unfoldable pub apply_effect : Binding V → Str → Frame V → Flow V
  unfolding policy_key_from_fqn
  apply_effect b scope fr =
      let seen = record fr { has_allow = is_allow b.effect || fr.has_allow } in
      let denied_by =
        if b.from_role_policy then policy_key_from_fqn b.origin_fqn else fr.role_effect.policy in
      if is_deny b.effect
      then break_scopes (record seen {
        role_effect = record { policy = denied_by; scope = scope; effect = deny };
      })
      else if b.no_match_for_scope_permissions
      then next (record seen {
        role_effect = record {
          policy = no_match_scope_permissions;
          scope = scope;
          effect = fr.role_effect.effect;
        };
      })
      else next seen

module _ {V : Type 0} (cel : CelEngine V) (rt : RuleTable V) (scope action : Str) where
  -- What follows the decision on a rule's condition.
  unfoldable pub apply_decision :
      Binding V → Vars V → Vars V → Frame V → Decision × State V → Flow V
  unfolding apply_effect
  apply_decision b constants variables fr (decided true, st) =
      emit cel rt b action constants variables (when_activated b.emit_output)
        (record fr { state = st })
      >>= apply_effect b scope
  apply_decision b constants variables fr (decided false, st) =
      emit cel rt b action constants variables (when_not_met b.emit_output)
        (record fr { state = st })
  apply_decision b constants variables fr (skipped, st) = next (record fr { state = st })
  apply_decision b constants variables fr (denied, st) =
      break_policies
        (record { policy = policy_key_from_fqn b.origin_fqn; scope = scope; effect = deny }) st
  apply_decision b constants variables fr (broken f, st) = failed f

  abbrev pub with_loaded : Binding V → Frame V → Loaded V → Flow V
  with_loaded b fr (load_failed f) = failed f
  with_loaded b fr (loaded constants variables st) =
      apply_decision b constants variables fr (decide cel b constants variables st)

  -- One round of `for _, b := range bindings`.
  unfoldable pub process_binding : Binding V → Frame V → Flow V
  unfolding load_variables
  process_binding b fr =
      with_loaded b fr (load_variables cel b.params (audit (rt.get_meta b.origin_fqn) fr.state))

  unfoldable pub process_bindings : List (Binding V) → Frame V → Flow V
  process_bindings [] fr = next fr
  process_bindings (b ∷ bs) fr = process_binding b fr >>= λ fr'. process_bindings bs fr'
