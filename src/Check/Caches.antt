-- ===== src/Check/Caches.antt =====
-- What the caches of a check hold: variables that were computed, and keys of rules whose conditions
-- were evaluated to true.
pub mod Deciding
pub mod Entering
use mathlib.Core.List.{Memᴰ}
use mathlib.Core.Path.{subst}
use access_management.Prelude.{
  ℕ, ◌≡◌, ◌∙◌, refl, sym, Bool, true, false, Option, none, some, inl, inr, List, [], ◌∷◌, Str,
  arith, lookup, insert, lookup-insert, nat_comparable, str_comparable, Bool-cases, if_either, ◌==◌,
  ==_iff, if◌then◌else◌,
}
use access_management.Check.Types.{
  Kind, kind_unspecified, derived_roles, export_variables, principal, resource, role_policy,
  export_constants, DerivedRole, RowParams, Binding, Vars, CelError, Result, ok, err, Condition,
  EvaluationKeyTuple, eval_key_comparable,
}
use access_management.Check.Condition.{
  CelEngine, EvalContext, Logged, satisfies, satisfies_condition,
}
use access_management.Check.Variables.{evaluate_programs, evaluate_variables}
use access_management.Check.State.{RuleTable, State, ScopedDerivedRoles}
use access_management.Check.Rules.{
  Decision, decided, Loaded, loaded, load_failed, load_variables, cache_variables, load_cached,
  decide_cached, own_decision, decide, decide_own, after_derived_role, decide_derived_role,
  evaluate_decision, on_condition_error,
}
use access_management.Check.Walk.{
  Query, bindings_of, enter_scope, process_derived_roles, process_derived_role, dr_cached,
  enter_cached, cache_dr_variables, judge_derived_role, finish_derived_roles, set_intersects,
  and_then,
}

module _ {V : Type 0} (cel : CelEngine V) where
  -- The variables were computed for the key: from the programs of a row, or from the variables of a
  -- derived role.
  pub data Computed (k : ℕ) (vars : Vars V) : Type 0 where
    by_programs :
        (p : RowParams V) (ctx : EvalContext) (log log' : List CelError)
        → p.key ≡ k
        → evaluate_programs cel ctx p.constants p.cel_programs log ≡ (ok vars, log')
        → Computed k vars
    by_variables :
        (dr : DerivedRole V) (ctx : EvalContext) (log log' : List CelError)
        → dr.var_cache_key ≡ k
        → evaluate_variables cel ctx dr.constants dr.ordered_variables log ≡ (ok vars, log')
        → Computed k vars

  -- The constants and variables that parameters provide.
  pub data Provided : Option (RowParams V) → Vars V → Vars V → Type 0 where
    no_params : Provided none [] []
    by_params :
        (p : RowParams V) (vars : Vars V) → Computed p.key vars → Provided (some p) p.constants vars

  -- The condition of a derived role, if there is one, was evaluated to true.
  pub data DerivedHolds : Option Condition → Option (RowParams V) → Type 0 where
    not_derived : {p : Option (RowParams V)} → DerivedHolds none p
    derived_holds :
        {c : Condition} {p : Option (RowParams V)} (constants variables : Vars V)
        → Provided p constants variables
        → (ctx : EvalContext) (log log' : List CelError)
        → satisfies cel ctx constants variables c log ≡ (ok true, log')
        → DerivedHolds (some c) p

module _ {V : Type 0} (cel : CelEngine V) (rt : RuleTable V) (q : Query) where
  -- The conditions of a rule of the rule table that has the key were evaluated to true, with the
  -- constants and variables of the rule.
  pub record Held (key : EvaluationKeyTuple) : Type 0 where
    pub rule : Binding V
    pub role : Str
    pub action : Str
    pub kind : Kind
    pub scope : Str
    pub rule_found : Memᴰ rule (bindings_of cel rt q role action kind scope)
    pub has_key : rule.eval_key ≡ key
    pub constants : Vars V
    pub variables : Vars V
    pub provided : Provided cel rule.params constants variables
    pub derived_condition_holds :
        DerivedHolds cel rule.derived_role_condition rule.derived_role_params
    pub ctx : EvalContext
    pub log : List CelError
    pub log' : List CelError
    pub condition_holds :
        satisfies_condition cel ctx constants variables rule.condition log ≡ (ok true, log')

  -- The caches hold variables that were computed, and true for rules that held only.
  abbrev pub IsSound : State V → Type 0
  IsSound st =
      ((k : ℕ) (vars : Vars V) → lookup k st.var_cache ≡ some vars → Computed cel k vars)
      × ((key : EvaluationKeyTuple) → lookup key st.condition_cache ≡ some true → Held key)

  cached_variables :
      (k : ℕ) (vars : Vars V) (m : List (ℕ × Vars V))
      → ((j : ℕ) (w : Vars V) → lookup j m ≡ some w → Computed cel j w)
      → Computed cel k vars
      → (j : ℕ) (w : Vars V) → lookup j (insert k vars m) ≡ some w
      → Computed cel j w
  cached_variables k vars m all one j w h = elim (Bool-cases (k == j)) [
    | inl s ↦
        subst (λ x. Computed cel x w) ((==_iff k j).0 s)
          (subst (λ x. Computed cel k x) (ground (arith, h, s, lookup-insert k j vars m)) one)
    | inr d ↦ all j w (ground (arith, h, d, lookup-insert k j vars m))
  ]

  cached_condition :
      (key : EvaluationKeyTuple) (b : Bool) (m : List (EvaluationKeyTuple × Bool))
      → ((j : EvaluationKeyTuple) → lookup j m ≡ some true → Held j)
      → (b ≡ true → Held key)
      → (j : EvaluationKeyTuple) → lookup j (insert key b m) ≡ some true
      → Held j
  cached_condition key b m all one j h = elim (Bool-cases (eval_key_comparable.beq key j)) [
    | inl s ↦
        subst Held ((eval_key_comparable.beq_iff key j).0 s)
          (one (hit (eval_key_comparable.beq key j) s (sym (lookup-insert key j b m) ∙ h)))
    | inr d ↦ all j (miss (eval_key_comparable.beq key j) d (sym (lookup-insert key j b m) ∙ h))
  ]
    where
      hit : (c : Bool) → c ≡ true → (if c then some b else lookup j m) ≡ some true → b ≡ true
      hit c s e = ground (arith, s, e)

      miss :
          (c : Bool)
          → c ≡ false
          → (if c then some b else lookup j m) ≡ some true
          → lookup j m ≡ some true
      miss c d e = ground (arith, d, e)

  -- What loading parameters leaves and gives.
  abbrev pub LoadsFrom : Option (RowParams V) → Loaded V → Type 0
  LoadsFrom o (loaded constants variables st) = IsSound st × Provided cel o constants variables
  LoadsFrom o (load_failed f) = Unit

  pub load_variables-LoadsFrom :
      (o : Option (RowParams V)) (st : State V) → IsSound st → LoadsFrom o (load_variables cel o st)
  unfolding load_variables
  load_variables-LoadsFrom none st s = (s, Provided.no_params)
  load_variables-LoadsFrom (some p) st s = by_cached (lookup p.key st.var_cache) refl
    where
      computed :
          (r : Logged (Result (Vars V)))
          → evaluate_programs cel st.ctx p.constants p.cel_programs st.cel_errors ≡ r
          → LoadsFrom (some p) (cache_variables p st r)
      computed (ok vars, log) e =
          let c = Computed.by_programs p st.ctx st.cel_errors log refl e in
          ((cached_variables p.key vars st.var_cache s.0 c, s.1), Provided.by_params p vars c)
      computed (err f, log) e = tt

      by_cached :
          (o : Option (Vars V))
          → lookup p.key st.var_cache ≡ o
          → LoadsFrom (some p) (load_cached cel p st o)
      by_cached (some vars) e = (s, Provided.by_params p vars (s.0 p.key vars e))
      by_cached none e =
          computed (evaluate_programs cel st.ctx p.constants p.cel_programs st.cel_errors) refl
