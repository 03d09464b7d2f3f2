-- ===== src/Check/Caches/Entering.antt =====
-- Entering a scope, where its derived roles are evaluated, keeps the caches sound.
use access_management.Prelude.{
  ◌≡◌, refl, Bool, true, false, Option, none, some, List, [], ◌∷◌, Str, lookup, insert,
  nat_comparable, str_comparable, if_either,
}
use access_management.Check.Types.{
  Kind, kind_unspecified, derived_roles, export_variables, principal, resource, role_policy,
  export_constants, DerivedRole, Vars, Result, ok, err, eval_key_comparable,
}
use access_management.Check.Condition.{CelEngine, Logged, satisfies_condition}
use access_management.Check.Variables.{evaluate_variables}
use access_management.Check.State.{RuleTable, State, ScopedDerivedRoles}
use access_management.Check.Walk.{
  Query, enter_scope, process_derived_roles, process_derived_role, dr_cached, enter_cached,
  cache_dr_variables, judge_derived_role, finish_derived_roles, set_intersects, and_then,
}
use access_management.Check.Caches.{Computed, IsSound, cached_variables}

module _ {V : Type 0} (cel : CelEngine V) (rt : RuleTable V) (q : Query) where
  -- What the derived roles of a scope leave.
  abbrev ProcessesSoundly : Result (ScopedDerivedRoles × State V) → Type 0
  ProcessesSoundly (ok (sdr, st)) = IsSound cel rt q st
  ProcessesSoundly (err f) = Unit

  abbrev pub EntersSoundly : Result (State V) → Type 0
  EntersSoundly (ok st) = IsSound cel rt q st
  EntersSoundly (err f) = Unit

  judged :
      (name : Str) (sdr : ScopedDerivedRoles) (st : State V) (r : Logged (Result Bool))
      → IsSound cel rt q st
      → IsSound cel rt q (judge_derived_role name sdr st r).1
  judged name sdr st (ok true, log) s = s
  judged name sdr st (ok false, log) s = s
  judged name sdr st (err f, log) s = s

  process_derived_role-Sound :
      (name : Str) (dr : DerivedRole V) (sdr : ScopedDerivedRoles) (st : State V)
      → IsSound cel rt q st
      → ProcessesSoundly (process_derived_role cel rt q name dr sdr st)
  process_derived_role-Sound name dr sdr st s =
      if_either ProcessesSoundly (set_intersects dr.parent_roles q.including_parent_roles) _ _
        (by_cached (lookup dr.var_cache_key st.var_cache)) s
    where
      judge : Vars V × State V → Result (ScopedDerivedRoles × State V)
      judge r = ok (
          judge_derived_role name sdr r.1
            (satisfies_condition cel r.1.ctx dr.constants r.0 dr.condition r.1.cel_errors))

      by_result :
          (r : Logged (Result (Vars V)))
          → evaluate_variables cel st.ctx dr.constants dr.ordered_variables st.cel_errors ≡ r
          → ProcessesSoundly (and_then (cache_dr_variables dr st r) judge)
      by_result (ok vars, log) e =
          judged name sdr
            (record st { var_cache = insert dr.var_cache_key vars st.var_cache; cel_errors = log })
            (satisfies_condition cel st.ctx dr.constants vars dr.condition log)
            (
              cached_variables cel rt q dr.var_cache_key vars st.var_cache s.0
                  (Computed.by_variables dr st.ctx st.cel_errors log refl e),
              s.1,
            )
      by_result (err f, log) e = tt

      by_cached :
          (o : Option (Vars V)) → ProcessesSoundly (and_then (dr_cached cel rt q dr st o) judge)
      by_cached (some vars) =
          judged name sdr st
            (satisfies_condition cel st.ctx dr.constants vars dr.condition st.cel_errors) s
      by_cached none =
          by_result (evaluate_variables cel st.ctx dr.constants dr.ordered_variables st.cel_errors)
            refl

  then_processes :
      (r : Result (ScopedDerivedRoles × State V)) (drs : List (Str × DerivedRole V))
      → ProcessesSoundly r
      → ((sdr : ScopedDerivedRoles) (st : State V)
          → IsSound cel rt q st
          → ProcessesSoundly (process_derived_roles cel rt q drs sdr st))
      → ProcessesSoundly (and_then r (λ p. process_derived_roles cel rt q drs p.0 p.1))
  then_processes (ok (sdr, st)) drs s k = k sdr st s
  then_processes (err f) drs s k = tt

  process_derived_roles-Sound :
      (drs : List (Str × DerivedRole V)) (sdr : ScopedDerivedRoles) (st : State V)
      → IsSound cel rt q st
      → ProcessesSoundly (process_derived_roles cel rt q drs sdr st)
  unfolding process_derived_roles
  process_derived_roles-Sound [] sdr st s = s
  process_derived_roles-Sound ((name, dr) ∷ drs) sdr st s =
      then_processes (process_derived_role cel rt q name dr sdr st) drs
        (process_derived_role-Sound name dr sdr st s)
        (λ sdr' st' s'. process_derived_roles-Sound drs sdr' st' s')

  finished :
      (scope : Str) (r : Result (ScopedDerivedRoles × State V))
      → ProcessesSoundly r
      → EntersSoundly (finish_derived_roles cel rt q scope r)
  finished scope (ok (sdr, st)) s = s
  finished scope (err f) s = tt

  entered :
      (scope : Str) (st : State V) (o : Option ScopedDerivedRoles)
      → IsSound cel rt q st
      → EntersSoundly (enter_cached cel rt q scope st o)
  entered scope st (some sdr) s = s
  entered scope st none s = finished scope _ (process_derived_roles-Sound _ _ st s)

  pub enter_scope-EntersSoundly :
      (kind : Kind) (scope : Str) (st : State V)
      → IsSound cel rt q st
      → EntersSoundly (enter_scope cel rt q kind scope st)
  unfolding enter_scope
  enter_scope-EntersSoundly resource scope st s = entered scope st (lookup scope st.processed) s
  enter_scope-EntersSoundly kind_unspecified scope st s = s
  enter_scope-EntersSoundly derived_roles scope st s = s
  enter_scope-EntersSoundly export_variables scope st s = s
  enter_scope-EntersSoundly export_constants scope st s = s
  enter_scope-EntersSoundly principal scope st s = s
  enter_scope-EntersSoundly role_policy scope st s = s
