-- ===== src/Check/Walk.antt =====
-- The loops over scopes, roles and policy kinds of RuleTable.check (internal/ruletable/check.go).
use access_management.Prelude.{
  Bool, true, false, ◌||◌, Option, none, some, List, [], ◌∷◌, ◌++◌, Str, str_eq, mem, lookup,
  insert, nat_comparable, str_comparable, if◌then◌else◌, codes, any,
}
use access_management.Namer.Fqn.{resource_policy_fqn}
use access_management.Check.Types.{
  Effect, no_match, allow, Kind, principal, resource, override_parent, ScopePermissions,
  require_parental_consent_for_allows, DerivedRole, Binding, Vars, Result, ok, err,
}
use access_management.Check.Condition.{CelEngine, Logged, satisfies_condition, sort_strings}
use access_management.Check.Variables.{evaluate_variables}
use access_management.Check.State.{
  RuleTable, ScopedDerivedRoles, State, Frame, Flow, next, break_scopes, failed, ◌>>=◌,
}
use access_management.Check.Rules.{process_bindings}

-- The variables of `check` that are fixed before the first action.
pub record Query : Type 0 where
  pub principal_id : Str
  pub principal_roles : List Str
  pub resource_kind : Str
  pub resource_version : Str
  pub resource_scope : Str
  pub including_parent_roles : List Str
  pub principal_scopes : List Str
  pub resource_scopes : List Str
  pub principal_policy_key : Str
  pub resource_policy_key : Str
  pub scoped_principal_exists : Bool
  pub scoped_resource_exists : Bool

abbrev pub is_no_match : Effect → Bool
is_no_match no_match = true
is_no_match _ = false

-- internal.SetIntersects; the role "*" of a derived role fits any role.
unfoldable pub set_intersects : List Str → List Str → Bool
set_intersects s1 s2 = any (λ v. str_eq v (codes "*") || mem v s2) s1

-- set[v] = struct{}{}
unfoldable pub add_to_set : Str → List Str → List Str
add_to_set v s = if mem v s then s else s ++ v ∷ []

abbrev pub and_then : {A B : Type 0} → Result A → (A → Result B) → Result B
and_then (ok a) k = k a
and_then (err f) k = err f

module _ {V : Type 0} where
  abbrev pub cache_dr_variables :
      DerivedRole V → State V → Logged (Result (Vars V)) → Result (Vars V × State V)
  cache_dr_variables dr st (ok vars, log) =
      ok (
        vars,
        record st { var_cache = insert dr.var_cache_key vars st.var_cache; cel_errors = log },
      )
  cache_dr_variables dr st (err f, log) = err f

  -- What the condition of a derived role adds: the role, or in strict mode its error.
  abbrev pub judge_derived_role :
      Str → ScopedDerivedRoles → State V → Logged (Result Bool) → ScopedDerivedRoles × State V
  judge_derived_role name sdr st (ok true, log) = (
    record sdr { roles = add_to_set name sdr.roles },
    record st {
      effective_derived_roles = add_to_set name st.effective_derived_roles;
      cel_errors = log;
    },
  )
  judge_derived_role name sdr st (ok false, log) = (sdr, record st { cel_errors = log })
  judge_derived_role name sdr st (err f, log) = (
    if st.ctx.strict_evaluation_mode
        then record sdr { err_roles = sdr.err_roles ++ name ∷ [] }
        else sdr,
    record st { cel_errors = log },
  )

  -- evalCtx.withEffectiveDerivedRoles
  abbrev pub with_effective_derived_roles : ScopedDerivedRoles → State V → State V
  with_effective_derived_roles sdr st = record st {
    ctx = record st.ctx { effective_derived_roles = sdr.roles; err_derived_roles = sdr.err_roles };
  }

module _ {V : Type 0} (cel : CelEngine V) (rt : RuleTable V) (q : Query) where
  -- By what varCache holds.
  abbrev pub dr_cached : DerivedRole V → State V → Option (Vars V) → Result (Vars V × State V)
  dr_cached dr st (some vars) = ok (vars, st)
  dr_cached dr st none =
      cache_dr_variables dr st
        (evaluate_variables cel st.ctx dr.constants dr.ordered_variables st.cel_errors)

  abbrev pub dr_variables : DerivedRole V → State V → Result (Vars V × State V)
  dr_variables dr st = dr_cached dr st (lookup dr.var_cache_key st.var_cache)

  -- One round of `for name, dr := range drs`.
  abbrev pub process_derived_role :
      Str → DerivedRole V → ScopedDerivedRoles → State V → Result (ScopedDerivedRoles × State V)
  process_derived_role name dr sdr st =
      if set_intersects dr.parent_roles q.including_parent_roles
      then and_then (dr_variables dr st) (λ r. ok (
          judge_derived_role name sdr r.1
            (satisfies_condition cel r.1.ctx dr.constants r.0 dr.condition r.1.cel_errors)))
      else ok (sdr, st)

  unfoldable pub process_derived_roles :
      List (Str × DerivedRole V)
      → ScopedDerivedRoles
      → State V
      → Result (ScopedDerivedRoles × State V)
  process_derived_roles [] sdr st = ok (sdr, st)
  process_derived_roles ((name, dr) ∷ drs) sdr st =
      and_then (process_derived_role name dr sdr st) (λ r. process_derived_roles drs r.0 r.1)

  abbrev pub finish_derived_roles : Str → Result (ScopedDerivedRoles × State V) → Result (State V)
  finish_derived_roles scope (err f) = err f
  finish_derived_roles scope (ok (sdr, st)) =
      let sorted = record sdr { err_roles = sort_strings sdr.err_roles } in
      ok (
        with_effective_derived_roles sorted
          (record st { processed = insert scope sorted st.processed }))

  -- By whether the scope was processed before.
  abbrev pub enter_cached : Str → State V → Option ScopedDerivedRoles → Result (State V)
  enter_cached scope st (some sdr) = ok (with_effective_derived_roles sdr st)
  enter_cached scope st none = finish_derived_roles scope (
      process_derived_roles
        (rt.derived_roles_of (resource_policy_fqn q.resource_kind q.resource_version scope))
        (record { roles = []; err_roles = [] }) st)

  -- The block that computes the effective derived roles of a scope, once for each scope.
  unfoldable pub enter_scope : Kind → Str → State V → Result (State V)
  unfolding process_derived_roles
  enter_scope resource scope st = enter_cached scope st (lookup scope st.processed)
  enter_scope _ scope st = ok st

  -- The `switch` on the scope permissions behind the loop over bindings.
  abbrev pub by_permissions : ScopePermissions → Str → Frame V → Flow V
  by_permissions override_parent scope fr = break_scopes (record fr {
    role_effect = record { policy = fr.role_effect.policy; scope = scope; effect = allow };
  })
  by_permissions require_parental_consent_for_allows scope fr =
      next (record fr { has_allow = false })
  by_permissions _ scope fr = next fr

  unfoldable pub settle_scope : Str → Frame V → Flow V
  settle_scope scope fr =
      if fr.has_allow then by_permissions (rt.scope_permissions_of scope) scope fr else next fr

  -- The principal is given for principal policies only.
  abbrev pub query_principal : Kind → Str
  query_principal principal = q.principal_id
  query_principal _ = []

  -- The bindings that a scope gives for an action and a role.
  unfoldable pub bindings_of : Str → Str → Kind → Str → List (Binding V)
  bindings_of role action pt scope =
      rt.query q.resource_version q.resource_kind scope action
        (rt.add_parent_roles (q.resource_scope ∷ []) (role ∷ [])) pt (query_principal pt)

  abbrev pub in_scope : Str → Str → Kind → Str → Frame V → Result (State V) → Flow V
  in_scope role action pt scope fr (err f) = failed f
  in_scope role action pt scope fr (ok st) =
      let fr' = record fr { state = st } in
      if is_no_match fr.role_effect.effect
      then process_bindings cel rt scope action (bindings_of role action pt scope) fr'
        >>= settle_scope scope
      else break_scopes fr'

  -- One round of scopesLoop.
  unfoldable pub process_scope : Str → Str → Kind → Str → Frame V → Flow V
  process_scope role action pt scope fr =
      in_scope role action pt scope fr (enter_scope pt scope fr.state)

  unfoldable pub walk_scopes : Str → Str → Kind → List Str → Frame V → Flow V
  walk_scopes role action pt [] fr = next fr
  walk_scopes role action pt (s ∷ ss) fr =
      process_scope role action pt s fr >>= λ fr'. walk_scopes role action pt ss fr'
