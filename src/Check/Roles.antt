-- ===== src/Check/Roles.antt =====
-- The loops over roles and over policy kinds of RuleTable.check, which give one action its effect.
use access_management.Prelude.{
  Bool, true, false, ◌&&◌, ◌||◌, not, List, [], ◌∷◌, Str, str_eq, if◌then◌else◌,
}
use access_management.Check.Types.{
  Effect, unspecified, no_match, deny, Kind, principal, resource, Failure,
}
use access_management.Check.Condition.{CelEngine}
use access_management.Check.State.{
  EffectInfo, RuleTable, State, Flow, next, break_scopes, break_policies, failed,
}
use access_management.Check.Rules.{no_match_scope_permissions, no_policy_match, is_allow, is_deny}
use access_management.Check.Walk.{Query, is_no_match, walk_scopes}

-- How the loops over roles and kinds stand: still running, left with an effect, or failed.
pub data ActionFlow (V : Type 0) : Type 0 where
  running : EffectInfo → State V → ActionFlow V
  finished : EffectInfo → State V → ActionFlow V
  action_failed : Failure → ActionFlow V

-- The new effect of the action, and whether the loop over roles ends.
unfoldable pub merge_role : EffectInfo → EffectInfo → EffectInfo × Bool
merge_role action_effect role_effect =
    let first = if is_no_match action_effect.effect then role_effect else action_effect in
    if is_allow role_effect.effect
    then (role_effect, true)
    else if is_deny role_effect.effect
        && str_eq first.policy no_match_scope_permissions
        && not (str_eq role_effect.policy no_match_scope_permissions)
    then (role_effect, false)
    else (first, false)

abbrev pub is_settled : Effect → Bool
is_settled e = is_allow e || is_deny e

abbrev pub no_effect : EffectInfo
no_effect = record { policy = []; scope = []; effect = unspecified }

-- What is not matched is denied.
abbrev pub or_deny : EffectInfo → EffectInfo
or_deny e = if is_no_match e.effect then record e { effect = deny } else e

-- Principal rules do not depend on the role: one round covers them.
abbrev pub roles_for : Kind → List Str → List Str
roles_for principal (role ∷ roles) = role ∷ []
roles_for pt roles = roles

module _ (q : Query) where
  abbrev pub scopes_of : Kind → List Str
  scopes_of principal = q.principal_scopes
  scopes_of _ = q.resource_scopes

  abbrev pub main_policy_key : Kind → Str
  main_policy_key principal = q.principal_policy_key
  main_policy_key _ = q.resource_policy_key

  -- The policy that a role's effect is ascribed to before any rule is read.
  abbrev pub policy_exists : Kind → Bool
  policy_exists principal = q.scoped_principal_exists
  policy_exists resource = q.scoped_resource_exists
  policy_exists _ = false

  abbrev pub initial_effect : Kind → EffectInfo
  initial_effect pt = record {
    policy = if policy_exists pt then main_policy_key pt else no_policy_match;
    scope = [];
    effect = no_match;
  }

module _ {V : Type 0} where
  abbrev pub after_role : EffectInfo → Flow V → (EffectInfo → State V → ActionFlow V) → ActionFlow V
  after_role e (next fr) rest =
      let m = merge_role e fr.role_effect in if m.1 then running m.0 fr.state else rest m.0 fr.state
  after_role e (break_scopes fr) rest =
      let m = merge_role e fr.role_effect in if m.1 then running m.0 fr.state else rest m.0 fr.state
  after_role e (break_policies e' st) rest = finished e' st
  after_role e (failed f) rest = action_failed f

  abbrev pub after_kind : ActionFlow V → (EffectInfo → State V → ActionFlow V) → ActionFlow V
  after_kind (running e st) rest = if is_settled e.effect then finished e st else rest e st
  after_kind (finished e st) rest = finished e st
  after_kind (action_failed f) rest = action_failed f

  abbrev pub conclude : ActionFlow V → ActionFlow V
  conclude (running e st) = finished (or_deny e) st
  conclude (finished e st) = finished (or_deny e) st
  conclude (action_failed f) = action_failed f

module _ {V : Type 0} (cel : CelEngine V) (rt : RuleTable V) (q : Query) (action : Str) where
  -- The effect that one role has in the scopes of a kind of policies.
  unfoldable pub walk_role : Kind → Str → State V → Flow V
  walk_role pt role st =
      walk_scopes cel rt q role action pt (scopes_of q pt)
        (record { state = st; role_effect = initial_effect q pt; has_allow = false })

  unfoldable pub walk_roles : Kind → List Str → EffectInfo → State V → ActionFlow V
  unfolding merge_role
  walk_roles pt [] e st = running e st
  walk_roles pt (role ∷ roles) e st =
      after_role e (walk_role pt role st) (λ e' st'. walk_roles pt roles e' st')

  -- policiesLoop: each kind starts from NO_MATCH.
  unfoldable pub walk_kinds : List Kind → EffectInfo → State V → ActionFlow V
  walk_kinds [] e st = running e st
  walk_kinds (pt ∷ pts) e st =
      after_kind
        (walk_roles pt (roles_for pt q.principal_roles) (record e { effect = no_match }) st)
        (λ e' st'. walk_kinds pts e' st')

  -- The effect of one action, or the failure of the check.
  unfoldable pub resolve_action : State V → ActionFlow V
  resolve_action st = conclude (walk_kinds (principal ∷ resource ∷ []) no_effect st)
