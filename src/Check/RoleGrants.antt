-- ===== src/Check/RoleGrants.antt =====
-- What the effect of one role rests on: the invariant through the loop over scopes.
use mathlib.Core.List.{Memᴰ}
use access_management.Prelude.{◌≡◌, ◌∙◌, ap, inl, inr, refl, false, Str, All, arith}
use access_management.Check.Types.{permissions_unspecified, Kind, Result, ok, err}
use access_management.Check.Condition.{CelEngine}
use access_management.Check.State.{RuleTable, State, Frame, Flow}
use access_management.Check.Rules.{process_binding, process_bindings}
use access_management.Check.Walk.{
  Query, bindings_of, settle_scope, enter_scope, process_scope, in_scope,
}
use access_management.Check.Roles.{scopes_of, roles_for, initial_effect, walk_role}
use access_management.Check.Caches.{IsSound}
use access_management.Check.Caches.Entering.{EntersSoundly, enter_scope-EntersSoundly}
use access_management.Check.Invariants.{FlowHas-bind, FlowHas-process_bindings, FlowHas-walk_scopes}
use access_management.Check.Grants.{
  All-of_Mem, Placed, Below, Granted, IsOpen, Keeps, process_binding-Keeps, settle_scope-Keeps,
}

module _ {V : Type 0} (cel : CelEngine V) (rt : RuleTable V) (q : Query) (action : Str)
    (pt : Kind) where
  -- What the walk of a role keeps between scopes.
  abbrev pub RoleKeeps : Flow V → Type 0
  RoleKeeps = Keeps cel rt q (Below cel rt q action pt) (Granted cel rt q action pt)

  Placed-Below :
      (s : Str)
      → Placed cel rt q action pt s
      → rt.scope_permissions_of s ≡ permissions_unspecified
      → Below cel rt q action pt
  Placed-Below s p u = record {
    grant = p.grant;
    unspecified_there = elim p.place [
      | inl here ↦ ap rt.scope_permissions_of here ∙ u
      | inr there ↦ there
    ];
  }

  Below-Placed : (s : Str) → Below cel rt q action pt → Placed cel rt q action pt s
  Below-Placed s b = record { grant = b.grant; place = inr b.unspecified_there }

  module _ (role : Str) (own : Memᴰ role (roles_for pt q.principal_roles)) where
    process_scope-Keeps :
        (scope : Str)
        → Memᴰ scope (scopes_of q pt)
        → (fr : Frame V) → IsOpen cel rt q (Below cel rt q action pt) fr
        → RoleKeeps (process_scope cel rt q role action pt scope fr)
    unfolding process_scope
    process_scope-Keeps scope m fr h =
        entered (enter_scope cel rt q pt scope fr.state)
          (enter_scope-EntersSoundly cel rt q pt scope fr.state h.sound)
      where
        rules_keep :
            All
              (λ b.
                (fr : Frame V)
                → IsOpen cel rt q (Placed cel rt q action pt scope) fr
                → Keeps cel rt q
                    (Placed cel rt q action pt scope)
                    (Granted cel rt q action pt)
                    (process_binding cel rt scope action b fr))
              (bindings_of cel rt q role action pt scope)
        rules_keep = All-of_Mem _ _ (λ b found.
            process_binding-Keeps cel rt q (Placed cel rt q action pt scope)
              (Granted cel rt q action pt) scope action b role pt found
              (λ held a. record {
                grant = record {
                  role = role;
                  role_of_principal = own;
                  scope = scope;
                  scope_searched = m;
                  rule = b;
                  rule_found = found;
                  rule_allows = a;
                  rule_held = held;
                };
                place = inl refl;
              }))

        placed :
            (st : State V)
            → IsSound cel rt q st
            → IsOpen cel rt q (Placed cel rt q action pt scope) (record fr { state = st })
        placed st s = record {
          seen = λ a. Below-Placed scope (h.seen a);
          no_effect_yet = h.no_effect_yet;
          sound = s;
        }

        entered :
            (r : Result (State V))
            → EntersSoundly cel rt q r
            → RoleKeeps (in_scope cel rt q role action pt scope fr r)
        entered (err f) s = tt
        entered (ok st) s = simp h.no_effect_yet (
            FlowHas-bind _ _ _ _
              (process_bindings cel rt scope action (bindings_of cel rt q role action pt scope)
                (record fr { state = st }))
              (settle_scope cel rt q scope)
              (FlowHas-process_bindings _ _ _ cel rt scope action
                (bindings_of cel rt q role action pt scope) rules_keep (record fr { state = st })
                (placed st s))
              (settle_scope-Keeps cel rt q (Placed cel rt q action pt scope)
                (Below cel rt q action pt) (Granted cel rt q action pt) scope
                (λ p o. record { scope_searched = m; overrides = o; placed = p })
                (Placed-Below scope)))

    pub walk_role-Keeps :
        (st : State V) → IsSound cel rt q st → RoleKeeps (walk_role cel rt q action pt role st)
    unfolding walk_role
    walk_role-Keeps st s =
        FlowHas-walk_scopes _ _ _ cel rt q role action pt (scopes_of q pt)
          (All-of_Mem _ _ (λ scope m. process_scope-Keeps scope m))
          (record { state = st; role_effect = initial_effect q pt; has_allow = false })
          (record { seen = λ e. absurd (ground (arith, e)); no_effect_yet = refl; sound = s })
