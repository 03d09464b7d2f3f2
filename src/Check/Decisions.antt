-- ===== src/Check/Decisions.antt =====
-- What the effect of an action rests on: the invariant through the loops over roles and kinds.
use mathlib.Core.List.{Memᴰ}
use access_management.Prelude.{
  ◌≡◌, refl, Bool, true, false, ◌⊎◌, inl, inr, List, [], ◌∷◌, Str, arith, Bool-cases, if◌then◌else◌,
}
use access_management.Check.Types.{no_match, Kind, principal, resource}
use access_management.Check.Condition.{CelEngine}
use access_management.Check.State.{
  EffectInfo, RuleTable, State, Flow, next, break_scopes, break_policies, failed,
}
use access_management.Check.Walk.{Query, is_no_match}
use access_management.Check.Roles.{
  ActionFlow, running, finished, action_failed, walk_role, merge_role, after_role, walk_roles,
  walk_kinds, resolve_action, or_deny, is_settled, roles_for, after_kind, conclude, no_effect,
}
use access_management.Check.Caches.{IsSound}
use access_management.Check.Grants.{Granted, Below, IsGranted, IsOpen-IsGranted, IsDenied, Keeps}
use access_management.Check.RoleGrants.{walk_role-Keeps}

merge_role-cases : (a r : EffectInfo) → ((merge_role a r).0 ≡ r) ⊎ ((merge_role a r).0 ≡ a)
unfolding merge_role
merge_role-cases a r = ground arith

module _ {V : Type 0} where
  -- What holds of the effect and the state with which a loop over roles or kinds stands.
  abbrev pub ActionHas : (EffectInfo → State V → Type 0) → ActionFlow V → Type 0
  ActionHas I (running e st) = I e st
  ActionHas I (finished e st) = I e st
  ActionHas I (action_failed f) = Unit

pub IsDenied-IsGranted : (Ended : Str → Type 0) (e : EffectInfo) → IsDenied e → IsGranted Ended e
IsDenied-IsGranted Ended e h = record {
  given = λ a. absurd (ground (arith, a, h));
  ruled = rw h tt;
}

no_match-IsGranted :
    (Ended : Str → Type 0) (e : EffectInfo) → e.effect ≡ no_match → IsGranted Ended e
no_match-IsGranted Ended e h = record {
  given = λ a. absurd (ground (arith, a, h));
  ruled = rw h tt;
}

merge_role-IsGranted :
    (Ended : Str → Type 0) (a r : EffectInfo)
    → IsGranted Ended a
    → IsGranted Ended r
    → IsGranted Ended (merge_role a r).0
merge_role-IsGranted Ended a r ha hr = elim (merge_role-cases a r) [
  | inl e ↦ rw e hr
  | inr e ↦ rw e ha
]

or_deny-IsGranted :
    (Ended : Str → Type 0) (e : EffectInfo) → IsGranted Ended e → IsGranted Ended (or_deny e)
or_deny-IsGranted Ended e h = elim (Bool-cases (is_no_match e.effect)) [
  | inl n ↦ simp n (IsDenied-IsGranted Ended _ refl)
  | inr n ↦ simp n h
]

module _ {V : Type 0} (cel : CelEngine V) (rt : RuleTable V) (q : Query) where
  -- The effect is granted and the caches are sound.
  abbrev pub GrantedIn : (Str → Type 0) → EffectInfo → State V → Type 0
  GrantedIn Ended e st = IsGranted Ended e × IsSound cel rt q st

  module _ (Ended : Str → Type 0) where
    merged :
        (b : Bool) (e : EffectInfo) (st : State V) (rest : EffectInfo → State V → ActionFlow V)
        → GrantedIn Ended e st
        → ((e' : EffectInfo) (st' : State V)
            → GrantedIn Ended e' st'
            → ActionHas (GrantedIn Ended) (rest e' st'))
        → ActionHas (GrantedIn Ended) (if b then running e st else rest e st)
    merged true e st rest h k = h
    merged false e st rest h k = k e st h

    after_role-Keeps :
        (Seen : Type 0) (e : EffectInfo) (m : Flow V) (rest : EffectInfo → State V → ActionFlow V)
        → IsGranted Ended e
        → Keeps cel rt q Seen Ended m
        → ((e' : EffectInfo) (st' : State V)
            → GrantedIn Ended e' st'
            → ActionHas (GrantedIn Ended) (rest e' st'))
        → ActionHas (GrantedIn Ended) (after_role e m rest)
    after_role-Keeps Seen e (next fr) rest h hm k =
        merged (merge_role e fr.role_effect).1 (merge_role e fr.role_effect).0 fr.state rest
          (
            merge_role-IsGranted Ended e fr.role_effect h
                (IsOpen-IsGranted cel rt q Seen Ended fr hm),
            hm.sound,
          )
          k
    after_role-Keeps Seen e (break_scopes fr) rest h hm k =
        merged (merge_role e fr.role_effect).1 (merge_role e fr.role_effect).0 fr.state rest
          (merge_role-IsGranted Ended e fr.role_effect h hm.0, hm.1) k
    after_role-Keeps Seen e (break_policies e' st) rest h hm k =
        (IsDenied-IsGranted Ended e' hm.0, hm.1)
    after_role-Keeps Seen e (failed f) rest h hm k = tt

    after_kind-Keeps :
        (m : ActionFlow V) (rest : EffectInfo → State V → ActionFlow V)
        → ActionHas (GrantedIn Ended) m
        → ((e' : EffectInfo) (st' : State V)
            → GrantedIn Ended e' st'
            → ActionHas (GrantedIn Ended) (rest e' st'))
        → ActionHas (GrantedIn Ended) (after_kind m rest)
    after_kind-Keeps (running e st) rest h k = elim (Bool-cases (is_settled e.effect)) [
      | inl s ↦ simp s h
      | inr s ↦ simp s (k e st h)
    ]
    after_kind-Keeps (finished e st) rest h k = h
    after_kind-Keeps (action_failed f) rest h k = tt

    conclude-Keeps :
        (m : ActionFlow V)
        → ActionHas (GrantedIn Ended) m
        → ActionHas (GrantedIn Ended) (conclude m)
    conclude-Keeps (running e st) h = (or_deny-IsGranted Ended e h.0, h.1)
    conclude-Keeps (finished e st) h = (or_deny-IsGranted Ended e h.0, h.1)
    conclude-Keeps (action_failed f) h = tt

  weakened :
      (Ended Ended' : Str → Type 0) (m : ActionFlow V)
      → ((s : Str) → Ended s → Ended' s)
      → ActionHas (GrantedIn Ended) m
      → ActionHas (GrantedIn Ended') m
  weakened Ended Ended' (running e st) f h =
      (record { given = λ a. f e.scope (h.0.given a); ruled = h.0.ruled }, h.1)
  weakened Ended Ended' (finished e st) f h =
      (record { given = λ a. f e.scope (h.0.given a); ruled = h.0.ruled }, h.1)
  weakened Ended Ended' (action_failed x) f h = tt

  module _ (action : Str) where
    -- An ALLOW in the scope rests on a rule of a principal policy or of a resource policy.
    abbrev pub AnyGranted : Str → Type 0
    AnyGranted s = Granted cel rt q action principal s ⊎ Granted cel rt q action resource s

    walk_roles-Keeps :
        (pt : Kind) (roles : List Str) (e : EffectInfo) (st : State V)
        → ((r : Str) → Memᴰ r roles → Memᴰ r (roles_for pt q.principal_roles))
        → GrantedIn (Granted cel rt q action pt) e st
        → ActionHas
            (GrantedIn (Granted cel rt q action pt))
            (walk_roles cel rt q action pt roles e st)
    unfolding walk_roles
    walk_roles-Keeps pt [] e st own h = h
    walk_roles-Keeps pt (r ∷ rs) e st own h =
        after_role-Keeps (Granted cel rt q action pt) (Below cel rt q action pt) e
          (walk_role cel rt q action pt r st) (λ e' st'. walk_roles cel rt q action pt rs e' st')
          h.0 (walk_role-Keeps cel rt q action pt r (own r (Memᴰ.head refl)) st h.1)
          (λ e' st' h'. walk_roles-Keeps pt rs e' st' (λ x m. own x (Memᴰ.tail m)) h')

    walk_kind-Keeps :
        (pt : Kind)
        → ((s : Str) → Granted cel rt q action pt s → AnyGranted s)
        → (e : EffectInfo) (st : State V) → IsSound cel rt q st
        → ActionHas (GrantedIn AnyGranted) (
            walk_roles cel rt q action pt
              (roles_for pt q.principal_roles)
              (record e { effect = no_match })
              st)
    walk_kind-Keeps pt f e st s = weakened (Granted cel rt q action pt) AnyGranted _ f (
        walk_roles-Keeps pt (roles_for pt q.principal_roles) (record e { effect = no_match }) st
          (λ r m. m) (no_match-IsGranted _ _ refl, s))

    pub resolve_action-IsGranted :
        (st : State V)
        → IsSound cel rt q st
        → ActionHas (GrantedIn AnyGranted) (resolve_action cel rt q action st)
    unfolding resolve_action walk_kinds
    resolve_action-IsGranted st s = conclude-Keeps AnyGranted _ (
        after_kind-Keeps AnyGranted _ _ (walk_kind-Keeps principal (λ x g. inl g) no_effect st s)
          (λ e st' h.
            after_kind-Keeps AnyGranted _ _ (walk_kind-Keeps resource (λ x g. inr g) e st' h.1)
              (λ e' st'' h'. h')))
