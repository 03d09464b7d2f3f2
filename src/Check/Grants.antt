-- ===== src/Check/Grants.antt =====
-- An action is allowed only by an ALLOW rule that was found and satisfied, in a walk that ended in
-- a scope whose permissions override those of its parents.
use mathlib.Core.List.{Memᴰ}
use access_management.Prelude.{
  ◌≡◌, refl, Bool, true, false, inl, inr, Option, none, some, List, [], ◌∷◌, Str, All, arith,
  Bool-cases, ◌||◌, ◌⊎◌,
}
use access_management.Check.Types.{
  Effect, unspecified, no_match, allow, deny, Kind, Binding, Vars, ScopePermissions,
  override_parent, permissions_unspecified, require_parental_consent_for_allows, Expr,
}
use access_management.Check.Condition.{CelEngine}
use access_management.Check.State.{EffectInfo, RuleTable, State, Frame, Flow, Meta}
use access_management.Check.Rules.{
  Decision, decided, skipped, denied, broken, Loaded, loaded, load_failed, load_variables, decide,
  audit, emit, emit_as, apply_effect, apply_decision, process_binding, with_loaded, when_activated,
  when_not_met, is_allow, is_deny,
}
use access_management.Check.Walk.{Query, bindings_of, settle_scope, by_permissions}
use access_management.Check.Roles.{scopes_of, roles_for}
use access_management.Check.Caches.{Held, IsSound, LoadsFrom, load_variables-LoadsFrom}
use access_management.Check.Caches.Deciding.{DecidesSoundly, decide-DecidesSoundly}
use access_management.Check.Invariants.{FlowHas, FlowHas-bind}

pub All-of_Mem {ℓ κ} :
    {A : Type ℓ} (P : A → Type κ) (xs : List A) → ((x : A) → Memᴰ x xs → P x) → All P xs
All-of_Mem P [] h = tt
All-of_Mem P (x ∷ xs) h = (h x (Memᴰ.head refl), All-of_Mem P xs (λ y m. h y (Memᴰ.tail m)))

-- An effect that the loops over rules give.
abbrev pub IsRuled : Effect → Type 0
IsRuled unspecified = ⊥
IsRuled _ = Unit

module _ {V : Type 0} (cel : CelEngine V) (rt : RuleTable V) (q : Query) (action : Str) where
  -- An ALLOW rule for one of the principal's roles, in one of the scopes searched. Its conditions
  -- were evaluated to true, or those of a rule with the same evaluation key.
  pub record Grant (pt : Kind) : Type 0 where
    pub role : Str
    pub role_of_principal : Memᴰ role (roles_for pt q.principal_roles)
    pub scope : Str
    pub scope_searched : Memᴰ scope (scopes_of q pt)
    pub rule : Binding V
    pub rule_found : Memᴰ rule (bindings_of cel rt q role action pt scope)
    pub rule_allows : rule.effect ≡ allow
    pub rule_held : Held cel rt q rule.eval_key

  -- Such a rule in the given scope, or in one that leaves the permissions of scopes unspecified.
  pub record Placed (pt : Kind) (s : Str) : Type 0 where
    pub grant : Grant pt
    pub place : (grant.scope ≡ s) ⊎ (rt.scope_permissions_of grant.scope ≡ permissions_unspecified)

  -- Such a rule in a scope that leaves the permissions unspecified.
  pub record Below (pt : Kind) : Type 0 where
    pub grant : Grant pt
    pub unspecified_there : rt.scope_permissions_of grant.scope ≡ permissions_unspecified

  -- An ALLOW in the scope `s`: it was searched, overrides its parents, and has such a rule.
  pub record Granted (pt : Kind) (s : Str) : Type 0 where
    pub scope_searched : Memᴰ s (scopes_of q pt)
    pub overrides : rt.scope_permissions_of s ≡ override_parent
    pub placed : Placed pt s

-- What holds of an effect that a role was given: an ALLOW has its rule and its scope.
pub record IsGranted (Ended : Str → Type 0) (e : EffectInfo) : Type 0 where
  pub given : e.effect ≡ allow → Ended e.scope
  pub ruled : IsRuled e.effect

abbrev pub IsDenied : EffectInfo → Type 0
IsDenied e = e.effect ≡ deny

module _ {V : Type 0} (cel : CelEngine V) (rt : RuleTable V) (q : Query) where
  -- What holds while a role walks on: no effect yet, an ALLOW that was seen has its rule, and the
  -- caches are sound.
  pub record IsOpen (Seen : Type 0) (fr : Frame V) : Type 0 where
    pub seen : fr.has_allow ≡ true → Seen
    pub no_effect_yet : fr.role_effect.effect ≡ no_match
    pub sound : IsSound cel rt q fr.state

  pub IsOpen-IsGranted :
      (Seen : Type 0) (Ended : Str → Type 0) (fr : Frame V)
      → IsOpen Seen fr
      → IsGranted Ended fr.role_effect
  IsOpen-IsGranted Seen Ended fr h = record {
    given = λ e. absurd (ground (arith, e, h.no_effect_yet));
    ruled = rw h.no_effect_yet tt;
  }

  pub with_state :
      (Seen : Type 0) (fr : Frame V) (st : State V)
      → IsOpen Seen fr
      → IsSound cel rt q st
      → IsOpen Seen (record fr { state = st })
  with_state Seen fr st h s = record { seen = h.seen; no_effect_yet = h.no_effect_yet; sound = s }

  -- A frame that leaves the loop over scopes, and an effect that leaves the one over policies.
  abbrev pub Left : (Str → Type 0) → Frame V → Type 0
  Left Ended fr = IsGranted Ended fr.role_effect × IsSound cel rt q fr.state

  abbrev pub Stopped : EffectInfo → State V → Type 0
  Stopped e st = IsDenied e × IsSound cel rt q st

  abbrev pub Keeps : Type 0 → (Str → Type 0) → Flow V → Type 0
  Keeps Seen Ended = FlowHas (IsOpen Seen) (Left Ended) Stopped

  audit-IsSound :
      (m : Option Meta) (st : State V) → IsSound cel rt q st → IsSound cel rt q (audit m st)
  unfolding audit
  audit-IsSound none st s = s
  audit-IsSound (some m) st s = s

  seen_of :
      (Seen : Type 0) (e : Effect) (a : Bool)
      → (e ≡ allow → Seen)
      → (a ≡ true → Seen)
      → (is_allow e || a) ≡ true
      → Seen
  seen_of Seen allow a s h p = s refl
  seen_of Seen unspecified a s h p = h p
  seen_of Seen no_match a s h p = h p
  seen_of Seen deny a s h p = h p

  denied-IsGranted :
      (Ended : Str → Type 0) (policy scope : Str)
      → IsGranted Ended (record { policy = policy; scope = scope; effect = deny })
  denied-IsGranted Ended policy scope = record {
    given = λ e. absurd (ground (arith, e));
    ruled = tt;
  }

  module _ (Seen : Type 0) (Ended : Str → Type 0) (scope action : Str) where
    emit-Keeps :
        (b : Binding V) (constants variables : Vars V) (o : Option Expr) (fr : Frame V)
        → IsOpen Seen fr
        → Keeps Seen Ended (emit cel rt b action constants variables o fr)
    emit-Keeps b constants variables none fr h = h
    emit-Keeps b constants variables (some e) fr h = with_meta (rt.get_meta b.origin_fqn)
      where
        with_meta :
            (m : Option Meta)
            → Keeps Seen Ended (emit_as cel rt b action constants variables e fr m)
        with_meta none = tt
        with_meta (some m) = with_state Seen fr _ h h.sound

    apply_effect-Keeps :
        (b : Binding V) (fr : Frame V)
        → IsOpen Seen fr
        → (b.effect ≡ allow → Seen)
        → Keeps Seen Ended (apply_effect b scope fr)
    unfolding apply_effect
    apply_effect-Keeps b fr h s = elim (Bool-cases (is_deny b.effect)) [
      | inl d ↦ rw d (denied-IsGranted Ended _ scope, h.sound)
      | inr d ↦ rw d (elim (Bool-cases b.no_match_for_scope_permissions) [
        | inl n ↦ rw n (record {
          seen = seen_of Seen b.effect fr.has_allow s h.seen;
          no_effect_yet = h.no_effect_yet;
          sound = h.sound;
        })
        | inr n ↦ rw n (record {
          seen = seen_of Seen b.effect fr.has_allow s h.seen;
          no_effect_yet = h.no_effect_yet;
          sound = h.sound;
        })
      ])
    ]

    apply_decision-Keeps :
        (b : Binding V) (constants variables : Vars V) (fr : Frame V) (d : Decision × State V)
        → IsOpen Seen fr
        → DecidesSoundly cel rt q b.eval_key d
        → (Held cel rt q b.eval_key → b.effect ≡ allow → Seen)
        → Keeps Seen Ended (apply_decision cel rt scope action b constants variables fr d)
    unfolding apply_decision
    apply_decision-Keeps b constants variables fr (decided true, st) h d s =
        FlowHas-bind _ _ _ _
          (emit cel rt b action constants variables (when_activated b.emit_output)
            (record fr { state = st }))
          (apply_effect b scope)
          (emit-Keeps b constants variables (when_activated b.emit_output)
            (record fr { state = st }) (with_state Seen fr st h d.0))
          (λ fr' h'. apply_effect-Keeps b fr' h' (s (d.1 refl)))
    apply_decision-Keeps b constants variables fr (decided false, st) h d s =
        emit-Keeps b constants variables (when_not_met b.emit_output) (record fr { state = st })
          (with_state Seen fr st h d.0)
    apply_decision-Keeps b constants variables fr (skipped, st) h d s = with_state Seen fr st h d.0
    apply_decision-Keeps b constants variables fr (denied, st) h d s = (refl, d.0)
    apply_decision-Keeps b constants variables fr (broken f, st) h d s = tt

    pub process_binding-Keeps :
        (b : Binding V) (role : Str) (pt : Kind)
        → Memᴰ b (bindings_of cel rt q role action pt scope)
        → (Held cel rt q b.eval_key → b.effect ≡ allow → Seen)
        → (fr : Frame V) → IsOpen Seen fr
        → Keeps Seen Ended (process_binding cel rt scope action b fr)
    unfolding process_binding
    process_binding-Keeps b role pt found s fr h =
        with_variables (load_variables cel b.params (audit (rt.get_meta b.origin_fqn) fr.state)) (
          load_variables-LoadsFrom cel rt q b.params (audit (rt.get_meta b.origin_fqn) fr.state)
            (audit-IsSound (rt.get_meta b.origin_fqn) fr.state h.sound))
      where
        with_variables :
            (l : Loaded V)
            → LoadsFrom cel rt q b.params l
            → Keeps Seen Ended (with_loaded cel rt scope action b fr l)
        with_variables (load_failed f) l = tt
        with_variables (loaded constants variables st) l =
            apply_decision-Keeps b constants variables fr (decide cel b constants variables st) h
              (decide-DecidesSoundly cel rt q b role action pt scope found constants variables st
                l.1 l.0)
              s

  -- The end of a scope's round: `Seen` is what an ALLOW rests on in the scope, `Seen'` what it rests on
  -- in the scopes above it.
  pub settle_scope-Keeps :
      (Seen Seen' : Type 0) (Ended : Str → Type 0) (scope : Str)
      → (Seen → rt.scope_permissions_of scope ≡ override_parent → Ended scope)
      → (Seen → rt.scope_permissions_of scope ≡ permissions_unspecified → Seen')
      → (fr : Frame V) → IsOpen Seen fr
      → Keeps Seen' Ended (settle_scope cel rt q scope fr)
  unfolding settle_scope
  settle_scope-Keeps Seen Seen' Ended scope ended above fr h = elim (Bool-cases fr.has_allow) [
    | inl a ↦ simp a (by_case (rt.scope_permissions_of scope) refl a)
    | inr a ↦ simp a (record {
      seen = λ x. absurd (ground (arith, x, a));
      no_effect_yet = h.no_effect_yet;
      sound = h.sound;
    })
  ]
    where
      by_case :
          (p : ScopePermissions)
          → rt.scope_permissions_of scope ≡ p
          → fr.has_allow ≡ true
          → Keeps Seen' Ended (by_permissions cel rt q p scope fr)
      by_case override_parent e a =
          (record { given = λ _. ended (h.seen a) e; ruled = tt }, h.sound)
      by_case require_parental_consent_for_allows e a = record {
        seen = λ x. absurd (ground (arith, x));
        no_effect_yet = h.no_effect_yet;
        sound = h.sound;
      }
      by_case permissions_unspecified e a = record {
        seen = λ _. above (h.seen a) e;
        no_effect_yet = h.no_effect_yet;
        sound = h.sound;
      }
