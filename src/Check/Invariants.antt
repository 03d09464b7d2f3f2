-- ===== src/Check/Invariants.antt =====
-- A rule for the loops of a check: what each step keeps, the whole walk keeps.
use access_management.Prelude.{List, [], ◌∷◌, Str, All}
use access_management.Check.Types.{Kind, Binding}
use access_management.Check.Condition.{CelEngine}
use access_management.Check.State.{
  EffectInfo, RuleTable, State, Frame, Flow, next, break_scopes, break_policies, failed, ◌>>=◌,
}
use access_management.Check.Rules.{process_binding, process_bindings}
use access_management.Check.Walk.{Query, walk_scopes, process_scope}

module _ {V : Type 0} (P R : Frame V → Type 0) (Q : EffectInfo → State V → Type 0) where
  -- A frame that goes on satisfies `P`, one that leaves the scopes loop `R`, and an effect that
  -- leaves the policies loop `Q`.
  abbrev pub FlowHas : Flow V → Type 0
  FlowHas (next fr) = P fr
  FlowHas (break_scopes fr) = R fr
  FlowHas (break_policies e st) = Q e st
  FlowHas (failed f) = Unit

module _ {V : Type 0} (P P' R : Frame V → Type 0) (Q : EffectInfo → State V → Type 0) where
  pub FlowHas-bind :
      (m : Flow V) (k : Frame V → Flow V)
      → FlowHas P R Q m
      → ((fr : Frame V) → P fr → FlowHas P' R Q (k fr))
      → FlowHas P' R Q (m >>= k)
  FlowHas-bind (next fr) k h hk = hk fr h
  FlowHas-bind (break_scopes fr) k h hk = h
  FlowHas-bind (break_policies e st) k h hk = h
  FlowHas-bind (failed f) k h hk = tt

module _ {V : Type 0} (P R : Frame V → Type 0) (Q : EffectInfo → State V → Type 0) where
  pub FlowHas-process_bindings :
      (cel : CelEngine V) (rt : RuleTable V) (scope action : Str) (bs : List (Binding V))
      → All
          (λ b. (fr : Frame V) → P fr → FlowHas P R Q (process_binding cel rt scope action b fr))
          bs
      → (fr : Frame V) → P fr
      → FlowHas P R Q (process_bindings cel rt scope action bs fr)
  unfolding process_bindings
  FlowHas-process_bindings cel rt scope action [] step fr h = h
  FlowHas-process_bindings cel rt scope action (b ∷ bs) step fr h =
      FlowHas-bind P P R Q (process_binding cel rt scope action b fr)
        (λ fr'. process_bindings cel rt scope action bs fr') (step.0 fr h)
        (λ fr' h'. FlowHas-process_bindings cel rt scope action bs step.1 fr' h')

  pub FlowHas-walk_scopes :
      (cel : CelEngine V) (rt : RuleTable V) (q : Query) (role action : Str) (pt : Kind)
      (ss : List Str)
      → All
          (λ s. (fr : Frame V) → P fr → FlowHas P R Q (process_scope cel rt q role action pt s fr))
          ss
      → (fr : Frame V) → P fr
      → FlowHas P R Q (walk_scopes cel rt q role action pt ss fr)
  unfolding walk_scopes
  FlowHas-walk_scopes cel rt q role action pt [] step fr h = h
  FlowHas-walk_scopes cel rt q role action pt (s ∷ ss) step fr h =
      FlowHas-bind P P R Q (process_scope cel rt q role action pt s fr)
        (λ fr'. walk_scopes cel rt q role action pt ss fr') (step.0 fr h)
        (λ fr' h'. FlowHas-walk_scopes cel rt q role action pt ss step.1 fr' h')
