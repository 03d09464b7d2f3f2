-- ===== src/ScopePerms/Agreement.antt =====
-- Check and Err against the rule that the policies of a scope share one setting.
use access_management.Prelude.{
  ◌≡◌, refl, true, false, none, some, List, [], ◌∷◌, inl, inr, Str, arith, lookup, str_eq,
  str_eq_iff, str_eq_refl, str_comparable, or_empty, find, Bool-cases, is_empty,
}
use access_management.Check.Types.{Kind, ScopePermissions, permissions_unspecified}
use access_management.ScopePerms.Tracker.{
  Tracker, Settings, PolicySetting, Conflict, permissions_eq_iff, permissions_eq, normalise,
  constrained, has_setting, remove_policy, add_setting, others, conflict_of, check_setting,
  disagree_from, disagree, insert_conflict, conflicts_of, conflicts, conflicts_error, sort_settings,
  settings_of,
}
use access_management.ScopePerms.Tracking.{
  setting, IsTracker, setting-remove_policy, remove_policy-IsTracker, setting-add_setting,
}

-- All policies of a scope have the same setting.
abbrev pub Agrees : Tracker → Type 0
Agrees t =
    (s k j : Str) (a b : ScopePermissions) → setting s k t ≡ some a → setting s j t ≡ some b → a ≡ b

others-empty :
    (key ignored : Str) (want : ScopePermissions) (m : Settings) (k : Str) (have : ScopePermissions)
    → others key want ignored m ≡ []
    → lookup k m ≡ some have
    → str_eq k key ≡ false
    → str_eq k ignored ≡ false
    → have ≡ want
unfolding others lookup
others-empty key ignored want [] k have h l nk ni = cc
others-empty key ignored want ((j, x) ∷ m) k have h l nk ni =
    ground
      (arith, others-empty key ignored want m k have, str_eq_iff j k, permissions_eq_iff x want)

conflict_of-none :
    (key scope : Str) (want : ScopePermissions) (os : List PolicySetting)
    → conflict_of key scope want os ≡ none
    → os ≡ []
unfolding conflict_of
conflict_of-none key scope want [] h = refl
conflict_of-none key scope want (o ∷ os) h = cc

-- If Check reports no conflict for a resource or principal policy, then every other policy of the
-- scope, but the ignored one, has the normalised setting.
pub check_setting-none :
    (kind : Kind) (key scope ignored : Str) (sp have : ScopePermissions) (t : Tracker) (k : Str)
    → constrained kind ≡ true
    → check_setting kind key scope sp ignored t ≡ none
    → setting scope k t ≡ some have
    → str_eq k key ≡ false
    → str_eq k ignored ≡ false
    → have ≡ normalise sp
unfolding check_setting find
check_setting-none kind key scope ignored sp have t k bound h l =
    others-empty key ignored (normalise sp) (or_empty (lookup scope t.scopes)) k have
      (conflict_of-none key scope (normalise sp) _ (ground (arith, bound, h))) l

remove_policy-Agrees :
    (key : Str) (t : Tracker) → IsTracker t → Agrees t → Agrees (remove_policy key t)
remove_policy-Agrees key t c g s k j a b ha hb =
    ground
      (arith, setting-remove_policy key s k t c, setting-remove_policy key s j t c, g s k j a b)

unconstrained-add_setting :
    (kind : Kind) (key scope : Str) (sp : ScopePermissions) (t : Tracker)
    → constrained kind ≡ false
    → add_setting kind key scope sp t ≡ t
unfolding add_setting
unconstrained-add_setting kind key scope sp t free = rw free refl

-- If the policies of each scope agree and Check reports no conflict, then they still agree after
-- the ignored policy is removed and the new one added.
pub add_setting-Agrees :
    (kind : Kind) (key scope ignored : Str) (sp : ScopePermissions) (t : Tracker)
    → IsTracker t
    → Agrees t
    → check_setting kind key scope sp ignored t ≡ none
    → Agrees (add_setting kind key scope sp (remove_policy ignored t))
add_setting-Agrees kind key scope ignored sp t c g h = elim (Bool-cases (constrained kind)) [
  | inr free ↦
      rw (unconstrained-add_setting kind key scope sp (remove_policy ignored t) free)
        (remove_policy-Agrees ignored t c g)
  | inl bound ↦ λ s k j a b ha hb. ground (
    arith,
    setting-add_setting kind key scope s k sp (remove_policy ignored t) bound
        (remove_policy-IsTracker ignored t c),
    setting-add_setting kind key scope s j sp (remove_policy ignored t) bound
        (remove_policy-IsTracker ignored t c),
    setting-remove_policy ignored s k t c,
    setting-remove_policy ignored s j t c,
    check_setting-none kind key scope ignored sp a t k bound h,
    check_setting-none kind key scope ignored sp b t j bound h,
    str_eq_iff key k,
    str_eq_iff key j,
    str_eq_iff k key,
    str_eq_iff j key,
    str_eq_iff k ignored,
    str_eq_iff ignored k,
    str_eq_iff j ignored,
    str_eq_iff ignored j,
    str_eq_iff scope s,
    g s k j a b,
  )
]

agree_from :
    (first a : ScopePermissions) (m : Settings) (k : Str)
    → permissions_eq first permissions_unspecified ≡ false
    → disagree_from first m ≡ false
    → lookup k m ≡ some a
    → a ≡ first
unfolding disagree_from lookup
agree_from first a [] k n h l = cc
agree_from first a ((j, sp) ∷ m) k n h l =
    ground (arith, agree_from first a m k, permissions_eq_iff sp first)

agree_all :
    (a b : ScopePermissions) (m : Settings) (k j : Str)
    → ((i : Str) → has_setting (lookup i m) permissions_unspecified ≡ false)
    → disagree m ≡ false
    → lookup k m ≡ some a
    → lookup j m ≡ some b
    → a ≡ b
unfolding disagree disagree_from lookup has_setting
agree_all a b [] k j n h la lb = cc
agree_all a b ((i, sp) ∷ m) k j n h la lb =
    ground (arith, n i, str_eq_refl i, agree_from sp a m k, agree_from sp b m j)

insert_conflict-full : (c : Conflict) (cs : List Conflict) → is_empty (insert_conflict c cs) ≡ false
unfolding insert_conflict
insert_conflict-full c [] = refl
insert_conflict-full c (x ∷ xs) = ground arith

conflicts_of-none :
    (m : List (Str × Settings)) (s : Str)
    → is_empty (conflicts_of m) ≡ true
    → disagree (or_empty (lookup s m)) ≡ false
unfolding conflicts_of lookup disagree disagree_from
conflicts_of-none [] s h = refl
conflicts_of-none ((r, settings) ∷ m) s h = elim (Bool-cases (disagree settings)) [
  | inl d ↦ absurd (
      ground (
        arith,
        d,
        insert_conflict-full
            (record { scope = r; policy_settings = sort_settings (settings_of settings) })
            (conflicts_of m),
      ))
  | inr d ↦ ground (arith, conflicts_of-none m s)
]

conflicts_error-empty :
    (t : Tracker) → conflicts_error t ≡ none → is_empty (conflicts_of t.scopes) ≡ true
unfolding conflicts_error conflicts
conflicts_error-empty t h = ground arith

-- If Err reports nothing, then all policies of each scope have the same setting.
pub conflicts_error-none : (t : Tracker) → IsTracker t → conflicts_error t ≡ none → Agrees t
unfolding find
conflicts_error-none t c h s k j a b =
    agree_all a b (or_empty (lookup s t.scopes)) k j (λ i. c.is_normal i s)
      (conflicts_of-none t.scopes s (conflicts_error-empty t h))
