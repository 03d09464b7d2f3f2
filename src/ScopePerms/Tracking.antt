-- ===== src/ScopePerms/Tracking.antt =====
-- What Add and Remove record, and the consistency of the two maps.
use access_management.Prelude.{
  ◌≡◌, refl, true, false, ◌&&◌, Option, none, some, inl, inr, Str, arith, lookup, lookup-insert,
  lookup-delete, str_eq, str_eq_iff, str_comparable, is_some, find, remove, prune, find-put,
  find-remove, find-prune, Bool-cases, if◌then◌else◌,
}
use access_management.Check.Types.{Kind, ScopePermissions, permissions_unspecified}
use access_management.ScopePerms.Tracker.{
  Tracker, Settings, new_tracker, permissions_eq_iff, permissions_eq, normalise, constrained,
  has_setting, remove_from, remove_policy, record_setting, add_setting,
}

-- The setting that the tracker holds for a policy in a scope.
abbrev pub setting : Str → Str → Tracker → Option ScopePermissions
setting scope key t = find scope key t.scopes

-- A policy is in one scope at most, the one under which its setting stands, and every setting is
-- normalised.
pub record IsTracker (t : Tracker) : Type 0 where
  pub in_scope :
      (key scope : Str) → lookup key t.policies ≡ some scope → is_some (setting scope key t) ≡ true
  pub scope_of :
      (key scope : Str) → is_some (setting scope key t) ≡ true → lookup key t.policies ≡ some scope
  pub is_normal :
      (key scope : Str) → has_setting (setting scope key t) permissions_unspecified ≡ false

pub new_tracker-IsTracker : IsTracker new_tracker
unfolding find lookup has_setting
new_tracker-IsTracker = record {
  in_scope = λ k s h. cc;
  scope_of = λ k s h. cc;
  is_normal = λ k s. refl;
}

setting-prune :
    (s k scope key : Str) (m : Option Settings) (t : Tracker)
    → lookup scope t.scopes ≡ m
    → find s k
        (elim m [ none ↦ t.scopes | some settings ↦ prune scope (remove scope key t.scopes) ])
      ≡ (if str_eq scope s && str_eq key k then none else find s k t.scopes)
unfolding find lookup
setting-prune s k scope key none t e = ground (arith, str_eq_iff scope s)
setting-prune s k scope key (some m) t e =
    ground
      (arith, find-prune scope s k (remove scope key t.scopes), find-remove scope key s k t.scopes)

setting-remove_from :
    (key s k : Str) (t : Tracker) (o : Option Str)
    → lookup key t.policies ≡ o
    → IsTracker t
    → setting s k (remove_from key t o) ≡ (if str_eq key k then none else setting s k t)
unfolding remove_from
setting-remove_from key s k t none e c = ground (arith, str_eq_iff key k, c.scope_of k s)
setting-remove_from key s k t (some scope) e c = ground (
  arith,
  setting-prune s k scope key (lookup scope t.scopes) t refl,
  str_eq_iff key k,
  str_eq_iff scope s,
  c.scope_of k s,
)

-- Remove forgets the setting of the policy, in whatever scope it stands, and no other.
pub setting-remove_policy :
    (key s k : Str) (t : Tracker)
    → IsTracker t
    → setting s k (remove_policy key t) ≡ (if str_eq key k then none else setting s k t)
unfolding remove_policy
setting-remove_policy key s k t c = setting-remove_from key s k t (lookup key t.policies) refl c

policies-remove_from :
    (key k : Str) (t : Tracker) (o : Option Str)
    → lookup key t.policies ≡ o
    → lookup k (remove_from key t o).policies ≡ (if str_eq key k then none else lookup k t.policies)
unfolding remove_from
policies-remove_from key k t none e = ground (arith, str_eq_iff key k)
policies-remove_from key k t (some scope) e = lookup-delete key k t.policies

policies-remove_policy :
    (key k : Str) (t : Tracker)
    → lookup k (remove_policy key t).policies ≡ (if str_eq key k then none else lookup k t.policies)
unfolding remove_policy
policies-remove_policy key k t = policies-remove_from key k t (lookup key t.policies) refl

-- Remove keeps the tracker consistent.
pub remove_policy-IsTracker :
    (key : Str) (t : Tracker) → IsTracker t → IsTracker (remove_policy key t)
unfolding has_setting
remove_policy-IsTracker key t c = record {
  in_scope = λ k s h.
      ground
        (arith, policies-remove_policy key k t, setting-remove_policy key s k t c, c.in_scope k s);
  scope_of = λ k s h.
      ground
        (arith, policies-remove_policy key k t, setting-remove_policy key s k t c, c.scope_of k s);
  is_normal = λ k s. ground (arith, setting-remove_policy key s k t c, c.is_normal k s);
}

setting-record_setting :
    (key scope s k : Str) (sp : ScopePermissions) (t : Tracker)
    → IsTracker t
    → setting s k (record_setting key scope sp t)
      ≡ (if str_eq key k then (if str_eq scope s then some sp else none) else setting s k t)
unfolding record_setting
setting-record_setting key scope s k sp t c = ground (
  arith,
  find-put scope key sp s k (remove_policy key t).scopes,
  setting-remove_policy key s k t c,
)

record_setting-IsTracker :
    (key scope : Str) (sp : ScopePermissions) (t : Tracker)
    → permissions_eq sp permissions_unspecified ≡ false
    → IsTracker t
    → IsTracker (record_setting key scope sp t)
unfolding record_setting has_setting
record_setting-IsTracker key scope sp t n c = record {
  in_scope = λ k s h. ground (
    arith,
    lookup-insert key k scope (remove_policy key t).policies,
    policies-remove_policy key k t,
    setting-record_setting key scope s k sp t c,
    c.in_scope k s,
    str_eq_iff scope s,
  );
  scope_of = λ k s h. ground (
    arith,
    lookup-insert key k scope (remove_policy key t).policies,
    policies-remove_policy key k t,
    setting-record_setting key scope s k sp t c,
    c.scope_of k s,
    str_eq_iff scope s,
  );
  is_normal = λ k s. ground (arith, setting-record_setting key scope s k sp t c, c.is_normal k s);
}

normalised : (sp : ScopePermissions) → permissions_eq (normalise sp) permissions_unspecified ≡ false
unfolding normalise
normalised sp = ground arith

-- Add keeps the tracker consistent.
pub add_setting-IsTracker :
    (kind : Kind) (key scope : Str) (sp : ScopePermissions) (t : Tracker)
    → IsTracker t
    → IsTracker (add_setting kind key scope sp t)
unfolding add_setting
add_setting-IsTracker kind key scope sp t c = elim (Bool-cases (constrained kind)) [
  | inr free ↦ rw free c
  | inl bound ↦ elim (Bool-cases (has_setting (find scope key t.scopes) (normalise sp))) [
    | inl there ↦ rw (bound, there) c
    | inr absent ↦
        rw (bound, absent) (record_setting-IsTracker key scope (normalise sp) t (normalised sp) c)
  ]
]

is_there :
    (o : Option ScopePermissions) (sp : ScopePermissions) → has_setting o sp ≡ true → o ≡ some sp
unfolding has_setting
is_there none sp h = cc
is_there (some have) sp h = ground (arith, permissions_eq_iff have sp)

-- In a consistent tracker, after Add of a resource or principal policy, the policy has the normalised
-- setting in its scope and none in another, whatever it had before, and the settings of the other
-- policies stay.
pub setting-add_setting :
    (kind : Kind) (key scope s k : Str) (sp : ScopePermissions) (t : Tracker)
    → constrained kind ≡ true
    → IsTracker t
    → setting s k (add_setting kind key scope sp t) ≡ (
        if str_eq key k
        then (if str_eq scope s then some (normalise sp) else none)
        else setting s k t)
unfolding add_setting
setting-add_setting kind key scope s k sp t bound c =
    elim (Bool-cases (has_setting (find scope key t.scopes) (normalise sp))) [
      | inl there ↦
          rw (bound, there)
            (ground (
              arith,
              is_there (find scope key t.scopes) (normalise sp) there,
              c.scope_of key scope,
              c.scope_of key s,
              str_eq_iff key k,
              str_eq_iff scope s,
            ))
      | inr absent ↦ rw (bound, absent) (setting-record_setting key scope s k (normalise sp) t c)
    ]
