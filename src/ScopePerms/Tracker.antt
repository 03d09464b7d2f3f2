-- ===== src/ScopePerms/Tracker.antt =====
-- Tracker and its operations (internal/policy/scopeperms/scopeperms.go).
use access_management.Prelude.{
  ◌≡◌, ◌↔◌, Bool, true, false, ◌||◌, not, Option, none, some, List, [], ◌∷◌, ◌++◌, Str, arith,
  lookup, insert, delete, str_eq, str_le, str_comparable, or_empty, find, put, remove, prune,
  is_empty, if◌then◌else◌,
}
use access_management.Check.Types.{
  Kind, resource, principal, ScopePermissions, permissions_unspecified, override_parent,
  require_parental_consent_for_allows,
}

abbrev pub Settings : Type 0
Settings = List (Str × ScopePermissions)

pub record PolicySetting : Type 0 where
  pub policy_key : Str
  pub permissions : ScopePermissions

pub record Conflict : Type 0 where
  pub scope : Str
  pub policy_settings : List PolicySetting

-- scopes: scope -> policy key -> setting; policies: policy key -> scope
pub record Tracker : Type 0 where
  pub scopes : List (Str × Settings)
  pub policies : List (Str × Str)

-- NewTracker
abbrev pub new_tracker : Tracker
new_tracker = record { scopes = []; policies = [] }

abbrev pub permissions_eq : ScopePermissions → ScopePermissions → Bool
permissions_eq permissions_unspecified permissions_unspecified = true
permissions_eq override_parent override_parent = true
permissions_eq require_parental_consent_for_allows require_parental_consent_for_allows = true
permissions_eq _ _ = false

pub permissions_eq_iff : (a b : ScopePermissions) → (permissions_eq a b ≡ true) ↔ (a ≡ b)
permissions_eq_iff a b = ground arith

-- Normalise
unfoldable pub normalise : ScopePermissions → ScopePermissions
normalise permissions_unspecified = override_parent
normalise sp = sp

-- Constrained
unfoldable pub constrained : Kind → Bool
constrained resource = true
constrained principal = true
constrained _ = false

unfoldable pub has_setting : Option ScopePermissions → ScopePermissions → Bool
has_setting none sp = false
has_setting (some have) sp = permissions_eq have sp

unfoldable pub remove_from : Str → Tracker → Option Str → Tracker
remove_from policy_key t none = t
remove_from policy_key t (some scope) = record {
  policies = delete policy_key t.policies;
  scopes = elim (lookup scope t.scopes) [
    | none ↦ t.scopes
    | some settings ↦ prune scope (remove scope policy_key t.scopes)
  ];
}

-- Tracker.Remove
unfoldable pub remove_policy : Str → Tracker → Tracker
unfolding remove_from
remove_policy policy_key t = remove_from policy_key t (lookup policy_key t.policies)

-- The part of Tracker.Add after its guards.
unfoldable pub record_setting : Str → Str → ScopePermissions → Tracker → Tracker
unfolding remove_policy
record_setting policy_key scope sp t =
    let removed = remove_policy policy_key t in
    record {
      scopes = put scope policy_key sp removed.scopes;
      policies = insert policy_key scope removed.policies;
    }

-- Tracker.Add
unfoldable pub add_setting : Kind → Str → Str → ScopePermissions → Tracker → Tracker
unfolding constrained normalise record_setting has_setting
add_setting kind policy_key scope sp t =
    if not (constrained kind)
    then t
    else if has_setting (find scope policy_key t.scopes) (normalise sp)
    then t
    else record_setting policy_key scope (normalise sp) t

-- The settings of the other policies of the scope that differ from the one wanted.
unfoldable pub others : Str → ScopePermissions → Str → Settings → List PolicySetting
others policy_key want ignored [] = []
others policy_key want ignored ((key, have) ∷ m) =
    let rest = others policy_key want ignored m in
    if str_eq key policy_key || (str_eq key ignored || permissions_eq have want)
    then rest
    else record { policy_key = key; permissions = have } ∷ rest

insert_setting : PolicySetting → List PolicySetting → List PolicySetting
insert_setting s [] = s ∷ []
insert_setting s (x ∷ xs) =
    let rest = insert_setting s xs in
    if str_le s.policy_key x.policy_key then s ∷ x ∷ xs else x ∷ rest

-- sortSettings
unfoldable pub sort_settings : List PolicySetting → List PolicySetting
unfolding insert_setting
sort_settings [] = []
sort_settings (x ∷ xs) = insert_setting x (sort_settings xs)

unfoldable pub conflict_of : Str → Str → ScopePermissions → List PolicySetting → Option Conflict
unfolding sort_settings
conflict_of policy_key scope want [] = none
conflict_of policy_key scope want (o ∷ os) = some (record {
  scope = scope;
  policy_settings =
      sort_settings (o ∷ os ++ record { policy_key = policy_key; permissions = want } ∷ []);
})

-- Tracker.Check
unfoldable pub check_setting : Kind → Str → Str → ScopePermissions → Str → Tracker → Option Conflict
unfolding constrained normalise others conflict_of
check_setting kind policy_key scope sp ignored t =
    if not (constrained kind)
    then none
    else conflict_of policy_key scope (normalise sp)
        (others policy_key (normalise sp) ignored (or_empty (lookup scope t.scopes)))

-- Tracker.Tracked
unfoldable pub tracked : Str → Tracker → Bool
tracked scope t = not (is_empty (or_empty (lookup scope t.scopes)))

-- The loop of `disagree`, from the first setting seen.
unfoldable pub disagree_from : ScopePermissions → Settings → Bool
disagree_from first [] = false
disagree_from first ((key, sp) ∷ m) =
    let started = disagree_from sp m in
    let rest = disagree_from first m in
    if permissions_eq first permissions_unspecified
    then started
    else if permissions_eq sp first
    then rest
    else true

-- disagree
unfoldable pub disagree : Settings → Bool
unfolding disagree_from
disagree settings = disagree_from permissions_unspecified settings

unfoldable pub settings_of : Settings → List PolicySetting
settings_of [] = []
settings_of ((key, sp) ∷ m) = record { policy_key = key; permissions = sp } ∷ settings_of m

unfoldable pub insert_conflict : Conflict → List Conflict → List Conflict
insert_conflict c [] = c ∷ []
insert_conflict c (x ∷ xs) =
    let rest = insert_conflict c xs in if str_le c.scope x.scope then c ∷ x ∷ xs else x ∷ rest

unfoldable pub conflicts_of : List (Str × Settings) → List Conflict
unfolding disagree settings_of sort_settings insert_conflict
conflicts_of [] = []
conflicts_of ((scope, settings) ∷ m) =
    let rest = conflicts_of m in
    if not (disagree settings)
    then rest
    else insert_conflict
        (record { scope = scope; policy_settings = sort_settings (settings_of settings) }) rest

-- Tracker.Conflicts
unfoldable pub conflicts : Tracker → List Conflict
unfolding conflicts_of
conflicts t = conflicts_of t.scopes

-- Tracker.Err: ConflictsError, by its conflicts
unfoldable pub conflicts_error : Tracker → Option (List Conflict)
unfolding conflicts
conflicts_error t = if is_empty (conflicts t) then none else some (conflicts t)
