-- ===== src/RuleIndex/Indexes.antt =====
-- What holds of an index: each dimension files a row exactly under the row's own field.
use access_management.Prelude.{
  word32, ◌≤◌, ℕ, ◌≡◌, ◌<◌, Bool, true, false, Option, none, some, List, [], ◌∷◌, ◌==◌, is_some,
  if◌then◌else◌, Str, length, any, is_empty, str_comparable, str_eq,
}
use access_management.Check.Types.{Kind}
use access_management.RuleIndex.SetOps.{SetOps}
use access_management.RuleIndex.Dimension.{filed}
use access_management.RuleIndex.Lazy.{lazy_filed, IsLazy}
use access_management.RuleIndex.Globs.{GlobLibrary}
use access_management.RuleIndex.GlobFiling.{glob_filed, key_is, IsGlobDimension}
use access_management.RuleIndex.Rows.{Handle, BitmapIndex, get_binding, kind_eq, kind_comparable}

-- The keys of a row in the dimensions. An empty field files no row, save the scope.
abbrev pub given : Str → Option Str
given s = if is_empty s then none else some s

abbrev pub scope_key : Option Handle → Option Str
scope_key none = none
scope_key (some b) = some b.scope_of

abbrev pub version_key : Option Handle → Option Str
version_key none = none
version_key (some b) = given b.version_of

abbrev pub role_key : Option Handle → Option Str
role_key none = none
role_key (some b) = given b.role_of

abbrev pub resource_key : Option Handle → Option Str
resource_key none = none
resource_key (some b) = given b.resource_of

abbrev pub principal_key : Option Handle → Option Str
principal_key none = none
principal_key (some b) = given b.principal_of

-- A row that allows a set of actions is filed under no action.
abbrev pub action_key : Option Handle → Option Str
action_key none = none
action_key (some b) = if is_some b.allow_actions then none else given b.action_of

abbrev pub allows_set : Option Handle → Bool
allows_set none = false
allows_set (some b) = is_some b.allow_actions

abbrev pub has_kind : Option Handle → Kind → Bool
has_kind none k = false
has_kind (some b) k = kind_eq b.policy_kind k

abbrev pub equals : Option Str → Str → Bool
equals none k = false
equals (some f) k = str_eq f k

unfoldable pub Distinct : List ℕ → Type 0
Distinct [] = Unit
Distinct (x ∷ xs) = (any (λ y. x == y) xs ≡ false) × Distinct xs

module _ (B : SetOps) (L : GlobLibrary) where
  -- The numbers of the rows are of type uint32.
  pub record IsIndex (idx : BitmapIndex B L) : Type 0 where
    pub numbered : (x : ℕ) (b : Handle) → get_binding B L x idx ≡ some b → b.id ≡ x
    pub free_slots :
        (x : ℕ)
        → any (λ y. x == y) idx.free_ids ≡ true
        → (x < length idx.bindings) × (get_binding B L x idx ≡ none)
    pub free_distinct : Distinct idx.free_ids
    pub few : length idx.bindings ≤ word32
    pub all_keys : length idx.eval_keys ≡ length idx.bindings
    pub universe : (x : ℕ) → B.contains x idx.universe ≡ is_some (get_binding B L x idx)
    pub allow_sets :
        (x : ℕ) → B.contains x idx.allow_actions_bitmap ≡ allows_set (get_binding B L x idx)
    pub scopes :
        (k : Str) (x : ℕ) → filed B k x idx.scope ≡ equals (scope_key (get_binding B L x idx)) k
    pub versions :
        (k : Str) (x : ℕ) → filed B k x idx.version ≡ equals (version_key (get_binding B L x idx)) k
    pub kinds :
        (k : Kind) (x : ℕ) → filed B k x idx.policy_kind ≡ has_kind (get_binding B L x idx) k
    pub principals_lazy : IsLazy B idx.principal
    pub principals :
        (k : Str) (x : ℕ)
        → lazy_filed B k x idx.principal ≡ equals (principal_key (get_binding B L x idx)) k
    pub roles_glob : IsGlobDimension B L idx.role
    pub roles :
        (k : Str) (x : ℕ)
        → glob_filed B L k x idx.role ≡ key_is L (role_key (get_binding B L x idx)) k
    pub resources_glob : IsGlobDimension B L idx.resource
    pub resources :
        (k : Str) (x : ℕ)
        → glob_filed B L k x idx.resource ≡ key_is L (resource_key (get_binding B L x idx)) k
    pub actions_glob : IsGlobDimension B L idx.action
    pub actions :
        (k : Str) (x : ℕ)
        → glob_filed B L k x idx.action ≡ key_is L (action_key (get_binding B L x idx)) k
