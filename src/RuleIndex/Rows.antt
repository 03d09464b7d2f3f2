-- ===== src/RuleIndex/Rows.antt =====
-- internal/ruletable/index/bitmap_index.go, bitmapIndex: the rows and the dimensions they are filed in.
-- Of a row's FunctionalCore only the policy kind matters here; its sharing by checksum is left out.
use access_management.Prelude.{
  uint32, ℕ, ◌≡◌, ◌↔◌, refl, Bool, true, ◌||◌, Option, none, some, List, [], ◌∷◌, ◌++◌, ◌==◌, ltb,
  is_some, if◌then◌else◌, Str, length, lookup, insert, is_empty, Comparable, str_comparable, sym,
  ap, ==_iff, ◌∙◌, set_at, get_elem?,
}
use access_management.Check.Types.{
  Kind, kind_unspecified, derived_roles, export_variables, principal, resource, role_policy,
  export_constants, EvaluationKeyTuple,
}
use access_management.RuleIndex.SetOps.{SetOps}
use access_management.RuleIndex.Dimension.{dimension_add, dimension_remove}
use access_management.RuleIndex.Lazy.{LazyDimension, lazy_add, lazy_remove}
use access_management.RuleIndex.Globs.{
  GlobLibrary, GlobDimension, new_glob_dimension, glob_set, glob_remove,
}

-- policyv1.Kind as a map's key, by its number in the protobuf enum
abbrev kind_number : Kind → ℕ
kind_number kind_unspecified = 0
kind_number derived_roles = 1
kind_number export_variables = 2
kind_number principal = 3
kind_number resource = 4
kind_number role_policy = 5
kind_number export_constants = 6

abbrev pub kind_eq : Kind → Kind → Bool
kind_eq a b = kind_number a == kind_number b

abbrev kind_of_number : ℕ → Kind
kind_of_number n =
    if n == 1
    then derived_roles
    else if n == 2
    then export_variables
    else if n == 3
    then principal
    else if n == 4
    then resource
    else if n == 5
    then role_policy
    else if n == 6
    then export_constants
    else kind_unspecified

kind_of_number-kind_number : (k : Kind) → kind_of_number (kind_number k) ≡ k
kind_of_number-kind_number kind_unspecified = refl
kind_of_number-kind_number derived_roles = refl
kind_of_number-kind_number export_variables = refl
kind_of_number-kind_number principal = refl
kind_of_number-kind_number resource = refl
kind_of_number-kind_number role_policy = refl
kind_of_number-kind_number export_constants = refl

pub kind_eq_iff : (a b : Kind) → (kind_eq a b ≡ true) ↔ (a ≡ b)
kind_eq_iff a b = (
  λ h.
      sym (kind_of_number-kind_number a)
      ∙ ap kind_of_number ((==_iff (kind_number a) (kind_number b)).0 h)
      ∙ kind_of_number-kind_number b,
  λ e. (==_iff (kind_number a) (kind_number b)).1 (ap kind_number e),
)

instance abbrev pub kind_comparable : Comparable Kind
kind_comparable = record { beq = kind_eq; beq_iff = kind_eq_iff }

-- BindingHandle: the fields that the index reads, `policy_kind` being that of its core.
pub record Handle : Type 0 where
  pub resource_of : Str
  pub action_of : Str
  pub role_of : Str
  pub scope_of : Str
  pub version_of : Str
  pub principal_of : Str
  pub origin_fqn : Str
  pub allow_actions : Option (List Str)
  pub policy_kind : Kind
  pub id : ℕ

abbrev pub blank_key : EvaluationKeyTuple
blank_key = record {
  prefix_ = [];
  resource_ = [];
  principal_ = [];
  role = [];
  derived_role = [];
  version = [];
  scope = [];
  rule_name = [];
  rule_id = 0;
}

-- noEvalKey, the largest uint32
unfoldable pub no_eval_key : ℕ
no_eval_key = 4294967295

abbrev pub alloc_from : List ℕ → ℕ → ℕ × List ℕ
alloc_from [] n = (n, [])
alloc_from (id ∷ free_ids) n = (id, free_ids)

abbrev key_or_blank : Option EvaluationKeyTuple → EvaluationKeyTuple
key_or_blank none = blank_key
key_or_blank (some k) = k

abbrev pub flatten_handle : Option (Option Handle) → Option Handle
flatten_handle none = none
flatten_handle (some o) = o

abbrev pub ids_or_new : Option (List ℕ) → List ℕ
ids_or_new none = []
ids_or_new (some ids) = ids

-- fqnDimension.Add
abbrev pub fqn_add : Str → ℕ → List (Str × List ℕ) → List (Str × List ℕ)
fqn_add fqn id d = insert fqn (ids_or_new (lookup fqn d) ++ (id ∷ [])) d

-- The write to bindings and evalKeys: in place, or at the end.
abbrev pub place {ℓ} : {A : Type ℓ} → ℕ → A → List A → List A
place id a xs = if ltb id (length xs) then set_at id a xs else xs ++ (a ∷ [])

module _ (B : SetOps) (L : GlobLibrary) where
  pub record BitmapIndex : Type 0 where
    pub action : GlobDimension B L
    pub version : List (Str × B.Set)
    pub scope : List (Str × B.Set)
    pub role : GlobDimension B L
    pub policy_kind : List (Kind × B.Set)
    pub resource : GlobDimension B L
    pub fqn_bindings : List (Str × List ℕ)
    pub principal : LazyDimension B
    pub universe : B.Set
    pub allow_actions_bitmap : B.Set
    pub free_ids : List ℕ
    pub bindings : List (Option Handle)
    pub eval_keys : List EvaluationKeyTuple

  -- newBitmapIndex
  abbrev pub new_bitmap_index : BitmapIndex
  new_bitmap_index = record {
    action = new_glob_dimension B L;
    version = [];
    scope = [];
    role = new_glob_dimension B L;
    policy_kind = [];
    resource = new_glob_dimension B L;
    fqn_bindings = [];
    principal = [];
    universe = B.empty;
    allow_actions_bitmap = B.empty;
    free_ids = [];
    bindings = [];
    eval_keys = [];
  }

  -- allocID: the number, of type uint32, and the free numbers left; the last freed stands first.
  abbrev pub alloc_id : BitmapIndex → ℕ × List ℕ
  alloc_id idx = alloc_from idx.free_ids (uint32 (length idx.bindings))

  -- freeID
  unfoldable pub free_id : ℕ → BitmapIndex → BitmapIndex
  free_id id idx = record idx {
    bindings = set_at id none idx.bindings;
    eval_keys = set_at id blank_key idx.eval_keys;
    free_ids = id ∷ idx.free_ids;
  }

  -- evalKey
  unfoldable pub eval_key : ℕ → BitmapIndex → EvaluationKeyTuple
  eval_key id idx =
      if id == no_eval_key then blank_key else key_or_blank (get_elem? idx.eval_keys id)

  -- getBinding; `none` is nil, and what Go panics on, a number out of range
  unfoldable pub get_binding : ℕ → BitmapIndex → Option Handle
  get_binding id idx = flatten_handle (get_elem? idx.bindings id)

  abbrev action_set : Handle → ℕ → GlobDimension B L → GlobDimension B L
  action_set b id d =
      if is_some b.allow_actions || is_empty b.action_of then d else glob_set B L b.action_of id d

  -- addBinding
  unfoldable pub add_binding : Handle → EvaluationKeyTuple → BitmapIndex → BitmapIndex
  add_binding b key idx =
      let id = (alloc_id idx).0 in
      record {
        free_ids = (alloc_id idx).1;
        bindings = place id (some (record b { id = id })) idx.bindings;
        eval_keys =
            if ltb id (length idx.bindings)
            then set_at id key idx.eval_keys
            else idx.eval_keys ++ (key ∷ []);
        universe = B.add id idx.universe;
        scope = dimension_add B b.scope_of id idx.scope;
        version =
            if is_empty b.version_of
            then idx.version
            else dimension_add B b.version_of id idx.version;
        role = if is_empty b.role_of then idx.role else glob_set B L b.role_of id idx.role;
        resource =
            if is_empty b.resource_of
            then idx.resource
            else glob_set B L b.resource_of id idx.resource;
        allow_actions_bitmap =
            if is_some b.allow_actions
            then B.add id idx.allow_actions_bitmap
            else idx.allow_actions_bitmap;
        action = action_set b id idx.action;
        policy_kind = dimension_add B b.policy_kind id idx.policy_kind;
        principal =
            if is_empty b.principal_of
            then idx.principal
            else lazy_add B b.principal_of id idx.principal;
        fqn_bindings = fqn_add b.origin_fqn id idx.fqn_bindings;
      }

  abbrev action_remove : Handle → GlobDimension B L → GlobDimension B L
  action_remove b d =
      if is_some b.allow_actions || is_empty b.action_of
      then d
      else glob_remove B L b.action_of b.id d

  -- removeBinding
  unfoldable pub remove_binding : Handle → BitmapIndex → BitmapIndex
  unfolding free_id
  remove_binding b idx = free_id b.id (record idx {
    universe = B.remove b.id idx.universe;
    version = dimension_remove B b.version_of b.id idx.version;
    scope = dimension_remove B b.scope_of b.id idx.scope;
    role = glob_remove B L b.role_of b.id idx.role;
    resource = glob_remove B L b.resource_of b.id idx.resource;
    allow_actions_bitmap =
        if is_some b.allow_actions
        then B.remove b.id idx.allow_actions_bitmap
        else idx.allow_actions_bitmap;
    action = action_remove b idx.action;
    policy_kind = dimension_remove B b.policy_kind b.id idx.policy_kind;
    principal = lazy_remove B b.principal_of b.id idx.principal;
  })
