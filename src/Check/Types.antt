-- ===== src/Check/Types.antt =====
-- The data of a check: protobuf enums, conditions, rule bindings and evaluation contexts.
-- A value of CEL (Go's `any`) is an element of the type `V`; `nil` is `none`.
use access_management.Prelude.{
  ℕ, ◌≡◌, ◌↔◌, Bool, true, ◌&&◌, Option, List, arith, Str, str_eq, str_eq_iff, ◌==◌, Comparable,
}

-- effectv1.Effect
pub data Effect : Type 0 where
  unspecified allow deny no_match : Effect

-- policyv1.Kind
pub data Kind : Type 0 where
  kind_unspecified derived_roles export_variables principal resource role_policy : Kind
  export_constants : Kind

-- policyv1.ScopePermissions
pub data ScopePermissions : Type 0 where
  permissions_unspecified override_parent require_parental_consent_for_allows : ScopePermissions

-- runtimev1.Expr: its source text names it (the program cache is keyed by it).
pub record Expr : Type 0 where
  pub original : Str

-- runtimev1.Condition; `unknown_op` is the `default` case, an operator that is not set.
mutual
  pub data Condition : Type 0 where
    expr : Expr → Condition
    all_of any_of none_of : Conditions → Condition
    unknown_op : Condition

  pub data Conditions : Type 0 where
    nil : Conditions
    cons : Condition → Conditions → Conditions

-- runtimev1.Variable, index.CelProgram
pub record Variable : Type 0 where
  pub name : Str
  pub body : Expr

-- map[string]any
abbrev pub Vars : Type 0 → Type 0
Vars V = List (Str × Option V)

-- index.RowParams
pub record RowParams (V : Type 0) : Type 0 where
  pub key : ℕ
  pub constants : Vars V
  pub cel_programs : List Variable

-- WrappedRunnableDerivedRole
pub record DerivedRole (V : Type 0) : Type 0 where
  pub parent_roles : List Str
  pub var_cache_key : ℕ
  pub constants : Vars V
  pub ordered_variables : List Variable
  pub condition : Option Condition

-- runtimev1.Output.When
pub record OutputWhen : Type 0 where
  pub rule_activated : Option Expr
  pub condition_not_met : Option Expr

-- index.EvaluationKeyTuple
pub record EvaluationKeyTuple : Type 0 where
  pub prefix_ : Str
  pub resource_ : Str
  pub principal_ : Str
  pub role : Str
  pub derived_role : Str
  pub version : Str
  pub scope : Str
  pub rule_name : Str
  pub rule_id : ℕ

abbrev eval_key_eq : EvaluationKeyTuple → EvaluationKeyTuple → Bool
eval_key_eq a b =
    str_eq a.prefix_ b.prefix_
    && str_eq a.resource_ b.resource_
    && str_eq a.principal_ b.principal_
    && str_eq a.role b.role
    && str_eq a.derived_role b.derived_role
    && str_eq a.version b.version
    && str_eq a.scope b.scope
    && str_eq a.rule_name b.rule_name
    && a.rule_id == b.rule_id

pub eval_key_eq_iff : (a b : EvaluationKeyTuple) → (eval_key_eq a b ≡ true) ↔ (a ≡ b)
eval_key_eq_iff a b = ground (
  arith,
  str_eq_iff a.prefix_ b.prefix_,
  str_eq_iff a.resource_ b.resource_,
  str_eq_iff a.principal_ b.principal_,
  str_eq_iff a.role b.role,
  str_eq_iff a.derived_role b.derived_role,
  str_eq_iff a.version b.version,
  str_eq_iff a.scope b.scope,
  str_eq_iff a.rule_name b.rule_name,
)

instance abbrev pub eval_key_comparable : Comparable EvaluationKeyTuple
eval_key_comparable = record { beq = eval_key_eq; beq_iff = eval_key_eq_iff }

-- index.BindingHandle with its FunctionalCore; `eval_key` is `idx.EvalKey(b.ID)`.
pub record Binding (V : Type 0) : Type 0 where
  pub name : Str
  pub origin_fqn : Str
  pub scope : Str
  pub eval_key : EvaluationKeyTuple
  pub no_match_for_scope_permissions : Bool
  pub effect : Effect
  pub condition : Option Condition
  pub derived_role_condition : Option Condition
  pub params : Option (RowParams V)
  pub derived_role_params : Option (RowParams V)
  pub emit_output : Option OutputWhen
  pub from_role_policy : Bool

-- evaluator.celError, the entries of CELErrors
pub record CelError : Type 0 where
  pub expression : Str
  pub message : Str

-- A Go error: the strict mode's StrictEvaluationError, or any other.
pub data Failure : Type 0 where
  strict_evaluation : CelError → Failure
  other : Str → Failure

pub data Result {ℓ} (A : Type ℓ) : Type ℓ where
  ok : A → Result A
  err : Failure → Result A
