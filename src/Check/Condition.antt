-- ===== src/Check/Condition.antt =====
-- Evaluation of CEL expressions, variables and conditions: the methods of EvalContext in
-- internal/ruletable/check.go, and CELErrors of internal/evaluator/cel_errors.go.
-- cel-go is a parameter: `run` compiles and evaluates an expression under an activation.
pub mod Logic
use access_management.Prelude.{
  Bool, true, false, not, ◌&&◌, ◌||◌, Option, none, some, List, [], ◌∷◌, Str, str_eq, str_le,
  is_empty, if◌then◌else◌,
}
use access_management.Check.Types.{
  Expr, Condition, expr, all_of, any_of, none_of, unknown_op, Conditions, nil, cons, Vars, CelError,
  strict_evaluation, other, Result, ok, err,
}

-- What a condition may read of `runtime`: the sorted roles, or the error of `lazyRuntime`.
pub data Runtime : Type 0 where
  roles_failed : List Str → Runtime
  effective_roles : List Str → Runtime

-- The part of buildEvalVars that varies during a check; request, globals and the clock are fixed.
pub record Activation (V : Type 0) : Type 0 where
  pub runtime : Runtime
  pub constants : Vars V
  pub variables : Vars V

-- The three ways an evaluation ends: a value, a CEL runtime error, or a failure to run at all.
pub data Outcome (V : Type 0) : Type 0 where
  value : V → Outcome V
  cel_error : Str → Outcome V
  broken : Str → Outcome V

pub record CelEngine (V : Type 0) : Type 0 where
  pub run : Activation V → Expr → Outcome V
  pub as_bool : V → Option Bool
  pub to_output : V → Result V

-- EvalContext: the derived roles of the scope, and the mode.
pub record EvalContext : Type 0 where
  pub effective_derived_roles : List Str
  pub err_derived_roles : List Str
  pub strict_evaluation_mode : Bool

-- sort.Strings
insert_sorted : Str → List Str → List Str
insert_sorted a [] = a ∷ []
insert_sorted a (b ∷ bs) = if str_le a b then a ∷ b ∷ bs else b ∷ insert_sorted a bs

unfoldable pub sort_strings : List Str → List Str
unfolding insert_sorted
sort_strings [] = []
sort_strings (a ∷ as') = insert_sorted a (sort_strings as')

unfoldable pub lazy_runtime : EvalContext → Runtime
lazy_runtime ec =
    if is_empty ec.err_derived_roles
    then effective_roles (sort_strings ec.effective_derived_roles)
    else roles_failed ec.err_derived_roles

cel_error_eq : CelError → CelError → Bool
cel_error_eq a b = str_eq a.expression b.expression && str_eq a.message b.message

recorded : CelError → List CelError → Bool
unfolding cel_error_eq
recorded e [] = false
recorded e (x ∷ xs) = cel_error_eq x e || recorded e xs

-- CELErrors.Add: a set of errors.
unfoldable pub add_error : CelError → List CelError → List CelError
unfolding recorded
add_error e errors = if recorded e errors then errors else e ∷ errors

-- What a step makes of the collected CEL errors.
abbrev pub Logged : Type 0 → Type 0
Logged A = A × List CelError

module _ {V : Type 0} (cel : CelEngine V) (ec : EvalContext) where
  -- evaluateCELExpr
  unfoldable pub evaluate_cel_expr : Expr → Vars V → Vars V → Outcome V
  unfolding lazy_runtime
  evaluate_cel_expr e constants variables =
      cel.run (record { runtime = lazy_runtime ec; constants = constants; variables = variables }) e

module _ {V : Type 0} where
  -- The error branch of evaluateCELExprToRaw: recorded, then raised only in strict mode.
  abbrev raw_of : Bool → Expr → Outcome V → List CelError → Logged (Result (Option V))
  raw_of strict e (value v) errors = (ok (some v), errors)
  raw_of strict e (cel_error m) errors =
      let x : CelError = record { expression = e.original; message = m } in
      (if strict then err (strict_evaluation x) else ok none, add_error x errors)
  raw_of strict e (broken m) errors = (err (other m), errors)

  -- nil and values that are no booleans count as false.
  abbrev bool_of : (V → Option Bool) → Result (Option V) → Result Bool
  bool_of as_bool (ok none) = ok false
  bool_of as_bool (ok (some v)) = ok (elim (as_bool v) [ none ↦ false | some b ↦ b ])
  bool_of as_bool (err f) = err f

-- One operand of `all`: anything but true ends the loop.
abbrev pub continue_all :
    Logged (Result Bool) → (List CelError → Logged (Result Bool)) → Logged (Result Bool)
continue_all (ok true, errors) rest = rest errors
continue_all (ok false, errors) rest = (ok false, errors)
continue_all (err f, errors) rest = (err f, errors)

-- One operand of `any` and `none`: the answer `hit` on the first true one.
abbrev pub continue_any :
    Bool → Logged (Result Bool) → (List CelError → Logged (Result Bool)) → Logged (Result Bool)
continue_any hit (ok true, errors) rest = (ok hit, errors)
continue_any hit (ok false, errors) rest = rest errors
continue_any hit (err f, errors) rest = (err f, errors)

module _ {V : Type 0} (cel : CelEngine V) (ec : EvalContext) (constants variables : Vars V) where
  unfoldable pub evaluate_cel_expr_to_raw : Expr → List CelError → Logged (Result (Option V))
  unfolding evaluate_cel_expr add_error
  evaluate_cel_expr_to_raw e errors =
      raw_of ec.strict_evaluation_mode e (evaluate_cel_expr cel ec e constants variables) errors

  unfoldable pub evaluate_bool_cel_expr : Expr → List CelError → Logged (Result Bool)
  unfolding evaluate_cel_expr_to_raw
  evaluate_bool_cel_expr e errors =
      let (r, errors') = evaluate_cel_expr_to_raw e errors in (bool_of cel.as_bool r, errors')

  -- SatisfiesCondition, on a condition that is there
  unfoldable mutual
    pub satisfies : Condition → List CelError → Logged (Result Bool)
    satisfies (expr e) errors = evaluate_bool_cel_expr e errors
    satisfies (all_of cs) errors = satisfies_all cs errors
    satisfies (any_of cs) errors = satisfies_any cs true errors
    satisfies (none_of cs) errors = satisfies_any cs false errors
    satisfies unknown_op errors = (err (other []), errors)

    pub satisfies_all : Conditions → List CelError → Logged (Result Bool)
    satisfies_all nil errors = (ok true, errors)
    satisfies_all (cons c cs) errors =
        continue_all (satisfies c errors) (λ errors'. satisfies_all cs errors')

    pub satisfies_any : Conditions → Bool → List CelError → Logged (Result Bool)
    satisfies_any nil hit errors = (ok (not hit), errors)
    satisfies_any (cons c cs) hit errors =
        continue_any hit (satisfies c errors) (λ errors'. satisfies_any cs hit errors')

  -- SatisfiesCondition: no condition is satisfied.
  unfoldable pub satisfies_condition : Option Condition → List CelError → Logged (Result Bool)
  satisfies_condition none errors = (ok true, errors)
  satisfies_condition (some c) errors = satisfies c errors
