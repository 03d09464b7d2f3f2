-- ===== src/Check/Variables.antt =====
-- evaluateVariables, evaluatePrograms and evaluateOutput of internal/ruletable/check.go.
use access_management.Prelude.{Option, some, List, [], ◌∷◌, ◌++◌, Str, insert, str_comparable}
use access_management.Check.Types.{
  Expr, Variable, Vars, CelError, Failure, strict_evaluation, other, Result, ok, err,
}
use access_management.Check.Condition.{
  Outcome, value, cel_error, broken, CelEngine, EvalContext, add_error, Logged, evaluate_cel_expr,
  evaluate_cel_expr_to_raw,
}

-- The variables that were set, and the errors that were gathered.
abbrev pub Evaluated : Type 0 → Type 0
Evaluated V = Vars V × List Failure

module _ {V : Type 0} where
  -- One round of evaluateVariables: a strict error leaves the variable unset and goes on.
  abbrev pub bind_variable : Str → Result (Option V) → Evaluated V → Evaluated V
  bind_variable name (ok v) (vars, errs) = (insert name v vars, errs)
  bind_variable name (err (strict_evaluation _)) (vars, errs) = (vars, errs)
  bind_variable name (err (other m)) (vars, errs) = (vars, errs ++ other m ∷ [])

  -- One round of evaluatePrograms: a CEL error leaves the variable unset and is recorded.
  abbrev pub bind_program : Variable → Outcome V → Logged (Evaluated V) → Logged (Evaluated V)
  bind_program x (value v) ((vars, errs), log) = ((insert x.name (some v) vars, errs), log)
  bind_program x (cel_error m) ((vars, errs), log) =
      ((vars, errs), add_error (record { expression = x.body.original; message = m }) log)
  bind_program x (broken m) ((vars, errs), log) = ((vars, errs ++ other m ∷ []), log)

  -- The results of the two loops: any error fails the whole evaluation.
  abbrev pub finish : Logged (Evaluated V) → Logged (Result (Vars V))
  finish ((vars, []), log) = (ok vars, log)
  finish ((vars, e ∷ errs), log) = (err e, log)

module _ {V : Type 0} (cel : CelEngine V) (ec : EvalContext) (constants : Vars V) where
  variables_from : List Variable → Logged (Evaluated V) → Logged (Evaluated V)
  variables_from [] acc = acc
  variables_from (x ∷ xs) ((vars, errs), log) =
      let (r, log') = evaluate_cel_expr_to_raw cel ec constants vars x.body log in
      variables_from xs (bind_variable x.name r (vars, errs), log')

  unfoldable pub evaluate_variables : List Variable → List CelError → Logged (Result (Vars V))
  unfolding variables_from evaluate_cel_expr_to_raw
  evaluate_variables xs log = finish (variables_from xs (([], []), log))

  programs_from : List Variable → Logged (Evaluated V) → Logged (Evaluated V)
  programs_from [] acc = acc
  programs_from (x ∷ xs) ((vars, errs), log) =
      programs_from xs
        (bind_program x (evaluate_cel_expr cel ec x.body constants vars) ((vars, errs), log))

  unfoldable pub evaluate_programs : List Variable → List CelError → Logged (Result (Vars V))
  unfolding programs_from evaluate_cel_expr add_error
  evaluate_programs xs log = finish (programs_from xs (([], []), log))

  -- evaluateOutputExpr: errors go to the entry, not to the recorded CEL errors.
  unfoldable pub evaluate_output_expr : Vars V → Expr → Result V
  unfolding evaluate_cel_expr
  evaluate_output_expr variables e = elim (evaluate_cel_expr cel ec e constants variables) [
    | value v ↦ cel.to_output v
    | cel_error m ↦ err (other m)
    | broken m ↦ err (other m)
  ]

-- enginev1.OutputEntry: `Val`, or `Error`.
pub record OutputEntry (V : Type 0) : Type 0 where
  pub src : Str
  pub action : Str
  pub val : Result V

-- evaluateOutput
unfoldable pub evaluate_output :
    {V : Type 0} (cel : CelEngine V) (ec : EvalContext) (constants variables : Vars V)
    (src action : Str) (e : Expr)
    → OutputEntry V
unfolding evaluate_output_expr
evaluate_output cel ec constants variables src action e = record {
  src = src;
  action = action;
  val = evaluate_output_expr cel ec constants variables e;
}
