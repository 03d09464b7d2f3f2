-- ===== src/Check/Condition/Logic.antt =====
-- What conditions mean: a Boolean reading of the operators, errors, and the two modes.
use access_management.Prelude.{
  ◌≡◌, refl, ap, ◌∙◌, ◌≢◌, Str, Bool, true, false, not, ◌&&◌, ◌||◌, Option, some, List, arith,
  if◌then◌else◌,
}
use access_management.Check.Types.{
  Expr, Condition, expr, all_of, any_of, none_of, unknown_op, Conditions, nil, cons, Vars, CelError,
  Result, ok, err,
}
use access_management.Check.Condition.{
  raw_of, bool_of, CelEngine, EvalContext, Logged, Outcome, value, cel_error, broken,
  evaluate_cel_expr, evaluate_bool_cel_expr, continue_all, continue_any, satisfies, satisfies_all,
  satisfies_any, satisfies_condition,
}

-- The reading of a condition by truth tables, given the truth of each expression.
unfoldable mutual
  pub holds : (Expr → Bool) → Condition → Bool
  holds t (expr e) = t e
  holds t (all_of cs) = all_hold t cs
  holds t (any_of cs) = any_holds t cs
  holds t (none_of cs) = not (any_holds t cs)
  holds t unknown_op = false

  pub all_hold : (Expr → Bool) → Conditions → Bool
  all_hold t nil = true
  all_hold t (cons c cs) = holds t c && all_hold t cs

  pub any_holds : (Expr → Bool) → Conditions → Bool
  any_holds t nil = false
  any_holds t (cons c cs) = holds t c || any_holds t cs

-- Every operator of the condition is set, and every expression has property `P`.
unfoldable mutual
  pub AllExprs : (Expr → Type 0) → Condition → Type 0
  AllExprs P (expr e) = P e
  AllExprs P (all_of cs) = EachExprs P cs
  AllExprs P (any_of cs) = EachExprs P cs
  AllExprs P (none_of cs) = EachExprs P cs
  AllExprs P unknown_op = ⊥

  pub EachExprs : (Expr → Type 0) → Conditions → Type 0
  EachExprs P nil = Unit
  EachExprs P (cons c cs) = AllExprs P c × EachExprs P cs

hit_or_not : (b : Bool) → (if b then true else not true) ≡ b
hit_or_not b = ground arith

miss_or_not : (b : Bool) → (if b then false else not false) ≡ not b
miss_or_not b = ground arith

-- The negation of an answer; errors stay.
abbrev pub negate : Logged (Result Bool) → Logged (Result Bool)
negate (ok b, log) = (ok (not b), log)
negate (err f, log) = (err f, log)

negate_step :
    (r : Logged (Result Bool)) (k k' : List CelError → Logged (Result Bool))
    → ((log : List CelError) → k log ≡ negate (k' log))
    → continue_any false r k ≡ negate (continue_any true r k')
negate_step (ok true, log) k k' h = refl
negate_step (ok false, log) k k' h = h log
negate_step (err f, log) k k' h = refl

abbrev pub Answers : Logged (Result Bool) → Type 0
Answers r = (b : Bool) × (r.0 ≡ ok b)

continue_all-Answers :
    (r : Logged (Result Bool)) (k : List CelError → Logged (Result Bool))
    → Answers r
    → ((log : List CelError) → Answers (k log))
    → Answers (continue_all r k)
continue_all-Answers (ok true, log) k a h = h log
continue_all-Answers (ok false, log) k a h = (false, refl)
continue_all-Answers (err f, log) k a h = absurd (ground (arith, a.1))

continue_any-Answers :
    (hit : Bool) (r : Logged (Result Bool)) (k : List CelError → Logged (Result Bool))
    → Answers r
    → ((log : List CelError) → Answers (k log))
    → Answers (continue_any hit r k)
continue_any-Answers hit (ok true, log) k a h = (hit, refl)
continue_any-Answers hit (ok false, log) k a h = h log
continue_any-Answers hit (err f, log) k a h = absurd (ground (arith, a.1))

raw_of-Answers :
    {V : Type 0} (as_bool : V → Option Bool) (e : Expr) (log : List CelError) (strict : Bool)
    (o : Outcome V)
    → strict ≡ false
    → ((m : Str) → o ≢ broken m)
    → Answers (bool_of as_bool (raw_of strict e o log).0, (raw_of strict e o log).1)
raw_of-Answers as_bool e log strict (value v) lax h = (_, refl)
raw_of-Answers as_bool e log true (cel_error m) lax h = absurd (ground arith)
raw_of-Answers as_bool e log false (cel_error m) lax h = (false, refl)
raw_of-Answers as_bool e log strict (broken m) lax h = absurd (h m refl)

module _ {V : Type 0} (cel : CelEngine V) (ec : EvalContext) (constants variables : Vars V) where
  -- The expression evaluates, to a value that counts as `t e`.
  abbrev pub Evaluates : (Expr → Bool) → Expr → Type 0
  Evaluates t e =
      (log : List CelError)
      → evaluate_bool_cel_expr cel ec constants variables e log ≡ (ok (t e), log)

  mutual
    unfolding satisfies holds AllExprs

    satisfies-holds :
        (t : Expr → Bool) (c : Condition) (log : List CelError)
        → AllExprs (Evaluates t) c
        → satisfies cel ec constants variables c log ≡ (ok (holds t c), log)
    satisfies-holds t (expr e) log h = h log
    satisfies-holds t (all_of cs) log h = satisfies_all-holds t cs log h
    satisfies-holds t (any_of cs) log h =
        satisfies_any-holds t cs true log h ∙ ap (λ b. (ok b, log)) (hit_or_not (any_holds t cs))
    satisfies-holds t (none_of cs) log h =
        satisfies_any-holds t cs false log h ∙ ap (λ b. (ok b, log)) (miss_or_not (any_holds t cs))
    satisfies-holds t unknown_op log h = absurd h

    satisfies_all-holds :
        (t : Expr → Bool) (cs : Conditions) (log : List CelError)
        → EachExprs (Evaluates t) cs
        → satisfies_all cel ec constants variables cs log ≡ (ok (all_hold t cs), log)
    satisfies_all-holds t nil log h = refl
    satisfies_all-holds t (cons c cs) log h =
        rw (satisfies-holds t c log h.0) (ground (arith, satisfies_all-holds t cs log h.1))

    satisfies_any-holds :
        (t : Expr → Bool) (cs : Conditions) (hit : Bool) (log : List CelError)
        → EachExprs (Evaluates t) cs
        → satisfies_any cel ec constants variables cs hit log
          ≡ (ok (if any_holds t cs then hit else not hit), log)
    satisfies_any-holds t nil hit log h = refl
    satisfies_any-holds t (cons c cs) hit log h =
        rw (satisfies-holds t c log h.0) (ground (arith, satisfies_any-holds t cs hit log h.1))

  -- Where every operator is set and every expression evaluates, SatisfiesCondition is the truth-table
  -- reading of the condition, in both modes, and records no error.
  pub satisfies_condition-holds :
      (t : Expr → Bool) (c : Condition) (log : List CelError)
      → AllExprs (Evaluates t) c
      → satisfies_condition cel ec constants variables (some c) log ≡ (ok (holds t c), log)
  unfolding satisfies_condition
  satisfies_condition-holds t c log h = satisfies-holds t c log h

  satisfies_any-negate :
      (cs : Conditions) (log : List CelError)
      → satisfies_any cel ec constants variables cs false log
        ≡ negate (satisfies_any cel ec constants variables cs true log)
  unfolding satisfies
  satisfies_any-negate nil log = refl
  satisfies_any-negate (cons c cs) log =
      negate_step (satisfies cel ec constants variables c log)
        (λ log'. satisfies_any cel ec constants variables cs false log')
        (λ log'. satisfies_any cel ec constants variables cs true log')
        (λ log'. satisfies_any-negate cs log')

  -- On every outcome, errors included, `none` is the negation of `any`: a role policy's rule can be
  -- turned into the DENY of its negated condition.
  pub none_of-negate :
      (cs : Conditions) (log : List CelError)
      → satisfies_condition cel ec constants variables (some (none_of cs)) log
        ≡ negate (satisfies_condition cel ec constants variables (some (any_of cs)) log)
  unfolding satisfies_condition satisfies
  none_of-negate cs log = satisfies_any-negate cs log

  -- The expression can be run: it gives a value or a CEL runtime error.
  abbrev pub Runs : Expr → Type 0
  Runs e = (m : Str) → evaluate_cel_expr cel ec e constants variables ≢ broken m

  mutual
    unfolding satisfies AllExprs evaluate_bool_cel_expr

    satisfies-Answers :
        (c : Condition) (log : List CelError)
        → ec.strict_evaluation_mode ≡ false
        → AllExprs Runs c
        → Answers (satisfies cel ec constants variables c log)
    satisfies-Answers (expr e) log lax h =
        raw_of-Answers cel.as_bool e log ec.strict_evaluation_mode
          (evaluate_cel_expr cel ec e constants variables) lax h
    satisfies-Answers (all_of cs) log lax h = satisfies_all-Answers cs log lax h
    satisfies-Answers (any_of cs) log lax h = satisfies_any-Answers cs true log lax h
    satisfies-Answers (none_of cs) log lax h = satisfies_any-Answers cs false log lax h
    satisfies-Answers unknown_op log lax h = absurd h

    satisfies_all-Answers :
        (cs : Conditions) (log : List CelError)
        → ec.strict_evaluation_mode ≡ false
        → EachExprs Runs cs
        → Answers (satisfies_all cel ec constants variables cs log)
    satisfies_all-Answers nil log lax h = (true, refl)
    satisfies_all-Answers (cons c cs) log lax h =
        continue_all-Answers (satisfies cel ec constants variables c log)
          (λ log'. satisfies_all cel ec constants variables cs log')
          (satisfies-Answers c log lax h.0) (λ log'. satisfies_all-Answers cs log' lax h.1)

    satisfies_any-Answers :
        (cs : Conditions) (hit : Bool) (log : List CelError)
        → ec.strict_evaluation_mode ≡ false
        → EachExprs Runs cs
        → Answers (satisfies_any cel ec constants variables cs hit log)
    satisfies_any-Answers nil hit log lax h = (not hit, refl)
    satisfies_any-Answers (cons c cs) hit log lax h =
        continue_any-Answers hit (satisfies cel ec constants variables c log)
          (λ log'. satisfies_any cel ec constants variables cs hit log')
          (satisfies-Answers c log lax h.0) (λ log'. satisfies_any-Answers cs hit log' lax h.1)

  -- Outside strict mode a condition whose operators are set always has an answer, whatever CEL
  -- runtime errors its expressions raise, as long as they can be run.
  pub satisfies_condition-Answers :
      (c : Condition) (log : List CelError)
      → ec.strict_evaluation_mode ≡ false
      → AllExprs Runs c
      → Answers (satisfies_condition cel ec constants variables (some c) log)
  unfolding satisfies_condition
  satisfies_condition-Answers c log lax h = satisfies-Answers c log lax h
