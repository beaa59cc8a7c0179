-- ===== src/Engine/Eval/Membership.antt =====
-- internal/engine/executor/eval.go: `IN` against the comparisons that it stands for.
use sqlgo.Base.{
  ◌≡◌, ◌⊎◌, refl, sym, Bool, true, false, not, Option, if◌then◌else◌, Bool-cases, inl, inr, ok, err,
  Result-cases, ◌>>=◌,
}
use sqlgo.Storage.Value.{Value, null}
use sqlgo.Engine.Parser.Token.{codes}
use sqlgo.Engine.Parser.Syntax.{
  Expr, Exprs, int, literal_expr, binary_expr, in_list_expr, no_exprs, one_expr,
}
use sqlgo.Engine.Eval.Values.{Library, is_null, compare}
use sqlgo.Engine.Eval.Operators.{
  Evaluated, EvalError, truth_value, is_equal, eval_or, eval_unary, eval_binary,
}
use sqlgo.Engine.Eval.Expr.{Context, Functions, eval_expr, eval_in}
use sqlgo.Engine.Eval.Comparisons.{
  negated_if, tested, IsTest, or_equal, not_err, not-truth_value, not_eval,
}

-- `x = first OR (x = second OR … 0)`.
abbrev pub any_equal : Expr → Exprs → Expr
any_equal x no_exprs = literal_expr (int 0)
any_equal x (one_expr e es) =
    binary_expr (codes "OR") (binary_expr (codes "=") x e) (any_equal x es)

module _ (go : Library) (functions : Functions) (context : Option Context) where
  abbrev eval : Expr → Evaluated
  eval = eval_expr go functions context

  -- Every item that evaluates is not NULL.
  abbrev pub AreKnown : Exprs → Type 0
  AreKnown no_exprs = Unit
  AreKnown (one_expr e es) = ((y : Value) → eval e ≡ ok y → is_null y ≡ false) × AreKnown es

  abbrev found : Value → Exprs → Bool → Evaluated
  found = eval_in go functions context

  -- What is found is a truth value, and `NOT IN` finds the opposite.
  eval_in-truth :
      (v : Value) (es : Exprs)
      → ((e : EvalError) × (found v es false ≡ err e) × (found v es true ≡ err e))
        ⊎ ((b : Bool) × (found v es false ≡ ok (truth_value b))
            × (found v es true ≡ ok (truth_value (not b))))
  unfolding eval_expr
  eval_in-truth v no_exprs = inr (false, refl, refl)
  eval_in-truth v (one_expr e es) = elim (Result-cases (eval e)) [
    | inl (er, failed) ↦ inl (er, rw failed refl, rw failed refl)
    | inr (y, done) ↦ elim (Bool-cases (is_equal (compare go v y))) [
      | inl same ↦ inr (true, rw (done, same) refl, rw (done, same) refl)
      | inr other ↦ rw (done, other) (eval_in-truth v es)
    ]
  ]

  found_cases : (v : Value) (es : Exprs) → IsTest (found v es false)
  found_cases v es = elim (eval_in-truth v es) [
    | inl (e, failed, _) ↦ inl (e, failed)
    | inr (b, done, _) ↦ inr (b, done)
  ]

  eval_in_one :
      (v : Value) (e : Expr) (es : Exprs)
      → found v (one_expr e es) false ≡ eval e >>= λ y. tested go v y (found v es false)
  unfolding eval_expr
  eval_in_one v e es = refl

  any_equal_none : (x : Expr) (v : Value) → eval (any_equal x no_exprs) ≡ found v no_exprs false
  unfolding eval_expr
  any_equal_none x v = refl

  any_equal_one :
      (x e : Expr) (es : Exprs)
      → eval (any_equal x (one_expr e es))
        ≡ eval_or go (eval_binary go (codes "=") (eval x) (eval e)) (eval (any_equal x es))
  unfolding eval_expr eval_binary
  any_equal_one x e es = refl

  eval_in-any_equal :
      (x : Expr) (v : Value)
      → eval x ≡ ok v
      → is_null v ≡ false
      → (es : Exprs) → AreKnown es
      → eval (any_equal x es) ≡ found v es false
  eval_in-any_equal x v ex hv no_exprs known = any_equal_none x v
  eval_in-any_equal x v ex hv (one_expr e es) known =
      rw (any_equal_one x e es, eval_in_one v e es, ex, eval_in-any_equal x v ex hv es known.1)
        (or_equal go v (eval e) (found v es false) hv known.0 (found_cases v es))

  in_eval :
      (x : Expr) (es : Exprs) (n : Bool)
      → eval (in_list_expr x es n) ≡ eval x >>= λ v. if is_null v then ok null else found v es n
  unfolding eval_expr
  in_eval x es n = refl

  found-not :
      (v : Value) (es : Exprs) → eval_unary go (codes "NOT") (found v es false) ≡ found v es true
  found-not v es = elim (eval_in-truth v es) [
    | inl (e, failed, failed') ↦ rw (failed, failed') (not_err go e)
    | inr (b, done, done') ↦ rw (done, done') (not-truth_value go b)
  ]

  -- `x IN (a, b, …)` means `x = a OR x = b OR …`, and `NOT IN` its negation, for an `x` that
  -- evaluates to a value other than NULL and items none of which evaluates to NULL: both give
  -- the same value, or fail with the same error.
  pub eval_in-or :
      (x : Expr) (es : Exprs) (is_not : Bool) (v : Value)
      → eval x ≡ ok v
      → is_null v ≡ false
      → AreKnown es
      → eval (in_list_expr x es is_not) ≡ eval (negated_if is_not (any_equal x es))
  eval_in-or x es false v ex hv known =
      rw (in_eval x es false, ex, hv) (sym (eval_in-any_equal x v ex hv es known))
  eval_in-or x es true v ex hv known =
      rw
        (
          in_eval x es true,
          ex,
          hv,
          not_eval go functions context (any_equal x es),
          eval_in-any_equal x v ex hv es known,
        )
        (sym (found-not v es))
