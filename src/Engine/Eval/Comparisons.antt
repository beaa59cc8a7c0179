-- ===== src/Engine/Eval/Comparisons.antt =====
-- internal/engine/executor/eval.go: the results of comparisons, joined by `AND`, `OR` and `NOT`.
use sqlgo.Base.{
  ◌≡◌, ◌⊎◌, refl, Bool, true, false, not, ◌&&◌, Option, if◌then◌else◌, Bool-cases, inl, inr, ok,
  err, ◌>>=◌,
}
use sqlgo.Storage.Value.{Value, null}
use sqlgo.Engine.Parser.Token.{codes}
use sqlgo.Engine.Parser.Syntax.{Expr, unary_expr}
use sqlgo.Engine.Eval.Values.{Library, is_null, is_true, compare}
use sqlgo.Engine.Eval.Operators.{
  Evaluated, EvalError, truth_value, is_equal, is_below, is_above, eval_and, eval_or, eval_unary,
  eval_binary, compared, calculated,
}
use sqlgo.Engine.Eval.Predicates.{eval_between}
use sqlgo.Engine.Eval.Expr.{Context, Functions, eval_expr}

abbrev pub negated_if : Bool → Expr → Expr
negated_if is_not e = if is_not then unary_expr (codes "NOT") e else e

-- An error or a truth value.
abbrev pub IsTest : Evaluated → Type 0
IsTest r = ((e : EvalError) × (r ≡ err e)) ⊎ ((b : Bool) × (r ≡ ok (truth_value b)))

module _ (go : Library) where
  equal-ok :
      (v y : Value)
      → is_null v ≡ false
      → is_null y ≡ false
      → eval_binary go (codes "=") (ok v) (ok y) ≡ ok (truth_value (is_equal (compare go v y)))
  unfolding eval_binary calculated compared
  equal-ok v y hv hy = rw (hv, hy) refl

  or_true : (r : Evaluated) → eval_or go (ok (truth_value true)) r ≡ ok (truth_value true)
  unfolding eval_or is_true
  or_true r = refl

  or_false :
      (b : Bool) → eval_or go (ok (truth_value false)) (ok (truth_value b)) ≡ ok (truth_value b)
  unfolding eval_or is_true
  or_false true = refl
  or_false false = refl

  or_false_err : (e : EvalError) → eval_or go (ok (truth_value false)) (err e) ≡ err e
  unfolding eval_or is_true
  or_false_err e = refl

  equal_err :
      (v : Value) (e : EvalError) (rest : Evaluated)
      → eval_or go (eval_binary go (codes "=") (ok v) (err e)) rest ≡ err e
  unfolding eval_or eval_binary
  equal_err v e rest = refl

  pub not-truth_value :
      (b : Bool) → eval_unary go (codes "NOT") (ok (truth_value b)) ≡ ok (truth_value (not b))
  unfolding eval_unary is_true
  not-truth_value true = refl
  not-truth_value false = refl

  -- The round of `evalIn` for an item.
  abbrev pub tested : Value → Value → Evaluated → Evaluated
  tested v y rest = if is_equal (compare go v y) then ok (truth_value true) else rest

  or_false-IsTest : (r : Evaluated) → IsTest r → eval_or go (ok (truth_value false)) r ≡ r
  or_false-IsTest r (inl (e, failed)) = rw failed (or_false_err e)
  or_false-IsTest r (inr (b, done)) = rw done (or_false b)

  pub or_equal :
      (v : Value) (item rest : Evaluated)
      → is_null v ≡ false
      → ((y : Value) → item ≡ ok y → is_null y ≡ false)
      → IsTest rest
      → eval_or go (eval_binary go (codes "=") (ok v) item) rest ≡ item >>= λ y. tested v y rest
  or_equal v (err e) rest hv known is = equal_err v e rest
  or_equal v (ok y) rest hv known is =
      rw (equal-ok v y hv (known y refl)) (elim (Bool-cases (is_equal (compare go v y))) [
        | inl same ↦ rw same (or_true rest)
        | inr other ↦ rw other (or_false-IsTest rest is)
      ])

  pub not_err : (e : EvalError) → eval_unary go (codes "NOT") (err e) ≡ err e
  unfolding eval_unary
  not_err e = refl

  bounds_ok :
      (v y : Value)
      → is_null y ≡ false
      → (eval_binary go (codes ">=") (ok v) (ok y)
          ≡ ok (if is_null v then null else truth_value (not (is_below (compare go v y)))))
        × (eval_binary go (codes "<=") (ok v) (ok y)
            ≡ ok (if is_null v then null else truth_value (not (is_above (compare go v y)))))
  unfolding eval_binary calculated compared
  bounds_ok v y hy = elim (Bool-cases (is_null v)) [
    | inl unknown ↦ rw unknown (refl, refl)
    | inr known ↦ rw (known, hy) (refl, refl)
  ]

  and-truth_value :
      (a b : Bool)
      → eval_and go (ok (truth_value a)) (ok (truth_value b)) ≡ ok (truth_value (a && b))
  unfolding eval_and is_true
  and-truth_value true true = refl
  and-truth_value true false = refl
  and-truth_value false b = refl

  nulls :
      (eval_and go (ok null) (ok null) ≡ ok null)
      × (eval_unary go (codes "NOT") (ok null) ≡ ok null)
  unfolding eval_and eval_unary is_true
  nulls = (refl, refl)

  pub between_ok :
      (v l h : Value)
      → is_null l ≡ false
      → is_null h ≡ false
      → (let range =
            eval_and go
              (eval_binary go (codes ">=") (ok v) (ok l))
              (eval_binary go (codes "<=") (ok v) (ok h)) in
          (eval_between go (ok v) (ok l) (ok h) false ≡ range)
          × (eval_between go (ok v) (ok l) (ok h) true ≡ eval_unary go (codes "NOT") range))
  unfolding eval_between
  between_ok v l h hl hh =
      let lower = (bounds_ok v l hl).0 in
      let upper = (bounds_ok v h hh).1 in
      elim (Bool-cases (is_null v)) [
        | inl unknown ↦ rw (lower, upper, unknown, nulls.0, nulls.1) (refl, refl)
        | inr known ↦
            let a = not (is_below (compare go v l)) in
            let b = not (is_above (compare go v h)) in
            rw (lower, upper, known, and-truth_value a b, not-truth_value (a && b)) (refl, refl)
      ]

module _ (go : Library) (functions : Functions) (context : Option Context) where
  abbrev pub eval : Expr → Evaluated
  eval = eval_expr go functions context

  pub not_eval :
      (a : Expr) → eval (unary_expr (codes "NOT") a) ≡ eval_unary go (codes "NOT") (eval a)
  unfolding eval_expr
  not_eval a = refl
