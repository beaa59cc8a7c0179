-- ===== src/Engine/Eval/Logic.antt =====
-- internal/engine/executor/eval.go: `AND`, `OR` and `NOT` against the logic with three truth values.
use sqlgo.Base.{◌≡◌, refl, arith, Bool, true, false, not, Option, none, some, if◌then◌else◌, ok}
use sqlgo.Storage.Value.{Value, null, integer, real, text, blob}
use sqlgo.Engine.Parser.Token.{codes}
use sqlgo.Engine.Parser.Syntax.{Expr, binary_expr, unary_expr}
use sqlgo.Engine.Eval.Values.{Library, is_null, is_true}
use sqlgo.Engine.Eval.Operators.{truth_value, eval_and, eval_or, eval_unary, eval_binary}
use sqlgo.Engine.Eval.Expr.{Context, Functions, eval_expr}

-- Kleene's logic: none is unknown.
abbrev pub both : Option Bool → Option Bool → Option Bool
both (some false) q = some false
both (some true) q = q
both none (some false) = some false
both none q = none

abbrev pub either : Option Bool → Option Bool → Option Bool
either (some true) q = some true
either (some false) q = q
either none (some true) = some true
either none q = none

abbrev pub opposite : Option Bool → Option Bool
opposite (some b) = some (not b)
opposite none = none

-- How a truth value is stored.
abbrev pub stored : Option Bool → Value
stored (some b) = truth_value b
stored none = null

module _ (go : Library) where
  abbrev pub truth : Value → Option Bool
  truth v = if is_null v then none else some (is_true go v)

  null_not_true : (v : Value) → is_null v ≡ true → is_true go v ≡ false
  unfolding is_true
  null_not_true null h = refl
  null_not_true (integer n) h = cc
  null_not_true (real n) h = cc
  null_not_true (text s) h = cc
  null_not_true (blob s) h = cc

  eval_and-ok :
      (x y : Value)
      → eval_and go (ok x) (ok y)
        ≡ ok (if is_null x then null else stored (both (truth x) (truth y)))
  unfolding eval_and
  eval_and-ok x y = ground (arith, null_not_true x, null_not_true y)

  eval_or-ok : (x y : Value) → eval_or go (ok x) (ok y) ≡ ok (stored (either (truth x) (truth y)))
  unfolding eval_or
  eval_or-ok x y = ground (arith, null_not_true x, null_not_true y)

  eval_not-ok : (x : Value) → eval_unary go (codes "NOT") (ok x) ≡ ok (stored (opposite (truth x)))
  unfolding eval_unary
  eval_not-ok x = ground (arith, null_not_true x)

  module _ (functions : Functions) (context : Option Context) where
    -- For operands that evaluate to `x` and `y`: `OR` and `NOT` are those of Kleene's logic, where
    -- NULL is unknown and any other value is as true as `IsTrue` says; and so is `AND`, except that
    -- behind NULL on its left it is NULL whatever stands on its right.
    pub eval_expr-kleene :
        (a b : Expr) (x y : Value)
        → eval_expr go functions context a ≡ ok x
        → eval_expr go functions context b ≡ ok y
        → (eval_expr go functions context (binary_expr (codes "AND") a b)
            ≡ ok (if is_null x then null else stored (both (truth x) (truth y))))
          × (eval_expr go functions context (binary_expr (codes "OR") a b)
              ≡ ok (stored (either (truth x) (truth y))))
          × (eval_expr go functions context (unary_expr (codes "NOT") a)
              ≡ ok (stored (opposite (truth x))))
    unfolding eval_expr eval_binary
    eval_expr-kleene a b x y ea eb =
        (rw (ea, eb) (eval_and-ok x y), rw (ea, eb) (eval_or-ok x y), rw ea (eval_not-ok x))
