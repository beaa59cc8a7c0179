-- ===== src/Engine/Eval/Division.antt =====
-- internal/engine/executor/eval.go: `/` and `%` on integers.
use sqlgo.Base.{ℕ, ◌+◌, ◌*◌, ◌%◌, ◌^◌, ◌<◌, ◌≡◌, ◌≢◌, refl, arith, false, Option, ok, ◌==◌}
use sqlgo.Storage.Value.{integer}
use sqlgo.Engine.Parser.Token.{codes}
use sqlgo.Engine.Parser.Syntax.{Expr, binary_expr}
use sqlgo.Engine.Eval.Values.{Library}
use sqlgo.Engine.Eval.Operators.{Evaluated, eval_binary, calculated, compared, arith_value}
use sqlgo.Engine.Eval.Expr.{Context, Functions, eval_expr}
use sqlgo.Engine.Eval.Machine.{int_div, int_mod}
use sqlgo.Engine.Eval.Quotient.{int_div-int_mod}

ne_zero : (b : ℕ) → b ≢ 0 → (b == 0) ≡ false
ne_zero b nz = ground arith

-- `x / y * y + x % y`.
abbrev pub divided_and_back : Expr → Expr → Expr
divided_and_back x y =
    binary_expr (codes "+") (binary_expr (codes "*") (binary_expr (codes "/") x y) y)
      (binary_expr (codes "%") x y)

module _ (go : Library) (functions : Functions) (context : Option Context) where
  abbrev eval : Expr → Evaluated
  eval = eval_expr go functions context

  numbers_ok :
      (a b : ℕ)
      → b ≢ 0
      → (eval_binary go (codes "/") (ok (integer a)) (ok (integer b)) ≡ ok (integer (int_div a b)))
        × (eval_binary go (codes "%") (ok (integer a)) (ok (integer b))
            ≡ ok (integer (int_mod a b)))
  unfolding eval_binary calculated compared arith_value
  numbers_ok a b nz = rw (ne_zero b nz) (refl, refl)

  sum_ok :
      (a b c : ℕ)
      → eval_binary go
          (codes "+")
          (eval_binary go (codes "*") (ok (integer a)) (ok (integer b)))
          (ok (integer c))
        ≡ ok (integer ((a * b % 2 ^ 64 + c) % 2 ^ 64))
  unfolding eval_binary calculated compared arith_value
  sum_ok a b c = refl

  divided_eval :
      (x y : Expr)
      → eval (divided_and_back x y)
        ≡ eval_binary go
            (codes "+")
            (eval_binary go (codes "*") (eval_binary go (codes "/") (eval x) (eval y)) (eval y))
            (eval_binary go (codes "%") (eval x) (eval y))
  unfolding eval_expr
  divided_eval x y = refl

  -- For operands that evaluate to the integers `a` and `b`, with `b` not zero, the expression
  -- `x / y * y + x % y` evaluates to `a`, whatever the signs are, and also where the quotient is out of
  -- the range of an int64.
  pub eval_expr-division :
      (x y : Expr) (a b : ℕ)
      → eval x ≡ ok (integer a)
      → eval y ≡ ok (integer b)
      → a < 2 ^ 64
      → b < 2 ^ 64
      → b ≢ 0
      → eval (divided_and_back x y) ≡ ok (integer a)
  eval_expr-division x y a b ex ey ha hb nz =
      rw
        (
          divided_eval x y,
          ex,
          ey,
          (numbers_ok a b nz).0,
          (numbers_ok a b nz).1,
          sum_ok (int_div a b) b (int_mod a b),
          int_div-int_mod a b ha hb nz,
        )
        refl
