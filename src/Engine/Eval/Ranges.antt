-- ===== src/Engine/Eval/Ranges.antt =====
-- internal/engine/executor/eval.go: `BETWEEN` against the comparisons that it stands for.
use sqlgo.Base.{◌≡◌, refl, Bool, true, false, Option, ok}
use sqlgo.Storage.Value.{Value}
use sqlgo.Engine.Parser.Token.{codes}
use sqlgo.Engine.Parser.Syntax.{Expr, binary_expr, between_expr}
use sqlgo.Engine.Eval.Values.{Library, is_null}
use sqlgo.Engine.Eval.Operators.{Evaluated, eval_and, eval_binary}
use sqlgo.Engine.Eval.Predicates.{eval_between}
use sqlgo.Engine.Eval.Expr.{Context, Functions, eval_expr}
use sqlgo.Engine.Eval.Comparisons.{negated_if, between_ok, not_eval}

abbrev pub in_range : Expr → Expr → Expr → Expr
in_range x low high =
    binary_expr (codes "AND") (binary_expr (codes ">=") x low) (binary_expr (codes "<=") x high)

module _ (go : Library) (functions : Functions) (context : Option Context) where
  abbrev eval : Expr → Evaluated
  eval = eval_expr go functions context

  between_eval :
      (x low high : Expr) (n : Bool)
      → eval (between_expr x low high n) ≡ eval_between go (eval x) (eval low) (eval high) n
  unfolding eval_expr
  between_eval x low high n = refl

  range_eval :
      (x low high : Expr)
      → eval (in_range x low high)
        ≡ eval_and go
            (eval_binary go (codes ">=") (eval x) (eval low))
            (eval_binary go (codes "<=") (eval x) (eval high))
  unfolding eval_expr eval_binary
  range_eval x low high = refl

  -- `x BETWEEN low AND high` means `x >= low AND x <= high`, and `NOT BETWEEN` its negation, for
  -- operands that evaluate, the bounds to values other than NULL.
  pub eval_between-and :
      (x low high : Expr) (is_not : Bool) (v l h : Value)
      → eval x ≡ ok v
      → eval low ≡ ok l
      → eval high ≡ ok h
      → is_null l ≡ false
      → is_null h ≡ false
      → eval (between_expr x low high is_not) ≡ eval (negated_if is_not (in_range x low high))
  eval_between-and x low high false v l h ex el eh hl hh =
      rw (between_eval x low high false, range_eval x low high, ex, el, eh)
        (between_ok go v l h hl hh).0
  eval_between-and x low high true v l h ex el eh hl hh =
      rw
        (
          between_eval x low high true,
          not_eval go functions context (in_range x low high),
          range_eval x low high,
          ex,
          el,
          eh,
        )
        (between_ok go v l h hl hh).1
