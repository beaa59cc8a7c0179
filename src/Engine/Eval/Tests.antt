-- ===== src/Engine/Eval/Tests.antt =====
-- internal/engine/executor/eval.go: evaluation of concrete expressions.
use sqlgo.Base.{
  ℕ, ◌+◌, ◌-◌, ◌*◌, ◌/◌, ◌%◌, ◌^◌, ◌≡◌, refl, arith, true, false, none, [], ltb, ◌==◌, ok, err,
}
use sqlgo.Storage.Value.{Value, null, integer, real, text, blob}
use sqlgo.Engine.Parser.Token.{codes}
use sqlgo.Engine.Parser.Syntax.{
  Expr, Exprs, Literal, int, literal_expr, binary_expr, unary_expr, in_list_expr, between_expr,
  case_expr, no_exprs, one_expr, present, absent, no_whens, when_clause,
}
use sqlgo.Engine.Eval.Machine.{negate}
use sqlgo.Engine.Eval.Values.{Library, is_null}
use sqlgo.Engine.Eval.Operators.{Evaluated, function_failed, unknown_operator}
use sqlgo.Engine.Eval.Expr.{Functions, eval_expr}
use sqlgo.Engine.Eval.Logic.{eval_expr-kleene}
use sqlgo.Engine.Eval.Membership.{any_equal, eval_in-or}
use sqlgo.Engine.Eval.Comparisons.{negated_if}
use sqlgo.Engine.Eval.Ranges.{in_range, eval_between-and}
use sqlgo.Engine.Eval.Division.{divided_and_back, eval_expr-division}

-- Floats that are whole numbers, and text in ASCII.
abbrev whole_floats : Library
whole_floats = record {
  float_of_int = λ v. v;
  int_of_float = λ f. f;
  uint_of_float = λ f. f;
  float_less = ltb;
  float_is_zero = λ f. f == 0;
  float_neg = λ f. f;
  float_add = λ a b. a + b;
  float_sub = λ a b. a - b;
  float_mul = λ a b. a * b;
  float_div = λ a b. a / b;
  float_mod = λ a b. a % b;
  parse_float = λ s. 0;
  format_float = λ f. [];
  to_upper = λ s. s;
  to_lower = λ s. s;
  equal_fold = λ s t. false;
  runes_of = λ s. s;
  bytes_of = λ s. s;
  match_regexp = λ p s. none;
}

abbrev no_functions : Functions
no_functions = record {
  call = λ name args star distinct. err function_failed;
  cast = λ type v. ok v;
}

abbrev eval : Expr → Evaluated
eval = eval_expr whole_floats no_functions none

abbrev num : ℕ → Expr
num n = literal_expr (int n)

abbrev unknown : Expr
unknown = literal_expr Literal.null

abbrev minus : ℕ → Expr
minus n = unary_expr (codes "-") (num n)

divided : eval (binary_expr (codes "/") (minus 7) (num 2)) ≡ ok (integer (2 ^ 64 - 3))
unfolding eval_expr negate
divided = refl

unknown_and_false : eval (binary_expr (codes "AND") unknown (num 0)) ≡ ok null
unfolding eval_expr
unknown_and_false = refl

-- A sum with NULL is the float of the other operand.
unknown_in_sum : eval (binary_expr (codes "+") (num 1) unknown) ≡ ok (real 1)
unfolding eval_expr
unknown_in_sum = refl

-- A NULL among the items counts as an item that is not found.
unknown_item : eval (in_list_expr (num 1) (one_expr unknown no_exprs) true) ≡ ok (integer 1)
unfolding eval_expr
unknown_item = refl

unknown_bound : eval (between_expr (num 1) unknown (num 5) false) ≡ ok (integer 1)
unfolding eval_expr
unknown_bound = refl

chosen :
    eval (
      case_expr
        (present (num 2))
        (when_clause (num 1) (num 10) (when_clause (num 2) (num 20) no_whens))
        absent)
    ≡ ok (integer 20)
unfolding eval_expr
chosen = refl

no_operator : eval (binary_expr (codes "->") (num 1) (num 2)) ≡ err (unknown_operator (codes "->"))
unfolding eval_expr
no_operator = refl

abbrev items : Exprs
items = one_expr (num 3) (one_expr (num 4) no_exprs)

eval_expr-kleene_example :
    (eval (binary_expr (codes "AND") (num 0) unknown) ≡ ok (integer 0))
    × (eval (binary_expr (codes "OR") (num 0) unknown) ≡ ok null)
    × (eval (unary_expr (codes "NOT") (num 0)) ≡ ok (integer 1))
unfolding eval_expr
eval_expr-kleene_example =
    eval_expr-kleene whole_floats no_functions none (num 0) unknown (integer 0) null refl refl

known_number : (n : ℕ) (y : Value) → ◌≡◌ {A = Evaluated} (ok (integer n)) (ok y) → is_null y ≡ false
known_number n null e = cc
known_number n (integer v) e = refl
known_number n (real v) e = refl
known_number n (text s) e = refl
known_number n (blob b) e = refl

eval_in-or_example :
    eval (in_list_expr (num 4) items true) ≡ eval (negated_if true (any_equal (num 4) items))
unfolding eval_expr
eval_in-or_example =
    eval_in-or whole_floats no_functions none (num 4) items true (integer 4) refl refl
      (λ y e. known_number 3 y e, (λ y e. known_number 4 y e, tt))

eval_between-and_example :
    eval (between_expr (num 4) (num 3) (num 5) true)
    ≡ eval (negated_if true (in_range (num 4) (num 3) (num 5)))
unfolding eval_expr
eval_between-and_example =
    eval_between-and whole_floats no_functions none (num 4) (num 3) (num 5) true (integer 4)
      (integer 3) (integer 5) refl refl refl refl refl

eval_expr-division_example : eval (divided_and_back (num 7) (minus 2)) ≡ ok (integer 7)
unfolding eval_expr negate
eval_expr-division_example =
    eval_expr-division whole_floats no_functions none (num 7) (minus 2) 7 (2 ^ 64 - 2) refl refl
      (omega arith) (omega arith) (λ e. omega (arith, e))
