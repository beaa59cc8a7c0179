-- ===== src/Engine/Eval/Operators.antt =====
-- internal/engine/executor/eval.go: `evalUnary` and `evalBinary`.
-- Evaluation changes nothing that it reads, so that each is given the results of evaluating its
-- operands, and looks at a result where the code evaluates the operand.
use Prim.Native.Nat.{bit_and, bit_or}
use sqlgo.Base.{
  ℕ, ◌+◌, ◌-◌, ◌*◌, ◌%◌, ◌^◌, Bool, true, false, not, ◌&&◌, ◌||◌, ◌++◌, Option, none, some, ◌==◌,
  if◌then◌else◌, bytes_eq, Result, ok, err, ◌>>=◌,
}
use sqlgo.Storage.Value.{Value, null, integer, real, text}
use sqlgo.Engine.Parser.Token.{Runes, codes}
use sqlgo.Engine.Eval.Machine.{negate, int_div, int_mod, shift_left, shift_right}
use sqlgo.Engine.Eval.Values.{
  Library, Order, below, equal, above, is_null, string_of, to_float, is_true, compare,
}

pub data EvalError : Type 0 where
  unknown_operator : Runes → EvalError
  cast_failed : EvalError
  function_failed : EvalError

abbrev pub Evaluated : Type 0
Evaluated = Result EvalError Value

-- `storage.IntValue(1)` or `storage.IntValue(0)`.
abbrev pub truth_value : Bool → Value
truth_value b = integer (if b then 1 else 0)

abbrev pub is_int_zero : Value → Bool
is_int_zero (integer v) = v == 0
is_int_zero _ = false

-- The operators whose result is NULL when an operand is.
abbrev pub is_comparing : Runes → Bool
is_comparing op =
    bytes_eq op (codes "=")
    || bytes_eq op (codes "!=")
    || bytes_eq op (codes "<>")
    || bytes_eq op (codes "<")
    || bytes_eq op (codes "<=")
    || bytes_eq op (codes ">")
    || bytes_eq op (codes ">=")

abbrev pub is_equal : Order → Bool
is_equal equal = true
is_equal _ = false

abbrev pub is_below : Order → Bool
is_below below = true
is_below _ = false

abbrev pub is_above : Order → Bool
is_above above = true
is_above _ = false

module _ (go : Library) where
  abbrev negative : Value → Value
  negative (integer v) = integer (negate v)
  negative (real v) = real (go.float_neg v)
  negative _ = null

  abbrev complement : Value → Value
  complement (integer v) = integer (2 ^ 64 - 1 - v)
  complement v = integer (2 ^ 64 - 1 - go.int_of_float (to_float go v))

  unfoldable pub eval_unary : Runes → Evaluated → Evaluated
  unfolding negate to_float is_true
  eval_unary op operand = do
    val ← operand
    ok (
        if bytes_eq op (codes "-")
        then negative val
        else if bytes_eq op (codes "+")
        then val
        else if bytes_eq op (codes "NOT")
        then (if is_null val then null else truth_value (not (is_true go val)))
        else if bytes_eq op (codes "~")
        then complement val
        else null)

  -- `arith`.
  unfoldable pub arith_value : (ℕ → ℕ → ℕ) → (ℕ → ℕ → ℕ) → Value → Value → Value
  unfolding to_float
  arith_value fop iop (integer a) (integer b) = integer (iop a b)
  arith_value fop iop left right = real (fop (to_float go left) (to_float go right))

  abbrev is_zero : Value → Bool
  is_zero (integer v) = v == 0
  is_zero (real v) = go.float_is_zero v
  is_zero _ = false

  abbrev on_ints : (ℕ → ℕ → ℕ) → Value → Value → Value
  on_ints f left right =
      integer (f (go.int_of_float (to_float go left)) (go.int_of_float (to_float go right)))

  abbrev shift_by : (ℕ → ℕ → ℕ) → Value → Value → Value
  shift_by f left right =
      integer (f (go.int_of_float (to_float go left)) (go.uint_of_float (to_float go right)))

  -- The `switch` on the operators that give a number or a text, with what it is for any other.
  unfoldable pub calculated : Runes → Value → Value → Option Value
  unfolding arith_value int_div int_mod shift_left shift_right to_float string_of
  calculated op left right =
      if bytes_eq op (codes "+")
      then some (arith_value go.float_add (λ a b. (a + b) % 2 ^ 64) left right)
      else if bytes_eq op (codes "-")
      then some (arith_value go.float_sub (λ a b. (a + (2 ^ 64 - b)) % 2 ^ 64) left right)
      else if bytes_eq op (codes "*")
      then some (arith_value go.float_mul (λ a b. a * b % 2 ^ 64) left right)
      else if bytes_eq op (codes "/")
      then some (if is_zero right then null else arith_value go.float_div int_div left right)
      else if bytes_eq op (codes "%")
      then some (if is_int_zero right then null else arith_value go.float_mod int_mod left right)
      else if bytes_eq op (codes "||")
      then some (
          if is_null left || is_null right
          then null
          else text (string_of go left ++ string_of go right))
      else if bytes_eq op (codes "&")
      then some (on_ints bit_and left right)
      else if bytes_eq op (codes "|")
      then some (on_ints bit_or left right)
      else if bytes_eq op (codes "<<")
      then some (shift_by shift_left left right)
      else if bytes_eq op (codes ">>")
      then some (shift_by shift_right left right)
      else none

  -- The operators that give 1 or 0.
  unfoldable pub compared : Runes → Value → Value → Option Bool
  unfolding compare string_of
  compared op left right =
      if bytes_eq op (codes "=")
      then some (is_equal (compare go left right))
      else if bytes_eq op (codes "!=") || bytes_eq op (codes "<>")
      then some (not (is_equal (compare go left right)))
      else if bytes_eq op (codes "<")
      then some (is_below (compare go left right))
      else if bytes_eq op (codes "<=")
      then some (not (is_above (compare go left right)))
      else if bytes_eq op (codes ">")
      then some (is_above (compare go left right))
      else if bytes_eq op (codes ">=")
      then some (not (is_below (compare go left right)))
      else if bytes_eq op (codes "REGEXP")
      then some (elim (go.match_regexp (string_of go right) (string_of go left)) [
        | some b ↦ b
        | none ↦ false
      ])
      else none

  unfoldable pub eval_and : Evaluated → Evaluated → Evaluated
  unfolding is_true
  eval_and left_result right_result = do
    left ← left_result
    if not (is_true go left) && not (is_null left) then ok (truth_value false) else (do
      right ← right_result
      if is_null left || is_null right
          then ok null
          else ok (truth_value (is_true go left && is_true go right)))

  unfoldable pub eval_or : Evaluated → Evaluated → Evaluated
  unfolding is_true
  eval_or left_result right_result = do
    left ← left_result
    if is_true go left then ok (truth_value true) else (do
      right ← right_result
      if is_true go right
          then ok (truth_value true)
          else if is_null left || is_null right
          then ok null
          else ok (truth_value false))

  unfoldable pub eval_binary : Runes → Evaluated → Evaluated → Evaluated
  unfolding eval_and eval_or calculated compared
  eval_binary op left_result right_result =
      if bytes_eq op (codes "AND")
      then eval_and left_result right_result
      else if bytes_eq op (codes "OR")
      then eval_or left_result right_result
      else (do
        left ← left_result
        right ← right_result
        if (is_null left || is_null right) && is_comparing op
            then ok null
            else elim (calculated op left right) [
              | some v ↦ ok v
              | none ↦ elim (compared op left right) [
                | some b ↦ ok (truth_value b)
                | none ↦ err (unknown_operator op)
              ]
            ])
