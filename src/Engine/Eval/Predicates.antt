-- ===== src/Engine/Eval/Predicates.antt =====
-- internal/engine/executor/eval.go: `IS NULL`, `evalBetween`, `evalLike` and `evalGlob`, on the results
-- of their operands.
use sqlgo.Base.{ℕ, Bool, not, ◌&&◌, ◌||◌, Option, none, some, [], ◌∷◌, if◌then◌else◌, ok, ◌>>=◌}
use sqlgo.Storage.Value.{Value, null, text}
use sqlgo.Engine.Like.{sql_like_match}
use sqlgo.Engine.Glob.{glob_match}
use sqlgo.Engine.Eval.Values.{Library, is_null, string_of, compare}
use sqlgo.Engine.Eval.Operators.{Evaluated, truth_value, is_below, is_above}

abbrev negated : Bool → Bool → Bool
negated is_not b = if is_not then not b else b

unfoldable pub eval_is_null : Evaluated → Bool → Evaluated
eval_is_null operand is_not = do val ← operand; ok (truth_value (negated is_not (is_null val)))

module _ (go : Library) where
  unfoldable pub eval_between : Evaluated → Evaluated → Evaluated → Bool → Evaluated
  unfolding compare
  eval_between operand low_result high_result is_not = do
    val ← operand
    low ← low_result
    high ← high_result
    if is_null val
        then ok null
        else ok (
            truth_value (
              negated is_not
                (not (is_below (compare go val low)) && not (is_above (compare go val high)))))

  -- The first rune of the escape text, if there is one.
  abbrev escape_of : Value → ℕ
  escape_of (text s) = elim (go.runes_of s) [ [] ↦ b'\\' | c ∷ cs ↦ c ]
  escape_of _ = b'\\'

  abbrev liked : ℕ → Bool → Value → Value → Value
  liked escape is_not val pat = truth_value (
      negated is_not (
        sql_like_match escape (go.runes_of (go.to_lower (string_of go pat)))
          (go.runes_of (go.to_lower (string_of go val)))))

  unfoldable pub eval_like : Evaluated → Evaluated → Option Evaluated → Bool → Evaluated
  unfolding string_of
  eval_like operand pattern_result escape_result is_not = do
    val ← operand
    pat ← pattern_result
    if is_null val || is_null pat then ok null else elim escape_result [
      | none ↦ ok (liked b'\\' is_not val pat)
      | some result ↦ result >>= λ esc. ok (liked (escape_of esc) is_not val pat)
    ]

  unfoldable pub eval_glob : Evaluated → Evaluated → Bool → Evaluated
  unfolding string_of
  eval_glob operand pattern_result is_not = do
    val ← operand
    pat ← pattern_result
    if is_null val || is_null pat
        then ok null
        else ok (
            truth_value (
              negated is_not
                (glob_match (go.runes_of (string_of go val)) (go.runes_of (string_of go pat)))))
