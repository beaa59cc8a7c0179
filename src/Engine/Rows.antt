-- ===== src/Engine/Rows.antt =====
-- internal/engine/executor/executor.go: `dedup` and `applyLimitOffset`, on the values of the rows.
pub mod Distinct
pub mod Window
mod Tests
use sqlgo.Base.{
  ℕ, ◌^◌, Bool, true, false, not, ◌&&◌, ◌||◌, Option, none, some, List, [], ◌∷◌, ◌++◌, map, ltb,
  leb, if◌then◌else◌, Bytes, length, take, drop, bytes_eq, ok, err,
}
use sqlgo.Storage.Value.{Value, integer}
use sqlgo.Engine.Parser.Syntax.{MaybeExpr, present, absent}
use sqlgo.Engine.Eval.Machine.{is_negative}
use sqlgo.Engine.Eval.Values.{Library, string_of}
use sqlgo.Engine.Eval.Expr.{Context, Functions, eval_expr}

abbrev pub ValueRow : Type 0
ValueRow = List Value

-- `seen[key]`, with the keys that were put into the map.
unfoldable pub has_key : Bytes → List Bytes → Bool
has_key key [] = false
has_key key (k ∷ ks) = bytes_eq k key || has_key key ks

-- `&EvalContext{}`.
abbrev pub empty_context : Context
empty_context = record { row = none; schema = none; tables = []; row_id = 0 }

-- `v.Integer`, which is 0 for a value of another type.
abbrev pub integer_field : Value → ℕ
integer_field (integer v) = v
integer_field _ = 0

module _ (go : Library) where
  -- `strings.Join(parts, "\x00")`.
  unfoldable pub row_key : ValueRow → Bytes
  unfolding string_of
  row_key [] = []
  row_key (v ∷ []) = string_of go v
  row_key (v ∷ w ∷ row) = string_of go v ++ (0 ∷ row_key (w ∷ row))

  -- The loop of `dedup`.
  unfoldable pub keep_new : List Bytes → List ValueRow → List ValueRow
  unfolding has_key row_key
  keep_new seen [] = []
  keep_new seen (row ∷ rows) = elim (has_key (row_key row) seen) [
    | true ↦ keep_new seen rows
    | false ↦ row ∷ keep_new (row_key row ∷ seen) rows
  ]

  unfoldable pub dedup : List ValueRow → List ValueRow
  unfolding keep_new
  dedup rows = keep_new [] rows

  module _ (functions : Functions) where
    unfoldable pub number_of : MaybeExpr → Option ℕ
    number_of absent = none
    number_of (present e) = elim (eval_expr go functions (some empty_context) e) [
      | ok v ↦ some (integer_field v)
      | err e ↦ none
    ]

    abbrev skipped : Option ℕ → List ValueRow → List ValueRow
    skipped none rows = rows
    skipped (some n) rows = if is_negative n then rows else drop n rows

    abbrev limited : Option ℕ → List ValueRow → List ValueRow
    limited none rows = rows
    limited (some n) rows = if not (is_negative n) && ltb n (length rows) then take n rows else rows

    -- `applyLimitOffset`: the rows are cut off before they are counted.
    unfoldable pub apply_limit_offset : MaybeExpr → MaybeExpr → List ValueRow → List ValueRow
    unfolding number_of
    apply_limit_offset offset limit rows =
        limited (number_of limit) (skipped (number_of offset) rows)
