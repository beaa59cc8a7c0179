-- ===== src/Engine/Eval/Expr.antt =====
-- internal/engine/executor/eval.go: `EvalExpr` with `resolveIdent`, `evalIn` and `evalCase`. The
-- functions that `evalFunc` calls, and `storage.CoerceValue`, are given as what they make of the
-- results of their arguments.
use sqlgo.Base.{
  ℕ, suc, Bool, true, false, not, ◌&&◌, Option, none, some, List, [], ◌∷◌, if◌then◌else◌, Bytes,
  get_elem?, bytes_eq, ok, ◌>>=◌,
}
use sqlgo.Storage.Value.{Value, integer, real, text}
use sqlgo.Engine.Parser.Token.{Runes, codes}
use sqlgo.Engine.Parser.Syntax.{
  Literal, Expr, Exprs, MaybeExpr, Whens, int, float, string, literal_expr, ident_expr, star_expr,
  binary_expr, unary_expr, func_call_expr, is_null_expr, in_list_expr, in_query_expr, like_expr,
  glob_expr, between_expr, case_expr, cast_expr, exists_expr, subquery_expr, row_value_expr,
  no_exprs, one_expr, absent, present, no_whens, when_clause,
}
use sqlgo.Engine.Eval.Values.{Library, is_null, is_true, compare}
use sqlgo.Engine.Eval.Operators.{Evaluated, truth_value, is_equal, eval_unary, eval_binary}
use sqlgo.Engine.Eval.Predicates.{eval_is_null, eval_between, eval_like, eval_glob}

-- The columns of a `TableSchema` by their names, and a row.
pub record Binding : Type 0 where
  pub columns : List Bytes
  pub values : List Value

-- `EvalContext`, with none for a nil pointer. The map `Tables` is a list in the order in which the
-- loop over it runs.
pub record Context : Type 0 where
  pub row : Option (List Value)
  pub schema : Option (List Bytes)
  pub tables : List (Bytes × Binding)
  pub row_id : ℕ

-- The functions of `evalFunc` and `CoerceValue`, as functions of their arguments: RANDOM, UUID and
-- the clock give one result for the same arguments.
pub record Functions : Type 0 where
  pub call : Runes → List Evaluated → Bool → Bool → Evaluated
  pub cast : Runes → Value → Evaluated

abbrev pub or_null : Option Value → Value
or_null (some v) = v
or_null none = Value.null

abbrev is_empty_name : Runes → Bool
is_empty_name [] = true
is_empty_name (c ∷ s) = false

abbrev pub binding_of : Bytes → List (Bytes × Binding) → Option Binding
binding_of name [] = none
binding_of name ((key, b) ∷ rest) =
    let later = binding_of name rest in if bytes_eq key name then some b else later

module _ (go : Library) where
  -- `ColumnIndex`, counted from the first column.
  unfoldable pub column_index : List Bytes → Bytes → Option ℕ
  column_index [] name = none
  column_index (c ∷ cs) name =
      let rest = column_index cs name in
      if go.equal_fold c name then some 0 else elim rest [ some i ↦ some (suc i) | none ↦ none ]

  abbrev value_at : List Value → Option ℕ → Option Value
  value_at row (some i) = get_elem? row i
  value_at row none = none

  unfoldable pub in_any_table : List (Bytes × Binding) → Bytes → Option Value
  unfolding column_index
  in_any_table [] name = none
  in_any_table ((key, b) ∷ rest) name =
      let later = in_any_table rest name in
      elim (value_at b.values (column_index b.columns name)) [ some v ↦ some v | none ↦ later ]

  -- Behind the lookup of a qualified name.
  abbrev in_schema : Context → List Value → Bytes → Option Value
  in_schema ctx row name = elim ctx.schema [
    | none ↦ none
    | some columns ↦ elim (column_index columns name) [
      | some i ↦ get_elem? row i
      | none ↦ in_any_table ctx.tables name
    ]
  ]

  abbrev in_row : Context → List Value → Runes → Bytes → Option Value
  in_row ctx row table name =
      if is_empty_name table
      then in_schema ctx row name
      else elim (binding_of (go.to_lower (go.bytes_of table)) ctx.tables) [
        | some b ↦ value_at b.values (column_index b.columns name)
        | none ↦ in_schema ctx row name
      ]

  unfoldable pub resolve_ident : Option Context → Runes → Runes → Value
  unfolding column_index in_any_table
  resolve_ident context table name =
      if bytes_eq (go.to_upper (go.bytes_of name)) (codes "ROWID") && is_empty_name table
      then elim context [ some ctx ↦ integer ctx.row_id | none ↦ Value.null ]
      else elim context [
        | none ↦ Value.null
        | some ctx ↦ elim ctx.row [
          | none ↦ Value.null
          | some row ↦ or_null (in_row ctx row table (go.bytes_of name))
        ]
      ]

  abbrev literal_value : Literal → Value
  literal_value Literal.null = Value.null
  literal_value (int n) = integer n
  literal_value (float s) = real (go.parse_float (go.bytes_of s))
  literal_value (string s) = text (go.bytes_of s)

  module _ (functions : Functions) (context : Option Context) where
    unfoldable mutual
      unfolding resolve_ident eval_unary eval_binary eval_is_null eval_between eval_like eval_glob
          compare is_true

      pub eval_expr : Expr → Evaluated
      eval_expr (literal_expr l) = ok (literal_value l)
      eval_expr (ident_expr table name) = ok (resolve_ident context table name)
      eval_expr star_expr = ok (integer 1)
      eval_expr (unary_expr op e) = eval_unary go op (eval_expr e)
      eval_expr (binary_expr op l r) = eval_binary go op (eval_expr l) (eval_expr r)
      eval_expr (is_null_expr e is_not) = eval_is_null (eval_expr e) is_not
      eval_expr (in_list_expr e items is_not) = do
        val ← eval_expr e
        if is_null val then ok Value.null else eval_in val items is_not
      eval_expr (in_query_expr e q is_not) = do
        val ← eval_expr e
        if is_null val then ok Value.null else ok (truth_value is_not)
      eval_expr (like_expr e p esc is_not) =
          eval_like go (eval_expr e) (eval_expr p) (eval_maybe esc) is_not
      eval_expr (glob_expr e p is_not) = eval_glob go (eval_expr e) (eval_expr p) is_not
      eval_expr (between_expr e low high is_not) =
          eval_between go (eval_expr e) (eval_expr low) (eval_expr high) is_not
      eval_expr (func_call_expr name args star distinct) =
          functions.call name (eval_list args) star distinct
      eval_expr (case_expr absent whens otherwise) =
          eval_case (λ cond. is_true go cond) whens (eval_maybe otherwise)
      eval_expr (case_expr (present e) whens otherwise) = eval_expr e >>= λ base.
          eval_case (λ cond. is_equal (compare go base cond)) whens (eval_maybe otherwise)
      eval_expr (cast_expr e type) = eval_expr e >>= functions.cast type
      eval_expr (exists_expr q is_not) = ok (integer 0)
      eval_expr (subquery_expr q) = ok Value.null
      eval_expr (row_value_expr no_exprs) = ok Value.null
      eval_expr (row_value_expr (one_expr e es)) = eval_expr e

      pub eval_maybe : MaybeExpr → Option Evaluated
      eval_maybe absent = none
      eval_maybe (present e) = some (eval_expr e)

      pub eval_list : Exprs → List Evaluated
      eval_list no_exprs = []
      eval_list (one_expr e es) = eval_expr e ∷ eval_list es

      -- The loop of `evalIn`.
      pub eval_in : Value → Exprs → Bool → Evaluated
      eval_in val no_exprs is_not = ok (truth_value is_not)
      eval_in val (one_expr e es) is_not = eval_expr e >>= λ item.
          if is_equal (compare go val item)
          then ok (truth_value (not is_not))
          else eval_in val es is_not

      -- The loop of `evalCase` and what stands behind it.
      pub eval_case : (Value → Bool) → Whens → Option Evaluated → Evaluated
      eval_case matches no_whens otherwise = elim otherwise [
        | some result ↦ result
        | none ↦ ok Value.null
      ]
      eval_case matches (when_clause cond then_ whens) otherwise = eval_expr cond >>= λ c.
          if matches c then eval_expr then_ else eval_case matches whens otherwise
