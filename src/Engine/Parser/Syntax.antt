-- ===== src/Engine/Parser/Syntax.antt =====
-- internal/engine/parser/abstract.go: expressions and queries. A list, or a pointer that may be
-- nil, of a type of the block is a type of the block too.
use sqlgo.Base.{ℕ, Bool, List, [], ◌∷◌}
use sqlgo.Engine.Parser.Token.{Runes}

-- The value of a `LiteralExpr`. A float is kept as the text that it is read from.
pub data Literal : Type 0 where
  null : Literal
  int : ℕ → Literal
  float : Runes → Literal
  string : Runes → Literal

pub record TableRef : Type 0 where
  pub name : Runes
  pub alias : Runes

-- `OrderByExpr.Nulls`.
pub data Nulls : Type 0 where
  unsaid nulls_first nulls_last : Nulls

mutual
  pub data Expr : Type 0 where
    literal_expr : Literal → Expr
    ident_expr : Runes → Runes → Expr
    star_expr : Expr
    binary_expr : Runes → Expr → Expr → Expr
    unary_expr : Runes → Expr → Expr
    func_call_expr : Runes → Exprs → Bool → Bool → Expr
    is_null_expr : Expr → Bool → Expr
    in_list_expr : Expr → Exprs → Bool → Expr
    in_query_expr : Expr → SelectStmt → Bool → Expr
    like_expr : Expr → Expr → MaybeExpr → Bool → Expr
    glob_expr : Expr → Expr → Bool → Expr
    between_expr : Expr → Expr → Expr → Bool → Expr
    case_expr : MaybeExpr → Whens → MaybeExpr → Expr
    cast_expr : Expr → Runes → Expr
    exists_expr : SelectStmt → Bool → Expr
    subquery_expr : SelectStmt → Expr
    row_value_expr : Exprs → Expr

  pub data Exprs : Type 0 where
    no_exprs : Exprs
    one_expr : Expr → Exprs → Exprs

  pub data MaybeExpr : Type 0 where
    absent : MaybeExpr
    present : Expr → MaybeExpr

  pub data Whens : Type 0 where
    no_whens : Whens
    when_clause : Expr → Expr → Whens → Whens

  -- `SelectColumn`: a star, or an expression with its alias.
  pub data Columns : Type 0 where
    no_columns : Columns
    star_column : Columns → Columns
    expr_column : Expr → Runes → Columns → Columns

  -- `JoinClause`: its type, table, condition and `USING` names.
  pub data Joins : Type 0 where
    no_joins : Joins
    join_clause : Runes → TableRef → MaybeExpr → List Runes → Joins → Joins

  -- `OrderByExpr`: its expression, whether `DESC`, and `NULLS`.
  pub data Orders : Type 0 where
    no_orders : Orders
    order_by_expr : Expr → Bool → Nulls → Orders → Orders

  -- `*CompoundClause`: its operator, whether `ALL`, and the query on its right.
  pub data Compound : Type 0 where
    no_compound : Compound
    compound_clause : Runes → Bool → SelectStmt → Compound

  -- The fields of `SelectStmt` in their order, up to `Compound`: Distinct, Columns, From, Joins,
  -- Where, GroupBy, Having, OrderBy, Limit, Offset. `With` is set by `parseWith` alone.
  pub data SelectStmt : Type 0 where
    select_stmt :
        Bool
        → Columns
        → List TableRef
        → Joins
        → MaybeExpr
        → Exprs
        → MaybeExpr
        → Orders
        → MaybeExpr
        → MaybeExpr
        → Compound
        → SelectStmt

abbrev pub exprs_of : List Expr → Exprs
exprs_of [] = no_exprs
exprs_of (e ∷ es) = one_expr e (exprs_of es)
