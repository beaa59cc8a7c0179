-- ===== src/Engine/Parser/Grammar/Query.antt =====
-- internal/engine/parser/parser.go: `parseSelect` with its columns, tables and joins.
use sqlgo.Base.{ℕ, zero, suc, Bool, true, false, List, [], ◌∷◌, ◌||◌}
use sqlgo.Engine.Parser.Token.{
  Runes, codes, TokenType, token_ident, token_star, token_comma, token_lparen, kw_distinct, kw_all,
  kw_from, kw_as, kw_where, kw_group, kw_by, kw_having, kw_union, kw_intersect, kw_except, kw_order,
  kw_desc, kw_asc, kw_nulls, kw_first, kw_last, kw_limit, kw_offset, kw_inner, kw_left, kw_right,
  kw_full, kw_outer, kw_cross, kw_natural, kw_join, kw_on, kw_using,
}
use sqlgo.Engine.Parser.Iota.{same_type}
use sqlgo.Engine.Parser.Syntax.{
  TableRef, Nulls, unsaid, nulls_first, nulls_last, Expr, MaybeExpr, absent, present, Exprs,
  exprs_of, no_exprs, Columns, no_columns, star_column, expr_column, Joins, no_joins, join_clause,
  Orders, no_orders, order_by_expr, Compound, no_compound, compound_clause, SelectStmt, select_stmt,
}
use sqlgo.Engine.Parser.Stream.{
  out_of_fuel, Parser, ◌>>=◌, ◌>>◌, pure, next_token_of, expect, expect_ident, if_next, if_at,
  if_type, flag, refuse, fail,
}
use sqlgo.Engine.Parser.Grammar.Loops.{fueled, comma_loop, argument_loop}

-- The alias of a column or a table; the empty name where there is none.
unfoldable pub parse_alias : Parser Runes
parse_alias =
    if_next kw_as expect_ident (if_at token_ident (do t ← next_token_of; pure t.value) (pure []))

-- `JOIN` behind the join type `name`.
unfoldable pub join_word : Runes → Parser Runes
join_word name = if_next kw_join (pure name) refuse

unfoldable pub outer_join_word : Runes → Parser Runes
outer_join_word name = do flag kw_outer; join_word name

unfoldable pub parse_table_ref : Parser TableRef
parse_table_ref = do
  table_name ← expect_ident
  table_alias ← parse_alias
  pure (record { name = table_name; alias = table_alias })

-- The loop of `parseTableRefs`; the `switch` on the token behind a comma does nothing.
unfoldable pub table_refs_loop : ℕ → Parser (List TableRef)
table_refs_loop zero = fail out_of_fuel
table_refs_loop (suc f) = if_at token_lparen (pure []) (do
  ref ← parse_table_ref
  if_next token_comma (do refs ← table_refs_loop f; pure (ref ∷ refs)) (pure (ref ∷ [])))

unfoldable pub parse_nulls : Parser Nulls
parse_nulls =
    if_next kw_nulls
      (if_next kw_first (pure nulls_first) (if_next kw_last (pure nulls_last) (pure unsaid)))
      (pure unsaid)

unfoldable pub descending : Parser Bool
descending = if_next kw_desc (pure true) (do flag kw_asc; pure false)

-- `UNION`, `INTERSECT` or `EXCEPT` with the query behind it.
unfoldable pub compound_clause_of : Parser SelectStmt → Parser Compound
compound_clause_of select =
    if_type (λ t. same_type t kw_union || same_type t kw_intersect || same_type t kw_except)
      (do
        op ← next_token_of
        all ← flag kw_all
        right ← select
        pure (compound_clause op.value all right))
      (pure no_compound)

module _ (parse_expr : Parser Expr) where
  unfoldable pub columns_loop : ℕ → Parser Columns
  columns_loop zero = fail out_of_fuel
  columns_loop (suc f) =
      if_next token_star
        (if_next token_comma (do more ← columns_loop f; pure (star_column more))
          (pure (star_column no_columns)))
        (do
          e ← parse_expr
          alias ← parse_alias
          if_next token_comma (do more ← columns_loop f; pure (expr_column e alias more))
              (pure (expr_column e alias no_columns)))

  -- The condition or the columns of a join.
  unfoldable pub join_condition : Parser (MaybeExpr × List Runes)
  join_condition =
      if_next kw_on (do e ← parse_expr; pure (present e, []))
        (if_next kw_using
          (do
            expect token_lparen
            names ← fueled (argument_loop expect_ident)
            pure (absent, names))
          (pure (absent, [])))

  -- The rest of a join of type `name`, behind `JOIN`.
  unfoldable pub join_rest : Runes → Parser Joins → Parser Joins
  join_rest name others = do
    table ← parse_table_ref
    condition ← join_condition
    more ← others
    pure (join_clause name table condition.0 condition.1 more)

  unfoldable pub joins_loop : ℕ → Parser Joins
  joins_loop zero = fail out_of_fuel
  joins_loop (suc f) =
      (if_next kw_inner (do name ← join_word (codes "INNER"); join_rest name (joins_loop f))
        (if_next kw_left (do name ← outer_join_word (codes "LEFT"); join_rest name (joins_loop f))
          (if_next kw_right
            (do name ← outer_join_word (codes "RIGHT"); join_rest name (joins_loop f))
            (if_next kw_full
              (do name ← outer_join_word (codes "FULL"); join_rest name (joins_loop f))
              (if_next kw_cross (do name ← join_word (codes "CROSS"); join_rest name (joins_loop f))
                (if_next kw_natural
                  (do name ← join_word (codes "NATURAL"); join_rest name (joins_loop f))
                  (if_at kw_join
                    (do name ← join_word (codes "INNER"); join_rest name (joins_loop f))
                    (pure no_joins))))))))

  unfoldable pub orders_loop : ℕ → Parser Orders
  orders_loop zero = fail out_of_fuel
  orders_loop (suc f) = (do
    e ← parse_expr
    desc ← descending
    nulls ← parse_nulls
    if_next token_comma (do more ← orders_loop f; pure (order_by_expr e desc nulls more))
        (pure (order_by_expr e desc nulls no_orders)))

  -- An optional clause of one expression.
  unfoldable pub clause : TokenType → Parser MaybeExpr
  clause t = if_next t (do e ← parse_expr; pure (present e)) (pure absent)

  unfoldable pub from_clause : Parser (List TableRef × Joins)
  from_clause =
      if_next kw_from
        (do refs ← fueled table_refs_loop; joins ← fueled joins_loop; pure (refs, joins))
        (pure ([], no_joins))

  unfoldable pub group_clause : Parser Exprs
  group_clause =
      if_next kw_group (do expect kw_by; es ← fueled (comma_loop parse_expr); pure (exprs_of es))
        (pure no_exprs)

  unfoldable pub order_clause : Parser Orders
  order_clause = if_next kw_order (do expect kw_by; fueled orders_loop) (pure no_orders)

  unfoldable pub parse_select : Parser SelectStmt → Parser SelectStmt
  parse_select select = do
    next_token_of
    distinct ← if_next kw_distinct (pure true) (do flag kw_all; pure false)
    columns ← fueled columns_loop
    from ← from_clause
    where_expr ← clause kw_where
    group_by ← group_clause
    having ← clause kw_having
    compound ← compound_clause_of select
    order_by ← order_clause
    limit ← clause kw_limit
    offset ← clause kw_offset
    pure (
        select_stmt distinct columns from.0 from.1 where_expr group_by having order_by limit offset
          compound)
