-- ===== src/Engine/Parser/Grammar/Primary.antt =====
-- internal/engine/parser/parser.go: `parsePrimaryExpr` with `parseFuncCall` and `parseCaseExpr`. A
-- `Grammar` holds the functions that are called behind a token that was taken; the parent module
-- closes the recursion.
use sqlgo.Base.{ℕ, zero, suc, Bool, true, false, [], ◌∷◌, ◌||◌}
use sqlgo.Engine.Parser.Token.{
  Runes, codes, TokenType, token_star, token_number, token_string, token_ident, token_dot,
  token_lparen, token_rparen, token_comma, kw_not, kw_null, kw_true, kw_false, kw_select, kw_case,
  kw_when, kw_then, kw_else, kw_end, kw_cast, kw_as, kw_exists, kw_distinct, kw_count, kw_sum,
  kw_avg, kw_min, kw_max, kw_replace, kw_ignore, kw_rowid,
}
use sqlgo.Engine.Parser.Iota.{same_type}
use sqlgo.Engine.Parser.Syntax.{
  null, int, string, Expr, Whens, SelectStmt, literal_expr, ident_expr, star_expr, unary_expr,
  func_call_expr, case_expr, cast_expr, exists_expr, subquery_expr, row_value_expr, no_exprs,
  absent, present, no_whens, when_clause, exprs_of,
}
use sqlgo.Engine.Parser.Stream.{
  out_of_fuel, Parser, ◌>>=◌, ◌>>◌, pure, fail, next_token_of, expect, if_next, if_at, if_type,
  flag, refuse, returned, expect_ident,
}
use sqlgo.Engine.Parser.Grammar.Loops.{fueled, more_loop, argument_loop}
use sqlgo.Engine.Parser.Grammar.Number.{number_literal}
use sqlgo.Engine.Parser.Grammar.Types.{parse_type_name}

pub record Grammar : Type 0 where
  pub expr : Parser Expr
  pub comparison : Parser Expr
  pub primary : Parser Expr
  pub select : Parser SelectStmt

unfoldable pub is_ident_like : TokenType → Bool
is_ident_like t =
    same_type t kw_count
    || same_type t kw_sum
    || same_type t kw_avg
    || same_type t kw_min
    || same_type t kw_max
    || same_type t kw_replace
    || same_type t kw_ignore
    || same_type t kw_rowid

module _ (self : Grammar) where
  -- `parseFuncCall`, behind the parenthesis.
  unfoldable pub parse_func_call : Runes → Parser Expr
  parse_func_call name = if_next token_rparen (pure (func_call_expr name no_exprs false false)) (
      if_next token_star (do expect token_rparen; pure (func_call_expr name no_exprs false true))
        (do
          distinct ← flag kw_distinct
          args ← fueled (argument_loop self.expr)
          pure (func_call_expr name (exprs_of args) distinct false)))

  -- A name, with the column or the call behind it.
  unfoldable pub named : Parser Expr
  named = do
    t ← next_token_of
    if_next token_dot (do field ← expect_ident; pure (ident_expr t.value field))
        (if_next token_lparen (parse_func_call t.value) (pure (ident_expr [] t.value)))

  unfoldable pub whens_loop : ℕ → Parser Whens
  whens_loop zero = fail out_of_fuel
  whens_loop (suc f) =
      if_next kw_when
        (do
          cond ← self.expr
          expect kw_then
          then_expr ← self.expr
          more ← whens_loop f
          pure (when_clause cond then_expr more))
        (pure no_whens)

  -- `parseCaseExpr`, behind `CASE`.
  unfoldable pub parse_case_expr : Parser Expr
  parse_case_expr = do
    base ← if_at kw_when (pure absent) (do e ← self.expr; pure (present e))
    whens ← fueled whens_loop
    other ← if_next kw_else (do e ← self.expr; pure (present e)) (pure absent)
    expect kw_end
    pure (case_expr base whens other)

  -- A parenthesis: a query, a row of values, or an expression.
  unfoldable pub parenthesis : Parser Expr
  parenthesis =
      if_at kw_select (do query ← self.select; expect token_rparen; pure (subquery_expr query))
        (do
          e ← self.expr
          if_at token_comma
              (do
                more ← fueled (more_loop self.expr)
                expect token_rparen
                pure (row_value_expr (exprs_of (e ∷ more))))
              (do expect token_rparen; pure e))

  unfoldable pub exists_query : Bool → Parser Expr
  exists_query is_not = do
    expect token_lparen
    query ← self.select
    expect token_rparen
    pure (exists_expr query is_not)

module _ (to_upper : ℕ → ℕ) (is_float : Runes → Bool) (self : Grammar) where
  unfoldable pub cast_expression : Parser Expr
  cast_expression = do
    expect token_lparen
    e ← self.expr
    expect kw_as
    type_name ← parse_type_name to_upper
    expect token_rparen
    pure (cast_expr e type_name)

  unfoldable pub number_expr : Parser Expr
  number_expr = do
    t ← next_token_of
    v ← returned (number_literal is_float t.value)
    pure (literal_expr v)

  unfoldable pub parse_primary_expr : Parser Expr
  parse_primary_expr = if_at token_number number_expr (
      if_at token_string (do t ← next_token_of; pure (literal_expr (string t.value)))
        (if_next kw_null (pure (literal_expr null)) (
          if_next kw_true (pure (literal_expr (int 1))) (
            if_next kw_false (pure (literal_expr (int 0))) (
              if_next token_lparen (parenthesis self) (
                if_next kw_case (parse_case_expr self) (
                  if_next kw_cast cast_expression (
                    if_next kw_exists (exists_query self false) (
                      if_next kw_not
                        (if_next kw_exists (exists_query self true)
                          (do e ← self.primary; pure (unary_expr (codes "NOT") e)))
                        (if_next token_star (pure star_expr) (
                          if_at token_ident (named self)
                            (if_type is_ident_like (named self) refuse))))))))))))
