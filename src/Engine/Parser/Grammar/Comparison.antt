-- ===== src/Engine/Parser/Grammar/Comparison.antt =====
-- internal/engine/parser/parser.go: `parseComparison`, `parseNot`, `parseAnd`, `parseOr`.
use sqlgo.Base.{ℕ, zero, suc, Bool, true, false, ◌||◌, if◌then◌else◌}
use sqlgo.Engine.Parser.Token.{
  Runes, codes, Token, TokenType, token_eq, token_neq, token_lt, token_lte, token_gt, token_gte,
  token_lparen, token_rparen, kw_or, kw_and, kw_not, kw_is, kw_null, kw_true, kw_false, kw_in,
  kw_like, kw_glob, kw_between, kw_match, kw_select,
}
use sqlgo.Engine.Parser.Iota.{same_type}
use sqlgo.Engine.Parser.Syntax.{
  int, Expr, literal_expr, binary_expr, unary_expr, is_null_expr, in_list_expr, in_query_expr,
  like_expr, glob_expr, between_expr, absent, present, exprs_of,
}
use sqlgo.Engine.Parser.Stream.{
  out_of_fuel, Parser, ◌>>=◌, ◌>>◌, pure, next_token_of, expect, if_next, if_at, if_type, flag,
  fail,
}
use sqlgo.Engine.Parser.Grammar.Loops.{fueled, binary_level, closed_loop}
use sqlgo.Engine.Parser.Grammar.Types.{says}
use sqlgo.Engine.Parser.Grammar.Primary.{Grammar}
use sqlgo.Engine.Parser.Grammar.Levels.{parse_concat, equals}

-- What a round of the loop of `parseComparison` does: go on with an operand, or return.
pub data Outcome : Type 0 where
  go_on stop_with : Expr → Outcome

abbrev pub is_comparison : TokenType → Bool
is_comparison t =
    same_type t token_eq
    || same_type t token_neq
    || same_type t token_lt
    || same_type t token_lte
    || same_type t token_gt
    || same_type t token_gte

abbrev pub kw_escape : TokenType
kw_escape = kw_match

-- Goes on with an operand, or returns.
abbrev pub continue_with : (Expr → Parser Expr) → Outcome → Parser Expr
continue_with loop (go_on e) = loop e
continue_with loop (stop_with e) = pure e

module _ (to_upper : ℕ → ℕ) (is_float : Runes → Bool) (self : Grammar) where
  abbrev pub concat : Parser Expr
  concat = parse_concat to_upper is_float self

  -- The cases `=`, `<` and their like.
  unfoldable pub operator_tail : Expr → Parser Outcome
  operator_tail left = do
    t ← next_token_of
    right ← concat
    pure (go_on (binary_expr t.value left right))

  -- `TRUE` or `FALSE` behind `IS`.
  unfoldable pub truth_literal : Token → Expr
  truth_literal t = literal_expr (int (if says to_upper (codes "TRUE") t then 1 else 0))

  unfoldable pub is_tail : Expr → Parser Outcome
  is_tail left = do
    is_not ← flag kw_not
    if_next kw_null (pure (go_on (is_null_expr left is_not))) (
        if_type (λ t. same_type t kw_true || same_type t kw_false)
          (do t ← next_token_of; pure (go_on (binary_expr (equals is_not) left (truth_literal t))))
          (do right ← concat; pure (go_on (binary_expr (equals is_not) left right))))

  unfoldable pub in_tail : Expr → Bool → Parser Outcome
  in_tail left is_not = do
    expect token_lparen
    if_at kw_select
        (do
          query ← self.select
          expect token_rparen
          pure (go_on (in_query_expr left query is_not)))
        (do
          items ← fueled (closed_loop self.expr)
          expect token_rparen
          pure (go_on (in_list_expr left (exprs_of items) is_not)))

  unfoldable pub like_tail : Expr → Bool → Parser Outcome
  like_tail left is_not = do
    pattern_expr ← concat
    escape ← if_next kw_escape (do e ← concat; pure (present e)) (pure absent)
    pure (go_on (like_expr left pattern_expr escape is_not))

  unfoldable pub glob_tail : Expr → Bool → Parser Outcome
  glob_tail left is_not = do
    pattern_expr ← concat
    pure (go_on (glob_expr left pattern_expr is_not))

  unfoldable pub between_tail : Expr → Bool → Parser Outcome
  between_tail left is_not = do
    low ← concat
    expect kw_and
    high ← concat
    pure (go_on (between_expr left low high is_not))

  -- The cases behind `NOT`; the last returns from `parseComparison`.
  unfoldable pub not_tail : Expr → Parser Outcome
  not_tail left = if_next kw_in (in_tail left true) (
      if_next kw_like (like_tail left true) (
        if_next kw_glob (glob_tail left true) (
          if_next kw_between (between_tail left true) (do
            e ← self.comparison
            pure (stop_with (binary_expr (codes "AND") left (unary_expr (codes "NOT") e)))))))

  -- The `switch` of the loop.
  unfoldable pub comparison_round : Expr → Parser Outcome
  comparison_round left = if_type is_comparison (operator_tail left) (
      if_next kw_is (is_tail left) (
        if_next kw_in (in_tail left false) (
          if_next kw_not (not_tail left) (
            if_next kw_like (like_tail left false) (
              if_next kw_glob (glob_tail left false)
                (if_next kw_between (between_tail left false) (pure (stop_with left))))))))

  unfoldable pub comparison_loop : ℕ → Expr → Parser Expr
  comparison_loop zero left = fail out_of_fuel
  comparison_loop (suc f) left = do
    outcome ← comparison_round left
    continue_with (comparison_loop f) outcome

  unfoldable pub parse_comparison : Parser Expr
  parse_comparison = do left ← concat; fueled (λ f. comparison_loop f left)

  unfoldable pub parse_not : Parser Expr
  parse_not =
      if_next kw_not (do e ← parse_comparison; pure (unary_expr (codes "NOT") e)) parse_comparison

  unfoldable pub parse_and : Parser Expr
  parse_and = binary_level (λ t. same_type t kw_and) (λ _. codes "AND") parse_not

  unfoldable pub parse_or : Parser Expr
  parse_or = binary_level (λ t. same_type t kw_or) (λ _. codes "OR") parse_and
