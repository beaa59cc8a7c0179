-- ===== src/Engine/Parser/Progress/Expr.antt =====
-- internal/engine/parser/parser.go: the levels of operators up to `parseOr` take a token and keep
-- within their fuel.
use sqlgo.Base.{ℕ, zero, suc, ◌≤◌, Bool, refl, arith}
use sqlgo.Engine.Parser.Token
use sqlgo.Engine.Parser.Token.{Runes, Token, TokenType}
use sqlgo.Engine.Parser.Iota.{index, same_type}
use sqlgo.Engine.Parser.Syntax
use sqlgo.Engine.Parser.Syntax.{Expr}
use sqlgo.Engine.Parser.Grammar.Primary.{Grammar}
use sqlgo.Engine.Parser.Grammar.Levels
use sqlgo.Engine.Parser.Grammar.Comparison
use sqlgo.Engine.Parser.Grammar.Comparison.{Outcome, go_on, stop_with}
use sqlgo.Engine.Parser.Progress.{
  Takes, Keeps, Takes-then, Keeps-then, Keeps-of_Takes, Keeps-pure, Takes-expect, Takes-suc,
  Keeps-next_token_of,
}
use sqlgo.Engine.Parser.Progress.Branches.{
  Keeps-if_next, Keeps-if_at, Keeps-if_type, Takes-if_next, Takes-le, Keeps-zero, Keeps-fueled,
  Keeps-flag, Keeps-if_taken,
}
use sqlgo.Engine.Parser.Progress.Loops.{closed-Keeps, binary_level-Takes}
use sqlgo.Engine.Parser.Progress.Primary.{IsGood, parse_primary_expr-Takes}

module _ (to_upper : ℕ → ℕ) (is_float : Runes → Bool) (n : ℕ) (self : Grammar)
    (good : IsGood n self) where
  postfix_loop-Keeps :
      (f : ℕ) → f ≤ suc n → (e : Expr) → Keeps f (Levels.postfix_loop to_upper is_float self f e)
  unfolding Levels.postfix_loop
  postfix_loop-Keeps zero h e = Keeps-zero _
  postfix_loop-Keeps (suc f) h e =
      let primary = parse_primary_expr-Takes to_upper is_float n self good in
      Keeps-if_taken Token.kw_is _ _ tt
        (Keeps-then (Keeps-flag f Token.kw_not) λ is_not.
          Keeps-if_next Token.kw_null _ _
            (postfix_loop-Keeps f (omega arith) (Syntax.is_null_expr e is_not))
            (Keeps-then (Keeps-of_Takes (Takes-le _ (omega arith) primary)) λ right.
              postfix_loop-Keeps f (omega arith)
                (Syntax.binary_expr (Levels.equals is_not) e right)))
        (Keeps-pure (suc f) e)

  parse_postfix-Takes : Takes (suc n) (Levels.parse_postfix to_upper is_float self)
  unfolding Levels.parse_postfix
  parse_postfix-Takes =
      Takes-then (parse_primary_expr-Takes to_upper is_float n self good)
        λ e. Keeps-fueled n _ λ f h. postfix_loop-Keeps f (omega arith) e

  pub parse_unary-Takes : Takes (suc n) (Levels.parse_unary to_upper is_float self)
  unfolding Levels.parse_unary
  parse_unary-Takes =
      let operand = Keeps-of_Takes (Takes-suc parse_postfix-Takes) in
      Takes-if_next Token.token_minus _ _ tt (Keeps-then operand λ e. Keeps-pure n _) (
        Takes-if_next Token.token_plus _ _ tt operand (
          Takes-if_next Token.token_tilde _ _ tt (Keeps-then operand λ e. Keeps-pure n _)
            parse_postfix-Takes))

  pub parse_concat-Takes : Takes (suc n) (Levels.parse_concat to_upper is_float self)
  unfolding Levels.parse_concat Levels.parse_bit_or Levels.parse_bit_and Levels.parse_bit_shift
      Levels.parse_add_sub Levels.parse_mul_div index same_type
  parse_concat-Takes = binary_level-Takes n _ _ _ refl (
      binary_level-Takes n _ _ _ refl (
        binary_level-Takes n _ _ _ refl (
          binary_level-Takes n _ _ _ refl
            (binary_level-Takes n _ _ _ refl (binary_level-Takes n _ _ _ refl parse_unary-Takes)))))

  -- An operand behind a token.
  pub operand : Keeps n (Levels.parse_concat to_upper is_float self)
  operand = Keeps-of_Takes (Takes-suc parse_concat-Takes)

  pub is_tail-Keeps : (left : Expr) → Keeps n (Comparison.is_tail to_upper is_float self left)
  unfolding Comparison.is_tail
  is_tail-Keeps left = Keeps-then (Keeps-flag n Token.kw_not) λ is_not.
      Keeps-if_next Token.kw_null _ _ (Keeps-pure n _) (
        Keeps-if_type _ _ _ (Keeps-then (Keeps-next_token_of n) λ t. Keeps-pure n _)
          (Keeps-then operand λ right. Keeps-pure n _))

  pub in_tail-Keeps :
      (left : Expr) (is_not : Bool)
      → Keeps n (Comparison.in_tail to_upper is_float self left is_not)
  unfolding Comparison.in_tail
  in_tail-Keeps left is_not =
      let close = Keeps-of_Takes (Takes-expect n Token.token_rparen tt) in
      Keeps-then (Keeps-of_Takes (Takes-expect n Token.token_lparen tt)) λ t.
        Keeps-if_at Token.kw_select _ _
          (Keeps-then (Keeps-of_Takes good.select) λ query. Keeps-then close λ c. Keeps-pure n _)
          (Keeps-then (closed-Keeps n self.expr good.expr)
            λ items. Keeps-then close λ c. Keeps-pure n _)

  pub like_tail-Keeps :
      (left : Expr) (is_not : Bool)
      → Keeps n (Comparison.like_tail to_upper is_float self left is_not)
  unfolding Comparison.like_tail
  like_tail-Keeps left is_not = Keeps-then operand λ pattern_expr.
      Keeps-then
        (Keeps-if_next Comparison.kw_escape _ _ (Keeps-then operand λ e. Keeps-pure n _)
          (Keeps-pure n _))
        λ escape. Keeps-pure n _

  pub glob_tail-Keeps :
      (left : Expr) (is_not : Bool)
      → Keeps n (Comparison.glob_tail to_upper is_float self left is_not)
  unfolding Comparison.glob_tail
  glob_tail-Keeps left is_not = Keeps-then operand λ pattern_expr. Keeps-pure n _

  pub between_tail-Keeps :
      (left : Expr) (is_not : Bool)
      → Keeps n (Comparison.between_tail to_upper is_float self left is_not)
  unfolding Comparison.between_tail
  between_tail-Keeps left is_not = Keeps-then operand λ low.
      Keeps-then (Keeps-of_Takes (Takes-expect n Token.kw_and tt))
        λ t. Keeps-then operand λ high. Keeps-pure n _

  pub not_tail-Keeps : (left : Expr) → Keeps n (Comparison.not_tail to_upper is_float self left)
  unfolding Comparison.not_tail
  not_tail-Keeps left = Keeps-if_next Token.kw_in _ _ (in_tail-Keeps left _) (
      Keeps-if_next Token.kw_like _ _ (like_tail-Keeps left _) (
        Keeps-if_next Token.kw_glob _ _ (glob_tail-Keeps left _) (
          Keeps-if_next Token.kw_between _ _ (between_tail-Keeps left _)
            (Keeps-then (Keeps-of_Takes good.comparison) λ e. Keeps-pure n _))))
