-- ===== src/Engine/Parser/Progress/Loops.antt =====
-- internal/engine/parser/parser.go: the loops of the parser keep within their fuel.
use sqlgo.Base.{ℕ, zero, suc, ◌≤◌, Bool, false, [], ◌≡◌, arith}
use sqlgo.Engine.Parser.Token.{Runes, Token, TokenType, token_eof, token_comma, token_rparen}
use sqlgo.Engine.Parser.Syntax.{Expr, binary_expr}
use sqlgo.Engine.Parser.Stream.{Parser}
use sqlgo.Engine.Parser.Grammar.Loops.{
  fueled, left_loop, binary_level, comma_loop, closed_loop, more_loop, argument_loop,
}
use sqlgo.Engine.Parser.Progress.{
  Takes, Keeps, Takes-then, Keeps-then, Keeps-of_Takes, Keeps-pure, Takes-expect,
}
use sqlgo.Engine.Parser.Progress.Branches.{
  Keeps-if_next, Keeps-if_at, Takes-le, Takes-zero, Keeps-zero, Takes-fueled, Keeps-fueled,
  Keeps-if_taken, Keeps-if_type_taken,
}

module _ {A : Type 0} (n : ℕ) (item : Parser A) (good : Takes n item) where
  comma_loop-Takes : (f : ℕ) → f ≤ n → Takes f (comma_loop item f)
  unfolding comma_loop
  comma_loop-Takes zero h = Takes-zero _
  comma_loop-Takes (suc f) h = Takes-then (Takes-le item h good) λ a.
      Keeps-if_next token_comma _ _
        (Keeps-then (Keeps-of_Takes (comma_loop-Takes f (omega arith))) λ more. Keeps-pure f _)
        (Keeps-pure f _)

  pub commas-Takes : Takes n (fueled (comma_loop item))
  commas-Takes = Takes-fueled n _ comma_loop-Takes

  argument_loop-Takes : (f : ℕ) → f ≤ n → Takes f (argument_loop item f)
  unfolding argument_loop
  argument_loop-Takes zero h = Takes-zero _
  argument_loop-Takes (suc f) h = Takes-then (Takes-le item h good) λ a.
      Keeps-if_next token_rparen _ _ (Keeps-pure f _) (
        Keeps-then (Keeps-of_Takes (Takes-expect f token_comma tt)) λ c.
          Keeps-then (Keeps-of_Takes (argument_loop-Takes f (omega arith))) λ more. Keeps-pure f _)

  pub arguments-Takes : Takes n (fueled (argument_loop item))
  arguments-Takes = Takes-fueled n _ argument_loop-Takes

  closed_loop-Keeps : (f : ℕ) → f ≤ n → Keeps f (closed_loop item f)
  unfolding closed_loop
  closed_loop-Keeps zero h = Keeps-zero _
  closed_loop-Keeps (suc f) h = Keeps-if_at token_rparen _ _ (Keeps-pure (suc f) []) (
      Keeps-if_at token_eof _ _ (Keeps-pure (suc f) []) (
        Keeps-of_Takes (
          Takes-then (Takes-le item h good) λ a.
            Keeps-if_next token_comma _ _
              (Keeps-then (closed_loop-Keeps f (omega arith)) λ more. Keeps-pure f _)
              (Keeps-pure f _))))

  pub closed-Keeps : Keeps n (fueled (closed_loop item))
  closed-Keeps = Keeps-fueled n _ closed_loop-Keeps

  more_loop-Keeps : (f : ℕ) → f ≤ n → Keeps f (more_loop item f)
  unfolding more_loop
  more_loop-Keeps zero h = Keeps-zero _
  more_loop-Keeps (suc f) h =
      Keeps-if_taken token_comma _ _ tt
        (Keeps-then (Keeps-of_Takes (Takes-le item (omega arith) good))
          λ a. Keeps-then (more_loop-Keeps f (omega arith)) λ more. Keeps-pure f _)
        (Keeps-pure (suc f) [])

  pub more-Keeps : Keeps n (fueled (more_loop item))
  more-Keeps = Keeps-fueled n _ more_loop-Keeps

module _ (n : ℕ) (test : TokenType → Bool) (op : Token → Runes) (sub : Parser Expr)
    (proper : test token_eof ≡ false) (good : Takes (suc n) sub) where
  left_loop-Keeps : (f : ℕ) → f ≤ suc n → (left : Expr) → Keeps f (left_loop test op sub f left)
  unfolding left_loop
  left_loop-Keeps zero h left = Keeps-zero _
  left_loop-Keeps (suc f) h left =
      Keeps-if_type_taken test _ _ proper
        (λ t.
          Keeps-then (Keeps-of_Takes (Takes-le sub (omega arith) good))
            λ right. left_loop-Keeps f (omega arith) (binary_expr (op t) left right))
        (Keeps-pure (suc f) left)

  pub binary_level-Takes : Takes (suc n) (binary_level test op sub)
  unfolding binary_level
  binary_level-Takes =
      Takes-then good λ left. Keeps-fueled n _ λ f h. left_loop-Keeps f (omega arith) left
