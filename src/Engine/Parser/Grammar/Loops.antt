-- ===== src/Engine/Parser/Grammar/Loops.antt =====
-- internal/engine/parser/parser.go: the forms of loops that its functions have. A loop runs on fuel,
-- of which it gets one more than there are tokens.
use sqlgo.Base.{ℕ, zero, suc, ◌+◌, Bool, List, [], ◌∷◌, length}
use sqlgo.Engine.Parser.Token.{Runes, Token, TokenType, token_comma, token_rparen, token_eof}
use sqlgo.Engine.Parser.Syntax.{Expr, binary_expr}
use sqlgo.Engine.Parser.Stream.{
  Parser, out_of_fuel, ◌>>=◌, ◌>>◌, pure, next_token_of, expect, if_next, if_at, if_type, fail,
}

abbrev pub fueled : {A : Type 0} → (ℕ → Parser A) → Parser A
fueled loop ts = loop (length ts + 1) ts

-- `for test(p.peek().Type) { op := p.advance(); right := sub(); left = &BinaryExpr{…} }`
unfoldable pub left_loop :
    (TokenType → Bool) → (Token → Runes) → Parser Expr → ℕ → Expr → Parser Expr
left_loop test op sub zero left = fail out_of_fuel
left_loop test op sub (suc f) left =
    if_type test
      (do t ← next_token_of; right ← sub; left_loop test op sub f (binary_expr (op t) left right))
      (pure left)

-- A level of binary operators that group to the left.
unfoldable pub binary_level : (TokenType → Bool) → (Token → Runes) → Parser Expr → Parser Expr
binary_level test op sub = do left ← sub; fueled (λ f. left_loop test op sub f left)

module _ {A : Type 0} (item : Parser A) where
  -- `for { item(); if p.peek().Type != TOKEN_COMMA { break }; p.advance() }`
  unfoldable pub comma_loop : ℕ → Parser (List A)
  comma_loop zero = fail out_of_fuel
  comma_loop (suc f) = do
    a ← item
    if_next token_comma (do more ← comma_loop f; pure (a ∷ more)) (pure (a ∷ []))

  -- The same, where each round asks first for a parenthesis or the end.
  unfoldable pub closed_loop : ℕ → Parser (List A)
  closed_loop zero = fail out_of_fuel
  closed_loop (suc f) = if_at token_rparen (pure []) (
      if_at token_eof (pure []) (do
        a ← item
        if_next token_comma (do more ← closed_loop f; pure (a ∷ more)) (pure (a ∷ []))))

  -- `for p.peek().Type == TOKEN_COMMA { p.advance(); item() }`
  unfoldable pub more_loop : ℕ → Parser (List A)
  more_loop zero = fail out_of_fuel
  more_loop (suc f) =
      if_next token_comma (do a ← item; more ← more_loop f; pure (a ∷ more)) (pure [])

  -- `for { item(); if p.peek().Type == TOKEN_RPAREN { p.advance(); break }; p.expect(TOKEN_COMMA) }`
  unfoldable pub argument_loop : ℕ → Parser (List A)
  argument_loop zero = fail out_of_fuel
  argument_loop (suc f) = do
    a ← item
    if_next token_rparen (pure (a ∷ []))
        (do expect token_comma; more ← argument_loop f; pure (a ∷ more))
