-- ===== src/Engine/Parser/Precedence/Operands.antt =====
-- internal/engine/parser/parser.go: a plain name is an operand of every operator.
use sqlgo.Base.{ℕ, suc, ◌+◌, Bool, true, false, [], ◌∷◌, ◌≡◌, refl, ap, ◌∙◌, arith, length, ok}
use sqlgo.Engine.Parser.Token
use sqlgo.Engine.Parser.Token.{Runes, Token, TokenType}
use sqlgo.Engine.Parser.Iota.{index, same_type}
use sqlgo.Engine.Parser.Syntax.{Expr, ident_expr}
use sqlgo.Engine.Parser.Stream.{
  Tokens, and_then, peek, starts, advance_tokens, next_token_of, if_next, if_at,
}
use sqlgo.Engine.Parser.Grammar.Primary.{Grammar, parse_primary_expr, named}
use sqlgo.Engine.Parser.Grammar.Levels.{parse_unary, parse_postfix, postfix_loop}
use sqlgo.Engine.Parser.Precedence.{IsOperand}
use sqlgo.Engine.Parser.Precedence.Operators.{follows_operand}

-- The name `v` as a token at `p`.
abbrev pub name_token : Runes → Token.Place → Token
name_token v p = record { type = Token.token_ident; value = v; place = p }

not_ahead :
    (rest : Tokens)
    → follows_operand (peek rest).type ≡ true
    → (starts Token.kw_is rest ≡ false)
      × (starts Token.token_dot rest ≡ false)
      × (starts Token.token_lparen rest ≡ false)
unfolding starts
not_ahead rest f = (ground arith, ground arith, ground arith)

module _ (to_upper : ℕ → ℕ) (is_float : Runes → Bool) (self : Grammar) where
  parse_primary_expr-name :
      (v : Runes) (p : Token.Place) (rest : Tokens)
      → starts Token.token_dot rest ≡ false
      → starts Token.token_lparen rest ≡ false
      → parse_primary_expr to_upper is_float self (name_token v p ∷ rest)
        ≡ ok (ident_expr [] v, rest)
  unfolding parse_primary_expr named next_token_of advance_tokens if_next if_at same_type index
      starts
  parse_primary_expr-name v p rest d l = rw (d, if_next) (rw (l, if_next) refl)

  postfix_loop-stops :
      (f : ℕ) (e : Expr) (rest : Tokens)
      → starts Token.kw_is rest ≡ false
      → postfix_loop to_upper is_float self (suc f) e rest ≡ ok (e, rest)
  unfolding postfix_loop if_next
  postfix_loop-stops f e rest i = rw (i, if_next) refl

  -- A plain name is an operand.
  pub name-IsOperand :
      (n : ℕ) (v : Runes) (p : Token.Place)
      → IsOperand n follows_operand
          (parse_unary to_upper is_float self)
          (ident_expr [] v)
          (name_token v p ∷ [])
  unfolding parse_unary parse_postfix if_next starts same_type index
  name-IsOperand n v p rest f b =
      let one : length rest + 1 ≡ suc (length rest) = omega arith in
      ap (λ r. and_then r λ e more. postfix_loop to_upper is_float self (length more + 1) e more)
        (parse_primary_expr-name v p rest (not_ahead rest f).1 (not_ahead rest f).2)
      ∙ (ap (λ (k : ℕ). postfix_loop to_upper is_float self k (ident_expr [] v) rest) one
          ∙ postfix_loop-stops (length rest) (ident_expr [] v) rest (not_ahead rest f).0)
