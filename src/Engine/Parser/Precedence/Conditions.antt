-- ===== src/Engine/Parser/Precedence/Conditions.antt =====
-- internal/engine/parser/parser.go: an expression of the arithmetic levels is an operand of `AND` and
-- `OR`.
use sqlgo.Base.{ℕ, suc, ◌+◌, Bool, true, false, ◌++◌, ◌≡◌, refl, ap, ◌∙◌, arith, ◌==◌, length, ok}
use sqlgo.Engine.Parser.Token
use sqlgo.Engine.Parser.Token.{Runes, Token, TokenType}
use sqlgo.Engine.Parser.Iota.{index, same_type}
use sqlgo.Engine.Parser.Syntax.{Expr}
use sqlgo.Engine.Parser.Stream.{Tokens, and_then, peek, starts, if_next, if_type}
use sqlgo.Engine.Parser.Grammar.{grammar}
use sqlgo.Engine.Parser.Grammar.Primary.{Grammar}
use sqlgo.Engine.Parser.Grammar.Levels.{parse_unary}
use sqlgo.Engine.Parser.Grammar.Comparison.{
  is_comparison, comparison_round, comparison_loop, parse_comparison, parse_not,
}
use sqlgo.Engine.Parser.Precedence.{IsOperand, Derives, Closed}
use sqlgo.Engine.Parser.Precedence.Operators.{
  arithmetic, follows_operand, follows_condition, operator_numbers, fence_numbers,
  parse_concat-Derives,
}

condition_numbers :
    (t : TokenType)
    → (same_type t Token.kw_or ≡ (index t == 51))
      × (same_type t Token.kw_and ≡ (index t == 50))
      × (same_type t Token.token_rparen ≡ (index t == 8))
      × (same_type t Token.token_eof ≡ (index t == 0))
      × (same_type t Token.kw_is ≡ (index t == 52))
      × (same_type t Token.kw_in ≡ (index t == 53))
      × (same_type t Token.kw_not ≡ (index t == 48))
      × (same_type t Token.kw_like ≡ (index t == 54))
      × (same_type t Token.kw_glob ≡ (index t == 55))
      × (same_type t Token.kw_between ≡ (index t == 56))
      × (same_type t Token.token_eq ≡ (index t == 11))
      × (same_type t Token.token_neq ≡ (index t == 12))
      × (same_type t Token.token_lt ≡ (index t == 13))
      × (same_type t Token.token_lte ≡ (index t == 14))
      × (same_type t Token.token_gt ≡ (index t == 15))
      × (same_type t Token.token_gte ≡ (index t == 16))
unfolding same_type index
condition_numbers t =
    (refl, refl, refl, refl, refl, refl, refl, refl, refl, refl, refl, refl, refl, refl, refl, refl)

-- What may stand behind a condition ends an operand and every level below `NOT`.
condition_ends :
    (t : TokenType)
    → follows_condition t ≡ true
    → (follows_operand t ≡ true) × Closed arithmetic t × (is_comparison t ≡ false)
condition_ends t h = (
  ground (arith, condition_numbers t, fence_numbers t),
  (
    ground (arith, condition_numbers t, operator_numbers t),
    (
      ground (arith, condition_numbers t, operator_numbers t),
      (
        ground (arith, condition_numbers t, operator_numbers t),
        (
          ground (arith, condition_numbers t, operator_numbers t),
          (
            ground (arith, condition_numbers t, operator_numbers t),
            (ground (arith, condition_numbers t, operator_numbers t), tt),
          ),
        ),
      ),
    ),
  ),
  ground (arith, condition_numbers t, operator_numbers t),
)

not_tail_ahead :
    (ts : Tokens)
    → follows_condition (peek ts).type ≡ true
    → (starts Token.kw_is ts ≡ false)
      × (starts Token.kw_in ts ≡ false)
      × (starts Token.kw_not ts ≡ false)
      × (starts Token.kw_like ts ≡ false)
      × (starts Token.kw_glob ts ≡ false)
      × (starts Token.kw_between ts ≡ false)
unfolding starts
not_tail_ahead ts h =
    let t = (peek ts).type in
    let numbers = condition_numbers t in
    (ground arith, ground arith, ground arith, ground arith, ground arith, ground arith)

module _ (to_upper : ℕ → ℕ) (is_float : Runes → Bool) where
  comparison_loop-stops :
      (self : Grammar) (f : ℕ) (e : Expr) (ts : Tokens)
      → follows_condition (peek ts).type ≡ true
      → comparison_loop to_upper is_float self (suc f) e ts ≡ ok (e, ts)
  unfolding comparison_loop comparison_round if_type if_next
  comparison_loop-stops self f e ts h =
      let (a, b, c, d, g, k) = not_tail_ahead ts h in
      let r = (condition_ends (peek ts).type h).2 in
      rw (r, if_type)
        (rw (a, if_next)
          (rw (b, if_next)
            (rw (c, if_next) (rw (d, if_next) (rw (g, if_next) (rw (k, if_next) refl))))))

  -- An expression of the arithmetic levels is an operand of `AND` and `OR`, unless it begins with
  -- `NOT`.
  pub condition-IsOperand :
      (n : ℕ) (e : Expr) (ts : Tokens)
      → Derives
          (IsOperand n follows_operand
            (parse_unary to_upper is_float (grammar to_upper is_float n)))
          arithmetic
          e
          ts
      → ((rest : Tokens) → starts Token.kw_not (ts ++ rest) ≡ false)
      → IsOperand n follows_condition
          (parse_not to_upper is_float (grammar to_upper is_float n))
          e
          ts
  unfolding parse_not parse_comparison if_next
  condition-IsOperand n e ts h first rest f b =
      let self = grammar to_upper is_float n in
      let (after, closed, _) = condition_ends (peek rest).type f in
      let one : length rest + 1 ≡ suc (length rest) = omega arith in
      rw (first rest, if_next)
        (ap
            (λ r.
              and_then r λ x more. comparison_loop to_upper is_float self (length more + 1) x more)
            (parse_concat-Derives to_upper is_float n rest h after closed b)
          ∙ (ap (λ (k : ℕ). comparison_loop to_upper is_float self k e rest) one
              ∙ comparison_loop-stops self (length rest) e rest f))
