-- ===== src/Engine/Parser/Precedence/Operators.antt =====
-- internal/engine/parser/parser.go: the operators of `parseConcat` down to `parseMulDiv`, and those of
-- `parseOr` and `parseAnd`.
use sqlgo.Base.{
  ℕ, suc, ◌+◌, ◌≤◌, Bool, true, false, List, [], ◌∷◌, ◌++◌, ◌≡◌, refl, ap, ◌⊎◌, inl, inr, ◌∙◌,
  arith, ◌||◌, ◌&&◌, ◌==◌, drop, length, ok, not,
}
use sqlgo.Engine.Parser.Token
use sqlgo.Engine.Parser.Token.{Runes, codes, Token, TokenType, token_eof}
use sqlgo.Engine.Parser.Iota.{index, same_type}
use sqlgo.Engine.Parser.Syntax.{Expr}
use sqlgo.Engine.Parser.Stream.{Tokens, peek}
use sqlgo.Engine.Parser.Grammar.{grammar, parse_expr}
use sqlgo.Engine.Parser.Grammar.Levels.{
  parse_unary, parse_mul_div, parse_add_sub, parse_bit_shift, parse_bit_and, parse_bit_or,
  parse_concat,
}
use sqlgo.Engine.Parser.Grammar.Comparison.{is_comparison, parse_not, parse_and, parse_or}
use sqlgo.Engine.Parser.Precedence.{
  Level, Derives, Distinct, Closed, IsOperand, Fenced, chain-Derives,
}
use sqlgo.Engine.Parser.Progress.Total.{grammar-IsGood}
use sqlgo.Engine.Parser.Progress.Expr.{parse_unary-Takes}
use sqlgo.Engine.Parser.Progress.Comparison.{parse_not-Takes}

abbrev pub fixed : TokenType → Runes → Level
fixed t name = record { test = λ x. same_type x t; op = λ _. name }

-- From the loosest to the tightest: `||`, `|`, `&`, the shifts, `+` and `-`, `*`, `/` and `%`.
abbrev pub arithmetic : List Level
arithmetic =
    fixed Token.token_pipe_pipe (codes "||")
    ∷ fixed Token.token_pipe (codes "|")
    ∷ fixed Token.token_ampersand (codes "&")
    ∷ record {
      test = λ t. same_type t Token.token_lshift || same_type t Token.token_rshift;
      op = λ t. t.value;
    }
    ∷ record {
      test = λ t. same_type t Token.token_plus || same_type t Token.token_minus;
      op = λ t. t.value;
    }
    ∷ record {
      test = λ t.
          same_type t Token.token_star
          || same_type t Token.token_slash
          || same_type t Token.token_percent;
      op = λ t. t.value;
    }
    ∷ []

-- `OR`, and `AND` below it.
abbrev pub logic : List Level
logic = fixed Token.kw_or (codes "OR") ∷ fixed Token.kw_and (codes "AND") ∷ []

-- The tests on a type are tests on its number.
pub operator_numbers :
    (t : TokenType)
    → (same_type t Token.token_pipe_pipe ≡ (index t == 21))
      × (same_type t Token.token_pipe ≡ (index t == 23))
      × (same_type t Token.token_ampersand ≡ (index t == 22))
      × (same_type t Token.token_lshift ≡ (index t == 25))
      × (same_type t Token.token_rshift ≡ (index t == 26))
      × (same_type t Token.token_plus ≡ (index t == 17))
      × (same_type t Token.token_minus ≡ (index t == 18))
      × (same_type t Token.token_star ≡ (index t == 10))
      × (same_type t Token.token_slash ≡ (index t == 19))
      × (same_type t Token.token_percent ≡ (index t == 20))
      × (same_type t Token.kw_or ≡ (index t == 51))
      × (same_type t Token.kw_and ≡ (index t == 50))
unfolding same_type index
operator_numbers t = (refl, refl, refl, refl, refl, refl, refl, refl, refl, refl, refl, refl)

or_apart : (t : TokenType) → same_type t Token.kw_or ≡ true → same_type t Token.kw_and ≡ false
or_apart t h = ground (arith, operator_numbers t)

logic-Distinct : Distinct logic
unfolding same_type index
logic-Distinct = (refl, λ t h. (or_apart t h, tt), (refl, λ t h. tt, tt))

concat_apart :
    (t : TokenType) → (same_type t Token.token_pipe_pipe) ≡ true → Closed (drop 1 arithmetic) t
concat_apart t h = (
  ground (arith, operator_numbers t),
  (
    ground (arith, operator_numbers t),
    (
      ground (arith, operator_numbers t),
      (ground (arith, operator_numbers t), (ground (arith, operator_numbers t), tt)),
    ),
  ),
)

bit_or_apart :
    (t : TokenType) → (same_type t Token.token_pipe) ≡ true → Closed (drop 2 arithmetic) t
bit_or_apart t h = (
  ground (arith, operator_numbers t),
  (
    ground (arith, operator_numbers t),
    (ground (arith, operator_numbers t), (ground (arith, operator_numbers t), tt)),
  ),
)

bit_and_apart :
    (t : TokenType) → (same_type t Token.token_ampersand) ≡ true → Closed (drop 3 arithmetic) t
bit_and_apart t h = (
  ground (arith, operator_numbers t),
  (ground (arith, operator_numbers t), (ground (arith, operator_numbers t), tt)),
)

shift_apart :
    (t : TokenType)
    → (same_type t Token.token_lshift || same_type t Token.token_rshift) ≡ true
    → Closed (drop 4 arithmetic) t
shift_apart t h = (ground (arith, operator_numbers t), (ground (arith, operator_numbers t), tt))

sum_apart :
    (t : TokenType)
    → (same_type t Token.token_plus || same_type t Token.token_minus) ≡ true
    → Closed (drop 5 arithmetic) t
sum_apart t h = (ground (arith, operator_numbers t), tt)

arithmetic-Distinct : Distinct arithmetic
unfolding same_type index
arithmetic-Distinct = (
  refl,
  concat_apart,
  (
    refl,
    bit_or_apart,
    (refl, bit_and_apart, (refl, shift_apart, (refl, sum_apart, (refl, λ t h. tt, tt)))),
  ),
)

-- What may stand behind an operand of the arithmetic levels: not `IS`, nor what makes a name a
-- column or a call.
abbrev pub follows_operand : TokenType → Bool
follows_operand t =
    not (same_type t Token.kw_is || same_type t Token.token_dot || same_type t Token.token_lparen)

-- What may stand behind an operand of `AND` and `OR`: nothing that goes on with an operand of the
-- arithmetic levels, such an operator, a comparison, `IN`, `NOT`, `LIKE`, `GLOB` or `BETWEEN`.
abbrev pub follows_condition : TokenType → Bool
follows_condition t =
    follows_operand t
    && not (is_comparison t)
    && not (
        same_type t Token.kw_in
        || same_type t Token.kw_not
        || same_type t Token.kw_like
        || same_type t Token.kw_glob
        || same_type t Token.kw_between)
    && not (
        same_type t Token.token_pipe_pipe
        || same_type t Token.token_pipe
        || same_type t Token.token_ampersand
        || same_type t Token.token_lshift
        || same_type t Token.token_rshift
        || same_type t Token.token_plus
        || same_type t Token.token_minus
        || same_type t Token.token_star
        || same_type t Token.token_slash
        || same_type t Token.token_percent)

pub fence_numbers :
    (t : TokenType)
    → (same_type t Token.kw_is ≡ (index t == 52))
      × (same_type t Token.token_dot ≡ (index t == 9))
      × (same_type t Token.token_lparen ≡ (index t == 7))
unfolding same_type index
fence_numbers t = (refl, refl, refl)

arithmetic-Fenced : Fenced follows_operand arithmetic
arithmetic-Fenced = (
  λ t h. ground (arith, operator_numbers t, fence_numbers t),
  (
    λ t h. ground (arith, operator_numbers t, fence_numbers t),
    (
      λ t h. ground (arith, operator_numbers t, fence_numbers t),
      (
        λ t h. ground (arith, operator_numbers t, fence_numbers t),
        (
          λ t h. ground (arith, operator_numbers t, fence_numbers t),
          (λ t h. ground (arith, operator_numbers t, fence_numbers t), tt),
        ),
      ),
    ),
  ),
)

connective_follows : (t : TokenType) → (index t ≡ 51) ⊎ (index t ≡ 50) → follows_condition t ≡ true
unfolding same_type index
connective_follows t (inl e) = rw (e, same_type) refl
connective_follows t (inr e) = rw (e, same_type) refl

logic-Fenced : Fenced follows_condition logic
logic-Fenced = (
  λ t h. connective_follows t (inl (ground (arith, operator_numbers t))),
  (λ t h. connective_follows t (inr (ground (arith, operator_numbers t))), tt),
)

module _ (to_upper : ℕ → ℕ) (is_float : Runes → Bool) where
  -- The levels from `||` down to `*` read the expressions of the grammar in which each level groups
  -- to the left and binds closer than those before it: `||`, `|`, `&`, shifts, sums, products. Where
  -- the tokens are derived from operands that `parseUnary` reads, and neither an operator nor `IS`, a dot
  -- or an opening parenthesis follows, `parseConcat` gives the derived tree and leaves what follows.
  pub parse_concat-Derives :
      (n : ℕ) {e : Expr} {ts : Tokens} (rest : Tokens)
      → Derives
          (IsOperand n follows_operand
            (parse_unary to_upper is_float (grammar to_upper is_float n)))
          arithmetic
          e
          ts
      → follows_operand (peek rest).type ≡ true
      → Closed arithmetic (peek rest).type
      → length (ts ++ rest) ≤ n
      → parse_concat to_upper is_float (grammar to_upper is_float n) (ts ++ rest) ≡ ok (e, rest)
  unfolding parse_concat parse_bit_or parse_bit_and parse_bit_shift parse_add_sub parse_mul_div
  parse_concat-Derives n rest h f c b =
      let self = grammar to_upper is_float n in
      chain-Derives n follows_operand (parse_unary to_upper is_float self)
        (parse_unary-Takes to_upper is_float n self (grammar-IsGood to_upper is_float n)) rest h
        arithmetic-Distinct arithmetic-Fenced f c b

  -- `parseExpr` reads the expressions of the grammar in which `OR` binds looser than `AND` and both
  -- group to the left. The tokens are derived from operands that `parseNot` reads whatever token stands
  -- behind them that does not go on with an operand. Where what follows is neither `OR` nor `AND` and
  -- does not go on with an operand, `parseExpr` gives the derived tree and leaves what follows. To go
  -- on with an operand are the operators of `parseConcat` down to `parseMulDiv`, the comparisons, `IS`,
  -- `IN`, `NOT`, `LIKE`, `GLOB`, `BETWEEN`, a dot and an opening parenthesis.
  pub parse_expr-Derives :
      {e : Expr} {ts : Tokens} (rest : Tokens)
      → Derives
          (IsOperand
            (length (ts ++ rest))
            follows_condition
            (parse_not to_upper is_float (grammar to_upper is_float (length (ts ++ rest)))))
          logic
          e
          ts
      → follows_condition (peek rest).type ≡ true
      → Closed logic (peek rest).type
      → parse_expr to_upper is_float (ts ++ rest) ≡ ok (e, rest)
  unfolding parse_expr grammar parse_or parse_and
  parse_expr-Derives {e} {ts} rest h f c =
      let n = length (ts ++ rest) in
      let self = grammar to_upper is_float n in
      let more : n + 1 ≡ suc n = omega arith in
      ap (λ (k : ℕ). (grammar to_upper is_float k).expr (ts ++ rest)) more
      ∙ chain-Derives n follows_condition (parse_not to_upper is_float self)
          (parse_not-Takes to_upper is_float n self (grammar-IsGood to_upper is_float n)) rest h
          logic-Distinct logic-Fenced f c (omega arith)
