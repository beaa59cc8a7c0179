-- ===== src/Engine/Parser/Progress/Total.antt =====
-- internal/engine/parser/parser.go: parsing an expression or a query ends on every list of tokens.
use sqlgo.Base.{ℕ, zero, suc, ◌+◌, ◌<◌, Bool, ◌≡◌, ◌≢◌, arith, length, ok, err}
use sqlgo.Engine.Parser.Token.{Runes}
use sqlgo.Engine.Parser.Stream.{out_of_fuel, Parsed, Tokens}
use sqlgo.Engine.Parser.Grammar.{grammar, parse_expr, select_of_tokens}
use sqlgo.Engine.Parser.Progress.{Below, within, refused}
use sqlgo.Engine.Parser.Progress.Branches.{Takes-zero}
use sqlgo.Engine.Parser.Progress.Primary.{IsGood, parse_primary_expr-Takes}
use sqlgo.Engine.Parser.Progress.Comparison.{parse_comparison-Takes, parse_or-Takes}
use sqlgo.Engine.Parser.Progress.Query.{parse_select-Takes}

-- The run keeps within its fuel, and if it succeeds it leaves fewer tokens.
abbrev pub TakesFrom : {A : Type 0} → Tokens → Parsed A → Type 0
TakesFrom {A} ts r =
    (r ≢ err out_of_fuel) × ((a : A) (rest : Tokens) → r ≡ ok (a, rest) → length rest < length ts)

TakesFrom-of_Below :
    {A : Type 0} (ts : Tokens) (r : Parsed A) → Below (length ts) r → TakesFrom ts r
TakesFrom-of_Below ts (ok (a, rest)) (within h) = (λ e. cc, λ a' rest' e. ground arith)
TakesFrom-of_Below ts (err e) (refused h) = (λ q. h (cc), λ a rest q. absurd (cc))

module _ (to_upper : ℕ → ℕ) (is_float : Runes → Bool) where
  pub grammar-IsGood : (n : ℕ) → IsGood n (grammar to_upper is_float n)
  unfolding grammar
  grammar-IsGood zero = record {
    expr = Takes-zero _;
    comparison = Takes-zero _;
    primary = Takes-zero _;
    select = Takes-zero _;
  }
  grammar-IsGood (suc n) =
      let good = grammar-IsGood n in
      let self = grammar to_upper is_float n in
      record {
        expr = parse_or-Takes to_upper is_float n self good;
        comparison = parse_comparison-Takes to_upper is_float n self good;
        primary = parse_primary_expr-Takes to_upper is_float n self good;
        select =
            parse_select-Takes n _ (parse_or-Takes to_upper is_float n self good) self.select
              good.select;
      }

  -- Parsing an expression, and parsing a query, ends on every list of tokens: the calls do not nest
  -- deeper than there are tokens, no loop goes round more often than that, and a success has taken
  -- at least one token.
  pub parse_total :
      (ts : Tokens)
      → TakesFrom ts (parse_expr to_upper is_float ts)
        × TakesFrom ts (select_of_tokens to_upper is_float ts)
  unfolding parse_expr select_of_tokens
  parse_total ts =
      let good = grammar-IsGood (length ts + 1) in
      (
        TakesFrom-of_Below ts _ (good.expr.takes ts (omega arith)),
        TakesFrom-of_Below ts _ (good.select.takes ts (omega arith)),
      )
