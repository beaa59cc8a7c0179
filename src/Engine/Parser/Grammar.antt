-- ===== src/Engine/Parser/Grammar.antt =====
-- internal/engine/parser/parser.go: the grammar of expressions and queries, closed over itself.
pub mod Loops
pub mod Number
pub mod Types
pub mod Primary
pub mod Levels
pub mod Comparison
pub mod Query
use sqlgo.Base.{ℕ, zero, suc, ◌+◌, Bool, length, err}
use sqlgo.Engine.Parser.Token.{Runes}
use sqlgo.Engine.Parser.Syntax.{Expr, SelectStmt}
use sqlgo.Engine.Parser.Stream.{Parser, out_of_fuel, fail}
use sqlgo.Engine.Parser.Grammar.Primary.{Grammar, parse_primary_expr}
use sqlgo.Engine.Parser.Grammar.Comparison.{parse_comparison, parse_or}
use sqlgo.Engine.Parser.Grammar.Query.{parse_select}

module _ (to_upper : ℕ → ℕ) (is_float : Runes → Bool) where
  -- The functions with `self` for the calls that they make of one another behind a token.
  abbrev pub unfold_grammar : Grammar → Grammar
  unfold_grammar self = record {
    expr = parse_or to_upper is_float self;
    comparison = parse_comparison to_upper is_float self;
    primary = parse_primary_expr to_upper is_float self;
    select = parse_select (parse_or to_upper is_float self) self.select;
  }

  -- The calls may nest as deep as the fuel says.
  unfoldable pub grammar : ℕ → Grammar
  grammar zero = record {
    expr = fail out_of_fuel;
    comparison = fail out_of_fuel;
    primary = fail out_of_fuel;
    select = fail out_of_fuel;
  }
  grammar (suc fuel) = unfold_grammar (grammar fuel)

  -- `parseExpr`: the calls nest at most once for each token.
  unfoldable pub parse_expr : Parser Expr
  unfolding grammar
  parse_expr ts = (grammar (length ts + 1)).expr ts

  unfoldable pub select_of_tokens : Parser SelectStmt
  unfolding grammar
  select_of_tokens ts = (grammar (length ts + 1)).select ts
