-- ===== src/Engine/Parser/Grammar/Levels.antt =====
-- internal/engine/parser/parser.go: the levels of operators, from `parsePostfix` up to
-- `parseConcat`.
use sqlgo.Base.{ℕ, zero, suc, Bool, ◌||◌, if◌then◌else◌}
use sqlgo.Engine.Parser.Token.{
  Runes, codes, token_pipe_pipe, token_pipe, token_ampersand, token_lshift, token_rshift,
  token_plus, token_minus, token_star, token_slash, token_percent, token_tilde, kw_not, kw_is,
  kw_null,
}
use sqlgo.Engine.Parser.Iota.{same_type}
use sqlgo.Engine.Parser.Syntax.{Expr, binary_expr, unary_expr, is_null_expr}
use sqlgo.Engine.Parser.Stream.{out_of_fuel, Parser, ◌>>=◌, pure, fail, if_next, flag}
use sqlgo.Engine.Parser.Grammar.Loops.{fueled, binary_level}
use sqlgo.Engine.Parser.Grammar.Primary.{Grammar, parse_primary_expr}

abbrev pub equals : Bool → Runes
equals is_not = if is_not then codes "!=" else codes "="

module _ (to_upper : ℕ → ℕ) (is_float : Runes → Bool) (self : Grammar) where
  abbrev primary : Parser Expr
  primary = parse_primary_expr to_upper is_float self

  unfoldable pub postfix_loop : ℕ → Expr → Parser Expr
  postfix_loop zero e = fail out_of_fuel
  postfix_loop (suc f) e =
      if_next kw_is
        (do
          is_not ← flag kw_not
          if_next kw_null (postfix_loop f (is_null_expr e is_not))
              (do right ← primary; postfix_loop f (binary_expr (equals is_not) e right)))
        (pure e)

  unfoldable pub parse_postfix : Parser Expr
  parse_postfix = do e ← primary; fueled (λ f. postfix_loop f e)

  unfoldable pub parse_unary : Parser Expr
  parse_unary =
      if_next token_minus (do e ← parse_postfix; pure (unary_expr (codes "-") e))
        (if_next token_plus parse_postfix (
          if_next token_tilde (do e ← parse_postfix; pure (unary_expr (codes "~") e))
            parse_postfix))

  unfoldable pub parse_mul_div : Parser Expr
  parse_mul_div =
      binary_level
        (λ t. same_type t token_star || same_type t token_slash || same_type t token_percent)
        (λ t. t.value) parse_unary

  unfoldable pub parse_add_sub : Parser Expr
  parse_add_sub =
      binary_level (λ t. same_type t token_plus || same_type t token_minus) (λ t. t.value)
        parse_mul_div

  unfoldable pub parse_bit_shift : Parser Expr
  parse_bit_shift =
      binary_level (λ t. same_type t token_lshift || same_type t token_rshift) (λ t. t.value)
        parse_add_sub

  unfoldable pub parse_bit_and : Parser Expr
  parse_bit_and = binary_level (λ t. same_type t token_ampersand) (λ _. codes "&") parse_bit_shift

  unfoldable pub parse_bit_or : Parser Expr
  parse_bit_or = binary_level (λ t. same_type t token_pipe) (λ _. codes "|") parse_bit_and

  unfoldable pub parse_concat : Parser Expr
  parse_concat = binary_level (λ t. same_type t token_pipe_pipe) (λ _. codes "||") parse_bit_or
