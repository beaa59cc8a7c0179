-- ===== src/Engine/Parser/Tests.antt =====
-- internal/engine/parser/parser.go: the parser on concrete inputs.
use sqlgo.Base.{
  ℕ, ◌-◌, Bool, true, false, [], ◌∷◌, ◌++◌, ◌≡◌, refl, ◌&&◌, leb, if◌then◌else◌, arith, ok, err,
  none,
}
use sqlgo.Engine.Parser.Token
use sqlgo.Engine.Parser.Token.{Runes, codes, Token, TokenType}
use sqlgo.Engine.Parser.Keywords.{keywords, statement_keywords, clause_keywords, lookup}
use sqlgo.Engine.Parser.Iota.{index, same_type}
use sqlgo.Engine.Parser.Syntax.{Expr, binary_expr, ident_expr, is_null_expr}
use sqlgo.Engine.Parser.Stream.{
  Tokens, unexpected, invalid_number, starts, advance_tokens, next_token_of, if_next, if_at,
  if_type, flag, refuse,
}
use sqlgo.Engine.Parser.Grammar.{grammar, parse_expr, select_of_tokens}
use sqlgo.Engine.Parser.Grammar.Loops.{binary_level, left_loop}
use sqlgo.Engine.Parser.Grammar.Number.{number_literal}
use sqlgo.Engine.Parser.Grammar.Primary.{parse_primary_expr, named, is_ident_like}
use sqlgo.Engine.Parser.Grammar.Levels.{
  postfix_loop, parse_postfix, parse_unary, parse_mul_div, parse_add_sub, parse_bit_shift,
  parse_bit_and, parse_bit_or, parse_concat,
}
use sqlgo.Engine.Parser.Grammar.Comparison.{
  comparison_round, comparison_loop, parse_comparison, parse_not, parse_and, parse_or,
}
use sqlgo.Engine.Parser.Precedence.{IsOperand, Derives, operand, tighter, grouped, Closed}
use sqlgo.Engine.Parser.Precedence.Operators.{
  arithmetic, logic, follows_operand, follows_condition, parse_concat-Derives, parse_expr-Derives,
}
use sqlgo.Engine.Parser.Precedence.Operands.{name_token, name-IsOperand}
use sqlgo.Engine.Parser.Precedence.Conditions.{condition-IsOperand}
use sqlgo.Engine.Parser.Progress.Total.{TakesFrom, parse_total}

abbrev ascii_upper : ℕ → ℕ
ascii_upper c = if leb b'a' c && leb c b'z' then c - 32 else c

abbrev no_float : Runes → Bool
no_float s = false

abbrev at_start : TokenType → Runes → Token
at_start t s = record { type = t; value = s; place = record { line = 1; col = 1 } }

abbrev here : Token.Place
here = record { line = 1; col = 1 }

-- `a + b IS NULL`
abbrev sum_is_null : Tokens
sum_is_null =
    name_token (codes "a") here
    ∷ at_start Token.token_plus (codes "+")
    ∷ name_token (codes "b") here
    ∷ at_start Token.kw_is (codes "IS")
    ∷ at_start Token.kw_null (codes "NULL")
    ∷ []

parse_total_example :
    TakesFrom sum_is_null (parse_expr ascii_upper no_float sum_is_null)
    × TakesFrom sum_is_null (select_of_tokens ascii_upper no_float sum_is_null)
parse_total_example = parse_total ascii_upper no_float sum_is_null

-- `IS` binds closer than `+`: the operand `b` is tested, not the sum.
is_null_binds_first :
    parse_expr ascii_upper no_float sum_is_null
    ≡ ok (
      binary_expr
          (codes "+")
          (ident_expr [] (codes "a"))
          (is_null_expr (ident_expr [] (codes "b")) false),
      [],
    )
unfolding parse_expr grammar parse_or parse_and parse_not parse_comparison comparison_loop
    comparison_round parse_concat parse_bit_or parse_bit_and parse_bit_shift parse_add_sub
    parse_mul_div parse_unary parse_postfix postfix_loop parse_primary_expr named is_ident_like
    binary_level left_loop starts advance_tokens next_token_of if_next if_at if_type flag same_type
    index
is_null_binds_first = refl

-- `- -1` is no expression.
minus_minus :
    parse_expr ascii_upper no_float (
      at_start Token.token_minus (codes "-")
      ∷ at_start Token.token_minus (codes "-")
      ∷ at_start Token.token_number (codes "1")
      ∷ [])
    ≡ err (unexpected (at_start Token.token_minus (codes "-")))
unfolding parse_expr grammar parse_or parse_and parse_not parse_comparison comparison_loop
    comparison_round parse_concat parse_bit_or parse_bit_and parse_bit_shift parse_add_sub
    parse_mul_div parse_unary parse_postfix postfix_loop parse_primary_expr named is_ident_like
    binary_level left_loop starts advance_tokens next_token_of if_next if_at if_type flag same_type
    index refuse
minus_minus = refl

-- The digit `E` makes a hexadecimal number a float.
hexadecimal_digit_e : number_literal no_float (codes "0x1E") ≡ err (invalid_number (codes "0x1E"))
unfolding number_literal
hexadecimal_digit_e = refl

-- `ESCAPE` is no keyword.
lookup_escape : lookup (codes "ESCAPE") keywords ≡ none
unfolding lookup keywords statement_keywords clause_keywords
lookup_escape = refl

end_follows : follows_operand Token.token_eof ≡ true
unfolding same_type index
end_follows = refl

end_closed : Closed arithmetic Token.token_eof
unfolding same_type index
end_closed = (refl, (refl, (refl, (refl, (refl, (refl, tt))))))

abbrev letter : ℕ → Token
letter c = name_token (c ∷ []) here

abbrev name_expr : ℕ → Expr
name_expr c = ident_expr [] (c ∷ [])

-- `a - b * c - d`
abbrev difference : Tokens
difference =
    letter b'a'
    ∷ at_start Token.token_minus (codes "-")
    ∷ letter b'b'
    ∷ at_start Token.token_star (codes "*")
    ∷ letter b'c'
    ∷ at_start Token.token_minus (codes "-")
    ∷ letter b'd'
    ∷ []

abbrev difference_expr : Expr
difference_expr =
    binary_expr (codes "-")
      (binary_expr (codes "-") (name_expr b'a')
        (binary_expr (codes "*") (name_expr b'b') (name_expr b'c')))
      (name_expr b'd')

abbrev NameOperand : ℕ → Expr → Tokens → Type 0
NameOperand n =
    IsOperand n follows_operand (parse_unary ascii_upper no_float (grammar ascii_upper no_float n))

name-Derives : (n c : ℕ) → Derives (NameOperand n) [] (name_expr c) (letter c ∷ [])
name-Derives n c =
    operand (name-IsOperand ascii_upper no_float (grammar ascii_upper no_float n) n (c ∷ []) here)

difference-Derives : (n : ℕ) → Derives (NameOperand n) arithmetic difference_expr difference
unfolding same_type index
difference-Derives n = tighter (
    tighter (
      tighter (
        tighter (
          grouped (at_start Token.token_minus (codes "-"))
            (grouped (at_start Token.token_minus (codes "-"))
              (tighter (tighter (name-Derives n b'a'))) refl
              (grouped (at_start Token.token_star (codes "*")) (tighter (name-Derives n b'b')) refl
                (name-Derives n b'c') refl refl)
              refl refl)
            refl (tighter (name-Derives n b'd')) refl refl))))

parse_concat-Derives_example :
    parse_concat ascii_upper no_float (grammar ascii_upper no_float 9) (difference ++ [])
    ≡ ok (difference_expr, [])
parse_concat-Derives_example =
    parse_concat-Derives ascii_upper no_float 9 [] (difference-Derives 9) end_follows end_closed
      (omega arith)

-- `x OR a - b * c - d AND y`
abbrev condition : Tokens
condition =
    letter b'x'
    ∷ at_start Token.kw_or (codes "OR")
    ∷ (difference ++ at_start Token.kw_and (codes "AND") ∷ letter b'y' ∷ [])

abbrev condition_expr : Expr
condition_expr =
    binary_expr (codes "OR") (name_expr b'x')
      (binary_expr (codes "AND") difference_expr (name_expr b'y'))

name_below : (n c : ℕ) → Derives (NameOperand n) arithmetic (name_expr c) (letter c ∷ [])
name_below n c = tighter (tighter (tighter (tighter (tighter (tighter (name-Derives n c))))))

abbrev ConditionOperand : ℕ → Expr → Tokens → Type 0
ConditionOperand n =
    IsOperand n follows_condition (parse_not ascii_upper no_float (grammar ascii_upper no_float n))

letter_is_no_not : (c : ℕ) (ts : Tokens) → starts Token.kw_not (letter c ∷ ts) ≡ false
unfolding starts same_type index
letter_is_no_not c ts = refl

condition-Derives : Derives (ConditionOperand 13) logic condition_expr condition
unfolding same_type index
condition-Derives =
    let name = λ (c : ℕ).
      condition-IsOperand ascii_upper no_float 13 (name_expr c) (letter c ∷ []) (name_below 13 c)
        (λ rest. letter_is_no_not c rest) in
    grouped {xs = letter b'x' ∷ []} (at_start Token.kw_or (codes "OR"))
      (tighter (tighter (operand (name b'x')))) refl
      (grouped {xs = difference} {ys = letter b'y' ∷ []} (at_start Token.kw_and (codes "AND"))
        (tighter (
          operand (
            condition-IsOperand ascii_upper no_float 13 difference_expr difference
              (difference-Derives 13) (λ rest. letter_is_no_not b'a' _))))
        refl (operand (name b'y')) refl refl)
      refl refl

condition_follows : follows_condition Token.kw_from ≡ true
unfolding same_type index
condition_follows = refl

condition_closed : Closed logic Token.kw_from
unfolding same_type index
condition_closed = (refl, (refl, tt))

abbrev from_t : Tokens
from_t = at_start Token.kw_from (codes "FROM") ∷ letter b't' ∷ []

parse_expr-Derives_example :
    parse_expr ascii_upper no_float (condition ++ from_t) ≡ ok (condition_expr, from_t)
parse_expr-Derives_example =
    parse_expr-Derives ascii_upper no_float from_t condition-Derives condition_follows
      condition_closed
