-- ===== src/Engine/Parser/Grammar/Number.antt =====
-- internal/engine/parser/parser.go: numbers, in `parsePrimaryExpr`. Whether `strconv.ParseFloat`
-- takes a text is a parameter, and what it reads stands for itself.
use sqlgo.Base.{
  ℕ, ◌+◌, ◌-◌, ◌*◌, ◌^◌, Bool, false, [], ◌∷◌, Option, none, some, ◌==◌, ◌&&◌, ◌||◌, leb, ltb, drop,
  if◌then◌else◌, Result, ok, err,
}
use sqlgo.Engine.Parser.Token.{Runes}
use sqlgo.Engine.Parser.Syntax.{Literal, int, float}
use sqlgo.Engine.Parser.Stream.{ParseError, invalid_number}

-- The value of a digit; 36 is none.
unfoldable pub digit_value : ℕ → ℕ
digit_value c =
    if leb b'0' c && leb c b'9'
    then c - b'0'
    else if leb b'a' c && leb c b'z'
    then c - b'a' + 10
    else if leb b'A' c && leb c b'Z'
    then c - b'A' + 10
    else 36

-- The digits behind those that make `n`.
unfoldable pub digits_from : ℕ → ℕ → Runes → Option ℕ
digits_from base n [] = some n
digits_from base n (c ∷ cs) =
    if ltb (digit_value c) base then digits_from base (n * base + digit_value c) cs else none

-- `strconv.ParseInt(s, base, 64)` where `s` has no sign.
unfoldable pub parse_int : ℕ → Runes → Option ℕ
unfolding digits_from digit_value
parse_int base [] = none
parse_int base (c ∷ cs) = elim (digits_from base 0 (c ∷ cs)) [
  | some n ↦ if ltb n (2 ^ 63) then some n else none
  | none ↦ none
]

unfoldable pub has_rune : (ℕ → Bool) → Runes → Bool
has_rune test [] = false
has_rune test (c ∷ cs) = test c || has_rune test cs

-- `strings.Contains(s, ".") || strings.ContainsAny(s, "eE")`
abbrev pub looks_float : Runes → Bool
looks_float s = has_rune (λ c. c == b'.') s || has_rune (λ c. c == b'e' || c == b'E') s

-- `strings.HasPrefix(strings.ToLower(s), "0x")`
abbrev pub looks_hexadecimal : Runes → Bool
looks_hexadecimal (c ∷ d ∷ cs) = c == b'0' && (d == b'x' || d == b'X')
looks_hexadecimal _ = false

abbrev pub read_float : (Runes → Bool) → Runes → Result ParseError Literal
read_float is_float s = if is_float s then ok (float s) else err (invalid_number s)

-- The literal of a number token.
unfoldable pub number_literal : (Runes → Bool) → Runes → Result ParseError Literal
unfolding parse_int has_rune
number_literal is_float s =
    if looks_float s
    then read_float is_float s
    else if looks_hexadecimal s
    then elim (parse_int 16 (drop 2 s)) [ some n ↦ ok (int n) | none ↦ err (invalid_number s) ]
    else elim (parse_int 10 s) [ some n ↦ ok (int n) | none ↦ read_float is_float s ]
