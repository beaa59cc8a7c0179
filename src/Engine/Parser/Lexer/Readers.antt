-- ===== src/Engine/Parser/Lexer/Readers.antt =====
-- internal/engine/parser/lexer.go: the readers of comments, strings, numbers and names. Each is
-- given the rune that the lexer stands on, the runes behind it and the place. A loop that looks one
-- rune ahead has its clauses for the last rune and for the runes before it.
use sqlgo.Base.{
  ℕ, Bool, true, false, [], ◌∷◌, ◌++◌, map, none, some, ◌==◌, ◌&&◌, ◌||◌, leb, bytes_eq,
  if◌then◌else◌, Result, ok, err,
}
use sqlgo.Engine.Parser.Token.{Runes, codes, Place, Token, token_ident}
use sqlgo.Engine.Parser.Keywords.{keywords, lookup}
use sqlgo.Engine.Parser.Lexer.Cursor.{Unicode, advance, Reading, write_while, write_if, after, stop}

-- The errors of `Tokenize`; the last has no counterpart, it says that the model's fuel is spent.
pub data LexError : Type 0 where
  unterminated_comment unterminated_string unterminated_ident out_of_fuel : LexError

abbrev pub single_quote : ℕ
single_quote = 39

abbrev pub double_quote : ℕ
double_quote = 34

abbrev pub backslash : ℕ
backslash = 92

-- The loop of `skipBlockComment`, behind the opening `/*`.
unfoldable pub block_comment : Runes → Place → Result LexError (Runes × Place)
block_comment [] p = err unterminated_comment
block_comment (c ∷ []) p = err unterminated_comment
block_comment (c ∷ d ∷ cs) p = elim (c == b'*' && d == b'/') [
  | true ↦ ok (cs, advance d (advance c p))
  | false ↦ block_comment (d ∷ cs) (advance c p)
]

-- What a backslash and the rune behind it write.
unfoldable pub escaped : ℕ → Runes
escaped c =
    if c == b'n'
    then 10 ∷ []
    else if c == b't'
    then 9 ∷ []
    else if c == b'r'
    then 13 ∷ []
    else if c == backslash || c == double_quote
    then c ∷ []
    else backslash ∷ c ∷ []

-- The loop of `readString`, behind the opening quote. On the last rune, a quote ends the string, a
-- backslash is passed over, and any other is written: the loop then ends with the input.
unfoldable pub string_body : ℕ → Runes → Runes → Place → Result LexError Reading
string_body quote sb [] p = err unterminated_string
string_body quote sb (c ∷ []) p =
    if c == quote
    then ok (record { text = sb; rest = []; place = advance c p })
    else err unterminated_string
string_body quote sb (c ∷ d ∷ cs) p = elim (c == quote) [
  | true ↦ elim (d == quote) [
    | true ↦ string_body quote (sb ++ quote ∷ []) cs (advance d (advance c p))
    | false ↦ ok (record { text = sb; rest = d ∷ cs; place = advance c p })
  ]
  | false ↦ elim (c == backslash && quote == double_quote) [
    | true ↦ string_body quote (sb ++ escaped d) cs (advance d (advance c p))
    | false ↦ string_body quote (sb ++ c ∷ []) (d ∷ cs) (advance c p)
  ]
]

-- The loop of `readQuotedIdent`.
unfoldable pub quoted_body : ℕ → Runes → Runes → Place → Result LexError Reading
quoted_body quote sb [] p = err unterminated_ident
quoted_body quote sb (c ∷ cs) p =
    if c == quote
    then ok (record { text = sb; rest = cs; place = advance c p })
    else quoted_body quote (sb ++ c ∷ []) cs (advance c p)

unfoldable pub is_hex_digit : ℕ → Bool
is_hex_digit r = leb b'0' r && leb r b'9' || leb b'a' r && leb r b'f' || leb b'A' r && leb r b'F'

-- Hexadecimal digits, behind a number that is `0`.
unfoldable pub hexadecimal : Runes → Runes → Place → Reading
hexadecimal sb =
    write_if (λ c. (c == b'x' || c == b'X') && bytes_eq sb (codes "0")) (write_while is_hex_digit)
      sb

module _ (u : Unicode) where
  open u use {is_letter, is_digit, to_upper}

  -- The exponent: the letter, a sign and digits.
  unfoldable pub exponent : Runes → Runes → Place → Reading
  exponent =
      write_if (λ c. c == b'e' || c == b'E')
        λ sb cs p.
          after (write_if (λ c. c == b'+' || c == b'-') stop sb cs p) (write_while is_digit)

  unfoldable pub read_number : Runes → Place → Reading
  read_number cs p =
      after (after (write_while (λ c. is_digit c || c == b'.') [] cs p) exponent) hexadecimal

  unfoldable pub is_word_rune : ℕ → Bool
  is_word_rune c = is_letter c || is_digit c || c == b'_'

  -- The token of a word: `keywords` is asked for its upper case.
  unfoldable pub word_token : Place → Runes → Token
  word_token p word = elim (lookup (map to_upper word) keywords) [
    | some t ↦ record { type = t; value = map to_upper word; place = p }
    | none ↦ record { type = token_ident; value = word; place = p }
  ]

  unfoldable pub read_ident : Runes → Place → Reading
  read_ident = write_while is_word_rune []
