-- ===== src/Engine/Parser/Lexer/Printed.antt =====
-- internal/engine/parser/lexer.go: a printer of lexemes, to which `Tokenize` is the inverse.
use sqlgo.Base.{
  ℕ, ◌<◌, Bool, true, false, List, [], ◌∷◌, ◌++◌, ◌≡◌, ◌==◌, ◌&&◌, ◌||◌, leb, if◌then◌else◌, All,
  some,
}
use sqlgo.Engine.Parser.Token.{
  Runes, Place, Token, TokenType, token_string, token_ident, token_number,
}
use sqlgo.Engine.Parser.Lexer.Cursor.{Unicode}
use sqlgo.Engine.Parser.Lexer.Readers.{word_token, is_word_rune, single_quote}
use sqlgo.Engine.Parser.Lexer.{punctuation, lone_operator, double_operator, or_else, back_quote}

abbrev pub space : ℕ
space = 32

abbrev pub ascii_letter : ℕ → Bool
ascii_letter c = leb b'a' c && leb c b'z' || leb b'A' c && leb c b'Z'

abbrev pub ascii_digit : ℕ → Bool
ascii_digit c = leb b'0' c && leb c b'9'

-- What the package `unicode` documents of its classes: they are told apart, and fixed on ASCII.
pub record IsUnicode (u : Unicode) : Type 0 where
  pub white_space : u.is_space space ≡ true
  pub visible_space : (c : ℕ) → 32 < c → c < 127 → u.is_space c ≡ false
  pub letter_space : (c : ℕ) → u.is_letter c ≡ true → u.is_space c ≡ false
  pub letter_digit : (c : ℕ) → u.is_letter c ≡ true → u.is_digit c ≡ false
  pub letter_ascii : (c : ℕ) → c < 128 → u.is_letter c ≡ ascii_letter c
  pub digit_ascii : (c : ℕ) → c < 128 → u.is_digit c ≡ ascii_digit c

-- A string text, a name in back quotes, a keyword or plain name, a number of ASCII digits, and
-- the operators of one and of two runes.
pub data Lexeme : Type 0 where
  text quoted : Runes → Lexeme
  word number : ℕ → Runes → Lexeme
  sign : ℕ → TokenType → Lexeme
  pair : ℕ → ℕ → TokenType → Lexeme

-- Quotes inside a text are doubled.
abbrev pub doubled : Runes → Runes
doubled [] = []
doubled (c ∷ s) = if c == single_quote then c ∷ c ∷ doubled s else c ∷ doubled s

abbrev pub print : Lexeme → Runes
print (text s) = single_quote ∷ (doubled s ++ single_quote ∷ [])
print (quoted s) = back_quote ∷ (s ++ back_quote ∷ [])
print (word c w) = c ∷ w
print (number c w) = c ∷ w
print (sign c t) = c ∷ []
print (pair c d t) = c ∷ d ∷ []

-- Each lexeme behind a space.
abbrev pub print_all : List Lexeme → Runes
print_all [] = []
print_all (l ∷ ls) = space ∷ (print l ++ print_all ls)

module _ (u : Unicode) where
  abbrev pub IsLexeme : Lexeme → Type 0
  IsLexeme (text s) = Unit {0}
  IsLexeme (quoted s) = All (λ c. (c == back_quote) ≡ false) s
  IsLexeme (word c w) = ((u.is_letter c || c == b'_') ≡ true) × All (λ d. is_word_rune u d ≡ true) w
  IsLexeme (number c w) = (ascii_digit c ≡ true) × All (λ d. ascii_digit d ≡ true) w
  IsLexeme (sign c t) = or_else (lone_operator c) (punctuation c) ≡ some t
  IsLexeme (pair c d t) = double_operator c d ≡ some t

  -- The token of a lexeme that is printed at `p`.
  abbrev pub token_at : Place → Lexeme → Token
  token_at p (text s) = record { type = token_string; value = s; place = p }
  token_at p (quoted s) = record { type = token_ident; value = s; place = p }
  token_at p (word c w) = word_token u p (c ∷ w)
  token_at p (number c w) = record { type = token_number; value = c ∷ w; place = p }
  token_at p (sign c t) = record { type = t; value = c ∷ []; place = p }
  token_at p (pair c d t) = record { type = t; value = c ∷ d ∷ []; place = p }
