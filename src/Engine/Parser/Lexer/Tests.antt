-- ===== src/Engine/Parser/Lexer/Tests.antt =====
-- internal/engine/parser/lexer.go: the lexer on concrete inputs.
use sqlgo.Base.{
  ◌-◌, Bool, true, false, List, [], ◌∷◌, ◌++◌, ◌≡◌, ◌≢◌, refl, ◌==◌, ◌&&◌, ◌||◌, leb, if◌then◌else◌,
  arith, ok, err, All, none, some,
}
use sqlgo.Engine.Parser.Token.{
  Runes, codes, Token, TokenType, token_string, token_lte, token_star, kw_select,
}
use sqlgo.Engine.Parser.Keywords.{keywords, statement_keywords, clause_keywords, lookup}
use sqlgo.Engine.Parser.Lexer.{tokenize, punctuation, lone_operator, double_operator}
use sqlgo.Engine.Parser.Lexer.Cursor.{Unicode}
use sqlgo.Engine.Parser.Lexer.Readers.{out_of_fuel, is_word_rune}
use sqlgo.Engine.Parser.Lexer.Total.{eof, start, tokenize_total}
use sqlgo.Engine.Parser.Lexer.Printed.{
  IsUnicode, ascii_letter, ascii_digit, Lexeme, text, quoted, word, number, sign, pair, print_all,
  IsLexeme,
}
use sqlgo.Engine.Parser.Lexer.Inverse.{tokens_at, tokenize-print_all}

-- The package `unicode` where no rune lies outside ASCII.
abbrev ascii : Unicode
ascii = record {
  is_space = λ c. leb 9 c && leb c 13 || c == 32;
  is_letter = ascii_letter;
  is_digit = ascii_digit;
  to_upper = λ c. if leb b'a' c && leb c b'z' then c - 32 else c;
}

ascii-IsUnicode : IsUnicode ascii
ascii-IsUnicode = record {
  white_space = refl;
  visible_space = λ c h k. ground arith;
  letter_space = λ c h. ground arith;
  letter_digit = λ c h. ground arith;
  letter_ascii = λ c h. refl;
  digit_ascii = λ c h. refl;
}

abbrev query : Runes
query = codes "select 'a''b' -- x"

abbrev query_tokens : List Token
query_tokens =
    record { type = kw_select; value = codes "SELECT"; place = record { line = 1; col = 1 } }
    ∷ record { type = token_string; value = codes "a'b"; place = record { line = 1; col = 8 } }
    ∷ []

tokenize_total_example : tokenize ascii (codes "select '") ≢ err out_of_fuel
tokenize_total_example = tokenize_total ascii (codes "select '")

abbrev lexemes : List Lexeme
lexemes =
    word b's' (codes "elect")
    ∷ sign b'*' token_star
    ∷ text (codes "it's")
    ∷ pair b'<' b'=' token_lte
    ∷ quoted (codes "a b")
    ∷ number b'4' (codes "2")
    ∷ []

lexemes-IsLexeme : All (IsLexeme ascii) lexemes
unfolding is_word_rune punctuation lone_operator double_operator
lexemes-IsLexeme = (
  (refl, (refl, (refl, (refl, (refl, (refl, tt)))))),
  (refl, (tt, (refl, ((refl, (refl, (refl, tt))), ((refl, (refl, tt)), tt))))),
)

tokenize-print_all_example :
    tokenize ascii (print_all lexemes) ≡ ok (tokens_at ascii start lexemes ++ eof ∷ [])
tokenize-print_all_example = tokenize-print_all ascii ascii-IsUnicode lexemes lexemes-IsLexeme

no_duplicate : List (Runes × TokenType) → Bool
no_duplicate [] = true
no_duplicate ((w, t) ∷ rest) = elim (lookup w rest) [ some _ ↦ false | none ↦ no_duplicate rest ]

-- No word stands twice in the table.
keywords_distinct : no_duplicate keywords ≡ true
unfolding no_duplicate keywords statement_keywords clause_keywords lookup
keywords_distinct = refl
