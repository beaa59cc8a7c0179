-- ===== src/Engine/Parser/Lexer/Lexemes.antt =====
-- internal/engine/parser/lexer.go: a round of `Tokenize` reads a printed lexeme.
use mathlib.Core.List.{append_assoc}
use sqlgo.Base.{
  ℕ, ◌<◌, true, false, [], ◌∷◌, ◌++◌, ◌≡◌, ◌≢◌, refl, ap, ◌∙◌, ◌⊎◌, inl, inr, arith, ◌==◌, ◌||◌, ok,
  All, none, some,
}
use sqlgo.Engine.Parser.Token.{Runes, Place, TokenType, token_string, token_ident, token_number}
use sqlgo.Engine.Parser.Lexer.Cursor.{Unicode, advance}
use sqlgo.Engine.Parser.Lexer.Readers.{single_quote, read_ident, is_word_rune, word_token}
use sqlgo.Engine.Parser.Lexer.{
  emitted, operator, emit_one, emit_two, punctuation, lone_operator, double_operator, or_else,
  word_or_illegal, next_token, round_at, back_quote,
}
use sqlgo.Engine.Parser.Lexer.Walk.{walk}
use sqlgo.Engine.Parser.Lexer.Printed.{
  space, IsUnicode, Lexeme, text, quoted, word, number, sign, pair, doubled, print, IsLexeme,
  token_at,
}
use sqlgo.Engine.Parser.Lexer.RoundTrip.{
  Bounded, string_body-doubled, quoted_body-plain, write_while-run, read_number-run, digit-of_ascii,
}

-- A rune that opens no comment, string, quoted name or operator.
abbrev IsPlain : ℕ → Type 0
IsPlain c = ((47 < c) × (c < 58)) ⊎ (64 < c) × (c ≢ 91) × (c ≢ 96) × (c ≢ 124) × (c ≢ 126)

operator-plain : (c : ℕ) (cs : Runes) (p : Place) → IsPlain c → operator c cs p ≡ none
unfolding operator double_operator lone_operator punctuation
operator-plain c [] p h = ground arith
operator-plain c (d ∷ cs) p h = ground arith

module _ (u : Unicode) where
  round_at-plain :
      (c : ℕ) (cs : Runes) (p : Place)
      → IsPlain c
      → round_at u (c ∷ cs) p ≡ ok (word_or_illegal u c cs p)
  unfolding round_at next_token
  round_at-plain c cs p h = ground (arith, operator-plain c cs p h)

  round_at-sign :
      (c : ℕ) (t : TokenType) (rest : Runes) (p : Place)
      → or_else (lone_operator c) (punctuation c) ≡ some t
      → Bounded rest
      → round_at u (c ∷ rest) p ≡ ok (emit_one c rest p t)
  unfolding round_at next_token operator double_operator lone_operator punctuation
  round_at-sign c t [] p h b = ground arith
  round_at-sign c t (d ∷ rest) p h b = ground arith

  round_at-pair :
      (c d : ℕ) (t : TokenType) (rest : Runes) (p : Place)
      → double_operator c d ≡ some t
      → round_at u (c ∷ d ∷ rest) p ≡ ok (emit_two c d rest p t)
  unfolding round_at next_token operator double_operator
  round_at-pair c d t rest p h = ground arith

  round_at-text :
      (s rest : Runes) (p : Place)
      → Bounded rest
      → round_at u (single_quote ∷ (doubled s ++ single_quote ∷ rest)) p
        ≡ ok (
            emitted
              (record { type = token_string; value = s; place = p })
              rest
              (walk (print (text s)) p))
  unfolding round_at next_token
  round_at-text s rest p b = rw (string_body-doubled s [] rest (advance single_quote p) b) refl

  round_at-quoted :
      (s rest : Runes) (p : Place)
      → All (λ c. (c == back_quote) ≡ false) s
      → round_at u (back_quote ∷ (s ++ back_quote ∷ rest)) p
        ≡ ok (
            emitted
              (record { type = token_ident; value = s; place = p })
              rest
              (walk (print (quoted s)) p))
  unfolding round_at next_token
  round_at-quoted s rest p a = rw (quoted_body-plain s [] rest (advance back_quote p) a) refl

module _ (u : Unicode) (laws : IsUnicode u) where
  open laws use {letter_space, letter_digit, letter_ascii, digit_ascii, visible_space}

  letter-IsPlain : (c : ℕ) → (u.is_letter c || c == b'_') ≡ true → IsPlain c
  letter-IsPlain c h = inr (
    ground (arith, letter_ascii c),
    ground (arith, letter_ascii c),
    ground (arith, letter_ascii c),
    ground (arith, letter_ascii c),
    ground (arith, letter_ascii c),
  )

  space-word_rune : is_word_rune u space ≡ false
  unfolding is_word_rune
  space-word_rune = rw (letter_ascii space (omega arith), digit_ascii space (omega arith)) refl

  word_or_illegal-word :
      (c : ℕ) (w rest : Runes) (p : Place)
      → IsLexeme u (word c w)
      → Bounded rest
      → word_or_illegal u c (w ++ rest) p ≡ emitted (word_token u p (c ∷ w)) rest (walk (c ∷ w) p)
  unfolding word_or_illegal read_ident is_word_rune
  word_or_illegal-word c w rest p (h, a) b =
      let digit : u.is_digit c ≡ false = ground (arith, letter_digit c, digit_ascii c) in
      let first : is_word_rune u c ≡ true = ground arith in
      rw (digit, h, write_while-run (is_word_rune u) (c ∷ w) [] rest p (first, a) b space-word_rune)
        refl

  word_or_illegal-number :
      (c : ℕ) (w rest : Runes) (p : Place)
      → IsLexeme u (number c w)
      → Bounded rest
      → word_or_illegal u c (w ++ rest) p
        ≡ emitted (record { type = token_number; value = c ∷ w; place = p }) rest (walk (c ∷ w) p)
  unfolding word_or_illegal
  word_or_illegal-number c w rest p h b =
      rw (digit-of_ascii u laws c h.0, read_number-run u laws (c ∷ w) rest p h b) refl

  -- A round at a printed lexeme gives its token and leaves what follows.
  pub round_at-print :
      (l : Lexeme) (rest : Runes) (p : Place)
      → IsLexeme u l
      → Bounded rest
      → round_at u (print l ++ rest) p ≡ ok (emitted (token_at u p l) rest (walk (print l) p))
  unfolding emit_one emit_two
  round_at-print (text s) rest p h b =
      rw (append_assoc (doubled s) (single_quote ∷ []) rest) (round_at-text u s rest p b)
  round_at-print (quoted s) rest p h b =
      rw (append_assoc s (back_quote ∷ []) rest) (round_at-quoted u s rest p h)
  round_at-print (word c w) rest p h b =
      round_at-plain u c (w ++ rest) p (letter-IsPlain c h.0)
      ∙ ap ok (word_or_illegal-word c w rest p h b)
  round_at-print (number c w) rest p h b =
      round_at-plain u c (w ++ rest) p (inl (ground arith, ground arith))
      ∙ ap ok (word_or_illegal-number c w rest p h b)
  round_at-print (sign c t) rest p h b = round_at-sign u c t rest p h b
  round_at-print (pair c d t) rest p h b = round_at-pair u c d t rest p h

  -- A printed lexeme begins with a rune that is no white space.
  pub print-visible :
      (l : Lexeme)
      → IsLexeme u l
      → (c : ℕ) × (cs : Runes) × (print l ≡ c ∷ cs) × (u.is_space c ≡ false)
  unfolding double_operator lone_operator punctuation
  print-visible (text s) h = (single_quote, _, refl, visible_space _ (omega arith) (omega arith))
  print-visible (quoted s) h = (back_quote, _, refl, visible_space _ (omega arith) (omega arith))
  print-visible (word c w) h = (c, w, refl, ground (arith, letter_space c, visible_space c))
  print-visible (number c w) h = (c, w, refl, visible_space c (ground arith) (ground arith))
  print-visible (sign c t) h = (c, [], refl, visible_space c (ground arith) (ground arith))
  print-visible (pair c d t) h = (c, d ∷ [], refl, visible_space c (ground arith) (ground arith))
