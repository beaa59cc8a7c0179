-- ===== src/Engine/Parser/Lexer.antt =====
-- internal/engine/parser/lexer.go: `Lexer` and `Tokenize`.
pub mod Cursor
pub mod Readers
pub mod Walk
pub mod Progress
pub mod Gaps
pub mod Positions
pub mod Steps
pub mod Total
pub mod Printed
pub mod RoundTrip
pub mod Lexemes
pub mod Inverse
mod Tests
use mathlib.Core.Option
use mathlib.Core.Option.{Option}
use sqlgo.Base.{
  ℕ, zero, suc, ◌+◌, Bool, true, false, List, [], ◌∷◌, ◌++◌, none, some, ◌==◌, ◌&&◌, ◌||◌,
  if◌then◌else◌, length, Result, ok, err, ◌>>=◌,
}
use sqlgo.Engine.Parser.Token.{
  Runes, Place, Token, TokenType, token_eof, token_illegal, token_ident, token_number, token_string,
  token_comma, token_semicolon, token_lparen, token_rparen, token_dot, token_star, token_eq,
  token_neq, token_lt, token_lte, token_gt, token_gte, token_plus, token_minus, token_slash,
  token_percent, token_pipe_pipe, token_ampersand, token_pipe, token_tilde, token_lshift,
  token_rshift,
}
use sqlgo.Engine.Parser.Lexer.Cursor.{Unicode, advance, skip_whitespace, skip_line_comment, Reading}
use sqlgo.Engine.Parser.Lexer.Readers.{
  LexError, out_of_fuel, single_quote, double_quote, block_comment, string_body, quoted_body,
  read_number, read_ident, word_token,
}

abbrev pub back_quote : ℕ
back_quote = 96

abbrev pub left_bracket : ℕ
left_bracket = 91

abbrev pub right_bracket : ℕ
right_bracket = 93

-- The cases of the `switch` that take one rune whatever follows.
pub punctuation : ℕ → Option TokenType
punctuation c =
    if c == b','
    then some token_comma
    else if c == b';'
    then some token_semicolon
    else if c == b'('
    then some token_lparen
    else if c == b')'
    then some token_rparen
    else if c == b'.'
    then some token_dot
    else if c == b'*'
    then some token_star
    else if c == b'='
    then some token_eq
    else if c == b'+'
    then some token_plus
    else if c == b'-'
    then some token_minus
    else if c == b'/'
    then some token_slash
    else if c == b'%'
    then some token_percent
    else if c == b'&'
    then some token_ampersand
    else if c == b'~'
    then some token_tilde
    else none

-- The cases `<`, `>`, `!` and `|`, where no second rune fits.
pub lone_operator : ℕ → Option TokenType
lone_operator c =
    if c == b'<'
    then some token_lt
    else if c == b'>'
    then some token_gt
    else if c == b'!'
    then some token_illegal
    else if c == b'|'
    then some token_pipe
    else none

-- The same cases, where the second rune fits.
pub double_operator : ℕ → ℕ → Option TokenType
double_operator c d =
    if c == b'<' && d == b'='
    then some token_lte
    else if c == b'<' && d == b'>'
    then some token_neq
    else if c == b'<' && d == b'<'
    then some token_lshift
    else if c == b'>' && d == b'='
    then some token_gte
    else if c == b'>' && d == b'>'
    then some token_rshift
    else if c == b'!' && d == b'='
    then some token_neq
    else if c == b'|' && d == b'|'
    then some token_pipe_pipe
    else none

abbrev pub or_else {ℓ} : {A : Type ℓ} → Option A → Option A → Option A
or_else (some a) o = some a
or_else none o = o

-- What one round of the loop of `Tokenize` does.
pub data Round : Type 0 where
  finished : Round
  skipped : Runes → Place → Round
  emitted : Token → Runes → Place → Round

-- A token of one rune, and of two.
emit_one : ℕ → Runes → Place → TokenType → Round
emit_one c cs p t = emitted (record { type = t; value = c ∷ []; place = p }) cs (advance c p)

emit_two : ℕ → ℕ → Runes → Place → TokenType → Round
emit_two c d cs p t =
    emitted (record { type = t; value = c ∷ d ∷ []; place = p }) cs (advance d (advance c p))

unfoldable pub operator : ℕ → Runes → Place → Option Round
unfolding emit_one emit_two
operator c [] p = Option.map (emit_one c [] p) (or_else (lone_operator c) (punctuation c))
operator c (d ∷ cs) p =
    or_else (Option.map (emit_two c d cs p) (double_operator c d))
      (Option.map (emit_one c (d ∷ cs) p) (or_else (lone_operator c) (punctuation c)))

-- The token of a reader that began at `p`.
abbrev pub emit : TokenType → Place → Reading → Round
emit t p r = emitted (record { type = t; value = r.text; place = p }) r.rest r.place

-- `l.pos+1 < len(l.input) && l.input[l.pos+1] == c`
abbrev pub next_is : ℕ → Runes → Bool
next_is c [] = false
next_is c (d ∷ cs) = d == c

pub rest_of_comment : Runes → Place → Result LexError (Runes × Place)
rest_of_comment [] p = block_comment [] p
rest_of_comment (d ∷ cs) p = block_comment cs (advance d p)

abbrev pub skip : Runes × Place → Round
skip (cs, p) = skipped cs p

module _ (u : Unicode) where
  open u use {is_letter, is_digit}

  -- The `default` case.
  unfoldable pub word_or_illegal : ℕ → Runes → Place → Round
  unfolding emit_one
  word_or_illegal c cs p =
      if is_digit c
      then emit token_number p (read_number u (c ∷ cs) p)
      else if is_letter c || c == b'_'
      then (let r = read_ident u (c ∷ cs) p in emitted (word_token u p r.text) r.rest r.place)
      else emit_one c cs p token_illegal

  -- The `switch`.
  pub next_token : ℕ → Runes → Place → Result LexError Round
  next_token c cs p =
      if c == single_quote || c == double_quote
      then (string_body c [] cs (advance c p) >>= λ r. ok (emit token_string p r))
      else if c == back_quote
      then (quoted_body back_quote [] cs (advance c p) >>= λ r. ok (emit token_ident p r))
      else if c == left_bracket
      then (quoted_body right_bracket [] cs (advance c p) >>= λ r. ok (emit token_ident p r))
      else elim (operator c cs p) [ some t ↦ ok t | none ↦ ok (word_or_illegal c cs p) ]

  -- A round, behind the white space.
  pub round_at : Runes → Place → Result LexError Round
  round_at [] p = ok finished
  round_at (c ∷ cs) p =
      if c == b'-' && next_is b'-' cs
      then ok (skip (skip_line_comment (c ∷ cs) p))
      else if c == b'/' && next_is b'*' cs
      then (rest_of_comment cs (advance c p) >>= λ l. ok (skip l))
      else next_token c cs p

  pub next_round : Runes → Place → Result LexError Round
  next_round cs p = let (rest, q) = skip_whitespace u cs p in round_at rest q

  -- Goes on behind a round, with what the loop does next.
  abbrev pub proceed :
      (Runes → Place → List Token → Result LexError (List Token))
      → List Token
      → Result LexError Round
      → Result LexError (List Token)
  proceed loop tokens (err e) = err e
  proceed loop tokens (ok finished) =
      ok (
        tokens
        ++ record { type = token_eof; value = []; place = record { line = 0; col = 0 } } ∷ [])
  proceed loop tokens (ok (skipped cs p)) = loop cs p tokens
  proceed loop tokens (ok (emitted t cs p)) = loop cs p (tokens ++ t ∷ [])

  pub rounds : ℕ → Runes → Place → List Token → Result LexError (List Token)
  rounds zero cs p tokens = err out_of_fuel
  rounds (suc fuel) cs p tokens = proceed (rounds fuel) tokens (next_round cs p)

  -- `NewLexer(input).Tokenize()`, with a round for each rune and one for the end.
  pub tokenize : Runes → Result LexError (List Token)
  tokenize input = rounds (length input + 1) input (record { line = 1; col = 1 }) []
