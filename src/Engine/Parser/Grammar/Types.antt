-- ===== src/Engine/Parser/Grammar/Types.antt =====
-- internal/engine/parser/parser.go: `parseTypeName`.
use sqlgo.Base.{ℕ, Bool, false, [], ◌∷◌, ◌||◌, map, bytes_eq, if◌then◌else◌, ok}
use sqlgo.Engine.Parser.Token.{
  Runes, codes, Token, TokenType, token_ident, token_lparen, token_rparen, token_eof, kw_integer,
  kw_text, kw_real, kw_blob,
}
use sqlgo.Engine.Parser.Iota.{same_type}
use sqlgo.Engine.Parser.Stream.{
  Parser, Tokens, ◌>>=◌, ◌>>◌, pure, peek, starts, advance_tokens, next_token_of, if_next, if_at,
  if_type,
}

-- The loop of a type's parenthesis: up to `)`, which is taken, or the end.
unfoldable pub skip_parens : Tokens → Tokens
skip_parens [] = []
skip_parens (t ∷ ts) =
    if same_type t.type token_eof
    then t ∷ ts
    else if same_type t.type token_rparen
    then ts
    else skip_parens ts

unfoldable pub type_size : Parser (Unit {0})
type_size = if_next token_lparen (λ ts. ok (tt, skip_parens ts)) (pure tt)

abbrev pub is_type_keyword : TokenType → Bool
is_type_keyword t =
    same_type t kw_integer || same_type t kw_text || same_type t kw_real || same_type t kw_blob

module _ (to_upper : ℕ → ℕ) where
  -- The name of the token in upper case is `word`.
  abbrev pub says : Runes → Token → Bool
  says word t = bytes_eq (map to_upper t.value) word

  abbrev pub ident_says : Runes → Tokens → Bool
  ident_says word ts = if starts token_ident ts then says word (peek ts) else false

  -- The word is taken where it comes next.
  unfoldable pub if_says : Runes → Parser (Unit {0}) → Parser (Unit {0}) → Parser (Unit {0})
  if_says word taken other ts = if ident_says word ts then taken (advance_tokens ts) else other ts

  -- `BIG` and `INT` behind `UNSIGNED`.
  unfoldable pub unsigned_rest : Parser (Unit {0})
  unsigned_rest =
      if_says (codes "BIG")
        (if_next kw_integer (pure tt) (if_says (codes "INT") (pure tt) (pure tt))) (pure tt)

  -- The second word of a type such as `DOUBLE PRECISION`.
  unfoldable pub second_word : Token → Parser (Unit {0})
  second_word t =
      if says (codes "DOUBLE") t || says (codes "VARYING") t || says (codes "NATIVE") t
      then if_next token_ident (pure tt) (pure tt)
      else pure tt

  -- A type that is no keyword.
  unfoldable pub named_type : Token → Parser Runes
  named_type t =
      if says (codes "UNSIGNED") t
      then (do unsigned_rest; pure (codes "INTEGER"))
      else (do second_word t; type_size; pure t.value)

  unfoldable pub parse_type_name : Parser Runes
  parse_type_name =
      if_type is_type_keyword (do t ← next_token_of; type_size; pure t.value)
        (if_at token_ident (do t ← next_token_of; named_type t) (pure (codes "TEXT")))
