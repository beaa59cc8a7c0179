-- ===== src/Engine/Parser/Stream.antt =====
-- internal/engine/parser/parser.go: the parser's walk over the tokens. The parser never goes back,
-- so `tokens[pos:]` stands for `tokens` and `pos`.
use sqlgo.Base.{Bool, true, false, List, [], ◌∷◌, ◌||◌, if◌then◌else◌, Result, ok, err}
use sqlgo.Engine.Parser.Iota.{same_type}
use sqlgo.Engine.Parser.Token.{
  Runes, Token, TokenType, token_eof, token_ident, kw_abort, kw_action, kw_add, kw_after, kw_always,
  kw_as, kw_before, kw_begin, kw_cascade, kw_check, kw_column, kw_commit, kw_conflict,
  kw_constraint, kw_cross, kw_current, kw_deferrable, kw_deferred, kw_do, kw_each, kw_exclude,
  kw_exclusive, kw_fail, kw_filter, kw_first, kw_following, kw_for, kw_foreign, kw_from, kw_full,
  kw_generated, kw_groups, kw_ignore, kw_immediate, kw_index, kw_indexes, kw_initially, kw_instead,
  kw_join, kw_key, kw_last, kw_match, kw_natural, kw_no, kw_nothing, kw_nulls, kw_of, kw_on,
  kw_others, kw_outer, kw_over, kw_partition, kw_pragma, kw_preceding, kw_range, kw_recursive,
  kw_references, kw_release, kw_rename, kw_replace, kw_restrict, kw_returning, kw_right,
  kw_rollback, kw_row, kw_rowid, kw_rows, kw_savepoint, kw_select, kw_set, kw_statement, kw_stored,
  kw_table, kw_tables, kw_ties, kw_to, kw_transaction, kw_trigger, kw_unbounded, kw_using,
  kw_vacuum, kw_view, kw_virtual, kw_where, kw_window,
}

-- The errors that the parser reports: a token where another was expected, a token that cannot
-- stand there, a number that `strconv` refuses. The last has no counterpart: the model's fuel is
-- spent.
pub data ParseError : Type 0 where
  expected : TokenType → Token → ParseError
  unexpected : Token → ParseError
  invalid_number : Runes → ParseError
  out_of_fuel : ParseError

abbrev pub Tokens : Type 0
Tokens = List Token

abbrev pub Parsed : Type 0 → Type 0
Parsed A = Result ParseError (A × Tokens)

abbrev pub Parser : Type 0 → Type 0
Parser A = Tokens → Parsed A

-- An early `return nil, err`, or the next statement with the tokens that are left.
abbrev pub and_then : {A B : Type 0} → Parsed A → (A → Parser B) → Parsed B
and_then (ok (a, rest)) next = next a rest
and_then (err e) next = err e

infixl 5 ◌>>=◌ ◌>>◌
abbrev pub ◌>>=◌ : {A B : Type 0} → Parser A → (A → Parser B) → Parser B
◌>>=◌ p next ts = and_then (p ts) next

abbrev pub ◌>>◌ : {A B : Type 0} → Parser A → Parser B → Parser B
p >> q = p >>= λ _. q

abbrev pub pure : {A : Type 0} → A → Parser A
pure a ts = ok (a, ts)

abbrev pub fail : {A : Type 0} → ParseError → Parser A
fail e ts = err e

-- What `peek` gives behind the last token.
abbrev pub end_token : Token
end_token = record { type = token_eof; value = []; place = record { line = 0; col = 0 } }

abbrev pub peek : Tokens → Token
peek [] = end_token
peek (t ∷ ts) = t

-- `p.peek().Type == t`
unfoldable pub starts : TokenType → Tokens → Bool
starts t ts = same_type (peek ts).type t

-- `advance`, without the token that it returns: an end-of-file token stays.
unfoldable pub advance_tokens : Tokens → Tokens
advance_tokens [] = []
advance_tokens (t ∷ ts) = if same_type t.type token_eof then t ∷ ts else ts

-- `p.advance()` for its token.
unfoldable pub next_token_of : Parser Token
unfolding advance_tokens
next_token_of ts = ok (peek ts, advance_tokens ts)

unfoldable pub expect : TokenType → Parser Token
unfolding starts next_token_of
expect t ts = if starts t ts then next_token_of ts else err (expected t (peek ts))

-- `if p.peek().Type == t { p.advance(); then } else { other }`
unfoldable pub if_next : {A : Type 0} → TokenType → Parser A → Parser A → Parser A
unfolding starts advance_tokens
if_next t taken other ts = if starts t ts then taken (advance_tokens ts) else other ts

-- `if p.peek().Type == t { yes } else { no }`, with no token taken.
unfoldable pub if_at : {A : Type 0} → TokenType → Parser A → Parser A → Parser A
unfolding starts
if_at t taken other ts = if starts t ts then taken ts else other ts

-- The same for a test on the type.
unfoldable pub if_type : {A : Type 0} → (TokenType → Bool) → Parser A → Parser A → Parser A
if_type test taken other ts = if test (peek ts).type then taken ts else other ts

-- `if p.peek().Type == t { p.advance(); flag = true }`
unfoldable pub flag : TokenType → Parser Bool
unfolding if_next
flag t = if_next t (pure true) (pure false)

-- The error of a token that cannot stand here.
unfoldable pub refuse : {A : Type 0} → Parser A
refuse ts = err (unexpected (peek ts))

-- What a function that reads no token returns.
abbrev pub returned : {A : Type 0} → Result ParseError A → Parser A
returned (ok a) ts = ok (a, ts)
returned (err e) ts = err e

-- The keywords that `expectIdent` takes for a name.
abbrev pub name_keywords : List TokenType
name_keywords =
    kw_select ∷ kw_from ∷ kw_where ∷ kw_as ∷ kw_join ∷ kw_on ∷ kw_set ∷ kw_tables ∷ kw_indexes
    ∷ kw_view ∷ kw_column ∷ kw_add ∷ kw_rename ∷ kw_to ∷ kw_key ∷ kw_index ∷ kw_table ∷ kw_replace
    ∷ kw_ignore ∷ kw_abort ∷ kw_fail ∷ kw_conflict ∷ kw_action ∷ kw_cascade ∷ kw_no ∷ kw_restrict
    ∷ kw_match ∷ kw_rowid ∷ kw_stored ∷ kw_virtual ∷ kw_always ∷ kw_nothing ∷ kw_do ∷ kw_returning
    ∷ kw_nulls ∷ kw_first ∷ kw_last ∷ kw_range ∷ kw_rows ∷ kw_groups ∷ kw_current ∷ kw_preceding
    ∷ kw_following ∷ kw_unbounded ∷ kw_ties ∷ kw_exclude ∷ kw_others ∷ kw_over ∷ kw_partition
    ∷ kw_filter ∷ kw_window ∷ kw_before ∷ kw_after ∷ kw_instead ∷ kw_of ∷ kw_for ∷ kw_each ∷ kw_row
    ∷ kw_statement ∷ kw_trigger ∷ kw_references ∷ kw_foreign ∷ kw_check ∷ kw_constraint
    ∷ kw_generated ∷ kw_deferrable ∷ kw_initially ∷ kw_deferred ∷ kw_immediate ∷ kw_exclusive
    ∷ kw_begin ∷ kw_commit ∷ kw_rollback ∷ kw_transaction ∷ kw_savepoint ∷ kw_release ∷ kw_pragma
    ∷ kw_vacuum ∷ kw_recursive ∷ kw_outer ∷ kw_full ∷ kw_natural ∷ kw_cross ∷ kw_using ∷ kw_right
    ∷ []

unfoldable pub one_of : TokenType → List TokenType → Bool
one_of t [] = false
one_of t (k ∷ ks) = same_type t k || one_of t ks

-- The types that `expectIdent` takes for a name.
unfoldable pub takes_name : TokenType → Bool
unfolding one_of
takes_name t = same_type t token_ident || one_of t name_keywords

unfoldable pub expect_ident : Parser Runes
unfolding takes_name
expect_ident ts =
    if takes_name (peek ts).type
    then ok ((peek ts).value, advance_tokens ts)
    else err (unexpected (peek ts))
