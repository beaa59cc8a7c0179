-- ===== src/Engine/Parser/Lexer/Inverse.antt =====
-- internal/engine/parser/lexer.go: `Tokenize` is the inverse of the printer.
use mathlib.Core.List.{append_assoc}
use sqlgo.Base.{
  ℕ, zero, suc, ◌+◌, ◌<◌, ◌≤◌, List, [], ◌∷◌, ◌++◌, ◌≡◌, refl, ap, ◌∙◌, arith, ok, All, length,
  length-append, false,
}
use sqlgo.Engine.Parser.Token.{Runes, Place, Token}
use sqlgo.Engine.Parser.Lexer.Cursor.{Unicode, advance, skip_while, skip_whitespace}
use sqlgo.Engine.Parser.Lexer.{next_round, round_at, rounds, tokenize, emitted, finished}
use sqlgo.Engine.Parser.Lexer.Walk.{walk}
use sqlgo.Engine.Parser.Lexer.Total.{eof, start}
use sqlgo.Engine.Parser.Lexer.Printed.{
  space, IsUnicode, Lexeme, print, print_all, IsLexeme, token_at,
}
use sqlgo.Engine.Parser.Lexer.RoundTrip.{Bounded}
use sqlgo.Engine.Parser.Lexer.Lexemes.{round_at-print, print-visible}

-- The tokens of a printed list, each at the place of its first rune.
abbrev pub tokens_at : Unicode → Place → List Lexeme → List Token
tokens_at u p [] = []
tokens_at u p (l ∷ ls) =
    let q = advance space p in token_at u q l ∷ tokens_at u (walk (print l) q) ls

print_all-Bounded : (ls : List Lexeme) → Bounded (print_all ls)
print_all-Bounded [] = tt
print_all-Bounded (l ∷ ls) = refl

length-le-print_all : (ls : List Lexeme) → length ls ≤ length (print_all ls)
length-le-print_all [] = omega arith
length-le-print_all (l ∷ ls) =
    omega (arith, length-le-print_all ls, length-append (print l) (print_all ls))

module _ (u : Unicode) (laws : IsUnicode u) where
  skip_while-visible :
      (c : ℕ) (cs : Runes) (p : Place)
      → u.is_space c ≡ false
      → skip_while u.is_space (space ∷ c ∷ cs) p ≡ (c ∷ cs, advance space p)
  unfolding skip_while
  skip_while-visible c cs p e = rw (laws.white_space, e) refl

  next_round-print :
      (l : Lexeme) (rest : Runes) (p : Place)
      → IsLexeme u l
      → Bounded rest
      → next_round u (space ∷ (print l ++ rest)) p
        ≡ ok (emitted (token_at u (advance space p) l) rest (walk (print l) (advance space p)))
  unfolding next_round skip_whitespace
  next_round-print l rest p h b =
      let (c, cs, e, v) = print-visible u laws l h in
      let s : skip_while u.is_space (space ∷ (print l ++ rest)) p
          ≡ (print l ++ rest, advance space p) =
        rw e (skip_while-visible c (cs ++ rest) p v) in
      rw s (round_at-print u laws l rest (advance space p) h b)

  next_round-nil : (p : Place) → next_round u [] p ≡ ok finished
  unfolding next_round round_at skip_whitespace skip_while
  next_round-nil p = refl

  rounds-print_all :
      (fuel : ℕ) (ls : List Lexeme) (p : Place) (tokens : List Token)
      → All (IsLexeme u) ls
      → length ls < fuel
      → rounds u fuel (print_all ls) p tokens ≡ ok (tokens ++ (tokens_at u p ls ++ eof ∷ []))
  unfolding rounds
  rounds-print_all zero ls p tokens a h = absurd (omega arith)
  rounds-print_all (suc fuel) [] p tokens a h = rw (next_round-nil p) refl
  rounds-print_all (suc fuel) (l ∷ ls) p tokens (x, a) h =
      rw (next_round-print l (print_all ls) p x (print_all-Bounded ls)) (
        rounds-print_all fuel ls (walk (print l) (advance space p))
          (tokens ++ token_at u (advance space p) l ∷ []) a (omega arith)
        ∙ ap ok (append_assoc tokens (token_at u (advance space p) l ∷ []) _))

  -- A list of lexemes that was printed with blanks between them is read back: `Tokenize` gives the
  -- token of each, in order and at its place, and the end-of-file token. The classes of runes are told
  -- apart and fixed on ASCII as the package `unicode` documents it.
  pub tokenize-print_all :
      (ls : List Lexeme)
      → All (IsLexeme u) ls
      → tokenize u (print_all ls) ≡ ok (tokens_at u start ls ++ eof ∷ [])
  unfolding tokenize
  tokenize-print_all ls a =
      rounds-print_all (length (print_all ls) + 1) ls start [] a
        (omega (arith, length-le-print_all ls))
