-- ===== src/Engine/Parser/Lexer/Total.antt =====
-- internal/engine/parser/lexer.go: `Tokenize` ends, and its tokens stand in the input in their
-- order.
use mathlib.Core.List.{append_assoc, append-nil}
use mathlib.Core.Path.{subst}
use sqlgo.Base.{
  ℕ, Bool, false, zero, suc, ◌+◌, ◌<◌, List, [], ◌∷◌, ◌++◌, ◌≡◌, ◌≢◌, refl, ap, sym, ◌∙◌, arith,
  Result, ok, err, length, length-append,
}
use sqlgo.Engine.Parser.Token.{Runes, Place, Token, token_eof}
use sqlgo.Engine.Parser.Lexer.Cursor.{Unicode, skip_whitespace, skip_while}
use sqlgo.Engine.Parser.Lexer.Readers.{LexError, out_of_fuel}
use sqlgo.Engine.Parser.Lexer.{
  Round, finished, skipped, emitted, round_at, next_round, proceed, rounds, tokenize,
}
use sqlgo.Engine.Parser.Lexer.Walk.{walk, walk-append}
use sqlgo.Engine.Parser.Lexer.Gaps.{
  IsGap, nothing, IsGap-append, Stops, skip_while-Run, blanks-IsGap,
}
use sqlgo.Engine.Parser.Lexer.Steps.{NoComment, Advances, round_at-Advances}

abbrev pub eof : Token
eof = record { type = token_eof; value = []; place = record { line = 0; col = 0 } }

abbrev pub start : Place
start = record { line = 1; col = 1 }

-- A token begins with `c`: neither a blank nor a comment stands there.
abbrev pub BeginsToken : (ℕ → Bool) → ℕ → Runes → Type 0
BeginsToken is_space c cs = (is_space c ≡ false) × NoComment (c ∷ cs)

module _ (is_space : ℕ → Bool) where
  -- The tokens stand in `cs` one behind the other, with blanks and comments before, between and behind
  -- them and nothing else: each has the place of its first rune, `c`.
  abbrev pub InOrder : Runes → Place → List Token → Type 0
  InOrder cs p [] = IsGap is_space cs []
  InOrder cs p (t ∷ ts) =
      (gap : Runes) × (c : ℕ) × (body : Runes) × (rest : Runes) × (cs ≡ gap ++ c ∷ (body ++ rest))
      × IsGap is_space gap (c ∷ (body ++ rest))
      × BeginsToken is_space c (body ++ rest)
      × (t.place ≡ walk gap p)
      × InOrder rest (walk (gap ++ c ∷ body) p) ts

  InOrder-skip :
      (skip cs rest : Runes) (p : Place) (ts : List Token)
      → cs ≡ skip ++ rest
      → IsGap is_space skip rest
      → InOrder rest (walk skip p) ts
      → InOrder cs p ts
  InOrder-skip skip cs rest p [] e g h =
      rw e (IsGap-append is_space rest [] g (sym (append-nil rest)) h)
  InOrder-skip skip cs rest p (t ∷ ts) e g (gap, c, body, behind, f, g', b, w, h) = (
    skip ++ gap,
    c,
    body,
    behind,
    e ∙ (ap (λ (s : Runes). skip ++ s) f ∙ sym (append_assoc skip gap _)),
    IsGap-append is_space gap _ g f g',
    b,
    w ∙ sym (walk-append skip gap p),
    rw (append_assoc skip gap (c ∷ body), walk-append skip (gap ++ c ∷ body) p) h,
  )

  -- What the loop ends with, from `cs` at `p` with the tokens so far.
  abbrev pub Lexed : Runes → Place → List Token → Result LexError (List Token) → Type 0
  Lexed cs p tokens (ok ts) =
      (more : List Token) × (ts ≡ tokens ++ (more ++ eof ∷ [])) × InOrder cs p more
  Lexed cs p tokens (err e) = e ≢ out_of_fuel

  Lexed-skip :
      (skip cs rest : Runes) (p : Place) (tokens : List Token) (r : Result LexError (List Token))
      → cs ≡ skip ++ rest
      → IsGap is_space skip rest
      → Lexed rest (walk skip p) tokens r
      → Lexed cs p tokens r
  Lexed-skip skip cs rest p tokens (ok ts) e g (more, f, h) =
      (more, f, InOrder-skip skip cs rest p more e g h)
  Lexed-skip skip cs rest p tokens (err x) e g h = h

  Lexed-token :
      (c : ℕ) (body cs rest : Runes) (p : Place) (t : Token) (tokens : List Token)
      (r : Result LexError (List Token))
      → cs ≡ c ∷ (body ++ rest)
      → BeginsToken is_space c (body ++ rest)
      → t.place ≡ p
      → Lexed rest (walk (c ∷ body) p) (tokens ++ t ∷ []) r
      → Lexed cs p tokens r
  Lexed-token c body cs rest p t tokens (ok ts) e b w (more, f, h) =
      (t ∷ more, f ∙ append_assoc tokens (t ∷ []) _, ([], c, body, rest, e, nothing _, b, w, h))
  Lexed-token c body cs rest p t tokens (err x) e b w h = h

  Lexed-total :
      (cs : Runes) (p : Place) (tokens : List Token) (r : Result LexError (List Token))
      → Lexed cs p tokens r
      → r ≢ err out_of_fuel
  Lexed-total cs p tokens (ok ts) h = cc
  Lexed-total cs p tokens (err e) h = ground (arith)

begins :
    (is_space : ℕ → Bool) (c : ℕ) (rest cs : Runes)
    → cs ≡ c ∷ rest
    → Stops is_space cs
    → NoComment cs
    → BeginsToken is_space c rest
begins is_space c rest cs e stops n = (subst (Stops is_space) e stops, subst NoComment e n)

module _ (u : Unicode) where
  proceed-Lexed :
      (loop : Runes → Place → List Token → Result LexError (List Token)) (cs : Runes) (p : Place)
      (tokens : List Token) (r : Result LexError Round)
      → ((cs' : Runes) (q : Place) (ts : List Token)
          → length cs' < length cs
          → Lexed u.is_space cs' q ts (loop cs' q ts))
      → Stops u.is_space cs
      → Advances u.is_space cs p r
      → Lexed u.is_space cs p tokens (proceed u loop tokens r)
  proceed-Lexed loop cs p tokens (err e) later stops m = m
  proceed-Lexed loop cs p tokens (ok finished) later stops m = ([], refl, rw m (nothing []))
  proceed-Lexed loop cs p tokens (ok (skipped rest q)) later stops (c, body, e, w, g) =
      Lexed-skip u.is_space (c ∷ body) cs rest p tokens _ e g
        (rw (← w) (later rest q tokens (omega (arith, ap length e, length-append body rest))))
  proceed-Lexed loop cs p tokens (ok (emitted t rest q)) later stops (n, here, (c, body, e, w)) =
      Lexed-token u.is_space c body cs rest p t tokens _ e (begins u.is_space c _ cs e stops n) here
        (rw (← w)
          (later rest q (tokens ++ t ∷ []) (omega (arith, ap length e, length-append body rest))))

  rounds-Lexed :
      (fuel : ℕ) (cs : Runes) (p : Place) (tokens : List Token)
      → length cs < fuel
      → Lexed u.is_space cs p tokens (rounds u fuel cs p tokens)
  unfolding rounds next_round skip_whitespace
  rounds-Lexed zero cs p tokens h = absurd (omega arith)
  rounds-Lexed (suc fuel) cs p tokens h =
      let (white, e, w, all, stops) = skip_while-Run u.is_space cs p in
      let left : Runes × Place = skip_while u.is_space cs p in
      Lexed-skip u.is_space white cs left.0 p tokens _ e (blanks-IsGap u.is_space white _ all) (
        rw (← w) (
          proceed-Lexed (rounds u fuel) left.0 left.1 tokens (round_at u left.0 left.1)
            (λ cs' q ts k.
              rounds-Lexed fuel cs' q ts (omega (arith, ap length e, length-append white left.0)))
            stops (round_at-Advances u left.0 left.1)))

  -- The loop of `Tokenize` ends on every input: with one round for each rune and one more, the fuel
  -- is not spent.
  pub tokenize_total : (input : Runes) → tokenize u input ≢ err out_of_fuel
  unfolding tokenize
  tokenize_total input =
      Lexed-total u.is_space input start [] _
        (rounds-Lexed (length input + 1) input start [] (omega arith))
