-- ===== src/Engine/Parser/Lexer/Positions.antt =====
-- internal/engine/parser/lexer.go: the `switch` of a round of `Tokenize` takes a token, which stands
-- where it says.
use mathlib.Core.Option
use mathlib.Core.Option.{Option}
use sqlgo.Base.{
  ℕ, true, [], ◌∷◌, ◌++◌, ◌≡◌, ◌≢◌, refl, ap, inl, inr, Bool-cases, arith, none, some, map,
  Option-cases, ◌==◌, ◌||◌, Result, ok, err, ◌>>=◌,
}
use sqlgo.Engine.Parser.Token.{Runes, Place, TokenType, token_number, token_string, token_ident}
use sqlgo.Engine.Parser.Keywords.{keywords, lookup}
use sqlgo.Engine.Parser.Lexer.Cursor.{Unicode, advance, Reading, write_while}
use sqlgo.Engine.Parser.Lexer.Readers.{
  LexError, out_of_fuel, read_number, read_ident, exponent, hexadecimal, is_word_rune, word_token,
  single_quote, double_quote,
}
use sqlgo.Engine.Parser.Lexer.{
  Round, finished, skipped, emitted, operator, or_else, double_operator, lone_operator, punctuation,
  word_or_illegal, next_token, emit, back_quote, left_bracket, right_bracket,
}
use sqlgo.Engine.Parser.Lexer.Walk.{
  walk, Eats, Copies, Copies-write_while, Copies-write_if, Copies-after, Copies-stop, Copies-first,
}
use sqlgo.Engine.Parser.Lexer.Progress.{Leaves, string_body-Leaves, quoted_body-Leaves}

-- At least one rune is taken.
abbrev pub EatsSome : Runes → Place → Runes → Place → Type 0
EatsSome cs p rest q =
    (c : ℕ) × (body : Runes) × (cs ≡ c ∷ (body ++ rest)) × (q ≡ walk (c ∷ body) p)

pub EatsSome-cons :
    (c : ℕ) {cs rest : Runes} (p : Place) {q : Place}
    → Eats cs (advance c p) rest q
    → EatsSome (c ∷ cs) p rest q
EatsSome-cons c p (eaten, e, w) = (c, eaten, ap (◌∷◌ c) e, w)

-- What the `switch` of a round gives from `cs` at `p`: a token.
abbrev pub RoundMoves : Runes → Place → Round → Type 0
RoundMoves cs p finished = ⊥
RoundMoves cs p (skipped rest q) = ⊥
RoundMoves cs p (emitted t rest q) = (t.place ≡ p) × EatsSome cs p rest q

abbrev pub Moves : Runes → Place → Result LexError Round → Type 0
Moves cs p (ok r) = RoundMoves cs p r
Moves cs p (err e) = e ≢ out_of_fuel

abbrev Holds {ℓ} : {A : Type ℓ} → (A → Type 0) → Option A → Type 0
Holds P none = Unit {0}
Holds P (some a) = P a

Holds-map :
    {A : Type 0} (P : Round → Type 0) (f : A → Round) (o : Option A)
    → ((a : A) → P (f a))
    → Holds P (Option.map f o)
Holds-map P f none h = tt
Holds-map P f (some a) h = h a

Holds-or_else :
    (P : Round → Type 0) (a b : Option Round) → Holds P a → Holds P b → Holds P (or_else a b)
Holds-or_else P none b ha hb = hb
Holds-or_else P (some r) b ha hb = ha

operator-RoundMoves :
    (c : ℕ) (cs : Runes) (p : Place) → Holds (RoundMoves (c ∷ cs) p) (operator c cs p)
unfolding operator
operator-RoundMoves c [] p =
    Holds-map _ _ (or_else (lone_operator c) (punctuation c)) (λ t. (refl, (c, [], refl, refl)))
operator-RoundMoves c (d ∷ cs) p =
    Holds-or_else (RoundMoves (c ∷ d ∷ cs) p) _ _
      (Holds-map (RoundMoves (c ∷ d ∷ cs) p) _ (double_operator c d)
        (λ t. (refl, (c, d ∷ [], refl, refl))))
      (Holds-map (RoundMoves (c ∷ d ∷ cs) p) _ (or_else (lone_operator c) (punctuation c))
        (λ t. (refl, (c, [], refl, refl))))

hexadecimal-Copies : (sb cs : Runes) (p : Place) → Copies sb cs p (hexadecimal sb cs p)
unfolding hexadecimal
hexadecimal-Copies sb = Copies-write_if _ _ (Copies-write_while _) sb

bind-Moves :
    (c : ℕ) (cs : Runes) (p : Place) (t : TokenType) (r : Result LexError Reading)
    → Leaves cs (advance c p) r
    → Moves (c ∷ cs) p (r >>= λ x. ok (emit t p x))
bind-Moves c cs p t (ok r) h = (refl, EatsSome-cons c p h)
bind-Moves c cs p t (err e) h = h

choose-Moves :
    (cs : Runes) (p : Place) (o : Option Round) (r : Round)
    → Holds (RoundMoves cs p) o
    → RoundMoves cs p r
    → Moves cs p (elim o as (λ _. Result LexError Round) [ some t ↦ ok t | none ↦ ok r ])
choose-Moves cs p none r ho hr = hr
choose-Moves cs p (some t) r ho hr = ho

module _ (u : Unicode) where
  open u use {is_letter, is_digit}

  exponent-Copies : (sb cs : Runes) (p : Place) → Copies sb cs p (exponent u sb cs p)
  unfolding exponent
  exponent-Copies = Copies-write_if _ _ λ sb cs p.
      Copies-after sb _ _ (Copies-write_if _ _ Copies-stop sb cs p) (Copies-write_while is_digit)

  read_number-RoundMoves :
      (c : ℕ) (cs : Runes) (p : Place) (t : TokenType)
      → is_digit c ≡ true
      → RoundMoves (c ∷ cs) p (emit t p (read_number u (c ∷ cs) p))
  unfolding read_number
  read_number-RoundMoves c cs p t d =
      let first = write_while (λ (x : ℕ). is_digit x || x == b'.') (c ∷ []) cs (advance c p) in
      let (eaten, _, e, w) =
        Copies-after (c ∷ []) _ _
          (Copies-after (c ∷ []) first _ (Copies-write_while _ (c ∷ []) cs (advance c p))
            exponent-Copies)
          hexadecimal-Copies in
      rw (Copies-first (λ (x : ℕ). is_digit x || x == b'.') c cs p (rw d))
        (refl, EatsSome-cons c p (eaten, e, w))

  read_ident-EatsSome :
      (c : ℕ) (cs : Runes) (p : Place)
      → (is_letter c || c == b'_') ≡ true
      → EatsSome (c ∷ cs) p (read_ident u (c ∷ cs) p).rest (read_ident u (c ∷ cs) p).place
  unfolding read_ident is_word_rune
  read_ident-EatsSome c cs p l =
      let (eaten, _, e, w) = Copies-write_while (is_word_rune u) (c ∷ []) cs (advance c p) in
      rw (Copies-first (is_word_rune u) c cs p (ground arith)) (EatsSome-cons c p (eaten, e, w))

  word_token-place : (p : Place) (word : Runes) → (word_token u p word).place ≡ p
  unfolding word_token
  word_token-place p word = elim (Option-cases (lookup (map u.to_upper word) keywords)) [
    | inl e ↦ rw (e, word_token) refl
    | inr (t, e) ↦ rw (e, word_token) refl
  ]

  word_or_illegal-RoundMoves :
      (c : ℕ) (cs : Runes) (p : Place) → RoundMoves (c ∷ cs) p (word_or_illegal u c cs p)
  unfolding word_or_illegal
  word_or_illegal-RoundMoves c cs p = elim (Bool-cases (is_digit c)) [
    | inl d ↦ rw d (read_number-RoundMoves c cs p token_number d)
    | inr d ↦ rw d elim (Bool-cases (is_letter c || c == b'_')) [
      | inl l ↦ rw l (word_token-place p _, read_ident-EatsSome c cs p l)
      | inr l ↦ rw l (refl, (c, [], refl, refl))
    ]
  ]

  pub next_token-Moves : (c : ℕ) (cs : Runes) (p : Place) → Moves (c ∷ cs) p (next_token u c cs p)
  unfolding next_token
  next_token-Moves c cs p = elim (Bool-cases (c == single_quote || c == double_quote)) [
    | inl s ↦ rw s (bind-Moves c cs p token_string _ (string_body-Leaves c [] cs (advance c p)))
    | inr s ↦ rw s elim (Bool-cases (c == back_quote)) [
      | inl b ↦
          rw b (bind-Moves c cs p token_ident _ (quoted_body-Leaves back_quote [] cs (advance c p)))
      | inr b ↦ rw b elim (Bool-cases (c == left_bracket)) [
        | inl l ↦
            rw l (
              bind-Moves c cs p token_ident _
                (quoted_body-Leaves right_bracket [] cs (advance c p)))
        | inr l ↦ rw l (
            choose-Moves (c ∷ cs) p (operator c cs p) _ (operator-RoundMoves c cs p)
              (word_or_illegal-RoundMoves c cs p))
      ]
    ]
  ]
