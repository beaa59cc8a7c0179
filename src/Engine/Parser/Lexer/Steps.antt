-- ===== src/Engine/Parser/Lexer/Steps.antt =====
-- internal/engine/parser/lexer.go: a round of `Tokenize` passes over a comment or takes a token.
use mathlib.Core.List.{append-nil}
use mathlib.Core.Path.{subst}
use sqlgo.Base.{
  ℕ, Bool, true, false, [], ◌∷◌, ◌++◌, ◌≡◌, ◌≢◌, refl, ap, inl, inr, Bool-cases, arith, not, ◌==◌,
  ◌&&◌, Result, ok, err, ◌>>=◌, All,
}
use sqlgo.Engine.Parser.Token.{Runes, Place}
use sqlgo.Engine.Parser.Lexer.Cursor.{Unicode, newline, advance, skip_line_comment, skip_while}
use sqlgo.Engine.Parser.Lexer.Readers.{LexError, out_of_fuel}
use sqlgo.Engine.Parser.Lexer.{
  Round, finished, skipped, emitted, round_at, rest_of_comment, next_is, skip,
}
use sqlgo.Engine.Parser.Lexer.Walk.{walk}
use sqlgo.Engine.Parser.Lexer.Gaps.{
  IsGap, EndsComment, EndsLine, nothing, line_comment, comment, skip_while-Run, no_newline,
  line_ends, Commented, block_comment-Commented,
}
use sqlgo.Engine.Parser.Lexer.Positions.{EatsSome, Moves, next_token-Moves}

-- No comment begins here.
abbrev pub NoComment : Runes → Type 0
NoComment [] = Unit
NoComment (c ∷ cs) =
    ((c == b'-' && next_is b'-' cs) ≡ false) × ((c == b'/' && next_is b'*' cs) ≡ false)

-- What a round gives from `cs` at `p`, where no blank stands.
abbrev pub RoundAdvances : (ℕ → Bool) → Runes → Place → Round → Type 0
RoundAdvances is_space cs p finished = cs ≡ []
RoundAdvances is_space cs p (skipped rest q) =
    (c : ℕ) × (body : Runes) × (cs ≡ c ∷ (body ++ rest))
    × (q ≡ walk (c ∷ body) p)
    × IsGap is_space (c ∷ body) rest
RoundAdvances is_space cs p (emitted t rest q) = NoComment cs × (t.place ≡ p) × EatsSome cs p rest q

abbrev pub Advances : (ℕ → Bool) → Runes → Place → Result LexError Round → Type 0
Advances is_space cs p (ok r) = RoundAdvances is_space cs p r
Advances is_space cs p (err e) = e ≢ out_of_fuel

module _ (is_space : ℕ → Bool) where
  Advances-of_Moves :
      (cs : Runes) (p : Place) (r : Result LexError Round)
      → NoComment cs
      → Moves cs p r
      → Advances is_space cs p r
  Advances-of_Moves cs p (ok finished) n h = absurd h
  Advances-of_Moves cs p (ok (skipped rest q)) n h = absurd h
  Advances-of_Moves cs p (ok (emitted t rest q)) n h = (n, h.0, h.1)
  Advances-of_Moves cs p (err e) n h = h

  comment-IsGap :
      (c d : ℕ) (text after : Runes)
      → (c == b'/' && d == b'*') ≡ true
      → EndsComment (text ++ after) after
      → IsGap is_space (c ∷ d ∷ text) after
  comment-IsGap c d text after o t =
      subst (λ (s : Runes). IsGap is_space (c ∷ d ∷ s) after) (append-nil text)
        (comment c d text [] after o t (nothing after))

  line_comment-IsGap :
      (c d : ℕ) (text after : Runes)
      → (c == b'-' && d == b'-') ≡ true
      → All (λ x. (x == newline) ≡ false) text
      → EndsLine after
      → IsGap is_space (c ∷ d ∷ text) after
  line_comment-IsGap c d text after o t l =
      subst (λ (s : Runes). IsGap is_space (c ∷ d ∷ s) after) (append-nil text)
        (line_comment c d text [] after o t l (nothing after))

  comment-Advances :
      (c d : ℕ) (cs : Runes) (p : Place) (r : Result LexError (Runes × Place))
      → (c == b'/' && d == b'*') ≡ true
      → Commented cs (advance d (advance c p)) r
      → Advances is_space (c ∷ d ∷ cs) p (r >>= λ l. ok (skip l))
  comment-Advances c d cs p (ok (rest, q)) o (text, e, w, ends) = (
    c,
    d ∷ text,
    ap (λ (s : Runes). c ∷ d ∷ s) e,
    w,
    comment-IsGap c d text rest o (rw (← e) ends),
  )
  comment-Advances c d cs p (err x) o h = h

  block-Advances :
      (c : ℕ) (cs : Runes) (p : Place)
      → (c == b'/' && next_is b'*' cs) ≡ true
      → Advances is_space (c ∷ cs) p (rest_of_comment cs (advance c p) >>= λ l. ok (skip l))
  unfolding rest_of_comment
  block-Advances c [] p o = ground (arith, o)
  block-Advances c (d ∷ cs) p o =
      comment-Advances c d cs p _ o (block_comment-Commented cs (advance d (advance c p)))

  dash_is_no_newline : (c : ℕ) → (c == b'-') ≡ true → not (c == newline) ≡ true
  dash_is_no_newline c e = ground (arith, e)

  line-Advances :
      (c d : ℕ) (cs : Runes) (p : Place)
      → (c == b'-' && d == b'-') ≡ true
      → RoundAdvances is_space (c ∷ d ∷ cs) p (skip (skip_line_comment (c ∷ d ∷ cs) p))
  unfolding skip_line_comment skip_while
  line-Advances c d cs p o =
      let test = λ (x : ℕ). not (x == newline) in
      let (run, e, w, all, stops) = skip_while-Run test cs (advance d (advance c p)) in
      rw (dash_is_no_newline c (ground (arith, o)), dash_is_no_newline d (ground (arith, o)))
        (
          c,
          d ∷ run,
          ap (λ (s : Runes). c ∷ d ∷ s) e,
          w,
          line_comment-IsGap c d run _ o (no_newline run all) (line_ends _ stops),
        )

  line-Advances_at :
      (c : ℕ) (cs : Runes) (p : Place)
      → (c == b'-' && next_is b'-' cs) ≡ true
      → RoundAdvances is_space (c ∷ cs) p (skip (skip_line_comment (c ∷ cs) p))
  line-Advances_at c [] p o = ground (arith, o)
  line-Advances_at c (d ∷ cs) p o = line-Advances c d cs p o

pub round_at-Advances :
    (u : Unicode) (cs : Runes) (p : Place) → Advances u.is_space cs p (round_at u cs p)
unfolding round_at
round_at-Advances u [] p = refl
round_at-Advances u (c ∷ cs) p = elim (Bool-cases (c == b'-' && next_is b'-' cs)) [
  | inl e ↦ rw e (line-Advances_at u.is_space c cs p e)
  | inr e ↦ rw e elim (Bool-cases (c == b'/' && next_is b'*' cs)) [
    | inl f ↦ rw f (block-Advances u.is_space c cs p f)
    | inr f ↦ rw f (Advances-of_Moves u.is_space (c ∷ cs) p _ (e, f) (next_token-Moves u c cs p))
  ]
]
