-- ===== src/Engine/Parser/Lexer/Gaps.antt =====
-- internal/engine/parser/lexer.go: what `skipWhitespace`, `skipLineComment` and `skipBlockComment` pass
-- over, blanks and comments.
use mathlib.Core.List.{append_assoc}
use sqlgo.Base.{
  ℕ, Bool, true, false, [], ◌∷◌, ◌++◌, ◌≡◌, ◌≢◌, refl, ap, sym, inl, inr, Bool-cases, arith, not,
  ◌==◌, ◌&&◌, Result, ok, err, All,
}
use sqlgo.Engine.Parser.Token.{Runes, Place}
use sqlgo.Engine.Parser.Lexer.Cursor.{advance, newline, skip_while}
use sqlgo.Engine.Parser.Lexer.Readers.{LexError, out_of_fuel, block_comment}
use sqlgo.Engine.Parser.Lexer.Walk.{walk}

abbrev pub EndsLine : Runes → Type 0
EndsLine [] = Unit
EndsLine (c ∷ cs) = (c == newline) ≡ true

-- The first `*/` of the runes stands right in front of the rest.
pub data EndsComment : Runes → Runes → Type 0 where
  closed :
      (c d : ℕ) (rest : Runes) → (c == b'*' && d == b'/') ≡ true → EndsComment (c ∷ d ∷ rest) rest
  later :
      (c d : ℕ) (cs rest : Runes)
      → (c == b'*' && d == b'/') ≡ false
      → EndsComment (d ∷ cs) rest
      → EndsComment (c ∷ d ∷ cs) rest

-- Blanks and comments, and what stands behind them.
pub data IsGap (is_space : ℕ → Bool) : Runes → Runes → Type 0 where
  nothing : (after : Runes) → IsGap is_space [] after
  blank :
      (c : ℕ) (gap after : Runes)
      → is_space c ≡ true
      → IsGap is_space gap after
      → IsGap is_space (c ∷ gap) after
  line_comment :
      (c d : ℕ) (text gap after : Runes)
      → (c == b'-' && d == b'-') ≡ true
      → All (λ x. (x == newline) ≡ false) text
      → EndsLine (gap ++ after)
      → IsGap is_space gap after
      → IsGap is_space (c ∷ d ∷ (text ++ gap)) after
  comment :
      (c d : ℕ) (text gap after : Runes)
      → (c == b'/' && d == b'*') ≡ true
      → EndsComment (text ++ (gap ++ after)) (gap ++ after)
      → IsGap is_space gap after
      → IsGap is_space (c ∷ d ∷ (text ++ gap)) after

pub IsGap-append :
    (is_space : ℕ → Bool) {skip rest : Runes} (gap after : Runes)
    → IsGap is_space skip rest
    → rest ≡ gap ++ after
    → IsGap is_space gap after
    → IsGap is_space (skip ++ gap) after
IsGap-append is_space gap after (nothing _) e g = g
IsGap-append is_space gap after (blank c skip rest s h) e g =
    blank c (skip ++ gap) after s (IsGap-append is_space gap after h e g)
IsGap-append is_space gap after (line_comment c d text skip rest o t l h) e g =
    rw (append_assoc text skip gap) (
      line_comment c d text (skip ++ gap) after o t (rw (append_assoc skip gap after, sym e) l)
        (IsGap-append is_space gap after h e g))
IsGap-append is_space gap after (comment c d text skip rest o t h) e g =
    rw (append_assoc text skip gap) (
      comment c d text (skip ++ gap) after o (rw (append_assoc skip gap after, sym e) t)
        (IsGap-append is_space gap after h e g))

-- The run that a loop passes over, and where it stops.
abbrev pub Stops : (ℕ → Bool) → Runes → Type 0
Stops test [] = Unit
Stops test (c ∷ cs) = test c ≡ false

abbrev pub Run : (ℕ → Bool) → Runes → Place → Runes × Place → Type 0
Run test cs p left =
    (run : Runes) × (cs ≡ run ++ left.0)
    × (left.1 ≡ walk run p)
    × All (λ c. test c ≡ true) run
    × Stops test left.0

pub skip_while-Run :
    (test : ℕ → Bool) (cs : Runes) (p : Place) → Run test cs p (skip_while test cs p)
unfolding skip_while
skip_while-Run test [] p = ([], refl, refl, tt, tt)
skip_while-Run test (c ∷ cs) p = elim (Bool-cases (test c)) [
  | inl e ↦
      let (run, f, w, all, stops) = skip_while-Run test cs (advance c p) in
      rw e (c ∷ run, ap (◌∷◌ c) f, w, (e, all), stops)
  | inr e ↦ rw e ([], refl, refl, tt, e)
]

pub blanks-IsGap :
    (is_space : ℕ → Bool) (run after : Runes)
    → All (λ c. is_space c ≡ true) run
    → IsGap is_space run after
blanks-IsGap is_space [] after all = nothing after
blanks-IsGap is_space (c ∷ run) after (s, all) =
    blank c run after s (blanks-IsGap is_space run after all)

pub no_newline :
    (run : Runes) → All (λ c. not (c == newline) ≡ true) run → All (λ c. (c == newline) ≡ false) run
no_newline [] all = tt
no_newline (c ∷ run) (n, all) = (ground arith, no_newline run all)

pub line_ends : (rest : Runes) → Stops (λ c. not (c == newline)) rest → EndsLine rest
line_ends [] s = tt
line_ends (c ∷ rest) s = ground arith

-- What `skipBlockComment` passes over behind the opening.
abbrev pub Commented : Runes → Place → Result LexError (Runes × Place) → Type 0
Commented cs p (ok (rest, q)) =
    (text : Runes) × (cs ≡ text ++ rest) × (q ≡ walk text p) × EndsComment cs rest
Commented cs p (err e) = e ≢ out_of_fuel

Commented-later :
    (c d : ℕ) (cs : Runes) (p : Place) (r : Result LexError (Runes × Place))
    → (c == b'*' && d == b'/') ≡ false
    → Commented (d ∷ cs) (advance c p) r
    → Commented (c ∷ d ∷ cs) p r
Commented-later c d cs p (ok (rest, q)) e (text, f, w, ends) =
    (c ∷ text, ap (◌∷◌ c) f, w, later c d cs rest e ends)
Commented-later c d cs p (err x) e h = h

pub block_comment-Commented : (cs : Runes) (p : Place) → Commented cs p (block_comment cs p)
unfolding block_comment
block_comment-Commented [] p = ground arith
block_comment-Commented (c ∷ []) p = ground arith
block_comment-Commented (c ∷ d ∷ cs) p = elim (Bool-cases (c == b'*' && d == b'/')) [
  | inl e ↦ rw (e, block_comment) (c ∷ d ∷ [], refl, refl, closed c d cs e)
  | inr e ↦
      rw (e, block_comment)
        (Commented-later c d cs p _ e (block_comment-Commented (d ∷ cs) (advance c p)))
]
