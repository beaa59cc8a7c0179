-- ===== src/Engine/Parser/Lexer/Walk.antt =====
-- internal/engine/parser/lexer.go: what the loops of the readers take from the input, and where
-- they leave `line` and `col`.
use mathlib.Core.List.{append_assoc, append-nil}
use sqlgo.Base.{ℕ, Bool, true, [], ◌∷◌, ◌++◌, ◌≡◌, refl, ap, sym, ◌∙◌, inl, inr, Bool-cases}
use sqlgo.Engine.Parser.Token.{Runes, Place}
use sqlgo.Engine.Parser.Lexer.Cursor.{
  advance, skip_while, Reading, write_while, write_if, after, stop,
}

-- `advance` over a run of runes.
abbrev pub walk : Runes → Place → Place
walk [] p = p
walk (c ∷ cs) p = walk cs (advance c p)

pub walk-append : (a b : Runes) (p : Place) → walk (a ++ b) p ≡ walk b (walk a p)
walk-append [] b p = refl
walk-append (c ∷ a) b p = walk-append a b (advance c p)

-- From `cs` at `p` a part is taken, and the lexer stands at `q` before the rest.
abbrev pub Eats : Runes → Place → Runes → Place → Type 0
Eats cs p rest q = (eaten : Runes) × (cs ≡ eaten ++ rest) × (q ≡ walk eaten p)

pub Eats-cons :
    (c : ℕ) {cs rest : Runes} {p q : Place} → Eats cs (advance c p) rest q → Eats (c ∷ cs) p rest q
Eats-cons c (eaten, e, w) = (c ∷ eaten, ap (◌∷◌ c) e, w)

pub Eats-trans :
    {cs mid rest : Runes} {p q r : Place} → Eats cs p mid q → Eats mid q rest r → Eats cs p rest r
Eats-trans {p} (a, e, w) (b, f, v) =
    (a ++ b, rw (e, f) (sym (append_assoc a b _)), v ∙ rw w (sym (walk-append a b p)))

pub Eats-skip_while :
    (test : ℕ → Bool) (cs : Runes) (p : Place)
    → Eats cs p (skip_while test cs p).0 (skip_while test cs p).1
unfolding skip_while
Eats-skip_while test [] p = ([], refl, refl)
Eats-skip_while test (c ∷ cs) p = elim (Bool-cases (test c)) [
  | inl e ↦ rw e (Eats-cons c (Eats-skip_while test cs (advance c p)))
  | inr e ↦ rw e ([], refl, refl)
]

-- What was taken is also what was written behind `sb`.
abbrev pub Copies : Runes → Runes → Place → Reading → Type 0
Copies sb cs p r =
    (eaten : Runes) × (r.text ≡ sb ++ eaten) × (cs ≡ eaten ++ r.rest) × (r.place ≡ walk eaten p)

pub Copies-stop : (sb cs : Runes) (p : Place) → Copies sb cs p (stop sb cs p)
unfolding stop
Copies-stop sb cs p = ([], sym (append-nil sb), refl, refl)

pub Copies-cons :
    (c : ℕ) (sb : Runes) {cs : Runes} {p : Place} {r : Reading}
    → Copies (sb ++ c ∷ []) cs (advance c p) r
    → Copies sb (c ∷ cs) p r
Copies-cons c sb (eaten, t, e, w) = (c ∷ eaten, t ∙ append_assoc sb (c ∷ []) eaten, ap (◌∷◌ c) e, w)

pub Copies-write_while :
    (test : ℕ → Bool) (sb cs : Runes) (p : Place) → Copies sb cs p (write_while test sb cs p)
unfolding write_while stop
Copies-write_while test sb [] p = Copies-stop sb [] p
Copies-write_while test sb (c ∷ cs) p = elim (Bool-cases (test c)) [
  | inl e ↦ rw e (Copies-cons c sb (Copies-write_while test (sb ++ c ∷ []) cs (advance c p)))
  | inr e ↦ rw e (Copies-stop sb (c ∷ cs) p)
]

pub Copies-write_if :
    (test : ℕ → Bool) (next : Runes → Runes → Place → Reading)
    → ((sb cs : Runes) (p : Place) → Copies sb cs p (next sb cs p))
    → (sb cs : Runes) (p : Place) → Copies sb cs p (write_if test next sb cs p)
unfolding write_if stop
Copies-write_if test next copies sb [] p = Copies-stop sb [] p
Copies-write_if test next copies sb (c ∷ cs) p = elim (Bool-cases (test c)) [
  | inl e ↦ rw e (Copies-cons c sb (copies (sb ++ c ∷ []) cs (advance c p)))
  | inr e ↦ rw e (Copies-stop sb (c ∷ cs) p)
]

pub Copies-after :
    (sb : Runes) {cs : Runes} {p : Place} (r : Reading) (next : Runes → Runes → Place → Reading)
    → Copies sb cs p r
    → ((sb' cs' : Runes) (q : Place) → Copies sb' cs' q (next sb' cs' q))
    → Copies sb cs p (after r next)
unfolding after
Copies-after sb {p} r next (a, t, e, w) copies =
    let (b, t', e', w') = copies r.text r.rest r.place in
    (
      a ++ b,
      t' ∙ (ap (λ (s : Runes). s ++ b) t ∙ append_assoc sb a b),
      e ∙ (ap (λ (s : Runes). a ++ s) e' ∙ sym (append_assoc a b _)),
      w' ∙ (ap (walk b) w ∙ sym (walk-append a b p)),
    )

-- The word test makes the first rune part of what is read.
pub Copies-first :
    (test : ℕ → Bool) (c : ℕ) (cs : Runes) (p : Place)
    → test c ≡ true
    → write_while test [] (c ∷ cs) p ≡ write_while test (c ∷ []) cs (advance c p)
unfolding write_while
Copies-first test c cs p e = rw e
