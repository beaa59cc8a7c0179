-- ===== src/Engine/Parser/Lexer/Progress.antt =====
-- internal/engine/parser/lexer.go: every reader takes a front part of the input and moves `line`
-- and `col` over it.
use sqlgo.Base.{
  ℕ, [], ◌∷◌, ◌++◌, ◌≢◌, refl, inl, inr, Bool-cases, arith, ◌==◌, ◌&&◌, Result, ok, err,
}
use sqlgo.Engine.Parser.Token.{Runes, Place}
use sqlgo.Engine.Parser.Lexer.Cursor.{advance, Reading}
use sqlgo.Engine.Parser.Lexer.Readers.{
  LexError, out_of_fuel, string_body, quoted_body, escaped, backslash, double_quote,
}
use sqlgo.Engine.Parser.Lexer.Walk.{Eats, Eats-cons}

-- A reader takes a front part of the input, or reports an error of the program.
abbrev pub Leaves : Runes → Place → Result LexError Reading → Type 0
Leaves cs p (ok r) = Eats cs p r.rest r.place
Leaves cs p (err e) = e ≢ out_of_fuel

pub Leaves-cons :
    (c : ℕ) (cs : Runes) (p : Place) (r : Result LexError Reading)
    → Leaves cs (advance c p) r
    → Leaves (c ∷ cs) p r
Leaves-cons c cs p (ok r) h = Eats-cons c h
Leaves-cons c cs p (err e) h = h

Leaves-two :
    (c d : ℕ) (cs : Runes) (p : Place) (r : Result LexError Reading)
    → Leaves cs (advance d (advance c p)) r
    → Leaves (c ∷ d ∷ cs) p r
Leaves-two c d cs p r h = Leaves-cons c (d ∷ cs) p r (Leaves-cons d cs (advance c p) r h)

pub string_body-Leaves :
    (quote : ℕ) (sb cs : Runes) (p : Place) → Leaves cs p (string_body quote sb cs p)
unfolding string_body
string_body-Leaves quote sb [] p = ground arith
string_body-Leaves quote sb (c ∷ []) p = elim (Bool-cases (c == quote)) [
  | inl e ↦ rw e (c ∷ [], refl, refl)
  | inr e ↦ rw e (ground arith)
]
string_body-Leaves quote sb (c ∷ d ∷ cs) p =
    let q = advance d (advance c p) in
    elim (Bool-cases (c == quote)) [
      | inl e ↦
          rw (e, string_body)
            elim (Bool-cases (d == quote)) [
              | inl f ↦
                  rw f (Leaves-two c d cs p _ (string_body-Leaves quote (sb ++ quote ∷ []) cs q))
              | inr f ↦ rw f (c ∷ [], refl, refl)
            ]
      | inr e ↦
          rw (e, string_body)
            elim (Bool-cases (c == backslash && quote == double_quote)) [
              | inl f ↦
                  rw f (Leaves-two c d cs p _ (string_body-Leaves quote (sb ++ escaped d) cs q))
              | inr f ↦ rw f (
                  Leaves-cons c _ _ _
                    (string_body-Leaves quote (sb ++ c ∷ []) (d ∷ cs) (advance c p)))
            ]
    ]

pub quoted_body-Leaves :
    (quote : ℕ) (sb cs : Runes) (p : Place) → Leaves cs p (quoted_body quote sb cs p)
unfolding quoted_body
quoted_body-Leaves quote sb [] p = ground arith
quoted_body-Leaves quote sb (c ∷ cs) p = elim (Bool-cases (c == quote)) [
  | inl e ↦ rw e (c ∷ [], refl, refl)
  | inr e ↦ rw e (Leaves-cons c cs p _ (quoted_body-Leaves quote (sb ++ c ∷ []) cs (advance c p)))
]
