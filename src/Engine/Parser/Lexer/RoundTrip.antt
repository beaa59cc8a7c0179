-- ===== src/Engine/Parser/Lexer/RoundTrip.antt =====
-- internal/engine/parser/lexer.go: what was printed is read back.
use mathlib.Core.List.{append_assoc, append-nil}
use sqlgo.Base.{
  ℕ, ◌<◌, Bool, true, false, [], ◌∷◌, ◌++◌, ◌≡◌, refl, ap, ◌∙◌, inl, inr, Bool-cases, arith, ◌==◌,
  ◌&&◌, ◌||◌, leb, ok, All, length, length-append,
}
use sqlgo.Engine.Parser.Token.{Runes, Place}
use sqlgo.Engine.Parser.Lexer.Cursor.{Unicode, advance, Reading, write_while, write_if, after}
use sqlgo.Engine.Parser.Lexer.Readers.{
  single_quote, double_quote, backslash, string_body, quoted_body, read_number, exponent,
  hexadecimal,
}
use sqlgo.Engine.Parser.Lexer.{back_quote}
use sqlgo.Engine.Parser.Lexer.Walk.{walk}
use sqlgo.Engine.Parser.Lexer.Printed.{space, IsUnicode, doubled}

-- What stands behind a printed lexeme: nothing, or a space.
abbrev pub Bounded : Runes → Type 0
Bounded [] = Unit {0}
Bounded (c ∷ cs) = c ≡ space

string_body-closed :
    (sb rest : Runes) (p : Place)
    → Bounded rest
    → string_body single_quote sb (single_quote ∷ rest) p
      ≡ ok (record { text = sb ++ []; rest = rest; place = advance single_quote p })
unfolding string_body
string_body-closed sb [] p b = rw (append-nil sb) refl
string_body-closed sb (d ∷ rest) p b = rw (append-nil sb, b) refl

string_body-plain :
    (c : ℕ) (sb cs : Runes) (p : Place)
    → (c == single_quote) ≡ false
    → 0 < length cs
    → string_body single_quote sb (c ∷ cs) p
      ≡ string_body single_quote (sb ++ c ∷ []) cs (advance c p)
unfolding string_body
string_body-plain c sb [] p e h = absurd (omega arith)
string_body-plain c sb (d ∷ cs) p e h =
    let f : (c == backslash && single_quote == double_quote) ≡ false = ground arith in
    rw (e, string_body) (rw f refl)

string_body-pair :
    (sb cs : Runes) (p : Place)
    → string_body single_quote sb (single_quote ∷ single_quote ∷ cs) p
      ≡ string_body single_quote
          (sb ++ single_quote ∷ [])
          cs
          (advance single_quote (advance single_quote p))
unfolding string_body
string_body-pair sb cs p = refl

length-doubled_pos : (s rest : Runes) → 0 < length (doubled s ++ single_quote ∷ rest)
length-doubled_pos s rest = omega (arith, length-append (doubled s) (single_quote ∷ rest))

-- A text's body, up to its closing quote.
pub string_body-doubled :
    (s sb rest : Runes) (p : Place)
    → Bounded rest
    → string_body single_quote sb (doubled s ++ single_quote ∷ rest) p
      ≡ ok (record { text = sb ++ s; rest = rest; place = walk (doubled s ++ single_quote ∷ []) p })
string_body-doubled [] sb rest p b = string_body-closed sb rest p b
string_body-doubled (c ∷ s) sb rest p b = elim (Bool-cases (c == single_quote)) [
  | inl e ↦
      let q : c ≡ single_quote = ground arith in
      rw q (
        string_body-pair sb _ p
        ∙ (string_body-doubled s (sb ++ single_quote ∷ []) rest _ b
            ∙ ap
                (λ (t : Runes). ok (record {
                  text = t;
                  rest = rest;
                  place =
                      walk (doubled s ++ single_quote ∷ [])
                        (advance single_quote (advance single_quote p));
                }))
                (append_assoc sb (single_quote ∷ []) s)))
  | inr e ↦ rw e (
      string_body-plain c sb _ p e (length-doubled_pos s rest)
      ∙ (string_body-doubled s (sb ++ c ∷ []) rest (advance c p) b
          ∙ ap
              (λ (t : Runes). ok (record {
                text = t;
                rest = rest;
                place = walk (doubled s ++ single_quote ∷ []) (advance c p);
              }))
              (append_assoc sb (c ∷ []) s)))
]

pub quoted_body-plain :
    (s sb rest : Runes) (p : Place)
    → All (λ c. (c == back_quote) ≡ false) s
    → quoted_body back_quote sb (s ++ back_quote ∷ rest) p
      ≡ ok (record { text = sb ++ s; rest = rest; place = walk (s ++ back_quote ∷ []) p })
unfolding quoted_body
quoted_body-plain [] sb rest p a = rw (append-nil sb) refl
quoted_body-plain (c ∷ s) sb rest p (e, a) =
    rw (e, quoted_body)
      (quoted_body-plain s (sb ++ c ∷ []) rest (advance c p) a
        ∙ ap
            (λ (t : Runes).
              ok (record {
                text = t;
                rest = rest;
                place = walk (s ++ back_quote ∷ []) (advance c p);
              }))
            (append_assoc sb (c ∷ []) s))

-- A loop that writes takes a run whose runes pass the test and whose follower does not.
pub write_while-run :
    (test : ℕ → Bool) (w sb rest : Runes) (p : Place)
    → All (λ d. test d ≡ true) w
    → Bounded rest
    → test space ≡ false
    → write_while test sb (w ++ rest) p ≡ record { text = sb ++ w; rest = rest; place = walk w p }
unfolding write_while
write_while-run test [] sb [] p a b n = rw (append-nil sb) refl
write_while-run test [] sb (d ∷ rest) p a b n = rw (b, n, append-nil sb) refl
write_while-run test (c ∷ w) sb rest p (e, a) b n =
    rw (e, write_while)
      (write_while-run test w (sb ++ c ∷ []) rest (advance c p) a b n
        ∙ ap (λ (t : Runes). record { text = t; rest = rest; place = walk w (advance c p) })
            (append_assoc sb (c ∷ []) w))

write_if_idle :
    (test : ℕ → Bool) (next : Runes → Runes → Place → Reading) (sb rest : Runes) (p : Place)
    → Bounded rest
    → test space ≡ false
    → write_if test next sb rest p ≡ record { text = sb; rest = rest; place = p }
unfolding write_if
write_if_idle test next sb [] p b n = refl
write_if_idle test next sb (d ∷ rest) p b n = rw (b, n) refl

module _ (u : Unicode) (laws : IsUnicode u) where
  pub digit-of_ascii : (c : ℕ) → (leb b'0' c && leb c b'9') ≡ true → u.is_digit c ≡ true
  digit-of_ascii c h = ground (arith, laws.digit_ascii c)

  All-digits :
      (w : Runes)
      → All (λ c. (leb b'0' c && leb c b'9') ≡ true) w
      → All (λ c. (u.is_digit c || c == b'.') ≡ true) w
  All-digits [] a = tt
  All-digits (c ∷ w) (e, a) = (rw (digit-of_ascii c e) refl, All-digits w a)

  space_digit : (u.is_digit space || space == b'.') ≡ false
  space_digit = rw (laws.digit_ascii space (omega arith)) refl

  pub read_number-run :
      (w rest : Runes) (p : Place)
      → All (λ c. (leb b'0' c && leb c b'9') ≡ true) w
      → Bounded rest
      → read_number u (w ++ rest) p ≡ record { text = w; rest = rest; place = walk w p }
  unfolding read_number after exponent hexadecimal
  read_number-run w rest p a b =
      rw
        (write_while-run (λ (c : ℕ). u.is_digit c || c == b'.') w [] rest p (All-digits w a) b
          space_digit)
        (rw (write_if_idle (λ (c : ℕ). c == b'e' || c == b'E') _ w rest (walk w p) b refl)
          ((write_if_idle _ _ w rest (walk w p) b refl)))
