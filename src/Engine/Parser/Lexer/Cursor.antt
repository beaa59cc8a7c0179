-- ===== src/Engine/Parser/Lexer/Cursor.antt =====
-- internal/engine/parser/lexer.go: `advance` and the loops that walk over a run of runes. The
-- lexer never goes back, so `input[pos:]` stands for `input` and `pos`.
use sqlgo.Base.{ℕ, ◌+◌, Bool, [], ◌∷◌, ◌++◌, ◌==◌, not, if◌then◌else◌}
use sqlgo.Engine.Parser.Token.{Runes, Place}

-- What the lexer uses of Go's packages `unicode` and `strings`.
pub record Unicode : Type 0 where
  pub is_space : ℕ → Bool
  pub is_letter : ℕ → Bool
  pub is_digit : ℕ → Bool
  pub to_upper : ℕ → ℕ

abbrev pub newline : ℕ
newline = 10

-- What `advance` does to `line` and `col` on the rune it takes.
unfoldable pub advance : ℕ → Place → Place
advance c p =
    if c == newline
    then record { line = p.line + 1; col = 1 }
    else record { line = p.line; col = p.col + 1 }

-- `for l.pos < len(l.input) && test(l.input[l.pos]) { l.advance() }`
unfoldable pub skip_while : (ℕ → Bool) → Runes → Place → Runes × Place
skip_while test [] p = ([], p)
skip_while test (c ∷ cs) p = if test c then skip_while test cs (advance c p) else (c ∷ cs, p)

unfoldable pub skip_whitespace : Unicode → Runes → Place → Runes × Place
skip_whitespace u = skip_while u.is_space

unfoldable pub skip_line_comment : Runes → Place → Runes × Place
skip_line_comment = skip_while (λ c. not (c == newline))

-- A reader's builder, with the lexer that it leaves.
pub record Reading : Type 0 where
  pub text : Runes
  pub rest : Runes
  pub place : Place

-- `for l.pos < len(l.input) && test(l.input[l.pos]) { sb.WriteRune(l.advance()) }`
unfoldable pub write_while : (ℕ → Bool) → Runes → Runes → Place → Reading
write_while test sb [] p = record { text = sb; rest = []; place = p }
write_while test sb (c ∷ cs) p =
    if test c
    then write_while test (sb ++ c ∷ []) cs (advance c p)
    else record { text = sb; rest = c ∷ cs; place = p }

-- `if l.pos < len(l.input) && test(l.input[l.pos]) { sb.WriteRune(l.advance()); next }`
unfoldable pub write_if :
    (ℕ → Bool) → (Runes → Runes → Place → Reading) → Runes → Runes → Place → Reading
write_if test next sb [] p = record { text = sb; rest = []; place = p }
write_if test next sb (c ∷ cs) p =
    if test c
    then next (sb ++ c ∷ []) cs (advance c p)
    else record { text = sb; rest = c ∷ cs; place = p }

-- One statement of a reader after another.
unfoldable pub after : Reading → (Runes → Runes → Place → Reading) → Reading
after r next = next r.text r.rest r.place

-- The builder and the lexer as they are.
unfoldable pub stop : Runes → Runes → Place → Reading
stop sb cs p = record { text = sb; rest = cs; place = p }
