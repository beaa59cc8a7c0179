-- ===== src/Engine/Parser/Precedence.antt =====
-- internal/engine/parser/parser.go: the levels of binary operators against a grammar. The grammar is
-- left recursive: an expression of a level is one of the next level, or an expression of its own
-- level, an operator and one of the next level.
pub mod Operators
pub mod Operands
pub mod Conditions
use mathlib.Core.List.{append_assoc}
use sqlgo.Base.{
  ℕ, zero, suc, ◌+◌, ◌<◌, ◌≤◌, Bool, true, false, List, [], ◌∷◌, ◌++◌, ◌≡◌, refl, ap, sym, ◌∙◌,
  arith, inl, inr, Bool-cases, All, ◌==◌, length, length-append, ok, err,
}
use sqlgo.Engine.Parser.Token.{Runes, Token, TokenType, token_eof}
use sqlgo.Engine.Parser.Iota.{index, same_type, index-token_eof}
use sqlgo.Engine.Parser.Syntax.{Expr, binary_expr}
use sqlgo.Engine.Parser.Stream.{
  ParseError, Parsed, Parser, Tokens, and_then, ◌>>=◌, pure, peek, advance_tokens, next_token_of,
  if_type,
}
use sqlgo.Engine.Parser.Grammar.Loops.{left_loop, binary_level}
use sqlgo.Engine.Parser.Progress.{Below, within, refused, Takes, length-advance_named}
use sqlgo.Engine.Parser.Progress.Branches.{index-of_test}
use sqlgo.Engine.Parser.Progress.Loops.{binary_level-Takes}

-- The operators of a level, and the name that each has in the tree.
pub record Level : Type 0 where
  pub test : TokenType → Bool
  pub op : Token → Runes

-- The levels from the loosest to the tightest, above `base`.
abbrev pub chain : List Level → Parser Expr → Parser Expr
chain [] base = base
chain (l ∷ ls) base = binary_level l.test l.op (chain ls base)

-- What the grammar derives.
pub data Derives (Operand : Expr → Tokens → Type 0) : List Level → Expr → Tokens → Type 0 where
  operand : {e : Expr} {ts : Tokens} → Operand e ts → Derives Operand [] e ts
  tighter :
      {l : Level} {ls : List Level} {e : Expr} {ts : Tokens}
      → Derives Operand ls e ts
      → Derives Operand (l ∷ ls) e ts
  grouped :
      {l : Level} {ls : List Level} {a b e : Expr} {xs ys ts : Tokens} (t : Token)
      → Derives Operand (l ∷ ls) a xs
      → l.test t.type ≡ true
      → Derives Operand ls b ys
      → e ≡ binary_expr (l.op t) a b
      → ts ≡ xs ++ t ∷ ys
      → Derives Operand (l ∷ ls) e ts

-- No level has an operator of another, and the end of the file is none.
abbrev pub Distinct : List Level → Type 0
Distinct [] = Unit {0}
Distinct (l ∷ ls) =
    (l.test token_eof ≡ false)
    × ((t : TokenType) → l.test t ≡ true → All (λ k. k.test t ≡ false) ls)
    × Distinct ls

-- The next token is no operator of the levels.
abbrev pub Closed : List Level → TokenType → Type 0
Closed ls t = All (λ l. l.test t ≡ false) ls

-- The same goes on behind a parser that leaves fewer than `n` tokens.
step-fuel :
    {n : ℕ} {r : Parsed Expr} {k k' : Expr → Parser Expr}
    → Below n r
    → ((e : Expr) (rest : Tokens) → length rest < n → k e rest ≡ k' e rest)
    → and_then r k ≡ and_then r k'
step-fuel (within {a} {rest} h) same = same a rest h
step-fuel (refused e) same = refl

module _ (n : ℕ) (test : TokenType → Bool) (op : Token → Runes) (sub : Parser Expr)
    (proper : test token_eof ≡ false) (good : Takes (suc n) sub) where
  -- Any fuel above the number of tokens gives the same.
  left_loop-fuel :
      (f g : ℕ) (e : Expr) (ts : Tokens)
      → length ts < f
      → length ts < g
      → length ts < suc n
      → left_loop test op sub f e ts ≡ left_loop test op sub g e ts
  unfolding left_loop if_type next_token_of
  left_loop-fuel zero g e ts h k b = absurd (omega arith)
  left_loop-fuel (suc f) zero e ts h k b = absurd (omega arith)
  left_loop-fuel (suc f) (suc g) e ts h k b = elim (Bool-cases (test (peek ts).type)) [
    | inr stop ↦ rw (stop, if_type) refl
    | inl more ↦
        let l = length-advance_named ts (index-of_test test proper _ more) in
        rw (more, if_type)
          (step-fuel (good.takes (advance_tokens ts) (omega arith)) (λ right rest r.
            left_loop-fuel f g (binary_expr (op (peek ts)) e right) rest (omega arith) (omega arith)
              (omega arith)))
  ]

suc_one : (k : ℕ) → suc k + 1 ≡ suc (k + 1)
suc_one k = omega arith

loop_stops :
    (l : Level) (sub : Parser Expr) (f : ℕ) (e : Expr) (ts : Tokens)
    → l.test (peek ts).type ≡ false
    → left_loop l.test l.op sub (f + 1) e ts ≡ ok (e, ts)
unfolding left_loop if_type
loop_stops l sub f e ts c = let q : f + 1 ≡ suc f = omega arith in rw q (rw (c, if_type) refl)

loop_goes_on :
    (l : Level) (sub : Parser Expr) (f : ℕ) (a b : Expr) (t : Token) (ts rest : Tokens)
    → l.test token_eof ≡ false
    → l.test t.type ≡ true
    → sub ts ≡ ok (b, rest)
    → left_loop l.test l.op sub (suc f) a (t ∷ ts)
      ≡ left_loop l.test l.op sub f (binary_expr (l.op t) a b) rest
unfolding left_loop if_type next_token_of advance_tokens same_type
loop_goes_on l sub f a b t ts rest p h r =
    let proper = index-of_test l.test p t.type h in
    let skip : (index t.type == index token_eof) ≡ false = ground (arith, index-token_eof) in
    rw (h, if_type) (rw (skip, advance_tokens) (rw r refl))

-- With at most `n` tokens, these are an operand, whatever follows that `fence` lets stand behind it.
abbrev pub IsOperand : ℕ → (TokenType → Bool) → Parser Expr → Expr → Tokens → Type 0
IsOperand n fence base e ts =
    (rest : Tokens)
    → fence (peek rest).type ≡ true
    → length (ts ++ rest) ≤ n
    → base (ts ++ rest) ≡ ok (e, rest)

-- The operators may stand behind an operand.
abbrev pub Fenced : (TokenType → Bool) → List Level → Type 0
Fenced fence ls = All (λ l. (t : TokenType) → l.test t ≡ true → fence t ≡ true) ls

module _ (n : ℕ) (fence : TokenType → Bool) (base : Parser Expr) (good : Takes (suc n) base) where
  chain-Takes : (ls : List Level) → Distinct ls → Takes (suc n) (chain ls base)
  chain-Takes [] d = good
  chain-Takes (l ∷ ls) (p, _, d) =
      binary_level-Takes n l.test l.op (chain ls base) p (chain-Takes ls d)

  -- A level reads the tokens and stands in its loop with the expression.
  abbrev Parses : List Level → Expr → Tokens → Type 0
  Parses [] e ts = IsOperand n fence base e ts
  Parses (l ∷ ls) e ts =
      (rest : Tokens)
      → fence (peek rest).type ≡ true
      → Closed ls (peek rest).type
      → length (ts ++ rest) ≤ n
      → chain (l ∷ ls) base (ts ++ rest)
        ≡ left_loop l.test l.op (chain ls base) (length rest + 1) e rest

  chain-of_Parses :
      (ls : List Level) (e : Expr) (ts rest : Tokens)
      → Parses ls e ts
      → fence (peek rest).type ≡ true
      → Closed ls (peek rest).type
      → length (ts ++ rest) ≤ n
      → chain ls base (ts ++ rest) ≡ ok (e, rest)
  chain-of_Parses [] e ts rest p f c b = p rest f b
  chain-of_Parses (l ∷ ls) e ts rest p f (c, cs) b =
      p rest f cs b ∙ loop_stops l (chain ls base) (length rest) e rest c

  Parses-of_Derives :
      {ls : List Level} {e : Expr} {ts : Tokens}
      → Derives (IsOperand n fence base) ls e ts
      → Distinct ls
      → Fenced fence ls
      → Parses ls e ts
  unfolding binary_level
  Parses-of_Derives (operand h) d w = h
  Parses-of_Derives (tighter {l} {ls} {e} {ts} h) (_, _, d) (_, w) = λ rest f c b.
      ap
        (λ r.
          and_then r
            λ left. λ more. left_loop l.test l.op (chain ls base) (length more + 1) left more)
        (chain-of_Parses ls e ts rest (Parses-of_Derives h d w) f c b)
  Parses-of_Derives (grouped {l} {ls} {a} {b} {e} {xs} {ys} {ts} t ha tested hb named split)
        (p, apart, d) (v, w) =
      λ rest f c bound.
        let shape : ts ++ rest ≡ xs ++ t ∷ (ys ++ rest) =
          rw split (append_assoc xs (t ∷ ys) rest) in
        let sized = ap length shape in
        let lengths = length-append xs (t ∷ (ys ++ rest)) in
        let sub = chain ls base in
        let right = chain-of_Parses ls b ys rest (Parses-of_Derives hb d w) f c (omega arith) in
        ap (binary_level l.test l.op sub) shape
        ∙ (Parses-of_Derives ha (p, apart, d) (v, w) (t ∷ (ys ++ rest)) (v t.type tested)
              (apart t.type tested) (omega arith)
            ∙ (ap (λ (k : ℕ). left_loop l.test l.op sub k a (t ∷ (ys ++ rest)))
                  (suc_one (length (ys ++ rest)))
                ∙ (loop_goes_on l sub (length (ys ++ rest) + 1) a b t (ys ++ rest) rest p tested
                      right
                    ∙ (left_loop-fuel n l.test l.op sub p (chain-Takes ls d)
                          (length (ys ++ rest) + 1) (length rest + 1) (binary_expr (l.op t) a b)
                          rest (omega (arith, length-append ys rest)) (omega arith)
                          (omega (arith, length-append ys rest))
                        ∙ ap (λ (x : Expr). left_loop l.test l.op sub (length rest + 1) x rest)
                            (sym named)))))

  -- The levels read what their grammar derives.
  pub chain-Derives :
      {ls : List Level} {e : Expr} {ts : Tokens} (rest : Tokens)
      → Derives (IsOperand n fence base) ls e ts
      → Distinct ls
      → Fenced fence ls
      → fence (peek rest).type ≡ true
      → Closed ls (peek rest).type
      → length (ts ++ rest) ≤ n
      → chain ls base (ts ++ rest) ≡ ok (e, rest)
  chain-Derives {ls} {e} {ts} rest h d w f c b =
      chain-of_Parses ls e ts rest (Parses-of_Derives h d w) f c b
