-- ===== src/Engine/Parser/Progress.antt =====
-- internal/engine/parser/parser.go: what a parser takes of the tokens, and that it keeps within its
-- fuel.
pub mod Branches
pub mod Loops
pub mod Primary
pub mod Expr
pub mod Comparison
pub mod Query
pub mod Total
use sqlgo.Base.{
  ℕ, zero, suc, ◌+◌, ◌<◌, ◌≤◌, Bool, true, false, List, [], ◌∷◌, ◌≡◌, ◌≢◌, refl, ap, arith, inl,
  inr, Bool-cases, if◌then◌else◌, length, Result, ok, err, ◌==◌, All,
}
use sqlgo.Engine.Parser.Token.{Token, TokenType, token_eof, token_ident}
use sqlgo.Engine.Parser.Iota.{
  index, same_type, IsProper, token_eof-of_index, index-IsProper, index-token_eof,
}
use native.Mathlib.Decide.{dec_lt}
use sqlgo.Engine.Parser.Grammar.Loops.{fueled}
use sqlgo.Engine.Parser.Stream.{
  ParseError, expected, unexpected, out_of_fuel, Parsed, Parser, Tokens, and_then, ◌>>=◌, ◌>>◌,
  pure, fail, peek, starts, advance_tokens, next_token_of, expect, expect_ident, if_next, if_at,
  if_type, flag, refuse, returned, one_of, name_keywords, takes_name,
}

-- Fewer than `n` tokens are left, or the parser reports an error of the program.
pub data Below {A : Type 0} (n : ℕ) : Parsed A → Type 0 where
  within : {a : A} {rest : Tokens} → length rest < n → Below n (ok (a, rest))
  refused : {e : ParseError} → e ≢ out_of_fuel → Below n (err e)

-- On fewer than `n` tokens the parser takes at least one.
pub record Takes {A : Type 0} (n : ℕ) (p : Parser A) : Type 0 where
  pub takes : (ts : Tokens) → length ts < n → Below (length ts) (p ts)

-- On fewer than `n` tokens the parser adds none.
pub record Keeps {A : Type 0} (n : ℕ) (p : Parser A) : Type 0 where
  pub keeps : (ts : Tokens) → length ts < n → Below (suc (length ts)) (p ts)

module _ {A : Type 0} where
  pub Below-le : {m n : ℕ} {r : Parsed A} → m ≤ n → Below m r → Below n r
  Below-le h (within k) = within (omega arith)
  Below-le h (refused e) = refused e

  pub Keeps-of_Takes : {n : ℕ} {p : Parser A} → Takes n p → Keeps n p
  Keeps-of_Takes t = record { keeps = λ ts h. Below-le (omega arith) (t.takes ts h) }

  pub Takes-suc : {n : ℕ} {p : Parser A} → Takes (suc n) p → Takes n p
  Takes-suc t = record { takes = λ ts h. t.takes ts (omega arith) }

  pub Keeps-suc : {n : ℕ} {p : Parser A} → Keeps (suc n) p → Keeps n p
  Keeps-suc t = record { keeps = λ ts h. t.keeps ts (omega arith) }

  pub Keeps-pure : (n : ℕ) (a : A) → Keeps n (pure a)
  Keeps-pure n a = record { keeps = λ ts h. within (omega arith) }

module _ {A B : Type 0} where
  pub Below-and_then :
      {m n : ℕ} {r : Parsed A} {f : A → Parser B}
      → Below m r
      → ((a : A) (rest : Tokens) → length rest < m → Below n (f a rest))
      → Below n (and_then r f)
  Below-and_then (within {a} {rest} h) k = k a rest h
  Below-and_then (refused e) k = refused e

  -- What stands behind a parser that takes a token has one token less.
  pub Takes-then :
      {n : ℕ} {p : Parser A} {f : A → Parser B}
      → Takes (suc n) p
      → ((a : A) → Keeps n (f a))
      → Takes (suc n) (p >>= f)
  Takes-then t k = record {
    takes = λ ts h.
        Below-and_then (t.takes ts h)
          (λ a rest l. Below-le (omega arith) ((k a).keeps rest (omega arith)));
  }

  pub Keeps-then :
      {n : ℕ} {p : Parser A} {f : A → Parser B}
      → Keeps n p
      → ((a : A) → Keeps n (f a))
      → Keeps n (p >>= f)
  Keeps-then t k = record {
    keeps = λ ts h.
        Below-and_then (t.keeps ts h)
          (λ a rest l. Below-le (omega arith) ((k a).keeps rest (omega arith)));
  }

  pub Takes-behind :
      {n : ℕ} {p : Parser A} {f : A → Parser B}
      → Keeps n p
      → ((a : A) → Takes n (f a))
      → Takes n (p >>= f)
  Takes-behind t k = record {
    takes = λ ts h.
        Below-and_then (t.keeps ts h)
          (λ a rest l. Below-le (omega arith) ((k a).takes rest (omega arith)));
  }

-- A token of a type other than the end of the file is taken.
pub length-advance_tokens :
    (t : TokenType) (ts : Tokens)
    → 0 < index t
    → starts t ts ≡ true
    → length (advance_tokens ts) < length ts
unfolding starts advance_tokens same_type
length-advance_tokens t [] n h = absurd (ground (arith, index-token_eof))
length-advance_tokens t (x ∷ ts) n h = ground (arith, index-token_eof)

pub length-advance_tokens_le : (ts : Tokens) → length (advance_tokens ts) ≤ length ts
unfolding advance_tokens same_type
length-advance_tokens_le [] = omega arith
length-advance_tokens_le (x ∷ ts) = ground arith

pub Keeps-next_token_of : (n : ℕ) → Keeps n next_token_of
unfolding next_token_of
Keeps-next_token_of n = record {
  keeps = λ ts h. within (omega (arith, length-advance_tokens_le ts));
}

one_of-index :
    (t : TokenType) (ks : List TokenType)
    → All (λ k. 0 < index k) ks
    → one_of t ks ≡ true
    → 0 < index t
unfolding one_of same_type
one_of-index t [] a h = absurd (ground arith)
one_of-index t (k ∷ ks) (p, a) h = elim (Bool-cases (same_type t k)) [
  | inl e ↦ ground arith
  | inr e ↦ one_of-index t ks a (rw e at h)
]

name_keywords-index : All (λ k. 0 < index k) name_keywords
unfolding index
name_keywords-index = omega arith

takes_name-index : (t : TokenType) → takes_name t ≡ true → 0 < index t
unfolding takes_name same_type
takes_name-index t h = elim (Bool-cases (one_of t name_keywords)) [
  | inl e ↦ one_of-index t name_keywords name_keywords-index e
  | inr e ↦ ground (arith, e, index-IsProper token_ident tt)
]

pub length-advance_named :
    (ts : Tokens) → 0 < index (peek ts).type → length (advance_tokens ts) < length ts
unfolding advance_tokens same_type
length-advance_named [] h = absurd (omega (arith, index-token_eof))
length-advance_named (x ∷ ts) h = ground (arith, index-token_eof)

pub Takes-expect_ident : (n : ℕ) → Takes n expect_ident
unfolding expect_ident
Takes-expect_ident n = record {
  takes = λ ts h. elim (Bool-cases (takes_name (peek ts).type)) [
    | inl e ↦
        rw (e, expect_ident) (within (length-advance_named ts (takes_name-index (peek ts).type e)))
    | inr e ↦ rw (e, expect_ident) (refused (λ e'. cc))
  ];
}

pub Takes-expect : (n : ℕ) (t : TokenType) → IsProper t → Takes n (expect t)
unfolding expect
Takes-expect n t p = record {
  takes = λ ts h. elim (Bool-cases (starts t ts)) [
    | inl e ↦ rw (e, expect) (within (length-advance_tokens t ts (index-IsProper t p) e))
    | inr e ↦ rw (e, expect) (refused (λ e'. cc))
  ];
}
