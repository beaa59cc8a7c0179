-- ===== src/Engine/Parser/Progress/Branches.antt =====
-- internal/engine/parser/parser.go: the branches on the next token.
use sqlgo.Base.{
  ℕ, suc, ◌+◌, ◌<◌, ◌≤◌, Bool, true, false, ◌≡◌, ap, arith, inl, inr, Bool-cases, length,
}
use sqlgo.Engine.Parser.Token.{Token, TokenType, token_eof}
use sqlgo.Engine.Parser.Iota.{index, same_type, IsProper, token_eof-of_index, index-IsProper}
use native.Mathlib.Decide.{dec_lt}
use sqlgo.Engine.Parser.Grammar.Loops.{fueled}
use sqlgo.Engine.Parser.Stream.{
  Parser, ◌>>=◌, peek, starts, advance_tokens, next_token_of, if_next, if_at, if_type, flag, refuse,
}
use sqlgo.Engine.Parser.Progress.{
  Below, Below-and_then, Below-le, Keeps, Keeps-next_token_of, Keeps-of_Takes, Keeps-pure,
  Keeps-suc, Keeps-then, Takes, Takes-behind, Takes-expect, Takes-expect_ident, Takes-suc,
  Takes-then, length-advance_tokens, length-advance_tokens_le, length-advance_named, refused,
  within,
}

pub index-of_test :
    (test : TokenType → Bool)
    → test token_eof ≡ false
    → (t : TokenType) → test t ≡ true
    → 0 < index t
index-of_test test proper t e = elim (dec_lt 0 (index t)) [
  | yes p ↦ p
  | no p ↦ absurd (cc (ap test (token_eof-of_index t (omega arith))))
]

module _ {A : Type 0} where
  pub Takes-if_next :
      {n : ℕ} (t : TokenType) (p q : Parser A)
      → IsProper t
      → Keeps n p
      → Takes (suc n) q
      → Takes (suc n) (if_next t p q)
  unfolding if_next
  Takes-if_next t p q proper kp tq = record {
    takes = λ ts h. elim (Bool-cases (starts t ts)) [
      | inl e ↦
          let l = length-advance_tokens t ts (index-IsProper t proper) e in
          rw (e, if_next) (Below-le (omega arith) (kp.keeps (advance_tokens ts) (omega arith)))
      | inr e ↦ rw (e, if_next) (tq.takes ts h)
    ];
  }

  pub Keeps-if_next :
      {n : ℕ} (t : TokenType) (p q : Parser A) → Keeps n p → Keeps n q → Keeps n (if_next t p q)
  unfolding if_next
  Keeps-if_next t p q kp kq = record {
    keeps = λ ts h. elim (Bool-cases (starts t ts)) [
      | inl e ↦
          let l = length-advance_tokens_le ts in
          rw (e, if_next) (Below-le (omega arith) (kp.keeps (advance_tokens ts) (omega arith)))
      | inr e ↦ rw (e, if_next) (kq.keeps ts h)
    ];
  }

  pub Takes-if_type :
      {n : ℕ} (test : TokenType → Bool) (k : Token → Parser A) (q : Parser A)
      → test token_eof ≡ false
      → ((t : Token) → Keeps n (k t))
      → Takes (suc n) q
      → Takes (suc n) (if_type test (next_token_of >>= k) q)
  unfolding if_type next_token_of
  Takes-if_type test k q proper kp tq = record {
    takes = λ ts h. elim (Bool-cases (test (peek ts).type)) [
      | inl e ↦
          let l = length-advance_named ts (index-of_test test proper _ e) in
          rw (e, if_type)
            (Below-le (omega arith) ((kp (peek ts)).keeps (advance_tokens ts) (omega arith)))
      | inr e ↦ rw (e, if_type) (tq.takes ts h)
    ];
  }

  pub Keeps-if_type :
      {n : ℕ} (test : TokenType → Bool) (p q : Parser A)
      → Keeps n p
      → Keeps n q
      → Keeps n (if_type test p q)
  unfolding if_type
  Keeps-if_type test p q kp kq = record {
    keeps = λ ts h. elim (Bool-cases (test (peek ts).type)) [
      | inl e ↦ rw (e, if_type) (kp.keeps ts h)
      | inr e ↦ rw (e, if_type) (kq.keeps ts h)
    ];
  }

  pub Takes-if_ahead :
      {n : ℕ} (t : TokenType) (k : Token → Parser A) (q : Parser A)
      → IsProper t
      → ((x : Token) → Keeps n (k x))
      → Takes (suc n) q
      → Takes (suc n) (if_at t (next_token_of >>= k) q)
  unfolding if_at starts next_token_of
  Takes-if_ahead t k q proper kp tq = record {
    takes = λ ts h. elim (Bool-cases (same_type (peek ts).type t)) [
      | inl e ↦
          let l = length-advance_tokens t ts (index-IsProper t proper) e in
          rw (e, if_at, starts)
            (Below-le (omega arith) ((kp (peek ts)).keeps (advance_tokens ts) (omega arith)))
      | inr e ↦ rw (e, if_at, starts) (tq.takes ts h)
    ];
  }

  pub Takes-refuse : (n : ℕ) → Takes n (refuse {A = A})
  unfolding refuse
  Takes-refuse n = record { takes = λ ts h. refused (λ e. cc) }

  pub Takes-fueled :
      (n : ℕ) (loop : ℕ → Parser A) → ((f : ℕ) → f ≤ n → Takes f (loop f)) → Takes n (fueled loop)
  Takes-fueled n loop t = record {
    takes = λ ts h. (t (length ts + 1) (omega arith)).takes ts (omega arith);
  }

  pub Keeps-fueled :
      (n : ℕ) (loop : ℕ → Parser A) → ((f : ℕ) → f ≤ n → Keeps f (loop f)) → Keeps n (fueled loop)
  Keeps-fueled n loop t = record {
    keeps = λ ts h. (t (length ts + 1) (omega arith)).keeps ts (omega arith);
  }

  pub Takes-zero : (p : Parser A) → Takes 0 p
  Takes-zero p = record { takes = λ ts h. absurd (omega arith) }

  pub Keeps-zero : (p : Parser A) → Keeps 0 p
  Keeps-zero p = record { keeps = λ ts h. absurd (omega arith) }

  pub Takes-le : {m n : ℕ} (p : Parser A) → m ≤ n → Takes n p → Takes m p
  Takes-le p l t = record { takes = λ ts h. t.takes ts (omega arith) }

  -- The branch behind a token that was taken has one token less.
  pub Keeps-if_taken :
      {n : ℕ} (t : TokenType) (p q : Parser A)
      → IsProper t
      → Keeps n p
      → Keeps (suc n) q
      → Keeps (suc n) (if_next t p q)
  unfolding if_next
  Keeps-if_taken t p q proper kp kq = record {
    keeps = λ ts h. elim (Bool-cases (starts t ts)) [
      | inl e ↦
          let l = length-advance_tokens t ts (index-IsProper t proper) e in
          rw (e, if_next) (Below-le (omega arith) (kp.keeps (advance_tokens ts) (omega arith)))
      | inr e ↦ rw (e, if_next) (kq.keeps ts h)
    ];
  }

  pub Keeps-if_type_taken :
      {n : ℕ} (test : TokenType → Bool) (k : Token → Parser A) (q : Parser A)
      → test token_eof ≡ false
      → ((t : Token) → Keeps n (k t))
      → Keeps (suc n) q
      → Keeps (suc n) (if_type test (next_token_of >>= k) q)
  unfolding if_type next_token_of
  Keeps-if_type_taken test k q proper kp kq = record {
    keeps = λ ts h. elim (Bool-cases (test (peek ts).type)) [
      | inl e ↦
          let l = length-advance_named ts (index-of_test test proper _ e) in
          rw (e, if_type)
            (Below-le (omega arith) ((kp (peek ts)).keeps (advance_tokens ts) (omega arith)))
      | inr e ↦ rw (e, if_type) (kq.keeps ts h)
    ];
  }

  pub Takes-if_at :
      {n : ℕ} (t : TokenType) (p q : Parser A) → Takes n p → Takes n q → Takes n (if_at t p q)
  unfolding if_at
  Takes-if_at t p q tp tq = record {
    takes = λ ts h. elim (Bool-cases (starts t ts)) [
      | inl e ↦ rw (e, if_at) (tp.takes ts h)
      | inr e ↦ rw (e, if_at) (tq.takes ts h)
    ];
  }

  pub Keeps-if_at :
      {n : ℕ} (t : TokenType) (p q : Parser A) → Keeps n p → Keeps n q → Keeps n (if_at t p q)
  unfolding if_at
  Keeps-if_at t p q kp kq = record {
    keeps = λ ts h. elim (Bool-cases (starts t ts)) [
      | inl e ↦ rw (e, if_at) (kp.keeps ts h)
      | inr e ↦ rw (e, if_at) (kq.keeps ts h)
    ];
  }

pub Keeps-flag : (n : ℕ) (t : TokenType) → Keeps n (flag t)
unfolding flag
Keeps-flag n t = Keeps-if_next t _ _ (Keeps-pure n true) (Keeps-pure n false)

pub ruleset keeping =
    (Keeps-pure, Keeps-then, Keeps-next_token_of, Keeps-if_next, Keeps-if_at, Keeps-flag)
