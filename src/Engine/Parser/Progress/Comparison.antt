-- ===== src/Engine/Parser/Progress/Comparison.antt =====
-- internal/engine/parser/parser.go: the loop of `parseComparison` goes on only behind a token that it
-- has taken; `parseNot`, `parseAnd` and `parseOr`.
use sqlgo.Base.{
  ℕ, zero, suc, ◌<◌, ◌≤◌, Bool, false, ◌≡◌, ◌≢◌, refl, arith, inl, inr, Bool-cases, length, ok, err,
}
use sqlgo.Engine.Parser.Token
use sqlgo.Engine.Parser.Token.{Runes, Token, TokenType, token_eof}
use sqlgo.Engine.Parser.Iota.{index, same_type, IsProper, index-IsProper}
use sqlgo.Engine.Parser.Syntax.{Expr}
use sqlgo.Engine.Parser.Stream.{
  ParseError, out_of_fuel, Parsed, Parser, Tokens, ◌>>=◌, and_then, peek, starts, advance_tokens,
  next_token_of, if_next, if_type,
}
use sqlgo.Engine.Parser.Grammar.Primary.{Grammar}
use sqlgo.Engine.Parser.Grammar.Comparison.{
  Outcome, go_on, stop_with, operator_tail, comparison_round, comparison_loop, continue_with,
  parse_comparison, parse_not, parse_and, parse_or, is_comparison,
}
use sqlgo.Engine.Parser.Progress.{
  Below, within, refused, Below-le, Takes, Keeps, Takes-then, Keeps-then, Keeps-of_Takes,
  Keeps-pure, Takes-suc, length-advance_tokens, length-advance_named,
}
use sqlgo.Engine.Parser.Progress.Branches.{Takes-if_next, Keeps-zero, Keeps-fueled, index-of_test}
use sqlgo.Engine.Parser.Progress.Loops.{binary_level-Takes}
use sqlgo.Engine.Parser.Progress.Primary.{IsGood}
use sqlgo.Engine.Parser.Progress.Expr.{
  parse_concat-Takes, operand, is_tail-Keeps, in_tail-Keeps, like_tail-Keeps, glob_tail-Keeps,
  between_tail-Keeps, not_tail-Keeps,
}

-- Of `n` tokens at least one is taken where the loop goes on, and none is added where it stops.
data Moves (n : ℕ) : Parsed Outcome → Type 0 where
  went_on : {o : Outcome} {rest : Tokens} → length rest < n → Moves n (ok (o, rest))
  stopped : {e : Expr} {rest : Tokens} → length rest < suc n → Moves n (ok (stop_with e, rest))
  failed : {e : ParseError} → e ≢ out_of_fuel → Moves n (err e)

record Steps (n : ℕ) (p : Parser Outcome) : Type 0 where
  steps : (ts : Tokens) → length ts < n → Moves (length ts) (p ts)

Moves-of_Below : {m n : ℕ} {r : Parsed Outcome} → m ≤ n → Below m r → Moves n r
Moves-of_Below h (within k) = went_on (omega arith)
Moves-of_Below h (refused e) = failed e

Steps-if_next :
    {n : ℕ} (t : TokenType) (p q : Parser Outcome)
    → IsProper t
    → Keeps n p
    → Steps (suc n) q
    → Steps (suc n) (if_next t p q)
unfolding if_next
Steps-if_next t p q proper kp sq = record {
  steps = λ ts h. elim (Bool-cases (starts t ts)) [
    | inl e ↦
        let l = length-advance_tokens t ts (index-IsProper t proper) e in
        rw (e, if_next) (Moves-of_Below (omega arith) (kp.keeps (advance_tokens ts) (omega arith)))
    | inr e ↦ rw (e, if_next) (sq.steps ts h)
  ];
}

Steps-if_type :
    {n : ℕ} (test : TokenType → Bool) (k : Token → Parser Outcome) (q : Parser Outcome)
    → test token_eof ≡ false
    → ((t : Token) → Keeps n (k t))
    → Steps (suc n) q
    → Steps (suc n) (if_type test (next_token_of >>= k) q)
unfolding if_type next_token_of
Steps-if_type test k q proper kp sq = record {
  steps = λ ts h. elim (Bool-cases (test (peek ts).type)) [
    | inl e ↦
        let l = length-advance_named ts (index-of_test test proper _ e) in
        rw (e, if_type)
          (Moves-of_Below (omega arith) ((kp (peek ts)).keeps (advance_tokens ts) (omega arith)))
    | inr e ↦ rw (e, if_type) (sq.steps ts h)
  ];
}

Below-continue :
    {n : ℕ} (loop : Expr → Parser Expr) (o : Outcome) (rest : Tokens)
    → length rest < n
    → ((e : Expr) → Keeps n (loop e))
    → Below (suc n) (continue_with loop o rest)
Below-continue loop (go_on e) rest h k = Below-le (omega arith) ((k e).keeps rest h)
Below-continue loop (stop_with e) rest h k = within (omega arith)

Below-Moves :
    {n : ℕ} {r : Parsed Outcome} (loop : Expr → Parser Expr)
    → Moves n r
    → ((e : Expr) → Keeps n (loop e))
    → Below (suc n) (and_then r (continue_with loop))
Below-Moves loop (went_on {o} {rest} h) k = Below-continue loop o rest h k
Below-Moves loop (stopped h) k = within (omega arith)
Below-Moves loop (failed e) k = refused e

is_comparison_eof : is_comparison token_eof ≡ false
unfolding same_type index
is_comparison_eof = refl

module _ (to_upper : ℕ → ℕ) (is_float : Runes → Bool) (n : ℕ) (self : Grammar)
    (good : IsGood n self) where
  comparison_round-Steps :
      (left : Expr) → Steps (suc n) (comparison_round to_upper is_float self left)
  unfolding comparison_round operator_tail
  comparison_round-Steps left =
      Steps-if_type is_comparison _ _ is_comparison_eof
        (λ t. Keeps-then (operand to_upper is_float n self good) λ right. Keeps-pure n _)
        (Steps-if_next Token.kw_is _ _ tt (is_tail-Keeps to_upper is_float n self good left) (
          Steps-if_next Token.kw_in _ _ tt (in_tail-Keeps to_upper is_float n self good left false)
            (Steps-if_next Token.kw_not _ _ tt (not_tail-Keeps to_upper is_float n self good left) (
              Steps-if_next Token.kw_like _ _ tt
                (like_tail-Keeps to_upper is_float n self good left false)
                (Steps-if_next Token.kw_glob _ _ tt
                  (glob_tail-Keeps to_upper is_float n self good left false)
                  (Steps-if_next Token.kw_between _ _ tt
                    (between_tail-Keeps to_upper is_float n self good left false)
                    (record { steps = λ ts h. stopped (omega arith) })))))))

  comparison_loop-Keeps :
      (f : ℕ) → f ≤ suc n → (left : Expr) → Keeps f (comparison_loop to_upper is_float self f left)
  unfolding comparison_loop
  comparison_loop-Keeps zero h left = Keeps-zero _
  comparison_loop-Keeps (suc f) h left = record {
    keeps = λ ts k. Below-Moves _ ((comparison_round-Steps left).steps ts (omega arith)) (λ e.
        record {
          keeps = λ rest l. (comparison_loop-Keeps f (omega arith) e).keeps rest (omega arith);
        });
  }

  pub parse_comparison-Takes : Takes (suc n) (parse_comparison to_upper is_float self)
  unfolding parse_comparison
  parse_comparison-Takes =
      Takes-then (parse_concat-Takes to_upper is_float n self good)
        λ e. Keeps-fueled n _ λ f h. comparison_loop-Keeps f (omega arith) e

  pub parse_not-Takes : Takes (suc n) (parse_not to_upper is_float self)
  unfolding parse_not
  parse_not-Takes =
      Takes-if_next Token.kw_not _ _ tt
        (Keeps-then (Keeps-of_Takes (Takes-suc parse_comparison-Takes)) λ e. Keeps-pure n _)
        parse_comparison-Takes

  pub parse_or-Takes : Takes (suc n) (parse_or to_upper is_float self)
  unfolding parse_or parse_and index same_type
  parse_or-Takes = binary_level-Takes n _ _ _ refl (binary_level-Takes n _ _ _ refl parse_not-Takes)
