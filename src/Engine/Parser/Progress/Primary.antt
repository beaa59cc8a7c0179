-- ===== src/Engine/Parser/Progress/Primary.antt =====
-- internal/engine/parser/parser.go: `parsePrimaryExpr` takes a token and keeps within its fuel.
use sqlgo.Base.{
  ℕ, zero, suc, ◌≤◌, Bool, true, false, [], ◌∷◌, ◌≡◌, refl, ap, arith, Bool-cases, inl, inr,
  if◌then◌else◌, length, Result, ok, err, ◌≢◌,
}
use sqlgo.Engine.Parser.Token
use sqlgo.Engine.Parser.Token.{Runes, codes, Token, TokenType}
use sqlgo.Engine.Parser.Iota.{index, same_type}
use sqlgo.Engine.Parser.Syntax
use sqlgo.Engine.Parser.Syntax.{Expr, SelectStmt, Literal}
use sqlgo.Engine.Parser.Stream.{
  ParseError, out_of_fuel, Parser, Tokens, ◌>>=◌, ◌>>◌, pure, advance_tokens, if_next, returned,
  expect, expect_ident,
}
use sqlgo.Engine.Parser.Grammar.Number.{number_literal}
use sqlgo.Engine.Parser.Grammar.Types.{
  skip_parens, type_size, if_says, ident_says, unsigned_rest, second_word, named_type,
  parse_type_name, is_type_keyword,
}
use sqlgo.Engine.Parser.Grammar.Primary.{
  Grammar, is_ident_like, parse_func_call, named, whens_loop, parse_case_expr, parenthesis,
  exists_query, cast_expression, number_expr, parse_primary_expr,
}
use sqlgo.Engine.Parser.Progress.{
  within, refused, Takes, Keeps, Below-le, Keeps-then, Keeps-of_Takes, Keeps-pure, Takes-expect,
  Takes-expect_ident, Keeps-next_token_of, length-advance_tokens_le,
}
use sqlgo.Engine.Parser.Progress.Branches.{
  Keeps-if_next, Keeps-if_at, Keeps-if_type, Takes-if_next, Takes-if_ahead, Takes-if_type,
  Takes-refuse, Takes-le, Keeps-zero, Keeps-fueled, Keeps-flag, Keeps-if_taken,
}
use sqlgo.Engine.Parser.Progress.Loops.{arguments-Takes, more-Keeps}

Keeps-if :
    {A : Type 0} {n : ℕ} (b : Bool) (p q : Parser A)
    → Keeps n p
    → Keeps n q
    → Keeps n (if b then p else q)
Keeps-if true p q kp kq = kp
Keeps-if false p q kp kq = kq

length-skip_parens : (ts : Tokens) → length (skip_parens ts) ≤ length ts
unfolding skip_parens
length-skip_parens [] = omega arith
length-skip_parens (t ∷ ts) = ground (arith, length-skip_parens ts)

Keeps-type_size : (n : ℕ) → Keeps n type_size
unfolding type_size
Keeps-type_size n =
    Keeps-if_next Token.token_lparen _ _
      (record {
        keeps = λ ts h. within {rest = skip_parens ts} (omega (arith, length-skip_parens ts));
      })
      (Keeps-pure n tt)

module _ (to_upper : ℕ → ℕ) where
  Keeps-if_says :
      (n : ℕ) (word : Runes) (p q : Parser (Unit {0}))
      → Keeps n p
      → Keeps n q
      → Keeps n (if_says to_upper word p q)
  unfolding if_says
  Keeps-if_says n word p q kp kq = record {
    keeps = λ ts h. elim (Bool-cases (ident_says to_upper word ts)) [
      | inl e ↦
          let l = length-advance_tokens_le ts in
          rw (e, if_says) (Below-le (omega arith) (kp.keeps (advance_tokens ts) (omega arith)))
      | inr e ↦ rw (e, if_says) (kq.keeps ts h)
    ];
  }

  Keeps-unsigned_rest : (n : ℕ) → Keeps n (unsigned_rest to_upper)
  unfolding unsigned_rest
  Keeps-unsigned_rest n =
      let done : Keeps n (pure tt) = Keeps-pure n tt in
      Keeps-if_says n _ _ _
        (Keeps-if_next Token.kw_integer _ _ done (Keeps-if_says n _ _ _ done done)) done

  Keeps-second_word : (n : ℕ) (t : Token) → Keeps n (second_word to_upper t)
  unfolding second_word
  Keeps-second_word n t =
      Keeps-if _ _ _ (Keeps-if_next Token.token_ident _ _ (Keeps-pure n tt) (Keeps-pure n tt))
        (Keeps-pure n tt)

  Keeps-named_type : (n : ℕ) (t : Token) → Keeps n (named_type to_upper t)
  unfolding named_type
  Keeps-named_type n t =
      Keeps-if _ _ _ (Keeps-then (Keeps-unsigned_rest n) λ x. Keeps-pure n _)
        (Keeps-then (Keeps-second_word n t) λ x. Keeps-then (Keeps-type_size n) λ y. Keeps-pure n _)

  Keeps-parse_type_name : (n : ℕ) → Keeps n (parse_type_name to_upper)
  unfolding parse_type_name
  Keeps-parse_type_name n =
      Keeps-if_type is_type_keyword _ _
        (Keeps-then (Keeps-next_token_of n)
          λ t. Keeps-then (Keeps-type_size n) λ x. Keeps-pure n t.value)
        (Keeps-if_at Token.token_ident _ _
          (Keeps-then (Keeps-next_token_of n) λ t. Keeps-named_type n t)
          (Keeps-pure n (codes "TEXT")))

Keeps-close : {A : Type 0} (n : ℕ) (a : A) → Keeps n (do expect Token.token_rparen; pure a)
Keeps-close n a =
    Keeps-then (Keeps-of_Takes (Takes-expect n Token.token_rparen tt)) λ t. Keeps-pure n a

-- The functions that are called behind a token, where there are fewer than `n` tokens.
pub record IsGood (n : ℕ) (self : Grammar) : Type 0 where
  pub expr : Takes n self.expr
  pub comparison : Takes n self.comparison
  pub primary : Takes n self.primary
  pub select : Takes n self.select

ident_like_eof : is_ident_like Token.token_eof ≡ false
unfolding is_ident_like same_type index
ident_like_eof = refl

Keeps-returned :
    {A : Type 0} (n : ℕ) (r : Result ParseError A) → r ≢ err out_of_fuel → Keeps n (returned r)
Keeps-returned n (ok a) h = record { keeps = λ ts k. within {rest = ts} (omega arith) }
Keeps-returned n (err e) h = record { keeps = λ ts k. refused (λ q. h (ap err q)) }

module _ (n : ℕ) (self : Grammar) (good : IsGood n self) where
  parse_func_call-Keeps : (name : Runes) → Keeps n (parse_func_call self name)
  unfolding parse_func_call
  parse_func_call-Keeps name = Keeps-if_next Token.token_rparen _ _ (Keeps-pure n _) (
      Keeps-if_next Token.token_star _ _
        (Keeps-then (Keeps-of_Takes (Takes-expect n Token.token_rparen tt)) λ t. Keeps-pure n _)
        (Keeps-then (Keeps-flag n Token.kw_distinct) λ d.
          Keeps-then (Keeps-of_Takes (arguments-Takes n self.expr good.expr))
            λ args. Keeps-pure n _))

  whens_loop-Keeps : (f : ℕ) → f ≤ n → Keeps f (whens_loop self f)
  unfolding whens_loop
  whens_loop-Keeps zero h = Keeps-zero _
  whens_loop-Keeps (suc f) h =
      let e : Keeps f self.expr = Keeps-of_Takes (Takes-le self.expr (omega arith) good.expr) in
      Keeps-if_taken Token.kw_when _ _ tt
        (Keeps-then e λ c. Keeps-then (Keeps-of_Takes (Takes-expect f Token.kw_then tt)) λ t.
          Keeps-then e λ x. Keeps-then (whens_loop-Keeps f (omega arith)) λ more. Keeps-pure f _)
        (Keeps-pure (suc f) _)

  parse_case_expr-Keeps : Keeps n (parse_case_expr self)
  unfolding parse_case_expr
  parse_case_expr-Keeps =
      let e = Keeps-then (Keeps-of_Takes good.expr) λ x. Keeps-pure n (Syntax.present x) in
      Keeps-then (Keeps-if_at Token.kw_when _ _ (Keeps-pure n _) e) λ base.
        Keeps-then (Keeps-fueled n _ whens_loop-Keeps) λ whens.
          Keeps-then (Keeps-if_next Token.kw_else _ _ e (Keeps-pure n _)) λ other.
            Keeps-then (Keeps-of_Takes (Takes-expect n Token.kw_end tt)) λ t. Keeps-pure n _

  parenthesis-Keeps : Keeps n (parenthesis self)
  unfolding parenthesis
  parenthesis-Keeps =
      Keeps-if_at Token.kw_select _ _
        (Keeps-then (Keeps-of_Takes good.select) λ query. Keeps-close n _)
        (Keeps-then (Keeps-of_Takes good.expr) λ e.
          Keeps-if_at Token.token_comma _ _
            (Keeps-then (more-Keeps n self.expr good.expr) λ more. Keeps-close n _)
            (Keeps-close n _))

  exists_query-Keeps : (is_not : Bool) → Keeps n (exists_query self is_not)
  unfolding exists_query
  exists_query-Keeps is_not =
      Keeps-then (Keeps-of_Takes (Takes-expect n Token.token_lparen tt)) λ t.
        Keeps-then (Keeps-of_Takes good.select) λ query.
          Keeps-then (Keeps-of_Takes (Takes-expect n Token.token_rparen tt)) λ x. Keeps-pure n _

  -- What stands behind the first token of a name.
  name_rest-Keeps :
      (t : Token)
      → Keeps n (
          if_next Token.token_dot
            (do field ← expect_ident; pure (Syntax.ident_expr t.value field))
            (if_next Token.token_lparen
              (parse_func_call self t.value)
              (pure (Syntax.ident_expr [] t.value))))
  name_rest-Keeps t =
      Keeps-if_next Token.token_dot _ _
        (Keeps-then (Keeps-of_Takes (Takes-expect_ident n)) λ field. Keeps-pure n _)
        (Keeps-if_next Token.token_lparen _ _ (parse_func_call-Keeps t.value) (Keeps-pure n _))

module _ (to_upper : ℕ → ℕ) (is_float : Runes → Bool) (n : ℕ) (self : Grammar)
    (good : IsGood n self) where
  cast_expression-Keeps : Keeps n (cast_expression to_upper is_float self)
  unfolding cast_expression
  cast_expression-Keeps = Keeps-then (Keeps-of_Takes (Takes-expect n Token.token_lparen tt)) λ t.
      Keeps-then (Keeps-of_Takes good.expr) λ e.
        Keeps-then (Keeps-of_Takes (Takes-expect n Token.kw_as tt)) λ x.
          Keeps-then (Keeps-parse_type_name to_upper n) λ name.
            Keeps-then (Keeps-of_Takes (Takes-expect n Token.token_rparen tt)) λ y. Keeps-pure n _

  number_literal-ne : (s : Runes) → number_literal is_float s ≢ err out_of_fuel
  unfolding number_literal
  number_literal-ne s = elim (Bool-cases (is_float s)) [
    | inl e ↦ ground (arith, e)
    | inr e ↦ ground (arith, e)
  ]

  number_expr-rest :
      (t : Token)
      → Keeps n (do v ← returned (number_literal is_float t.value); pure (Syntax.literal_expr v))
  number_expr-rest t =
      Keeps-then (Keeps-returned n _ (number_literal-ne t.value)) λ v. Keeps-pure n _

  pub parse_primary_expr-Takes : Takes (suc n) (parse_primary_expr to_upper is_float self)
  unfolding parse_primary_expr number_expr named
  parse_primary_expr-Takes = Takes-if_ahead Token.token_number _ _ tt number_expr-rest (
      Takes-if_ahead Token.token_string _ _ tt (λ t. Keeps-pure n _)
        (Takes-if_next Token.kw_null _ _ tt (Keeps-pure n _) (
          Takes-if_next Token.kw_true _ _ tt (Keeps-pure n _) (
            Takes-if_next Token.kw_false _ _ tt (Keeps-pure n _) (
              Takes-if_next Token.token_lparen _ _ tt (parenthesis-Keeps n self good) (
                Takes-if_next Token.kw_case _ _ tt (parse_case_expr-Keeps n self good) (
                  Takes-if_next Token.kw_cast _ _ tt cast_expression-Keeps (
                    Takes-if_next Token.kw_exists _ _ tt (exists_query-Keeps n self good false) (
                      Takes-if_next Token.kw_not _ _ tt
                        (Keeps-if_next Token.kw_exists _ _ (exists_query-Keeps n self good true)
                          (Keeps-then (Keeps-of_Takes good.primary) λ e. Keeps-pure n _))
                        (Takes-if_next Token.token_star _ _ tt (Keeps-pure n _) (
                          Takes-if_ahead Token.token_ident _ _ tt (name_rest-Keeps n self good) (
                            Takes-if_type is_ident_like _ _ ident_like_eof
                              (name_rest-Keeps n self good) (Takes-refuse (suc n))))))))))))))
