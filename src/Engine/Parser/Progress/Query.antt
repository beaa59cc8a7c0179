-- ===== src/Engine/Parser/Progress/Query.antt =====
-- internal/engine/parser/parser.go: `parseSelect` takes a token and keeps within its fuel.
use sqlgo.Base.{ℕ, zero, suc, ◌≤◌, [], arith}
use sqlgo.Engine.Parser.Token
use sqlgo.Engine.Parser.Token.{Runes, codes, Token, TokenType}
use sqlgo.Engine.Parser.Syntax.{Expr, SelectStmt, Joins}
use sqlgo.Engine.Parser.Stream.{Parser, ◌>>=◌, expect_ident}
use sqlgo.Engine.Parser.Grammar.Query
use sqlgo.Engine.Parser.Progress.{
  Takes, Keeps, Takes-then, Takes-behind, Keeps-then, Keeps-of_Takes, Keeps-pure, Takes-expect,
  Takes-expect_ident, Takes-suc, Keeps-next_token_of,
}
use sqlgo.Engine.Parser.Progress.Branches.{
  Keeps-if_next, Keeps-if_at, Keeps-if_type, Takes-if_next, Takes-refuse, Takes-le, Takes-zero,
  Keeps-zero, Takes-fueled, Keeps-fueled, Keeps-flag, Keeps-if_taken,
}
use sqlgo.Engine.Parser.Progress.Loops.{commas-Takes, arguments-Takes}

Keeps-parse_alias : (n : ℕ) → Keeps n Query.parse_alias
unfolding Query.parse_alias
Keeps-parse_alias n = Keeps-if_next Token.kw_as _ _ (Keeps-of_Takes (Takes-expect_ident n)) (
    Keeps-if_at Token.token_ident _ _ (Keeps-then (Keeps-next_token_of n) λ t. Keeps-pure n _)
      (Keeps-pure n _))

Keeps-join_word : (n : ℕ) (name : Runes) → Keeps n (Query.join_word name)
unfolding Query.join_word
Keeps-join_word n name =
    Keeps-if_next Token.kw_join _ _ (Keeps-pure n name) (Keeps-of_Takes (Takes-refuse n))

join_word-Takes : (n : ℕ) (name : Runes) → Takes (suc n) (Query.join_word name)
unfolding Query.join_word
join_word-Takes n name =
    Takes-if_next Token.kw_join _ _ tt (Keeps-pure n name) (Takes-refuse (suc n))

Keeps-outer_join_word : (n : ℕ) (name : Runes) → Keeps n (Query.outer_join_word name)
unfolding Query.outer_join_word
Keeps-outer_join_word n name = Keeps-then (Keeps-flag n Token.kw_outer) λ x. Keeps-join_word n name

parse_table_ref-Takes : (n : ℕ) → Takes (suc n) Query.parse_table_ref
unfolding Query.parse_table_ref
parse_table_ref-Takes n =
    Takes-then (Takes-expect_ident (suc n))
      λ name. Keeps-then (Keeps-parse_alias n) λ alias. Keeps-pure n _

table_refs_loop-Keeps : (f : ℕ) → Keeps f (Query.table_refs_loop f)
unfolding Query.table_refs_loop
table_refs_loop-Keeps zero = Keeps-zero _
table_refs_loop-Keeps (suc f) = Keeps-if_at Token.token_lparen _ _ (Keeps-pure (suc f) []) (
    Keeps-of_Takes (
      Takes-then (parse_table_ref-Takes f) λ ref.
        Keeps-if_next Token.token_comma _ _
          (Keeps-then (table_refs_loop-Keeps f) λ refs. Keeps-pure f _) (Keeps-pure f _)))

parse_nulls-Keeps : (m : ℕ) → Keeps m (Query.parse_nulls)
unfolding Query.parse_nulls
parse_nulls-Keeps m =
    Keeps-if_next Token.kw_nulls _ _
      (Keeps-if_next Token.kw_first _ _ (Keeps-pure m _)
        (Keeps-if_next Token.kw_last _ _ (Keeps-pure m _) (Keeps-pure m _)))
      (Keeps-pure m _)

descending-Keeps : (m : ℕ) → Keeps m (Query.descending)
unfolding Query.descending
descending-Keeps m =
    Keeps-if_next Token.kw_desc _ _ (Keeps-pure m _)
      (Keeps-then (Keeps-flag m Token.kw_asc) λ x. Keeps-pure m _)

module _ (n : ℕ) (expr : Parser Expr) (good : Takes (suc n) expr) where
  columns_loop-Takes : (f : ℕ) → f ≤ suc n → Takes f (Query.columns_loop expr f)
  unfolding Query.columns_loop
  columns_loop-Takes zero h = Takes-zero _
  columns_loop-Takes (suc f) h =
      let more = Keeps-of_Takes (columns_loop-Takes f (omega arith)) in
      Takes-if_next Token.token_star _ _ tt
        (Keeps-if_next Token.token_comma _ _ (Keeps-then more λ cs. Keeps-pure f _)
          (Keeps-pure f _))
        (Takes-then (Takes-le expr h good) λ e. Keeps-then (Keeps-parse_alias f) λ alias.
          Keeps-if_next Token.token_comma _ _ (Keeps-then more λ cs. Keeps-pure f _)
            (Keeps-pure f _))

  join_condition-Keeps : (m : ℕ) → m ≤ suc n → Keeps m (Query.join_condition expr)
  unfolding Query.join_condition
  join_condition-Keeps m h =
      Keeps-if_next Token.kw_on _ _
        (Keeps-then (Keeps-of_Takes (Takes-le expr h good)) λ e. Keeps-pure m _)
        (Keeps-if_next Token.kw_using _ _
          (Keeps-then (Keeps-of_Takes (Takes-expect m Token.token_lparen tt)) λ t.
            Keeps-then (Keeps-of_Takes (arguments-Takes m expect_ident (Takes-expect_ident m)))
              λ names. Keeps-pure m _)
          (Keeps-pure m _))

  join_rest-Keeps :
      (m : ℕ)
      → m ≤ suc n
      → (name : Runes) (others : Parser Joins) → Keeps m others
      → Keeps m (Query.join_rest expr name others)
  unfolding Query.join_rest
  join_rest-Keeps m h name others k =
      Keeps-then (Keeps-of_Takes (Takes-suc (parse_table_ref-Takes m))) λ table.
        Keeps-then (join_condition-Keeps m h) λ condition. Keeps-then k λ more. Keeps-pure m _

  joins_loop-Keeps : (f : ℕ) → f ≤ suc n → Keeps f (Query.joins_loop expr f)
  unfolding Query.joins_loop
  joins_loop-Keeps zero h = Keeps-zero _
  joins_loop-Keeps (suc f) h =
      let more = joins_loop-Keeps f (omega arith) in
      let join : (name : Runes)
          → Keeps f
              (do x ← Query.join_word name; Query.join_rest expr x (Query.joins_loop expr f)) =
        λ name. Keeps-then (Keeps-join_word f name) λ x. join_rest-Keeps f (omega arith) x _ more in
      let outer : (name : Runes)
          → Keeps f (do
            x ← Query.outer_join_word name
            Query.join_rest expr x (Query.joins_loop expr f)) =
        λ name.
          Keeps-then (Keeps-outer_join_word f name) λ x. join_rest-Keeps f (omega arith) x _ more in
      Keeps-if_taken Token.kw_inner _ _ tt (join _) (
        Keeps-if_taken Token.kw_left _ _ tt (outer _) (
          Keeps-if_taken Token.kw_right _ _ tt (outer _) (
            Keeps-if_taken Token.kw_full _ _ tt (outer _) (
              Keeps-if_taken Token.kw_cross _ _ tt (join _) (
                Keeps-if_taken Token.kw_natural _ _ tt (join _) (
                  Keeps-if_at Token.kw_join _ _
                    (Keeps-of_Takes (
                      Takes-then (join_word-Takes f _)
                        λ x. join_rest-Keeps f (omega arith) x _ more))
                    (Keeps-pure (suc f) _)))))))

  orders_loop-Takes : (f : ℕ) → f ≤ suc n → Takes f (Query.orders_loop expr f)
  unfolding Query.orders_loop
  orders_loop-Takes zero h = Takes-zero _
  orders_loop-Takes (suc f) h = Takes-then (Takes-le expr h good) λ e.
      Keeps-then (descending-Keeps f) λ desc. Keeps-then (parse_nulls-Keeps f) λ nulls.
        Keeps-if_next Token.token_comma _ _
          (Keeps-then (Keeps-of_Takes (orders_loop-Takes f (omega arith))) λ more. Keeps-pure f _)
          (Keeps-pure f _)

  inner : Takes n expr
  inner = Takes-suc good

  clause-Keeps : (t : TokenType) → Keeps n (Query.clause expr t)
  unfolding Query.clause
  clause-Keeps t =
      Keeps-if_next t _ _ (Keeps-then (Keeps-of_Takes inner) λ e. Keeps-pure n _) (Keeps-pure n _)

  from_clause-Keeps : Keeps n (Query.from_clause expr)
  unfolding Query.from_clause
  from_clause-Keeps =
      Keeps-if_next Token.kw_from _ _
        (Keeps-then (Keeps-fueled n _ λ f h. table_refs_loop-Keeps f) λ refs.
          Keeps-then (Keeps-fueled n _ λ f h. joins_loop-Keeps f (omega arith))
            λ joins. Keeps-pure n _)
        (Keeps-pure n _)

  group_clause-Keeps : Keeps n (Query.group_clause expr)
  unfolding Query.group_clause
  group_clause-Keeps =
      Keeps-if_next Token.kw_group _ _
        (Keeps-then (Keeps-of_Takes (Takes-expect n Token.kw_by tt))
          λ t. Keeps-then (Keeps-of_Takes (commas-Takes n expr inner)) λ es. Keeps-pure n _)
        (Keeps-pure n _)

  order_clause-Keeps : Keeps n (Query.order_clause expr)
  unfolding Query.order_clause
  order_clause-Keeps =
      Keeps-if_next Token.kw_order _ _
        (Keeps-then (Keeps-of_Takes (Takes-expect n Token.kw_by tt))
          λ t. Keeps-of_Takes (Takes-fueled n _ λ f h. orders_loop-Takes f (omega arith)))
        (Keeps-pure n _)

  module _ (select : Parser SelectStmt) (good_select : Takes n select) where
    compound_clause_of-Keeps : Keeps n (Query.compound_clause_of select)
    unfolding Query.compound_clause_of
    compound_clause_of-Keeps =
        Keeps-if_type _ _ _
          (Keeps-then (Keeps-next_token_of n) λ op.
            Keeps-then (Keeps-flag n Token.kw_all)
              λ all. Keeps-then (Keeps-of_Takes good_select) λ right. Keeps-pure n _)
          (Keeps-pure n _)

    pub parse_select-Takes : Takes (suc n) (Query.parse_select expr select)
    unfolding Query.parse_select
    parse_select-Takes = Takes-behind (Keeps-next_token_of (suc n)) λ t.
        Takes-behind
          (Keeps-if_next Token.kw_distinct _ _ (Keeps-pure (suc n) _)
            (Keeps-then (Keeps-flag (suc n) Token.kw_all) λ x. Keeps-pure (suc n) _))
          λ distinct. Takes-then (Takes-fueled (suc n) _ columns_loop-Takes) λ columns.
            Keeps-then from_clause-Keeps λ from.
              Keeps-then (clause-Keeps Token.kw_where) λ where_expr.
                Keeps-then group_clause-Keeps λ group_by.
                  Keeps-then (clause-Keeps Token.kw_having) λ having.
                    Keeps-then compound_clause_of-Keeps λ compound.
                      Keeps-then order_clause-Keeps λ order_by.
                        Keeps-then (clause-Keeps Token.kw_limit) λ limit.
                          Keeps-then (clause-Keeps Token.kw_offset) λ offset. Keeps-pure n _
