-- ===== src/Engine/Rows/Tests.antt =====
-- internal/engine/executor/executor.go: the rows of concrete results.
use sqlgo.Base.{
  ℕ, ◌+◌, ◌*◌, ◌≡◌, refl, arith, false, Bytes, List, none, some, [], ◌∷◌, get_elem?, ltb, err, ok,
}
use sqlgo.Storage.Value.{null, integer, text}
use sqlgo.Engine.Parser.Token.{codes}
use sqlgo.Engine.Parser.Syntax.{Expr, int, literal_expr, present}
use sqlgo.Engine.Eval.Values.{Library}
use sqlgo.Engine.Eval.Operators.{function_failed}
use sqlgo.Engine.Eval.Expr.{Functions, eval_expr}
use sqlgo.Engine.Rows.{ValueRow, has_key, dedup, apply_limit_offset}
use sqlgo.Engine.Rows.Distinct.{keys, AreDistinct, dedup-AreDistinct}
use sqlgo.Engine.Rows.Window.{apply_limit_offset-get}

abbrev no_floats : Library
no_floats = record {
  float_of_int = λ v. v;
  int_of_float = λ f. f;
  uint_of_float = λ f. f;
  float_less = ltb;
  float_is_zero = λ f. ltb f 1;
  float_neg = λ f. f;
  float_add = λ a b. a + b;
  float_sub = λ a b. a;
  float_mul = λ a b. a * b;
  float_div = λ a b. a;
  float_mod = λ a b. a;
  parse_float = λ s. 0;
  format_float = λ f. [];
  to_upper = λ s. s;
  to_lower = λ s. s;
  equal_fold = λ s t. false;
  runes_of = λ s. s;
  bytes_of = λ s. s;
  match_regexp = λ p s. none;
}

abbrev nothing : Functions
nothing = record { call = λ name args star distinct. err function_failed; cast = λ type v. ok v }

abbrev rows : List ValueRow
rows = (integer 7 ∷ []) ∷ (null ∷ []) ∷ (text (codes "NULL") ∷ []) ∷ (integer 7 ∷ []) ∷ []

-- NULL and the text 'NULL' have the same key.
deduplicated : dedup no_floats rows ≡ (integer 7 ∷ []) ∷ (null ∷ []) ∷ []
unfolding dedup
deduplicated = refl

dedup-AreDistinct_example :
    AreDistinct no_floats (dedup no_floats rows)
    × ((key : Bytes)
        → has_key key (keys no_floats (dedup no_floats rows)) ≡ has_key key (keys no_floats rows))
dedup-AreDistinct_example = dedup-AreDistinct no_floats rows

abbrev num : ℕ → Expr
num n = literal_expr (int n)

apply_limit_offset-get_example :
    get_elem? (apply_limit_offset no_floats nothing (present (num 1)) (present (num 2)) rows) 1
    ≡ some (text (codes "NULL") ∷ [])
unfolding eval_expr
apply_limit_offset-get_example =
    apply_limit_offset-get no_floats nothing (num 1) (num 2) 1 2 rows 1 refl refl (omega arith)
      (omega arith)
