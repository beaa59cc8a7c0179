-- ===== src/Engine/Eval/Values.antt =====
-- internal/storage/row.go: how a `Value` is printed, compared and tested.
use sqlgo.Base.{
  ℕ, Bool, true, false, not, Option, [], ◌∷◌, ◌++◌, ◌==◌, ltb, if◌then◌else◌, Bytes, length,
}
use sqlgo.Storage.Value.{Value, null, integer, real, text, blob}
use sqlgo.Engine.Parser.Token.{Runes, codes}
use sqlgo.Engine.Eval.Machine.{int_less, format_int, digits}

-- What evaluation uses of Go's float64, a number below 2 ^ 64, and of its packages: `float64(v)`,
-- `int64(f)`, `uint(f)`, arithmetic, `math.Mod`, the first result of `strconv.ParseFloat`, which is 0
-- for no number, `strconv.FormatFloat`, `strings.ToUpper` and `ToLower`, `strings.EqualFold`, the
-- conversions of strings, and `regexp`, with none for a pattern that does not compile.
pub record Library : Type 0 where
  pub float_of_int : ℕ → ℕ
  pub int_of_float : ℕ → ℕ
  pub uint_of_float : ℕ → ℕ
  pub float_less : ℕ → ℕ → Bool
  pub float_is_zero : ℕ → Bool
  pub float_neg : ℕ → ℕ
  pub float_add : ℕ → ℕ → ℕ
  pub float_sub : ℕ → ℕ → ℕ
  pub float_mul : ℕ → ℕ → ℕ
  pub float_div : ℕ → ℕ → ℕ
  pub float_mod : ℕ → ℕ → ℕ
  pub parse_float : Bytes → ℕ
  pub format_float : ℕ → Bytes
  pub to_upper : Bytes → Bytes
  pub to_lower : Bytes → Bytes
  pub equal_fold : Runes → Runes → Bool
  pub runes_of : Bytes → Runes
  pub bytes_of : Runes → Bytes
  pub match_regexp : Bytes → Bytes → Option Bool

-- Three results of a comparison: -1, 0 and 1.
pub data Order : Type 0 where
  below equal above : Order

abbrev pub order_of : Bool → Bool → Order
order_of less more = if less then below else if more then above else equal

abbrev pub is_null : Value → Bool
is_null null = true
is_null _ = false

-- `<` on strings, byte for byte.
unfoldable pub bytes_less : Bytes → Bytes → Bool
bytes_less s [] = false
bytes_less [] (y ∷ ys) = true
bytes_less (x ∷ xs) (y ∷ ys) =
    let rest = bytes_less xs ys in if ltb x y then true else if x == y then rest else false

module _ (go : Library) where
  unfoldable pub string_of : Value → Bytes
  unfolding format_int digits
  string_of null = codes "NULL"
  string_of (integer v) = format_int v
  string_of (real v) = go.format_float v
  string_of (text s) = s
  string_of (blob b) = codes "<blob:" ++ digits 20 (length b) (codes ">")

  unfoldable pub to_float : Value → ℕ
  unfolding string_of
  to_float (integer v) = go.float_of_int v
  to_float (real v) = v
  to_float v = go.parse_float (string_of v)

  unfoldable pub is_true : Value → Bool
  is_true null = false
  is_true (integer v) = not (v == 0)
  is_true (real v) = not (go.float_is_zero v)
  is_true (text []) = false
  is_true (text (c ∷ s)) = true
  is_true (blob []) = false
  is_true (blob (c ∷ b)) = true

  abbrev pub compare_floats : ℕ → ℕ → Order
  compare_floats a b = order_of (go.float_less a b) (go.float_less b a)

  abbrev pub compare_strings : Value → Value → Order
  compare_strings v w =
      order_of (bytes_less (string_of v) (string_of w)) (bytes_less (string_of w) (string_of v))

  unfoldable pub compare : Value → Value → Order
  unfolding int_less bytes_less string_of
  compare null null = equal
  compare null w = below
  compare v null = above
  compare (integer a) (integer b) = order_of (int_less a b) (int_less b a)
  compare (integer a) (real b) = compare_floats (go.float_of_int a) b
  compare (real a) (integer b) = compare_floats a (go.float_of_int b)
  compare (real a) (real b) = compare_floats a b
  compare v w = compare_strings v w
