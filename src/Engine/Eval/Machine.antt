-- ===== src/Engine/Eval/Machine.antt =====
-- Go's int64 as its bit pattern, a number below 2 ^ 64, and the operations that
-- internal/engine/executor/eval.go has on it.
use sqlgo.Base.{
  ℕ, zero, suc, ◌+◌, ◌-◌, ◌*◌, ◌/◌, ◌%◌, ◌^◌, Bool, ltb, if◌then◌else◌, Bytes, [], ◌∷◌,
}

abbrev pub is_negative : ℕ → Bool
is_negative a = ltb (2 ^ 63 - 1) a

-- `-a`.
unfoldable pub negate : ℕ → ℕ
negate a = (2 ^ 64 - a) % 2 ^ 64

-- The number without its sign; that of the smallest number is 2 ^ 63.
abbrev pub magnitude : ℕ → ℕ
magnitude a = if is_negative a then 2 ^ 64 - a else a

-- `a < b`, where the negative numbers are the upper half of the patterns.
unfoldable pub int_less : ℕ → ℕ → Bool
int_less a b = ltb ((a + 2 ^ 63) % 2 ^ 64) ((b + 2 ^ 63) % 2 ^ 64)

-- `a / b` and `a % b`: the quotient is cut towards zero, the remainder has the sign of `a`.
unfoldable pub int_div : ℕ → ℕ → ℕ
unfolding negate
int_div a b =
    let q = magnitude a / magnitude b in
    if is_negative a
    then (if is_negative b then q else negate q)
    else (if is_negative b then negate q else q)

unfoldable pub int_mod : ℕ → ℕ → ℕ
unfolding negate
int_mod a b = let r = magnitude a % magnitude b in if is_negative a then negate r else r

-- `a << n`, and `a >> n` with the sign kept.
unfoldable pub shift_left : ℕ → ℕ → ℕ
shift_left a n = if ltb n 64 then a * 2 ^ n % 2 ^ 64 else 0

unfoldable pub shift_right : ℕ → ℕ → ℕ
shift_right a n =
    if ltb n 64
    then (if is_negative a then 2 ^ 64 - 1 - (2 ^ 64 - 1 - a) / 2 ^ n else a / 2 ^ n)
    else (if is_negative a then 2 ^ 64 - 1 else 0)

-- The digits of a number below `10 ^ fuel`, in front of `behind`.
unfoldable pub digits : ℕ → ℕ → Bytes → Bytes
digits zero n behind = behind
digits (suc fuel) n behind =
    let rest = digits fuel (n / 10) ((b'0' + n % 10) ∷ behind) in
    if ltb n 10 then (b'0' + n) ∷ behind else rest

-- `strconv.FormatInt(a, 10)`: the greatest magnitude has 19 digits.
unfoldable pub format_int : ℕ → Bytes
unfolding digits
format_int a = if is_negative a then b'-' ∷ digits 19 (magnitude a) [] else digits 19 a []
