-- ===== src/Engine/Eval/Quotient.antt =====
-- internal/engine/executor/eval.go: the quotient and the remainder of two int64.
use sqlgo.Base.{
  ℕ, zero, suc, ◌+◌, ◌-◌, ◌*◌, ◌/◌, ◌%◌, ◌^◌, ◌<◌, ◌≤◌, ◌≡◌, ◌≢◌, refl, sym, arith, true, false,
  Bool-cases, ◌⊎◌, ◌∙◌, inl, inr,
}
use sqlgo.Engine.Eval.Machine.{is_negative, magnitude, negate, int_div, int_mod}

-- A negative number with its magnitude, or a number that is its own magnitude.
abbrev IsNegative : ℕ → Type 0
IsNegative a = (is_negative a ≡ true) × (a + magnitude a ≡ 2 ^ 64)

abbrev IsPositive : ℕ → Type 0
IsPositive a = (is_negative a ≡ false) × (magnitude a ≡ a)

sign_cases : (a : ℕ) → a < 2 ^ 64 → IsNegative a ⊎ IsPositive a
sign_cases a h = elim (Bool-cases (is_negative a)) [
  | inl negative ↦ inl (negative, ground (arith, negative))
  | inr positive ↦ inr (positive, ground (arith, positive))
]

module _ (a b : ℕ) where
  div_negative_negative :
      is_negative a ≡ true → is_negative b ≡ true → int_div a b ≡ magnitude a / magnitude b
  unfolding int_div
  div_negative_negative na nb = rw (na, nb) refl

  div_negative_positive :
      is_negative a ≡ true
      → is_negative b ≡ false
      → int_div a b ≡ negate (magnitude a / magnitude b)
  unfolding int_div
  div_negative_positive na pb = rw (na, pb) refl

  div_positive_negative :
      is_negative a ≡ false
      → is_negative b ≡ true
      → int_div a b ≡ negate (magnitude a / magnitude b)
  unfolding int_div
  div_positive_negative pa nb = rw (pa, nb) refl

  div_positive_positive :
      is_negative a ≡ false → is_negative b ≡ false → int_div a b ≡ magnitude a / magnitude b
  unfolding int_div
  div_positive_positive pa pb = rw (pa, pb) refl

  mod_negative : is_negative a ≡ true → int_mod a b ≡ negate (magnitude a % magnitude b)
  unfolding int_mod
  mod_negative na = rw na refl

  mod_positive : is_negative a ≡ false → int_mod a b ≡ magnitude a % magnitude b
  unfolding int_mod
  mod_positive pa = rw pa refl

quotient : (A B : ℕ) → B ≢ 0 → A / B * B + A % B ≡ A
quotient A B h = omega arith

complements : (q b B : ℕ) → b + B ≡ 2 ^ 64 → q * b + q * B ≡ q * 2 ^ 64
complements zero b B e = omega arith
complements (suc q) b B e = omega (arith, complements q b B e)

-- The four cases of the signs, of a quotient `q` with remainder `r`.
same_signs : (q b a r : ℕ) → q * b + r ≡ a → a < 2 ^ 64 → (q * b % 2 ^ 64 + r) % 2 ^ 64 ≡ a
same_signs q b a r e h = omega arith

both_negative :
    (q b B a A r : ℕ)
    → q * B + r ≡ A
    → b + B ≡ 2 ^ 64
    → a + A ≡ 2 ^ 64
    → r < B
    → a < 2 ^ 64
    → (q * b % 2 ^ 64 + (2 ^ 64 - r) % 2 ^ 64) % 2 ^ 64 ≡ a
both_negative q b B a A r e eb ea hr h = omega (arith, complements q b B eb)

small : (Q q : ℕ) → Q + suc q ≡ 2 ^ 64 → Q % 2 ^ 64 ≡ Q
small Q q e = omega arith

whole : (Q : ℕ) → Q + 0 ≡ 2 ^ 64 → Q % 2 ^ 64 ≡ 0
whole Q e = omega arith

complements_left : (Q q B : ℕ) → Q + q ≡ 2 ^ 64 → Q * B + q * B ≡ 2 ^ 64 * B
complements_left Q q zero e = omega arith
complements_left Q q (suc B) e = omega (arith, complements_left Q q B e)

left_negative :
    (q Q B a A r : ℕ)
    → Q + q ≡ 2 ^ 64
    → q * B + r ≡ A
    → a + A ≡ 2 ^ 64
    → r < B
    → a < 2 ^ 64
    → (Q % 2 ^ 64 * B % 2 ^ 64 + (2 ^ 64 - r) % 2 ^ 64) % 2 ^ 64 ≡ a
left_negative zero Q B a A r eq e ea hr h = rw (whole Q eq) (omega arith)
left_negative (suc q) Q B a A r eq e ea hr h =
    rw (small Q q eq) (omega (arith, complements_left Q (suc q) B eq))

right_negative :
    (q Q b B a r : ℕ)
    → Q + q ≡ 2 ^ 64
    → q * B + r ≡ a
    → b + B ≡ 2 ^ 64
    → a < 2 ^ 64
    → (Q % 2 ^ 64 * b % 2 ^ 64 + r) % 2 ^ 64 ≡ a
right_negative zero Q b B a r eq e eb h = rw (whole Q eq) (omega arith)
right_negative (suc q) Q b B a r eq e eb h =
    rw (small Q q eq) (omega (arith, complements_left Q (suc q) b eq, complements (suc q) b B eb))

not_zero : (b : ℕ) → b < 2 ^ 64 → b ≢ 0 → magnitude b ≢ 0
not_zero b h nz = ground arith

remainder : (A B : ℕ) → B ≢ 0 → A % B < B
remainder A B h = omega arith

magnitude_bound : (a : ℕ) → a < 2 ^ 64 → magnitude a ≤ 2 ^ 64
magnitude_bound a h = ground arith

quotient_le : (A B : ℕ) → A / B ≤ A
quotient_le A B = omega arith

quotient_bound : (a B : ℕ) → a < 2 ^ 64 → magnitude a / B ≤ 2 ^ 64
quotient_bound a B h = omega (arith, magnitude_bound a h, quotient_le (magnitude a) B)

complement_sum : (q : ℕ) → q ≤ 2 ^ 64 → 2 ^ 64 - q + q ≡ 2 ^ 64
complement_sum q h = omega arith

at_magnitude : (b : ℕ) → magnitude b ≡ b → (P : ℕ → Type 0) → P (magnitude b) → P b
at_magnitude b e P h = rw (sym e) h

-- The quotient and the remainder belong together, whatever the signs are.
pub int_div-int_mod :
    (a b : ℕ)
    → a < 2 ^ 64
    → b < 2 ^ 64
    → b ≢ 0
    → (int_div a b * b % 2 ^ 64 + int_mod a b) % 2 ^ 64 ≡ a
unfolding negate
int_div-int_mod a b ha hb nz =
    let A = magnitude a in
    let B = magnitude b in
    let q = A / B in
    let r = A % B in
    let e = quotient A B (not_zero b hb nz) in
    let small_r = remainder A B (not_zero b hb nz) in
    let eq = complement_sum q (quotient_bound a B ha) in
    elim (sign_cases a ha) [
      | inl (na, ea) ↦ elim (sign_cases b hb) [
        | inl (nb, eb) ↦
            rw (div_negative_negative a b na nb, mod_negative a b na)
              (both_negative q b B a A r e eb ea small_r ha)
        | inr (pb, eb) ↦
            rw (div_negative_positive a b na pb, mod_negative a b na)
              (at_magnitude b eb
                (λ c. ((2 ^ 64 - q) % 2 ^ 64 * c % 2 ^ 64 + (2 ^ 64 - r) % 2 ^ 64) % 2 ^ 64 ≡ a)
                (left_negative q (2 ^ 64 - q) B a A r eq e ea small_r ha))
      ]
      | inr (pa, ea) ↦ elim (sign_cases b hb) [
        | inl (nb, eb) ↦
            rw (div_positive_negative a b pa nb, mod_positive a b pa)
              (right_negative q (2 ^ 64 - q) b B a r eq (e ∙ ea) eb ha)
        | inr (pb, eb) ↦
            rw (div_positive_positive a b pa pb, mod_positive a b pa)
              (at_magnitude b eb (λ c. (q * c % 2 ^ 64 + r) % 2 ^ 64 ≡ a)
                (same_signs q B a r (e ∙ ea) ha))
      ]
    ]
