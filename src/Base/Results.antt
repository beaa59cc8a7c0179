-- ===== src/Base/Results.antt =====
-- Go's pair of a value and an error: `ok` where the error is nil.
use mathlib.Core.Path.{◌≡◌, refl}
use mathlib.Core.Bool.{Bool, true, false}
use mathlib.Core.Logic.{◌⊎◌, inl, inr}

pub data Result {ℓ} (E : Type 0) (A : Type ℓ) : Type ℓ where
  ok : A → Result E A
  err : E → Result E A

infixl 5 ◌>>=◌ ◌>>◌
abbrev pub ◌>>=◌ {ℓ κ} :
    {E : Type 0} {A : Type ℓ} {B : Type κ} → Result E A → (A → Result E B) → Result E B
err e >>= next = err e
ok x >>= next = next x

abbrev pub ◌>>◌ {ℓ} : {E : Type 0} {B : Type ℓ} → Result E (Unit {0}) → Result E B → Result E B
m >> k = m >>= λ _. k

-- An early `return err` under an `if`.
abbrev pub fail_if : {E : Type 0} → Bool → E → Result E (Unit {0})
fail_if true e = err e
fail_if false e = ok tt

-- Inversion of a successful bind, for proofs where the parts stay shut.
pub ok_of_bind {ℓ κ} :
    {E : Type 0} {X : Type ℓ} {Y : Type κ} {last : Y} (first : Result E X) (next : X → Result E Y)
    → (first >>= next) ≡ ok last
    → (x : X) × (first ≡ ok x) × (next x ≡ ok last)
ok_of_bind (err e) next done = cc
ok_of_bind (ok x) next done = (x, refl, done)

pub Result-cases {ℓ} :
    {E : Type 0} {A : Type ℓ} (r : Result E A) → ((e : E) × (r ≡ err e)) ⊎ ((a : A) × (r ≡ ok a))
Result-cases (ok a) = inr (a, refl)
Result-cases (err e) = inl (e, refl)
