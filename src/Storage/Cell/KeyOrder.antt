-- ===== src/Storage/Cell/KeyOrder.antt =====
-- `keyCmp` is a strict total order on keys.
use sqlgo.Base.{
  inl, inr, ◌⊎◌, if◌then◌else◌, length, ◌≤◌, suc, zero, ◌⊎◌, ℕ, ◌≡◌, ◌↔◌, refl, arith, Bytes, [],
  ◌∷◌, ltb,
}
use sqlgo.Storage.Cell.{key_cmp, memcmp, or_length, Sign, negative, equal, positive}

-- The order of a dictionary: the first byte that differs, and a proper prefix comes first.
unfoldable pub lex : Bytes → Bytes → Sign
lex [] [] = equal
lex [] (y ∷ ys) = negative
lex (x ∷ xs) [] = positive
lex (x ∷ xs) (y ∷ ys) = if ltb x y then negative else if ltb y x then positive else lex xs ys

or_length-suc : (r : Sign) (m n : ℕ) → or_length r (suc m) (suc n) ≡ or_length r m n
unfolding or_length
or_length-suc negative m n = refl
or_length-suc equal m n = ground arith
or_length-suc positive m n = refl

or_length_decided :
    (m n : ℕ) → (or_length negative m n ≡ negative) × (or_length positive m n ≡ positive)
unfolding or_length
or_length_decided m n = (refl, refl)

-- Any bound that reaches the shorter length gives the same answer.
memcmp-lex :
    (n : ℕ) (a b : Bytes)
    → (length a ≤ n) ⊎ (length b ≤ n)
    → or_length (memcmp n a b) (length a) (length b) ≡ lex a b
unfolding memcmp lex
memcmp-lex zero [] [] h = unfold or_length in refl
memcmp-lex zero [] (y ∷ ys) h = unfold or_length in ground arith
memcmp-lex zero (x ∷ xs) [] h = unfold or_length in ground arith
memcmp-lex zero (x ∷ xs) (y ∷ ys) h = absurd (omega arith)
memcmp-lex (suc n) [] [] h = unfold or_length in refl
memcmp-lex (suc n) [] (y ∷ ys) h = unfold or_length in ground arith
memcmp-lex (suc n) (x ∷ xs) [] h = unfold or_length in ground arith
memcmp-lex (suc n) (x ∷ xs) (y ∷ ys) h =
    let shorter : (length xs ≤ n) ⊎ (length ys ≤ n) = omega arith in
    rw or_length-suc
      (ground (arith, memcmp-lex n xs ys shorter, or_length_decided (length xs) (length ys)))

min_reaches : (m n : ℕ) → (m ≤ (if ltb m n then m else n)) ⊎ (n ≤ (if ltb m n then m else n))
min_reaches m n = ground arith

-- `keyCmp` compares keys in the order of a dictionary.
pub key_cmp-lex : (a b : Bytes) → key_cmp a b ≡ lex a b
unfolding key_cmp
key_cmp-lex a b = memcmp-lex _ a b (min_reaches (length a) (length b))

pub lex_self : (a : Bytes) → lex a a ≡ equal
unfolding lex
lex_self [] = refl
lex_self (x ∷ xs) = ground (arith, lex_self xs)

pub eq_of_lex : (a b : Bytes) → lex a b ≡ equal → a ≡ b
unfolding lex
eq_of_lex [] [] h = refl
eq_of_lex [] (y ∷ ys) h = cc
eq_of_lex (x ∷ xs) [] h = cc
eq_of_lex (x ∷ xs) (y ∷ ys) h = ground (arith, eq_of_lex xs ys)

abbrev pub opposite : Sign → Sign
opposite negative = positive
opposite equal = equal
opposite positive = negative

pub lex_flip : (a b : Bytes) → lex b a ≡ opposite (lex a b)
unfolding lex
lex_flip [] [] = refl
lex_flip [] (y ∷ ys) = refl
lex_flip (x ∷ xs) [] = refl
lex_flip (x ∷ xs) (y ∷ ys) = ground (arith, lex_flip xs ys)

pub lex_trans : (a b c : Bytes) → lex a b ≡ negative → lex b c ≡ negative → lex a c ≡ negative
unfolding lex
lex_trans [] [] c h k = cc
lex_trans [] (y ∷ ys) [] h k = cc
lex_trans [] (y ∷ ys) (z ∷ zs) h k = refl
lex_trans (x ∷ xs) [] c h k = cc
lex_trans (x ∷ xs) (y ∷ ys) [] h k = cc
lex_trans (x ∷ xs) (y ∷ ys) (z ∷ zs) h k = ground (arith, lex_trans xs ys zs)

pub key_cmp_self : (a : Bytes) → key_cmp a a ≡ equal
key_cmp_self a = rw key_cmp-lex (lex_self a)

-- `keyCmp` is a strict total order: two keys are equal exactly when they are one, swapping the
-- arguments turns the sign, and smaller is transitive.
pub key_cmp_order :
    (a b c : Bytes)
    → ((key_cmp a b ≡ equal) ↔ (a ≡ b))
      × (key_cmp b a ≡ opposite (key_cmp a b))
      × (key_cmp a b ≡ negative → key_cmp b c ≡ negative → key_cmp a c ≡ negative)
key_cmp_order a b c =
    simp key_cmp-lex ((eq_of_lex a b, λ e. rw e (lex_self b)), lex_flip a b, lex_trans a b c)

pub eq_of_key_cmp : (a b : Bytes) → key_cmp a b ≡ equal → a ≡ b
eq_of_key_cmp a b = (key_cmp_order a b a).0.0

pub Sign-cases : (s : Sign) → (s ≡ negative) ⊎ (s ≡ equal) ⊎ (s ≡ positive)
Sign-cases negative = inl refl
Sign-cases equal = inr (inl refl)
Sign-cases positive = inr (inr refl)
