-- ===== src/Engine/Pattern.antt =====
-- What the matchers of internal/engine/executor/eval.go have in common, and what a pattern stands
-- for once it is read.
use sqlgo.Base.{
  ℕ, ◌≤◌, ◌≡◌, ◌↔◌, ◌⊎◌, refl, ap, arith, Bool, true, false, List, [], ◌∷◌, ◌++◌, ◌==◌,
  if◌then◌else◌, Bool-cases, inl, inr,
}

unfoldable pub is_empty : List ℕ → Bool
is_empty [] = true
is_empty (x ∷ s) = false

-- The next rune has to be `c`; `k` is the rest of the loop.
unfoldable pub literal : ℕ → (List ℕ → Bool) → List ℕ → Bool
literal c k [] = false
literal c k (x ∷ s) = if x == c then k s else false

unfoldable pub any_one : (List ℕ → Bool) → List ℕ → Bool
any_one k [] = false
any_one k (x ∷ s) = k s

-- The loop of `%` and `*`: `k` on each suffix, the longest first.
unfoldable pub some_suffix : (List ℕ → Bool) → List ℕ → Bool
some_suffix k [] = k []
some_suffix k (x ∷ s) = let rest = some_suffix k s in if k (x ∷ s) then true else rest

-- `one_of` is a class of runes as ranges, or what is outside of them.
pub data Item : Type 0 where
  exactly : ℕ → Item
  one many : Item
  one_of : Bool → List (ℕ × ℕ) → Item

abbrev pub InRanges : List (ℕ × ℕ) → ℕ → Type 0
InRanges [] c = ⊥
InRanges ((lo, hi) ∷ ranges) c = ((lo ≤ c) × (c ≤ hi)) ⊎ InRanges ranges c

abbrev pub Accepts : Bool → List (ℕ × ℕ) → ℕ → Type 0
Accepts false ranges c = InRanges ranges c
Accepts true ranges c = ¬ InRanges ranges c

-- The strings that items stand for, one item after the other.
abbrev pub Matches : List Item → List ℕ → Type 0
Matches [] s = s ≡ []
Matches (exactly c ∷ its) s = (rest : List ℕ) × (s ≡ c ∷ rest) × Matches its rest
Matches (one ∷ its) s = (c : ℕ) × (rest : List ℕ) × (s ≡ c ∷ rest) × Matches its rest
Matches (many ∷ its) s =
    (skipped : List ℕ) × (rest : List ℕ) × (s ≡ skipped ++ rest) × Matches its rest
Matches (one_of negate ranges ∷ its) s =
    (c : ℕ) × (rest : List ℕ) × (s ≡ c ∷ rest) × Accepts negate ranges c × Matches its rest

abbrev pub IsFor : List Item → (List ℕ → Bool) → Type 0
IsFor its k = (s : List ℕ) → k s ≡ true ↔ Matches its s

pub is_empty-IsFor : IsFor [] is_empty
unfolding is_empty
is_empty-IsFor [] = (λ _. refl, λ _. refl)
is_empty-IsFor (x ∷ s) = (λ h. cc, λ m. cc)

some_suffix-skip :
    (k : List ℕ → Bool) (skipped s : List ℕ) → k s ≡ true → some_suffix k (skipped ++ s) ≡ true
unfolding some_suffix
some_suffix-skip k [] [] h = h
some_suffix-skip k [] (x ∷ s) h = rw h refl
some_suffix-skip k (y ∷ skipped) s h = ground (arith, some_suffix-skip k skipped s h)

some_suffix_inv :
    (k : List ℕ → Bool) (s : List ℕ)
    → some_suffix k s ≡ true
    → (skipped rest : List ℕ) × (s ≡ skipped ++ rest) × (k rest ≡ true)
unfolding some_suffix
some_suffix_inv k [] h = ([], [], refl, h)
some_suffix_inv k (x ∷ s) h = elim (Bool-cases (k (x ∷ s))) [
  | inl here ↦ ([], x ∷ s, refl, here)
  | inr later ↦
      let (skipped, rest, e, h') = some_suffix_inv k s (rw later at h) in
      (x ∷ skipped, rest, ap (λ l. x ∷ l) e, h')
]

module _ (its : List Item) (k : List ℕ → Bool) (is : IsFor its k) where
  pub literal-IsFor : (c : ℕ) → IsFor (exactly c ∷ its) (literal c k)
  unfolding literal
  literal-IsFor c [] = (λ h. cc, λ (rest, e, m). cc)
  literal-IsFor c (x ∷ s) = (
    λ h. elim (Bool-cases (x == c)) [
      | inl same ↦ (s, ap (λ y. y ∷ s) (ground arith), (is s).0 (ground (arith, h, same)))
      | inr other ↦ ground (arith, h, other)
    ],
    λ (rest, e, m). ground (arith, e, (is rest).1 m),
  )

  pub any_one-IsFor : IsFor (one ∷ its) (any_one k)
  unfolding any_one
  any_one-IsFor [] = (λ h. cc, λ (c, rest, e, m). cc)
  any_one-IsFor (x ∷ s) =
      (λ h. (x, s, refl, (is s).0 h), λ (c, rest, e, m). ground (arith, e, (is rest).1 m))

  pub some_suffix-IsFor : IsFor (many ∷ its) (some_suffix k)
  some_suffix-IsFor s = (
    λ h. let (skipped, rest, e, h') = some_suffix_inv k s h in (skipped, rest, e, (is rest).0 h'),
    λ (skipped, rest, e, m). rw e (some_suffix-skip k skipped rest ((is rest).1 m)),
  )
