-- ===== src/Storage/Lru/Entries.antt =====
-- Laws of the entries: look-up, removal, the last entry, distinct keys.
use sqlgo.Base.{
  ℕ, ◌+◌, ◌≡◌, refl, ◌∙◌, arith, some, none, List, length, [], ◌∷◌, ◌++◌, ◌==◌, if◌then◌else◌,
  Option-cases, inl, inr,
}
use sqlgo.Storage.Lru.{find, without, split_back}

module _ {ℓ} {A : Type ℓ} where
  -- No key twice.
  abbrev pub Distinct : List (ℕ × A) → Type ℓ
  Distinct [] = Unit
  Distinct ((k, v) ∷ l) = (find k l ≡ none) × Distinct l

  pub find-without :
      (k j : ℕ) (l : List (ℕ × A))
      → Distinct l
      → find j (without k l) ≡ (if k == j then none else find j l)
  unfolding find without
  find-without k j [] d = ground arith
  find-without k j ((i, v) ∷ l) d = ground (arith, find-without k j l d.1)

  pub Distinct-without : (k : ℕ) (l : List (ℕ × A)) → Distinct l → Distinct (without k l)
  unfolding without
  Distinct-without k [] d = tt
  Distinct-without k ((i, v) ∷ l) d =
      ground (arith, d, Distinct-without k l d.1, find-without k i l d.1)

  pub length-without :
      (k : ℕ) (l : List (ℕ × A)) (v : A) → find k l ≡ some v → length (without k l) + 1 ≡ length l
  unfolding find without
  length-without k [] v h = cc
  length-without k ((i, w) ∷ l) v h = ground (arith, length-without k l v)

  pub split_back-eq-none : (l : List A) → split_back l ≡ none → l ≡ []
  unfolding split_back
  split_back-eq-none [] h = refl
  split_back-eq-none (x ∷ l) h = ground arith

  pub split_back_inv :
      (l front : List A) (back : A) → split_back l ≡ some (front, back) → l ≡ front ++ back ∷ []
  unfolding split_back
  split_back_inv [] front back h = cc
  split_back_inv (x ∷ l) front back h = elim (Option-cases (split_back l)) [
    | inl none_ ↦ ground arith
    | inr ((front', back'), some_) ↦ ground (arith, split_back_inv l front' back' some_)
  ]

  pub find-snoc_self :
      (front : List (ℕ × A)) (j : ℕ) (v : A)
      → Distinct (front ++ (j, v) ∷ [])
      → find j (front ++ (j, v) ∷ []) ≡ some v
  unfolding find
  find-snoc_self [] j v d = ground arith
  find-snoc_self ((i, w) ∷ front) j v d = ground (arith, find-snoc_self front j v d.1, d.0)

  pub find-front :
      (front : List (ℕ × A)) (j : ℕ) (v : A) (k : ℕ)
      → Distinct (front ++ (j, v) ∷ [])
      → find k front ≡ (if j == k then none else find k (front ++ (j, v) ∷ []))
  unfolding find
  find-front [] j v k d = ground arith
  find-front ((i, w) ∷ front) j v k d =
      ground (arith, find-front front j v k d.1, find-snoc_self front j v d.1, d.0)

  pub Distinct-front :
      (front : List (ℕ × A)) (j : ℕ) (v : A) → Distinct (front ++ (j, v) ∷ []) → Distinct front
  Distinct-front [] j v d = tt
  Distinct-front ((i, w) ∷ front) j v d =
      (find-front front j v i d.1 ∙ ground (arith, d.0), Distinct-front front j v d.1)
