-- ===== src/Engine/Rows/Window.antt =====
-- internal/engine/executor/executor.go: the rows that `applyLimitOffset` leaves.
use sqlgo.Base.{
  ℕ, zero, suc, ◌+◌, ◌^◌, ◌<◌, ◌≤◌, ◌≡◌, refl, sym, arith, false, none, some, List, [], ◌∷◌, ltb,
  if◌then◌else◌, length, take, drop, get_elem?, Bool-cases, inl, inr, ok,
}
use sqlgo.Storage.Value.{integer}
use sqlgo.Engine.Parser.Syntax.{Expr, present}
use sqlgo.Engine.Eval.Machine.{is_negative}
use sqlgo.Engine.Eval.Values.{Library}
use sqlgo.Engine.Eval.Expr.{Functions, eval_expr}
use sqlgo.Engine.Rows.{ValueRow, empty_context, number_of, apply_limit_offset}

sum_zero : (i : ℕ) → 0 + i ≡ i
sum_zero i = omega arith

sum_suc : (m i : ℕ) → suc m + i ≡ suc (m + i)
sum_suc m i = omega arith

ltb-suc : (i n : ℕ) → ltb (suc i) (suc n) ≡ ltb i n
ltb-suc i n = ground arith

module _ {ℓ} {A : Type ℓ} where
  get_elem?-drop : (m : ℕ) (xs : List A) (i : ℕ) → get_elem? (drop m xs) i ≡ get_elem? xs (m + i)
  get_elem?-drop zero xs i = rw (sum_zero i) refl
  get_elem?-drop (suc m) [] i = refl
  get_elem?-drop (suc m) (x ∷ xs) i = rw (sum_suc m i) (get_elem?-drop m xs i)

  get_elem?-take :
      (n : ℕ) (xs : List A) (i : ℕ)
      → get_elem? (take n xs) i ≡ (if ltb i n then get_elem? xs i else none)
  get_elem?-take zero xs i = ground arith
  get_elem?-take (suc n) [] i = ground arith
  get_elem?-take (suc n) (x ∷ xs) zero = ground arith
  get_elem?-take (suc n) (x ∷ xs) (suc i) = rw (ltb-suc i n) (get_elem?-take n xs i)

  get_elem?_ge : (xs : List A) (i : ℕ) → length xs ≤ i → get_elem? xs i ≡ none
  get_elem?_ge [] i h = refl
  get_elem?_ge (x ∷ xs) zero h = absurd (omega (arith, h))
  get_elem?_ge (x ∷ xs) (suc i) h = get_elem?_ge xs i (omega (arith, h))

  -- A list is also cut behind its end.
  get_elem?-whole :
      (n : ℕ) (xs : List A) (i : ℕ)
      → length xs ≤ n
      → get_elem? xs i ≡ (if ltb i n then get_elem? xs i else none)
  get_elem?-whole n xs i h = elim (Bool-cases (ltb i n)) [
    | inl inside ↦ rw inside refl
    | inr outside ↦ rw (outside, get_elem?_ge xs i (ground (arith, outside, h))) refl
  ]

module _ (go : Library) (functions : Functions) where
  number_of-ok :
      (e : Expr) (n : ℕ)
      → eval_expr go functions (some empty_context) e ≡ ok (integer n)
      → number_of go functions (present e) ≡ some n
  unfolding number_of
  number_of-ok e n h = rw (h, number_of) refl

  window_lem :
      (offset limit : Expr) (m n : ℕ) (rows : List ValueRow)
      → eval_expr go functions (some empty_context) offset ≡ ok (integer m)
      → eval_expr go functions (some empty_context) limit ≡ ok (integer n)
      → is_negative m ≡ false
      → is_negative n ≡ false
      → apply_limit_offset go functions (present offset) (present limit) rows
        ≡ (if ltb n (length (drop m rows)) then take n (drop m rows) else drop m rows)
  unfolding apply_limit_offset
  window_lem offset limit m n rows eo el pm pn =
      rw (number_of-ok offset m eo, number_of-ok limit n el, pm, pn, apply_limit_offset) refl

  -- `LIMIT n OFFSET m`, for expressions that evaluate to integers that are not negative, leaves the
  -- rows at `m`, `m + 1` and so on, `n` of them if there are as many, and those that there are
  -- otherwise.
  pub apply_limit_offset-get :
      (offset limit : Expr) (m n : ℕ) (rows : List ValueRow) (i : ℕ)
      → eval_expr go functions (some empty_context) offset ≡ ok (integer m)
      → eval_expr go functions (some empty_context) limit ≡ ok (integer n)
      → m < 2 ^ 63
      → n < 2 ^ 63
      → get_elem? (apply_limit_offset go functions (present offset) (present limit) rows) i
        ≡ (if ltb i n then get_elem? rows (m + i) else none)
  apply_limit_offset-get offset limit m n rows i eo el hm hn =
      rw
        (
          window_lem offset limit m n rows eo el (ground arith) (ground arith),
          sym (get_elem?-drop m rows i),
        )
        (elim (Bool-cases (ltb n (length (drop m rows)))) [
          | inl longer ↦ rw longer (get_elem?-take n (drop m rows) i)
          | inr whole ↦ rw whole (get_elem?-whole n (drop m rows) i (ground (arith, whole)))
        ])
