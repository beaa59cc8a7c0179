-- ===== src/Storage/BTree/Leaf/Order.antt =====
-- `insertSorted`, and the order of keys that it keeps.
use sqlgo.Base.{
  ℕ, suc, zero, ◌-◌, ◌≤◌, ◌<◌, ◌≡◌, ◌⊎◌, refl, sym, ap, ◌∙◌, arith, List, [], ◌∷◌, length,
  get_elem?, some, insert_nth, get_elem?-insert_nth_lt, get_elem?-insert_nth_self,
  get_elem?-insert_nth_gt, inl, inr,
}
use sqlgo.Storage.Cell.{Cell, negative, positive, key_cmp}
use sqlgo.Storage.Cell.KeyOrder.{key_cmp_order, opposite}
use sqlgo.Storage.Page.Search.{IsSorted, Below, Above}
use sqlgo.Storage.BTree.Leaf.{insert_sorted}

sorted_negative :
    (x c : Cell) (cells : List Cell)
    → key_cmp c.key x.key ≡ negative
    → insert_sorted (x ∷ cells) c ≡ c ∷ x ∷ cells
unfolding insert_sorted
sorted_negative x c cells e = rw (e, insert_sorted) refl

sorted_positive :
    (x c : Cell) (cells : List Cell)
    → key_cmp c.key x.key ≡ positive
    → insert_sorted (x ∷ cells) c ≡ x ∷ insert_sorted cells c
unfolding insert_sorted
sorted_positive x c cells e = rw (e, insert_sorted) refl

pub insert_sorted-insert_nth :
    (cells : List Cell) (c : Cell) (idx : ℕ)
    → idx ≤ length cells
    → Below c.key cells idx
    → Above c.key cells idx
    → insert_sorted cells c ≡ insert_nth idx c cells
insert_sorted-insert_nth [] c zero le below above = unfold insert_sorted in refl
insert_sorted-insert_nth [] c (suc idx) le below above = absurd (omega arith)
insert_sorted-insert_nth (x ∷ cells) c zero le below above =
    sorted_negative x c cells (above 0 x refl (omega arith))
insert_sorted-insert_nth (x ∷ cells) c (suc idx) le below above =
    sorted_positive x c cells (below 0 x refl (omega arith))
    ∙ ap (λ l. x ∷ l)
        (insert_sorted-insert_nth cells c idx (omega arith)
          (λ j d at lt. below (suc j) d at (omega arith))
          (λ j d at le'. above (suc j) d at (omega arith)))

-- Where an element of the longer list comes from.
abbrev From : List Cell → Cell → ℕ → ℕ → Cell → Type 0
From cells c idx j x =
    ((j ≡ idx) × (c ≡ x))
    ⊎ ((k : ℕ) × (get_elem? cells k ≡ some x) × (((j < idx) × (k ≡ j)) ⊎ ((idx ≤ k) × (j ≡ suc k))))

order-cases : (j idx : ℕ) → (j < idx) ⊎ (j ≡ idx) ⊎ ((k : ℕ) × (idx ≤ k) × (j ≡ suc k))
order-cases j idx =
    let ordered : (j < idx) ⊎ (j ≡ idx) ⊎ (idx < j) = omega arith in
    elim ordered [
      | inl before ↦ inl before
      | inr (inl here) ↦ inr (inl here)
      | inr (inr behind) ↦ inr (inr (j - 1, omega arith, omega arith))
    ]

insert_nth-From :
    (cells : List Cell) (c x : Cell) (idx j : ℕ)
    → idx ≤ length cells
    → get_elem? (insert_nth idx c cells) j ≡ some x
    → From cells c idx j x
insert_nth-From cells c x idx j le at = elim (order-cases j idx) [
  | inl lt ↦ inr (j, sym (get_elem?-insert_nth_lt idx j c cells lt le) ∙ at, inl (lt, refl))
  | inr (inl here) ↦ inl (here, cc (rw here at at, get_elem?-insert_nth_self idx c cells le))
  | inr (inr (k, ge, e)) ↦
      inr (k, sym (get_elem?-insert_nth_gt idx k c cells ge) ∙ rw e at at, inr (ge, e))
]

ascending-From :
    (cells : List Cell) (c x y : Cell) (idx i j : ℕ)
    → IsSorted cells
    → Below c.key cells idx
    → Above c.key cells idx
    → i < j
    → From cells c idx i x
    → From cells c idx j y
    → key_cmp x.key y.key ≡ negative
ascending-From cells c x y idx i j sorted below above lt (inl (ei, _)) (inl (ej, _)) =
    absurd (omega arith)
ascending-From cells c x y idx i j sorted below above lt (inl (ei, cx)) (inr (k, at, side)) =
    rw (sym cx) (above k y at (omega arith))
ascending-From cells c x y idx i j sorted below above lt (inr (k, at, side)) (inl (ej, cy)) =
    let greater = below k x at (omega arith) in
    let flipped = (key_cmp_order c.key x.key c.key).1 in rw (sym cy) (flipped ∙ ap opposite greater)
ascending-From cells c x y idx i j sorted below above lt (inr (k, at, side))
      (inr (k', at', side')) =
    sorted.ascending k k' x y (omega arith) at at'

-- A cell that is put where its key belongs keeps the cells in order.
pub insert_nth-IsSorted :
    (cells : List Cell) (c : Cell) (idx : ℕ)
    → IsSorted cells
    → idx ≤ length cells
    → Below c.key cells idx
    → Above c.key cells idx
    → IsSorted (insert_nth idx c cells)
insert_nth-IsSorted cells c idx sorted le below above = record {
  ascending = λ i j x y lt at at'.
      ascending-From cells c x y idx i j sorted below above lt
        (insert_nth-From cells c x idx i le at) (insert_nth-From cells c y idx j le at');
}
