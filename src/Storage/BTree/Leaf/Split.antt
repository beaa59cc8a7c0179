-- ===== src/Storage/BTree/Leaf/Split.antt =====
-- `splitLeaf`: what the two pages hold.
use sqlgo.Base.{
  ℕ, suc, zero, ◌/◌, ◌<◌, ◌≡◌, ◌≢◌, ◌⊎◌, refl, arith, Bool, true, false, Bytes, List, [], ◌∷◌,
  length, take, drop, get_elem?, some, insert_nth, length-insert_nth, All, Result, ok, err,
  get_elem?_of_lt, inl, inr,
}
use sqlgo.Storage.Header.{invalid_page}
use sqlgo.Storage.Cell.{Cell}
use sqlgo.Storage.Page.{Page, PageError, page_full, type_leaf, free_space, clear_page}
use sqlgo.Storage.Page.Layout.{Holds, collect_cells-Holds}
use sqlgo.Storage.Page.Search.{IsSorted, Located, page_binary_search-Located}
use sqlgo.Storage.Page.Clear.{emptied-Holds, clear_page-Holds}
use sqlgo.Storage.BTree.Leaf.{
  new_cell, insert_sorted, new_leaf, Halves, with_right, with_left, split_cells, split_leaf,
}
use sqlgo.Storage.BTree.Leaf.Fill.{IsSmall, space, Filled, fill_page-Filled}
use sqlgo.Storage.BTree.Leaf.Order.{insert_sorted-insert_nth, insert_nth-IsSorted}

-- The space of a page behind its header.
abbrev pub capacity : ℕ
capacity = 4087

-- What a split of the cells in the middle comes to.
abbrev pub Halved : List Cell → Halves → Type 0
Halved cells (r, left, right) =
    let mid = length cells / 2 in
    (((capacity < space (take mid cells)) ⊎ (capacity < space (drop mid cells)))
      × (r ≡ err page_full))
    ⊎ ((c : Cell) × (get_elem? cells mid ≡ some c)
        × (r ≡ ok (c.key, c.value))
        × Holds left (take mid cells)
        × Holds right (drop mid cells))

with_right-Halved :
    (left new : Page) (cells : List Cell) (r : Result PageError (Unit {0}) × Page)
    → 0 < length cells
    → free_space new ≡ capacity
    → Holds left (take (length cells / 2) cells)
    → Filled new [] (drop (length cells / 2) cells) r
    → Halved cells (with_right left cells r)
with_right-Halved left new cells (err e, right) pos free h (inl (full, e')) =
    inl (inr (omega arith), ground (arith, e'))
with_right-Halved left new cells (err e, right) pos free h (inr (room, e', h')) = cc
with_right-Halved left new cells (ok _, right) pos free h (inl (full, e')) = cc
with_right-Halved left new cells (ok _, right) pos free h (inr (room, e', h')) =
    let (c, at) = get_elem?_of_lt cells (length cells / 2) (omega arith) in
    rw at (inr (c, refl, refl, h, h'))

with_left-Halved :
    (cleared new : Page) (cells : List Cell) (r : Result PageError (Unit {0}) × Page)
    → 0 < length cells
    → free_space cleared ≡ capacity
    → length new.bytes ≡ 4096
    → All IsSmall (drop (length cells / 2) cells)
    → Filled cleared [] (take (length cells / 2) cells) r
    → Halved cells (with_left new cells r)
with_left-Halved cleared new cells (err e, left) pos free size small (inl (full, e')) =
    inl (inl (omega arith), ground (arith, e'))
with_left-Halved cleared new cells (err e, left) pos free size small (inr (room, e', h)) = cc
with_left-Halved cleared new cells (ok _, left) pos free size small (inl (full, e')) = cc
with_left-Halved cleared new cells (ok _, left) pos free size small (inr (room, e', h)) =
    let (empty, free') = emptied-Holds new type_leaf invalid_page size in
    with_right-Halved left (new_leaf new) cells _ pos free' h
      (fill_page-Filled (new_leaf new) [] (drop (length cells / 2) cells) empty small)

split_cells-Halved :
    (pg new : Page) (cells : List Cell)
    → 0 < length cells
    → length pg.bytes ≡ 4096
    → length new.bytes ≡ 4096
    → All IsSmall (take (length cells / 2) cells)
    → All IsSmall (drop (length cells / 2) cells)
    → Halved cells (split_cells pg new cells)
unfolding split_cells
split_cells-Halved pg new cells pos size size' small small' =
    let (empty, free) = clear_page-Holds pg size in
    with_left-Halved (clear_page pg) new cells _ pos free size' small'
      (fill_page-Filled (clear_page pg) [] (take (length cells / 2) cells) empty small)

All-insert_nth :
    (idx : ℕ) (c : Cell) (cells : List Cell)
    → IsSmall c
    → All IsSmall cells
    → All IsSmall (insert_nth idx c cells)
All-insert_nth zero c cells small all = (small, all)
All-insert_nth (suc idx) c [] small all = (small, tt)
All-insert_nth (suc idx) c (x ∷ cells) small (first, all) =
    (first, All-insert_nth idx c cells small all)

All-take : (n : ℕ) (cells : List Cell) → All IsSmall cells → All IsSmall (take n cells)
All-take zero cells all = tt
All-take (suc n) [] all = tt
All-take (suc n) (x ∷ cells) (first, all) = (first, All-take n cells all)

All-drop : (n : ℕ) (cells : List Cell) → All IsSmall cells → All IsSmall (drop n cells)
All-drop zero cells all = all
All-drop (suc n) [] all = tt
All-drop (suc n) (x ∷ cells) (first, all) = All-drop n cells all

All-cells :
    (cells : List Cell)
    → ((i : ℕ) (c : Cell) → get_elem? cells i ≡ some c → IsSmall c)
    → All IsSmall cells
All-cells [] at = tt
All-cells (c ∷ cells) at = (at 0 c refl, All-cells cells (λ i d found. at (suc i) d found))

-- Cells on a page are small.
held-IsSmall : (pg : Page) (cells : List Cell) → Holds pg cells → All IsSmall cells
held-IsSmall pg cells h =
    All-cells cells (λ i c at. let s = h.stored i c at in (s.encodable, omega (arith, s.inside)))

split_leaf_lem :
    (pg new : Page) (cells : List Cell) (key value : Bytes)
    → Holds pg cells
    → split_leaf pg new key value ≡ split_cells pg new (insert_sorted cells (new_cell key value))
unfolding split_leaf
split_leaf_lem pg new cells key value h = rw (collect_cells-Holds pg cells h, split_leaf) refl

split_at :
    (pg new : Page) (cells : List Cell) (key value : Bytes) (r : ℕ × Bool)
    → Holds pg cells
    → IsSorted cells
    → ((i : ℕ) (c : Cell) → get_elem? cells i ≡ some c → c.key ≢ key)
    → length new.bytes ≡ 4096
    → IsSmall (new_cell key value)
    → Located key cells r
    → IsSorted (insert_sorted cells (new_cell key value))
      × Halved
          (insert_sorted cells (new_cell key value))
          (split_cells pg new (insert_sorted cells (new_cell key value)))
split_at pg new cells key value (idx, true) h sorted fresh size small (c, at, same) =
    absurd (fresh idx c at same)
split_at pg new cells key value (idx, false) h sorted fresh size small (le, below, above) =
    let c = new_cell key value in
    let all = All-insert_nth idx c cells small (held-IsSmall pg cells h) in
    let e = insert_sorted-insert_nth cells c idx le below above in
    let mid = length (insert_nth idx c cells) / 2 in
    rw e (
      insert_nth-IsSorted cells c idx sorted le below above,
      split_cells-Halved pg new (insert_nth idx c cells)
          (omega (arith, length-insert_nth idx c cells)) h.size size (All-take mid _ all)
          (All-drop mid _ all),
    )

-- A leaf that holds sorted cells is split for a new key. The cells with the new one stay sorted, and
-- if each half fits on an empty page, then the old page holds the first half and the new page the
-- second one, whose first cell is returned as the separator. If a half does not fit, the answer is
-- that the page is full. The lengths of the key and the value fit 16 bits, and so does the encoding of
-- the cell with its pointer.
pub split_leaf-Halved :
    (pg new : Page) (cells : List Cell) (key value : Bytes)
    → Holds pg cells
    → IsSorted cells
    → ((i : ℕ) (c : Cell) → get_elem? cells i ≡ some c → c.key ≢ key)
    → length new.bytes ≡ 4096
    → IsSmall (new_cell key value)
    → IsSorted (insert_sorted cells (new_cell key value))
      × Halved (insert_sorted cells (new_cell key value)) (split_leaf pg new key value)
split_leaf-Halved pg new cells key value h sorted fresh size small =
    let (r, found, located) = page_binary_search-Located pg cells key h sorted in
    rw (split_leaf_lem pg new cells key value h)
      (split_at pg new cells key value r h sorted fresh size small located)
