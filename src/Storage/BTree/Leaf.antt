-- ===== src/Storage/BTree/Leaf.antt =====
-- internal/storage/btree.go: insertion into a leaf, `insertLeaf`, `splitLeaf` and `insertSorted`.
-- The page that `AllocatePage` returns is an argument; what an error leaves of the pages is part of
-- the result, since both are shared with the cache.
pub mod Fill
pub mod Order
pub mod Split
pub mod Insert
mod Tests
use sqlgo.Base.{
  ℕ, Bool, true, false, ◌/◌, Bytes, List, [], ◌∷◌, Option, some, none, length, take, drop,
  get_elem?, Result, ok, err, if◌then◌else◌,
}
use sqlgo.Storage.Header.{invalid_page, page_size}
use sqlgo.Storage.Cell.{Cell, Sign, negative, equal, positive, key_cmp}
use sqlgo.Storage.Page.{
  Page, PageError, page_full, rewrite_out_of_bounds, panic, overrun, out_of_fuel, bad_cell,
  type_leaf, set_type, set_cell_count, set_cell_content_offset, set_rightmost_pointer, clear_page,
  collect_cells, insert_cell_into_page, insert_cell_into_page_at, page_binary_search, rewrite_cell,
}

-- In front of the first cell with a greater key.
unfoldable pub insert_sorted : List Cell → Cell → List Cell
insert_sorted [] c = c ∷ []
insert_sorted (x ∷ cells) c =
    let rest = insert_sorted cells c in
    elim (key_cmp c.key x.key) [ negative ↦ c ∷ x ∷ cells | equal ↦ x ∷ rest | positive ↦ x ∷ rest ]

-- The loops over `insertCellIntoPage`, which stop at the first error.
unfoldable pub fill_page : Page → List Cell → Result PageError (Unit {0}) × Page
fill_page pg [] = (ok tt, pg)
fill_page pg (c ∷ cells) = elim (insert_cell_into_page pg c) [
  | err e ↦ (err e, pg)
  | ok pg' ↦ fill_page pg' cells
]

abbrev pub new_leaf : Page → Page
new_leaf pg =
    set_rightmost_pointer
      (set_cell_content_offset (set_cell_count (set_type pg type_leaf) 0) page_size) invalid_page

-- `cells[mid]`, which Go panics on if there is none.
abbrev pub separator : Option Cell → Result PageError (Bytes × Bytes)
separator none = err panic
separator (some c) = ok (c.key, c.value)

abbrev pub Halves : Type 0
Halves = Result PageError (Bytes × Bytes) × Page × Page

-- Behind the loop that fills the new page.
abbrev pub with_right : Page → List Cell → Result PageError (Unit {0}) × Page → Halves
with_right left cells (err e, right) = (err e, left, right)
with_right left cells (ok _, right) = (separator (get_elem? cells (length cells / 2)), left, right)

-- Behind the loop that fills the old page.
abbrev pub with_left : Page → List Cell → Result PageError (Unit {0}) × Page → Halves
with_left new cells (err e, left) = (err e, left, new_leaf new)
with_left new cells (ok _, left) =
    with_right left cells (fill_page (new_leaf new) (drop (length cells / 2) cells))

unfoldable pub split_cells : Page → Page → List Cell → Halves
split_cells pg new cells =
    with_left new cells (fill_page (clear_page pg) (take (length cells / 2) cells))

unfoldable pub split_leaf : Page → Page → Bytes → Bytes → Halves
split_leaf pg new key value = elim (collect_cells pg) [
  | err e ↦ (err e, pg, new)
  | ok cells ↦
      split_cells pg new
        (insert_sorted cells (record { key = key; value = value; left_ptr = invalid_page }))
]

abbrev pub new_cell : Bytes → Bytes → Cell
new_cell key value = record { key = key; value = value; left_ptr = invalid_page }

-- The separator, where the leaf was split.
abbrev pub Grown : Type 0
Grown = Result PageError (Option (Bytes × Bytes)) × Page × Page

abbrev pub is_full : PageError → Bool
is_full page_full = true
is_full rewrite_out_of_bounds = false
is_full panic = false
is_full overrun = false
is_full out_of_fuel = false
is_full (bad_cell e) = false

abbrev pub overflow : Halves → Grown
overflow (err e, left, right) = (err e, left, right)
overflow (ok sep, left, right) = (ok (some sep), left, right)

-- What the calls of `updateLeafCell` and `insertCellIntoPageAt` lead to.
abbrev pub rewritten : Page → Page → Result PageError Page → Grown
rewritten pg new (ok pg') = (ok none, pg', new)
rewritten pg new (err e) = (err e, pg, new)

abbrev pub inserted_or_split : Page → Page → Bytes → Bytes → Result PageError Page → Grown
inserted_or_split pg new key value (ok pg') = (ok none, pg', new)
inserted_or_split pg new key value (err e) =
    if is_full e then overflow (split_leaf pg new key value) else (err e, pg, new)

abbrev pub insert_at_place : Page → Page → Bytes → Bytes → Result PageError (ℕ × Bool) → Grown
insert_at_place pg new key value (err e) = (err e, pg, new)
insert_at_place pg new key value (ok (idx, true)) =
    rewritten pg new (rewrite_cell pg idx (new_cell key value))
insert_at_place pg new key value (ok (idx, false)) =
    inserted_or_split pg new key value (insert_cell_into_page_at pg (new_cell key value) idx)

unfoldable pub insert_leaf : Page → Page → Bytes → Bytes → Grown
insert_leaf pg new key value = insert_at_place pg new key value (page_binary_search pg key)
