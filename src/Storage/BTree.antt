-- ===== src/Storage/BTree.antt =====
-- internal/storage/btree.go: the look-up of a key, from the root down. `Get` returns the value
-- where the source returns it with true, and none where it returns nil with false.
pub mod Shape
pub mod Lookup
pub mod Separator
pub mod Leaf
mod Sample
mod Tests
use sqlgo.Base.{
  ℕ, zero, suc, Bool, true, false, Bytes, Option, some, none, Result, ok, err, ◌>>=◌, ◌==◌, leb,
  if◌then◌else◌,
}
use sqlgo.Storage.Header.{invalid_page}
use sqlgo.Storage.Cell.{Cell}
use sqlgo.Storage.Page.{
  Page, PageError, page_type, type_leaf, type_internal, cell_count, cell_at, rightmost_pointer,
  page_binary_search,
}
use sqlgo.Storage.Pager.{Pager, PagerError, get_page}

pub data TreeError : Type 0 where
  pager_error : PagerError → TreeError
  page_error : PageError → TreeError
  too_deep : TreeError

-- What one round of the loop decides.
pub data Next : Type 0 where
  answer : Option Bytes → Next
  descend : ℕ → Next

unfoldable pub at_found : Page → Cell → Next
at_found pg c = if page_type pg == type_leaf then answer (some c.value) else descend c.left_ptr

unfoldable pub at_missed : Page → ℕ → Result PageError Next
at_missed pg idx =
    if page_type pg == type_internal
    then (if leb (cell_count pg) idx
        then ok (descend (rightmost_pointer pg))
        else (cell_at pg idx >>= λ c. ok (descend c.left_ptr)))
    else ok (answer none)

abbrev pub at_place : Page → ℕ × Bool → Result PageError Next
at_place pg (idx, true) = cell_at pg idx >>= λ c. ok (at_found pg c)
at_place pg (idx, false) = at_missed pg idx

unfoldable pub search_page : Page → Bytes → Result PageError Next
search_page pg key = page_binary_search pg key >>= at_place pg

-- The loop of `search`. Each round goes down one level, so that fuel for one round more than there
-- are levels is enough.
unfoldable pub search : ℕ → Bytes → ℕ → Pager → Result TreeError (Option Bytes) × Pager
search zero key id p = (err too_deep, p)
search (suc fuel) key id p =
    if id == invalid_page
    then (ok none, p)
    else let (r, p') = get_page id p in
      elim r [
        | err e ↦ (err (pager_error e), p')
        | ok pg ↦ elim (search_page pg key) [
          | err e ↦ (err (page_error e), p')
          | ok (answer value) ↦ (ok value, p')
          | ok (descend next) ↦ search fuel key next p'
        ]
      ]

pub record BTree : Type 0 where
  pub root_page : ℕ

unfoldable pub get_value : ℕ → BTree → Bytes → Pager → Result TreeError (Option Bytes) × Pager
get_value fuel bt key p = search fuel key bt.root_page p
