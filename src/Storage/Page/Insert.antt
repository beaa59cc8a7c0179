-- ===== src/Storage/Page/Insert.antt =====
-- `insertCellIntoPageAt` and `insertCellIntoPage` on a page that holds a list of cells.
mod Writes
use Writes.{
  placed, after, place_cell-placed, count-placed, insert_at-after, after-Holds, free_space-after,
}
use sqlgo.Base.{
  false, Bool, true, ℕ, zero, suc, ◌+◌, ◌-◌, ◌*◌, ◌%◌, ◌^◌, ◌≤◌, ◌<◌, ◌≡◌, ◌⊎◌, inl, inr, refl, sym,
  ap, ◌∙◌, arith, Bytes, List, [], ◌∷◌, ◌++◌, length, take, drop, some, get_elem?, ok, err, ltb,
  lt→ltb, le→ltb, insert_nth, length-insert_nth, get_elem?-insert_nth_lt, get_elem?-insert_nth_self,
  get_elem?-insert_nth_gt, lt_of_get_elem?, Result, if◌then◌else◌, ◌&&◌, Bool-cases,
}
use sqlgo.Base.Word.{put_uint16}
use sqlgo.Storage.Buffer.{
  write, slice, read16, take-drop-slice, length-write, read16-write, read16-write_apart,
  slice-write_apart, slice-write_self,
}
use sqlgo.Storage.Cell.{Cell, encode_cell}
use sqlgo.Storage.Cell.Codec.{IsEncodable, length-encode_cell}
use sqlgo.Storage.Page.{
  Page, PageError, page_full, panic, cell_count, cell_content_offset, free_space, shift_up,
  slot_offset, insert_cell_into_page_at, insert_cell_into_page, place_cell, insert_cell_pointer,
  set_cell_pointer, set_cell_count, copy_into, set_cell_content_offset,
}
use sqlgo.Storage.Page.Slots.{slot, slot_offset_lem, Agree, shift_up-Agree, read16-shift_up}
use sqlgo.Storage.Page.Layout.{Holds, IsStored}

le-or-lt : (m n : ℕ) → (m ≤ n) ⊎ (n < m)
le-or-lt m n = omega arith

-- What an insertion of the cell at a place comes to.
abbrev pub Inserted : Page → List Cell → Cell → ℕ → Result PageError Page → Type 0
Inserted pg cells c idx r =
    let needed = length (encode_cell c) + 2 in
    ((free_space pg < needed) × (r ≡ err page_full))
    ⊎ ((pg' : Page) × (r ≡ ok pg')
        × Holds pg' (insert_nth idx c cells)
        × (free_space pg' + needed ≡ free_space pg))

place_cell_full :
    (pg : Page) (c : Cell)
    → length (encode_cell c) + 2 < 2 ^ 16
    → free_space pg < length (encode_cell c) + 2
    → place_cell pg (encode_cell c) ≡ err page_full
unfolding place_cell
place_cell_full pg c fits full =
    let whole : length (encode_cell c) % 2 ^ 16 ≡ length (encode_cell c) = omega arith in
    let needed : (length (encode_cell c) + 2) % 2 ^ 16 ≡ length (encode_cell c) + 2 = omega arith in
    rw (whole, needed, lt→ltb _ _ full)

-- On a page that holds `cells`, `insertCellIntoPageAt` at a place up to their number answers
-- `ErrPageFull` exactly when the cell and its pointer need more than the free space; otherwise the
-- page then holds the cells with the new one at that place, and has so much less free space. The
-- cell's lengths fit 16 bits, and so does its encoding with the pointer.
pub insert_cell_into_page_at-Inserted :
    (pg : Page) (cells : List Cell) (c : Cell) (idx : ℕ)
    → Holds pg cells
    → IsEncodable c
    → idx ≤ length cells
    → length (encode_cell c) + 2 < 2 ^ 16
    → Inserted pg cells c idx (insert_cell_into_page_at pg c idx)
insert_cell_into_page_at-Inserted pg cells c idx h enc at fits =
    elim (le-or-lt (length (encode_cell c) + 2) (free_space pg)) [
      | inl room ↦ inr (
        after pg cells c idx h enc at fits room,
        insert_at-after pg cells c idx h enc at fits room,
        after-Holds pg cells c idx h enc at fits room,
        free_space-after pg cells c idx h enc at fits room,
      )
      | inr full ↦
          inl (full, unfold insert_cell_into_page_at in rw (place_cell_full pg c fits full))
    ]

never_beyond : (b : Bool) (n : ℕ) → (b && ltb n n) ≡ false
never_beyond b n = ground arith

append-after :
    (pg : Page) (cells : List Cell) (c : Cell)
    → (h : Holds pg cells) (enc : IsEncodable c) → (fits : length (encode_cell c) + 2 < 2 ^ 16)
    → (room : length (encode_cell c) + 2 ≤ free_space pg)
    → insert_cell_into_page pg c ≡ insert_cell_into_page_at pg c (length cells)
unfolding insert_cell_into_page insert_cell_into_page_at insert_cell_pointer shift_up
append-after pg cells c h enc fits room =
    let at : length cells ≤ length cells = omega arith in
    let none_shifted : length cells - length cells ≡ 0 = omega arith in
    rw (
      place_cell-placed pg cells c (length cells) h enc at fits room,
      count-placed pg cells c (length cells) h enc at fits room,
      h.count,
      none_shifted,
      never_beyond
          (ltb
            (length
              (placed pg.bytes (cell_content_offset pg - length (encode_cell c)) (encode_cell c)))
            (slot_offset (length cells) + 2))
          (length cells),
    )

-- On a page that holds `cells`, `insertCellIntoPage` answers `ErrPageFull` exactly when the cell
-- and its pointer need more than the free space; otherwise the page then holds the cells with the
-- new one behind them, and has so much less free space. The cell's lengths fit 16 bits, and so does
-- its encoding with the pointer.
pub insert_cell_into_page-Inserted :
    (pg : Page) (cells : List Cell) (c : Cell)
    → Holds pg cells
    → IsEncodable c
    → length (encode_cell c) + 2 < 2 ^ 16
    → Inserted pg cells c (length cells) (insert_cell_into_page pg c)
insert_cell_into_page-Inserted pg cells c h enc fits =
    elim (le-or-lt (length (encode_cell c) + 2) (free_space pg)) [
      | inl room ↦
          rw (append-after pg cells c h enc fits room)
            (insert_cell_into_page_at-Inserted pg cells c (length cells) h enc (omega arith) fits)
      | inr full ↦ inl (full, unfold insert_cell_into_page in rw (place_cell_full pg c fits full))
    ]
