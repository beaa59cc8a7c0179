-- ===== src/Storage/Page/Overflow.antt =====
-- `insertCellIntoPage` on cells that are longer than a page.
use sqlgo.Base.{
  true, ℕ, ◌+◌, ◌-◌, ◌%◌, ◌^◌, ◌≤◌, ◌<◌, ◌≡◌, ◌⊎◌, inl, inr, refl, sym, ◌∙◌, arith, List, length,
  ok, err, le→ltb, ◌>>=◌, Bytes,
}
use sqlgo.Base.Word.{put_uint16}
use sqlgo.Storage.Buffer.{write, length-write, read16-write, read16-write_apart}
use sqlgo.Storage.Cell.{Cell, encode_cell}
use sqlgo.Storage.Page.{
  Page, PageError, panic, overrun, cell_content_offset, free_space, copy_into, place_cell,
  cell_pointer, set_cell_pointer, set_cell_count, set_cell_content_offset, insert_cell_into_page,
}
use sqlgo.Storage.Page.Copy.{copy_into-overrun, copy_into-panic, copy_into-end, encode_cell-some}
use sqlgo.Storage.Page.Slots.{slot, slot_offset_lem}
use sqlgo.Storage.Page.Layout.{Holds}

-- Where the cell is to stand: the content offset less its length, both cut to 16 bits.
abbrev pub target : Page → Cell → ℕ
target pg c = (cell_content_offset pg + 2 ^ 16 - length (encode_cell c) % 2 ^ 16) % 2 ^ 16

length-put_uint16 : (v : ℕ) → length (put_uint16 v) ≡ 2
unfolding put_uint16
length-put_uint16 v = refl

module _ (pg : Page) (cells : List Cell) (c : Cell) (h : Holds pg cells)
    (long : 4096 < length (encode_cell c))
    (room : (length (encode_cell c) % 2 ^ 16 + 2) % 2 ^ 16 ≤ free_space pg) where
  place_cell-room :
      place_cell pg (encode_cell c)
      ≡ copy_into pg (target pg c) (encode_cell c) >>= λ copied.
          ok (set_cell_content_offset copied (target pg c), target pg c)
  unfolding place_cell
  place_cell-room = rw (le→ltb (free_space pg) _ room) refl

  slot-room : target pg c ≡ 4096 → slot (length cells) + 2 ≤ 4096
  unfolding free_space
  slot-room e = ground (arith, h.count, h.room, h.content)

  abbrev d1 : Bytes
  d1 = write pg.bytes 3 (put_uint16 4096)

  abbrev d2 : Bytes
  d2 = write d1 (slot (length cells)) (put_uint16 4096)

  abbrev d3 : Bytes
  d3 = write d2 1 (put_uint16 ((length cells + 1) % 2 ^ 16))

  abbrev after : Page
  after = record pg { bytes = d3; dirty = true }

  module _ (e : target pg c ≡ 4096) where
    size1 : length d1 ≡ 4096
    size1 =
        length-write pg.bytes 3 (put_uint16 4096) (omega (arith, h.size, length-put_uint16 4096))
        ∙ h.size

    size2 : length d2 ≡ 4096
    size2 =
        length-write d1 (slot (length cells)) (put_uint16 4096)
          (omega (arith, size1, slot-room e, length-put_uint16 4096))
        ∙ size1

    size3 : length d3 ≡ 4096
    size3 =
        length-write d2 1 (put_uint16 ((length cells + 1) % 2 ^ 16))
          (omega (arith, size2, length-put_uint16 ((length cells + 1) % 2 ^ 16)))
        ∙ size2

    insert-end : insert_cell_into_page pg c ≡ ok after
    unfolding insert_cell_into_page set_cell_content_offset set_cell_pointer set_cell_count
    insert-end =
        rw
          (
            place_cell-room,
            e,
            copy_into-end pg 4096 (encode_cell c) (sym h.size),
            h.count,
            slot_offset_lem (length cells) (omega (arith, slot-room e)),
            le→ltb (length d1) (slot (length cells) + 2) (omega (arith, size1, slot-room e)),
          )
          refl

    pointer-end : cell_pointer after (length cells) ≡ ok 4096
    unfolding cell_pointer
    pointer-end =
        rw
          (
            slot_offset_lem (length cells) (omega (arith, slot-room e)),
            le→ltb (length d3) (slot (length cells) + 2) (omega (arith, size3, slot-room e)),
            read16-write_apart d2 1 (put_uint16 ((length cells + 1) % 2 ^ 16))
                (omega (arith, size2, length-put_uint16 ((length cells + 1) % 2 ^ 16)))
                (slot (length cells))
                (inr (omega (arith, length-put_uint16 ((length cells + 1) % 2 ^ 16)))),
            read16-write d1 (slot (length cells)) 4096 (omega (arith, size1, slot-room e))
                (omega arith),
          )
          refl

  insert-failed :
      (x : PageError)
      → copy_into pg (target pg c) (encode_cell c) ≡ err x
      → insert_cell_into_page pg c ≡ err x
  unfolding insert_cell_into_page
  insert-failed x failed = rw (place_cell-room, failed) refl

  -- On a page that holds cells, a cell whose encoding is longer than a page passes the test for room
  -- where its length and two more, cut to 16 bits, are no more than the free space. It is to stand at
  -- the content offset less its length, cut to 16 bits. If that is on the page, the bytes are copied
  -- over the end of the page; if it is behind the end, Go panics; and if it is the end, nothing is
  -- copied, and the call succeeds with a pointer to the end, where no cell can stand.
  pub insert_cell_into_page_overflow :
      ((target pg c < 4096) × (insert_cell_into_page pg c ≡ err overrun))
      ⊎ ((4096 < target pg c) × (insert_cell_into_page pg c ≡ err panic))
      ⊎ ((target pg c ≡ 4096)
          × ((pg' : Page) × (insert_cell_into_page pg c ≡ ok pg')
              × (cell_pointer pg' (length cells) ≡ ok 4096)))
  insert_cell_into_page_overflow =
      let where_ : (target pg c < 4096) ⊎ (4096 < target pg c) ⊎ (target pg c ≡ 4096) =
        omega arith in
      elim where_ [
        | inl in_ ↦ inl (
          in_,
          insert-failed overrun (
              copy_into-overrun pg (target pg c) (encode_cell c) (encode_cell-some c)
                (omega (arith, h.size)) (omega (arith, h.size, long))),
        )
        | inr (inl behind) ↦ inr (
            inl (
              behind,
              insert-failed panic
                  (copy_into-panic pg (target pg c) (encode_cell c) (omega (arith, h.size))),
            ))
        | inr (inr e) ↦ inr (inr (e, (after, insert-end e, pointer-end e)))
      ]
