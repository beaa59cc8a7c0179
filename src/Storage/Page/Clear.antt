-- ===== src/Storage/Page/Clear.antt =====
-- `clearPage`, and a page that is filled anew.
use sqlgo.Base.{ℕ, suc, zero, ◌-◌, ◌≡◌, refl, ap, ◌∙◌, arith, Bytes, [], ◌∷◌, length}
use sqlgo.Base.Word.{put_uint16, put_uint32}
use sqlgo.Storage.Buffer.{write, read16, length-write, read16-write, read16-write_apart}
use sqlgo.Storage.Header.{zeros}
use sqlgo.Storage.Page.{
  Page, cell_count, cell_content_offset, free_space, clear_page, set_type, set_cell_count,
  set_cell_content_offset, set_rightmost_pointer, page_type, rightmost_pointer,
}
use sqlgo.Storage.Page.Layout.{Holds}

-- The setters that empty a page.
abbrev pub emptied : Page → ℕ → ℕ → Page
emptied pg kind rightmost =
    set_rightmost_pointer (set_cell_content_offset (set_cell_count (set_type pg kind) 0) 4096)
      rightmost

free_space_of :
    (pg : Page) → cell_count pg ≡ 0 → cell_content_offset pg ≡ 4096 → free_space pg ≡ 4087
unfolding free_space
free_space_of pg none_ content = rw (none_, content) refl

module _ (pg : Page) (kind rightmost : ℕ) (size : length pg.bytes ≡ 4096) where
  abbrev typed : Bytes
  typed = write pg.bytes 0 (kind ∷ [])

  abbrev counted : Bytes
  counted = write typed 1 (put_uint16 0)

  abbrev offset : Bytes
  offset = write counted 3 (put_uint16 4096)

  typed_size : length typed ≡ 4096
  typed_size = length-write pg.bytes 0 (kind ∷ []) (omega arith) ∙ size

  counted_size : length counted ≡ 4096
  unfolding put_uint16
  counted_size = length-write typed 1 (put_uint16 0) (omega (arith, typed_size)) ∙ typed_size

  offset_size : length offset ≡ 4096
  unfolding put_uint16
  offset_size =
      length-write counted 3 (put_uint16 4096) (omega (arith, counted_size)) ∙ counted_size

  emptied_size : length (write offset 5 (put_uint32 rightmost)) ≡ 4096
  unfolding put_uint32
  emptied_size =
      length-write offset 5 (put_uint32 rightmost) (omega (arith, offset_size)) ∙ offset_size

  read_count : read16 (write offset 5 (put_uint32 rightmost)) 1 ≡ 0
  unfolding put_uint32 put_uint16
  read_count =
      read16-write_apart offset 5 (put_uint32 rightmost) (omega (arith, offset_size)) 1
        (omega arith)
      ∙ read16-write_apart counted 3 (put_uint16 4096) (omega (arith, counted_size)) 1 (omega arith)
      ∙ read16-write typed 1 0 (omega (arith, typed_size)) (omega arith)

  read_content : read16 (write offset 5 (put_uint32 rightmost)) 3 ≡ 4096
  unfolding put_uint32
  read_content =
      read16-write_apart offset 5 (put_uint32 rightmost) (omega (arith, offset_size)) 3
        (omega arith)
      ∙ read16-write counted 3 4096 (omega (arith, counted_size)) (omega arith)

  content-emptied : cell_content_offset (emptied pg kind rightmost) ≡ 4096
  unfolding cell_content_offset set_type set_cell_count set_cell_content_offset
      set_rightmost_pointer
  content-emptied = rw read_content refl

  pub emptied-Holds :
      Holds (emptied pg kind rightmost) [] × (free_space (emptied pg kind rightmost) ≡ 4087)
  unfolding cell_count set_type set_cell_count set_cell_content_offset set_rightmost_pointer
  emptied-Holds = (
    record {
      size = emptied_size;
      count = read_count;
      room = omega (arith, content-emptied);
      content = omega (arith, content-emptied);
      stored = λ i c at. cc;
      apart = λ i j c c' ne at at'. cc;
    },
    free_space_of (emptied pg kind rightmost) read_count content-emptied,
  )

pub length-zeros : (n : ℕ) → length (zeros n) ≡ n
length-zeros zero = refl
length-zeros (suc n) = ap suc (length-zeros n)

-- `clearPage` leaves a page without cells, with all of its space free.
pub clear_page-Holds :
    (pg : Page)
    → length pg.bytes ≡ 4096
    → Holds (clear_page pg) [] × (free_space (clear_page pg) ≡ 4087)
unfolding clear_page
clear_page-Holds pg size =
    let cleared : Page = record pg { bytes = write pg.bytes 1 (zeros (length pg.bytes - 1)) } in
    emptied-Holds cleared (page_type pg) (rightmost_pointer pg)
      (length-write pg.bytes 1 _ (omega (arith, size, length-zeros (length pg.bytes - 1))) ∙ size)
