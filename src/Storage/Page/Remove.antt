-- ===== src/Storage/Page/Remove.antt =====
-- `removeCellAt` on a page that holds a list of cells.
use sqlgo.Base.{
  ℕ, suc, ◌+◌, ◌-◌, ◌%◌, ◌^◌, ◌≤◌, ◌<◌, ◌≡◌, ◌⊎◌, inl, inr, refl, sym, ◌∙◌, arith, Bytes, List,
  length, some, get_elem?, true, remove_nth, length-remove_nth, get_elem?-remove_nth_lt,
  get_elem?-remove_nth_ge, lt_of_get_elem?,
}
use sqlgo.Base.Word.{put_uint16}
use sqlgo.Storage.Buffer.{
  write, slice, read16, length-write, read16-write, read16-write_apart, slice-write_apart,
}
use sqlgo.Storage.Cell.{Cell, encode_cell}
use sqlgo.Storage.Page.{
  Page, cell_count, cell_content_offset, shift_down, remove_cell_at, set_cell_count,
}
use sqlgo.Storage.Page.Slots.{slot, Agree, shift_down-Agree, read16-shift_down}
use sqlgo.Storage.Page.Layout.{Holds, IsStored}

length-put_uint16 : (v : ℕ) → length (put_uint16 v) ≡ 2
unfolding put_uint16
length-put_uint16 v = refl

module _ (pg : Page) (cells : List Cell) (idx : ℕ) (h : Holds pg cells)
    (at : idx < length cells) where
  abbrev count : ℕ
  count = length cells

  abbrev d1 : Bytes
  d1 = shift_down (count - 1 - idx) idx pg.bytes

  abbrev d2 : Bytes
  d2 = write d1 1 (put_uint16 (count - 1))

  shift_fits : slot (idx + (count - 1 - idx)) + 2 ≤ 4096
  shift_fits = omega (arith, h.room, h.content)

  shifted : Agree idx (idx + (count - 1 - idx)) pg.bytes d1
  shifted = shift_down-Agree (count - 1 - idx) idx pg.bytes shift_fits h.size

  size1 : length d1 ≡ 4096
  size1 = shifted.size ∙ h.size

  fit2 : 1 + length (put_uint16 (count - 1)) ≤ length d1
  fit2 = omega (arith, size1, length-put_uint16 (count - 1))

  read-d2 : (i : ℕ) → 3 ≤ i → read16 d2 i ≡ read16 d1 i
  read-d2 i above =
      read16-write_apart d1 1 (put_uint16 (count - 1)) fit2 i
        (inr (omega (arith, length-put_uint16 (count - 1))))

  slice-d2 : (i n : ℕ) → slot count ≤ i → slice d2 i n ≡ slice pg.bytes i n
  slice-d2 i n above =
      slice-write_apart d1 1 (put_uint16 (count - 1)) fit2 n i
        (inr (omega (arith, length-put_uint16 (count - 1))))
      ∙ shifted.run i n (inr (omega arith))

  -- The place that a cell of the new list had.
  abbrev Origin : ℕ → Cell → Type 0
  Origin j c =
      (k : ℕ) × (((k < idx) × (j ≡ k)) ⊎ ((idx ≤ j) × (k ≡ j + 1)))
      × (get_elem? cells k ≡ some c)
      × (read16 d2 (slot j) ≡ read16 pg.bytes (slot k))

  origin : (j : ℕ) (c : Cell) → get_elem? (remove_nth idx cells) j ≡ some c → Origin j c
  origin j c found =
      let where_ : (j < idx) ⊎ (idx ≤ j) = omega arith in
      elim where_ [
        | inl lt ↦ (
          j,
          inl (lt, refl),
          sym (get_elem?-remove_nth_lt idx j cells lt) ∙ found,
          read-d2 (slot j) (omega arith) ∙ shifted.read (slot j) (inl (omega arith)),
        )
        | inr ge ↦
            let e : suc j ≡ j + 1 = omega arith in
            let old : get_elem? cells (j + 1) ≡ some c =
              rw e at (sym (get_elem?-remove_nth_ge idx j cells ge) ∙ found) in
            (
              j + 1,
              inr (ge, refl),
              old,
              read-d2 (slot j) (omega arith)
                  ∙ read16-shift_down (count - 1 - idx) idx j pg.bytes shift_fits h.size ge
                      (omega (arith, lt_of_get_elem? cells (j + 1) old)),
            )
      ]

  abbrev after : Page
  after = record pg { bytes = d2; dirty = true }

  content-after : cell_content_offset after ≡ cell_content_offset pg
  unfolding cell_content_offset
  content-after =
      let same : read16 d2 3 ≡ read16 pg.bytes 3 =
        read-d2 3 (omega arith) ∙ shifted.read 3 (inl (omega arith)) in
      rw same

  keep_stored :
      (off : ℕ) (c : Cell)
      → IsStored pg.bytes (cell_content_offset pg) off c
      → IsStored d2 (cell_content_offset pg) off c
  keep_stored off c s = record {
    encodable = s.encodable;
    above = s.above;
    inside = s.inside;
    run = slice-d2 off (length (encode_cell c)) (omega (arith, s.above, h.room)) ∙ s.run;
  }

  count-after : cell_count after ≡ length (remove_nth idx cells)
  unfolding cell_count
  count-after =
      read16-write d1 1 (count - 1) (omega (arith, size1)) (omega (arith, shift_fits))
      ∙ omega (arith, length-remove_nth idx cells at)

  after-Holds : Holds after (remove_nth idx cells)
  after-Holds = record {
    size = length-write d1 1 (put_uint16 (count - 1)) fit2 ∙ size1;
    count = count-after;
    room = omega (arith, content-after, h.room, length-remove_nth idx cells at);
    content = omega (arith, content-after, h.content);
    stored = λ j c found.
        let (k, _, old, off) = origin j c found in
        rw (content-after, off) (keep_stored _ c (h.stored k c old));
    apart = λ i j c c' ne found found'.
        let (k, from, old, off) = origin i c found in
        let (k', from', old', off') = origin j c' found' in
        rw (off, off') (h.apart k k' c c' (omega arith) old old');
  }

  remove-after : remove_cell_at pg idx ≡ after
  unfolding remove_cell_at set_cell_count
  remove-after =
      let next : (count + 2 ^ 16 - 1) % 2 ^ 16 ≡ count - 1 = omega (arith, h.room, h.content) in
      rw (h.count, next)

-- Of a page that holds `cells`, `removeCellAt` leaves one that holds them without the cell of
-- that place; the bytes of the cell itself are not freed.
pub remove_cell_at-Holds :
    (pg : Page) (cells : List Cell) (idx : ℕ)
    → Holds pg cells
    → idx < length cells
    → Holds (remove_cell_at pg idx) (remove_nth idx cells)
      × (cell_content_offset (remove_cell_at pg idx) ≡ cell_content_offset pg)
remove_cell_at-Holds pg cells idx h at =
    rw (remove-after pg cells idx h at)
      (after-Holds pg cells idx h at, content-after pg cells idx h at)
