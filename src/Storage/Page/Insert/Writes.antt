-- ===== src/Storage/Page/Insert/Writes.antt =====
-- The writes of `insertCellIntoPageAt`, one after the other, and the page that they leave.
use sqlgo.Base.{
  ◌≢◌, true, ℕ, suc, ◌+◌, ◌-◌, ◌%◌, ◌^◌, ◌≤◌, ◌<◌, ◌≡◌, ◌⊎◌, inl, inr, refl, sym, ◌∙◌, arith, Bytes,
  List, length, some, get_elem?, ok, le→ltb, insert_nth, length-insert_nth, get_elem?-insert_nth_lt,
  get_elem?-insert_nth_self, get_elem?-insert_nth_gt, lt_of_get_elem?,
}
use sqlgo.Base.Word.{put_uint16}
use sqlgo.Storage.Buffer.{
  write, slice, read16, length-write, read16-write, read16-write_apart, slice-write_apart,
  slice-write_self,
}
use sqlgo.Storage.Cell.{Cell, encode_cell}
use sqlgo.Storage.Cell.Codec.{IsEncodable}
use sqlgo.Storage.Page.{
  Page, cell_count, cell_content_offset, free_space, shift_up, insert_cell_into_page_at, place_cell,
  insert_cell_pointer, set_cell_pointer, set_cell_count, set_cell_content_offset,
}
use sqlgo.Storage.Page.Copy.{copy_into-fits, encode_cell-some}
use sqlgo.Storage.Page.Slots.{slot, slot_offset_lem, Agree, shift_up-Agree, read16-shift_up}
use sqlgo.Storage.Page.Layout.{Holds, IsStored, AreApart}

-- The bytes of the page after the five writes.
abbrev pub placed : Bytes → ℕ → Bytes → Bytes
placed d new_offset encoded = write (write d new_offset encoded) 3 (put_uint16 new_offset)

abbrev pub inserted : Bytes → ℕ → ℕ → ℕ → Bytes → Bytes
inserted d idx count new_offset encoded =
    write
      (write (shift_up (count - idx) idx (placed d new_offset encoded)) (slot idx)
        (put_uint16 new_offset))
      1 (put_uint16 (count + 1))

length-put_uint16 : (v : ℕ) → length (put_uint16 v) ≡ 2
unfolding put_uint16
length-put_uint16 v = refl

place : (j idx : ℕ) → (j < idx) ⊎ (j ≡ idx) ⊎ ((k : ℕ) × (idx ≤ k) × (j ≡ suc k))
place j idx =
    let where_ : (j < idx) ⊎ (j ≡ idx) ⊎ (idx < j) = omega arith in
    elim where_ [
      | inl lt ↦ inl lt
      | inr (inl here) ↦ inr (inl here)
      | inr (inr gt) ↦ inr (inr (j - 1, omega arith, omega arith))
    ]

module _ (pg : Page) (cells : List Cell) (c : Cell) (idx : ℕ) (h : Holds pg cells)
    (enc : IsEncodable c) (at : idx ≤ length cells) (fits : length (encode_cell c) + 2 < 2 ^ 16)
    (room : length (encode_cell c) + 2 ≤ free_space pg) where
  abbrev pub count : ℕ
  count = length cells

  abbrev pub len : ℕ
  len = length (encode_cell c)

  abbrev pub new_offset : ℕ
  new_offset = cell_content_offset pg - len

  -- There is room for one more slot below the new cell.
  new_offset-room : slot (count + 1) ≤ new_offset
  unfolding free_space
  new_offset-room = ground (arith, h.count, h.room, h.content)

  offset_bounds : new_offset + len ≡ cell_content_offset pg
  unfolding free_space
  offset_bounds = ground (arith, h.count, h.room, h.content)

  abbrev pub d1 : Bytes
  d1 = write pg.bytes new_offset (encode_cell c)

  abbrev pub d2 : Bytes
  d2 = placed pg.bytes new_offset (encode_cell c)

  abbrev pub d3 : Bytes
  d3 = shift_up (count - idx) idx d2

  abbrev pub d4 : Bytes
  d4 = write d3 (slot idx) (put_uint16 new_offset)

  abbrev pub d5 : Bytes
  d5 = inserted pg.bytes idx count new_offset (encode_cell c)

  fit1 : new_offset + length (encode_cell c) ≤ length pg.bytes
  fit1 = omega (arith, offset_bounds, h.content, h.size)

  size1 : length d1 ≡ 4096
  size1 = length-write pg.bytes new_offset (encode_cell c) fit1 ∙ h.size

  fit2 : 3 + length (put_uint16 new_offset) ≤ length d1
  fit2 = omega (arith, size1, length-put_uint16 new_offset)

  size2 : length d2 ≡ 4096
  size2 = length-write d1 3 (put_uint16 new_offset) fit2 ∙ size1

  shift_fits : slot (idx + (count - idx)) + 2 ≤ 4096
  shift_fits = omega (arith, new_offset-room, offset_bounds, h.content)

  shifted : Agree (idx + 1) (idx + (count - idx) + 1) d2 d3
  shifted = shift_up-Agree (count - idx) idx d2 shift_fits size2

  size3 : length d3 ≡ 4096
  size3 = shifted.size ∙ size2

  fit4 : slot idx + length (put_uint16 new_offset) ≤ length d3
  fit4 = omega (arith, size3, length-put_uint16 new_offset, shift_fits)

  size4 : length d4 ≡ 4096
  size4 = length-write d3 (slot idx) (put_uint16 new_offset) fit4 ∙ size3

  fit5 : 1 + length (put_uint16 (count + 1)) ≤ length d4
  fit5 = omega (arith, size4, length-put_uint16 (count + 1))

  size5 : length d5 ≡ 4096
  size5 = length-write d4 1 (put_uint16 (count + 1)) fit5 ∙ size4

  -- Behind the slots the page differs by the new cell only.
  slice-d5 : (i n : ℕ) → slot (count + 1) ≤ i → slice d5 i n ≡ slice d1 i n
  slice-d5 i n above =
      slice-write_apart d4 1 (put_uint16 (count + 1)) fit5 n i
        (inr (omega (arith, length-put_uint16 (count + 1))))
      ∙ slice-write_apart d3 (slot idx) (put_uint16 new_offset) fit4 n i
          (inr (omega (arith, length-put_uint16 new_offset)))
      ∙ shifted.run i n (inr (omega arith))
      ∙ slice-write_apart d1 3 (put_uint16 new_offset) fit2 n i
          (inr (omega (arith, length-put_uint16 new_offset)))

  read-d5-d4 : (i : ℕ) → 3 ≤ i → read16 d5 i ≡ read16 d4 i
  read-d5-d4 i above =
      read16-write_apart d4 1 (put_uint16 (count + 1)) fit5 i
        (inr (omega (arith, length-put_uint16 (count + 1))))

  read-d4-d3 : (i : ℕ) → (i + 2 ≤ slot idx) ⊎ (slot idx + 2 ≤ i) → read16 d4 i ≡ read16 d3 i
  read-d4-d3 i apart =
      read16-write_apart d3 (slot idx) (put_uint16 new_offset) fit4 i
        (omega (arith, length-put_uint16 new_offset))

  read-d2 : (i : ℕ) → 5 ≤ i → i + 2 ≤ new_offset → read16 d2 i ≡ read16 pg.bytes i
  read-d2 i above below =
      read16-write_apart d1 3 (put_uint16 new_offset) fit2 i
        (inr (omega (arith, length-put_uint16 new_offset)))
      ∙ read16-write_apart pg.bytes new_offset (encode_cell c) fit1 i (inl below)

  read-count : read16 d5 1 ≡ count + 1
  read-count = read16-write d4 1 (count + 1) (omega (arith, size4)) (omega (arith, shift_fits))

  read-offset : read16 d5 3 ≡ new_offset
  read-offset =
      read-d5-d4 3 (omega arith)
      ∙ read-d4-d3 3 (inl (omega arith))
      ∙ shifted.read 3 (inl (omega arith))
      ∙ read16-write d1 3 new_offset (omega (arith, size1))
          (omega (arith, offset_bounds, h.content))

  read-slot_lt : (j : ℕ) → j < idx → read16 d5 (slot j) ≡ read16 pg.bytes (slot j)
  read-slot_lt j below =
      read-d5-d4 (slot j) (omega arith)
      ∙ read-d4-d3 (slot j) (inl (omega arith))
      ∙ shifted.read (slot j) (inl (omega arith))
      ∙ read-d2 (slot j) (omega arith) (omega (arith, new_offset-room))

  read-slot_self : read16 d5 (slot idx) ≡ new_offset
  read-slot_self =
      read-d5-d4 (slot idx) (omega arith)
      ∙ read16-write d3 (slot idx) new_offset (omega (arith, size3, shift_fits))
          (omega (arith, offset_bounds, h.content))

  read-slot_gt : (j : ℕ) → idx ≤ j → j < count → read16 d5 (slot (suc j)) ≡ read16 pg.bytes (slot j)
  read-slot_gt j above below =
      let e : slot (suc j) ≡ slot (j + 1) = omega arith in
      rw e (
        read-d5-d4 (slot (j + 1)) (omega arith)
        ∙ read-d4-d3 (slot (j + 1)) (inr (omega arith))
        ∙ read16-shift_up (count - idx) idx j d2 shift_fits size2 above (omega arith)
        ∙ read-d2 (slot j) (omega arith) (omega (arith, new_offset-room)))

  -- A cell that was there stands as it stood, above the new one.
  keep_stored :
      (off : ℕ) (c' : Cell)
      → IsStored pg.bytes (cell_content_offset pg) off c'
      → IsStored d5 new_offset off c'
  keep_stored off c' s = record {
    encodable = s.encodable;
    above = omega (arith, s.above);
    inside = s.inside;
    run =
        slice-d5 off (length (encode_cell c'))
          (omega (arith, s.above, new_offset-room, offset_bounds))
        ∙ slice-write_apart pg.bytes new_offset (encode_cell c) fit1 (length (encode_cell c')) off
            (inr (omega (arith, s.above, offset_bounds)))
        ∙ s.run;
  }

  new_stored : IsStored d5 new_offset new_offset c
  new_stored = record {
    encodable = enc;
    above = omega arith;
    inside = omega (arith, offset_bounds, h.content);
    run =
        slice-d5 new_offset len new_offset-room
        ∙ slice-write_self pg.bytes new_offset (encode_cell c) fit1;
  }

  -- Where the cell at a place of the new list comes from.
  abbrev Origin : ℕ → Cell → Type 0
  Origin j c' =
      ((j ≡ idx) × (c' ≡ c) × (read16 d5 (slot j) ≡ new_offset))
      ⊎ ((k : ℕ) × (((k < idx) × (j ≡ k)) ⊎ ((idx ≤ k) × (j ≡ suc k)))
          × (get_elem? cells k ≡ some c')
          × (read16 d5 (slot j) ≡ read16 pg.bytes (slot k)))

  origin : (j : ℕ) (c' : Cell) → get_elem? (insert_nth idx c cells) j ≡ some c' → Origin j c'
  origin j c' found = elim (place j idx) [
    | inl lt ↦ inr (
      j,
      inl (lt, refl),
      sym (get_elem?-insert_nth_lt idx j c cells lt at) ∙ found,
      read-slot_lt j lt,
    )
    | inr (inl here) ↦
        inl
          (here, cc (get_elem?-insert_nth_self idx c cells at, found, here), rw here read-slot_self)
    | inr (inr (k, gt, e)) ↦
        let old : get_elem? cells k ≡ some c' =
          sym (get_elem?-insert_nth_gt idx k c cells gt) ∙ (rw e at found) in
        inr (k, inr (gt, e), old, rw e (read-slot_gt k gt (lt_of_get_elem? cells k old)))
  ]

  stored-d5 :
      (j : ℕ) (c' : Cell)
      → get_elem? (insert_nth idx c cells) j ≡ some c'
      → IsStored d5 new_offset (read16 d5 (slot j)) c'
  stored-d5 j c' found = elim (origin j c' found) [
    | inl (_, same, off) ↦ rw (off, same) new_stored
    | inr (k, _, old, off) ↦ rw off (keep_stored _ c' (h.stored k c' old))
  ]

  apart-d5 :
      (i j : ℕ) (c' c'' : Cell)
      → i ≢ j
      → get_elem? (insert_nth idx c cells) i ≡ some c'
      → get_elem? (insert_nth idx c cells) j ≡ some c''
      → AreApart
          (read16 d5 (slot i))
          (length (encode_cell c'))
          (read16 d5 (slot j))
          (length (encode_cell c''))
  apart-d5 i j c' c'' ne found found' = elim (origin i c' found) [
    | inl (ei, same, off) ↦ elim (origin j c'' found') [
      | inl (ej, _, _) ↦ absurd (omega arith)
      | inr (k, _, old, off') ↦
          rw (off, off', same) (inl (omega (arith, offset_bounds, (h.stored k c'' old).above)))
    ]
    | inr (k, from, old, off) ↦ elim (origin j c'' found') [
      | inl (_, same, off') ↦
          rw (off, off', same) (inr (omega (arith, offset_bounds, (h.stored k c' old).above)))
      | inr (k', from', old', off') ↦ rw (off, off') (h.apart k k' c' c'' (omega arith) old old')
    ]
  ]

  abbrev pub after : Page
  after = record pg { bytes = d5; dirty = true }

  content-after : cell_content_offset after ≡ new_offset
  unfolding cell_content_offset
  content-after = ground (arith, read-offset, new_offset-room)

  count-after : cell_count after ≡ length (insert_nth idx c cells)
  unfolding cell_count
  count-after = omega (arith, read-count, length-insert_nth idx c cells)

  pub after-Holds : Holds after (insert_nth idx c cells)
  after-Holds = record {
    size = size5;
    count = count-after;
    room = omega (arith, content-after, new_offset-room, length-insert_nth idx c cells);
    content = omega (arith, content-after, offset_bounds, h.content);
    stored = λ j c' found. rw content-after (stored-d5 j c' found);
    apart = apart-d5;
  }

  pub place_cell-placed :
      place_cell pg (encode_cell c) ≡ ok (record pg { bytes = d2; dirty = true }, new_offset)
  unfolding place_cell set_cell_content_offset
  place_cell-placed =
      let whole : length (encode_cell c) % 2 ^ 16 ≡ len = omega arith in
      let needed : (len + 2) % 2 ^ 16 ≡ len + 2 = omega arith in
      let offset : (cell_content_offset pg + 2 ^ 16 - len) % 2 ^ 16 ≡ new_offset =
        omega (arith, offset_bounds, h.content) in
      rw (
        whole,
        needed,
        offset,
        le→ltb (free_space pg) (len + 2) room,
        copy_into-fits pg new_offset (encode_cell c) (encode_cell-some c) fit1,
      )

  pub count-placed : cell_count (record pg { bytes = d2; dirty = true }) ≡ count
  unfolding cell_count
  count-placed =
      read16-write_apart d1 3 (put_uint16 new_offset) fit2 1 (inl (omega arith))
      ∙ read16-write_apart pg.bytes new_offset (encode_cell c) fit1 1
          (inl (omega (arith, new_offset-room)))
      ∙ h.count

  pub insert_at-after : insert_cell_into_page_at pg c idx ≡ ok after
  unfolding insert_cell_into_page_at insert_cell_pointer set_cell_pointer set_cell_count
  insert_at-after =
      let next : (count + 1) % 2 ^ 16 ≡ count + 1 = omega (arith, shift_fits) in
      rw (
        place_cell-placed,
        count-placed,
        h.count,
        next,
        slot_offset_lem count (omega (arith, shift_fits)),
        slot_offset_lem idx (omega (arith, shift_fits)),
        le→ltb (length d2) (slot count + 2) (omega (arith, size2, shift_fits)),
        le→ltb (length d3) (slot idx + 2) (omega (arith, size3, shift_fits)),
      )

  pub free_space-after : free_space after + (len + 2) ≡ free_space pg
  unfolding free_space
  free_space-after = ground (
    arith,
    content-after,
    count-after,
    length-insert_nth idx c cells,
    new_offset-room,
    offset_bounds,
    h.count,
    h.content,
  )
