-- ===== src/Storage/Page/Rewrite.antt =====
-- `rewriteCell`: a cell is overwritten where it stands, whatever room there is behind it.
use sqlgo.Base.{
  ℕ, ◌+◌, ◌≤◌, ◌<◌, ◌≡◌, ◌≢◌, ◌⊎◌, inl, inr, sym, ap, ◌∙◌, arith, Bytes, List, length, some,
  get_elem?, true, ok, set, length-set, get_elem?-set_self, get_elem?-set_ne, lt_of_get_elem?,
  le→ltb,
}
use native.Mathlib.Decide.{ℕ_discrete}
use sqlgo.Storage.Buffer.{
  write, read16, byte_at, byte_at-slice, byte_at-write_in, length-write, read16-write_apart,
  slice-write_apart, slice-write_self,
}
use sqlgo.Storage.Cell.{Cell, encode_cell}
use sqlgo.Storage.Cell.Codec.{IsEncodable, length-encode_cell}
use sqlgo.Storage.Page.{Page, cell_count, cell_content_offset, rewrite_cell}
use sqlgo.Storage.Page.Copy.{copy_into-fits, encode_cell-some}
use sqlgo.Storage.Page.Slots.{slot}
use sqlgo.Storage.Page.Layout.{Holds, IsStored, AreApart, cell_pointer-Holds}

module _ (pg : Page) (cells : List Cell) (idx : ℕ) (old c : Cell) (h : Holds pg cells)
    (at : get_elem? cells idx ≡ some old) where
  abbrev off : ℕ
  off = read16 pg.bytes (slot idx)

  abbrev d1 : Bytes
  d1 = write pg.bytes off (encode_cell c)

  abbrev after : Page
  after = record pg { bytes = d1; dirty = true }

  rewrite-after : off + length (encode_cell c) ≤ 4096 → rewrite_cell pg idx c ≡ ok after
  unfolding rewrite_cell
  rewrite-after fits = rw (
    cell_pointer-Holds h idx old at,
    le→ltb 4096 (off + length (encode_cell c)) fits,
    copy_into-fits pg off (encode_cell c) (encode_cell-some c) (omega (arith, h.size)),
  )

  module _ (enc : IsEncodable c) (shorter : length (encode_cell c) ≤ length (encode_cell old)) where
    s : IsStored pg.bytes (cell_content_offset pg) off old
    s = h.stored idx old at

    fit1 : off + length (encode_cell c) ≤ length pg.bytes
    fit1 = omega (arith, s.inside, h.size)

    low-off : slot (length cells) ≤ off
    low-off = omega (arith, s.above, h.room)

    read-d1 : (i : ℕ) → i + 2 ≤ off → read16 d1 i ≡ read16 pg.bytes i
    read-d1 i below = read16-write_apart pg.bytes off (encode_cell c) fit1 i (inl below)

    content-after : cell_content_offset after ≡ cell_content_offset pg
    unfolding cell_content_offset
    content-after =
        let same : read16 d1 3 ≡ read16 pg.bytes 3 = read-d1 3 (omega (arith, low-off)) in rw same

    count-after : cell_count after ≡ cell_count pg
    unfolding cell_count
    count-after = read-d1 1 (omega (arith, low-off))

    -- The cell at a place is the new one, or it is an old one at another place.
    abbrev Origin : ℕ → Cell → Type 0
    Origin j c' = ((j ≡ idx) × (c' ≡ c)) ⊎ ((idx ≢ j) × (get_elem? cells j ≡ some c'))

    origin : (j : ℕ) (c' : Cell) → get_elem? (set cells idx c) j ≡ some c' → Origin j c'
    origin j c' found = elim (ℕ_discrete idx j) [
      | yes e ↦
          inl (sym e, cc (get_elem?-set_self cells idx c (lt_of_get_elem? cells idx at), e, found))
      | no ne ↦ inr (ne, sym (get_elem?-set_ne cells idx j c ne) ∙ found)
    ]

    read-slot :
        (j : ℕ) (c' : Cell)
        → get_elem? (set cells idx c) j ≡ some c'
        → read16 d1 (slot j) ≡ read16 pg.bytes (slot j)
    read-slot j c' found =
        let below = lt_of_get_elem? (set cells idx c) j found in
        read-d1 (slot j) (omega (arith, low-off, length-set cells idx c))

    stored-d1 :
        (j : ℕ) (c' : Cell)
        → get_elem? (set cells idx c) j ≡ some c'
        → IsStored d1 (cell_content_offset pg) (read16 pg.bytes (slot j)) c'
    stored-d1 j c' found = elim (origin j c' found) [
      | inl (here, same) ↦
          rw (here, same)
            (record {
              encodable = enc;
              above = s.above;
              inside = omega (arith, s.inside);
              run = slice-write_self pg.bytes off (encode_cell c) fit1;
            })
      | inr (ne, kept) ↦
          let t = h.stored j c' kept in
          record {
            encodable = t.encodable;
            above = t.above;
            inside = t.inside;
            run =
                slice-write_apart pg.bytes off (encode_cell c) fit1 (length (encode_cell c'))
                  (read16 pg.bytes (slot j)) (omega (arith, h.apart idx j old c' ne at kept))
                ∙ t.run;
          }
    ]

    apart-d1 :
        (i j : ℕ) (c' c'' : Cell)
        → i ≢ j
        → get_elem? (set cells idx c) i ≡ some c'
        → get_elem? (set cells idx c) j ≡ some c''
        → AreApart
            (read16 pg.bytes (slot i))
            (length (encode_cell c'))
            (read16 pg.bytes (slot j))
            (length (encode_cell c''))
    apart-d1 i j c' c'' ne found found' = elim (origin i c' found) [
      | inl (hi, same) ↦ elim (origin j c'' found') [
        | inl (hj, _) ↦ absurd (omega arith)
        | inr (nj, kept) ↦ rw (hi, same) (omega (arith, h.apart idx j old c'' nj at kept))
      ]
      | inr (ni, kept) ↦ elim (origin j c'' found') [
        | inl (hj, same) ↦ rw (hj, same) (omega (arith, h.apart idx i old c' ni at kept))
        | inr (_, kept') ↦ h.apart i j c' c'' ne kept kept'
      ]
    ]

    after-Holds : Holds after (set cells idx c)
    after-Holds = record {
      size = length-write pg.bytes off (encode_cell c) fit1 ∙ h.size;
      count = omega (arith, count-after, h.count, length-set cells idx c);
      room = omega (arith, content-after, h.room, length-set cells idx c);
      content = omega (arith, content-after, h.content);
      stored = λ j c' found. rw (content-after, read-slot j c' found) (stored-d1 j c' found);
      apart = λ i j c' c'' ne found found'.
          rw (read-slot i c' found, read-slot j c'' found') (apart-d1 i j c' c'' ne found found');
    }

-- A cell that is rewritten with one whose encoding is no longer: the page then holds the cells
-- with the new one in the old one's place.
pub rewrite_cell-Holds :
    (pg : Page) (cells : List Cell) (idx : ℕ) (old c : Cell)
    → Holds pg cells
    → get_elem? cells idx ≡ some old
    → IsEncodable c
    → length (encode_cell c) ≤ length (encode_cell old)
    → (pg' : Page) × (rewrite_cell pg idx c ≡ ok pg') × Holds pg' (set cells idx c)
rewrite_cell-Holds pg cells idx old c h at enc shorter = (
  after pg cells idx old c h at,
  rewrite-after pg cells idx old c h at (omega (arith, (h.stored idx old at).inside)),
  after-Holds pg cells idx old c h at enc shorter,
)

-- A cell that is rewritten with a longer one that ends on the page, while another cell stands right
-- behind it: the call succeeds, and the page no longer holds the other cell, unless the byte that runs over happens to
-- be the one that stood there.
pub rewrite_cell_overruns :
    (pg : Page) (cells : List Cell) (idx next : ℕ) (old c behind : Cell)
    → Holds pg cells
    → get_elem? cells idx ≡ some old
    → get_elem? cells next ≡ some behind
    → read16 pg.bytes (slot next) ≡ read16 pg.bytes (slot idx) + length (encode_cell old)
    → length (encode_cell old) < length (encode_cell c)
    → read16 pg.bytes (slot idx) + length (encode_cell c) ≤ 4096
    → byte_at (encode_cell c) (length (encode_cell old)) ≢ byte_at (encode_cell behind) 0
    → (pg' : Page) × (rewrite_cell pg idx c ≡ ok pg')
      × (¬ ((low : ℕ) × IsStored pg'.bytes low (read16 pg.bytes (slot next)) behind))
rewrite_cell_overruns pg cells idx next old c behind h at at' adjacent longer fits differs = (
  after pg cells idx old c h at,
  rewrite-after pg cells idx old c h at fits,
  λ (low, s).
      let off = read16 pg.bytes (slot idx) in
      let n = length (encode_cell old) in
      let d1 = write pg.bytes off (encode_cell c) in
      let size = length-encode_cell behind (h.stored next behind at').encodable in
      let e : read16 pg.bytes (slot next) + 0 ≡ off + n = omega arith in
      let now : byte_at d1 (off + n) ≡ byte_at (encode_cell c) n =
        byte_at-write_in pg.bytes off (encode_cell c) n (omega (arith, h.size)) longer in
      let then_ : byte_at d1 (read16 pg.bytes (slot next) + 0) ≡ byte_at (encode_cell behind) 0 =
        sym (
          byte_at-slice d1 (read16 pg.bytes (slot next)) (length (encode_cell behind)) 0
            (omega (arith, size)))
        ∙ ap (λ (bs : Bytes). byte_at bs 0) s.run in
      differs (sym now ∙ rw e at then_),
)
