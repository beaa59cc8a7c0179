-- ===== src/Storage/Page/Layout.antt =====
-- Which pages hold which list of cells: the cell pointers in front, the cells behind the content
-- offset, and nothing of the one inside the other.
use sqlgo.Base.{
  ◌≢◌, ◌⊎◌, ℕ, suc, ◌+◌, ◌≤◌, ◌≡◌, refl, sym, ap, ◌∙◌, arith, Bytes, List, [], ◌∷◌, ◌++◌, length,
  drop, some, get_elem?, ok, lt_of_get_elem?, le→ltb, take-append-drop,
}
use sqlgo.Storage.Buffer.{slice, read16, take-drop-slice}
use sqlgo.Storage.Cell.{Cell, encode_cell, decode_cell}
use sqlgo.Storage.Cell.Codec.{IsEncodable, decode_cell_here-encode_cell}
use sqlgo.Storage.Page.{
  Page, cell_count, cell_content_offset, cell_pointer, cell_at, collect_from, collect_cells,
  lift_cell,
}
use sqlgo.Storage.Page.Slots.{slot, slot_offset_lem}

-- The cell stands whole at an offset between `low` and the end of the page.
pub record IsStored (d : Bytes) (low off : ℕ) (c : Cell) : Type 0 where
  pub encodable : IsEncodable c
  pub above : low ≤ off
  pub inside : off + length (encode_cell c) ≤ 4096
  pub run : slice d off (length (encode_cell c)) ≡ encode_cell c

-- Two runs of bytes with no byte in common.
abbrev pub AreApart : ℕ → ℕ → ℕ → ℕ → Type 0
AreApart off len off' len' = (off + len ≤ off') ⊎ (off' + len' ≤ off)

pub record Holds (pg : Page) (cells : List Cell) : Type 0 where
  pub size : length pg.bytes ≡ 4096
  pub count : cell_count pg ≡ length cells
  pub room : slot (length cells) ≤ cell_content_offset pg
  pub content : cell_content_offset pg ≤ 4096
  pub stored :
      (i : ℕ) (c : Cell)
      → get_elem? cells i ≡ some c
      → IsStored pg.bytes (cell_content_offset pg) (read16 pg.bytes (slot i)) c
  pub apart :
      (i j : ℕ) (c c' : Cell)
      → i ≢ j
      → get_elem? cells i ≡ some c
      → get_elem? cells j ≡ some c'
      → AreApart
          (read16 pg.bytes (slot i))
          (length (encode_cell c))
          (read16 pg.bytes (slot j))
          (length (encode_cell c'))

decode_cell_of_stored :
    (d : Bytes) (low off : ℕ) (c : Cell)
    → length d ≡ 4096
    → IsStored d low off c
    → decode_cell d off ≡ ok c
unfolding decode_cell
decode_cell_of_stored d low off c size s =
    let n = length (encode_cell c) in
    let cut : drop off d ≡ encode_cell c ++ drop n (drop off d) =
      sym (take-append-drop n (drop off d))
      ∙ ap (λ (bs : Bytes). bs ++ drop n (drop off d))
          (take-drop-slice n off d (rw size s.inside) ∙ s.run) in
    rw cut (decode_cell_here-encode_cell c (drop n (drop off d)) s.encodable)

module _ {pg : Page} {cells : List Cell} (h : Holds pg cells) where
  pub cell_pointer-Holds :
      (i : ℕ) (c : Cell)
      → get_elem? cells i ≡ some c
      → cell_pointer pg i ≡ ok (read16 pg.bytes (slot i))
  unfolding cell_pointer
  cell_pointer-Holds i c at =
      let below = lt_of_get_elem? cells i at in
      let e = slot_offset_lem i (omega arith) in
      rw (e, le→ltb (length pg.bytes) (slot i + 2) (omega arith))

  -- `DecodeCell` at a slot's pointer gives the cell of that place.
  pub cell_at-Holds : (i : ℕ) (c : Cell) → get_elem? cells i ≡ some c → cell_at pg i ≡ ok c
  unfolding cell_at lift_cell
  cell_at-Holds i c at = rw (
    cell_pointer-Holds i c at,
    decode_cell_of_stored pg.bytes _ (read16 pg.bytes (slot i)) c h.size (h.stored i c at),
  )

collect_from_lem :
    (pg : Page) (i : ℕ) (cells : List Cell)
    → ((k : ℕ) (c : Cell) → get_elem? cells k ≡ some c → cell_at pg (i + k) ≡ ok c)
    → collect_from pg i (length cells) ≡ ok cells
unfolding collect_from
collect_from_lem pg i [] at = refl
collect_from_lem pg i (c ∷ cells) at =
    let e : i + 0 ≡ i = omega arith in
    let first : cell_at pg i ≡ ok c = rw e at (at 0 c refl) in
    rw (
      first,
      collect_from_lem pg (i + 1) cells
          λ k c' found. let e' : i + 1 + k ≡ i + suc k = omega arith in rw e' (at (suc k) c' found),
    )

-- `collectCells` returns the cells that the page holds, in the order of their slots, and never
-- fails on such a page.
pub collect_cells-Holds :
    (pg : Page) (cells : List Cell) → Holds pg cells → collect_cells pg ≡ ok cells
unfolding collect_cells
collect_cells-Holds pg cells h = rw h.count (
    collect_from_lem pg 0 cells
      λ k c found. let e : 0 + k ≡ k = omega arith in rw e (cell_at-Holds h k c found))
