-- ===== src/Storage/Page.antt =====
-- internal/storage/pager.go: `Page` and its header fields; internal/storage/btree.go: the cells of a
-- page. Go panics on a slice out of range, which is `err panic`; so is a read or a slot of the C code
-- behind the page. Where `cCopyBytes` writes behind the page the result is `err overrun`. The
-- conversions to uint16 are written out as `% 2 ^ 16`.
mod Slots
mod Copy
pub mod Layout
pub mod Insert
pub mod Overflow
pub mod Search
pub mod Remove
pub mod Rewrite
pub mod Clear
mod Tests
use sqlgo.Base.{
  ◌/◌, false, ℕ, zero, suc, ◌+◌, ◌-◌, ◌*◌, ◌%◌, ◌^◌, ◌&&◌, ◌||◌, Bool, true, Bytes, List, length,
  [], ◌∷◌, Result, ok, err, ◌>>=◌, ◌>>◌, fail_if, ltb, leb, ◌==◌, if◌then◌else◌,
}
use sqlgo.Base.Word.{put_uint16, put_uint32, uint32}
use sqlgo.Storage.Buffer.{byte_at, write, read16, slice}
use sqlgo.Storage.Header.{page_size, zeros}
use sqlgo.Storage.Cell.{
  Cell, CellError, encode_cell, decode_cell, Sign, negative, equal, positive, memcmp, or_length,
}

-- `pins` is an int32, as its bit pattern.
pub record Page : Type 0 where
  pub id : ℕ
  pub bytes : Bytes
  pub dirty : Bool
  pub pins : ℕ

pub data PageError : Type 0 where
  page_full rewrite_out_of_bounds panic overrun out_of_fuel : PageError
  bad_cell : CellError → PageError

abbrev pub type_leaf : ℕ
type_leaf = 0x0d

abbrev pub type_internal : ℕ
type_internal = 0x05

abbrev pub page_header_size : ℕ
page_header_size = 9

-- Every setter marks the page dirty.
abbrev pub store : Page → ℕ → Bytes → Page
store pg off bs = record pg { bytes = write pg.bytes off bs; dirty = true }

unfoldable pub page_type : Page → ℕ
page_type pg = byte_at pg.bytes 0

unfoldable pub set_type : Page → ℕ → Page
set_type pg t = store pg 0 (t ∷ [])

unfoldable pub cell_count : Page → ℕ
cell_count pg = read16 pg.bytes 1

unfoldable pub set_cell_count : Page → ℕ → Page
set_cell_count pg n = store pg 1 (put_uint16 n)

unfoldable pub cell_content_offset : Page → ℕ
cell_content_offset pg = let v = read16 pg.bytes 3 in if v == 0 then page_size else v

unfoldable pub set_cell_content_offset : Page → ℕ → Page
set_cell_content_offset pg off = store pg 3 (put_uint16 off)

unfoldable pub rightmost_pointer : Page → ℕ
rightmost_pointer pg =
    uint32 (byte_at pg.bytes 5) (byte_at pg.bytes 6) (byte_at pg.bytes 7) (byte_at pg.bytes 8)

unfoldable pub set_rightmost_pointer : Page → ℕ → Page
set_rightmost_pointer pg ptr = store pg 5 (put_uint32 ptr)

-- `sqlgo_page_free_space`, with the page's own cell count.
unfoldable pub free_space : Page → ℕ
free_space pg =
    let free_start = (page_header_size + cell_count pg * 2) % 2 ^ 16 in
    if leb (cell_content_offset pg) free_start then 0 else cell_content_offset pg - free_start

-- `PageHeaderSize() + idx*2`
unfoldable pub slot_offset : ℕ → ℕ
slot_offset idx = (page_header_size + idx * 2) % 2 ^ 16

unfoldable pub cell_pointer : Page → ℕ → Result PageError ℕ
cell_pointer pg idx = do
  fail_if (ltb (length pg.bytes) (slot_offset idx + 2)) panic
  ok (read16 pg.bytes (slot_offset idx))

unfoldable pub set_cell_pointer : Page → ℕ → ℕ → Result PageError Page
set_cell_pointer pg idx ptr = do
  fail_if (ltb (length pg.bytes) (slot_offset idx + 2)) panic
  ok (store pg (slot_offset idx) (put_uint16 ptr))

-- One round of `sqlgo_shift_cell_pointers`: the two bytes of slot `src` go to slot `dst`.
unfoldable pub copy_slot : ℕ → ℕ → Bytes → Bytes
copy_slot src dst d =
    write d (slot_offset dst) (byte_at d (slot_offset src) ∷ byte_at d (slot_offset src + 1) ∷ [])

-- direction > 0: for (i = from + n; i > from; i--) slot[i] = slot[i - 1]
unfoldable pub shift_up : ℕ → ℕ → Bytes → Bytes
shift_up zero from d = d
shift_up (suc n) from d = shift_up n from (copy_slot (from + n) (from + n + 1) d)

-- otherwise: for (i = from; i < from + n; i++) slot[i] = slot[i + 1]
unfoldable pub shift_down : ℕ → ℕ → Bytes → Bytes
shift_down zero from d = d
shift_down (suc n) from d = shift_down n (from + 1) (copy_slot (from + 1) from d)

unfoldable pub insert_cell_pointer : Page → ℕ → ℕ → Result PageError Page
insert_cell_pointer pg idx ptr =
    let count = cell_count pg in
    do
      fail_if (ltb (length pg.bytes) (slot_offset count + 2) && ltb idx count) panic
      let shifted = record pg { bytes = shift_up (count - idx) idx pg.bytes }
      set_cell_pointer shifted idx ptr

-- `cCopyBytes(pg.Data[off:], bs)`. Go panics on an offset behind the page; an empty source or an
-- empty rest of the page is left alone; and the C code copies all of `bs`, whatever room there is.
unfoldable pub copy_into : Page → ℕ → Bytes → Result PageError Page
copy_into pg off bs = do
  fail_if (ltb (length pg.bytes) off) panic
  if length bs == 0 || off == length pg.bytes then ok pg else (do
    fail_if (ltb (length pg.bytes) (off + length bs)) overrun
    ok (record pg { bytes = write pg.bytes off bs }))

-- The part that `insertCellIntoPage` and `insertCellIntoPageAt` share: room, bytes and offset.
unfoldable pub place_cell : Page → Bytes → Result PageError (Page × ℕ)
place_cell pg encoded =
    let needed = (length encoded % 2 ^ 16 + 2) % 2 ^ 16 in
    let new_offset = (cell_content_offset pg + 2 ^ 16 - length encoded % 2 ^ 16) % 2 ^ 16 in
    do
      fail_if (ltb (free_space pg) needed) page_full
      copied ← copy_into pg new_offset encoded
      ok (set_cell_content_offset copied new_offset, new_offset)

unfoldable pub insert_cell_into_page : Page → Cell → Result PageError Page
insert_cell_into_page pg c =
    let count = cell_count pg in
    do
      (placed, new_offset) ← place_cell pg (encode_cell c)
      pointed ← set_cell_pointer placed count new_offset
      ok (set_cell_count pointed ((count + 1) % 2 ^ 16))

unfoldable pub insert_cell_into_page_at : Page → Cell → ℕ → Result PageError Page
insert_cell_into_page_at pg c idx =
    let count = cell_count pg in
    do
      (placed, new_offset) ← place_cell pg (encode_cell c)
      pointed ← insert_cell_pointer placed idx new_offset
      ok (set_cell_count pointed ((count + 1) % 2 ^ 16))

unfoldable pub lift_cell : Result CellError Cell → Result PageError Cell
lift_cell (ok c) = ok c
lift_cell (err e) = err (bad_cell e)

-- `DecodeCell(pg.Data[:], pg.CellPointer(idx))`
unfoldable pub cell_at : Page → ℕ → Result PageError Cell
cell_at pg idx = do ptr ← cell_pointer pg idx; lift_cell (decode_cell pg.bytes ptr)

-- The loop of `collectCells`: `n` rounds are left, from slot `i` on.
unfoldable pub collect_from : Page → ℕ → ℕ → Result PageError (List Cell)
collect_from pg i zero = ok []
collect_from pg i (suc n) = do c ← cell_at pg i; cells ← collect_from pg (i + 1) n; ok (c ∷ cells)

unfoldable pub collect_cells : Page → Result PageError (List Cell)
collect_cells pg = collect_from pg 0 (cell_count pg)

unfoldable pub rewrite_cell : Page → ℕ → Cell → Result PageError Page
rewrite_cell pg idx c =
    let encoded = encode_cell c in
    do
      offset ← cell_pointer pg idx
      fail_if (ltb page_size (offset + length encoded)) rewrite_out_of_bounds
      copied ← copy_into pg offset encoded
      ok (record copied { dirty = true })

-- `idx` is a slot below the count.
unfoldable pub remove_cell_at : Page → ℕ → Page
remove_cell_at pg idx =
    let count = cell_count pg in
    set_cell_count (record pg { bytes = shift_down (count - 1 - idx) idx pg.bytes })
      ((count + 2 ^ 16 - 1) % 2 ^ 16)

-- `memset(data + 1, 0, size - 1)`, then the type and the rightmost pointer are put back.
unfoldable pub clear_page : Page → Page
clear_page pg =
    let cleared = record pg { bytes = write pg.bytes 1 (zeros (length pg.bytes - 1)) } in
    set_rightmost_pointer
      (set_cell_content_offset (set_cell_count (set_type cleared (page_type pg)) 0) page_size)
      (rightmost_pointer pg)

-- What one round of `sqlgo_page_binary_search` compares: the key against the key of the cell at a
-- slot. A read behind the page is `panic`. The key is shorter than 2 ^ 31 bytes, so that `C.int` leaves
-- its length as it is.
unfoldable pub compare_slot : Bytes → Bytes → ℕ → Result PageError Sign
compare_slot d key mid =
    let cell_off = read16 d (slot_offset mid) in
    let klen = read16 d (cell_off + 4) in
    let minlen = if ltb (length key) klen then length key else klen in
    do
      fail_if (ltb (length d) (slot_offset mid + 2)) panic
      fail_if (ltb (length d) (cell_off + 8 + minlen)) panic
      ok (or_length (memcmp minlen key (slice d (cell_off + 8) minlen)) (length key) klen)

-- The loop. `hi` is one above the source's `hi`, which starts at cell_count - 1 and may be -1.
unfoldable pub search_loop : ℕ → Bytes → Bytes → ℕ → ℕ → Result PageError (ℕ × Bool)
search_loop zero d key lo hi = err out_of_fuel
search_loop (suc fuel) d key lo hi =
    if leb hi lo
    then ok (lo, false)
    else let mid = (lo + hi - 1) / 2 in
      do
        s ← compare_slot d key mid
        elim s [
          | equal ↦ ok (mid, true)
          | negative ↦ search_loop fuel d key lo mid
          | positive ↦ search_loop fuel d key (mid + 1) hi
        ]

-- Each round shortens the range, so one round more than there are cells is enough.
unfoldable pub page_binary_search : Page → Bytes → Result PageError (ℕ × Bool)
page_binary_search pg key = search_loop (cell_count pg + 1) pg.bytes key 0 (cell_count pg)
