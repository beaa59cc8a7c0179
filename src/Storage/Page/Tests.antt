-- ===== src/Storage/Page/Tests.antt =====
-- The theorems at concrete inputs.
use sqlgo.Base.{
  ℕ, suc, zero, Bool, ok, err, ap, remove_nth, ◌<◌, ◌∙◌, ◌≡◌, ◌≢◌, arith, refl, Bytes, List, [],
  ◌∷◌, ◌++◌, sym, length, get_elem?, some, false, ◌⊎◌, inl, inr,
}
use sqlgo.Storage.Header.{zeros}
use sqlgo.Storage.Cell.{Cell, encode_cell, key_cmp, memcmp, or_length, negative}
use sqlgo.Storage.Page.{
  Page, cell_count, cell_content_offset, free_space, insert_cell_into_page_at,
  insert_cell_into_page, page_binary_search, remove_cell_at, rewrite_cell, panic, overrun,
  cell_pointer,
}
use sqlgo.Base.Word.{uint16, put_uint16, put_uint32}
use sqlgo.Storage.Buffer.{read16, byte_at, slice}
use sqlgo.Storage.Page.Slots.{slot}
use sqlgo.Storage.Page.Layout.{Holds, IsStored, AreApart}
use sqlgo.Storage.Cell.Codec.{IsEncodable, length-encode_cell}
use sqlgo.Storage.Page.Insert.{
  Inserted, insert_cell_into_page_at-Inserted, insert_cell_into_page-Inserted,
}
use sqlgo.Storage.Page.Overflow.{target, insert_cell_into_page_overflow}
use sqlgo.Storage.Page.Search.{IsSorted, Located, page_binary_search-Located}
use sqlgo.Storage.Page.Remove.{remove_cell_at-Holds}
use sqlgo.Storage.Page.Rewrite.{rewrite_cell_overruns}

abbrev cell_1 : Cell
cell_1 = record { key = 1 ∷ []; value = 10 ∷ []; left_ptr = 0 }

abbrev cell_2 : Cell
cell_2 = record { key = 2 ∷ []; value = 20 ∷ []; left_ptr = 0 }

abbrev page_bytes : Bytes
page_bytes =
    13 ∷ 0 ∷ 2 ∷ 15 ∷ 236 ∷ 0 ∷ 0 ∷ 0 ∷ 0 ∷ 15 ∷ 246 ∷ 15 ∷ 236 ∷ []
    ++ zeros 4063
    ++ encode_cell cell_2
    ++ encode_cell cell_1

abbrev page : Page
page = record { id = 3; bytes = page_bytes; dirty = false; pins = 0 }

cells : List Cell
cells = cell_1 ∷ cell_2 ∷ []

cell_1-IsEncodable : IsEncodable cell_1
cell_1-IsEncodable = record {
  key_fits = omega arith;
  value_fits = omega arith;
  pointer_fits = omega arith;
}

cell_2-IsEncodable : IsEncodable cell_2
cell_2-IsEncodable = record {
  key_fits = omega arith;
  value_fits = omega arith;
  pointer_fits = omega arith;
}

stored_1 : IsStored page_bytes 4076 4086 cell_1
unfolding encode_cell byte_at slice put_uint16 put_uint32
stored_1 = record {
  encodable = cell_1-IsEncodable;
  above = omega arith;
  inside = omega arith;
  run = refl;
}

stored_2 : IsStored page_bytes 4076 4076 cell_2
unfolding encode_cell byte_at slice put_uint16 put_uint32
stored_2 = record {
  encodable = cell_2-IsEncodable;
  above = omega arith;
  inside = omega arith;
  run = refl;
}

slot_1 : read16 page_bytes (slot 0) ≡ 4086
unfolding byte_at uint16
slot_1 = refl

slot_2 : read16 page_bytes (slot 1) ≡ 4076
unfolding byte_at uint16
slot_2 = refl

content_ok : cell_content_offset page ≡ 4076
unfolding byte_at uint16 cell_content_offset
content_ok = refl

count_ok : cell_count page ≡ 2
unfolding byte_at uint16 cell_count
count_ok = refl

size_ok : length page_bytes ≡ 4096
unfolding encode_cell put_uint16 put_uint32
size_ok = refl

stored :
    (i : ℕ) (c : Cell)
    → get_elem? cells i ≡ some c
    → IsStored page_bytes 4076 (read16 page_bytes (slot i)) c
unfolding cells
stored zero c e = let e' : cell_1 ≡ c = cc in rw (slot_1, sym e') stored_1
stored (suc zero) c e = let e' : cell_2 ≡ c = cc in rw (slot_2, sym e') stored_2
stored (suc (suc i)) c e = cc

apart :
    (i j : ℕ) (c c' : Cell)
    → i ≢ j
    → get_elem? cells i ≡ some c
    → get_elem? cells j ≡ some c'
    → AreApart
        (read16 page_bytes (slot i))
        (length (encode_cell c))
        (read16 page_bytes (slot j))
        (length (encode_cell c'))
unfolding cells encode_cell put_uint16 put_uint32
apart zero zero c c' ne e e' = absurd (ne refl)
apart zero (suc zero) c c' ne e e' =
    let f : cell_1 ≡ c = cc in
    let f' : cell_2 ≡ c' = cc in rw (slot_1, slot_2, sym f, sym f') (inr (omega arith))
apart (suc zero) zero c c' ne e e' =
    let f : cell_2 ≡ c = cc in
    let f' : cell_1 ≡ c' = cc in rw (slot_1, slot_2, sym f, sym f') (inl (omega arith))
apart (suc zero) (suc zero) c c' ne e e' = absurd (ne refl)
apart (suc (suc i)) j c c' ne e e' = cc
apart i (suc (suc j)) c c' ne e e' = cc

page-Holds : Holds page cells
unfolding cells
page-Holds = record {
  size = size_ok;
  count = count_ok;
  room = rw content_ok (omega arith);
  content = rw content_ok (omega arith);
  stored = rw content_ok stored;
  apart = apart;
}

in_order :
    (i j : ℕ) (c c' : Cell)
    → i < j
    → get_elem? cells i ≡ some c
    → get_elem? cells j ≡ some c'
    → key_cmp c.key c'.key ≡ negative
unfolding cells key_cmp memcmp or_length
in_order i zero c c' lt e e' = absurd (omega arith)
in_order zero (suc zero) c c' lt e e' =
    let f : cell_1 ≡ c = cc in let f' : cell_2 ≡ c' = cc in rw (sym f, sym f') refl
in_order (suc i) (suc zero) c c' lt e e' = absurd (omega arith)
in_order i (suc (suc j)) c c' lt e e' = cc

cells-IsSorted : IsSorted cells
cells-IsSorted = record { ascending = in_order }

key_2 : Bytes
key_2 = 2 ∷ []

abbrev cell_3 : Cell
cell_3 = record { key = 3 ∷ []; value = []; left_ptr = 0 }

cell_3-IsEncodable : IsEncodable cell_3
cell_3-IsEncodable = record {
  key_fits = omega arith;
  value_fits = omega arith;
  pointer_fits = omega arith;
}

-- One byte longer than the second cell.
abbrev longer : Cell
longer = record { key = 2 ∷ []; value = 20 ∷ 21 ∷ []; left_ptr = 0 }

length_1 : length (encode_cell cell_1) ≡ 10
unfolding encode_cell put_uint16 put_uint32
length_1 = refl

length_2 : length (encode_cell cell_2) ≡ 10
unfolding encode_cell put_uint16 put_uint32
length_2 = refl

longer_size : length (encode_cell longer) ≡ 11
unfolding encode_cell put_uint16 put_uint32
longer_size = refl

length_3 : length (encode_cell cell_3) ≡ 9
unfolding encode_cell put_uint16 put_uint32
length_3 = refl

unfoldable filler : ℕ → Bytes
filler zero = []
filler (suc n) = 7 ∷ filler n

length-filler : (n : ℕ) → length (filler n) ≡ n
unfolding filler
length-filler zero = refl
length-filler (suc n) = ap suc (length-filler n)

-- Its encoding has 65536 bytes, which is 0 as a uint16.
abbrev huge : Cell
huge = record { key = 1 ∷ []; value = filler 65527; left_ptr = 0 }

huge_size : length (encode_cell huge) ≡ 65536
huge_size =
    length-encode_cell huge (record {
      key_fits = omega arith;
      value_fits = omega (arith, length-filler 65527);
      pointer_fits = omega arith;
    })
    ∙ omega (arith, length-filler 65527)

free_space_ok : free_space page ≡ 4063
unfolding byte_at uint16 cell_content_offset cell_count free_space
free_space_ok = refl

differs :
    byte_at (encode_cell longer) (length (encode_cell cell_2)) ≢ byte_at (encode_cell cell_1) 0
unfolding encode_cell put_uint16 put_uint32 byte_at
differs e = omega (arith, e)

insert_cell_into_page_at-Inserted_example :
    Inserted page cells cell_3 1 (insert_cell_into_page_at page cell_3 1)
insert_cell_into_page_at-Inserted_example =
    insert_cell_into_page_at-Inserted page cells cell_3 1 page-Holds cell_3-IsEncodable
      (unfold cells in omega arith) (omega (arith, length_3))

insert_cell_into_page-Inserted_example :
    Inserted page cells cell_3 (length cells) (insert_cell_into_page page cell_3)
insert_cell_into_page-Inserted_example =
    insert_cell_into_page-Inserted page cells cell_3 page-Holds cell_3-IsEncodable
      (omega (arith, length_3))

insert_cell_into_page_overflow_example :
    ((target page huge < 4096) × (insert_cell_into_page page huge ≡ err overrun))
    ⊎ ((4096 < target page huge) × (insert_cell_into_page page huge ≡ err panic))
    ⊎ ((target page huge ≡ 4096)
        × ((pg' : Page) × (insert_cell_into_page page huge ≡ ok pg')
            × (cell_pointer pg' (length cells) ≡ ok 4096)))
insert_cell_into_page_overflow_example =
    insert_cell_into_page_overflow page cells huge page-Holds (omega (arith, huge_size))
      (omega (arith, huge_size, free_space_ok))

page_binary_search-Located_example :
    (r : ℕ × Bool) × (page_binary_search page key_2 ≡ ok r) × Located key_2 cells r
page_binary_search-Located_example =
    page_binary_search-Located page cells key_2 page-Holds cells-IsSorted

remove_cell_at-Holds_example :
    Holds (remove_cell_at page 0) (remove_nth 0 cells)
    × (cell_content_offset (remove_cell_at page 0) ≡ cell_content_offset page)
remove_cell_at-Holds_example =
    remove_cell_at-Holds page cells 0 page-Holds (unfold cells in omega arith)

rewrite_cell_overruns_example :
    (pg' : Page) × (rewrite_cell page 1 longer ≡ ok pg')
    × (¬ ((low : ℕ) × IsStored pg'.bytes low (read16 page.bytes (slot 0)) cell_1))
rewrite_cell_overruns_example =
    rewrite_cell_overruns page cells 1 0 cell_2 longer cell_1 page-Holds (unfold cells in refl)
      (unfold cells in refl) (omega (arith, slot_1, slot_2, length_2))
      (omega (arith, length_2, longer_size)) (omega (arith, slot_2, longer_size)) differs
