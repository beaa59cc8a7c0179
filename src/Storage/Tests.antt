-- ===== src/Storage/Tests.antt =====
-- The theorems on rows, cells, headers and the cache at concrete inputs.
use sqlgo.Base.{
  ℕ, ◌%◌, ◌^◌, ◌+◌, ◌≤◌, ◌≡◌, ◌↔◌, ◌⊎◌, refl, arith, Bytes, List, [], ◌∷◌, ◌++◌, length, take, All,
  some, ok, err, true, false,
}
use sqlgo.Base.Word.{put_uint16, put_uint32, encode_uint64_be}
use sqlgo.Storage.Value.{null, integer, text, IsStorable}
use sqlgo.Storage.Row.{
  Row, DecodeError, encode_row, decode_row, encode_parts, encode_part, encode_value,
}
use sqlgo.Storage.Row.RoundTrip.{decode-encode_row}
use sqlgo.Storage.Row.Truncation.{decode_row_truncated}
use sqlgo.Storage.Cell.{Cell, encode_cell, decode_cell, key_cmp, equal, negative}
use sqlgo.Storage.Cell.Codec.{decode-encode_cell}
use sqlgo.Storage.Cell.KeyOrder.{key_cmp_order, opposite}
use sqlgo.Storage.Header.{DbHeader}
use sqlgo.Storage.Page.{Page}
use sqlgo.Storage.Lru.{Lru, find, put, split_back, pinned}
use sqlgo.Storage.Lru.Eviction.{Put, put-Put, put_bound}

abbrev row : Row
row = integer 7 ∷ null ∷ text (104 ∷ 105 ∷ []) ∷ []

storable : All IsStorable row
storable = (omega arith, (tt, (omega arith, tt)))

decode-encode_row_example :
    decode_row (encode_row row ++ 9 ∷ []) ≡ ok (take (length row % 2 ^ 16) row)
decode-encode_row_example = decode-encode_row row (9 ∷ []) storable

abbrev front : Bytes
front = 0 ∷ 3 ∷ 1 ∷ 0 ∷ 0 ∷ 0 ∷ 8 ∷ 0 ∷ 0 ∷ []

abbrev back : Bytes
back = 0 ∷ 0 ∷ 0 ∷ 0 ∷ 7 ∷ 0 ∷ 0 ∷ 0 ∷ 0 ∷ 0 ∷ 3 ∷ 0 ∷ 0 ∷ 0 ∷ 2 ∷ 104 ∷ 105 ∷ []

cut : encode_row row ≡ front ++ 0 ∷ back
unfolding encode_row encode_parts encode_part encode_value put_uint16 put_uint32 encode_uint64_be
cut = refl

decode_row_truncated_example : (e : DecodeError) × (decode_row front ≡ err e)
decode_row_truncated_example = decode_row_truncated row front 0 back storable (omega arith) cut

abbrev cell : Cell
cell = record { key = 1 ∷ 2 ∷ []; value = 3 ∷ []; left_ptr = 70000 }

abbrev before : Bytes
before = 9 ∷ 9 ∷ []

decode-encode_cell_example :
    decode_cell (before ++ (encode_cell cell ++ 8 ∷ [])) (length before) ≡ ok cell
decode-encode_cell_example =
    decode-encode_cell before (8 ∷ []) cell
      (record { key_fits = omega arith; value_fits = omega arith; pointer_fits = omega arith })

abbrev key_1 : Bytes
key_1 = 1 ∷ []

abbrev key_12 : Bytes
key_12 = 1 ∷ 2 ∷ []

abbrev key_2 : Bytes
key_2 = 2 ∷ []

key_cmp_order_example :
    ((key_cmp key_1 key_12 ≡ equal) ↔ (key_1 ≡ key_12))
    × (key_cmp key_12 key_1 ≡ opposite (key_cmp key_1 key_12))
    × (key_cmp key_1 key_12 ≡ negative
        → key_cmp key_12 key_2 ≡ negative
        → key_cmp key_1 key_2 ≡ negative)
key_cmp_order_example = key_cmp_order key_1 key_12 key_2

-- What `initDB` writes.
abbrev header : DbHeader
header = record {
  magic = 83 ∷ 81 ∷ 76 ∷ 71 ∷ 79 ∷ 0 ∷ 0 ∷ 0 ∷ [];
  version = 3;
  page_bytes = 4096;
  page_count = 2;
  free_list = 0xffff_ffff;
  root_page = 0xffff_ffff;
  schema_page = 1;
}

abbrev page_7 : Page
page_7 = record { id = 7; bytes = 1 ∷ []; dirty = true; pins = 0 }

abbrev page_8 : Page
page_8 = record { id = 8; bytes = 2 ∷ []; dirty = false; pins = 0 }

abbrev page_9 : Page
page_9 = record { id = 9; bytes = 3 ∷ []; dirty = false; pins = 0 }

-- A full cache.
abbrev cache : Lru
cache = record { cap = 2; order = (8, page_8) ∷ (7, page_7) ∷ []; hits = 0; misses = 0 }

put-Put_example : Put cache 9 page_9 (put cache 9 page_9)
put-Put_example = put-Put cache 9 page_9 (unfold find in (refl, (refl, tt)))

put_bound_example :
    (length (put cache 9 page_9).0.order ≤ cache.cap)
    ⊎ ((front : List (ℕ × Page)) × (j : ℕ) × (v : Page) × (split_back cache.order
          ≡ some (front, (j, v)))
        × (pinned v ≡ true)
        × (length (put cache 9 page_9).0.order ≡ cache.cap + 1))
put_bound_example = put_bound cache 9 page_9 (omega arith) (omega arith)
