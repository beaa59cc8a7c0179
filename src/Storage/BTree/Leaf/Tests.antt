-- ===== src/Storage/BTree/Leaf/Tests.antt =====
-- The theorems on leaves at the page 4 of the sample tree.
use sqlgo.Base.{
  ok, set, ◌≤◌, ℕ, ◌≤◌, length, ◌≡◌, ◌≢◌, refl, sym, arith, false, Bytes, [], ◌∷◌, get_elem?, some,
  none,
}
use sqlgo.Base.Word.{put_uint16, put_uint32}
use sqlgo.Storage.Header.{zeros}
use sqlgo.Storage.Cell.{Cell, encode_cell}
use sqlgo.Storage.Page.{Page}
use sqlgo.Storage.Lru.{find}
use sqlgo.Storage.Pager.Coherence.{view}
use sqlgo.Storage.BTree.Leaf.{new_cell, insert_sorted, split_leaf}
use sqlgo.Storage.BTree.Leaf.Fill.{IsSmall}
use sqlgo.Storage.BTree.Leaf.{insert_leaf}
use sqlgo.Storage.BTree.Leaf.Insert.{Grows, insert_leaf-Grows, insert_leaf-set}
use sqlgo.Storage.BTree.Leaf.Split.{Halved, split_leaf-Halved}
use sqlgo.Storage.Page.Search.{IsSorted}
use sqlgo.Storage.Cell.Codec.{IsEncodable}
use sqlgo.Storage.Page.Layout.{Holds}
use sqlgo.Storage.BTree.Sample.{
  invalid, pager, one_cell, one_page, only_first, one_page-Holds, one_page-IsShown,
}

abbrev key_2 : Bytes
key_2 = 2 ∷ []

shown_4 : view pager 4 ≡ some (one_page 4 13 invalid 2 20 invalid).bytes
unfolding view find
shown_4 = refl

-- Page 4 is split for the key 3.
key_3 : Bytes
key_3 = 3 ∷ []

empty_page : Page
empty_page = record { id = 5; bytes = zeros 4096; dirty = false; pins = 0 }

empty_size : length empty_page.bytes ≡ 4096
unfolding empty_page
empty_size = refl

new_key : (i : ℕ) (c : Cell) → get_elem? (one_cell 2 20 invalid ∷ []) i ≡ some c → c.key ≢ key_3
unfolding key_3
new_key i c at same =
    let (_, e) = only_first 4 13 invalid 2 20 invalid (omega arith) i c at in
    cc (rw (sym e) at same)

new_size : length (encode_cell (new_cell key_3 (30 ∷ []))) ≡ 10
unfolding encode_cell key_3 put_uint16 put_uint32
new_size = refl

key_3_size : length key_3 ≡ 1
unfolding key_3
key_3_size = refl

new-IsSmall : IsSmall (new_cell key_3 (30 ∷ []))
new-IsSmall = (
  record {
    key_fits = omega (arith, key_3_size);
    value_fits = omega arith;
    pointer_fits = omega arith;
  },
  omega (arith, new_size),
)

split_leaf-Halved_example :
    IsSorted (insert_sorted (one_cell 2 20 invalid ∷ []) (new_cell key_3 (30 ∷ [])))
    × Halved
        (insert_sorted (one_cell 2 20 invalid ∷ []) (new_cell key_3 (30 ∷ [])))
        (split_leaf (one_page 4 13 invalid 2 20 invalid) empty_page key_3 (30 ∷ []))
split_leaf-Halved_example =
    split_leaf-Halved (one_page 4 13 invalid 2 20 invalid) empty_page (one_cell 2 20 invalid ∷ [])
      key_3 (30 ∷ []) (one_page-Holds 4 13 invalid 2 20 invalid (omega arith))
      (one_page-IsShown 4 13 invalid 2 20 invalid (omega arith) pager refl shown_4).sorted new_key
      empty_size new-IsSmall

insert_leaf-Grows_example :
    Grows
      (one_page 4 13 invalid 2 20 invalid)
      empty_page
      (one_cell 2 20 invalid ∷ [])
      key_3
      (30 ∷ [])
      (insert_leaf (one_page 4 13 invalid 2 20 invalid) empty_page key_3 (30 ∷ []))
insert_leaf-Grows_example =
    insert_leaf-Grows (one_page 4 13 invalid 2 20 invalid) empty_page (one_cell 2 20 invalid ∷ [])
      key_3 (30 ∷ []) (one_page-Holds 4 13 invalid 2 20 invalid (omega arith))
      (one_page-IsShown 4 13 invalid 2 20 invalid (omega arith) pager refl shown_4).sorted new_key
      empty_size new-IsSmall

update-IsEncodable : IsEncodable (new_cell key_2 (21 ∷ []))
update-IsEncodable = record {
  key_fits = omega arith;
  value_fits = omega arith;
  pointer_fits = omega arith;
}

no_longer :
    length (encode_cell (new_cell key_2 (21 ∷ []))) ≤ length (encode_cell (one_cell 2 20 invalid))
unfolding encode_cell put_uint16 put_uint32
no_longer = omega arith

insert_leaf-set_example :
    (pg' : Page) × (insert_leaf (one_page 4 13 invalid 2 20 invalid) empty_page key_2 (21 ∷ [])
      ≡ (ok none, pg', empty_page))
    × Holds pg' (set (one_cell 2 20 invalid ∷ []) 0 (new_cell key_2 (21 ∷ [])))
insert_leaf-set_example =
    insert_leaf-set (one_page 4 13 invalid 2 20 invalid) empty_page (one_cell 2 20 invalid ∷ []) 0
      (one_cell 2 20 invalid) (21 ∷ []) (one_page-Holds 4 13 invalid 2 20 invalid (omega arith))
      (one_page-IsShown 4 13 invalid 2 20 invalid (omega arith) pager refl shown_4).sorted refl
      update-IsEncodable no_longer
