-- ===== src/Storage/BTree/Leaf/Insert.antt =====
-- `insertLeaf`: a new key, and a key that is there.
use sqlgo.Base.{
  ℕ, ◌+◌, ◌≤◌, ◌<◌, ◌≡◌, ◌≢◌, ◌⊎◌, refl, arith, Bool, true, false, Bytes, List, length, get_elem?,
  some, none, set, ok, inl, inr,
}
use sqlgo.Storage.Cell.{Cell, encode_cell}
use sqlgo.Storage.Cell.Codec.{IsEncodable}
use sqlgo.Storage.Page.{Page, free_space}
use sqlgo.Storage.Page.Layout.{Holds}
use sqlgo.Storage.Page.Search.{IsSorted, Located, page_binary_search-Located}
use sqlgo.Storage.Page.Insert.{insert_cell_into_page_at-Inserted}
use sqlgo.Storage.Page.Rewrite.{rewrite_cell-Holds}
use sqlgo.Storage.BTree.Lookup.{missed-ne, sorted_place}
use sqlgo.Storage.BTree.Leaf.{
  new_cell, Grown, overflow, insert_at_place, insert_sorted, split_leaf, insert_leaf,
}
use sqlgo.Storage.BTree.Leaf.Fill.{IsSmall}
use sqlgo.Storage.BTree.Leaf.Order.{insert_sorted-insert_nth}
use sqlgo.Storage.BTree.Leaf.Split.{Halved, split_leaf-Halved}

-- What inserting a new key comes to: the cell in its place, or a split if there is no room.
abbrev pub Grows : Page → Page → List Cell → Bytes → Bytes → Grown → Type 0
Grows pg new cells key value r =
    let all = insert_sorted cells (new_cell key value) in
    let needed = length (encode_cell (new_cell key value)) + 2 in
    IsSorted all
    × (((pg' : Page) × (r ≡ (ok none, pg', new)) × Holds pg' all × (needed ≤ free_space pg))
        ⊎ ((free_space pg < needed)
            × (r ≡ overflow (split_leaf pg new key value))
            × Halved all (split_leaf pg new key value)))

grown_at :
    (pg new : Page) (cells : List Cell) (key value : Bytes) (r : ℕ × Bool)
    → Holds pg cells
    → IsSorted cells
    → ((i : ℕ) (c : Cell) → get_elem? cells i ≡ some c → c.key ≢ key)
    → length new.bytes ≡ 4096
    → IsSmall (new_cell key value)
    → Located key cells r
    → Grows pg new cells key value (insert_at_place pg new key value (ok r))
grown_at pg new cells key value (idx, true) h sorted fresh size small (c, at, same) =
    absurd (fresh idx c at same)
grown_at pg new cells key value (idx, false) h sorted fresh size (enc, fits) (le, below, above) =
    let c = new_cell key value in
    let (in_order, halved) =
      split_leaf-Halved pg new cells key value h sorted fresh size (enc, fits) in
    let e = insert_sorted-insert_nth cells c idx le below above in
    elim (insert_cell_into_page_at-Inserted pg cells c idx h enc le fits) [
      | inl (full, failed) ↦ (in_order, rw failed (inr (full, refl, halved)))
      | inr (pg', fine, h', left) ↦ (in_order, rw fine (inl (pg', refl, rw e h', omega arith)))
    ]

-- Into a leaf that holds sorted cells, a new key is inserted where it belongs if there is room for its
-- cell, and the cells stay sorted; otherwise the leaf is split, and the answer is that of the split.
-- The lengths of the key and the value fit 16 bits, and so does the encoding of the cell with its
-- pointer.
pub insert_leaf-Grows :
    (pg new : Page) (cells : List Cell) (key value : Bytes)
    → Holds pg cells
    → IsSorted cells
    → ((i : ℕ) (c : Cell) → get_elem? cells i ≡ some c → c.key ≢ key)
    → length new.bytes ≡ 4096
    → IsSmall (new_cell key value)
    → Grows pg new cells key value (insert_leaf pg new key value)
unfolding insert_leaf
insert_leaf-Grows pg new cells key value h sorted fresh size small =
    let (r, found, located) = page_binary_search-Located pg cells key h sorted in
    rw found (grown_at pg new cells key value r h sorted fresh size small located)

updated_at :
    (pg new : Page) (cells : List Cell) (i : ℕ) (old : Cell) (value : Bytes) (r : ℕ × Bool)
    → Holds pg cells
    → IsSorted cells
    → get_elem? cells i ≡ some old
    → IsEncodable (new_cell old.key value)
    → length (encode_cell (new_cell old.key value)) ≤ length (encode_cell old)
    → Located old.key cells r
    → (pg' : Page) × (insert_at_place pg new old.key value (ok r) ≡ (ok none, pg', new))
      × Holds pg' (set cells i (new_cell old.key value))
updated_at pg new cells i old value (idx, true) h sorted at enc shorter (c, at', same) =
    let e = sorted_place cells idx i c old sorted at' at same in
    let (pg', fine, h') =
      rewrite_cell-Holds pg cells i old (new_cell old.key value) h at enc shorter in
    (pg', rw (e, fine) refl, h')
updated_at pg new cells i old value (idx, false) h sorted at enc shorter (le, below, above) =
    absurd (missed-ne old.key cells idx below above i old at refl)

-- For a key that the leaf holds, the value is replaced in place and the other cells stay, provided
-- that the length of the value fits 16 bits and the new cell is no longer than the old one.
pub insert_leaf-set :
    (pg new : Page) (cells : List Cell) (i : ℕ) (old : Cell) (value : Bytes)
    → Holds pg cells
    → IsSorted cells
    → get_elem? cells i ≡ some old
    → IsEncodable (new_cell old.key value)
    → length (encode_cell (new_cell old.key value)) ≤ length (encode_cell old)
    → (pg' : Page) × (insert_leaf pg new old.key value ≡ (ok none, pg', new))
      × Holds pg' (set cells i (new_cell old.key value))
unfolding insert_leaf
insert_leaf-set pg new cells i old value h sorted at enc shorter =
    let (r, found, located) = page_binary_search-Located pg cells old.key h sorted in
    rw found (updated_at pg new cells i old value r h sorted at enc shorter located)
