-- ===== src/Storage/BTree/Leaf/Fill.antt =====
-- A page that is filled with cells one after the other.
use sqlgo.Base.{
  ℕ, ◌+◌, ◌^◌, ◌≤◌, ◌<◌, ◌≡◌, ◌⊎◌, refl, ap, ◌∙◌, arith, List, [], ◌∷◌, ◌++◌, length, insert_nth,
  All, Result, ok, err, inl, inr,
}
use mathlib.Core.List.{append-nil}
use sqlgo.Storage.Cell.{Cell, encode_cell}
use sqlgo.Storage.Cell.Codec.{IsEncodable}
use sqlgo.Storage.Page.{Page, PageError, page_full, free_space, insert_cell_into_page}
use sqlgo.Storage.Page.Layout.{Holds}
use sqlgo.Storage.Page.Insert.{insert_cell_into_page-Inserted}
use sqlgo.Storage.BTree.Leaf.{fill_page}

-- The cell's lengths fit 16 bits, and so does its encoding with the pointer.
abbrev pub IsSmall : Cell → Type 0
IsSmall c = IsEncodable c × (length (encode_cell c) + 2 < 2 ^ 16)

-- The space that cells and their pointers take.
abbrev pub space : List Cell → ℕ
space [] = 0
space (c ∷ cells) = length (encode_cell c) + 2 + space cells

snoc : (cells : List Cell) (c : Cell) → insert_nth (length cells) c cells ≡ cells ++ c ∷ []
snoc [] c = refl
snoc (x ∷ cells) c = ap (λ l. x ∷ l) (snoc cells c)

snoc_append : (cells more : List Cell) (c : Cell) → (cells ++ c ∷ []) ++ more ≡ cells ++ c ∷ more
snoc_append [] more c = refl
snoc_append (x ∷ cells) more c = ap (λ l. x ∷ l) (snoc_append cells more c)

-- What filling comes to: all cells on the page, or the error that it is full.
abbrev pub Filled : Page → List Cell → List Cell → Result PageError (Unit {0}) × Page → Type 0
Filled pg cells more (r, pg') =
    ((free_space pg < space more) × (r ≡ err page_full))
    ⊎ ((space more ≤ free_space pg) × (r ≡ ok tt) × Holds pg' (cells ++ more))

fill_page_full :
    (pg : Page) (c : Cell) (more : List Cell)
    → insert_cell_into_page pg c ≡ err page_full
    → fill_page pg (c ∷ more) ≡ (err page_full, pg)
unfolding fill_page
fill_page_full pg c more e = rw (e, fill_page) refl

fill_page_next :
    (pg pg' : Page) (c : Cell) (more : List Cell)
    → insert_cell_into_page pg c ≡ ok pg'
    → fill_page pg (c ∷ more) ≡ fill_page pg' more
unfolding fill_page
fill_page_next pg pg' c more e = rw (e, fill_page) refl

-- The rest of the cells, once the first one is on the page.
rest-Filled :
    (pg pg' : Page) (cells more : List Cell) (c : Cell) (r : Result PageError (Unit {0}) × Page)
    → free_space pg' + (length (encode_cell c) + 2) ≡ free_space pg
    → Filled pg' (insert_nth (length cells) c cells) more r
    → Filled pg cells (c ∷ more) r
rest-Filled pg pg' cells more c (r, last) left (inl (full, e)) = inl (omega arith, e)
rest-Filled pg pg' cells more c (r, last) left (inr (room, e, h)) =
    let same = ap (λ l. l ++ more) (snoc cells c) ∙ snoc_append cells more c in
    inr (omega arith, e, rw same at h)

-- A page that holds `cells` is filled with more cells: if they take no more than the free space, all
-- of them stand behind the others, in their order; otherwise the answer is that the page is full.
pub fill_page-Filled :
    (pg : Page) (cells more : List Cell)
    → Holds pg cells
    → All IsSmall more
    → Filled pg cells more (fill_page pg more)
fill_page-Filled pg cells [] h small =
    unfold fill_page in inr (omega arith, refl, rw (append-nil cells) h)
fill_page-Filled pg cells (c ∷ more) h ((enc, fits), small) =
    elim (insert_cell_into_page-Inserted pg cells c h enc fits) [
      | inl (full, e) ↦ rw (fill_page_full pg c more e) (inl (omega arith, refl))
      | inr (pg', e, h', left) ↦ rw (fill_page_next pg pg' c more e) (
          rest-Filled pg pg' cells more c (fill_page pg' more) left
            (fill_page-Filled pg' (insert_nth (length cells) c cells) more h' small))
    ]
