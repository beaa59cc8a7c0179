-- ===== src/Storage/BTree/Separator.antt =====
-- `search` for a key that a node holds as a separator.
use sqlgo.Base.{
  ℕ, suc, zero, ◌+◌, ◌<◌, ◌≡◌, refl, ◌∙◌, arith, Bool, true, false, Bytes, List, get_elem?, some,
  none, ok, Result-cases, inl, inr,
}
use sqlgo.Storage.Cell.{Cell}
use sqlgo.Storage.Page.{Page, type_internal, page_binary_search}
use sqlgo.Storage.Page.Layout.{cell_at-Holds}
use sqlgo.Storage.Page.Search.{IsSorted, Located, page_binary_search-Located}
use sqlgo.Storage.Pager.{Pager, get_page}
use sqlgo.Storage.Pager.Coherence.{IsCoherent, get_page-Reads}
use sqlgo.Storage.BTree.{descend, at_found, search_page, search}
use sqlgo.Storage.BTree.Shape.{Content, IsTree, IsShown, Answers}
use sqlgo.Storage.BTree.Lookup.{
  sorted_place, found_page, missed-ne, search_round, search_no_page, read_page-search,
  IsTree-SameView, search-Answers,
}

-- In sorted cells a key stands once.
sorted_once :
    (cells : List Cell) (i j : ℕ) (c c' : Cell)
    → IsSorted cells
    → get_elem? cells i ≡ some c
    → get_elem? cells j ≡ some c'
    → c.key ≡ c'.key
    → c ≡ c'
sorted_once cells i j c c' sorted at at' same =
    let e = sorted_place cells i j c c' sorted at at' same in cc (rw e at at, at')

separator_descends :
    (p : Pager) (id : ℕ) (pg : Page) (cells : List Cell) (i : ℕ) (c : Cell) (r : ℕ × Bool)
    → IsShown p id type_internal pg cells
    → get_elem? cells i ≡ some c
    → page_binary_search pg c.key ≡ ok r
    → Located c.key cells r
    → search_page pg c.key ≡ ok (descend c.left_ptr)
unfolding at_found
separator_descends p id pg cells i c (idx, true) sh at e (c', at', same) =
    let one = sorted_once cells idx i c' c sh.sorted at' at same in
    found_page pg c.key idx c' e (cell_at-Holds sh.holds idx c' at') ∙ rw (sh.is_kind, one) refl
separator_descends p id pg cells i c (idx, false) sh at e (le, below, above) =
    absurd (missed-ne c.key cells idx below above i c at refl)

-- The search for a key that a node has as a separator goes on in front of the separator. Where the
-- tree in front holds smaller keys only, as after a split, which puts the pair of the separator
-- first behind it, the search answers that there is no such key, or an error of the pager.
pub search-separator :
    (IsFree : Bytes → Type 0) (n fuel : ℕ) (id : ℕ) (p : Pager) (pg : Page) (cells : List Cell)
    (i : ℕ) (c : Cell) (s : Content)
    → IsShown p id type_internal pg cells
    → get_elem? cells i ≡ some c
    → IsTree IsFree n p c.left_ptr s
    → IsFree c.key
    → s c.key ≡ none
    → IsCoherent p
    → n + 1 < fuel
    → Answers (search fuel c.key id p).0 none
search-separator IsFree n zero id p pg cells i c s sh at t free absent co enough =
    absurd (omega arith)
search-separator IsFree n (suc fuel) id p pg cells i c s sh at t free absent co enough =
    elim (Result-cases (get_page id p).0) [
      | inl (e, fails) ↦ inr (e, search_no_page fuel c.key id p e sh.valid fails)
      | inr (pg', read) ↦
          let reads = get_page-Reads id p pg' co read in
          let (r, found, located) = page_binary_search-Located pg cells c.key sh.holds sh.sorted in
          let down = separator_descends p id pg cells i c r sh at found located in
          let next = read_page-search p id type_internal pg pg' cells c.key sh reads ∙ down in
          let sub = IsTree-SameView IsFree n p (get_page id p).1 _ s reads.same t in
          let rest =
            search-Answers IsFree n fuel c.key _ (get_page id p).1 s sub reads.coherent free
              (omega arith) in
          rw (search_round fuel c.key id p pg' _ sh.valid read next) (rw absent at rest)
    ]
