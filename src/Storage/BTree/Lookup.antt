-- ===== src/Storage/BTree/Lookup.antt =====
-- `search` against the map from keys to values that the leaves of a tree hold.
use sqlgo.Base.{
  ℕ, zero, suc, ◌≤◌, ◌<◌, ◌≡◌, ◌≢◌, ◌⊎◌, refl, sym, ap, ◌∙◌, arith, Bool, true, false, Bytes, List,
  length, get_elem?, Option, some, none, Result, ok, err, ◌==◌, leb, Result-cases, Option-cases,
  inl, inr, lt_of_get_elem?, get_elem?_of_lt,
}
use sqlgo.Storage.Header.{invalid_page}
use sqlgo.Storage.Cell.{Cell, key_cmp, negative, positive}
use sqlgo.Storage.Cell.KeyOrder.{key_cmp_self}
use sqlgo.Storage.Page.{
  Page, page_type, type_leaf, type_internal, cell_count, cell_at, cell_pointer, rightmost_pointer,
  page_binary_search,
}
use sqlgo.Storage.Page.Layout.{Holds, cell_at-Holds}
use sqlgo.Storage.Page.Search.{IsSorted, Located, Below, Above, page_binary_search-Located}
use sqlgo.Storage.Pager.{Pager, PagerError, get_page}
use sqlgo.Storage.Pager.Coherence.{view, IsCoherent, Reads, get_page-Reads}
use sqlgo.Storage.BTree.{
  TreeError, pager_error, Next, answer, descend, at_found, at_missed, search_page, search,
}
use sqlgo.Storage.BTree.Shape.{Content, IsShown, IsLeaf, child_pointer, BelongsTo, IsTree, Answers}

lt-or-le : (m n : ℕ) → (m < n) ⊎ (n ≤ m)
lt-or-le m n = omega arith

le→leb : (m n : ℕ) → m ≤ n → leb m n ≡ true
le→leb m n h = ground arith

lt→leb : (m n : ℕ) → m < n → leb n m ≡ false
lt→leb m n h = ground arith

-- Nothing but the bytes of a page counts.
search_page-bytes :
    (pg pg' : Page) (key : Bytes) → pg'.bytes ≡ pg.bytes → search_page pg' key ≡ search_page pg key
unfolding search_page at_missed at_found page_type cell_count cell_at cell_pointer rightmost_pointer
    page_binary_search
search_page-bytes pg pg' key e = rw e refl

pub found_page :
    (pg : Page) (key : Bytes) (idx : ℕ) (c : Cell)
    → page_binary_search pg key ≡ ok (idx, true)
    → cell_at pg idx ≡ ok c
    → search_page pg key ≡ ok (at_found pg c)
unfolding search_page
found_page pg key idx c e e' = rw (e, e') refl

missed_page :
    (pg : Page) (key : Bytes) (idx : ℕ)
    → page_binary_search pg key ≡ ok (idx, false)
    → search_page pg key ≡ at_missed pg idx
unfolding search_page
missed_page pg key idx e = rw e refl

order-cases : (i j : ℕ) → (i < j) ⊎ (j < i) ⊎ (i ≡ j)
order-cases i j = omega arith

-- In sorted cells a key has one place.
pub sorted_place :
    (cells : List Cell) (i j : ℕ) (c c' : Cell)
    → IsSorted cells
    → get_elem? cells i ≡ some c
    → get_elem? cells j ≡ some c'
    → c.key ≡ c'.key
    → i ≡ j
sorted_place cells i j c c' sorted at at' same = elim (order-cases i j) [
  | inl lt ↦ absurd (cc (sorted.ascending i j c c' lt at at', same, key_cmp_self c'.key))
  | inr (inl gt) ↦ absurd (cc (sorted.ascending j i c' c gt at' at, same, key_cmp_self c.key))
  | inr (inr e) ↦ e
]

end_of_list : (cells : List Cell) (i : ℕ) → get_elem? cells i ≡ none → length cells ≤ i
end_of_list cells i end = elim (lt-or-le i (length cells)) [
  | inl lt ↦ let (c, at) = get_elem?_of_lt cells i lt in cc (end, at)
  | inr le ↦ le
]

at_missed_child :
    (pg : Page) (cells : List Cell) (idx : ℕ)
    → page_type pg ≡ type_internal
    → Holds pg cells
    → idx ≤ length cells
    → at_missed pg idx ≡ ok (descend (child_pointer pg (get_elem? cells idx)))
unfolding at_missed
at_missed_child pg cells idx internal h le = elim (Option-cases (get_elem? cells idx)) [
  | inl end ↦
      let past : leb (cell_count pg) idx ≡ true =
        rw h.count (le→leb (length cells) idx (end_of_list cells idx end)) in
      rw (internal, past, end) refl
  | inr (c, at) ↦
      let inside : leb (cell_count pg) idx ≡ false =
        rw h.count (lt→leb idx (length cells) (lt_of_get_elem? cells idx at)) in
      rw (internal, inside, cell_at-Holds h idx c at, at) refl
]

-- No key that is compared as smaller or greater is the key itself.
differs :
    (key : Bytes) (c : Cell)
    → (key_cmp key c.key ≡ positive) ⊎ (key_cmp key c.key ≡ negative)
    → c.key ≢ key
differs key c (inl greater) same = let e = rw same at greater in cc (e, key_cmp_self key)
differs key c (inr smaller) same = let e = rw same at smaller in cc (e, key_cmp_self key)

pub missed-ne :
    (key : Bytes) (cells : List Cell) (idx : ℕ)
    → Below key cells idx
    → Above key cells idx
    → (i : ℕ) (c : Cell) → get_elem? cells i ≡ some c
    → c.key ≢ key
missed-ne key cells idx below above i c at = elim (lt-or-le i idx) [
  | inl lt ↦ differs key c (inl (below i c at lt))
  | inr le ↦ differs key c (inr (above i c at le))
]

leaf_answer :
    (p : Pager) (id : ℕ) (s : Content) (l : IsLeaf p id s) (key : Bytes) (r : ℕ × Bool)
    → page_binary_search l.pg key ≡ ok r
    → Located key l.cells r
    → search_page l.pg key ≡ ok (answer (s key))
unfolding at_found at_missed
leaf_answer p id s l key (idx, true) e (c, at, same) =
    found_page l.pg key idx c e (cell_at-Holds l.page.holds idx c at)
    ∙ rw l.page.is_kind (ap (λ v. ok (answer v)) (sym (l.present idx c at) ∙ ap s same))
leaf_answer p id s l key (idx, false) e (le, below, above) =
    missed_page l.pg key idx e
    ∙ rw (l.page.is_kind, l.absent key (missed-ne key l.cells idx below above)) refl

search_page-leaf :
    (p : Pager) (id : ℕ) (s : Content) (l : IsLeaf p id s) (key : Bytes)
    → search_page l.pg key ≡ ok (answer (s key))
search_page-leaf p id s l key =
    let (r, e, located) = page_binary_search-Located l.pg l.cells key l.page.holds l.page.sorted in
    leaf_answer p id s l key r e located

-- In a node, where the search for a key that is no separator goes.
node_descends :
    (p : Pager) (id : ℕ) (pg : Page) (cells : List Cell) (key : Bytes) (r : ℕ × Bool)
    → IsShown p id type_internal pg cells
    → ((i : ℕ) (c : Cell) → get_elem? cells i ≡ some c → c.key ≢ key)
    → page_binary_search pg key ≡ ok r
    → Located key cells r
    → (i : ℕ) × (i ≤ length cells)
      × BelongsTo key cells i
      × (search_page pg key ≡ ok (descend (child_pointer pg (get_elem? cells i))))
node_descends p id pg cells key (idx, true) sh free e (c, at, same) = absurd (free idx c at same)
node_descends p id pg cells key (idx, false) sh free e (le, below, above) = (
  idx,
  le,
  (λ j c at lt negative_. cc (below j c at lt, negative_), above),
  missed_page pg key idx e ∙ at_missed_child pg cells idx sh.is_kind sh.holds le,
)

-- One round of the loop, once the page is there.
abbrev after_page : ℕ → Bytes → Next → Pager → Result TreeError (Option Bytes) × Pager
after_page fuel key (answer value) p = (ok value, p)
after_page fuel key (descend next) p = search fuel key next p

pub search_round :
    (fuel : ℕ) (key : Bytes) (id : ℕ) (p : Pager) (pg : Page) (next : Next)
    → (id == invalid_page) ≡ false
    → (get_page id p).0 ≡ ok pg
    → search_page pg key ≡ ok next
    → search (suc fuel) key id p ≡ after_page fuel key next (get_page id p).1
unfolding search
search_round fuel key id p pg (answer value) valid e e' = rw (valid, e, e') refl
search_round fuel key id p pg (descend next) valid e e' = rw (valid, e, e') refl

pub search_no_page :
    (fuel : ℕ) (key : Bytes) (id : ℕ) (p : Pager) (e : PagerError)
    → (id == invalid_page) ≡ false
    → (get_page id p).0 ≡ err e
    → (search (suc fuel) key id p).0 ≡ err (pager_error e)
unfolding search
search_no_page fuel key id p e valid fails = rw (valid, fails) refl

abbrev SameView : Pager → Pager → Type 0
SameView p p' = (k : ℕ) → view p' k ≡ view p k

IsShown-SameView :
    (p p' : Pager) (id kind : ℕ) (pg : Page) (cells : List Cell)
    → SameView p p'
    → IsShown p id kind pg cells
    → IsShown p' id kind pg cells
IsShown-SameView p p' id kind pg cells same sh = record {
  valid = sh.valid;
  shown = same id ∙ sh.shown;
  is_kind = sh.is_kind;
  holds = sh.holds;
  sorted = sh.sorted;
}

pub IsTree-SameView :
    (IsFree : Bytes → Type 0) (n : ℕ) (p p' : Pager) (id : ℕ) (s : Content)
    → SameView p p'
    → IsTree IsFree n p id s
    → IsTree IsFree n p' id s
IsTree-SameView IsFree zero p p' id s same l = record {
  pg = l.pg;
  cells = l.cells;
  page = IsShown-SameView p p' id type_leaf l.pg l.cells same l.page;
  present = l.present;
  absent = l.absent;
}
IsTree-SameView IsFree (suc n) p p' id s same t = record {
  pg = t.pg;
  cells = t.cells;
  page = IsShown-SameView p p' id type_internal t.pg t.cells same t.page;
  child = t.child;
  subtree = λ i le. IsTree-SameView IsFree n p p' _ (t.child i) same (t.subtree i le);
  free = t.free;
  routed = t.routed;
}

-- What the pager returns for a shown page answers the search as that page does.
pub read_page-search :
    (p : Pager) (id kind : ℕ) (pg pg' : Page) (cells : List Cell) (key : Bytes)
    → IsShown p id kind pg cells
    → Reads p id pg' (get_page id p).1
    → search_page pg' key ≡ search_page pg key
read_page-search p id kind pg pg' cells key sh reads = search_page-bytes pg pg' key cc

-- In a tree of pages whose cells are sorted, the search for a key that is no separator answers what
-- the leaves hold for it, none for a key that they do not hold, unless the pager reports an error.
-- Fuel for each level is enough.
pub search-Answers :
    (IsFree : Bytes → Type 0) (n fuel : ℕ) (key : Bytes) (id : ℕ) (p : Pager) (s : Content)
    → IsTree IsFree n p id s
    → IsCoherent p
    → IsFree key
    → n < fuel
    → Answers (search fuel key id p).0 (s key)
search-Answers IsFree n zero key id p s t co free enough = absurd (omega arith)
search-Answers IsFree zero (suc fuel) key id p s l co free enough =
    elim (Result-cases (get_page id p).0) [
      | inl (e, fails) ↦ inr (e, search_no_page fuel key id p e l.page.valid fails)
      | inr (pg', read) ↦
          let reads = get_page-Reads id p pg' co read in
          let next =
            read_page-search p id type_leaf l.pg pg' l.cells key l.page reads
            ∙ search_page-leaf p id s l key in
          inl (ap (λ r. r.0) (search_round fuel key id p pg' _ l.page.valid read next))
    ]
search-Answers IsFree (suc n) (suc fuel) key id p s t co free enough =
    elim (Result-cases (get_page id p).0) [
      | inl (e, fails) ↦ inr (e, search_no_page fuel key id p e t.page.valid fails)
      | inr (pg', read) ↦
          let reads = get_page-Reads id p pg' co read in
          let (r, found, located) =
            page_binary_search-Located t.pg t.cells key t.page.holds t.page.sorted in
          let (i, le, belongs, down) =
            node_descends p id t.pg t.cells key r t.page (t.free key free) found located in
          let next = read_page-search p id type_internal t.pg pg' t.cells key t.page reads ∙ down in
          let sub =
            IsTree-SameView IsFree n p (get_page id p).1 _ (t.child i) reads.same
              (t.subtree i le) in
          rw (search_round fuel key id p pg' _ t.page.valid read next, t.routed key i le belongs)
            (search-Answers IsFree n fuel key _ (get_page id p).1 (t.child i) sub reads.coherent
              free (omega arith))
    ]
