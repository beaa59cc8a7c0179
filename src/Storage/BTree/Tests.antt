-- ===== src/Storage/BTree/Tests.antt =====
-- The theorems on a tree of three pages: page 2 with the separator 2 in front of page 4 and behind
-- page 3. Page 3 holds the key 1, page 4 the key 2, as a split of a leaf leaves them.
use sqlgo.Base.{
  ◌≤◌, ℕ, suc, zero, ◌≤◌, ◌≡◌, ◌≢◌, refl, sym, ap, ◌∙◌, arith, Bytes, [], ◌∷◌, get_elem?, some,
  none, if◌then◌else◌, bytes_eq, bytes_eq_iff, Bool-cases, inl, inr,
}
use sqlgo.Base.Word.{put_uint32, uint32}
use sqlgo.Storage.Buffer.{byte_at}
use sqlgo.Storage.Cell.{Cell, key_cmp, memcmp, or_length, negative}
use sqlgo.Storage.Page.{rightmost_pointer}
use sqlgo.Storage.Lru.{find}
use sqlgo.Storage.Pager.Coherence.{IsCoherent, view}
use sqlgo.Storage.BTree.{search}
use sqlgo.Storage.BTree.Shape.{Content, IsShown, IsLeaf, IsTree, BelongsTo, child_pointer, Answers}
use sqlgo.Storage.BTree.Lookup.{search-Answers}
use sqlgo.Storage.Cell.KeyOrder.{key_cmp_self}
use sqlgo.Storage.BTree.Separator.{search-separator}
use sqlgo.Storage.BTree.Sample.{
  invalid, pager, one_cell, one_page, one_content, only_first, one_page-IsShown, one_page-IsLeaf,
}

pager-IsCoherent : IsCoherent pager
unfolding find
pager-IsCoherent = record {
  distinct = tt;
  numbered = λ k pg h. cc;
  faithful = λ k pg h clean. cc;
  no_wal = refl;
}

shown_node : IsShown pager 2 5 (one_page 2 5 4 2 20 3) (one_cell 2 20 3 ∷ [])
unfolding view find
shown_node = one_page-IsShown 2 5 4 2 20 3 (omega arith) pager refl refl

page_3-IsLeaf : IsLeaf pager 3 (one_content 1 10)
unfolding view find
page_3-IsLeaf =
    one_page-IsLeaf 3 13 invalid 1 10 invalid (omega arith) pager
      (one_page-IsShown 3 13 invalid 1 10 invalid (omega arith) pager refl refl)

page_4-IsLeaf : IsLeaf pager 4 (one_content 2 20)
unfolding view find
page_4-IsLeaf =
    one_page-IsLeaf 4 13 invalid 2 20 invalid (omega arith) pager
      (one_page-IsShown 4 13 invalid 2 20 invalid (omega arith) pager refl refl)

abbrev key_1 : Bytes
key_1 = 1 ∷ []

abbrev key_2 : Bytes
key_2 = 2 ∷ []

-- Every key but the separator.
abbrev IsFree : Bytes → Type 0
IsFree key = key ≢ key_2

-- What the leaves hold.
abbrev content : Content
content key = if bytes_eq key key_1 then some (10 ∷ []) else one_content 2 20 key

abbrev child : ℕ → Content
child zero = one_content 1 10
child (suc i) = one_content 2 20

smaller : key_cmp key_1 key_2 ≡ negative
unfolding key_cmp memcmp or_length
smaller = refl

is_not_smaller : (key : Bytes) → key ≡ key_2 → ¬ (key_cmp key key_2 ≡ negative)
is_not_smaller key e h = let h' = rw e at h in cc (h', key_cmp_self key_2)

routed :
    (key : Bytes) (i : ℕ)
    → i ≤ 1
    → BelongsTo key (one_cell 2 20 3 ∷ []) i
    → content key ≡ child i key
routed key zero le (before, behind) = elim (Bool-cases (bytes_eq key key_2)) [
  | inl same ↦ absurd (
      is_not_smaller key ((bytes_eq_iff key key_2).0 same)
        (behind 0 (one_cell 2 20 3) refl (omega arith)))
  | inr other ↦ rw other refl
]
routed key (suc i) le (before, behind) = elim (Bool-cases (bytes_eq key key_1)) [
  | inl same ↦
      absurd (
        before 0 (one_cell 2 20 3) refl (omega arith)
          (rw ((bytes_eq_iff key key_1).0 same) smaller))
  | inr other ↦ rw other refl
]

subtree :
    (i : ℕ)
    → i ≤ 1
    → IsLeaf pager
        (child_pointer (one_page 2 5 4 2 20 3) (get_elem? (one_cell 2 20 3 ∷ []) i))
        (child i)
unfolding rightmost_pointer byte_at put_uint32 uint32
subtree zero le = page_3-IsLeaf
subtree (suc zero) le = page_4-IsLeaf
subtree (suc (suc i)) le = absurd (omega arith)

tree : IsTree IsFree 1 pager 2 content
tree = record {
  pg = one_page 2 5 4 2 20 3;
  cells = one_cell 2 20 3 ∷ [];
  page = shown_node;
  child = child;
  subtree = subtree;
  free = λ key free i c at same.
      let (_, e) = only_first 2 5 4 2 20 3 (omega arith) i c at in
      free (sym same ∙ ap (λ (x : Cell). x.key) (sym e));
  routed = routed;
}

key_1-IsFree : IsFree key_1
key_1-IsFree e = cc

search-Answers_example : Answers (search 2 key_1 2 pager).0 (content key_1)
search-Answers_example =
    search-Answers IsFree 1 2 key_1 2 pager content tree pager-IsCoherent key_1-IsFree (omega arith)

-- Page 4 holds the key 2, but the search ends in page 3.
search-separator_example : Answers (search 2 key_2 2 pager).0 none
search-separator_example =
    search-separator (λ k. Unit {0}) 0 2 2 pager (one_page 2 5 4 2 20 3) (one_cell 2 20 3 ∷ []) 0
      (one_cell 2 20 3) (one_content 1 10) shown_node refl page_3-IsLeaf tt refl pager-IsCoherent
      (omega arith)
