-- ===== src/Storage/BTree/Shape.antt =====
-- Trees of pages, and the map from keys to values that their leaves hold.
use sqlgo.Base.{
  ℕ, zero, suc, ◌≤◌, ◌<◌, ◌≡◌, ◌≢◌, ◌⊎◌, false, Bytes, List, length, get_elem?, Option, some, none,
  Result, ok, err, ◌==◌,
}
use sqlgo.Storage.Header.{invalid_page}
use sqlgo.Storage.Cell.{Cell, key_cmp, negative}
use sqlgo.Storage.Page.{Page, page_type, type_leaf, type_internal, rightmost_pointer}
use sqlgo.Storage.Page.Layout.{Holds}
use sqlgo.Storage.Page.Search.{IsSorted}
use sqlgo.Storage.Pager.{Pager, PagerError}
use sqlgo.Storage.Pager.Coherence.{view}
use sqlgo.Storage.BTree.{TreeError, pager_error}

abbrev pub Content : Type 0
Content = Bytes → Option Bytes

-- A page of the tree as the pager shows it, with sorted cells.
pub record IsShown (p : Pager) (id kind : ℕ) (pg : Page) (cells : List Cell) : Type 0 where
  pub valid : (id == invalid_page) ≡ false
  pub shown : view p id ≡ some pg.bytes
  pub is_kind : page_type pg ≡ kind
  pub holds : Holds pg cells
  pub sorted : IsSorted cells

pub record IsLeaf (p : Pager) (id : ℕ) (s : Content) : Type 0 where
  pub pg : Page
  pub cells : List Cell
  pub page : IsShown p id type_leaf pg cells
  pub present : (i : ℕ) (c : Cell) → get_elem? cells i ≡ some c → s c.key ≡ some c.value
  pub absent :
      (key : Bytes) → ((i : ℕ) (c : Cell) → get_elem? cells i ≡ some c → c.key ≢ key) → s key ≡ none

-- The child in front of a separator, or behind all of them.
abbrev pub child_pointer : Page → Option Cell → ℕ
child_pointer pg (some c) = c.left_ptr
child_pointer pg none = rightmost_pointer pg

-- A key belongs to a child if no separator in front of it is greater, and all others are.
abbrev pub BelongsTo : Bytes → List Cell → ℕ → Type 0
BelongsTo key cells i =
    ((j : ℕ) (c : Cell) → get_elem? cells j ≡ some c → j < i → key_cmp key c.key ≢ negative)
    × ((j : ℕ) (c : Cell) → get_elem? cells j ≡ some c → i ≤ j → key_cmp key c.key ≡ negative)

-- `Sub` is about the level below, and `IsFree` about keys that are no separators.
pub record IsNode (Sub : ℕ → Content → Type 0) (IsFree : Bytes → Type 0) (p : Pager) (id : ℕ)
    (s : Content) : Type 0 where
  pub pg : Page
  pub cells : List Cell
  pub page : IsShown p id type_internal pg cells
  pub child : ℕ → Content
  pub subtree : (i : ℕ) → i ≤ length cells → Sub (child_pointer pg (get_elem? cells i)) (child i)
  pub free :
      (key : Bytes) → IsFree key → (i : ℕ) (c : Cell) → get_elem? cells i ≡ some c → c.key ≢ key
  pub routed :
      (key : Bytes) (i : ℕ) → i ≤ length cells → BelongsTo key cells i → s key ≡ child i key

-- A tree of pages with so many levels above its leaves, which holds the content.
abbrev pub IsTree : (Bytes → Type 0) → ℕ → Pager → ℕ → Content → Type 0
IsTree IsFree zero p id s = IsLeaf p id s
IsTree IsFree (suc n) p id s = IsNode (λ i t. IsTree IsFree n p i t) IsFree p id s

-- What a look-up may answer: the value, or an error of the pager.
abbrev pub Answers : Result TreeError (Option Bytes) → Option Bytes → Type 0
Answers r value = (r ≡ ok value) ⊎ ((e : PagerError) × (r ≡ err (pager_error e)))
