-- ===== src/Storage/BTree/Sample.antt =====
-- Pages with one cell, and a tree of three of them.
use sqlgo.Base.{
  Bytes, Option, none, false, if◌then◌else◌, ℕ, suc, zero, ◌+◌, ◌<◌, ◌^◌, ◌≡◌, refl, sym, ◌∙◌, ◌*◌,
  arith, [], ◌∷◌, ◌++◌, get_elem?, some, ◌==◌, bytes_eq, bytes_eq_iff, bytes_eq_self, Bool-cases,
  inl, inr,
}
use sqlgo.Base.Word.{put_uint16, put_uint32, uint16}
use sqlgo.Storage.Buffer.{byte_at, slice, read16}
use sqlgo.Storage.Header.{zeros}
use sqlgo.Storage.Cell.{Cell, encode_cell}
use sqlgo.Storage.Page.{Page, page_type, cell_count, cell_content_offset}
use sqlgo.Storage.Page.Layout.{Holds, IsStored}
use sqlgo.Storage.Pager.{Pager}
use sqlgo.Storage.Pager.Coherence.{view}
use sqlgo.Storage.BTree.Shape.{Content, IsShown, IsLeaf}

-- A page with one cell, which has one byte for a key and one for a value.
abbrev pub one_cell : ℕ → ℕ → ℕ → Cell
one_cell k v left = record { key = k ∷ []; value = v ∷ []; left_ptr = left }

abbrev pub one_page : ℕ → ℕ → ℕ → ℕ → ℕ → ℕ → Page
one_page id kind rightmost k v left = record {
  id = id;
  bytes =
      (kind ∷ 0 ∷ 1 ∷ 15 ∷ 246 ∷ put_uint32 rightmost)
      ++ (15 ∷ 246 ∷ zeros 4075)
      ++ encode_cell (one_cell k v left);
  dirty = false;
  pins = 0;
}

abbrev pub one_content : ℕ → ℕ → Content
one_content k v key = if bytes_eq key (k ∷ []) then some (v ∷ []) else none

module _ (id kind rightmost k v left : ℕ) (fits : left < 2 ^ 32) where
  pub one_page-IsStored :
      IsStored (one_page id kind rightmost k v left).bytes 4086 4086 (one_cell k v left)
  unfolding encode_cell byte_at slice put_uint16 put_uint32
  one_page-IsStored = record {
    encodable = record { key_fits = omega arith; value_fits = omega arith; pointer_fits = fits };
    above = omega arith;
    inside = omega arith;
    run = refl;
  }

  first_slot : read16 (one_page id kind rightmost k v left).bytes 9 ≡ 4086
  unfolding encode_cell byte_at put_uint16 put_uint32 uint16
  first_slot = refl

  stored :
      (i : ℕ) (c : Cell)
      → get_elem? (one_cell k v left ∷ []) i ≡ some c
      → IsStored
          (one_page id kind rightmost k v left).bytes
          4086
          (read16 (one_page id kind rightmost k v left).bytes (9 + i * 2))
          c
  stored zero c e = let e' : one_cell k v left ≡ c = cc in rw (first_slot, sym e') one_page-IsStored
  stored (suc i) c e = cc

  pub only_first :
      (i : ℕ) (c : Cell)
      → get_elem? (one_cell k v left ∷ []) i ≡ some c
      → (i ≡ 0) × (one_cell k v left ≡ c)
  only_first zero c e = (refl, cc)
  only_first (suc i) c e = cc

  pub one_page-Holds : Holds (one_page id kind rightmost k v left) (one_cell k v left ∷ [])
  unfolding encode_cell byte_at put_uint16 put_uint32 uint16 cell_count cell_content_offset
  one_page-Holds = record {
    size = refl;
    count = refl;
    room = omega arith;
    content = omega arith;
    stored = stored;
    apart = λ i j c c' ne at at'. absurd (ne ((only_first i c at).0 ∙ sym (only_first j c' at').0));
  }

  pub one_page-IsShown :
      (p : Pager)
      → (id == 0xffff_ffff) ≡ false
      → view p id ≡ some (one_page id kind rightmost k v left).bytes
      → IsShown p id kind (one_page id kind rightmost k v left) (one_cell k v left ∷ [])
  unfolding byte_at page_type
  one_page-IsShown p valid shown = record {
    valid = valid;
    shown = shown;
    is_kind = refl;
    holds = one_page-Holds;
    sorted = record {
      ascending = λ i j c c' lt at at'.
          absurd (omega (arith, (only_first i c at).0, (only_first j c' at').0));
    };
  }

  pub one_page-IsLeaf :
      (p : Pager)
      → IsShown p id 13 (one_page id kind rightmost k v left) (one_cell k v left ∷ [])
      → IsLeaf p id (one_content k v)
  one_page-IsLeaf p sh = record {
    pg = one_page id kind rightmost k v left;
    cells = one_cell k v left ∷ [];
    page = sh;
    present =
        λ i c at. let (_, e) = only_first i c at in rw (sym e) (rw (bytes_eq_self (k ∷ [])) refl);
    absent = λ key ne. elim (Bool-cases (bytes_eq key (k ∷ []))) [
      | inl same ↦ absurd (ne 0 (one_cell k v left) refl (sym ((bytes_eq_iff key (k ∷ [])).0 same)))
      | inr other ↦ rw other refl
    ];
  }

-- Page 2 has the separator 2, page 3 in front of it and page 4 behind it.
abbrev pub invalid : ℕ
invalid = 0xffff_ffff

abbrev pub on_disk : ℕ → Option Bytes
on_disk k =
    if k == 2
    then some (one_page 2 5 4 2 20 3).bytes
    else if k == 3
    then some (one_page 3 13 invalid 1 10 invalid).bytes
    else if k == 4
    then some (one_page 4 13 invalid 2 20 invalid).bytes
    else none

abbrev pub pager : Pager
pager = record {
  header = record {
    magic = 83 ∷ 81 ∷ 76 ∷ 71 ∷ 79 ∷ 0 ∷ 0 ∷ 0 ∷ [];
    version = 3;
    page_bytes = 4096;
    page_count = 5;
    free_list = 0xffff_ffff;
    root_page = 2;
    schema_page = 1;
  };
  cache = record { cap = 4; order = []; hits = 0; misses = 0 };
  wal_buf = [];
  free_pages = [];
  disk = record {
    page = on_disk;
    read_fails = λ k. false;
    write_fails = λ k. false;
    sync_fails = false;
  };
}
