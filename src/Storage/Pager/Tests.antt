-- ===== src/Storage/Pager/Tests.antt =====
-- The theorems on the pager at a concrete state: page 7 is cached and dirty, page 8 only in the
-- file, and page 0 is there.
use sqlgo.Base.{
  ℕ, ◌≡◌, refl, arith, Bytes, [], ◌∷◌, Option, some, none, ok, true, false, ◌==◌, if◌then◌else◌,
}
use sqlgo.Storage.Page.{
  Page, set_type, set_cell_count, set_cell_content_offset, set_rightmost_pointer,
}
use sqlgo.Storage.Page.Layout.{Holds}
use sqlgo.Storage.Pager.{Disk, blank}
use sqlgo.Storage.Pager.Open.{
  init_db, load_header, initial_header, initial_schema_page, load_header-init_db,
}
use sqlgo.Storage.Lru
use sqlgo.Storage.Lru.{Lru, find, without, split_back, make_room}
use sqlgo.Storage.Pager.{
  Pager, get_page, get_uncached, read_page, put_in_cache, write_back, write_page, write_at,
  and_return,
}
use sqlgo.Storage.Pager.Coherence.{IsCoherent, Reads, get_page-Reads}

abbrev page_7 : Page
page_7 = record { id = 7; bytes = 1 ∷ []; dirty = true; pins = 0 }

abbrev page_8 : Page
page_8 = record { id = 8; bytes = 2 ∷ []; dirty = false; pins = 0 }

abbrev on_disk : ℕ → Option Bytes
on_disk k = if k == 8 then some (2 ∷ []) else if k == 7 then some (0 ∷ []) else none

abbrev pager : Pager
pager = record {
  header = record {
    magic = 83 ∷ 81 ∷ 76 ∷ 71 ∷ 79 ∷ 0 ∷ 0 ∷ 0 ∷ [];
    version = 3;
    page_bytes = 4096;
    page_count = 9;
    free_list = 0xffff_ffff;
    root_page = 0xffff_ffff;
    schema_page = 0xffff_ffff;
  };
  cache = record { cap = 1; order = (7, page_7) ∷ []; hits = 0; misses = 0 };
  wal_buf = [];
  free_pages = [];
  disk = record {
    page = on_disk;
    read_fails = λ k. false;
    write_fails = λ k. false;
    sync_fails = false;
  };
}

pager-IsCoherent : IsCoherent pager
unfolding find
pager-IsCoherent = record {
  distinct = (refl, tt);
  numbered = λ k pg h. ground (arith, h);
  faithful = λ k pg h clean. ground (arith, h, clean);
  no_wal = refl;
}

-- Page 8 is read, and page 7 evicted and written.
reads_8 : (get_page 8 pager).0 ≡ ok page_8
unfolding get_page get_uncached read_page put_in_cache write_back write_page and_return find Lru.get
    Lru.put make_room split_back Lru.pinned
reads_8 = refl

get_page-Reads_example : Reads pager 8 page_8 (get_page 8 pager).1
get_page-Reads_example = get_page-Reads 8 pager page_8 pager-IsCoherent reads_8

-- A new file.
abbrev empty_disk : Disk
empty_disk = record {
  page = λ k. none;
  read_fails = λ k. false;
  write_fails = λ k. false;
  sync_fails = false;
}

writes : (init_db empty_disk).0 ≡ ok tt
unfolding init_db write_page write_at set_type set_cell_count set_cell_content_offset
    set_rightmost_pointer blank
writes = refl

load_header-init_db_example :
    (load_header (init_db empty_disk).1 ≡ ok initial_header)
    × ((init_db empty_disk).1.page 1 ≡ some initial_schema_page.bytes)
    × Holds initial_schema_page []
load_header-init_db_example = load_header-init_db empty_disk writes refl
