-- ===== src/Storage/Pager.antt =====
-- internal/storage/pager.go: `Pager`. A step takes the state and returns it beside the result,
-- since what was changed before an error stays changed. A page in the cache is the object that
-- callers hold a pointer to. The file is a map from page numbers to pages (`ReadAt` pads the last
-- one with zeros), and the page numbers at which reads and writes fail are chosen outside.
pub mod Coherence
pub mod Flush
pub mod Open
mod Tests
use sqlgo.Base.{
  ◌-◌, ◌&&◌, ℕ, zero, suc, ◌+◌, ◌%◌, ◌^◌, Bytes, Bool, true, false, Option, some, none, List, [],
  ◌∷◌, ◌++◌, Result, ok, err, ◌==◌, if◌then◌else◌,
}
use sqlgo.Storage.Header.{DbHeader, encode_header, header_size, page_size, zeros}
use sqlgo.Storage.Page.{Page}
use sqlgo.Storage.Lru
use sqlgo.Storage.Lru.{Lru, find}

-- os.File, which the operating system implements.
pub record Disk : Type 0 where
  pub page : ℕ → Option Bytes
  pub read_fails : ℕ → Bool
  pub write_fails : ℕ → Bool
  pub sync_fails : Bool

pub record Pager : Type 0 where
  pub header : DbHeader
  pub cache : Lru
  pub wal_buf : List (ℕ × Page)
  pub free_pages : List ℕ
  pub disk : Disk

pub data PagerError : Type 0 where
  read_failed write_failed invalid_page_number : ℕ → PagerError
  sync_failed : PagerError

abbrev pub Step : Type 0 → Type 0
Step A = Pager → Result PagerError A × Pager

unfoldable pub write_at : Disk → ℕ → Bytes → Disk
write_at d id bytes = record d { page = λ k. if id == k then some bytes else d.page k }

-- `writePage`: the page itself becomes clean, which whoever still holds it records.
unfoldable pub write_page : Page → Disk → Result PagerError (Unit {0}) × Disk
write_page pg d =
    if d.write_fails pg.id
    then (err (write_failed pg.id), d)
    else (ok tt, write_at d pg.id pg.bytes)

-- What `GetPage` and `AllocatePage` do with the page that `cache.put` hands back.
unfoldable pub write_back : Option Page → Disk → Result PagerError (Unit {0}) × Disk
write_back none d = (ok tt, d)
write_back (some evicted) d = if evicted.dirty then write_page evicted d else (ok tt, d)

unfoldable pub and_return : Page → Result PagerError (Unit {0}) → Result PagerError Page
and_return pg (ok _) = ok pg
and_return pg (err e) = err e

-- `cache.put`, and the evicted page written if it is dirty.
unfoldable pub put_in_cache : ℕ → Page → Step Page
put_in_cache id pg p =
    let (cache', evicted) = Lru.put p.cache id pg in
    let (r, disk') = write_back evicted p.disk in
    (and_return pg r, record p { cache = cache'; disk = disk' })

unfoldable pub read_page : ℕ → Step Page
read_page id p = if p.disk.read_fails id then (err (read_failed id), p) else elim (p.disk.page id) [
  | none ↦ (err (invalid_page_number id), p)
  | some bytes ↦ put_in_cache id (record { id = id; bytes = bytes; dirty = false; pins = 0 }) p
]

-- Behind a miss in the cache.
unfoldable pub get_uncached : ℕ → Step Page
get_uncached id p = elim (find id p.wal_buf) [ some pg ↦ (ok pg, p) | none ↦ read_page id p ]

unfoldable pub get_page : ℕ → Step Page
get_page id p =
    let (cache', hit) = Lru.get p.cache id in
    elim hit [
      | some pg ↦ (ok pg, record p { cache = cache' })
      | none ↦ get_uncached id (record p { cache = cache' })
    ]

-- An empty page; the Go array starts as zeros.
unfoldable pub blank : ℕ → Page
blank id = record { id = id; bytes = zeros page_size; dirty = false; pins = 0 }

-- `freePages` is a stack; its top is the head of the list. The page count is a uint32.
unfoldable pub allocate_page : Step Page
allocate_page p = elim p.free_pages [
  | id ∷ rest ↦ put_in_cache id (blank id) (record p { free_pages = rest })
  | [] ↦
      let id = p.header.page_count in
      put_in_cache id (blank id)
        (record p { header = record p.header { page_count = (id + 1) % 2 ^ 32 } })
]

unfoldable pub free_page : ℕ → Pager → Pager
free_page id p = record p { free_pages = id ∷ p.free_pages; cache = Lru.remove p.cache id }

abbrev pub clean : Page → Page
clean pg = record pg { dirty = false }

-- A loop over pages that writes the dirty ones and stops at the first error: what it returns, the
-- file, and the pages, those that were written being clean.
unfoldable pub flush_pages :
    List (ℕ × Page) → Disk → Result PagerError (Unit {0}) × Disk × List (ℕ × Page)
flush_pages [] d = (ok tt, d, [])
flush_pages ((id, pg) ∷ pages) d =
    let (r, d', rest) = flush_pages pages (if pg.dirty then write_at d pg.id pg.bytes else d) in
    if pg.dirty && d.write_fails pg.id
    then (err (write_failed pg.id), d, (id, pg) ∷ pages)
    else (r, d', (id, if pg.dirty then clean pg else pg) ∷ rest)

unfoldable pub padded_header : DbHeader → Bytes
padded_header h = encode_header h ++ zeros (page_size - header_size)

-- `FlushAll` behind the header: the pages of the cache, then `Sync`.
unfoldable pub flush_cache : Step (Unit {0})
flush_cache p =
    let (r, d, order) = flush_pages p.cache.order p.disk in
    let p' = record p { disk = d; cache = record p.cache { order = order } } in
    elim r [ ok _ ↦ (if d.sync_fails then err sync_failed else ok tt, p') | err e ↦ (err e, p') ]

-- `FlushAll` behind `flushWAL`.
unfoldable pub flush_header : Step (Unit {0})
flush_header p =
    if p.disk.write_fails 0
    then (err (write_failed 0), p)
    else flush_cache (record p { disk = write_at p.disk 0 (padded_header p.header) })

unfoldable pub flush_all : Step (Unit {0})
flush_all p =
    let (r, d, _) = flush_pages p.wal_buf p.disk in
    let p' = record p { disk = d; wal_buf = [] } in
    elim r [ ok _ ↦ flush_header p' | err e ↦ (err e, p') ]
