-- ===== src/Storage/Pager/Coherence.antt =====
-- The pages that the pager shows, and that reading does not change them.
use sqlgo.Base.{
  Result, ℕ, ◌≡◌, refl, sym, ap, ◌∙◌, arith, Bytes, false, Option, some, none, List, [], ok, err,
  ◌==◌, if◌then◌else◌, Option-cases, Bool-cases, inl, inr,
}
use sqlgo.Storage.Page.{Page}
use sqlgo.Storage.Lru
use sqlgo.Storage.Lru.{Lru, find}
use sqlgo.Storage.Lru.Entries.{Distinct}
use sqlgo.Storage.Lru.Eviction.{Put, put-Put, get-find}
use sqlgo.Storage.Pager.{
  Disk, Pager, PagerError, write_at, write_page, write_back, and_return, put_in_cache, read_page,
  get_uncached, get_page,
}

-- The content of a page as the program sees it: the cached one, else that of the file.
abbrev pub content : Option Page → Option Bytes → Option Bytes
content (some pg) on_disk = some pg.bytes
content none on_disk = on_disk

unfoldable pub view : Pager → ℕ → Option Bytes
view p id = content (find id p.cache.order) (p.disk.page id)

-- Each cached page stands under its own number, and a clean one is what the file holds. The
-- buffer `walBuf`, which nothing in the program fills, is empty.
pub record IsCoherent (p : Pager) : Type 0 where
  pub distinct : Distinct p.cache.order
  pub numbered : (id : ℕ) (pg : Page) → find id p.cache.order ≡ some pg → pg.id ≡ id
  pub faithful :
      (id : ℕ) (pg : Page)
      → find id p.cache.order ≡ some pg
      → pg.dirty ≡ false
      → p.disk.page id ≡ some pg.bytes
  pub no_wal : p.wal_buf ≡ []

-- The page that was asked for, and every page shown as before.
pub record Reads (p : Pager) (id : ℕ) (pg : Page) (p' : Pager) : Type 0 where
  pub coherent : IsCoherent p'
  pub read : view p id ≡ some pg.bytes
  pub same : (k : ℕ) → view p' k ≡ view p k
  pub cached : find id p'.cache.order ≡ some pg

abbrev fresh : ℕ → Bytes → Page
fresh id bytes = record { id = id; bytes = bytes; dirty = false; pins = 0 }

and_return_inv :
    (pg pg' : Page) (r : Result PagerError (Unit {0}))
    → and_return pg r ≡ ok pg'
    → (r ≡ ok tt) × (pg ≡ pg')
unfolding and_return
and_return_inv pg pg' (ok tt) h = (refl, ground arith)
and_return_inv pg pg' (err e) h = cc

-- A page that is written back, if it has to be, is in the file.
write_back-page :
    (q : Page) (d : Disk)
    → (q.dirty ≡ false → d.page q.id ≡ some q.bytes)
    → (write_back (some q) d).0 ≡ ok tt
    → (k : ℕ) → (write_back (some q) d).1.page k ≡ (if q.id == k then some q.bytes else d.page k)
unfolding write_back write_page write_at
write_back-page q d kept h k = elim (Bool-cases q.dirty) [
  | inl dirty ↦ elim (Bool-cases (d.write_fails q.id)) [
    | inl fails ↦ absurd (ground (arith, h, dirty, fails))
    | inr works ↦ rw (dirty, works) refl
  ]
  | inr not_dirty ↦ rw not_dirty (ground (arith, kept not_dirty))
]

stored :
    (id : ℕ) (bytes : Bytes) (p : Pager) (r : Lru × Option Page)
    → IsCoherent p
    → find id p.cache.order ≡ none
    → p.disk.page id ≡ some bytes
    → Put p.cache id (fresh id bytes) r
    → (write_back r.1 p.disk).0 ≡ ok tt
    → Reads p id (fresh id bytes) (record p { cache = r.0; disk = (write_back r.1 p.disk).1 })
unfolding view
stored id bytes p (c, none) co absent on_disk (found, d) w =
    unfold write_back in
    record {
      coherent = record {
        distinct = d;
        numbered = λ k pg h. ground (arith, found k, co.numbered k pg, h);
        faithful = λ k pg h c. ground (arith, found k, co.faithful k pg, h, c, on_disk);
        no_wal = co.no_wal;
      };
      read = ground (arith, absent, on_disk);
      same = λ k. ground (arith, found k, absent, on_disk);
      cached = ground (arith, found id);
    }
stored id bytes p (c, some q) co absent on_disk (_, (victim, there, found), d, _) w =
    let n = co.numbered victim q there in
    let disk = write_back-page q p.disk (λ c. rw n (co.faithful victim q there c)) w in
    record {
      coherent = record {
        distinct = d;
        numbered = λ k pg h. ground (arith, found k, co.numbered k pg, h);
        faithful = λ k pg h c.
            ground (arith, found k, co.faithful k pg, h, c, on_disk, disk k, n, absent, there);
        no_wal = co.no_wal;
      };
      read = ground (arith, absent, on_disk);
      same = λ k. ground (arith, found k, absent, on_disk, disk k, n, there);
      cached = ground (arith, found id);
    }

read_page-Reads :
    (id : ℕ) (p : Pager) (pg : Page)
    → IsCoherent p
    → find id p.cache.order ≡ none
    → (read_page id p).0 ≡ ok pg
    → Reads p id pg (read_page id p).1
unfolding read_page put_in_cache
read_page-Reads id p pg co absent h = elim (Bool-cases (p.disk.read_fails id)) [
  | inl fails ↦ absurd (ground (arith, h, fails))
  | inr works ↦ elim (Option-cases (p.disk.page id)) [
    | inl missing ↦ absurd (ground (arith, h, works, missing))
    | inr (bytes, on_disk) ↦
        let page = fresh id bytes in
        let put = put-Put p.cache id page co.distinct in
        let (w, e) = and_return_inv page pg _ (rw (works, on_disk) at h) in
        rw (works, on_disk, sym e) (stored id bytes p _ co absent on_disk put w)
  ]
]

pub get_page_hit :
    (id : ℕ) (p : Pager) (pg : Page)
    → (Lru.get p.cache id).1 ≡ some pg
    → get_page id p ≡ (ok pg, record p { cache = (Lru.get p.cache id).0 })
unfolding get_page
get_page_hit id p pg h = rw (h, get_page) refl

find_no_wal : (id : ℕ) (wal_buf : List (ℕ × Page)) → wal_buf ≡ [] → find id wal_buf ≡ none
unfolding find
find_no_wal id wal_buf e = rw e refl

get_uncached_lem : (id : ℕ) (p : Pager) → p.wal_buf ≡ [] → get_uncached id p ≡ read_page id p
unfolding get_uncached
get_uncached_lem id p no_wal = rw (find_no_wal id p.wal_buf no_wal, get_uncached) refl

get_page_miss :
    (id : ℕ) (p : Pager)
    → (Lru.get p.cache id).1 ≡ none
    → get_page id p ≡ get_uncached id (record p { cache = (Lru.get p.cache id).0 })
unfolding get_page
get_page_miss id p h = rw (h, get_page) refl

-- The look-up alone keeps a pager coherent, and what it shows.
abbrev looked_up : ℕ → Pager → Pager
looked_up id p = record p { cache = (Lru.get p.cache id).0 }

looked_up-IsCoherent :
    (id : ℕ) (p : Pager)
    → IsCoherent p
    → IsCoherent (looked_up id p) × ((k : ℕ) → view (looked_up id p) k ≡ view p k)
unfolding view
looked_up-IsCoherent id p co =
    let (hit, same, d) = get-find p.cache id co.distinct in
    (
      record {
        distinct = d;
        numbered = λ k pg h. co.numbered k pg (sym (same k) ∙ h);
        faithful = λ k pg h. co.faithful k pg (sym (same k) ∙ h);
        no_wal = co.no_wal;
      },
      λ k. rw (same k) refl,
    )

-- When `GetPage` succeeds, also if it has to evict a page and write it back, it returns the page
-- that the pager showed, which is now cached; every page is shown as before, and the cache stays
-- coherent with the file.
pub get_page-Reads :
    (id : ℕ) (p : Pager) (pg : Page)
    → IsCoherent p
    → (get_page id p).0 ≡ ok pg
    → Reads p id pg (get_page id p).1
unfolding view
get_page-Reads id p pg co h =
    let (hit, same, d) = get-find p.cache id co.distinct in
    let (co', shown) = looked_up-IsCoherent id p co in
    elim (Option-cases (find id p.cache.order)) [
      | inl absent ↦
          let e =
            get_page_miss id p (hit ∙ absent) ∙ get_uncached_lem id (looked_up id p) co.no_wal in
          let reads =
            read_page-Reads id (looked_up id p) pg co' (same id ∙ absent)
              (sym (ap (λ r. r.0) e) ∙ h) in
          rw e (record {
            coherent = reads.coherent;
            read = sym (shown id) ∙ reads.read;
            same = λ k. reads.same k ∙ shown k;
            cached = reads.cached;
          })
      | inr (pg', present) ↦
          let e = get_page_hit id p pg' (hit ∙ present) in
          let e' = sym (ap (λ r. r.0) e) ∙ h in
          rw e (record {
            coherent = co';
            read = ground (arith, present, e');
            same = shown;
            cached = ground (arith, same id, present, e');
          })
    ]
