-- ===== src/Storage/Pager/Flush.antt =====
-- `FlushAll`: when it succeeds, the file holds what the pager shows.
use sqlgo.Base.{
  ℕ, ◌≡◌, refl, sym, ap, ◌∙◌, arith, Bytes, false, Option, some, none, List, [], ◌∷◌, ok, ◌==◌,
  if◌then◌else◌, ◌&&◌, Bool-cases, Result-cases, inl, inr,
}
use sqlgo.Storage.Page.{Page}
use sqlgo.Storage.Lru.{find}
use sqlgo.Storage.Lru.Entries.{Distinct}
use sqlgo.Storage.Pager.{
  Disk, Pager, write_at, flush_pages, flush_cache, flush_header, flush_all, clean, padded_header,
}
use sqlgo.Storage.Pager.Coherence.{IsCoherent, view}

-- What a write of the dirty pages makes of a page of the file, and of the cache.
abbrev pub written : Option Page → Option Bytes → Option Bytes
written none on_disk = on_disk
written (some pg) on_disk = if pg.dirty then some pg.bytes else on_disk

abbrev cleaned : Option Page → Option Page
cleaned none = none
cleaned (some pg) = some (if pg.dirty then clean pg else pg)

abbrev pub Numbered : List (ℕ × Page) → Type 0
Numbered l = (k : ℕ) (pg : Page) → find k l ≡ some pg → pg.id ≡ k

abbrev put_dirty : Page → Disk → Disk
put_dirty pg d = if pg.dirty then write_at d pg.id pg.bytes else d

put_dirty-page :
    (pg : Page) (d : Disk) (k : ℕ)
    → (put_dirty pg d).page k ≡ (if pg.dirty && (pg.id == k) then some pg.bytes else d.page k)
unfolding write_at
put_dirty-page pg d k = elim (Bool-cases pg.dirty) [
  | inl dirty ↦ rw dirty refl
  | inr not_dirty ↦ rw not_dirty refl
]

-- What one round leaves to the next.
flush_pages_round :
    (id : ℕ) (pg : Page) (pages : List (ℕ × Page)) (d : Disk)
    → (flush_pages ((id, pg) ∷ pages) d).0 ≡ ok tt
    → ((flush_pages pages (put_dirty pg d)).0 ≡ ok tt)
      × (flush_pages ((id, pg) ∷ pages) d ≡ (
        ok tt,
        (flush_pages pages (put_dirty pg d)).1,
        (id, if pg.dirty then clean pg else pg) ∷ (flush_pages pages (put_dirty pg d)).2,
      ))
unfolding flush_pages
flush_pages_round id pg pages d h = elim (Bool-cases (pg.dirty && d.write_fails pg.id)) [
  | inl fails ↦ absurd (ground (arith, h, fails))
  | inr works ↦
      let rest = rw works at h in
      (
        rest,
        rw works (
            ap
              (λ r. (
                r,
                (flush_pages pages (put_dirty pg d)).1,
                (id, if pg.dirty then clean pg else pg) ∷ (flush_pages pages (put_dirty pg d)).2,
              ))
              rest),
      )
]

-- A run without an error: which pages of the file are written, and the cache it leaves.
pub record Flushed (l : List (ℕ × Page)) (d : Disk) (d' : Disk) (l' : List (ℕ × Page))
    : Type 0 where
  pub on_disk : (k : ℕ) → d'.page k ≡ written (find k l) (d.page k)
  pub in_cache : (k : ℕ) → find k l' ≡ cleaned (find k l)
  pub distinct : Distinct l'

flush_pages-Flushed :
    (l : List (ℕ × Page)) (d : Disk)
    → Distinct l
    → Numbered l
    → (flush_pages l d).0 ≡ ok tt
    → Flushed l d (flush_pages l d).1 (flush_pages l d).2
unfolding find
flush_pages-Flushed [] d _ _ h =
    unfold flush_pages in record { on_disk = λ k. refl; in_cache = λ k. refl; distinct = tt }
flush_pages-Flushed ((id, pg) ∷ pages) d (new, dist) num h =
    let (h', e) = flush_pages_round id pg pages d h in
    let n : (pg.id ≡ id) = num id pg (ground arith) in
    let num' : Numbered pages = λ k q found. num k q (ground (arith, found, new)) in
    let ih = flush_pages-Flushed pages (put_dirty pg d) dist num' h' in
    rw e (record {
      on_disk = λ k. ground (arith, ih.on_disk k, put_dirty-page pg d k, n, new);
      in_cache = λ k. ground (arith, ih.in_cache k);
      distinct = (ground (arith, ih.in_cache id, new), ih.distinct);
    })

-- What `FlushAll` promises when it succeeds.
pub record Durable (p : Pager) (p' : Pager) : Type 0 where
  pub on_disk : (k : ℕ) → (0 == k) ≡ false → p'.disk.page k ≡ view p k
  pub header : p'.disk.page 0 ≡ some (padded_header p.header)
  pub all_clean : (k : ℕ) (pg : Page) → find k p'.cache.order ≡ some pg → pg.dirty ≡ false
  pub same : (k : ℕ) → (0 == k) ≡ false → view p' k ≡ view p k
  pub coherent : IsCoherent p'

flush_cache_inv :
    (p : Pager)
    → (flush_cache p).0 ≡ ok tt
    → ((flush_pages p.cache.order p.disk).0 ≡ ok tt)
      × ((flush_cache p).1 ≡ record p {
        disk = (flush_pages p.cache.order p.disk).1;
        cache = record p.cache { order = (flush_pages p.cache.order p.disk).2 };
      })
unfolding flush_cache
flush_cache_inv p h = elim (Result-cases (flush_pages p.cache.order p.disk).0) [
  | inl (e, failed) ↦ absurd (ground (arith, h, failed))
  | inr (tt, fine) ↦ (fine, rw (fine, flush_cache) refl)
]

flush_no_wal : (l : List (ℕ × Page)) (d : Disk) → l ≡ [] → flush_pages l d ≡ (ok tt, d, [])
unfolding flush_pages
flush_no_wal l d e = rw e refl

-- `FlushAll` behind the empty `walBuf` and the header.
abbrev headed : Pager → Pager
headed p = record p { disk = write_at p.disk 0 (padded_header p.header); wal_buf = [] }

flush_all_wal :
    (p : Pager) → p.wal_buf ≡ [] → flush_all p ≡ flush_header (record p { wal_buf = [] })
unfolding flush_all
flush_all_wal p no_wal =
    let e = flush_no_wal p.wal_buf p.disk no_wal in
    rw (ap (λ r. r.0) e, flush_all, ap (λ r. r.1) e) refl

flush_all_inv :
    (p : Pager) → p.wal_buf ≡ [] → (flush_all p).0 ≡ ok tt → flush_all p ≡ flush_cache (headed p)
unfolding flush_header
flush_all_inv p no_wal h = flush_all_wal p no_wal ∙ elim (Bool-cases (p.disk.write_fails 0)) [
  | inl fails ↦ absurd (ground (arith, fails, h, flush_all_wal p no_wal))
  | inr works ↦ rw works refl
]

-- What a successful flush leaves of one page of the file, also where the cache is not coherent.
pub flush_all-page :
    (p : Pager) (k : ℕ)
    → p.wal_buf ≡ []
    → Distinct p.cache.order
    → Numbered p.cache.order
    → (flush_all p).0 ≡ ok tt
    → (0 == k) ≡ false
    → (flush_all p).1.disk.page k ≡ written (find k p.cache.order) (p.disk.page k)
unfolding write_at
flush_all-page p k no_wal d num h ne =
    let e = flush_all_inv p no_wal h in
    let (h', e') = flush_cache_inv (headed p) (sym (ap (λ r. r.0) e) ∙ h) in
    let fl = flush_pages-Flushed p.cache.order (headed p).disk d num h' in
    rw (e, e') (fl.on_disk k ∙ ap (written (find k p.cache.order)) (ground (arith, ne)))
