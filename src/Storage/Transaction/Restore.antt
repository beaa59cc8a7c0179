-- ===== src/Storage/Transaction/Restore.antt =====
-- `Rollback` and `RollbackToSavepoint`: what becomes of the saved pages.
use sqlgo.Base.{
  ℕ, ◌≡◌, refl, ap, ◌∙◌, arith, Bytes, false, Option, some, none, List, [], ◌∷◌, ok, ◌==◌,
  if◌then◌else◌, Option-cases, inl, inr,
}
use sqlgo.Storage.Page.{Page}
use sqlgo.Storage.Lru
use sqlgo.Storage.Lru.{Lru, find}
use sqlgo.Storage.Lru.Entries.{Distinct}
use sqlgo.Storage.Lru.Eviction.{get-find}
use sqlgo.Storage.Pager.{Pager, flush_all}
use sqlgo.Storage.Pager.Coherence.{get_page_hit, IsCoherent, view}
use sqlgo.Storage.Pager.Flush.{flush_all-page, Numbered}
use sqlgo.Storage.Transaction.{
  active, is_active, update, store, restored_page, restore_one, restore, rollback, Transaction,
}

module _ {ℓ} {A : Type ℓ} where
  find-update :
      (k : ℕ) (v old : A) (l : List (ℕ × A)) (j : ℕ)
      → find k l ≡ some old
      → find j (update k v l) ≡ (if k == j then some v else find j l)
  unfolding find update
  find-update k v old [] j h = cc
  find-update k v old ((i, w) ∷ l) j h = ground (arith, h, find-update k v old l j)

  find-update-absent :
      (k : ℕ) (v : A) (l : List (ℕ × A)) (j : ℕ) → find j l ≡ none → find j (update k v l) ≡ none
  unfolding find update
  find-update-absent k v [] j h = refl
  find-update-absent k v ((i, w) ∷ l) j h = ground (arith, h, find-update-absent k v l j)

  Distinct-update : (k : ℕ) (v : A) (l : List (ℕ × A)) → Distinct l → Distinct (update k v l)
  unfolding update
  Distinct-update k v [] d = tt
  Distinct-update k v ((i, w) ∷ l) d =
      ground (arith, d, Distinct-update k v l d.1, find-update-absent k v l i)

-- What restoring makes of a cached page: the saved content, and not dirty.
abbrev pub restored : Option Bytes → Option Page → Option Page
restored none o = o
restored (some bytes) none = none
restored (some bytes) (some pg) = some (restored_page bytes pg)

abbrev pub IsCached : Pager → ℕ → Type 0
IsCached p id = (pg : Page) × (find id p.cache.order ≡ some pg)

pub record Restored (l : List (ℕ × Bytes)) (p : Pager) (p' : Pager) : Type 0 where
  pub in_cache : (k : ℕ) → find k p'.cache.order ≡ restored (find k l) (find k p.cache.order)
  pub distinct : Distinct p'.cache.order
  pub disk : p'.disk ≡ p.disk
  pub wal_buf : p'.wal_buf ≡ p.wal_buf

store_cached :
    (id : ℕ) (pg old : Page) (p : Pager)
    → find id p.cache.order ≡ some old
    → store id pg p ≡ record p { cache = record p.cache { order = update id pg p.cache.order } }
unfolding store
store_cached id pg old p cached = rw (cached, store) refl

restore_one_lem :
    (id : ℕ) (bytes : Bytes) (p : Pager) (pg : Page)
    → Distinct p.cache.order
    → find id p.cache.order ≡ some pg
    → restore_one id bytes p ≡ record p {
      cache = record (Lru.get p.cache id).0 {
        order = update id (restored_page bytes pg) (Lru.get p.cache id).0.order;
      };
    }
unfolding restore_one
restore_one_lem id bytes p pg d cached =
    let (hit, same, _) = get-find p.cache id d in
    let e = get_page_hit id p pg (hit ∙ cached) in
    rw (ap (λ r. r.0) e, restore_one, ap (λ r. r.1) e)
      (store_cached id _ pg (record p { cache = (Lru.get p.cache id).0 }) (same id ∙ cached))

restore_one-Restored :
    (id : ℕ) (bytes : Bytes) (p : Pager) (pg : Page)
    → Distinct p.cache.order
    → find id p.cache.order ≡ some pg
    → Restored ((id, bytes) ∷ []) p (restore_one id bytes p)
restore_one-Restored id bytes p pg d cached =
    let (hit, same, d') = get-find p.cache id d in
    rw (restore_one_lem id bytes p pg d cached) (record {
      in_cache = λ k.
          find-update id (restored_page bytes pg) pg _ k (same id ∙ cached)
          ∙ unfold find in ground (arith, same k, cached);
      distinct = Distinct-update id _ _ d';
      disk = refl;
      wal_buf = refl;
    })

pub restore-Restored :
    (l : List (ℕ × Bytes)) (p : Pager)
    → Distinct l
    → Distinct p.cache.order
    → ((k : ℕ) (bytes : Bytes) → find k l ≡ some bytes → IsCached p k)
    → Restored l p (restore l p)
unfolding restore find
restore-Restored [] p _ d _ = record {
  in_cache = λ k. refl;
  distinct = d;
  disk = refl;
  wal_buf = refl;
}
restore-Restored ((id, bytes) ∷ l) p (new, dist) d cached =
    let (pg, here) = cached id bytes (ground arith) in
    let one = restore_one-Restored id bytes p pg d here in
    let p' = restore_one id bytes p in
    let cached' : (k : ℕ) (b : Bytes) → find k l ≡ some b → IsCached p' k = λ k b found.
      let (q, there) = cached k b (ground (arith, found, new)) in
      (q, ground (arith, one.in_cache k, there, found, new)) in
    let ih = restore-Restored l p' dist one.distinct cached' in
    record {
      in_cache = λ k. ground (arith, ih.in_cache k, one.in_cache k, new);
      distinct = ih.distinct;
      disk = ih.disk ∙ one.disk;
      wal_buf = ih.wal_buf ∙ one.wal_buf;
    }

-- What the program sees of a page after the rollback.
abbrev pub rolled_back_content : Option Bytes → Option Bytes → Option Bytes
rolled_back_content none now = now
rolled_back_content (some bytes) now = some bytes

pub restore-view :
    (p : Pager) (saved : List (ℕ × Bytes)) (k : ℕ)
    → Restored saved p (restore saved p)
    → ((bytes : Bytes) → find k saved ≡ some bytes → IsCached p k)
    → view (restore saved p) k ≡ rolled_back_content (find k saved) (view p k)
unfolding view
restore-view p saved k r cached = elim (Option-cases (find k saved)) [
  | inl kept ↦ rw (r.in_cache k, kept, ap (λ d. d.page k) r.disk) refl
  | inr (bytes, is_saved) ↦
      let (pg, there) = cached bytes is_saved in rw (r.in_cache k, is_saved, there) refl
]

-- `Rollback` of an active transaction whose saved pages are all in the cache gives these pages
-- the contents that were saved, leaves every other page as it was shown, writes nothing to the
-- file, and ends the transaction.
pub rollback-restores :
    (tx : Transaction) (p : Pager) (saved : List (ℕ × Bytes))
    → tx.state ≡ active
    → tx.save_state ≡ some saved
    → Distinct saved
    → Distinct p.cache.order
    → ((k : ℕ) (bytes : Bytes) → find k saved ≡ some bytes → IsCached p k)
    → let (r, tx', p') = rollback tx p in
      (r ≡ ok tt)
      × (is_active tx' ≡ false)
      × ((k : ℕ) → view p' k ≡ rolled_back_content (find k saved) (view p k))
      × (p'.disk ≡ p.disk)
unfolding rollback is_active
rollback-restores tx p saved e e' dist d cached =
    let r = restore-Restored saved p dist d cached in
    rw (e, e') (refl, refl, λ k. restore-view p saved k r (cached k), r.disk)

Restored-Numbered :
    (l : List (ℕ × Bytes)) (p p' : Pager)
    → Restored l p p'
    → Numbered p.cache.order
    → Numbered p'.cache.order
Restored-Numbered l p p' r num k pg found = elim (Option-cases (find k l)) [
  | inl kept ↦ num k pg (ground (arith, r.in_cache k, kept, found))
  | inr (bytes, saved) ↦ elim (Option-cases (find k p.cache.order)) [
    | inl absent ↦ absurd (ground (arith, r.in_cache k, saved, absent, found))
    | inr (old, there) ↦ ground (arith, r.in_cache k, saved, there, found, num k old there)
  ]
]

-- A flush that succeeds after `Rollback` of an active transaction, whose saved pages are all in the
-- cache, does not write the contents that were given back: a saved page other than page 0 stays in the
-- file as the transaction left it there.
pub rollback-flush_all :
    (tx : Transaction) (p : Pager) (saved : List (ℕ × Bytes)) (k : ℕ) (bytes : Bytes)
    → tx.state ≡ active
    → tx.save_state ≡ some saved
    → Distinct saved
    → IsCoherent p
    → ((j : ℕ) (b : Bytes) → find j saved ≡ some b → IsCached p j)
    → find k saved ≡ some bytes
    → (0 == k) ≡ false
    → (flush_all (rollback tx p).2).0 ≡ ok tt
    → (flush_all (rollback tx p).2).1.disk.page k ≡ p.disk.page k
unfolding rollback is_active
rollback-flush_all tx p saved k bytes e e' dist co cached is_saved ne h =
    let r = restore-Restored saved p dist co.distinct cached in
    let p' = restore saved p in
    let h' : ((flush_all p').0 ≡ ok tt) = rw (e, e') at h in
    let (pg, there) = cached k bytes is_saved in
    rw (e, e')
      (flush_all-page p' k (r.wal_buf ∙ co.no_wal) r.distinct
          (Restored-Numbered saved p p' r co.numbered) h' ne
        ∙ rw (r.in_cache k, is_saved, there) (ap (λ d. d.page k) r.disk))
