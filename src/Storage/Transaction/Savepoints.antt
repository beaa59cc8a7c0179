-- ===== src/Storage/Transaction/Savepoints.antt =====
-- `Savepoint`, `SavePage`, `RollbackToSavepoint` and `ReleaseSavepoint` together.
use sqlgo.Base.{
  Result, ◌>>=◌, ℕ, ◌≡◌, refl, sym, ap, ◌∙◌, arith, Bytes, true, Option, some, none, List, [], ◌∷◌,
  ok, err, ◌==◌, if◌then◌else◌, Option-cases, inl, inr, bytes_eq_self,
}
use sqlgo.Storage.Page.{Page}
use sqlgo.Storage.Lru.{find}
use sqlgo.Storage.Lru.Entries.{Distinct}
use sqlgo.Storage.Pager.{Pager}
use sqlgo.Storage.Pager.Coherence.{view}
use sqlgo.Storage.Transaction.{
  Transaction, Savepoint, TxError, is_active, save_first, save_in_all, save_page, savepoint,
  find_savepoint, release_savepoint, restore, rollback_to_savepoint,
}
use sqlgo.Storage.Transaction.Restore.{
  IsCached, rolled_back_content, restore-Restored, restore-view,
}

-- The pages that one after the other are saved before they change.
abbrev pub save_pages : List Page → Transaction → Result TxError Transaction
save_pages [] tx = ok tx
save_pages (pg ∷ pgs) tx = save_page pg tx >>= save_pages pgs

-- The content that a page had when it was saved for the first time.
abbrev pub first_content : ℕ → List Page → Option Bytes
first_content k [] = none
first_content k (pg ∷ pgs) = if pg.id == k then some pg.bytes else first_content k pgs

abbrev save_list : List Page → List (ℕ × Bytes) → List (ℕ × Bytes)
save_list [] m = m
save_list (pg ∷ pgs) m = save_list pgs (save_first pg.id pg.bytes m)

abbrev save_lists : List Page → List Savepoint → List Savepoint
save_lists [] sps = sps
save_lists (pg ∷ pgs) sps = save_lists pgs (save_in_all pg.id pg.bytes sps)

abbrev or_else : Option Bytes → Option Bytes → Option Bytes
or_else none o = o
or_else (some b) o = some b

find-save_first :
    (id : ℕ) (bytes : Bytes) (m : List (ℕ × Bytes)) (k : ℕ)
    → find k (save_first id bytes m) ≡ or_else (find k m) (if id == k then some bytes else none)
unfolding save_first find
find-save_first id bytes m k = elim (Option-cases (find id m)) [
  | inl absent ↦ rw (absent, save_first) (ground (arith, absent))
  | inr (b, present) ↦ rw (present, save_first) (ground (arith, present))
]

Distinct-save_first :
    (id : ℕ) (bytes : Bytes) (m : List (ℕ × Bytes)) → Distinct m → Distinct (save_first id bytes m)
unfolding save_first
Distinct-save_first id bytes m d = elim (Option-cases (find id m)) [
  | inl absent ↦ rw (absent, save_first) (absent, d)
  | inr (b, present) ↦ rw (present, save_first) d
]

find-save_list :
    (pgs : List Page) (m : List (ℕ × Bytes)) (k : ℕ)
    → find k (save_list pgs m) ≡ or_else (find k m) (first_content k pgs)
find-save_list [] m k = ground arith
find-save_list (pg ∷ pgs) m k =
    ground (
      arith,
      find-save_list pgs (save_first pg.id pg.bytes m) k,
      find-save_first pg.id pg.bytes m k,
    )

Distinct-save_list :
    (pgs : List Page) (m : List (ℕ × Bytes)) → Distinct m → Distinct (save_list pgs m)
Distinct-save_list [] m d = d
Distinct-save_list (pg ∷ pgs) m d =
    Distinct-save_list pgs _ (Distinct-save_first pg.id pg.bytes m d)

save_pages-eq-ok :
    (pgs : List Page) (tx : Transaction) (m : List (ℕ × Bytes))
    → tx.save_state ≡ some m
    → save_pages pgs tx
      ≡ ok (record tx {
        save_state = some (save_list pgs m);
        savepoints = save_lists pgs tx.savepoints;
      })
unfolding save_page
save_pages-eq-ok [] tx m e = rw (sym e) refl
save_pages-eq-ok (pg ∷ pgs) tx m e =
    rw e (save_pages-eq-ok pgs _ (save_first pg.id pg.bytes m) refl)

save_lists-cons :
    (pgs : List Page) (sp : Savepoint) (sps : List Savepoint)
    → save_lists pgs (sp ∷ sps) ≡ record sp { pages = save_list pgs sp.pages } ∷ save_lists pgs sps
unfolding save_in_all
save_lists-cons [] sp sps = refl
save_lists-cons (pg ∷ pgs) sp sps = save_lists-cons pgs _ (save_in_all pg.id pg.bytes sps)

find_savepoint-here :
    (sp : Savepoint) (sps : List Savepoint) → find_savepoint sp.name (sp ∷ sps) ≡ some (sp, sps)
unfolding find_savepoint
find_savepoint-here sp sps = rw (bytes_eq_self sp.name) refl

-- In an active transaction, releasing a savepoint that was just made undoes it, also where an
-- older savepoint has the name.
pub release-savepoint :
    (name : Bytes) (tx : Transaction)
    → is_active tx ≡ true
    → (savepoint name tx >>= release_savepoint name) ≡ ok tx
unfolding savepoint release_savepoint
release-savepoint name tx e =
    let here = find_savepoint-here (record { name = name; pages = [] }) tx.savepoints in
    rw (e, release_savepoint, here) refl

rollback_to_newest :
    (sp : Savepoint) (older : List Savepoint) (tx : Transaction) (p : Pager)
    → tx.savepoints ≡ sp ∷ older
    → rollback_to_savepoint sp.name tx p
      ≡ (ok (record tx { savepoints = record sp { pages = [] } ∷ older }), restore sp.pages p)
unfolding rollback_to_savepoint
rollback_to_newest sp older tx p e =
    let here = ap (find_savepoint sp.name) e ∙ find_savepoint-here sp older in
    rw (here, rollback_to_savepoint) refl

-- What a rollback to a savepoint achieves: the content that each page had when it was first saved
-- after the savepoint was made, other pages as they are, and the savepoint kept, empty.
pub record RolledBackTo (name : Bytes) (pgs : List Page) (p : Pager)
    (r : Result TxError Transaction × Pager) : Type 0 where
  pub tx : Transaction
  pub fine : r.0 ≡ ok tx
  pub kept : (older : List Savepoint) × (tx.savepoints ≡ record { name = name; pages = [] } ∷ older)
  pub shown : (k : ℕ) → view r.1 k ≡ rolled_back_content (first_content k pgs) (view p k)
  pub disk : r.1.disk ≡ p.disk

abbrev savepoints_of : Result TxError Transaction → List Savepoint
savepoints_of (ok tx) = tx.savepoints
savepoints_of (err e) = []

-- The transaction after a savepoint was made, and pages saved.
saved_after :
    (name : Bytes) (pgs : List Page) (tx tx' : Transaction) (m : List (ℕ × Bytes))
    → is_active tx ≡ true
    → tx.save_state ≡ some m
    → (savepoint name tx >>= save_pages pgs) ≡ ok tx'
    → (older : List Savepoint) × (tx'.savepoints
        ≡ record { name = name; pages = save_list pgs [] } ∷ older)
unfolding savepoint
saved_after name pgs tx tx' m e e' h =
    let fresh : Savepoint = record { name = name; pages = [] } in
    let tx1 : Transaction = record tx { savepoints = fresh ∷ tx.savepoints } in
    let shape = sym (save_pages-eq-ok pgs tx1 m e') ∙ rw e at h in
    (
      save_lists pgs tx.savepoints,
      ap (λ r. savepoints_of r) (sym shape) ∙ save_lists-cons pgs fresh tx.savepoints,
    )

-- In an active transaction: when a savepoint is made, pages are saved before they change, and
-- the transaction is rolled back to the savepoint while these pages are cached, then this
-- succeeds and gives back what the pages held at the savepoint, whatever was done to the pages.
pub rollback_to_savepoint-RolledBackTo :
    (name : Bytes) (pgs : List Page) (tx tx' : Transaction) (m : List (ℕ × Bytes)) (p : Pager)
    → is_active tx ≡ true
    → tx.save_state ≡ some m
    → (savepoint name tx >>= save_pages pgs) ≡ ok tx'
    → Distinct p.cache.order
    → ((k : ℕ) (bytes : Bytes) → first_content k pgs ≡ some bytes → IsCached p k)
    → RolledBackTo name pgs p (rollback_to_savepoint name tx' p)
rollback_to_savepoint-RolledBackTo name pgs tx tx' m p e e' h d cached =
    let (older, shape) = saved_after name pgs tx tx' m e e' h in
    let sp : Savepoint = record { name = name; pages = save_list pgs [] } in
    let found : (k : ℕ) → find k (save_list pgs []) ≡ first_content k pgs =
      λ k. find-save_list pgs [] k ∙ unfold find in refl in
    let cached' : (k : ℕ) (b : Bytes) → find k (save_list pgs []) ≡ some b → IsCached p k =
      λ k b is. cached k b (sym (found k) ∙ is) in
    let r = restore-Restored (save_list pgs []) p (Distinct-save_list pgs [] tt) d cached' in
    rw (rollback_to_newest sp older tx' p shape) (record {
      tx = record tx' { savepoints = record { name = name; pages = [] } ∷ older };
      fine = refl;
      kept = (older, refl);
      shown = λ k.
          restore-view p (save_list pgs []) k r (cached' k)
          ∙ ap (λ o. rolled_back_content o (view p k)) (found k);
      disk = r.disk;
    })
