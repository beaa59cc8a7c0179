-- ===== src/Storage/Transaction/Tests.antt =====
-- The theorems on transactions at a concrete state: page 7 is cached, changed and dirty, and was
-- saved before it changed.
use sqlgo.Base.{
  ◌>>=◌, ℕ, ◌≡◌, refl, arith, Bytes, List, [], ◌∷◌, some, none, ok, true, false, ◌==◌,
  if◌then◌else◌,
}
use sqlgo.Storage.Page.{Page}
use sqlgo.Storage.Lru
use sqlgo.Storage.Lru.{Lru, find, without}
use sqlgo.Storage.Lru.Entries.{Distinct}
use sqlgo.Storage.Pager.{
  Pager, get_page, write_at, flush_all, flush_header, flush_cache, flush_pages,
}
use sqlgo.Storage.Pager.Coherence.{IsCoherent, view}
use sqlgo.Storage.Transaction.{
  Transaction, active, new_transaction, is_active, save_first, save_in_all, save_page, savepoint,
  rollback_to_savepoint, rollback, restore, restore_one, store, update,
}
use sqlgo.Storage.Transaction.Restore.{
  IsCached, rolled_back_content, rollback-restores, rollback-flush_all,
}
use sqlgo.Storage.Transaction.Savepoints.{
  save_pages, first_content, RolledBackTo, rollback_to_savepoint-RolledBackTo,
}

abbrev page_7 : Page
page_7 = record { id = 7; bytes = 1 ∷ []; dirty = true; pins = 0 }

-- As it was.
abbrev old_7 : Page
old_7 = record { id = 7; bytes = 5 ∷ []; dirty = false; pins = 0 }

abbrev pager : Pager
pager = record {
  header = record {
    magic = 83 ∷ 81 ∷ 76 ∷ 71 ∷ 79 ∷ 0 ∷ 0 ∷ 0 ∷ [];
    version = 3;
    page_bytes = 4096;
    page_count = 9;
    free_list = 0xffff_ffff;
    root_page = 0xffff_ffff;
    schema_page = 1;
  };
  cache = record { cap = 4; order = (7, page_7) ∷ []; hits = 0; misses = 0 };
  wal_buf = [];
  free_pages = [];
  disk = record {
    page = λ k. if k == 7 then some (1 ∷ []) else none;
    read_fails = λ k. false;
    write_fails = λ k. false;
    sync_fails = false;
  };
}

abbrev saved : List (ℕ × Bytes)
saved = (7, 5 ∷ []) ∷ []

abbrev tx : Transaction
tx = record { state = active; save_state = some saved; savepoints = [] }

saved-Distinct : Distinct saved
unfolding find
saved-Distinct = (refl, tt)

pager-IsCoherent : IsCoherent pager
unfolding find
pager-IsCoherent = record {
  distinct = (refl, tt);
  numbered = λ k pg h. ground (arith, h);
  faithful = λ k pg h clean. ground (arith, h, clean);
  no_wal = refl;
}

cached : (k : ℕ) (bytes : Bytes) → find k saved ≡ some bytes → IsCached pager k
unfolding find
cached k bytes h = (page_7, ground (arith, h))

rollback-restores_example :
    let (r, tx', p') = rollback tx pager in
    (r ≡ ok tt)
    × (is_active tx' ≡ false)
    × ((k : ℕ) → view p' k ≡ rolled_back_content (find k saved) (view pager k))
    × (p'.disk ≡ pager.disk)
rollback-restores_example =
    rollback-restores tx pager saved refl refl saved-Distinct pager-IsCoherent.distinct cached

flushes : (flush_all (rollback tx pager).2).0 ≡ ok tt
unfolding flush_all flush_header flush_cache flush_pages write_at rollback restore restore_one store
    update get_page Lru.get find without is_active
flushes = refl

found_7 : find 7 saved ≡ some (5 ∷ [])
unfolding find
found_7 = refl

rollback-flush_all_example : (flush_all (rollback tx pager).2).1.disk.page 7 ≡ pager.disk.page 7
rollback-flush_all_example =
    rollback-flush_all tx pager saved 7 (5 ∷ []) refl refl saved-Distinct pager-IsCoherent cached
      found_7 refl flushes

abbrev name : Bytes
name = 97 ∷ []

starts_active : is_active new_transaction ≡ true
unfolding is_active new_transaction
starts_active = refl

abbrev after : Transaction
after = record {
  state = active;
  save_state = some saved;
  savepoints = record { name = name; pages = saved } ∷ [];
}

saves : (savepoint name new_transaction >>= save_pages (old_7 ∷ [])) ≡ ok after
unfolding savepoint new_transaction is_active save_page save_first save_in_all find
saves = refl

nothing_saved : new_transaction.save_state ≡ some []
unfolding new_transaction
nothing_saved = refl

first-IsCached :
    (k : ℕ) (bytes : Bytes) → first_content k (old_7 ∷ []) ≡ some bytes → IsCached pager k
unfolding find
first-IsCached k bytes h = (page_7, ground (arith, h))

rollback_to_savepoint-RolledBackTo_example :
    RolledBackTo name (old_7 ∷ []) pager (rollback_to_savepoint name after pager)
rollback_to_savepoint-RolledBackTo_example =
    rollback_to_savepoint-RolledBackTo name (old_7 ∷ []) new_transaction after [] pager
      starts_active nothing_saved saves pager-IsCoherent.distinct first-IsCached
