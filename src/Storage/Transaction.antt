-- ===== src/Storage/Transaction.antt =====
-- internal/storage/transaction.go. The maps from page numbers to contents are association lists in
-- the order in which Go ranges over them, which is any order. A map is `none` where it is nil:
-- reading it finds nothing, and writing to it panics.
pub mod Restore
pub mod Savepoints
mod Tests
use sqlgo.Base.{
  ℕ, Bytes, Bool, true, false, Option, some, none, List, [], ◌∷◌, Result, ok, err, ◌==◌, bytes_eq,
  if◌then◌else◌,
}
use sqlgo.Storage.Page.{Page}
use sqlgo.Storage.Lru.{find}
use sqlgo.Storage.Pager.{Pager, PagerError, Step, get_page, flush_all}

pub data TxState : Type 0 where
  idle active committed rolled_back : TxState

pub data TxError : Type 0 where
  not_active nil_map : TxError
  no_savepoint : Bytes → TxError
  pager_error : PagerError → TxError

pub record Savepoint : Type 0 where
  pub name : Bytes
  pub pages : List (ℕ × Bytes)

-- The newest savepoint is the head of the list: Go appends, and searches from the end. The pager
-- that the transaction holds is passed beside it.
pub record Transaction : Type 0 where
  pub state : TxState
  pub save_state : Option (List (ℕ × Bytes))
  pub savepoints : List Savepoint

unfoldable pub new_transaction : Transaction
new_transaction = record { state = active; save_state = some []; savepoints = [] }

unfoldable pub is_active : Transaction → Bool
is_active tx = elim tx.state [
  | idle ↦ false
  | active ↦ true
  | committed ↦ false
  | rolled_back ↦ false
]

-- `if _, already := m[id]; !already { m[id] = data }`.
unfoldable pub save_first : ℕ → Bytes → List (ℕ × Bytes) → List (ℕ × Bytes)
save_first id bytes m = elim (find id m) [ some _ ↦ m | none ↦ (id, bytes) ∷ m ]

unfoldable pub save_in_all : ℕ → Bytes → List Savepoint → List Savepoint
save_in_all id bytes [] = []
save_in_all id bytes (sp ∷ rest) =
    record sp { pages = save_first id bytes sp.pages } ∷ save_in_all id bytes rest

unfoldable pub save_page : Page → Transaction → Result TxError Transaction
save_page pg tx = elim tx.save_state [
  | none ↦ err nil_map
  | some m ↦ ok (record tx {
    save_state = some (save_first pg.id pg.bytes m);
    savepoints = save_in_all pg.id pg.bytes tx.savepoints;
  })
]

unfoldable pub savepoint : Bytes → Transaction → Result TxError Transaction
savepoint name tx =
    if is_active tx
    then ok (record tx { savepoints = record { name = name; pages = [] } ∷ tx.savepoints })
    else err not_active

-- The newest savepoint of the name, and the older ones behind it.
unfoldable pub find_savepoint : Bytes → List Savepoint → Option (Savepoint × List Savepoint)
find_savepoint name [] = none
find_savepoint name (sp ∷ older) =
    let rest = find_savepoint name older in if bytes_eq sp.name name then some (sp, older) else rest

unfoldable pub release_savepoint : Bytes → Transaction → Result TxError Transaction
release_savepoint name tx = elim (find_savepoint name tx.savepoints) [
  | none ↦ err (no_savepoint name)
  | some (_, older) ↦ ok (record tx { savepoints = older })
]

unfoldable pub update {ℓ} : {A : Type ℓ} → ℕ → A → List (ℕ × A) → List (ℕ × A)
update k v [] = []
update k v ((j, w) ∷ l) = let rest = update k v l in if j == k then (j, v) ∷ l else (j, w) ∷ rest

-- An assignment to the fields of the page that `GetPage` returned: the cached page of the number,
-- or the one in `walBuf`.
unfoldable pub store : ℕ → Page → Pager → Pager
store id pg p = elim (find id p.cache.order) [
  | some _ ↦ record p { cache = record p.cache { order = update id pg p.cache.order } }
  | none ↦ record p { wal_buf = update id pg p.wal_buf }
]

abbrev pub restored_page : Bytes → Page → Page
restored_page bytes pg = record pg { bytes = bytes; dirty = false }

-- One round of the restoring loops, which skip a page that cannot be read.
unfoldable pub restore_one : ℕ → Bytes → Pager → Pager
restore_one id bytes p =
    let (r, p') = get_page id p in
    elim r [ ok pg ↦ store id (restored_page bytes pg) p' | err _ ↦ p' ]

unfoldable pub restore : List (ℕ × Bytes) → Pager → Pager
restore [] p = p
restore ((id, bytes) ∷ rest) p = restore rest (restore_one id bytes p)

unfoldable pub rollback_to_savepoint :
    Bytes → Transaction → Pager → Result TxError Transaction × Pager
rollback_to_savepoint name tx p = elim (find_savepoint name tx.savepoints) [
  | none ↦ (err (no_savepoint name), p)
  | some (sp, older) ↦
      (ok (record tx { savepoints = record sp { pages = [] } ∷ older }), restore sp.pages p)
]

-- What ends a transaction: its state, and both fields nil.
abbrev pub ended : TxState → Transaction
ended state = record { state = state; save_state = none; savepoints = [] }

-- The transaction is over also where the flush fails.
unfoldable pub commit : Transaction → Pager → Result TxError (Unit {0}) × Transaction × Pager
commit tx p =
    if is_active tx
    then (let (r, p') = flush_all p in
        (elim r [ ok _ ↦ ok tt | err e ↦ err (pager_error e) ], ended committed, p'))
    else (err not_active, tx, p)

abbrev pub entries : Option (List (ℕ × Bytes)) → List (ℕ × Bytes)
entries none = []
entries (some m) = m

unfoldable pub rollback : Transaction → Pager → Result TxError (Unit {0}) × Transaction × Pager
rollback tx p =
    if is_active tx
    then (ok tt, ended rolled_back, restore (entries tx.save_state) p)
    else (err not_active, tx, p)
