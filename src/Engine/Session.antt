-- ===== src/Engine/Session.antt =====
-- internal/engine/executor/executor.go: the statements on transactions. A statement returns an
-- empty result set, or an error.
pub mod Reachable
use sqlgo.Base.{
  ℕ, Bytes, Bool, true, false, Option, some, none, List, [], ◌∷◌, Result, ok, err, if◌then◌else◌,
}
use sqlgo.Storage.Pager.{Pager, PagerError, flush_all}
use sqlgo.Storage.Transaction.{
  Transaction, TxError, new_transaction, savepoint, release_savepoint, rollback_to_savepoint,
  commit, rollback,
}

pub data ExecError : Type 0 where
  already_in_tx not_in_tx : ExecError
  tx_error : TxError → ExecError
  flush_error : PagerError → ExecError
  -- The panic of a call on a nil `e.tx`.
  nil_transaction : ExecError

-- The fields of `Executor` that the statements on transactions use.
pub record Session : Type 0 where
  pub in_tx : Bool
  pub tx : Option Transaction
  pub pager : Pager

pub data Command : Type 0 where
  begin_ commit_ vacuum : Command
  rollback_ savepoint_ release : Bytes → Command

abbrev pub Outcome : Type 0
Outcome = Result ExecError (Unit {0}) × Session

unfoldable pub new_session : Pager → Session
new_session p = record { in_tx = false; tx = none; pager = p }

unfoldable pub exec_begin : Session → Outcome
exec_begin s =
    if s.in_tx
    then (err already_in_tx, s)
    else (ok tt, record s { tx = some new_transaction; in_tx = true })

abbrev pub flush_outcome : Session → Outcome
flush_outcome s =
    let (r, p) = flush_all s.pager in
    (elim r [ ok _ ↦ ok tt | err e ↦ err (flush_error e) ], record s { pager = p })

abbrev pub tx_result {ℓ} : {A : Type ℓ} → Result TxError A → Result ExecError (Unit {0})
tx_result (ok _) = ok tt
tx_result (err e) = err (tx_error e)

-- What `execCommit` and `execRollback` make of the end of the transaction.
abbrev pub left_tx : Session → Result TxError (Unit {0}) × Transaction × Pager → Outcome
left_tx s (r, _, p) = (tx_result r, record s { tx = none; in_tx = false; pager = p })

unfoldable pub exec_commit : Session → Outcome
exec_commit s =
    if s.in_tx
    then (elim s.tx [ none ↦ (err nil_transaction, s) | some tx ↦ left_tx s (commit tx s.pager) ])
    else flush_outcome s

abbrev pub new_tx : Transaction → Result TxError Transaction → Transaction
new_tx _ (ok tx) = tx
new_tx tx (err _) = tx

abbrev pub in_tx_still : Session → Transaction → Result TxError Transaction × Pager → Outcome
in_tx_still s tx (r, p) = (tx_result r, record s { tx = some (new_tx tx r); pager = p })

abbrev pub rollback_tx : Bytes → Session → Transaction → Outcome
rollback_tx [] s tx = left_tx s (rollback tx s.pager)
rollback_tx (c ∷ to) s tx = in_tx_still s tx (rollback_to_savepoint (c ∷ to) tx s.pager)

-- `ROLLBACK`, and `ROLLBACK TO to` for a name that is not empty.
unfoldable pub exec_rollback : Bytes → Session → Outcome
exec_rollback to s =
    if s.in_tx
    then (elim s.tx [ none ↦ (err nil_transaction, s) | some tx ↦ rollback_tx to s tx ])
    else (ok tt, s)

abbrev pub savepoint_tx : Bytes → Session → Outcome
savepoint_tx name s = elim s.tx [
  | none ↦ (err nil_transaction, s)
  | some tx ↦ in_tx_still s tx (savepoint name tx, s.pager)
]

unfoldable pub exec_savepoint : Bytes → Session → Outcome
exec_savepoint name s =
    if s.in_tx
    then savepoint_tx name s
    else savepoint_tx name (record s { tx = some new_transaction; in_tx = true })

unfoldable pub exec_release_savepoint : Bytes → Session → Outcome
exec_release_savepoint name s =
    if s.in_tx
    then (elim s.tx [
      | none ↦ (err nil_transaction, s)
      | some tx ↦ in_tx_still s tx (release_savepoint name tx, s.pager)
    ])
    else (err not_in_tx, s)

-- The cases of `execStatement` for these statements; `VACUUM` only flushes.
unfoldable pub exec : Command → Session → Outcome
exec begin_ s = exec_begin s
exec commit_ s = exec_commit s
exec (rollback_ to) s = exec_rollback to s
exec (savepoint_ name) s = exec_savepoint name s
exec (release name) s = exec_release_savepoint name s
exec vacuum s = flush_outcome s
