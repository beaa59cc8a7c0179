-- ===== src/Engine/Session/Reachable.antt =====
-- The states of a session that statements lead to. No statement calls `SavePage`, so that every
-- other statement changes the pager alone, here to any pager.
use sqlgo.Base.{
  ◌≡◌, ◌⊎◌, refl, arith, Bytes, Bool, true, false, some, none, List, [], ◌∷◌, Result, ok, err,
  if◌then◌else◌, Option-cases, inl, inr, All,
}
use sqlgo.Storage.Pager.{Pager, PagerError, flush_all}
use sqlgo.Storage.Transaction.{
  Transaction, Savepoint, TxError, active, new_transaction, is_active, find_savepoint, savepoint,
  release_savepoint, rollback_to_savepoint, restore, commit, rollback,
}
use sqlgo.Engine.Session.{
  Session, Command, Outcome, ExecError, nil_transaction, flush_error, begin_, commit_, vacuum,
  rollback_, savepoint_, release, new_session, exec, flush_outcome, left_tx, in_tx_still,
  exec_begin, exec_commit, exec_rollback, exec_savepoint, exec_release_savepoint,
}

pub data Runs : Session → Session → Type 0 where
  done : {s : Session} → Runs s s
  then_command : {s t : Session} → Runs s t → (c : Command) → Runs s (exec c t).1
  then_statement : {s t : Session} → Runs s t → (p : Pager) → Runs s (record t { pager = p })

abbrev IsEmptySavepoint : Savepoint → Type 0
IsEmptySavepoint sp = sp.pages ≡ []

-- A transaction that has saved nothing.
pub record IsIdleTx (tx : Transaction) : Type 0 where
  pub is_on : tx.state ≡ active
  pub no_pages : tx.save_state ≡ some []
  pub no_saved : All IsEmptySavepoint tx.savepoints

-- Outside a transaction there is no `e.tx`; inside there is one, active.
abbrev pub IsConsistent : Session → Type 0
IsConsistent s =
    ((s.in_tx ≡ false) × (s.tx ≡ none))
    ⊎ ((s.in_tx ≡ true) × (tx : Transaction) × (s.tx ≡ some tx) × IsIdleTx tx)

new_transaction-IsIdleTx : IsIdleTx new_transaction
unfolding new_transaction
new_transaction-IsIdleTx = record { is_on = refl; no_pages = refl; no_saved = tt }

find_savepoint-IsEmpty :
    (name : Bytes) (sps older : List Savepoint) (sp : Savepoint)
    → All IsEmptySavepoint sps
    → find_savepoint name sps ≡ some (sp, older)
    → IsEmptySavepoint sp × All IsEmptySavepoint older
unfolding find_savepoint
find_savepoint-IsEmpty name [] older sp a h = cc
find_savepoint-IsEmpty name (x ∷ sps) older sp a h =
    ground (arith, h, a, find_savepoint-IsEmpty name sps older sp a.1)

-- The transaction stays one that has saved nothing.
abbrev Stays : Result TxError Transaction → Type 0
Stays (ok tx) = IsIdleTx tx
Stays (err e) = Unit

savepoint-Stays : (name : Bytes) (tx : Transaction) → IsIdleTx tx → Stays (savepoint name tx)
unfolding savepoint is_active
savepoint-Stays name tx i =
    rw i.is_on (record { is_on = refl; no_pages = i.no_pages; no_saved = (refl, i.no_saved) })

release_savepoint-Stays :
    (name : Bytes) (tx : Transaction) → IsIdleTx tx → Stays (release_savepoint name tx)
unfolding release_savepoint
release_savepoint-Stays name tx i = elim (Option-cases (find_savepoint name tx.savepoints)) [
  | inl absent ↦ rw (absent, release_savepoint) tt
  | inr ((sp, older), found) ↦
      rw (found, release_savepoint)
        (record {
          is_on = i.is_on;
          no_pages = i.no_pages;
          no_saved = (find_savepoint-IsEmpty name tx.savepoints older sp i.no_saved found).1;
        })
]

rollback_to-Stays :
    (name : Bytes) (tx : Transaction) (p : Pager)
    → IsIdleTx tx
    → Stays (rollback_to_savepoint name tx p).0 × ((rollback_to_savepoint name tx p).1 ≡ p)
unfolding rollback_to_savepoint restore
rollback_to-Stays name tx p i = elim (Option-cases (find_savepoint name tx.savepoints)) [
  | inl absent ↦ rw (absent, rollback_to_savepoint) (tt, refl)
  | inr ((sp, older), found) ↦
      let (none_, rest) = find_savepoint-IsEmpty name tx.savepoints older sp i.no_saved found in
      rw (found, rollback_to_savepoint, none_)
        (record { is_on = i.is_on; no_pages = i.no_pages; no_saved = (refl, rest) }, refl)
]

rollback_idle :
    (tx : Transaction) (p : Pager)
    → IsIdleTx tx
    → ((rollback tx p).0 ≡ ok tt) × ((rollback tx p).2 ≡ p)
unfolding rollback is_active restore
rollback_idle tx p i = rw (i.is_on, i.no_pages) (refl, refl)

-- What a statement leaves: a consistent session, and it did not panic.
record IsFine (o : Outcome) : Type 0 where
  consistent : IsConsistent o.1
  no_panic : ¬ (o.0 ≡ err nil_transaction)

IsFine-then : (b : Bool) (x y : Outcome) → b ≡ true → IsFine x → IsFine (if b then x else y)
IsFine-then true x y e f = f
IsFine-then false x y e f = cc

IsFine-else : (b : Bool) (x y : Outcome) → b ≡ false → IsFine y → IsFine (if b then x else y)
IsFine-else true x y e f = cc
IsFine-else false x y e f = f

in_tx_still-IsFine :
    (s : Session) (tx : Transaction) (r : Result TxError Transaction) (p : Pager)
    → s.in_tx ≡ true
    → IsIdleTx tx
    → Stays r
    → IsFine (in_tx_still s tx (r, p))
in_tx_still-IsFine s tx (ok tx') p e i st = record {
  consistent = inr (e, tx', refl, st);
  no_panic = λ h. cc;
}
in_tx_still-IsFine s tx (err x) p e i st = record {
  consistent = inr (e, tx, refl, i);
  no_panic = λ h. cc;
}

left_tx-IsFine :
    (s : Session) (r : Result TxError (Unit {0})) (tx : Transaction) (p : Pager)
    → IsFine (left_tx s (r, tx, p))
left_tx-IsFine s (ok _) tx p = record { consistent = inl (refl, refl); no_panic = λ h. cc }
left_tx-IsFine s (err x) tx p = record { consistent = inl (refl, refl); no_panic = λ h. cc }

flush_no_panic :
    (r : Result PagerError (Unit {0}))
    → ¬ (
        elim r as (λ _. Result ExecError (Unit {0})) [ ok _ ↦ ok tt | err e ↦ err (flush_error e) ]
        ≡ err nil_transaction)
flush_no_panic (ok _) h = cc
flush_no_panic (err e) h = cc

flush_outcome-IsFine : (s : Session) → IsConsistent s → IsFine (flush_outcome s)
flush_outcome-IsFine s co = record {
  consistent = co;
  no_panic = λ h. flush_no_panic (flush_all s.pager).0 h;
}

exec-IsFine_idle : (c : Command) (s : Session) → s.in_tx ≡ false → s.tx ≡ none → IsFine (exec c s)
unfolding exec exec_begin exec_commit exec_rollback exec_savepoint exec_release_savepoint
exec-IsFine_idle begin_ s e no_tx = IsFine-else s.in_tx _ _ e (record {
  consistent = inr (refl, new_transaction, refl, new_transaction-IsIdleTx);
  no_panic = λ h. cc;
})
exec-IsFine_idle commit_ s e no_tx =
    IsFine-else s.in_tx _ _ e (flush_outcome-IsFine s (inl (e, no_tx)))
exec-IsFine_idle (rollback_ to) s e no_tx =
    IsFine-else s.in_tx _ _ e (record { consistent = inl (e, no_tx); no_panic = λ h. cc })
exec-IsFine_idle (savepoint_ name) s e no_tx = IsFine-else s.in_tx _ _ e (
    in_tx_still-IsFine (record s { tx = some new_transaction; in_tx = true }) new_transaction
      (savepoint name new_transaction) s.pager refl new_transaction-IsIdleTx
      (savepoint-Stays name new_transaction new_transaction-IsIdleTx))
exec-IsFine_idle (release name) s e no_tx =
    IsFine-else s.in_tx _ _ e (record { consistent = inl (e, no_tx); no_panic = λ h. cc })
exec-IsFine_idle vacuum s e no_tx = flush_outcome-IsFine s (inl (e, no_tx))

exec-IsFine_tx :
    (c : Command) (s : Session) (tx : Transaction)
    → s.in_tx ≡ true
    → s.tx ≡ some tx
    → IsIdleTx tx
    → IsFine (exec c s)
unfolding exec exec_begin exec_commit exec_rollback exec_savepoint exec_release_savepoint
exec-IsFine_tx begin_ s tx e e' i =
    IsFine-then s.in_tx _ _ e (record { consistent = inr (e, tx, e', i); no_panic = λ h. cc })
exec-IsFine_tx commit_ s tx e e' i =
    IsFine-then s.in_tx _ _ e (rw e' (left_tx-IsFine s _ (commit tx s.pager).1 _))
exec-IsFine_tx (rollback_ []) s tx e e' i =
    IsFine-then s.in_tx _ _ e (rw e' (left_tx-IsFine s _ (rollback tx s.pager).1 _))
exec-IsFine_tx (rollback_ (c ∷ to)) s tx e e' i =
    IsFine-then s.in_tx _ _ e
      (rw e' (in_tx_still-IsFine s tx _ _ e i (rollback_to-Stays (c ∷ to) tx s.pager i).0))
exec-IsFine_tx (savepoint_ name) s tx e e' i =
    IsFine-then s.in_tx _ _ e (rw e' (in_tx_still-IsFine s tx _ _ e i (savepoint-Stays name tx i)))
exec-IsFine_tx (release name) s tx e e' i =
    IsFine-then s.in_tx _ _ e
      (rw e' (in_tx_still-IsFine s tx _ _ e i (release_savepoint-Stays name tx i)))
exec-IsFine_tx vacuum s tx e e' i = flush_outcome-IsFine s (inr (e, tx, e', i))

exec-IsFine : (c : Command) (s : Session) → IsConsistent s → IsFine (exec c s)
exec-IsFine c s (inl (e, no_tx)) = exec-IsFine_idle c s e no_tx
exec-IsFine c s (inr (e, tx, e', i)) = exec-IsFine_tx c s tx e e' i

run-IsConsistent : {s t : Session} → Runs s t → IsConsistent s → IsConsistent t
run-IsConsistent done co = co
run-IsConsistent (then_command run c) co = (exec-IsFine c _ (run-IsConsistent run co)).consistent
run-IsConsistent (then_statement run p) co = run-IsConsistent run co

new_session-IsConsistent : (p : Pager) → IsConsistent (new_session p)
unfolding new_session
new_session-IsConsistent p = inl (refl, refl)

-- In every state that statements lead to from a new session, no statement on transactions calls a
-- nil transaction, and the transaction, if the session is in one, is active.
pub Runs-no_panic :
    (p : Pager) (s : Session) (c : Command)
    → Runs (new_session p) s
    → (¬ ((exec c s).0 ≡ err nil_transaction)) × IsConsistent s
Runs-no_panic p s c run =
    let co = run-IsConsistent run (new_session-IsConsistent p) in
    ((exec-IsFine c s co).no_panic, co)

rollback-pager :
    (to : Bytes) (s : Session) → IsConsistent s → (exec_rollback to s).1.pager ≡ s.pager
unfolding exec_rollback
rollback-pager to s (inl (e, no_tx)) = rw e refl
rollback-pager [] s (inr (e, tx, e', i)) = rw (e, e') (rollback_idle tx s.pager i).1
rollback-pager (c ∷ to) s (inr (e, tx, e', i)) =
    rw (e, e') (rollback_to-Stays (c ∷ to) tx s.pager i).1

-- In every state that statements lead to from a new session, `ROLLBACK` and `ROLLBACK TO` leave
-- the pager as it is, so that they undo none of the changes to the pages.
pub Runs-rollback_pager :
    (p : Pager) (s : Session) (to : Bytes)
    → Runs (new_session p) s
    → (exec (rollback_ to) s).1.pager ≡ s.pager
unfolding exec
Runs-rollback_pager p s to run =
    rollback-pager to s (run-IsConsistent run (new_session-IsConsistent p))
