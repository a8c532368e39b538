-- ===== src/Ot/Estop.antt =====
-- The emergency stop, and the boundary of the lock check of COMMIT.
use pcag.Base.{
  ℕ, String, ◌≡◌, ◌⊎◌, refl, false, Option, none, some, List, [], ◌∷◌, arith, eq_iff, Option-cases,
  inl, inr,
}
use pcag.Ot.Repository.{
  TxStatus, TransactionRecord, Table, is_active, get_active_lock, get_transaction,
  abort_active_locks_for_asset,
}
use pcag.Ot.Service
use pcag.Ot.Service.{check_commit_ready, finalize_commit, ready}
use pcag.Ot.Routes.{
  Outcome, Executor, Ot, http_error, CommitRun, HttpEstopStatus, finalize_rejected, commit, estop,
  execute_safe_state,
}
use pcag.Ot.Count.{count, count-estop_self}
use pcag.Ot.Status.{status_of, ready_needs_locked}
use pcag.Ot.Permanent.{stopped_option, get-estop}

-- A row without an active lock of its own, where the asset has none.
none-inactive :
    (asset : String) (now : ℕ) (tx : String) (t : Table) (r : TransactionRecord)
    → get_active_lock asset now t ≡ none
    → get_transaction tx t ≡ some r
    → is_active asset now r ≡ false
unfolding get_active_lock get_transaction
none-inactive asset now tx [] r h k = cc
none-inactive asset now tx (q ∷ t) r h k = ground (arith, none-inactive asset now tx t r)

-- READY means that the transaction's row is LOCKED for the asset, and that the asset's active lock
-- is the transaction's own, or there is none and the lock of the row ends at this very moment or
-- has no end.
pub ready_lock :
    (fault : Option String) (now : ℕ) (tx asset : String) (t : Table)
    → (check_commit_ready fault now tx asset t).status ≡ ready
    → (r : TransactionRecord) × (get_transaction tx t ≡ some r)
      × (r.asset_id ≡ asset)
      × (r.status ≡ TxStatus.locked)
      × (((a : TransactionRecord) × (get_active_lock asset now t ≡ some a)
            × (a.transaction_id ≡ tx))
          ⊎ ((get_active_lock asset now t ≡ none)
              × ((r.lock_expires_at_ms ≡ some now) ⊎ (r.lock_expires_at_ms ≡ none))))
unfolding check_commit_ready
ready_lock (some exc) now tx asset t h = cc
ready_lock none now tx asset t h = elim (Option-cases (get_transaction tx t)) [
  | inl missing ↦ ground arith
  | inr (r, row) ↦ elim (Option-cases (get_active_lock asset now t)) [
    | inl free ↦ (
      r,
      row,
      ground (arith, eq_iff r.asset_id asset),
      ground arith,
      inr (free, ground (arith, eq_iff r.asset_id asset, none-inactive asset now tx t r free row)),
    )
    | inr (a, held) ↦ (
      r,
      row,
      ground (arith, eq_iff r.asset_id asset),
      ground arith,
      inl (a, held, ground (arith, eq_iff a.transaction_id tx)),
    )
  ]
]

status-estop_locked :
    (tx asset : String) (t : Table)
    → status_of tx asset t ≡ some TxStatus.locked
    → status_of tx asset (abort_active_locks_for_asset asset t) ≡ some TxStatus.aborted
unfolding status_of stopped_option
status-estop_locked tx asset t h = rw (get-estop tx asset t) (ground arith)

finalize-aborted :
    (fault : Option String) (tx asset : String) (t : Table)
    → status_of tx asset t ≡ some TxStatus.aborted
    → ((finalize_commit fault tx asset t).0.status ≡ Service.FinalStatus.rejected)
      × ((finalize_commit fault tx asset t).1 ≡ t)
unfolding finalize_commit status_of
finalize-aborted (some exc) tx asset t h = (refl, refl)
finalize-aborted none tx asset t h = ground arith

module _ {W A : Type 0} (x : Executor W A) where
  -- The handler of E-STOP answers ESTOP_EXECUTED and commands the safe state whatever the session
  -- raises; if it raises nothing, the asset has no active lock afterwards, at any moment.
  pub estop_always :
      (fault : Option String) (now : ℕ) (asset : String) (s : Ot W)
      → ((estop x fault now asset s).0.status ≡ HttpEstopStatus.estop_executed)
        × ((estop x fault now asset s).1.plant ≡ (execute_safe_state x asset s.plant).1)
        × (fault ≡ none
            → (at : ℕ) → count (is_active asset at) (estop x fault now asset s).1.table ≡ 0)
  unfolding estop Service.estop
  estop_always (some exc) now asset s = (refl, refl, λ e. cc)
  estop_always none now asset s = (refl, refl, λ e at. count-estop_self asset at s.table)

  -- An E-STOP for the asset that comes while the executor works, and works successfully: the
  -- command has been executed, COMMIT still answers with an error, and the row stays ABORTED.
  pub estop_during_commit :
      (run : CommitRun) (tx asset : String) (actions : List A) (s : Ot W)
      → run.others ≡ abort_active_locks_for_asset asset
      → (check_commit_ready run.ready_fault run.ready_now tx asset s.table).status ≡ ready
      → (x.execute tx asset actions s.plant).0 ≡ Outcome.done
      → ((commit x run tx asset actions s).0
          ≡ http_error 409 (
              finalize_rejected
                (finalize_commit run.final_fault tx asset (run.others s.table)).0.reason))
        × ((commit x run tx asset actions s).1.plant ≡ (x.execute tx asset actions s.plant).1)
        × (status_of tx asset (commit x run tx asset actions s).1.table ≡ some TxStatus.aborted)
  unfolding commit
  estop_during_commit run tx asset actions s others is_ready executed =
      let locked : status_of tx asset s.table ≡ some TxStatus.locked =
        ready_needs_locked run.ready_fault run.ready_now tx asset s.table is_ready in
      let halted : status_of tx asset (run.others s.table) ≡ some TxStatus.aborted =
        rw others (status-estop_locked tx asset s.table locked) in
      ground (arith, finalize-aborted run.final_fault tx asset (run.others s.table) halted)
