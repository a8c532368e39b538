-- ===== src/Ot/Commit.antt =====
-- What COMMIT promises: it executes only under a lock, acknowledges only what was executed, and
-- leaves a failed execution aborted and in its safe state.
use pcag.Base.{String, ◌≡◌, ◌≢◌, some, List, arith}
use pcag.Ot.Repository.{TxStatus}
use pcag.Ot.Routes.{
  Outcome, Executor, Ot, ok, CommitResponse, CommitRun, commit, execute_safe_state,
  execution_failed, ack,
}
use pcag.Ot.Status.{status_of, ready_needs_locked, finalize-committed, abort-aborted}

module _ {W A : Type 0} (x : Executor W A) (run : CommitRun) (tx asset : String) (actions : List A)
    (s : Ot W) where
  -- An ACK means: the row was LOCKED when COMMIT began, the executor was called once and
  -- succeeded, the row was still LOCKED when it had finished, and it is COMMITTED now.
  pub commit-ack :
      (c : CommitResponse)
      → (commit x run tx asset actions s).0 ≡ ok c
      → c.status ≡ ack
      → (status_of tx asset s.table ≡ some TxStatus.locked)
        × ((x.execute tx asset actions s.plant).0 ≡ Outcome.done)
        × ((commit x run tx asset actions s).1.plant ≡ (x.execute tx asset actions s.plant).1)
        × (status_of tx asset (run.others s.table) ≡ some TxStatus.locked)
        × (status_of tx asset (commit x run tx asset actions s).1.table ≡ some TxStatus.committed)
  unfolding commit
  commit-ack c h k = ground (
    arith,
    ready_needs_locked run.ready_fault run.ready_now tx asset s.table,
    finalize-committed run.final_fault tx asset (run.others s.table),
  )

  -- EXECUTION_FAILED means: the executor was called under the lock and did not succeed, the row is
  -- ABORTED now, and the asset's safe state was commanded after the execution.
  pub commit-failed :
      (c : CommitResponse)
      → (commit x run tx asset actions s).0 ≡ ok c
      → c.status ≡ execution_failed
      → (status_of tx asset s.table ≡ some TxStatus.locked)
        × ((x.execute tx asset actions s.plant).0 ≢ Outcome.done)
        × (status_of tx asset (commit x run tx asset actions s).1.table ≡ some TxStatus.aborted)
        × ((commit x run tx asset actions s).1.plant
            ≡ (execute_safe_state x asset (x.execute tx asset actions s.plant).1).1)
        × (c.safe_state_executed
            ≡ some (execute_safe_state x asset (x.execute tx asset actions s.plant).1).0)
  unfolding commit
  commit-failed c h k = ground (
    arith,
    ready_needs_locked run.ready_fault run.ready_now tx asset s.table,
    abort-aborted run.abort_fault tx asset (run.others s.table),
  )

  -- A transaction whose row is not LOCKED for the asset is never executed: COMMIT changes neither
  -- the table nor the plant.
  pub commit_needs_lock :
      status_of tx asset s.table ≢ some TxStatus.locked → (commit x run tx asset actions s).1 ≡ s
  unfolding commit
  commit_needs_lock h =
      ground (arith, ready_needs_locked run.ready_fault run.ready_now tx asset s.table)
