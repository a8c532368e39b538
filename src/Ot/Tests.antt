-- ===== src/Ot/Tests.antt =====
-- Runs of the OT interface on two transactions that ask for one reactor.
use pcag.Base.{eq_iff, ◌+◌, ℕ, ◌≡◌, ◌≤◌, ◌≢◌, refl, String, true, none, some, List, [], ◌∷◌, arith}
use pcag.Ot.Repository.{
  update_status, TxStatus, TransactionRecord, Table, is_active, get_active_lock, get_transaction,
  abort_active_locks_for_asset,
}
use pcag.Ot.Service
use pcag.Ot.Service.{ready, lock_granted, check_commit_ready, finalize_commit}
use pcag.Ot.Routes
use pcag.Ot.Routes.{
  Outcome, SafeOutcome, Executor, Ot, ok, http_error, CommitRun, CommitResponse, ack,
  execution_failed, commit, execute_safe_state, executor_failed, finalize_rejected,
}
use pcag.Ot.Status.{status_of}
use pcag.Ot.Count.{count}
use pcag.Ot.Steps.{Db, empty, prepares, aborts, Reach, here, next, mutual_exclusion, finished_stays}
use pcag.Ot.Serve.{
  Op, answers, meanwhile, handle, apply_op, apply_ops, Interleaving, Request, acks, serve,
}
use pcag.Ot.Serve.Once.{ack_once}
use pcag.Ot.Race.{decide, perform, prepare_race}
use pcag.Ot.Commit.{commit-ack, commit-failed, commit_needs_lock}
use pcag.Ot.Estop.{estop_always, estop_during_commit}

-- The plant's state counts the commands.
abbrev works : Executor ℕ ℕ
works = record {
  execute = λ tx asset actions w. (Outcome.done, w + 1);
  safe_state = λ asset w. (SafeOutcome.returned true, w + 10);
}

abbrev breaks : Executor ℕ ℕ
breaks = record {
  execute = λ tx asset actions w. (Outcome.failed (some "timeout"), w + 1);
  safe_state = λ asset w. (SafeOutcome.returned true, w + 10);
}

abbrev row : TransactionRecord
row = record {
  transaction_id = "a";
  asset_id = "reactor";
  status = TxStatus.locked;
  lock_expires_at_ms = some 1005;
}

abbrev locked : Table
locked = row ∷ []

abbrev before : Ot ℕ
before = record { table = locked; plant = 0 }

abbrev quiet : CommitRun
quiet = record {
  ready_fault = none;
  ready_now = 1000;
  others = λ t. t;
  abort_fault = none;
  final_fault = none;
  ack_now = 1003;
}

abbrev answered : CommitResponse
answered = record {
  status = ack;
  executed_at_ms = some 1003;
  reason = none;
  safe_state_executed = none;
}

abbrev failed : CommitResponse
failed = record {
  status = execution_failed;
  executed_at_ms = none;
  reason = some (executor_failed "timeout");
  safe_state_executed = some true;
}

commit_works : (commit works quiet "a" "reactor" (7 ∷ []) before).0 ≡ ok answered
unfolding commit check_commit_ready finalize_commit get_active_lock get_transaction
commit_works = refl

commit_breaks : (commit breaks quiet "a" "reactor" (7 ∷ []) before).0 ≡ ok failed
unfolding commit check_commit_ready Service.abort get_active_lock get_transaction
commit_breaks = refl

commit-ack_example :
    (status_of "a" "reactor" locked ≡ some TxStatus.locked)
    × ((works.execute "a" "reactor" (7 ∷ []) 0).0 ≡ Outcome.done)
    × ((commit works quiet "a" "reactor" (7 ∷ []) before).1.plant ≡ 1)
    × (status_of "a" "reactor" locked ≡ some TxStatus.locked)
    × (status_of "a" "reactor" (commit works quiet "a" "reactor" (7 ∷ []) before).1.table
        ≡ some TxStatus.committed)
commit-ack_example = commit-ack works quiet "a" "reactor" (7 ∷ []) before answered commit_works refl

commit-failed_example :
    (status_of "a" "reactor" locked ≡ some TxStatus.locked)
    × ((breaks.execute "a" "reactor" (7 ∷ []) 0).0 ≢ Outcome.done)
    × (status_of "a" "reactor" (commit breaks quiet "a" "reactor" (7 ∷ []) before).1.table
        ≡ some TxStatus.aborted)
    × ((commit breaks quiet "a" "reactor" (7 ∷ []) before).1.plant
        ≡ (execute_safe_state breaks "reactor" 1).1)
    × (failed.safe_state_executed ≡ some (execute_safe_state breaks "reactor" 1).0)
commit-failed_example =
    commit-failed breaks quiet "a" "reactor" (7 ∷ []) before failed commit_breaks refl

unknown : status_of "b" "reactor" locked ≢ some TxStatus.locked
unfolding status_of get_transaction
unknown e = cc

commit_needs_lock_example : (commit works quiet "b" "reactor" (7 ∷ []) before).1 ≡ before
commit_needs_lock_example = commit_needs_lock works quiet "b" "reactor" (7 ∷ []) before unknown

abbrev granted_once : Db
granted_once = record { now = 0; table = (Service.prepare none 0 "a" "reactor" 5 []).1 }

abbrev asked_twice : Db
asked_twice = record {
  now = 0;
  table = (Service.prepare none 0 "b" "reactor" 5 (Service.prepare none 0 "a" "reactor" 5 []).1).1;
}

abbrev two_prepares : Reach empty asked_twice
two_prepares = next (next here (prepares none "a" "reactor" 5)) (prepares none "b" "reactor" 5)

mutual_exclusion_example : count (is_active "reactor" 0) asked_twice.table ≤ 1
mutual_exclusion_example = mutual_exclusion two_prepares "reactor"

abbrev finished : Db
finished = record {
  now = 0;
  table = record row { status = TxStatus.committed; lock_expires_at_ms = some 0 } ∷ [];
}

finished_row : status_of "a" "reactor" finished.table ≡ some TxStatus.committed
unfolding status_of get_transaction
finished_row = refl

finished_stays_example :
    status_of "a" "reactor" (Service.abort none "a" "reactor" finished.table).1
    ≡ some TxStatus.committed
finished_stays_example =
    finished_stays "a" "reactor" TxStatus.committed refl {s = finished}
      (next here (aborts none "a" "reactor")) finished_row

abbrev alone : Interleaving
alone = record {
  ready_fault = none;
  ready_now = 1000;
  others = [];
  abort_fault = none;
  final_fault = none;
  ack_now = 1003;
}

-- Another COMMIT of the same transaction finalizes twice while this one executes.
abbrev overtaken : Interleaving
overtaken = record alone {
  others = Op.finalizes none "a" "reactor" ∷ Op.finalizes none "a" "reactor" ∷ [];
}

-- Two COMMITs of one transaction, the first overlapping with a third.
abbrev twice : List (Request ℕ)
twice =
    Request.commits overtaken "a" "reactor" (7 ∷ [])
    ∷ Request.commits alone "a" "reactor" (7 ∷ [])
    ∷ []

-- The overlapping finalization is the one that is acknowledged.
acknowledged : acks "a" "reactor" (serve works twice before) ≡ 1
unfolding serve acks answers meanwhile handle apply_op apply_ops commit check_commit_ready
    finalize_commit get_active_lock get_transaction update_status execute_safe_state
acknowledged = refl

ack_once_example : acks "a" "reactor" (serve works twice before) ≤ 1
ack_once_example = ack_once "a" "reactor" works twice before

distinct : ◌≢◌ {A = String} "a" "b"
distinct e = cc ((eq_iff "a" "b").1 e)

free : get_active_lock "reactor" 1000 [] ≡ none
unfolding get_active_lock
free = refl

missing : (tx : String) → get_transaction tx [] ≡ none
unfolding get_transaction
missing tx = refl

prepare_race_example :
    ((Service.prepare none 1000 "a" "reactor" 5 []).0.status ≡ lock_granted)
    × ((Service.prepare none 1000 "b" "reactor" 5 []).0.status ≡ lock_granted)
    × (count (is_active "reactor" 1000) (
          perform
            (decide 1000 "b" "reactor" [])
            "b"
            "reactor"
            (1000 + 5)
            (perform (decide 1000 "a" "reactor" []) "a" "reactor" (1000 + 5) []))
        ≡ 2)
prepare_race_example =
    prepare_race 1000 "a" "b" "reactor" 5 [] distinct (omega arith) free (missing "a") (missing "b")

estop_always_example :
    ((Routes.estop works none 1000 "reactor" before).0.status
      ≡ Routes.HttpEstopStatus.estop_executed)
    × ((Routes.estop works none 1000 "reactor" before).1.plant
        ≡ (execute_safe_state works "reactor" 0).1)
    × (quiet.ready_fault ≡ none
        → (at : ℕ)
        → count (is_active "reactor" at) (Routes.estop works none 1000 "reactor" before).1.table
          ≡ 0)
estop_always_example = estop_always works none 1000 "reactor" before

-- The lock ends at the very moment of the check.
is_ready : (check_commit_ready none 1005 "a" "reactor" locked).status ≡ ready
unfolding check_commit_ready get_active_lock get_transaction
is_ready = refl

abbrev stopped_run : CommitRun
stopped_run = record quiet { ready_now = 1005; others = abort_active_locks_for_asset "reactor" }

estop_during_commit_example :
    ((commit works stopped_run "a" "reactor" (7 ∷ []) before).0
      ≡ http_error 409 (
          finalize_rejected
            (finalize_commit none "a" "reactor"
              (abort_active_locks_for_asset "reactor" locked)).0.reason))
    × ((commit works stopped_run "a" "reactor" (7 ∷ []) before).1.plant ≡ 1)
    × (status_of "a" "reactor" (commit works stopped_run "a" "reactor" (7 ∷ []) before).1.table
        ≡ some TxStatus.aborted)
estop_during_commit_example =
    estop_during_commit works stopped_run "a" "reactor" (7 ∷ []) before refl is_ready refl
