-- ===== src/Ot/Service.antt =====
-- `PersistentTxStateMachine` of pcag/apps/ot_interface/service.py. Every method opens one database
-- session; `fault` is the text of the exception that the session raises, if it raises one, and the
-- rollback then leaves the table as it was. `now` is what `_get_time` returns.
use pcag.Base.{ℕ, ◌+◌, String, true, Option, none, some, ltb, str_eq, if◌then◌else◌}
use pcag.Ot.Repository.{
  TxStatus, is_locked, TransactionRecord, Table, get_active_lock, get_transaction, create_lock,
  extend_lock, update_status, abort_active_locks_for_asset,
}

-- The messages in the `reason` fields, with what is put into them.
pub data Reason : Type 0 where
  locked_by : String → String → Reason
  for_asset : String → String → String → Reason
  already_finished invalid_status : TxStatus → Reason
  not_found asset_mismatch already_committed already_aborted : Reason
  lock_stolen lock_expired cannot_abort_committed : Reason
  raised : String → Reason

-- The dictionary that a method returns, with the statuses of that method.
pub record Reply (S : Type 0) : Type 0 where
  pub status : S
  pub reason : Option Reason
  pub lock_expires_at_ms : Option ℕ

abbrev pub reply : {S : Type 0} → S → Reply S
reply s = record { status = s; reason = none; lock_expires_at_ms = none }

abbrev pub refuse : {S : Type 0} → S → Reason → Reply S
refuse s why = record { status = s; reason = some why; lock_expires_at_ms = none }

pub data PrepareStatus : Type 0 where
  lock_granted lock_denied prepare_rejected : PrepareStatus

abbrev granted : ℕ → Reply PrepareStatus
granted e = record { status = lock_granted; reason = none; lock_expires_at_ms = some e }

-- `prepare` from `existing_tx` on.
abbrev pub prepare_found :
    String → String → ℕ → Option TransactionRecord → Table → Reply PrepareStatus × Table
prepare_found tx asset expires none t = (granted expires, create_lock tx asset expires t)
prepare_found tx asset expires (some r) t =
    if str_eq r.asset_id asset
    then (if is_locked r.status
        then (granted expires, extend_lock tx expires t)
        else (refuse prepare_rejected (already_finished r.status), t))
    else (refuse prepare_rejected (for_asset tx r.asset_id asset), t)

-- `prepare` from `active_lock` on.
abbrev prepare_active :
    String → String → ℕ → Option TransactionRecord → Table → Reply PrepareStatus × Table
prepare_active tx asset expires none t = prepare_found tx asset expires (get_transaction tx t) t
prepare_active tx asset expires (some active) t =
    if str_eq active.transaction_id tx
    then prepare_found tx asset expires (get_transaction tx t) t
    else (
      record {
        status = lock_denied;
        reason = some (locked_by asset active.transaction_id);
        lock_expires_at_ms = active.lock_expires_at_ms;
      },
      t,
    )

unfoldable pub prepare :
    Option String → ℕ → String → String → ℕ → Table → Reply PrepareStatus × Table
prepare (some exc) now tx asset ttl t = (refuse prepare_rejected (raised exc), t)
prepare none now tx asset ttl t =
    prepare_active tx asset (now + ttl) (get_active_lock asset now t) t

pub data ReadyStatus : Type 0 where
  ready timeout rejected already_committed : ReadyStatus

-- The checks of `check_commit_ready` on the locks, for a transaction whose row says LOCKED.
abbrev check_lock : String → ℕ → Option TransactionRecord → Option ℕ → Reply ReadyStatus
check_lock tx now (some active) expires =
    if str_eq active.transaction_id tx then reply ready else refuse timeout lock_stolen
check_lock tx now none none = reply ready
check_lock tx now none (some e) = if ltb e now then refuse timeout lock_expired else reply ready

abbrev check_status : String → String → ℕ → TransactionRecord → Table → Reply ReadyStatus
check_status tx asset now r t = elim r.status [
  | TxStatus.committed ↦ refuse ReadyStatus.already_committed Reason.already_committed
  | TxStatus.aborted ↦ refuse rejected already_aborted
  | TxStatus.locked ↦ check_lock tx now (get_active_lock asset now t) r.lock_expires_at_ms
  | TxStatus.other s ↦ refuse rejected (invalid_status (TxStatus.other s))
]

abbrev check_found : String → String → ℕ → Option TransactionRecord → Table → Reply ReadyStatus
check_found tx asset now none t = refuse rejected not_found
check_found tx asset now (some r) t =
    if str_eq r.asset_id asset
    then check_status tx asset now r t
    else refuse rejected asset_mismatch

-- It only reads, so there is no table in its result.
unfoldable pub check_commit_ready : Option String → ℕ → String → String → Table → Reply ReadyStatus
check_commit_ready (some exc) now tx asset t = refuse rejected (raised exc)
check_commit_ready none now tx asset t = check_found tx asset now (get_transaction tx t) t

pub data FinalStatus : Type 0 where
  committed rejected already_committed : FinalStatus

abbrev finalize_status : String → TxStatus → Table → Reply FinalStatus × Table
finalize_status tx TxStatus.committed t =
    (refuse FinalStatus.already_committed Reason.already_committed, t)
finalize_status tx TxStatus.locked t =
    (reply FinalStatus.committed, update_status tx TxStatus.committed true t)
finalize_status tx TxStatus.aborted t =
    (refuse FinalStatus.rejected (invalid_status TxStatus.aborted), t)
finalize_status tx (TxStatus.other s) t =
    (refuse FinalStatus.rejected (invalid_status (TxStatus.other s)), t)

abbrev finalize_found :
    String → String → Option TransactionRecord → Table → Reply FinalStatus × Table
finalize_found tx asset none t = (refuse FinalStatus.rejected not_found, t)
finalize_found tx asset (some r) t =
    if str_eq r.asset_id asset
    then finalize_status tx r.status t
    else (refuse FinalStatus.rejected asset_mismatch, t)

unfoldable pub finalize_commit : Option String → String → String → Table → Reply FinalStatus × Table
finalize_commit (some exc) tx asset t = (refuse FinalStatus.rejected (raised exc), t)
finalize_commit none tx asset t = finalize_found tx asset (get_transaction tx t) t

pub data AbortStatus : Type 0 where
  aborted already_aborted abort_rejected : AbortStatus

abbrev abort_status : String → TxStatus → Table → Reply AbortStatus × Table
abort_status tx TxStatus.aborted t = (refuse AbortStatus.already_aborted Reason.already_aborted, t)
abort_status tx TxStatus.committed t = (refuse abort_rejected cannot_abort_committed, t)
abort_status tx TxStatus.locked t =
    (reply AbortStatus.aborted, update_status tx TxStatus.aborted true t)
abort_status tx (TxStatus.other s) t =
    (reply AbortStatus.aborted, update_status tx TxStatus.aborted true t)

abbrev abort_found : String → String → Option TransactionRecord → Table → Reply AbortStatus × Table
abort_found tx asset none t = (refuse abort_rejected not_found, t)
abort_found tx asset (some r) t =
    if str_eq r.asset_id asset
    then abort_status tx r.status t
    else (refuse abort_rejected asset_mismatch, t)

unfoldable pub abort : Option String → String → String → Table → Reply AbortStatus × Table
abort (some exc) tx asset t = (refuse abort_rejected (raised exc), t)
abort none tx asset t = abort_found tx asset (get_transaction tx t) t

pub data EstopStatus : Type 0 where
  estop_executed error : EstopStatus

unfoldable pub estop : Option String → String → Table → Reply EstopStatus × Table
estop (some exc) asset t = (refuse error (raised exc), t)
estop none asset t = (reply estop_executed, abort_active_locks_for_asset asset t)
