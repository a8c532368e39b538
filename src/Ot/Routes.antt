-- ===== src/Ot/Routes.antt =====
-- The handlers of pcag/apps/ot_interface/routes.py. A request reaches the database through the
-- state machine and the plant through an executor (pcag/core/ports/executor.py). Logging is left
-- out.
use pcag.Base.{ℕ, String, Bool, false, Option, none, some, List, str_eq, if◌then◌else◌}
use pcag.Ot.Repository.{Table}
use pcag.Ot.Service
use pcag.Ot.Service.{
  Reason, Reply, PrepareStatus, ReadyStatus, FinalStatus, AbortStatus, EstopStatus,
  check_commit_ready, finalize_commit,
}

-- How `ExecutorManager.get_executor(asset).execute(…)` ends. `failed` is a false result, with the
-- executor's `last_error`; `raised` is an exception of either call.
pub data Outcome : Type 0 where
  done : Outcome
  failed : Option String → Outcome
  raised : String → Outcome

-- How `get_executor(asset).safe_state(…)` ends.
pub data SafeOutcome : Type 0 where
  returned : Bool → SafeOutcome
  raised : String → SafeOutcome

-- The executors, over the state `W` of the plant and the type `A` of an action.
pub record Executor (W A : Type 0) : Type 0 where
  pub execute : String → String → List A → W → Outcome × W
  pub safe_state : String → W → SafeOutcome × W

pub record Ot (W : Type 0) : Type 0 where
  pub table : Table
  pub plant : W

-- The `detail` of an error response.
pub data Detail : Type 0 where
  commit_rejected finalize_rejected not_aborted : Option Reason → Detail

-- A response, or `HTTPException(status_code, detail)`.
pub data Http {ℓ} (A : Type ℓ) : Type ℓ where
  ok : A → Http A
  http_error : ℕ → Detail → Http A

-- The `reason` of a commit response.
pub data Why : Type 0 where
  said : Reason → Why
  executor_raised executor_failed : String → Why
  unsuccessful_result : Why

-- `executor.last_error or "Executor returned unsuccessful result"`
abbrev failure_reason : Option String → Why
failure_reason none = unsuccessful_result
failure_reason (some text) = if str_eq text "" then unsuccessful_result else executor_failed text

abbrev why : Option Reason → Option Why
why none = none
why (some r) = some (said r)

pub data HttpPrepareStatus : Type 0 where
  lock_granted lock_denied : HttpPrepareStatus

pub record PrepareResponse : Type 0 where
  pub status : HttpPrepareStatus
  pub lock_expires_at_ms : Option ℕ
  pub reason : Option Reason

pub data CommitStatus : Type 0 where
  ack already_committed timeout execution_failed : CommitStatus

pub record CommitResponse : Type 0 where
  pub status : CommitStatus
  pub executed_at_ms : Option ℕ
  pub reason : Option Why
  pub safe_state_executed : Option Bool

pub record AbortResponse : Type 0 where
  pub status : AbortStatus
  pub safe_state_executed : Bool
  pub reason : Option Reason

pub data HttpEstopStatus : Type 0 where
  estop_executed : HttpEstopStatus

pub record EstopResponse : Type 0 where
  pub status : HttpEstopStatus
  pub timestamp_ms : ℕ

-- What one COMMIT meets: what its three sessions raise, the clock at the check and at the answer,
-- and what the sessions of other requests do to the table while the executor runs.
pub record CommitRun : Type 0 where
  pub ready_fault : Option String
  pub ready_now : ℕ
  pub others : Table → Table
  pub abort_fault : Option String
  pub final_fault : Option String
  pub ack_now : ℕ

-- The three statuses of the state machine become two.
abbrev http_prepare_status : PrepareStatus → HttpPrepareStatus
http_prepare_status PrepareStatus.lock_granted = HttpPrepareStatus.lock_granted
http_prepare_status _ = HttpPrepareStatus.lock_denied

module _ {W A : Type 0} (x : Executor W A) where
  -- `_execute_safe_state`: an exception counts as a failure.
  unfoldable pub execute_safe_state : String → W → Bool × W
  execute_safe_state asset w =
      let (r, w') = x.safe_state asset w in
      elim r [ SafeOutcome.returned b ↦ (b, w') | SafeOutcome.raised exc ↦ (false, w') ]

  unfoldable pub prepare : Option String → ℕ → String → String → ℕ → Ot W → PrepareResponse × Ot W
  prepare fault now tx asset ttl s =
      let (r, t) = Service.prepare fault now tx asset ttl s.table in
      (
        record {
          status = http_prepare_status r.status;
          lock_expires_at_ms = r.lock_expires_at_ms;
          reason = r.reason;
        },
        record s { table = t },
      )

  -- `abort` has answered, after a failed execution.
  abbrev after_abort : String → Why → Reply AbortStatus × Table → W → Http CommitResponse × Ot W
  after_abort asset reason (r, t) w =
      let (safe, w') = execute_safe_state asset w in
      let failed : Http CommitResponse × Ot W = (
        ok (record {
          status = execution_failed;
          executed_at_ms = none;
          reason = some reason;
          safe_state_executed = some safe;
        }),
        record { table = t; plant = w' },
      ) in
      elim r.status [
        | AbortStatus.aborted ↦ failed
        | AbortStatus.already_aborted ↦ failed
        | AbortStatus.abort_rejected ↦
            (http_error 500 (not_aborted r.reason), record { table = t; plant = w })
      ]

  -- `finalize_commit` has answered, after a successful execution.
  abbrev after_finalize : ℕ → Reply FinalStatus × Table → W → Http CommitResponse × Ot W
  after_finalize now (r, t) w = (
    elim r.status [
      | FinalStatus.committed ↦ ok (record {
        status = ack;
        executed_at_ms = some now;
        reason = none;
        safe_state_executed = none;
      })
      | FinalStatus.already_committed ↦ ok (record {
        status = CommitStatus.already_committed;
        executed_at_ms = none;
        reason = why r.reason;
        safe_state_executed = none;
      })
      | FinalStatus.rejected ↦ http_error 409 (finalize_rejected r.reason)
    ],
    record { table = t; plant = w },
  )

  -- The executor has ended in `o`, with the plant in `w` and the table in `t`.
  abbrev after_execute :
      CommitRun → String → String → Outcome → Table → W → Http CommitResponse × Ot W
  after_execute run tx asset done t w =
      after_finalize run.ack_now (finalize_commit run.final_fault tx asset t) w
  after_execute run tx asset (Outcome.failed last_error) t w =
      after_abort asset (failure_reason last_error) (Service.abort run.abort_fault tx asset t) w
  after_execute run tx asset (Outcome.raised exc) t w =
      after_abort asset (executor_raised exc) (Service.abort run.abort_fault tx asset t) w

  abbrev not_ready : CommitStatus → Reply ReadyStatus → Ot W → Http CommitResponse × Ot W
  not_ready status r s = (
    ok (record {
      status = status;
      executed_at_ms = none;
      reason = why r.reason;
      safe_state_executed = none;
    }),
    s,
  )

  unfoldable pub commit : CommitRun → String → String → List A → Ot W → Http CommitResponse × Ot W
  unfolding execute_safe_state
  commit run tx asset actions s =
      let r = check_commit_ready run.ready_fault run.ready_now tx asset s.table in
      elim r.status [
        | ReadyStatus.already_committed ↦ not_ready CommitStatus.already_committed r s
        | ReadyStatus.timeout ↦ not_ready CommitStatus.timeout r s
        | ReadyStatus.rejected ↦ (http_error 409 (commit_rejected r.reason), s)
        | ReadyStatus.ready ↦
            let (o, w) = x.execute tx asset actions s.plant in
            after_execute run tx asset o (run.others s.table) w
      ]

  unfoldable pub abort : Option String → String → String → Ot W → AbortResponse × Ot W
  unfolding execute_safe_state
  abort fault tx asset s =
      let (r, t) = Service.abort fault tx asset s.table in
      let (safe, w) = execute_safe_state asset s.plant in
      let dispatched : AbortResponse × Ot W = (
        record { status = r.status; safe_state_executed = safe; reason = r.reason },
        record { table = t; plant = w },
      ) in
      elim r.status [
        | AbortStatus.abort_rejected ↦ (
          record { status = r.status; safe_state_executed = false; reason = r.reason },
          record s { table = t },
        )
        | _ ↦ dispatched
      ]

  unfoldable pub estop : Option String → ℕ → String → Ot W → EstopResponse × Ot W
  unfolding execute_safe_state
  estop fault now asset s =
      let (r, t) = Service.estop fault asset s.table in
      let (safe, w) = execute_safe_state asset s.plant in
      (
        record { status = HttpEstopStatus.estop_executed; timestamp_ms = now },
        record { table = t; plant = w },
      )
