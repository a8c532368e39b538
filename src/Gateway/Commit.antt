-- ===== src/Gateway/Commit.antt =====
-- `_log_evidence`, and the stage COMMIT of `submit_control_request` (pcag/apps/gateway/routes.py).
-- Logging and the texts for people are left out.
use pcag.Base.{
  ℕ, ◌+◌, String, Bool, true, false, ◌||◌, Option, none, some, [], ◌∷◌, str_eq, if◌then◌else◌,
}
use pcag.Core.Int.{pos}
use pcag.Core.Text.{concat, int_text}
use pcag.Core.Json.{Items, Fields, str, arr, obj, nil}
use pcag.Core.Hash.{Hashing, compute_event_hash, compute_sensor_hash}
use pcag.Core.AlternativeAction.{generate_alternative_actions}
use pcag.Ledger.Repository.{Event}
use pcag.Gateway.Types.{
  ControlStatus, committed, aborted, error, ControlResponse, Call, raised, http_error, ok,
  CommitResult, AbortResult, Effect, sent_commit, sent_abort, logged, refused, Services,
}
use pcag.Gateway.Monad.{M, pure, raise, ◌>>=◌, call, read}
use pcag.Gateway.Helpers.{
  Position, or_null, number_or_null, bool_or_null, dict, fault_enabled, abort_error, abort_status,
  or_default, response, Context,
}

module _ {F W : Type 0} (h : Hashing F) (v : Services F W) where
  -- The event that `_log_evidence` posts.
  abbrev pub event_at : String → Position → String → Fields F → ℕ → Event F
  event_at tx at stage payload now = record {
    transaction_id = tx;
    sequence_no = at.seq;
    stage = stage;
    timestamp_ms = now;
    payload = obj payload;
    input_hash = compute_sensor_hash h (obj payload);
    prev_hash = at.prev_hash;
    event_hash = compute_event_hash h at.prev_hash (obj payload);
  }

  abbrev pub next_position : Position → Fields F → Position
  next_position at payload = record {
    seq = at.seq + 1;
    prev_hash = compute_event_hash h at.prev_hash (obj payload);
  }

  abbrev pub append_effect : Event F → Option String → Effect F
  append_effect e none = logged e
  append_effect e (some detail) = refused e

  abbrev pub appended : Position → Fields F → Option String → M F W Position
  appended at payload none = pure (next_position at payload)
  appended at payload (some detail) = raise detail

  -- `_log_evidence`, with the step of `evidence_seq` and `prev_hash` that follows it.
  unfoldable pub log_evidence : String → Position → String → Fields F → M F W Position
  log_evidence tx at stage payload = do
    now ← read v.now
    answer ←
        call (v.append (event_at tx at stage payload now))
          (append_effect (event_at tx at stage payload now))
    appended at payload answer

  module _ (c : Context F) where
    abbrev tx : String
    tx = c.request.transaction_id

    abbrev pub actions_for : String → Items F
    actions_for code = generate_alternative_actions c.profile.safe_state code

    abbrev pub fault : String → Bool
    fault family = fault_enabled c.request.proof_package.fault_injection family

    abbrev pub respond : ControlStatus → String → Items F → M F W (ControlResponse F)
    respond status code actions = pure (response tx status (some code) none actions)

    abbrev pub send_abort : String → M F W (Call AbortResult)
    send_abort reason = call (v.abort tx c.request.asset_id reason) sent_abort

    -- COMMIT answered with a status.
    unfoldable pub after_commit_status : Position → CommitResult → M F W (ControlResponse F)
    after_commit_status at r =
        if str_eq r.status "EXECUTION_FAILED"
        then (do
          _ ← log_evidence tx at "COMMIT_FAILED" (
              dict (
                ("status", str r.status)
                ∷ ("reason", or_null r.reason)
                ∷ ("safe_state_executed", bool_or_null r.safe_state_executed)
                ∷ ("alternative_actions", arr (actions_for "COMMIT_FAILED"))
                ∷ []))
          respond (if or_default false r.safe_state_executed then aborted else error)
              "COMMIT_FAILED" (actions_for "COMMIT_FAILED"))
        else if str_eq r.status "ALREADY_COMMITTED" || str_eq r.status "ACK"
        then (do
          _ ← log_evidence tx at "COMMIT_ACK" (
              dict (
                ("executed_at_ms", number_or_null r.executed_at_ms)
                ∷ ("status", str r.status)
                ∷ []))
          pure (response tx committed none (some (concat ("/v1/transactions/" ∷ tx ∷ []))) nil))
        else (do
          _ ← log_evidence tx at "COMMIT_TIMEOUT" (
              dict (
                ("status", str r.status)
                ∷ ("reason", or_null r.reason)
                ∷ ("alternative_actions", arr (actions_for "COMMIT_TIMEOUT"))
                ∷ []))
          respond aborted "COMMIT_TIMEOUT" (actions_for "COMMIT_TIMEOUT"))

    -- The abort after a failed COMMIT has been answered.
    unfoldable pub after_commit_abort :
        Position → String → Call AbortResult → M F W (ControlResponse F)
    after_commit_abort at text a = elim (abort_error a) [
      | some abort_text ↦ respond error "OT_ABORT_FAILED" (actions_for "COMMIT_ERROR")
      | none ↦
          let reason_code =
            if fault "ot_interface_error" then "OT_INTERFACE_ERROR" else "COMMIT_ERROR" in
          do
            _ ← log_evidence tx at "COMMIT_ERROR" (
                dict (
                  ("reason", str text)
                  ∷ ("reason_code", str reason_code)
                  ∷ ("abort_status", str (abort_status a))
                  ∷ ("alternative_actions", arr (actions_for "COMMIT_ERROR"))
                  ∷ []))
            respond error reason_code (actions_for "COMMIT_ERROR")
    ]

    -- The handler of an exception in the COMMIT stage.
    unfoldable pub commit_failed : Position → String → M F W (ControlResponse F)
    commit_failed at text = do a ← send_abort text; after_commit_abort at text a

    unfoldable pub after_commit : Position → Call CommitResult → M F W (ControlResponse F)
    after_commit at (raised text) = commit_failed at text
    after_commit at (http_error n detail) =
        commit_failed at
          (concat ("OT Interface COMMIT returned " ∷ int_text (pos n) ∷ ": " ∷ detail ∷ []))
    after_commit at (ok r) = after_commit_status at r

    abbrev injected : String → String → Option Bool → Call CommitResult
    injected status reason safe = ok (record {
      status = status;
      reason = some reason;
      safe_state_executed = safe;
      executed_at_ms = none;
    })

    unfoldable pub commit_stage : Position → M F W (ControlResponse F)
    commit_stage at =
        if fault "commit_timeout"
        then after_commit at (injected "TIMEOUT" "Injected benchmark commit timeout" none)
        else if fault "commit_failed_recovered"
        then after_commit at
            (injected "EXECUTION_FAILED" "Injected benchmark recovered commit failure" (some true))
        else if fault "ot_interface_error"
        then after_commit at (raised "Injected benchmark OT interface error")
        else (do
          r ←
              call (v.commit tx c.request.asset_id c.request.proof_package.action_sequence)
                (sent_commit tx c.request.asset_id c.request.proof_package.action_sequence)
          after_commit at r)
