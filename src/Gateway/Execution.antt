-- ===== src/Gateway/Execution.antt =====
-- The stages PREPARE and REVERIFY of `submit_control_request` (pcag/apps/gateway/routes.py), the
-- last stage first; Commit.antt has what follows. Logging and the texts for people are left out.
use pcag.Base.{ℕ, String, none, some, [], ◌∷◌, str_eq, if◌then◌else◌}
use pcag.Core.Int.{pos}
use pcag.Core.Text.{concat, int_text}
use pcag.Core.Json.{Fields, str, arr, nil}
use pcag.Core.Hash.{Hashing}
use pcag.Gateway.Types.{
  aborted, error, ControlResponse, Call, raised, http_error, ok, Snapshot, PrepareResult,
  AbortResult, asked_snapshot, sent_prepare, Services,
}
use pcag.Gateway.Monad.{M, raise, ◌>>=◌, call}
use pcag.Gateway.Helpers.{
  Position, or_unknown, number, number_or_null, dict, force_hash_mismatch, abort_error,
  abort_status, or_default, Context,
}
use pcag.Gateway.Commit.{log_evidence, commit_stage, actions_for, fault, respond, send_abort}

module _ {F W : Type 0} (h : Hashing F) (v : Services F W) (c : Context F) where
  -- The abort after a failed reverification has been answered, and what is then logged.
  unfoldable pub after_reverify_abort :
      Position → String → Fields F → Call AbortResult → M F W (ControlResponse F)
  after_reverify_abort at code payload a = elim (abort_error a) [
    | some abort_text ↦ respond h v c error "OT_ABORT_FAILED" (actions_for h v c code)
    | none ↦ do
      _ ← log_evidence h v c.request.transaction_id at "REVERIFY_FAILED" payload
      respond h v c aborted code (actions_for h v c code)
  ]

  unfoldable pub reverify_failed : Position → String → M F W (ControlResponse F)
  reverify_failed at text = do
    a ← send_abort h v c (concat ("TOCTOU reverify failed: " ∷ text ∷ []))
    after_reverify_abort at "TOCTOU_REVERIFY_FAILED"
        (dict (
          ("error", str text)
          ∷ ("abort_status", str (abort_status a))
          ∷ ("alternative_actions", arr (actions_for h v c "TOCTOU_REVERIFY_FAILED"))
          ∷ []))
        a

  abbrev pub reverify_hash : Snapshot F → String
  reverify_hash s =
      if fault h v c "reverify_hash_mismatch"
      then force_hash_mismatch c.snapshot.sensor_snapshot_hash
      else s.sensor_snapshot_hash

  unfoldable pub compare_hashes : Position → String → M F W (ControlResponse F)
  compare_hashes at hash =
      let original = c.snapshot.sensor_snapshot_hash in
      if str_eq hash original
      then (do
        at' ←
            log_evidence h v c.request.transaction_id at "REVERIFY_PASSED"
              (dict (("original_hash", str original) ∷ ("reverify_hash", str hash) ∷ []))
        commit_stage h v c at')
      else (do
        a ← send_abort h v c (
            concat
              ("TOCTOU reverify hash mismatch: original=" ∷ original ∷ ", reverify=" ∷ hash ∷ []))
        after_reverify_abort at "REVERIFY_HASH_MISMATCH"
            (dict (
              ("reason", str "REVERIFY_HASH_MISMATCH")
              ∷ ("original_hash", str original)
              ∷ ("reverify_hash", str hash)
              ∷ ("abort_status", str (abort_status a))
              ∷ ("alternative_actions", arr (actions_for h v c "REVERIFY_HASH_MISMATCH"))
              ∷ []))
            a)

  unfoldable pub after_reverify : Position → Call (Snapshot F) → M F W (ControlResponse F)
  after_reverify at (raised text) = reverify_failed at text
  after_reverify at (http_error n detail) =
      reverify_failed at
        (concat ("Sensor Gateway returned " ∷ int_text (pos n) ∷ ": " ∷ detail ∷ []))
  after_reverify at (ok s) = compare_hashes at (reverify_hash s)

  unfoldable pub reverify_stage : Position → M F W (ControlResponse F)
  reverify_stage at = do
    s ← call (v.latest_snapshot c.request.asset_id) asked_snapshot
    after_reverify at s

  abbrev pub lock_ttl : ℕ
  lock_ttl = or_default 5000 c.profile.lock_ttl_ms

  -- An error response of PREPARE has no status: its reading raises.
  unfoldable pub after_prepare : Position → Call PrepareResult → M F W (ControlResponse F)
  after_prepare at (raised text) = respond h v c error "OT_INTERFACE_UNREACHABLE" nil
  after_prepare at (http_error n detail) = raise "'status'"
  after_prepare at (ok r) =
      if str_eq r.status "LOCK_GRANTED"
      then (do
        at' ← log_evidence h v c.request.transaction_id at "PREPARE_LOCK_GRANTED" (
            dict (
              ("lock_expires_at_ms", number_or_null r.lock_expires_at_ms)
              ∷ ("lock_ttl_ms", number lock_ttl)
              ∷ []))
        reverify_stage at')
      else (do
        _ ← log_evidence h v c.request.transaction_id at "PREPARE_LOCK_DENIED" (
            dict (
              ("reason", or_unknown r.reason)
              ∷ ("alternative_actions", arr (actions_for h v c "LOCK_DENIED"))
              ∷ []))
        respond h v c aborted "LOCK_DENIED" (actions_for h v c "LOCK_DENIED"))

  unfoldable pub prepare_stage : Position → M F W (ControlResponse F)
  prepare_stage at =
      if fault h v c "lock_denied"
      then after_prepare at (
          ok (record {
            status = "LOCK_DENIED";
            reason = some (some "Injected benchmark lock denial");
            lock_expires_at_ms = none;
          }))
      else (do
        r ←
            call (v.prepare c.request.transaction_id c.request.asset_id lock_ttl)
              (sent_prepare c.request.transaction_id c.request.asset_id)
        after_prepare at r)
