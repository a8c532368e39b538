-- ===== src/Gateway/Pipeline.antt =====
-- `submit_control_request` of pcag/apps/gateway/routes.py up to the safety stage, the last stage
-- first; Execution.antt and Commit.antt have the rest. Logging and the texts for people are left
-- out.
use pcag.Base.{String, Option, none, some, List, [], ◌∷◌, str_eq, if◌then◌else◌}
use pcag.Core.Int.{pos}
use pcag.Core.Json.{Number, Items, Fields, Arith, str, bool, num, arr, obj, nil, cons, end, field}
use pcag.Core.Hash.{Hashing, genesis_hash, compute_sensor_hash}
use pcag.Core.Integrity.{DivergenceThreshold, Violation, Evidence, check_integrity}
use pcag.Core.AlternativeAction.{generate_alternative_actions}
use pcag.Gateway.Types.{
  ControlRequest, rejected, unsafe, error, ControlResponse, Call, raised, http_error, ok, Snapshot,
  AssetProfile, SafetyResult, asked_policy, asked_snapshot, asked_profile, asked_safety, Services,
}
use pcag.Gateway.Monad.{M, pure, ◌>>=◌, call, read}
use pcag.Gateway.Helpers.{
  Position, dict, code_of, extract_runtime_context, build_divergence_thresholds, or_default,
  response, Context,
}
use pcag.Gateway.Commit.{log_evidence}
use pcag.Gateway.Execution.{prepare_stage}

module _ {F W : Type 0} (h : Hashing F) (arith : Arith F) (v : Services F W) where
  unfoldable pub after_safety :
      Context F → Position → Call (SafetyResult F) → M F W (ControlResponse F)
  after_safety c at (raised text) =
      pure (response c.request.transaction_id error (some "SAFETY_CLUSTER_UNREACHABLE") none nil)
  after_safety c at (http_error n detail) =
      pure (response c.request.transaction_id error (some "SAFETY_CLUSTER_ERROR") none nil)
  after_safety c at (ok r) =
      if str_eq r.final_verdict "SAFE"
      then (do
        at' ←
            log_evidence h v c.request.transaction_id at "SAFETY_PASSED"
              (dict (("verdict", str "SAFE") ∷ ("consensus", r.consensus_details) ∷ []))
        prepare_stage h v c at')
      else (do
        _ ← log_evidence h v c.request.transaction_id at "SAFETY_UNSAFE" (
            dict (
              ("verdict", str r.final_verdict)
              ∷ ("details", r.dump)
              ∷ (
                "alternative_actions",
                arr (generate_alternative_actions c.profile.safe_state "SAFETY_UNSAFE"),
              )
              ∷ []))
        pure (
            response c.request.transaction_id unsafe (some "SAFETY_UNSAFE") none
              (generate_alternative_actions c.profile.safe_state "SAFETY_UNSAFE")))

  unfoldable pub safety_stage : Context F → Position → M F W (ControlResponse F)
  safety_stage c at = do
    r ←
        call
          (v.validate c.request.transaction_id c.request.asset_id c.active_version
            c.request.proof_package.action_sequence c.snapshot.sensor_snapshot
            (extract_runtime_context c.request.proof_package.runtime_context))
          (asked_safety c.request.asset_id c.active_version c.request.proof_package.action_sequence
            c.snapshot.sensor_snapshot)
    after_safety c at r

  -- `proof.get("sensor_snapshot") or {}`, and the thresholds that apply with it.
  abbrev proof_snapshot : Option (Fields F) → Fields F
  proof_snapshot none = end
  proof_snapshot (some fs) = fs

  abbrev thresholds_for :
      Option (Fields F) → List (DivergenceThreshold F) → List (DivergenceThreshold F)
  thresholds_for none ts = []
  thresholds_for (some end) ts = []
  thresholds_for (some (field k x fs)) ts = ts

  -- The arguments of `check_integrity`.
  abbrev pub evidence_of : Context F → Evidence F
  evidence_of c = record {
    proof_policy_version = c.request.proof_package.policy_version_id;
    active_policy_version = c.active_version;
    proof_timestamp_ms = c.request.proof_package.timestamp_ms;
    timestamp_max_age_ms = or_default (pos 5000) c.profile.timestamp_max_age_ms;
    proof_sensor_snapshot = obj (proof_snapshot c.request.proof_package.sensor_snapshot);
    current_sensor_snapshot = c.snapshot.sensor_snapshot;
    divergence_thresholds =
        thresholds_for c.request.proof_package.sensor_snapshot
          (build_divergence_thresholds c.profile.sensor_divergence_thresholds);
    proof_sensor_snapshot_hash = some c.request.proof_package.sensor_snapshot_hash;
    current_sensor_snapshot_hash = some c.snapshot.sensor_snapshot_hash;
  }

  -- `check_integrity` has answered.
  unfoldable pub after_integrity :
      Context F → Position → Option Violation → M F W (ControlResponse F)
  after_integrity c at (some violation) = do
    _ ← log_evidence h v c.request.transaction_id at "INTEGRITY_REJECTED" (
        dict (
          ("reason", str (code_of violation))
          ∷ ("policy_version", str c.active_version)
          ∷ ("sensor_hash", str c.snapshot.sensor_snapshot_hash)
          ∷ (
            "sensor_hash_match",
            bool (
                str_eq c.request.proof_package.sensor_snapshot_hash
                  c.snapshot.sensor_snapshot_hash),
          )
          ∷ []))
    pure (response c.request.transaction_id rejected (some (code_of violation)) none nil)
  after_integrity c at none = do
    at' ← log_evidence h v c.request.transaction_id at "INTEGRITY_PASSED" (
        dict (
          ("policy_version", str c.active_version)
          ∷ ("sensor_hash", str c.snapshot.sensor_snapshot_hash)
          ∷ (
            "sensor_hash_match",
            bool (
                str_eq c.request.proof_package.sensor_snapshot_hash
                  c.snapshot.sensor_snapshot_hash),
          )
          ∷ (
            "sensor_reliability_index",
            num (Number.float c.request.proof_package.sensor_reliability_index),
          )
          ∷ (
            "timestamp_max_age_ms",
            num (Number.int (or_default (pos 5000) c.profile.timestamp_max_age_ms)),
          )
          ∷ []))
    safety_stage c at'

  unfoldable pub after_profile :
      ControlRequest F
      → Position
      → String
      → Snapshot F
      → Call (AssetProfile F)
      → M F W (ControlResponse F)
  after_profile q at version s (raised text) =
      pure (response q.transaction_id error (some "POLICY_STORE_ERROR") none nil)
  after_profile q at version s (http_error n detail) =
      pure (response q.transaction_id error (some "POLICY_STORE_ERROR") none nil)
  after_profile q at version s (ok p) =
      let c : Context F = record {
        request = q;
        active_version = version;
        snapshot = s;
        profile = p;
      } in
      do now ← read v.now; after_integrity c at (check_integrity arith (evidence_of c) (pos now))

  unfoldable pub after_snapshot :
      ControlRequest F → Position → String → Call (Snapshot F) → M F W (ControlResponse F)
  after_snapshot q at version (raised text) =
      pure (response q.transaction_id error (some "SENSOR_GATEWAY_ERROR") none nil)
  after_snapshot q at version (http_error n detail) =
      pure (response q.transaction_id error (some "SENSOR_GATEWAY_ERROR") none nil)
  after_snapshot q at version (ok s) = do
    p ← call (v.asset_profile version q.asset_id) asked_profile
    after_profile q at version s p

  unfoldable pub after_policy :
      ControlRequest F → Position → Call String → M F W (ControlResponse F)
  after_policy q at (raised text) =
      pure (response q.transaction_id error (some "POLICY_STORE_UNREACHABLE") none nil)
  after_policy q at (http_error n detail) =
      pure (response q.transaction_id error (some "POLICY_STORE_ERROR") none nil)
  after_policy q at (ok version) = do
    s ← call (v.latest_snapshot q.asset_id) asked_snapshot
    after_snapshot q at version s

  abbrev required_fields : Items F
  required_fields = cons (str "schema_version") (
      cons (str "policy_version_id") (
        cons (str "timestamp_ms") (
          cons (str "sensor_snapshot_hash") (
            cons (str "sensor_reliability_index")
              (cons (str "action_sequence") (cons (str "safety_verification_summary") nil))))))

  abbrev pub start : Position
  start = record { seq = 0; prev_hash = genesis_hash h }

  unfoldable pub submit_control_request : ControlRequest F → M F W (ControlResponse F)
  submit_control_request q = do
    at ← log_evidence h v q.transaction_id start "RECEIVED" (
        dict (
          ("proof_package_hash", str (compute_sensor_hash h q.proof_package.dump))
          ∷ ("schema_version", str q.proof_package.schema_version)
          ∷ ("policy_version_id", str q.proof_package.policy_version_id)
          ∷ []))
    at' ←
        log_evidence h v q.transaction_id at "SCHEMA_VALIDATED"
          (dict (("fields_checked", arr required_fields) ∷ []))
    policy ← call v.active_policy asked_policy
    after_policy q at' policy
