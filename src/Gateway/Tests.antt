-- ===== src/Gateway/Tests.antt =====
-- Runs of the gateway against services that agree to everything.
use pcag.Base.{true, ℕ, ◌≡◌, refl, none, some, []}
use pcag.Core.Int.{pos, ◌-ℤ◌}
use pcag.Core.Json.{str, obj, end, field, null, cons, nil, Json}
use pcag.Core.Samples.{hashing, naturals}
use pcag.Ledger.Repository.{verify_events}
use pcag.Gateway.Types.{
  ControlRequest, ControlResponse, committed, ok, Services, Snapshot, AssetProfile, SafetyResult,
  PrepareResult, CommitResult,
}
use pcag.Gateway.Monad.{done, ◌>>=◌, call, read}
use pcag.Gateway.Helpers.{Context, response, build_divergence_thresholds}
use pcag.Gateway.Commit.{log_evidence, after_commit_status, after_commit, commit_stage}
use pcag.Gateway.Execution.{
  compare_hashes, after_reverify, reverify_stage, after_prepare, prepare_stage,
}
use pcag.Gateway.Pipeline.{
  after_safety, safety_stage, after_integrity, after_profile, after_snapshot, after_policy,
  submit_control_request,
}
use pcag.Core.Integrity.{check_integrity, any_diverges}
use pcag.Gateway.Success.{Agrees, success, agreed-committed}
use pcag.Gateway.Gate.{Guarded, Committed}
use pcag.Gateway.Guarded.{commit-Guarded, committed_acknowledged}
use pcag.Ledger.Store.{Numbered}
use pcag.Gateway.Evidence.{history, evidence_verifies}

abbrev move : Json ℕ
move = obj (field "action_type" (str "move") end)

abbrev request : ControlRequest ℕ
request = record {
  transaction_id = "tx-1";
  asset_id = "reactor_01";
  proof_package = record {
    schema_version = "1.0";
    policy_version_id = "v1";
    timestamp_ms = pos 1000;
    sensor_snapshot_hash = "a1";
    sensor_reliability_index = 1;
    action_sequence = cons move nil;
    sensor_snapshot = none;
    runtime_context = none;
    fault_injection = none;
    dump = null;
  };
}

abbrev snapshot : Snapshot ℕ
snapshot = record { sensor_snapshot = obj end; sensor_snapshot_hash = "a1" }

abbrev profile : AssetProfile ℕ
profile = record {
  timestamp_max_age_ms = none;
  sensor_divergence_thresholds = [];
  lock_ttl_ms = none;
  safe_state = nil;
}

abbrev verdict : SafetyResult ℕ
verdict = record { final_verdict = "SAFE"; consensus_details = null; dump = null }

abbrev granted : PrepareResult
granted = record { status = "LOCK_GRANTED"; reason = none; lock_expires_at_ms = some 6001 }

abbrev acknowledged : CommitResult
acknowledged = record {
  status = "ACK";
  reason = none;
  safe_state_executed = none;
  executed_at_ms = some 1002;
}

abbrev services : Services ℕ ℕ
services = record {
  now = λ w. (1001, w);
  active_policy = λ w. (ok "v1", w);
  latest_snapshot = λ asset w. (ok snapshot, w);
  asset_profile = λ version asset w. (ok profile, w);
  validate = λ tx asset version actions sensors context w. (ok verdict, w);
  prepare = λ tx asset ttl w. (ok granted, w);
  commit = λ tx asset actions w. (ok acknowledged, w);
  abort = λ tx asset reason w. (ok (record { status = "ABORTED"; reason = none }), w);
  append = λ e w. (none, w);
}

abbrev answer : ControlResponse ℕ
answer = response "tx-1" committed none (some "/v1/transactions/tx-1") nil

run_answers : (submit_control_request hashing naturals services request 0 []).0 ≡ done answer
unfolding submit_control_request log_evidence after_policy after_snapshot after_profile
    after_integrity safety_stage after_safety prepare_stage after_prepare reverify_stage
    after_reverify compare_hashes commit_stage after_commit after_commit_status ◌>>=◌ call read
    check_integrity any_diverges build_divergence_thresholds ◌-ℤ◌
run_answers = refl

commit-Guarded_example :
    Guarded hashing naturals services request
      ((submit_control_request hashing naturals services request 0 []).2)
commit-Guarded_example = commit-Guarded hashing naturals services request 0

committed_acknowledged_example :
    (c : Context ℕ) × (c.request ≡ request)
    × Committed hashing naturals services c
        ((submit_control_request hashing naturals services request 0 []).2)
committed_acknowledged_example =
    committed_acknowledged hashing naturals services request 0 answer run_answers refl

evidence_verifies_example :
    (verify_events hashing
        (λ s. none)
        (history ((submit_control_request hashing naturals services request 0 []).2) [])
      ≡ true)
    × Numbered "tx-1" 0
        (history ((submit_control_request hashing naturals services request 0 []).2) [])
evidence_verifies_example = evidence_verifies hashing naturals services (λ s. none) request 0

abbrev context : Context ℕ
context = record {
  request = request;
  active_version = "v1";
  snapshot = snapshot;
  profile = profile;
}

all_agree : Agrees hashing naturals services context verdict granted acknowledged
unfolding check_integrity any_diverges build_divergence_thresholds ◌-ℤ◌
all_agree = record {
  append = λ e w. refl;
  active_policy = λ w. refl;
  latest_snapshot = λ w. refl;
  asset_profile = λ w. refl;
  integrity = λ w. refl;
  validate = λ w. refl;
  is_safe = refl;
  prepare = λ w. refl;
  is_granted = refl;
  commit = λ w. refl;
  is_ack = refl;
  no_fault = λ family. refl;
}

agreed-committed_example :
    (submit_control_request hashing naturals services request 0 []).0
    ≡ done (success hashing naturals services context verdict granted acknowledged all_agree)
agreed-committed_example =
    agreed-committed hashing naturals services context verdict granted acknowledged all_agree 0
