-- ===== src/Gateway/Types.antt =====
-- What the gateway receives, what the other services answer (pcag/core/contracts), and what it
-- does.
use pcag.Base.{ℕ, String, Bool, Option, List}
use pcag.Core.Int.{ℤ}
use pcag.Core.Json.{Json, Items, Fields}
use pcag.Core.Integrity.{DivergenceThreshold}
use pcag.Ledger.Repository.{Event}

-- pcag/core/contracts/proof_package.py. `dump` is the whole package as `model_dump` returns it,
-- with the fields below and whatever else it carries.
pub record ProofPackage (F : Type 0) : Type 0 where
  pub schema_version : String
  pub policy_version_id : String
  pub timestamp_ms : ℤ
  pub sensor_snapshot_hash : String
  pub sensor_reliability_index : F
  pub action_sequence : Items F
  pub sensor_snapshot : Option (Fields F)
  pub runtime_context : Option (Json F)
  pub fault_injection : Option (Json F)
  pub dump : Json F

-- pcag/core/contracts/gateway.py
pub record ControlRequest (F : Type 0) : Type 0 where
  pub transaction_id : String
  pub asset_id : String
  pub proof_package : ProofPackage F

pub data ControlStatus : Type 0 where
  committed rejected unsafe aborted error : ControlStatus

-- The `reason` for people is left out.
pub record ControlResponse (F : Type 0) : Type 0 where
  pub transaction_id : String
  pub status : ControlStatus
  pub reason_code : Option String
  pub evidence_ref : Option String
  pub alternative_action : Option (Json F)
  pub alternative_actions : Option (Items F)

-- How an HTTP call ends: an exception of the call or of reading its answer, a status other than
-- 200 with the detail that the gateway takes from the body, or an answer. The text is `str(exc)`.
pub data Call (A : Type 0) : Type 0 where
  raised : String → Call A
  http_error : ℕ → String → Call A
  ok : A → Call A

pub record Snapshot (F : Type 0) : Type 0 where
  pub sensor_snapshot : Json F
  pub sensor_snapshot_hash : String

-- What the gateway reads of a policy's asset profile. An option is a key that may be missing; a
-- threshold is missing if `DivergenceThreshold(**item)` refuses its entry.
pub record AssetProfile (F : Type 0) : Type 0 where
  pub timestamp_max_age_ms : Option ℤ
  pub sensor_divergence_thresholds : List (Option (DivergenceThreshold F))
  pub lock_ttl_ms : Option ℕ
  pub safe_state : Items F

pub record SafetyResult (F : Type 0) : Type 0 where
  pub final_verdict : String
  pub consensus_details : Json F
  pub dump : Json F

-- The `reason` may be missing, or null.
pub record PrepareResult : Type 0 where
  pub status : String
  pub reason : Option (Option String)
  pub lock_expires_at_ms : Option ℕ

pub record CommitResult : Type 0 where
  pub status : String
  pub reason : Option String
  pub safe_state_executed : Option Bool
  pub executed_at_ms : Option ℕ

pub record AbortResult : Type 0 where
  pub status : String
  pub reason : Option String

-- The calls that the gateway has made, each with its answer: a validation with the asset, the
-- policy version, the actions and the sensors, PREPARE with the transaction and the asset, COMMIT
-- also with the actions. `logged` is an event that the ledger
-- has accepted.
pub data Effect (F : Type 0) : Type 0 where
  asked_policy : Call String → Effect F
  asked_snapshot : Call (Snapshot F) → Effect F
  asked_profile : Call (AssetProfile F) → Effect F
  asked_safety : String → String → Items F → Json F → Call (SafetyResult F) → Effect F
  sent_prepare : String → String → Call PrepareResult → Effect F
  sent_commit : String → String → Items F → Call CommitResult → Effect F
  sent_abort : Call AbortResult → Effect F
  logged : Event F → Effect F
  refused : Event F → Effect F

-- The other services, over the state `W` of everything outside the gateway. `now` is
-- `int(time.time() * 1000)`.
pub record Services (F W : Type 0) : Type 0 where
  pub now : W → ℕ × W
  pub active_policy : W → Call String × W
  pub latest_snapshot : String → W → Call (Snapshot F) × W
  pub asset_profile : String → String → W → Call (AssetProfile F) × W
  pub validate :
      String
      → String
      → String
      → Items F
      → Json F
      → Option (Fields F)
      → W
      → Call (SafetyResult F) × W
  pub prepare : String → String → ℕ → W → Call PrepareResult × W
  pub commit : String → String → Items F → W → Call CommitResult × W
  pub abort : String → String → String → W → Call AbortResult × W
  -- `none` if the ledger answers with a status from 200 to 299
  pub append : Event F → W → Option String × W
