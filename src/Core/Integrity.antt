-- ===== src/Core/Integrity.antt =====
-- pcag/core/services/integrity_service.py: whether a proof package still fits the active policy,
-- the clock and the plant.
pub mod Window
use pcag.Base.{
  ℕ, String, Bool, true, false, not, Option, none, some, List, [], ◌∷◌, str_eq, if◌then◌else◌,
}
use pcag.Core.Int.{ℤ, pos, negsuc, ◌-ℤ◌, ltb_ℤ}
use pcag.Core.Json.{Number, int, Json, null, Arith, number_of, eq_json, get_nested_value}

pub data Method : Type 0 where
  absolute percentage : Method

pub record DivergenceThreshold (F : Type 0) : Type 0 where
  pub sensor_type : String
  pub method : Method
  pub max_divergence : Number F

-- The codes INTEGRITY_POLICY_MISMATCH, …, INTEGRITY_SENSOR_DIVERGENCE.
pub data Violation : Type 0 where
  policy_mismatch sensor_hash_mismatch timestamp_expired timestamp_future sensor_divergence :
      Violation

-- The arguments of `check_integrity`.
pub record Evidence (F : Type 0) : Type 0 where
  pub proof_policy_version : String
  pub active_policy_version : String
  pub proof_timestamp_ms : ℤ
  pub timestamp_max_age_ms : ℤ
  pub proof_sensor_snapshot : Json F
  pub current_sensor_snapshot : Json F
  pub divergence_thresholds : List (DivergenceThreshold F)
  pub proof_sensor_snapshot_hash : Option String
  pub current_sensor_snapshot_hash : Option String

abbrev pub is_null : {F : Type 0} → Json F → Bool
is_null null = true
is_null _ = false

-- Both hashes are there, and differ.
abbrev pub hashes_differ : Option String → Option String → Bool
hashes_differ (some p) (some c) = not (str_eq p c)
hashes_differ _ _ = false

module _ {F : Type 0} (arith : Arith F) where
  abbrev pub numbers_diverge : DivergenceThreshold F → Number F → Number F → Bool
  numbers_diverge t proof current =
      let diff = arith.abs (arith.sub current proof) in
      elim t.method [
        | absolute ↦ arith.ltb t.max_divergence diff
        | percentage ↦
            if arith.eqb proof (int (pos 0))
            then arith.ltb (int (pos 0)) diff
            else arith.ltb t.max_divergence
                (arith.mul (arith.div diff (arith.abs proof)) arith.hundred)
      ]

  abbrev pub values_diverge :
      DivergenceThreshold F → Json F → Json F → Option (Number F) → Option (Number F) → Bool
  values_diverge t proof current (some p) (some c) = numbers_diverge t p c
  values_diverge t proof current _ _ = not (eq_json arith proof current)

  -- One round of the loop over the thresholds.
  unfoldable pub diverges : Json F → Json F → DivergenceThreshold F → Bool
  diverges proof_snapshot current_snapshot t =
      let proof = get_nested_value proof_snapshot t.sensor_type in
      let current = get_nested_value current_snapshot t.sensor_type in
      if is_null proof
      then true
      else if is_null current
      then true
      else values_diverge t proof current (number_of proof) (number_of current)

  unfoldable pub any_diverges : Json F → Json F → List (DivergenceThreshold F) → Bool
  any_diverges proof current [] = false
  any_diverges proof current (t ∷ ts) =
      if diverges proof current t then true else any_diverges proof current ts

  -- `none` is the answer `(True, None)`.
  unfoldable pub check_integrity : Evidence F → ℤ → Option Violation
  check_integrity e now =
      let age = now -ℤ e.proof_timestamp_ms in
      if not (str_eq e.proof_policy_version e.active_policy_version)
      then some policy_mismatch
      else if hashes_differ e.proof_sensor_snapshot_hash e.current_sensor_snapshot_hash
      then some sensor_hash_mismatch
      else if ltb_ℤ e.timestamp_max_age_ms age
      then some timestamp_expired
      else if ltb_ℤ age (negsuc 4999)
      then some timestamp_future
      else if any_diverges e.proof_sensor_snapshot e.current_sensor_snapshot e.divergence_thresholds
      then some sensor_divergence
      else none
