-- ===== src/Core/Tests.antt =====
-- The checks of the core services on small inputs.
use pcag.Base.{ℕ, ◌*◌, ◌≡◌, ◌≢◌, ◌↔◌, refl, true, [], ◌∷◌, none, some, leb, arith, inl, inr}
use pcag.Core.Int.{pos, ◌-ℤ◌}
use pcag.Core.Json.{lookup, Json, num, float, obj, field, end, get_nested_value}
use pcag.Core.Integrity.{
  DivergenceThreshold, Evidence, absolute, check_integrity, diverges, any_diverges,
}
use pcag.Core.Integrity.Window.{Fits, check_integrity_iff}
use pcag.Core.Consensus.{
  safe, unsafe, auto, weighted, fail_closed, renormalize, ConsensusConfig, effective_mode,
  evaluate_weighted, evaluate_consensus, configured, score_of, find,
}
use pcag.Core.Consensus.Modes.{unanimity}
use pcag.Core.Consensus.Monotone.{FloatLaws, NonNegative, weighted_mono}
use pcag.Core.Samples.{naturals, hundredths}

abbrev sensors : ℕ → Json ℕ
sensors t = obj (field "temperature" (num (float t)) end)

abbrev within_5 : DivergenceThreshold ℕ
within_5 = record { sensor_type = "temperature"; method = absolute; max_divergence = float 5 }

abbrev evidence : Evidence ℕ
evidence = record {
  proof_policy_version = "v1";
  active_policy_version = "v1";
  proof_timestamp_ms = pos 1000;
  timestamp_max_age_ms = pos 500;
  proof_sensor_snapshot = sensors 100;
  current_sensor_snapshot = sensors 103;
  divergence_thresholds = within_5 ∷ [];
  proof_sensor_snapshot_hash = some "a1";
  current_sensor_snapshot_hash = some "a1";
}

check_integrity_iff_example :
    (check_integrity naturals evidence (pos 1200) ≡ none) ↔ Fits naturals evidence (pos 1200)
check_integrity_iff_example = check_integrity_iff naturals evidence (pos 1200)

accepted : check_integrity naturals evidence (pos 1200) ≡ none
unfolding check_integrity any_diverges diverges get_nested_value ◌-ℤ◌ lookup
accepted = refl

mul_zero : (w : ℕ) → leb (w * 0) (w * 1) ≡ true
mul_zero w = ground arith

hundredths_laws : FloatLaws hundredths
hundredths_laws = record {
  leb_refl = λ a. ground arith;
  leb_trans = λ a b c h k. ground arith;
  add_mono = λ a b c d h k. ground arith;
  mul_mono = λ w h. mul_zero w;
}

abbrev config : ConsensusConfig ℕ
config = record {
  mode = auto;
  weights = none;
  threshold = none;
  on_sim_indeterminate = fail_closed;
}

not_weighted : effective_mode 3 config.mode ≢ weighted
unfolding effective_mode
not_weighted e = cc

not_renormalized : config.on_sim_indeterminate ≢ renormalize
not_renormalized e = cc

unanimity_example :
    ((evaluate_consensus hundredths 3 config safe safe unsafe).final_verdict ≡ safe)
    ↔ ((safe ≡ safe) × (safe ≡ safe) × (unsafe ≡ safe))
unanimity_example = unanimity hundredths 3 config safe safe unsafe not_weighted

configured-NonNegative :
    NonNegative hundredths hundredths_laws (configured hundredths config.weights)
unfolding configured
configured-NonNegative = (refl, (refl, (refl, tt)))

passes : (evaluate_weighted hundredths config safe unsafe safe).final_verdict ≡ safe
unfolding evaluate_weighted score_of find configured
passes = refl

weighted_mono_example : (evaluate_weighted hundredths config safe safe safe).final_verdict ≡ safe
weighted_mono_example =
    weighted_mono hundredths hundredths_laws config safe unsafe safe safe safe safe
      (inl not_renormalized) configured-NonNegative (inl refl) (inr refl) (inl refl) passes
