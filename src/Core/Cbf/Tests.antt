-- ===== src/Core/Cbf/Tests.antt =====
-- The CBF validator on a drive whose speed must stay within a limit.
use pcag.Core.Samples.{signed, limits, laws}
use pcag.Core.Rules.{lte, ordered, threshold, Rule}
use pcag.Core.Json.{
  put_field, eq_json, lookup, split_dots, nil, end, str, float, int, field, obj, within, eq_items,
  num, Fields,
}
use pcag.Core.Cbf.Margins.{validate_safety-AllKept, KeptAlong, AllKept}
use pcag.Core.Cbf.{
  scan, account, put_barrier, min_number, min_from, create_projected_state, set_parts, merge,
  walk_state, state_value, margin, add_barriers, compute_barriers, CbfAction, validate_safety,
  StateMapping, CbfResult,
}
use pcag.Core.Int.{pos}
use pcag.Core.Consensus.{safe}
use pcag.Base.{◌∷◌, refl, ◌≡◌, [], some, none, Option, ℕ}

abbrev speed_at_most : ℕ → Rule ℕ
speed_at_most n = record {
  rule_id = "max_speed";
  type = threshold;
  target_field = "drive.speed";
  operator = some (ordered lte);
  value = num (int (pos n));
  min = none;
  max = none;
  allowed_values = nil;
  forbidden_pairs = [];
  conditions = [];
}

abbrev drive : ℕ → Fields ℕ
drive n = field "drive" (obj (field "speed" (num (int (pos n))) end)) end

abbrev set_speed : ℕ → CbfAction ℕ
set_speed n = record {
  action_type = str "set_speed";
  params = obj (field "value" (num (int (pos n))) end);
}

abbrev speed_mapping : StateMapping
speed_mapping = record {
  action_type = some "set_speed";
  param = "value";
  maps_to_field = "drive.speed";
}

abbrev run : ℕ → Option (CbfResult ℕ)
run n =
    validate_safety signed limits (drive 40) (set_speed 60 ∷ set_speed n ∷ [])
      (speed_at_most 100 ∷ []) (speed_mapping ∷ [])

abbrev ran : CbfResult ℕ
ran = record {
  verdict = safe;
  min_barrier = float 21;
  first_violation_step = none;
  barrier_values =
      (("max_speed", float 21) ∷ [])
      ∷ (("max_speed", float 41) ∷ [])
      ∷ (("max_speed", float 61) ∷ [])
      ∷ [];
}

run_80 : run 80 ≡ some ran
unfolding validate_safety compute_barriers add_barriers margin state_value walk_state split_dots
    lookup put_field merge set_parts create_projected_state min_from min_number put_barrier account
    scan eq_json eq_items within
run_80 = refl

validate_safety-AllKept_example :
    AllKept signed limits laws (obj (drive 40)) (speed_at_most 100 ∷ [])
    × KeptAlong signed limits laws
        (speed_at_most 100 ∷ [])
        (speed_mapping ∷ [])
        (set_speed 60 ∷ set_speed 80 ∷ [])
        (drive 40)
validate_safety-AllKept_example =
    validate_safety-AllKept signed limits laws (drive 40) (set_speed 60 ∷ set_speed 80 ∷ [])
      (speed_at_most 100 ∷ []) (speed_mapping ∷ []) ran (tt, tt) run_80 refl
