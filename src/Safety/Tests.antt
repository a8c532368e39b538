-- ===== src/Safety/Tests.antt =====
-- The Safety Cluster on a drive with a speed limit.
use pcag.Core.Int.{pos}
use pcag.Core.Samples.{laws, hundredths, limits, signed}
use pcag.Safety.Accepts.{run_safety_validation-Accepted, Accepted}
use pcag.Core.Consensus.{evaluate_consensus, unsafe, all_of, weighted, safe, effective_mode}
use pcag.Core.Cbf.{
  put_barrier, min_number, min_from, merge, account, set_parts, create_projected_state, scan,
  walk_state, state_value, margin, add_barriers, compute_barriers, validate_safety, StateMapping,
}
use pcag.Core.Rules.{
  validate_rules, order, look_actions, evaluate_source, check_rule, breaks, any_pair, all_match,
  lte, ordered, threshold, Rule,
}
use pcag.Safety.{
  items_of, run_simulation_validator, cbf_actions, build_ruleset, member, consensus_mode,
  all_listed, run_validators, SafetyResult, run_safety_validation, Backends, all_allowed,
  AssetPolicy,
}
use pcag.Core.Json.{
  walk, get_nested_value, put_field, eq_json, split_dots, int, lookup, num, obj, str, field, cons,
  Fields, nil, end,
}
use pcag.Base.{ℕ, ◌≡◌, ◌≢◌, refl, true, none, some, [], ◌∷◌}

abbrev speed_at_most : ℕ → Rule ℕ
speed_at_most n = record {
  rule_id = "max_speed";
  type = threshold;
  target_field = "drive.speed";
  operator = some (ordered lte);
  value = num (int (pos n));
  min = none;
  max = none;
  allowed_values = nil;
  forbidden_pairs = [];
  conditions = [];
}

-- Every dictionary is read as this rule.
abbrev backends : Backends ℕ
backends = record {
  configure = λ config. some config;
  ode = λ config state as' rules. none;
  discrete_event = λ config state as' rules. some safe;
  isaac = none;
  parse_rule = λ item. some (speed_at_most 100);
}

abbrev policy : AssetPolicy ℕ
policy = record {
  allowed_action_types = "set_speed" ∷ [];
  sil_level = 3;
  consensus = record { mode = none; weights = none; threshold = none; on_sim_indeterminate = none };
  ruleset_raw = cons (obj end) nil;
  simulation = field "engine" (str "discrete_event") end;
}

abbrev drive : ℕ → Fields ℕ
drive n = field "drive" (obj (field "speed" (num (int (pos n))) end)) end

abbrev set_speed : ℕ → Fields ℕ
set_speed n =
    field "action_type" (str "set_speed")
      (field "params" (obj (field "value" (num (int (pos n))) end)) end)

abbrev speed_mapping : StateMapping
speed_mapping = record {
  action_type = some "set_speed";
  param = "value";
  maps_to_field = "drive.speed";
}

abbrev accepted : SafetyResult ℕ
accepted = record {
  final_verdict = safe;
  consensus = some (record {
    final_verdict = safe;
    mode_used = some all_of;
    weights_used = none;
    score = some 1;
    threshold = none;
  });
}

run_60 :
    run_safety_validation signed limits hundredths backends policy
      (speed_mapping ∷ [])
      (drive 40)
      (set_speed 60 ∷ [])
    ≡ some accepted
unfolding run_safety_validation run_validators all_listed member lookup build_ruleset
    validate_safety compute_barriers add_barriers margin state_value walk_state split_dots scan
    cbf_actions create_projected_state eq_json set_parts put_field run_simulation_validator
    evaluate_consensus account merge min_from min_number put_barrier effective_mode get_nested_value
    walk all_match any_pair breaks check_rule evaluate_source look_actions order validate_rules
    items_of
run_60 = refl

forbidden :
    run_safety_validation signed limits hundredths backends policy
      (speed_mapping ∷ [])
      (drive 40)
      (field "action_type" (str "reset") end ∷ [])
    ≡ some (record { final_verdict = unsafe; consensus = none })
unfolding run_safety_validation all_listed member lookup
forbidden = refl

not_weighted : effective_mode 3 (consensus_mode policy.consensus.mode) ≢ weighted
unfolding effective_mode
not_weighted e = cc

run_safety_validation-Accepted_example :
    (all_allowed policy.allowed_action_types (set_speed 60 ∷ []) ≡ true)
    × Accepted signed limits hundredths laws backends policy
        (speed_mapping ∷ [])
        (drive 40)
        (set_speed 60 ∷ [])
run_safety_validation-Accepted_example =
    run_safety_validation-Accepted signed limits hundredths laws backends policy
      (speed_mapping ∷ []) (drive 40) (set_speed 60 ∷ []) accepted run_60 refl not_weighted
