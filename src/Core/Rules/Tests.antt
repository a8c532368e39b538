-- ===== src/Core/Rules/Tests.antt =====
-- The rules validator on a drive with a speed limit and a forbidden mode.
use pcag.Core.Rules.Decides.{validate_rules_iff}
use pcag.Core.Rules.Verdicts.{AllSatisfied}
use pcag.Core.Int.{pos}
use pcag.Core.Samples.{naturals}
use pcag.Core.Json.{
  eq_json, lookup, get_nested_value, end, nil, int, null, str, num, field, cons, obj, Items, Json,
}
use pcag.Core.Rules.{
  all_match, look_actions, order, breaks, evaluate_source, action, ne, sensor, eq, lte, ordered,
  threshold, check_rule, forbidden_combination, validate_rules, Rule,
}
use pcag.Base.{◌↔◌, ◌∷◌, refl, ◌≡◌, [], none, some, String, ℕ}

abbrev limit_80 : Rule ℕ
limit_80 = record {
  rule_id = "max_speed";
  type = threshold;
  target_field = "drive.speed";
  operator = some (ordered lte);
  value = num (int (pos 80));
  min = none;
  max = none;
  allowed_values = nil;
  forbidden_pairs = [];
  conditions = [];
}

-- No action in mode "test" while the door is open.
abbrev no_test_open : Rule ℕ
no_test_open = record {
  rule_id = "no_test_open";
  type = forbidden_combination;
  target_field = "";
  operator = none;
  value = null;
  min = none;
  max = none;
  allowed_values = nil;
  forbidden_pairs = [];
  conditions =
      record { field = "mode"; operator = eq; value = str "test" }
      ∷ record { field = "door"; operator = ne; value = str "closed" }
      ∷ [];
}

abbrev snapshot : ℕ → Json ℕ
snapshot n = obj (field "drive" (obj (field "speed" (num (int (pos n))) end)) end)

abbrev in_mode : String → String → Items ℕ
in_mode mode door =
    cons
      (obj (
        field "action_type" (str "set_mode")
          (field "params" (obj (field "mode" (str mode) (field "door" (str door) end))) end)))
      nil

validate_rules_iff_example :
    (validate_rules naturals (snapshot 70) (in_mode "test" "closed") (limit_80 ∷ no_test_open ∷ [])
      ≡ [])
    ↔ AllSatisfied naturals (limit_80 ∷ no_test_open ∷ []) (snapshot 70) (in_mode "test" "closed")
validate_rules_iff_example =
    validate_rules_iff naturals (snapshot 70) (in_mode "test" "closed")
      (limit_80 ∷ no_test_open ∷ [])

satisfied :
    validate_rules naturals (snapshot 70) (in_mode "test" "closed") (limit_80 ∷ no_test_open ∷ [])
    ≡ []
unfolding validate_rules check_rule evaluate_source get_nested_value lookup breaks order
    look_actions all_match eq_json
satisfied = refl

broken :
    validate_rules naturals (snapshot 90) (in_mode "test" "open") (limit_80 ∷ no_test_open ∷ [])
    ≡ record { rule_id = "max_speed"; source = sensor }
      ∷ record { rule_id = "no_test_open"; source = action 0 }
      ∷ []
unfolding validate_rules check_rule evaluate_source get_nested_value lookup breaks order
    look_actions all_match eq_json
broken = refl
