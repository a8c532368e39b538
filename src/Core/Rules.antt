-- ===== src/Core/Rules.antt =====
-- pcag/core/services/rules_validator.py, with `Rule` and `RuleCondition` of
-- pcag/core/models/common.py. The reasons for people are left out.
pub mod Verdicts
pub mod Decides
mod Tests
use Prim.Native.String.{compare}
use Prim.Native.Nat.{Ordering}
use pcag.Base.{
  ℕ, ◌+◌, String, Bool, true, false, not, ◌&&◌, ◌||◌, Option, none, some, List, [], ◌∷◌, ◌++◌,
  if◌then◌else◌,
}
use pcag.Core.Json.{
  Number, Json, Items, Fields, Arith, null, bool, num, str, arr, obj, nil, cons, lookup, number_of,
  eq_json, get_nested_value,
}
use pcag.Core.Integrity.{is_null}

-- The comparisons of Python that may raise TypeError.
pub data Order : Type 0 where
  lt lte gt gte : Order

pub data Operator : Type 0 where
  ordered : Order → Operator
  eq ne : Operator

pub data RuleType : Type 0 where
  threshold range enum forbidden_combination : RuleType

pub record RuleCondition (F : Type 0) : Type 0 where
  pub field : String
  pub operator : Operator
  pub value : Json F

-- A missing `value` is null; missing lists are empty, since the code tests only whether they are.
pub record Rule (F : Type 0) : Type 0 where
  pub rule_id : String
  pub type : RuleType
  pub target_field : String
  pub operator : Option Operator
  pub value : Json F
  pub min : Option (Number F)
  pub max : Option (Number F)
  pub allowed_values : Items F
  pub forbidden_pairs : List (Items F)
  pub conditions : List (RuleCondition F)

-- Where a rule is broken: "Sensor", "Action[i]", "Action[i].Field", or a field that no source has.
pub data Source : Type 0 where
  sensor missing : Source
  action action_field : ℕ → Source

pub record RuleViolation : Type 0 where
  pub rule_id : String
  pub source : Source

abbrev by_ordering : Order → Ordering → Bool
by_ordering lt Ordering.lt = true
by_ordering lt _ = false
by_ordering lte Ordering.gt = false
by_ordering lte _ = true
by_ordering gt Ordering.gt = true
by_ordering gt _ = false
by_ordering gte Ordering.lt = false
by_ordering gte _ = true

module _ {F : Type 0} (arith : Arith F) where
  abbrev order_numbers : Order → Number F → Number F → Bool
  order_numbers lt a b = arith.ltb a b
  order_numbers lte a b = arith.leb a b
  order_numbers gt a b = arith.ltb b a
  order_numbers gte a b = arith.leb b a

  -- Two numbers, or a TypeError.
  abbrev order_maybe : Order → Option (Number F) → Option (Number F) → Option Bool
  order_maybe o (some a) (some b) = some (order_numbers o a b)
  order_maybe o _ _ = none

  -- `a < b` and so on: numbers and Booleans, texts by code points, lists by their first difference.
  unfoldable mutual
    pub order : Order → Json F → Json F → Option Bool
    order o (str s) (str t) = some (by_ordering o (compare s t))
    order o (str s) _ = none
    order o (arr xs) (arr ys) = order_items o xs ys
    order o (arr xs) _ = none
    order o (obj fs) b = none
    order o null b = none
    order o (bool a) b = order_maybe o (number_of (bool a)) (number_of b)
    order o (num a) b = order_maybe o (some a) (number_of b)

    pub order_items : Order → Items F → Items F → Option Bool
    order_items o nil nil = some (by_ordering o Ordering.eq)
    order_items o nil (cons y ys) = some (by_ordering o Ordering.lt)
    order_items o (cons x xs) nil = some (by_ordering o Ordering.gt)
    order_items o (cons x xs) (cons y ys) =
        let rest = order_items o xs ys in
        let here = order o x y in if eq_json arith x y then rest else here

  abbrev holds : Option Bool → Bool
  holds (some true) = true
  holds _ = false

  -- `_compare_values` finds a reason; a TypeError is one.
  abbrev pub mismatches : Json F → Operator → Json F → Bool
  mismatches actual (ordered o) expected = not (holds (order o actual expected))
  mismatches actual eq expected = not (eq_json arith actual expected)
  mismatches actual ne expected = eq_json arith actual expected

  -- `value in items`
  unfoldable pub contains : Json F → Items F → Bool
  contains v nil = false
  contains v (cons x xs) = if eq_json arith v x then true else contains v xs

  -- `all(item in value for item in pair)`
  unfoldable pub contains_all : Items F → Items F → Bool
  contains_all value nil = true
  contains_all value (cons x xs) = contains x value && contains_all value xs

  abbrev pub breaks_bound : Order → Json F → Option (Number F) → Bool
  breaks_bound o value none = false
  breaks_bound o value (some m) = elim (order o value (num m)) [ some false ↦ false | _ ↦ true ]

  abbrev pair_matches : Json F → Items F → Bool
  pair_matches (arr xs) pair = eq_json arith (arr xs) (arr pair) || contains_all xs pair
  pair_matches value pair = eq_json arith value (arr pair)

  unfoldable pub any_pair : Json F → List (Items F) → Bool
  any_pair value [] = false
  any_pair value (p ∷ ps) = if pair_matches value p then true else any_pair value ps

  -- `_check_rule_logic` on a value, less the branch on conditions, finds a reason.
  abbrev pub breaks_as : RuleType → Rule F → Json F → Bool
  breaks_as threshold r value =
      mismatches value (elim r.operator [ none ↦ eq | some op ↦ op ]) r.value
  breaks_as range r value = breaks_bound lt value r.min || breaks_bound gt value r.max
  breaks_as enum r value = not (contains value r.allowed_values)
  breaks_as forbidden_combination r value = any_pair value r.forbidden_pairs

  unfoldable pub breaks : Rule F → Json F → Bool
  breaks r value = breaks_as r.type r value

  -- The loop over the conditions ends with none that fails.
  unfoldable pub all_match : List (RuleCondition F) → Json F → Bool
  all_match [] source = true
  all_match (c ∷ cs) source =
      let actual = get_nested_value source c.field in
      let rest = all_match cs source in
      if is_null actual then false else if mismatches actual c.operator c.value then false else rest

  abbrev pub is_forbidden : RuleType → Bool
  is_forbidden forbidden_combination = true
  is_forbidden _ = false

  abbrev non_empty : List (RuleCondition F) → Bool
  non_empty [] = false
  non_empty (c ∷ cs) = true

  -- `rule.type == RuleType.FORBIDDEN_COMBINATION and rule.conditions`
  abbrev pub has_conditions : Rule F → Bool
  has_conditions r = is_forbidden r.type && non_empty r.conditions

  abbrev report : Rule F → Source → Bool → List RuleViolation
  report r source true = record { rule_id = r.rule_id; source = source } ∷ []
  report r source false = []

  unfoldable pub evaluate_source : Rule F → Source → Json F → List RuleViolation
  evaluate_source r source data_of =
      if has_conditions r
      then report r source (all_match r.conditions data_of)
      else (if is_null (get_nested_value data_of r.target_field)
          then []
          else report r source (breaks r (get_nested_value data_of r.target_field)))

  abbrev pub is_empty : List RuleViolation → Bool
  is_empty [] = true
  is_empty (v ∷ vs) = false

  -- What one source adds to the violations and to `found_any_source`; `exempt` is the second
  -- condition of the `elif`.
  abbrev pub look : Rule F → Source → Json F → Bool → List RuleViolation × Bool
  look r source data_of exempt =
      let vs = evaluate_source r source data_of in
      (vs, not (is_empty vs) || (not (is_null (get_nested_value data_of r.target_field)) || exempt))

  abbrev pub join :
      List RuleViolation × Bool → List RuleViolation × Bool → List RuleViolation × Bool
  join (vs, found) (ws, found') = (vs ++ ws, found || found')

  -- `params`, if it is a dictionary.
  abbrev pub look_params : Rule F → ℕ → Option (Json F) → List RuleViolation × Bool
  look_params r idx (some (obj fs)) = look r (action idx) (obj fs) (has_conditions r)
  look_params r idx _ = ([], false)

  abbrev pub look_action : Rule F → ℕ → Json F → List RuleViolation × Bool
  look_action r idx (obj fs) =
      join (look_params r idx (lookup "params" fs)) (look r (action_field idx) (obj fs) false)
  look_action r idx _ = ([], false)

  -- The loop over the actions.
  unfoldable pub look_actions : Rule F → ℕ → Items F → List RuleViolation × Bool
  look_actions r idx nil = ([], false)
  look_actions r idx (cons a as') = join (look_action r idx a) (look_actions r (idx + 1) as')

  abbrev pub if_missing : Rule F → List RuleViolation × Bool → List RuleViolation
  if_missing r (vs, found) =
      if not found && not (is_forbidden r.type)
      then vs ++ record { rule_id = r.rule_id; source = missing } ∷ []
      else vs

  -- One round of the loop over the ruleset.
  unfoldable pub check_rule : Rule F → Json F → Items F → List RuleViolation
  check_rule r snapshot actions =
      if_missing r (join (look r sensor snapshot (has_conditions r)) (look_actions r 0 actions))

  -- `validate_rules`: the verdict is SAFE if the list is empty, and UNSAFE otherwise.
  unfoldable pub validate_rules : Json F → Items F → List (Rule F) → List RuleViolation
  validate_rules snapshot actions [] = []
  validate_rules snapshot actions (r ∷ rs) =
      check_rule r snapshot actions ++ validate_rules snapshot actions rs
