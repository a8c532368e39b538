-- ===== src/Core/Cbf.antt =====
-- pcag/core/services/cbf_validator.py: `StaticCBFValidator` on rules that are `Rule` objects. An
-- exception is `none`. The margin ratio, the rounding
-- and the timing of the details are left out.
pub mod InBounds
pub mod Margins
mod Tests
use pcag.Base.{
  zero, suc, ◌-◌, leb, ◌-◌, suc, leb, ℕ, ◌+◌, String, Bool, true, false, not, ◌||◌, ◌&&◌, ◌>>=◌,
  Option, none, some, List, [], ◌∷◌, str_eq, if◌then◌else◌,
}
use pcag.Core.Int.{ℤ, pos, negsuc}
use pcag.Core.Json.{
  put_field, Number, Json, Items, Fields, Arith, int, float, null, str, arr, obj, nil, cons, end,
  field, lookup, number_of, split_dots, eq_json,
}
use pcag.Core.Rules.{
  lt, lte, gt, gte, Operator, ordered, eq, ne, RuleType, threshold, range, enum,
  forbidden_combination, Rule,
}
use pcag.Core.Consensus.{Verdict, safe, unsafe, indeterminate}

-- `float('inf')`, `int(text)`, which may raise ValueError, and `s in t` of texts.
pub record Limits (F : Type 0) : Type 0 where
  pub inf : F
  pub neg_inf : F
  pub parse_int : String → Option ℤ
  pub includes : String → String → Bool

-- An entry of `cbf_state_mappings`.
pub record StateMapping : Type 0 where
  pub action_type : Option String
  pub param : String
  pub maps_to_field : String

pub record CbfAction (F : Type 0) : Type 0 where
  pub action_type : Json F
  pub params : Json F

-- `first_violation_step`: -1 is the current state.
pub data Step : Type 0 where
  current : Step
  step : ℕ → Step

abbrev pub Barriers : Type 0 → Type 0
Barriers F = List (String × Number F)

pub record CbfResult (F : Type 0) : Type 0 where
  pub verdict : Verdict
  pub min_barrier : Number F
  pub first_violation_step : Option Step
  pub barrier_values : List (Barriers F)

module _ {F : Type 0} where
  -- `{**fs, **gs}`
  unfoldable pub merge : Fields F → Fields F → Fields F
  merge fs end = fs
  merge fs (field k v gs) = merge (put_field k v fs) gs

  abbrev dict_or_empty : Option (Json F) → Fields F
  dict_or_empty (some (obj fs)) = fs
  dict_or_empty _ = end

  -- `_set_nested_value` on the parts of the path.
  unfoldable pub set_parts : List String → Json F → Fields F → Fields F
  set_parts [] v fs = fs
  set_parts (k ∷ []) v fs = put_field k v fs
  set_parts (k ∷ j ∷ ks) v fs =
      put_field k (obj (set_parts (j ∷ ks) v (dict_or_empty (lookup k fs)))) fs

  abbrev count_items : Items F → ℕ
  count_items nil = 0
  count_items (cons x xs) = count_items xs + 1

  unfoldable item_at : ℕ → Items F → Option (Json F)
  item_at n nil = none
  item_at zero (cons x xs) = some x
  item_at (suc n) (cons x xs) = item_at n xs

  -- `items[i]`: a negative index counts from the end.
  unfoldable index_items : Items F → ℤ → Option (Json F)
  unfolding item_at
  index_items xs (pos n) = item_at n xs
  index_items xs (negsuc n) =
      if leb (n + 1) (count_items xs) then item_at (count_items xs - (n + 1)) xs else none

module _ {F : Type 0} (limits : Limits F) where
  -- The loop of `_get_nested_value`, which steps into lists too.
  unfoldable pub walk_state : List String → Json F → Json F
  unfolding index_items
  walk_state [] v = v
  walk_state (k ∷ ks) (obj fs) = elim (lookup k fs) [ none ↦ null | some v ↦ walk_state ks v ]
  walk_state (k ∷ ks) (arr xs) = elim (limits.parse_int k) [
    | none ↦ null
    | some i ↦ elim (index_items xs i) [ none ↦ null | some v ↦ walk_state ks v ]
  ]
  walk_state (k ∷ ks) _ = null

  unfoldable pub state_value : Json F → String → Json F
  state_value state path = walk_state (split_dots path) state

-- What `_compute_barriers` does for one rule: it raises, stores no barrier, or stores one.
pub data Margin (F : Type 0) : Type 0 where
  raises no_barrier : Margin F
  barrier : Number F → Margin F

module _ {F : Type 0} (arith : Arith F) (limits : Limits F) where
  -- `min(a, b)`
  unfoldable pub min_number : Number F → Number F → Number F
  min_number a b = if arith.ltb b a then b else a

  -- The branch `threshold`, where the limit is `value` of the rule.
  abbrev threshold_margin : Operator → Option (Number F) → Number F → Margin F
  threshold_margin (ordered lt) (some limit) v = barrier (arith.sub limit v)
  threshold_margin (ordered lte) (some limit) v = barrier (arith.sub limit v)
  threshold_margin (ordered gt) (some limit) v = barrier (arith.sub v limit)
  threshold_margin (ordered gte) (some limit) v = barrier (arith.sub v limit)
  threshold_margin (ordered o) none v = raises
  threshold_margin eq limit v = no_barrier
  threshold_margin ne limit v = no_barrier

  abbrev operator_or_lte : Option Operator → Operator
  operator_or_lte none = ordered lte
  operator_or_lte (some op) = op

  abbrev range_margin : Option (Number F) → Option (Number F) → Number F → Margin F
  range_margin (some lo) (some hi) v = barrier (min_number (arith.sub v lo) (arith.sub hi v))
  range_margin _ _ v = raises

  -- The margin of a numeric value. A threshold without a limit raises before the operator is read.
  abbrev pub margin_as : RuleType → Rule F → Number F → Margin F
  margin_as threshold r v = elim r.value [
    | null ↦ raises
    | limit ↦ threshold_margin (operator_or_lte r.operator) (number_of limit) v
  ]
  margin_as range r v = range_margin r.min r.max v
  margin_as enum r v = no_barrier
  margin_as forbidden_combination r v = no_barrier

  abbrev margin_of : Rule F → Option (Number F) → Margin F
  margin_of r none = barrier (float limits.neg_inf)
  margin_of r (some v) = margin_as r.type r v

  unfoldable pub margin : Rule F → Json F → Margin F
  margin r state = margin_of r (number_of (state_value limits state r.target_field))

  -- `barriers[rule_id] = …`
  unfoldable pub put_barrier : String → Number F → Barriers F → Barriers F
  put_barrier k b [] = (k, b) ∷ []
  put_barrier k b ((j, c) ∷ bs) = if str_eq j k then (j, b) ∷ bs else (j, c) ∷ put_barrier k b bs

  -- The loop of `_compute_barriers`.
  unfoldable pub add_barriers : List (Rule F) → Json F → Barriers F → Option (Barriers F)
  add_barriers [] state bs = some bs
  add_barriers (r ∷ rs) state bs = elim (margin r state) [
    | raises ↦ none
    | no_barrier ↦ add_barriers rs state bs
    | barrier b ↦ add_barriers rs state (put_barrier r.rule_id b bs)
  ]

  unfoldable pub compute_barriers : Json F → List (Rule F) → Option (Barriers F)
  compute_barriers state rules = add_barriers rules state []

  abbrev mapping_applies : StateMapping → Json F → Bool
  mapping_applies m action_type = elim m.action_type [
    | none ↦ eq_json arith null action_type
    | some t ↦ eq_json arith (str t) action_type
  ]

  abbrev assign : StateMapping → Option (Json F) → Fields F → Fields F
  assign m none fs = fs
  assign m (some v) fs =
      if str_eq m.maps_to_field "" then fs else set_parts (split_dots m.maps_to_field) v fs

  -- `name in params` of a list.
  unfoldable pub has_text : String → Items F → Bool
  has_text name nil = false
  has_text name (cons v vs) = if eq_json arith v (str name) then true else has_text name vs

  -- `params[name]` of a list or a text raises; it is evaluated only if the field has a name.
  abbrev unless_indexed : StateMapping → Bool → Fields F → Option (Fields F)
  unless_indexed m found fs = if found && not (str_eq m.maps_to_field "") then none else some fs

  -- Other parameters than a dictionary, a list or a text admit no `in`.
  abbrev apply_mapping : StateMapping → Json F → Fields F → Option (Fields F)
  apply_mapping m (obj ps) fs = some (assign m (lookup m.param ps) fs)
  apply_mapping m (arr vs) fs = unless_indexed m (has_text m.param vs) fs
  apply_mapping m (str t) fs = unless_indexed m (limits.includes m.param t) fs
  apply_mapping m _ fs = none

  -- `_create_projected_state`
  unfoldable pub create_projected_state :
      List StateMapping → CbfAction F → Fields F → Option (Fields F)
  create_projected_state [] a fs = some fs
  create_projected_state (m ∷ ms) a fs =
      (if mapping_applies m a.action_type then apply_mapping m a.params fs else some fs) >>= λ fs'.
      create_projected_state ms a fs'

  -- `min(barriers.values()) if barriers else inf`, from the left.
  unfoldable pub min_from : Number F → Barriers F → Number F
  min_from m [] = m
  min_from m ((k, b) ∷ bs) = min_from (min_number m b) bs

  abbrev pub min_values : Barriers F → Number F
  min_values [] = float limits.inf
  min_values ((k, b) ∷ bs) = min_from b bs

  pub record Scan : Type 0 where
    pub min_barrier : Number F
    pub first_violation_step : Option Step
    pub barrier_values : List (Barriers F)

  abbrev first_of : Option Step → Bool → Step → Option Step
  first_of (some s) violated at = some s
  first_of none violated at = if violated then some at else none

  -- What the barriers of one state do to the running minimum and the first violation.
  unfoldable pub account : Barriers F → Step → Scan → Scan
  account bs at s = record {
    min_barrier = min_number s.min_barrier (min_values bs);
    first_violation_step =
        first_of s.first_violation_step (arith.leb (min_values bs) (int (pos 0))) at;
    barrier_values = bs ∷ s.barrier_values;
  }

  -- The loop over the actions, from the action `idx` on. The barriers are kept newest first.
  unfoldable pub scan :
      List (Rule F) → List StateMapping → ℕ → List (CbfAction F) → Fields F → Scan → Option Scan
  scan rules ms idx [] state s = some s
  scan rules ms idx (a ∷ as') state s = elim (create_projected_state ms a state) [
    | none ↦ none
    | some projected ↦ elim (compute_barriers (obj projected) rules) [
      | none ↦ none
      | some bs ↦ scan rules ms (idx + 1) as' (merge state projected) (account bs (step idx) s)
    ]
  ]

  abbrev pub start : Scan
  start = record {
    min_barrier = float limits.inf;
    first_violation_step = none;
    barrier_values = [];
  }

  -- A minimum that is still infinite becomes -1.0.
  abbrev pub finish : Scan → CbfResult F
  finish s =
      let m =
        if arith.eqb s.min_barrier (float limits.inf) then int (negsuc 0) else s.min_barrier in
      record {
        verdict = if arith.leb (int (pos 0)) m then safe else unsafe;
        min_barrier = m;
        first_violation_step = s.first_violation_step;
        barrier_values = s.barrier_values;
      }

  abbrev no_rules : CbfResult F
  no_rules = record {
    verdict = indeterminate;
    min_barrier = int (pos 0);
    first_violation_step = none;
    barrier_values = [];
  }

  unfoldable pub validate_safety :
      Fields F → List (CbfAction F) → List (Rule F) → List StateMapping → Option (CbfResult F)
  validate_safety state actions [] ms = some no_rules
  validate_safety state actions (r ∷ rs) ms = elim (compute_barriers (obj state) (r ∷ rs)) [
    | none ↦ none
    | some bs ↦ elim (scan (r ∷ rs) ms 0 actions state (account bs current start)) [
      | none ↦ none
      | some s ↦ some (finish s)
    ]
  ]
