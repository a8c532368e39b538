-- ===== src/Reactor/Validate.antt =====
-- The loop over the actions, `validate_trajectory` and its result.
use pcag.Core.Int.{◌+ℤ◌, pos, ℤ}
use pcag.Reactor.{is_lower, present, text_or, is_text, is_upper, Values, Numerics}
use pcag.Base.{
  ◌>>=◌, ℕ, ◌+◌, String, Bool, false, Option, none, some, List, [], ◌∷◌, str_eq, if◌then◌else◌,
}
use pcag.Core.Consensus.{Verdict}
use pcag.Base.Dict.{get, put}
use pcag.Core.Json.{Json, Number, Fields, Arith, lookup, end}
use pcag.Reactor.Simulation.{
  head_of, max_one, or_empty, max_number, apply_action_controls, floor_div, take, record_segment,
  drop_first, solve_segment, int_or, Sample, action_dict, count, min_number, make_point, initialize,
  ending_verdict, require_numeric, Ranges, Solver, Result, Viewer, Integrator, completed,
  solver_failed, timed_out, Ending, Scan,
}

module _ {F : Type 0} (arith : Arith F) (numerics : Numerics F) where
  -- The handler of the integrator's exceptions, and what comes after it.
  abbrev pub after_solve :
      List (Fields F)
      → ℤ
      → ℕ
      → Number F × Number F
      → Scan F
      → (Scan F → Option (Ending × Scan F))
      → Option (List (Sample F))
      → Option (Ending × Scan F)
  after_solve rules total step (h, c) scan k none = some (solver_failed, scan)
  after_solve rules total step (h, c) scan k (some samples) =
      record_segment arith numerics rules total step h c samples scan >>= k

  -- The current values of `validate_trajectory`.
  abbrev pub current_values : Fields F → Option (Values F)
  current_values state = do
    temperature ← require_numeric arith numerics state "temperature"
    pressure ← require_numeric arith numerics state "pressure"
    heater_output ← require_numeric arith numerics state "heater_output"
    cooling_valve ← require_numeric arith numerics state "cooling_valve"
    some (record {
      temperature = temperature;
      pressure = pressure;
      heater_output = heater_output;
      cooling_valve = cooling_valve;
    })

  abbrev pub fractions : Values F → Number F × Number F
  fractions v = (arith.div v.heater_output arith.hundred, arith.div v.cooling_valve arith.hundred)

  abbrev pub first_scan : Values F → Scan F
  first_scan v = record {
    current = v;
    trajectory = make_point arith numerics (pos 0) v ∷ [];
    violations = [];
    first_violation_step = none;
    max_temperature = v.temperature;
    max_pressure = v.pressure;
  }

  -- The bounds of `_extract_safe_ranges`.
  abbrev pub float_or : Number F → Option (Json F) → Option (Number F)
  float_or default none = some default
  float_or default (some v) = numerics.float_of v

  abbrev pub range_or_all : Option (Number F × Number F) → Number F × Number F
  range_or_all none = (numerics.minus_infinity, numerics.infinity)
  range_or_all (some r) = r

  abbrev pub narrowed : String → Number F → Number F × Number F → Number F × Number F
  narrowed op value (low, high) =
      if is_upper op
      then (low, min_number arith numerics high value)
      else (if is_lower op then (max_number arith numerics low value, high) else (low, high))

  abbrev pub add_range : Fields F → String → Ranges F → Option (Ranges F)
  add_range rule target ranges =
      if is_text (lookup "type" rule) "range"
      then (do
        low ← float_or numerics.minus_infinity (present (lookup "min" rule))
        high ← float_or numerics.infinity (present (lookup "max" rule))
        some (put target (low, high) ranges))
      else (if is_text (lookup "type" rule) "threshold"
          then (do
            value ← lookup "value" rule >>= λ v. numerics.float_of v
            op ← text_or "lte" (lookup "operator" rule)
            some (put target (narrowed op value (range_or_all (get target ranges))) ranges))
          else some ranges)

  -- `_extract_safe_ranges`, for targets that are texts; a rule without one is skipped.
  unfoldable pub extract_safe_ranges : List (Fields F) → Ranges F → Option (Ranges F)
  extract_safe_ranges [] ranges = some ranges
  extract_safe_ranges (rule ∷ rules) ranges = do
    target ← text_or "" (lookup "target_field" rule)
    ranges' ← if str_eq target "" then some ranges else add_range rule target ranges
    extract_safe_ranges rules ranges'

  abbrev pub rendered : Viewer F → List (Fields F) → Verdict → Scan F → Option Bool
  rendered none rules verdict scan = some false
  rendered (some view) rules verdict scan = extract_safe_ranges rules [] >>= λ ranges.
      some (view scan.trajectory verdict scan.violations ranges)

  abbrev pub max_values : Ending → Scan F → Option (Number F × Number F)
  max_values completed scan =
      some (numerics.round3 scan.max_temperature, numerics.round3 scan.max_pressure)
  max_values _ scan = none

  -- `_make_result`
  abbrev pub make_result : Ending → Scan F → Bool → Result F
  make_result ending scan shown = record {
    verdict = ending_verdict ending (count scan.violations);
    first_violation_step = scan.first_violation_step;
    violated_constraint = head_of scan.violations >>= λ v. some v.broken.constraint;
    steps_completed = count (drop_first scan.trajectory);
    state_trajectory = take 40 scan.trajectory;
    violations = take 10 scan.violations;
    visualization_rendered = shown;
    max_value = max_values ending scan;
  }

  abbrev pub ensure_initialized : Solver F → Option (Solver F)
  ensure_initialized s = if s.initialized then some s else initialize arith numerics end

module _ {F : Type 0} (arith : Arith F) (numerics : Numerics F) (solve_ivp : Integrator F)
    (late : ℕ → Bool) where
  -- The loop over the actions, from number `step` on, whose `late step` says that the time is up.
  unfoldable pub run :
      Solver F
      → List (Fields F)
      → ℤ
      → List (Json F)
      → ℕ
      → ℤ
      → Number F × Number F
      → Scan F
      → Option (Ending × Scan F)
  run s rules default [] step total fracs scan = some (completed, scan)
  run s rules default (a ∷ as') step total fracs scan = do
    action ← action_dict arith numerics a
    duration ← int_or arith numerics default (lookup "duration_ms" action)
    fracs' ←
        apply_action_controls arith numerics (lookup "action_type" action)
          (or_empty arith numerics (lookup "params" action)) fracs.0 fracs.1
    after_solve arith numerics rules total step fracs' scan
        (λ scan'.
          let rest = run s rules default as' (step + 1) (total +ℤ duration) fracs' scan' in
          if late step then some (timed_out, scan') else rest)
        (solve_segment arith numerics solve_ivp s fracs'.0 fracs'.1 scan.current duration)

  -- Without actions, the horizon is one segment.
  unfoldable pub run_all :
      Solver F
      → List (Fields F)
      → List (Json F)
      → Number F × Number F
      → Scan F
      → Option (Ending × Scan F)
  run_all s rules [] fracs scan =
      after_solve arith numerics rules (pos 0) 0 fracs scan (λ scan'. some (completed, scan'))
        (solve_segment arith numerics solve_ivp s fracs.0 fracs.1 scan.current s.horizon_ms)
  run_all s rules (a ∷ as') fracs scan =
      run s rules (floor_div s.horizon_ms (max_one (count (a ∷ as')))) (a ∷ as') 0 (pos 0) fracs
        scan

module _ {F : Type 0} (arith : Arith F) (numerics : Numerics F) (viewer : Viewer F) where
  abbrev pub finish : List (Fields F) → Ending × Scan F → Option (Result F)
  finish rules (completed, scan) =
      rendered arith numerics viewer rules (ending_verdict completed (count scan.violations)) scan
      >>= λ shown. some (make_result arith numerics completed scan shown)
  finish rules (solver_failed, scan) = some (make_result arith numerics solver_failed scan false)
  finish rules (timed_out, scan) = some (make_result arith numerics timed_out scan false)

module _ {F : Type 0} (arith : Arith F) (numerics : Numerics F) (solve_ivp : Integrator F)
    (viewer : Viewer F) (late : ℕ → Bool) where
  -- `validate_trajectory`, with the solver that it leaves.
  unfoldable pub validate_trajectory :
      Solver F → Fields F → List (Json F) → List (Fields F) → Option (Solver F × Result F)
  validate_trajectory s state actions rules = do
    s' ← ensure_initialized arith numerics s
    values ← current_values arith numerics state
    outcome ←
        run_all arith numerics solve_ivp late s' rules actions (fractions arith numerics values)
          (first_scan arith numerics values)
    result ← finish arith numerics viewer rules outcome
    some (s', result)
