-- ===== src/Reactor/Simulation.antt =====
-- `ODESolverBackend`: its configuration, and `validate_trajectory`. The integrator of scipy, the
-- viewer and the clock are parameters.
use pcag.Reactor.{
  check_constraints, default_reactor_params, is_text, merged, reactor_ode, Numerics, Values, Broken,
}
use pcag.Core.Int.{negsuc, ◌+ℤ◌, pos, ltb_ℤ, ℤ}
use pcag.Base.{
  ◌>>=◌, ℕ, zero, suc, String, Bool, true, Option, none, some, List, [], ◌∷◌, ◌++◌, if◌then◌else◌,
}
use pcag.Core.Consensus.{Verdict, safe, unsafe, indeterminate}
use Prim.Native.Nat.{◌/◌}
use pcag.Base.Dict.{Dict}
use pcag.Core.Json.{num, Json, number_of, Fields, Number, Arith, lookup, obj, end}

-- A point of a solution: `sol.t`, `sol.y[0]`, `sol.y[1]`.
pub record Sample (F : Type 0) : Type 0 where
  pub time : Number F
  pub temperature : Number F
  pub pressure : Number F

-- `solve_ivp` of a derivative: the length of the interval, the initial state, the end and the number
-- of the points asked for, and the longest step; `none` if it raises or does not succeed.
abbrev pub Integrator : Type 0 → Type 0
Integrator F =
    (Number F → Number F → Option (Number F × Number F))
    → Number F
    → Number F × Number F
    → Number F × ℤ
    → Number F
    → Option (List (Sample F))

pub record Point (F : Type 0) : Type 0 where
  pub t_ms : ℤ
  pub values : Values F

pub record Violation (F : Type 0) : Type 0 where
  pub step : ℕ
  pub t_ms : ℤ
  pub broken : Broken F

abbrev pub Ranges : Type 0 → Type 0
Ranges F = Dict (Number F × Number F)

-- The viewer, if it is enabled: whether it has rendered.
abbrev pub Viewer : Type 0 → Type 0
Viewer F = Option (List (Point F) → Verdict → List (Violation F) → Ranges F → Bool)

pub record Solver (F : Type 0) : Type 0 where
  pub params : Fields F
  pub horizon_ms : ℤ
  pub dt_ms : ℤ
  pub timeout_ms : ℤ
  pub initialized : Bool

-- What the loops carry.
pub record Scan (F : Type 0) : Type 0 where
  pub current : Values F
  pub trajectory : List (Point F)
  pub violations : List (Violation F)
  pub first_violation_step : Option ℕ
  pub max_temperature : Number F
  pub max_pressure : Number F

pub data Ending : Type 0 where
  completed solver_failed timed_out : Ending

pub record Result (F : Type 0) : Type 0 where
  pub verdict : Verdict
  pub first_violation_step : Option ℕ
  pub violated_constraint : Option (Json F)
  pub steps_completed : ℕ
  pub state_trajectory : List (Point F)
  pub violations : List (Violation F)
  pub visualization_rendered : Bool
  pub max_value : Option (Number F × Number F)

module _ {A : Type 0} where
  -- `xs[:n]`
  unfoldable pub take : ℕ → List A → List A
  take zero xs = []
  take (suc n) [] = []
  take (suc n) (x ∷ xs) = x ∷ take n xs

  abbrev pub drop_first : List A → List A
  drop_first [] = []
  drop_first (x ∷ xs) = xs

  unfoldable pub count : List A → ℕ
  count [] = 0
  count (x ∷ xs) = suc (count xs)

  abbrev pub head_of : List A → Option A
  head_of [] = none
  head_of (x ∷ xs) = some x

abbrev pub max_int : ℤ → ℤ → ℤ
max_int a b = if ltb_ℤ a b then b else a

-- `a // n`, for a positive `n`: it rounds down.
abbrev pub floor_div : ℤ → ℕ → ℤ
floor_div (pos a) n = pos (a / n)
floor_div (negsuc a) n = negsuc (a / n)

abbrev pub max_one : ℕ → ℕ
max_one zero = 1
max_one (suc n) = suc n

abbrev pub ending_verdict : Ending → ℕ → Verdict
ending_verdict completed zero = safe
ending_verdict completed (suc n) = unsafe
ending_verdict solver_failed n = indeterminate
ending_verdict timed_out n = indeterminate

module _ {F : Type 0} (arith : Arith F) (numerics : Numerics F) where
  abbrev pub max_number : Number F → Number F → Number F
  max_number a b = if arith.ltb a b then b else a

  abbrev pub min_number : Number F → Number F → Number F
  min_number a b = if arith.ltb b a then b else a

  abbrev pub dict_of : Option (Json F) → Option (Fields F)
  dict_of none = some end
  dict_of (some (obj fs)) = some fs
  dict_of (some v) = none

  abbrev pub int_or : ℤ → Option (Json F) → Option ℤ
  int_or default none = some default
  int_or default (some v) = numerics.int_of v

  -- `initialize`, less the visualization.
  unfoldable pub initialize : Fields F → Option (Solver F)
  initialize config = do
    params ← dict_of (lookup "params" config)
    horizon_ms ← int_or (pos 5000) (lookup "horizon_ms" config)
    dt_ms ← int_or (pos 100) (lookup "dt_ms" config)
    timeout_ms ← int_or (pos 200) (lookup "timeout_ms" config)
    some (record {
      params = merged (default_reactor_params numerics) params;
      horizon_ms = horizon_ms;
      dt_ms = dt_ms;
      timeout_ms = timeout_ms;
      initialized = true;
    })

  -- `_require_numeric`
  abbrev pub require_numeric : Fields F → String → Option (Number F)
  require_numeric state name =
      lookup name state >>= λ v. number_of v >>= λ n. numerics.float_of (num n)

  abbrev pub round_values : Values F → Values F
  round_values v = record {
    temperature = numerics.round3 v.temperature;
    pressure = numerics.round3 v.pressure;
    heater_output = numerics.round3 v.heater_output;
    cooling_valve = numerics.round3 v.cooling_valve;
  }

  -- `_make_point`
  abbrev pub make_point : ℤ → Values F → Point F
  make_point t_ms values = record { t_ms = t_ms; values = round_values values }

  -- `_build_t_eval`: the end and the number of the points.
  abbrev pub build_t_eval : Solver F → ℤ → Option (Number F × ℤ)
  build_t_eval s duration_ms = numerics.round_ratio duration_ms s.dt_ms >>= λ n.
      some (numerics.seconds duration_ms, max_int n (pos 1) +ℤ pos 1)

  -- `_solve_segment`
  abbrev pub solve_segment :
      Integrator F → Solver F → Number F → Number F → Values F → ℤ → Option (List (Sample F))
  solve_segment solve_ivp s heater_frac cooling_frac now duration_ms =
      let duration = max_int duration_ms s.dt_ms in
      build_t_eval s duration >>= λ t_eval.
      solve_ivp (reactor_ode arith s.params heater_frac cooling_frac) (numerics.seconds duration)
        (now.temperature, now.pressure) t_eval
        (max_number (numerics.seconds s.dt_ms) (numerics.decimal 5 2))

  abbrev pub value_or : Number F → Option (Json F) → Option (Number F)
  value_or default none = some default
  value_or default (some v) = numerics.float_of v

  abbrev pub param_value : Json F → Number F → Option (Number F)
  param_value (obj params) frac =
      value_or (arith.mul frac arith.hundred) (lookup "value" params) >>= λ x.
      some (arith.div x arith.hundred)
  param_value _ frac = none

  -- `_apply_action_controls`
  abbrev pub apply_action_controls :
      Option (Json F) → Json F → Number F → Number F → Option (Number F × Number F)
  apply_action_controls action_type params heater_frac cooling_frac =
      if is_text action_type "set_heater_output"
      then (param_value params heater_frac >>= λ h. some (h, cooling_frac))
      else (if is_text action_type "set_cooling_valve"
          then (param_value params cooling_frac >>= λ c. some (heater_frac, c))
          else some (heater_frac, cooling_frac))

  abbrev pub values_at : Number F → Number F → Sample F → Values F
  values_at heater_frac cooling_frac x = record {
    temperature = x.temperature;
    pressure = x.pressure;
    heater_output = arith.mul heater_frac arith.hundred;
    cooling_valve = arith.mul cooling_frac arith.hundred;
  }

  abbrev pub step_or : Option ℕ → ℕ → Option ℕ
  step_or none n = some n
  step_or (some k) n = some k

  abbrev pub with_violation : ℕ → ℤ → Option (Broken F) → Scan F → Scan F
  with_violation step t_ms none scan = scan
  with_violation step t_ms (some b) scan = record scan {
    violations = scan.violations ++ record { step = step; t_ms = t_ms; broken = b } ∷ [];
    first_violation_step = step_or scan.first_violation_step step;
  }

  abbrev pub add_point : ℤ → Values F → Scan F → Scan F
  add_point t_ms values scan = record scan {
    current = values;
    trajectory = scan.trajectory ++ make_point t_ms values ∷ [];
    max_temperature = max_number scan.max_temperature values.temperature;
    max_pressure = max_number scan.max_pressure values.pressure;
  }

  -- The loop of `_record_segment`, over the samples after the first.
  unfoldable pub record_samples :
      List (Fields F) → ℤ → ℕ → Number F → Number F → List (Sample F) → Scan F → Option (Scan F)
  record_samples rules total step heater cooling [] scan = some scan
  record_samples rules total step heater cooling (x ∷ xs) scan =
      let t_ms = total +ℤ numerics.milliseconds x.time in
      check_constraints arith numerics (values_at heater cooling x) rules >>= λ found.
      record_samples rules total step heater cooling xs
        (with_violation step t_ms found (add_point t_ms (values_at heater cooling x) scan))

  -- `_record_segment`
  abbrev pub record_segment :
      List (Fields F) → ℤ → ℕ → Number F → Number F → List (Sample F) → Scan F → Option (Scan F)
  record_segment rules total step heater cooling samples scan =
      record_samples rules total step heater cooling (drop_first samples) scan

  abbrev pub action_dict : Json F → Option (Fields F)
  action_dict (obj fs) = some fs
  action_dict _ = none

  abbrev pub or_empty : Option (Json F) → Json F
  or_empty none = obj end
  or_empty (some v) = v
