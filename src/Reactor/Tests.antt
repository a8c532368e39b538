-- ===== src/Reactor/Tests.antt =====
-- A reactor whose integrator warms it by one degree per segment.
use pcag.Reactor.Sound.{validate_trajectory-Sound, simulated_all, Sound}
use pcag.Core.Int.{negsuc, ◌+ℤ◌, pos}
use pcag.Reactor.{check_constraints, Numerics, Values}
use pcag.Reactor.Validate.{fractions, run, current_values, run_all, validate_trajectory}
use pcag.Base.{◌>>=◌, ℕ, ◌≡◌, refl, Bool, true, false, Option, none, some, [], ◌∷◌}
use pcag.Core.Samples.{numbers, whole}
use pcag.Core.Consensus.{Verdict, safe, unsafe, indeterminate}
use pcag.Core.Json.{number_of, Json, Fields, lookup, obj, str, num, int, float, end, field}
use pcag.Reactor.Simulation.{take, count, record_samples, Solver, Result, Integrator}

abbrev numerics : Numerics ℕ
numerics = record {
  float_of = number_of;
  int_of = λ v. number_of v >>= λ n. some (whole n);
  round3 = λ x. x;
  decimal = λ digits decimals. float digits;
  milliseconds = whole;
  seconds = int;
  round_ratio = λ a b. some (pos 1);
  infinity = float 1000;
  minus_infinity = int (negsuc 1000);
}

abbrev warming : Integrator ℕ
warming f span (t, p) t_eval longest = some (
    record { time = float 0; temperature = t; pressure = p }
    ∷ record { time = span; temperature = int (whole t +ℤ pos 1); pressure = p }
    ∷ [])

abbrev solver : Solver ℕ
solver = record {
  params = end;
  horizon_ms = pos 500;
  dt_ms = pos 100;
  timeout_ms = pos 200;
  initialized = true;
}

abbrev plant : Fields ℕ
plant = field "temperature" (num (int (pos 90))) (
    field "pressure" (num (int (pos 1)))
      (field "heater_output" (num (int (pos 10))) (field "cooling_valve" (num (int (pos 20))) end)))

abbrev heat : Json ℕ
heat = obj (
    field "action_type" (str "set_heater_output")
      (field "params" (obj (field "value" (num (int (pos 50))) end)) end))

abbrev at_most : ℕ → Fields ℕ
at_most limit = field "rule_id" (str "hot") (
    field "type" (str "threshold") (
      field "target_field" (str "temperature")
        (field "operator" (str "lte") (field "value" (num (int (pos limit))) end))))

abbrev never : ℕ → Bool
never n = false

abbrev outcome_of : Option (Solver ℕ × Result ℕ) → Option (Verdict × Option ℕ × ℕ)
outcome_of none = none
outcome_of (some (s, r)) = some (r.verdict, r.first_violation_step, r.steps_completed)

-- The second of two actions leads beyond the limit.
too_hot :
    outcome_of (
      validate_trajectory numbers numerics warming none never solver plant
        (heat ∷ heat ∷ [])
        (at_most 91 ∷ []))
    ≡ some (unsafe, some 1, 2)
unfolding validate_trajectory run_all run record_samples check_constraints count take lookup
too_hot = refl

-- A violation that is found before the time is up leaves the verdict open.
out_of_time :
    outcome_of (
      validate_trajectory numbers numerics warming none
        (λ n. true)
        solver
        plant
        (heat ∷ heat ∷ [])
        (at_most 80 ∷ []))
    ≡ some (indeterminate, some 0, 1)
unfolding validate_trajectory run_all run record_samples check_constraints count take lookup
out_of_time = refl

abbrev warmed : Values ℕ
warmed = record {
  temperature = int (pos 90);
  pressure = int (pos 1);
  heater_output = int (pos 10);
  cooling_valve = int (pos 20);
}

abbrev mild : Result ℕ
mild = record {
  verdict = safe;
  first_violation_step = none;
  violated_constraint = none;
  steps_completed = 1;
  state_trajectory =
      record { t_ms = pos 0; values = warmed }
      ∷ record {
        t_ms = pos 500;
        values = record {
          temperature = int (pos 91);
          pressure = int (pos 1);
          heater_output = int (pos 50);
          cooling_valve = int (pos 20);
        };
      }
      ∷ [];
  violations = [];
  visualization_rendered = false;
  max_value = some (int (pos 91), int (pos 1));
}

mild_lem :
    validate_trajectory numbers numerics warming none never solver plant
      (heat ∷ [])
      (at_most 100 ∷ [])
    ≡ some (solver, mild)
unfolding validate_trajectory run_all run record_samples check_constraints count take lookup
mild_lem = refl

validate_trajectory-Sound_example :
    (now : Values ℕ) × (current_values numbers numerics plant ≡ some now)
    × Sound numbers numerics (at_most 100 ∷ []) (
        simulated_all numbers numerics warming solver
          (heat ∷ [])
          (fractions numbers numerics now)
          now)
validate_trajectory-Sound_example =
    validate_trajectory-Sound numbers numerics warming none never solver solver plant (heat ∷ [])
      (at_most 100 ∷ []) mild refl mild_lem refl
