-- ===== src/Reactor.antt =====
-- pcag/plugins/simulation/ode_solver.py: the simulation of a thermal reactor. `none` stands for an
-- exception that leaves the method.
pub mod Simulation
pub mod Validate
pub mod Bounds
pub mod Sound
mod Tests
use pcag.Base.{
  ◌>>=◌, ℕ, ◌+◌, ◌≤◌, ◌<◌, ◌≡◌, ◌≢◌, ◌↔◌, ◌⊎◌, inl, inr, refl, sym, ap, arith, zero, suc, String,
  Bool, true, false, not, ◌&&◌, ◌||◌, Option, none, some, List, [], ◌∷◌, ◌++◌, ◌∙◌, str_eq, eq_iff,
  if◌then◌else◌, Bool-cases, Option-cases, ltb, leb, ◌==◌,
}
use pcag.Core.Int.{ℤ, pos}
use pcag.Core.Json.{
  number_of, put_field, Fields, Number, Arith, Json, lookup, null, obj, arr, str, num, end, field,
  cons, nil,
}

-- `float(value)`, `int(value)`, `round(x, 3)`, a float literal by its digits and its decimals,
-- `int(round(t * 1000))`, `ms / 1000.0`, `int(round(a / b))`, and the infinities.
pub record Numerics (F : Type 0) : Type 0 where
  pub float_of : Json F → Option (Number F)
  pub int_of : Json F → Option ℤ
  pub round3 : Number F → Number F
  pub decimal : ℕ → ℕ → Number F
  pub milliseconds : Number F → ℤ
  pub seconds : ℤ → Number F
  pub round_ratio : ℤ → ℤ → Option ℤ
  pub infinity : Number F
  pub minus_infinity : Number F

-- The state of the plant.
pub record Values (F : Type 0) : Type 0 where
  pub temperature : Number F
  pub pressure : Number F
  pub heater_output : Number F
  pub cooling_valve : Number F

pub data Limit (F : Type 0) : Type 0 where
  at : Number F → Limit F
  between : Option (Number F) → Option (Number F) → Limit F

pub record Broken (F : Type 0) : Type 0 where
  pub constraint : Json F
  pub value : Number F
  pub limit : Limit F

abbrev pub is_upper : String → Bool
is_upper op = str_eq op "lte" || str_eq op "lt"

abbrev pub is_lower : String → Bool
is_lower op = str_eq op "gte" || str_eq op "gt"

module _ {F : Type 0} where
  -- `target not in state_snapshot`, and the value of the field.
  abbrev pub field_value : Values F → String → Option (Number F)
  field_value v target =
      if str_eq target "temperature"
      then some v.temperature
      else (if str_eq target "pressure"
          then some v.pressure
          else (if str_eq target "heater_output"
              then some v.heater_output
              else (if str_eq target "cooling_valve" then some v.cooling_valve else none)))

  -- A key or an element of a set: a list or a dictionary raises, and what is no text is not there.
  abbrev pub text_or : String → Option (Json F) → Option String
  text_or default none = some default
  text_or default (some (str s)) = some s
  text_or default (some (arr xs)) = none
  text_or default (some (obj fs)) = none
  text_or default (some v) = some ""

  abbrev pub text_of : Option (Json F) → Json F
  text_of none = str ""
  text_of (some v) = v

  abbrev pub is_text : Option (Json F) → String → Bool
  is_text (some (str s)) t = str_eq s t
  is_text _ t = false

  abbrev pub present : Option (Json F) → Option (Json F)
  present none = none
  present (some null) = none
  present (some v) = some v

module _ {F : Type 0} (arith : Arith F) (numerics : Numerics F) where
  abbrev pub broken : Fields F → Number F → Limit F → Option (Broken F)
  broken rule value limit = some (record {
    constraint = text_of (lookup "rule_id" rule);
    value = numerics.round3 value;
    limit = limit;
  })

  abbrev pub check_upper : Fields F → Number F → Number F → Option (Broken F)
  check_upper rule value limit =
      if arith.ltb limit value then broken rule value (at limit) else none

  abbrev pub check_lower : Fields F → Number F → Number F → Option (Broken F)
  check_lower rule value limit =
      if arith.ltb value limit then broken rule value (at limit) else none

  abbrev pub check_operator : Fields F → Number F → Json F → String → Option (Option (Broken F))
  check_operator rule value limit op =
      if is_upper op
      then (numerics.float_of limit >>= λ l. some (check_upper rule value l))
      else (if is_lower op
          then (numerics.float_of limit >>= λ l. some (check_lower rule value l))
          else some none)

  abbrev pub check_threshold : Fields F → Number F → Option (Json F) → Option (Option (Broken F))
  check_threshold rule value none = some none
  check_threshold rule value (some limit) =
      text_or "lte" (lookup "operator" rule) >>= λ op. check_operator rule value limit op

  -- `float(x) if x is not None else None`
  abbrev pub optional_float : Option (Json F) → Option (Option (Number F))
  optional_float none = some none
  optional_float (some v) = numerics.float_of v >>= λ x. some (some x)

  abbrev pub beyond : Bool → Option (Number F) → Number F → Bool
  beyond below none value = false
  beyond below (some l) value = if below then arith.ltb value l else arith.ltb l value

  abbrev pub check_max : Fields F → Number F → Option (Number F) → Option (Option (Broken F))
  check_max rule value low = do
    high ← optional_float (present (lookup "max" rule))
    some (if beyond false high value then broken rule value (between low high) else none)

  abbrev pub check_min : Fields F → Number F → Option (Number F) → Option (Option (Broken F))
  check_min rule value low =
      if beyond true low value
      then (optional_float (present (lookup "max" rule)) >>= λ high.
          some (broken rule value (between low high)))
      else check_max rule value low

  abbrev pub check_range : Fields F → Number F → Option (Option (Broken F))
  check_range rule value =
      optional_float (present (lookup "min" rule)) >>= λ low. check_min rule value low

  -- The body of the loop of `_check_constraints`, for a rule on a field of the state.
  abbrev pub check_rule : Fields F → Option (Number F) → Option (Option (Broken F))
  check_rule rule none = some none
  check_rule rule (some value) =
      if is_text (lookup "type" rule) "threshold"
      then check_threshold rule value (present (lookup "value" rule))
      else (if is_text (lookup "type" rule) "range" then check_range rule value else some none)

  abbrev pub first_broken :
      Option (Broken F) → Option (Option (Broken F)) → Option (Option (Broken F))
  first_broken none rest = rest
  first_broken (some b) rest = some (some b)

  -- `_check_constraints`
  unfoldable pub check_constraints : Values F → List (Fields F) → Option (Option (Broken F))
  check_constraints values [] = some none
  check_constraints values (rule ∷ rules) =
      let rest = check_constraints values rules in
      do
        target ← text_or "" (lookup "target_field" rule)
        found ← check_rule rule (field_value values target)
        first_broken found rest

-- `DEFAULT_REACTOR_PARAMS`
module _ {F : Type 0} (numerics : Numerics F) where
  abbrev pub default_reactor_params : Fields F
  default_reactor_params = field "mass_kg" (num (numerics.decimal 1 0)) (
      field "specific_heat_j_kg_k" (num (numerics.decimal 4186 0)) (
        field "heater_max_power_w" (num (numerics.decimal 20000 0)) (
          field "heat_transfer_coeff_w_k" (num (numerics.decimal 100 0)) (
            field "coolant_temp_c" (num (numerics.decimal 20 0)) (
              field "ambient_temp_c" (num (numerics.decimal 25 0)) (
                field "loss_coeff_w_k" (num (numerics.decimal 5 0))
                  (field "pressure_coeff_atm_k" (num (numerics.decimal 1 2)) end)))))))

module _ {F : Type 0} where
  -- `{**base, **override}`
  unfoldable pub merged : Fields F → Fields F → Fields F
  merged base end = base
  merged base (field k v override) = merged (put_field k v base) override

  -- `params[name]` in arithmetic.
  abbrev pub param : Fields F → String → Option (Number F)
  param params name = lookup name params >>= λ v. number_of v

module _ {F : Type 0} (arith : Arith F) where
  -- `_reactor_ode`
  unfoldable pub reactor_ode :
      Fields F → Number F → Number F → Number F → Number F → Option (Number F × Number F)
  reactor_ode params heater_frac cooling_frac temperature pressure = do
    max_power ← param params "heater_max_power_w"
    coefficient ← param params "heat_transfer_coeff_w_k"
    coolant ← param params "coolant_temp_c"
    loss ← param params "loss_coeff_w_k"
    ambient ← param params "ambient_temp_c"
    mass ← param params "mass_kg"
    heat ← param params "specific_heat_j_kg_k"
    per_kelvin ← param params "pressure_coeff_atm_k"
    let heater_power = arith.mul heater_frac max_power
    let cooling_power =
        arith.mul (arith.mul cooling_frac coefficient) (arith.sub temperature coolant)
    let heat_loss = arith.mul loss (arith.sub temperature ambient)
    let slope =
        arith.div (arith.sub (arith.sub heater_power cooling_power) heat_loss) (arith.mul mass heat)
    some (slope, arith.mul per_kelvin slope)
