-- ===== src/Modbus.antt =====
-- pcag/plugins/executor/modbus_executor.py: the executor that writes the registers of a device over
-- Modbus TCP. `W` is the world the client acts on; the client and Python's conversions are
-- parameters. A dictionary of the configuration has the keys that the code reads with `[ ]`.
pub mod Execute
pub mod Reports
mod Tests
use pcag.Base.{
  ℕ, ◌+◌, ◌*◌, String, Bool, true, false, ◌&&◌, Option, none, some, List, [], ◌∷◌, if◌then◌else◌,
}
use pcag.Base.Dict.{Dict, get}
use pcag.Core.Int.{ℤ, pos}
use pcag.Core.Json.{
  null, bool, num, str, arr, obj, nil, cons, end, Arith, Fields, int, Items, Json, lookup, Number,
}
use pcag.Plc.Actions.{
  ActionMapping, Answer, answer, error_answer, exception, has, is_text, present, write_action,
}

-- What code ends with that may raise; `other_error` is any exception that is no ValueError.
pub data Attempt (A : Type 0) : Type 0 where
  done : A → Attempt A
  value_error other_error : String → Attempt A

abbrev pub Run : Type 0 → Type 0 → Type 0
Run W A = W → Attempt A × W

abbrev pub then_do : {A B : Type 0} → Attempt A → (A → Attempt B) → Attempt B
then_do (done a) k = k a
then_do (value_error e) k = value_error e
then_do (other_error e) k = other_error e

module _ {W : Type 0} where
  abbrev pub then_run : {A B : Type 0} → (A → Run W B) → Attempt A × W → Attempt B × W
  then_run k (done a, w) = k a w
  then_run k (value_error e, w) = (value_error e, w)
  then_run k (other_error e, w) = (other_error e, w)

-- What the texts of the executor's own errors are made of.
pub data Problem (F : Type 0) : Type 0 where
  no_mapping : String → Fields F → Problem F
  missing_param : String → Fields F → Problem F
  not_a_dict : Json F → Problem F
  missing_register missing_value missing_values : Fields F → Problem F
  unknown_type : Option (Json F) → Problem F
  unhashable : Json F → Problem F
  modbus_error no_safe_state : String → Problem F
  unreachable : Problem F

-- `int(v)` and `float(v)`, `int(x)` of a float, and the four bytes of `struct.pack('>f', x)`.
pub record Python (F : Type 0) : Type 0 where
  pub int_of : Json F → Attempt ℤ
  pub float_of : Json F → Attempt (Number F)
  pub truncated : Number F → Attempt ℤ
  pub pack_float : Number F → Attempt (ℕ × ℕ × ℕ × ℕ)
  pub one : Number F
  pub describe : Problem F → String

-- `ModbusTcpClient` and its methods; `installed` is whether it could be imported.
pub record Client (F W : Type 0) : Type 0 where
  pub installed : Bool
  pub create : Run W (Unit {0})
  pub close : Run W (Unit {0})
  pub connect : Run W Bool
  pub write_register : Json F → ℤ → W → Answer (Unit {0}) × W
  pub write_registers : Json F → Json F → W → Answer (Unit {0}) × W

pub record Config (F : Type 0) : Type 0 where
  pub safe_state_actions : Dict (List (Fields F))
  pub action_mappings : Dict (Dict (List (ActionMapping F)))

-- `has_client` is whether `_client` is set.
pub record Executor (W : Type 0) : Type 0 where
  pub has_client : Bool
  pub connected : Bool
  pub last_error : Option String
  pub world : W

module _ {F W : Type 0} (python : Python F) (client : Client F W) where
  abbrev pub settled : Bool → Bool → Option String → W → Bool × Executor W
  settled h c e w = (c, record { has_client = h; connected = c; last_error = e; world = w })

  abbrev pub connected_or_not : Attempt Bool × W → Bool × Executor W
  connected_or_not (done true, w) = settled true true none w
  connected_or_not (done false, w) = settled true false (some (python.describe unreachable)) w
  connected_or_not (value_error e, w) = settled true false (some e) w
  connected_or_not (other_error e, w) = settled true false (some e) w

  abbrev pub created : Bool → Attempt (Unit {0}) × W → Bool × Executor W
  created h (done u, w) = connected_or_not (client.connect w)
  created h (value_error e, w) = settled h false (some e) w
  created h (other_error e, w) = settled h false (some e) w

  abbrev pub closed_first : Bool → Attempt (Unit {0}) × W → Bool × Executor W
  closed_first h (done u, w) = created h (client.create w)
  closed_first h (value_error e, w) = settled h false (some e) w
  closed_first h (other_error e, w) = settled h false (some e) w

  -- `_connect`, which closes an old client first.
  unfoldable pub connect : Executor W → Bool × Executor W
  connect x =
      if client.installed
      then closed_first x.has_client
          (if x.has_client then client.close x.world else (done tt, x.world))
      else (false, record x { last_error = some "pymodbus not installed" })

  abbrev pub initialize : Executor W → Executor W
  initialize x =
      if client.installed
      then (connect x).1
      else record x { last_error = some "pymodbus not installed" }

  abbrev pub ensure_connected : Executor W → Bool × Executor W
  ensure_connected x = if x.connected then (true, x) else connect x

  -- What a write to the device ends with: an answer with `isError()` raises.
  abbrev pub checked : Answer (Unit {0}) × W → Attempt Bool × W
  checked (answer u, w) = (done true, w)
  checked (error_answer e, w) = (other_error (python.describe (modbus_error e)), w)
  checked (exception e, w) = (other_error e, w)

  -- `_float32_to_registers`: the four bytes as two big-endian words.
  abbrev pub float32_to_registers : ℕ × ℕ × ℕ × ℕ → Json F
  float32_to_registers (a, b, c, d) =
      arr (cons (num (int (pos (a * 256 + b)))) (cons (num (int (pos (c * 256 + d)))) nil))

  abbrev pub float_values : Json F → Attempt (Json F)
  float_values v =
      then_do (python.float_of v)
        λ x. then_do (python.pack_float x) λ bytes. done (float32_to_registers bytes)

  -- `action.get("data_type", "uint16") == "float32"`
  abbrev pub float_or_missing : Fields F → Option (Json F) → Attempt (Json F)
  float_or_missing action none = value_error (python.describe (missing_values action))
  float_or_missing action (some v) =
      if is_text (lookup "data_type" action) "float32"
      then float_values v
      else value_error (python.describe (missing_values action))

  abbrev pub values_to_write : Fields F → Option (Json F) → Attempt (Json F)
  values_to_write action (some vs) = done vs
  values_to_write action none = float_or_missing action (present (lookup "value" action))

  abbrev pub value_to_write : Fields F → Option (Json F) → Attempt ℤ
  value_to_write action none = value_error (python.describe (missing_value action))
  value_to_write action (some v) = python.int_of v

  -- The body of `try` in `_execute_single_action`: `done false` is the unknown type.
  abbrev pub write_by_type : Fields F → Json F → Option (Json F) → Run W Bool
  write_by_type action register type w =
      if is_text type "write_register"
      then then_run (λ n w'. checked (client.write_register register n w'))
          (value_to_write action (present (lookup "value" action)), w)
      else (if is_text type "write_registers"
          then then_run (λ vs w'. checked (client.write_registers register vs w'))
              (values_to_write action (present (lookup "values" action)), w)
          else (done false, w))

  unfoldable pub write : Fields F → Run W Bool
  write action w = elim (present (lookup "register" action)) [
    | none ↦ (value_error (python.describe (missing_register action)), w)
    | some register ↦ write_by_type action register (lookup "type" action) w
  ]

  abbrev pub after_write : Fields F → Executor W → Attempt Bool × W → Bool × Executor W
  after_write action x (done true, w) = (true, record x { last_error = none; world = w })
  after_write action x (done false, w) = (
    false,
    record x {
      last_error = some (python.describe (unknown_type (lookup "type" action)));
      world = w;
    },
  )
  after_write action x (value_error e, w) = (false, record x { last_error = some e; world = w })
  after_write action x (other_error e, w) = (false, record x { last_error = some e; world = w })

  unfoldable pub execute_single_action : Fields F → Executor W → Bool × Executor W
  execute_single_action action x = after_write action x (write action x.world)

  abbrev pub if_sent : (Executor W → Bool × Executor W) → Bool × Executor W → Bool × Executor W
  if_sent k (true, x) = k x
  if_sent k (false, x) = (false, x)

  -- The loop over the translated writes, which ends with the first that fails.
  unfoldable pub execute_each : List (Fields F) → Executor W → Bool × Executor W
  execute_each [] x = (true, x)
  execute_each (a ∷ as') x = if_sent (λ x'. execute_each as' x') (execute_single_action a x)
