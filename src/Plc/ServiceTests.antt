-- ===== src/Plc/ServiceTests.antt =====
-- A service with one asset, on a device that counts what it is asked.
use pcag.Plc.Preserves.{handle-IsWellFormed}
use pcag.Plc.Answers.{execute-read}
use pcag.Plc.Replies.{handle-Answers, Answers}
use pcag.Plc.Kept.{initialized-IsWellFormed, virtual-IsWellFormed}
use pcag.Core.Int.{pos, ℤ}
use pcag.Core.Json.{obj, field, arr, float, str, Items, end, num, int, Fields, lookup, Json}
use pcag.Plc.WellFormed.{
  add_sensor_asset-IsWellFormed, add_executor_asset-IsWellFormed, IsWellFormed,
}
use pcag.Plc.Isolation.{runtime-Spared, Spared}
use pcag.Plc.Operations.{
  recover, safe_state, read_snapshot, on_device, virtual_key, execute_actions,
}
use pcag.Plc.Actions.{
  translated, low_level_action, execute_low_level_action, each, normalize_actions, perform,
  error_answer, exception, answer, Answer, write_action, Python, ActionMapping,
}
use pcag.Base.{ℕ, ◌≡◌, refl, true, false, Option, none, some, List, [], ◌∷◌}
use pcag.Base.Dict.{Dict, get, put}
use pcag.Plc.Service.{
  load_assets, unconnected, load_executor_assets, VirtualAssetRuntime, initialize, ExecutorAsset,
  SensorAsset, Environment, ensure_connection, Modbus, ExecutorConf, Service, done, ◌>>=◌,
}
use pcag.Plc.Recovery.{run_with_recovery, ok, opened}
use pcag.Plc.Routes.{handle, execute, safe, preload}
use pcag.Core.Samples.{numbers}
use pcag.Plc.Tests.{packing, temperature}

abbrev integer : Json ℕ → Option ℤ
integer (num (int z)) = some z
integer _ = none

abbrev items : Json ℕ → Option (Items ℕ)
items (arr xs) = some xs
items _ = none

abbrev python : Python ℕ
python = record {
  int_of = integer;
  truncated = λ x. elim x [ int z ↦ some z | float n ↦ some (pos n) ];
  iterate = items;
  describe = λ f. "fault";
}

abbrev host : Json ℕ
host = str "plc"

abbrev port : Json ℕ
port = num (int (pos 502))

abbrev arm_sensors : SensorAsset ℕ
arm_sensors = record { source = str "modbus"; mappings = temperature ∷ [] }

-- `set_temperature` writes the parameter `value` to the register of the temperature.
abbrev set_temperature : Dict (List (ActionMapping ℕ))
set_temperature =
    (
      "set_temperature",
      record { param = "value"; register = num (int (pos 100)); scale = none } ∷ [],
    )
    ∷ []

abbrev cool_down : List (Fields ℕ)
cool_down = write_action (num (int (pos 100))) (pos 20) ∷ []

abbrev executor_conf : ExecutorConf ℕ
executor_conf = record {
  type = str "plc_adapter";
  host = host;
  port = port;
  action_mappings = ("arm", set_temperature) ∷ [];
  safe_state_actions = ("arm", cool_down) ∷ [];
}

abbrev env : Environment ℕ (List ℤ)
env = record {
  pymodbus = true;
  sensor_config = λ w. ok (record { host = host; port = port; assets = ("arm", arm_sensors) ∷ [] });
  executor_config = λ w.
      ok (record { executors = ("main", executor_conf) ∷ []; asset_map = ("arm", "main") ∷ [] });
  key_of = λ h p. "plc:502";
  now = λ w. 5;
}

-- The second operation of the device fails.
abbrev written : ℤ → List ℤ → Answer (Unit {0}) × List ℤ
written n [] = (answer tt, n ∷ [])
written n (x ∷ []) = (exception "timeout", pos 0 ∷ x ∷ [])
written n (x ∷ y ∷ w) = (answer tt, n ∷ x ∷ y ∷ w)

abbrev modbus : Modbus ℕ (List ℤ)
modbus = record {
  connect = λ h p w. (opened, w);
  client = λ h p. record {
    read_holding_registers = λ r n w. (answer (pos 7 ∷ []), w);
    write_register = λ r n w. written n w;
    write_registers = λ r vs w. (error_answer "illegal", w);
  };
}

abbrev empty : Service ℕ
empty = record {
  connections = [];
  sensor_assets = [];
  sensor_asset_connections = [];
  executor_assets = [];
  virtual_assets = [];
  initialized = false;
}

empty-IsWellFormed : IsWellFormed empty
unfolding get
empty-IsWellFormed = record {
  sensors = λ a x e. cc;
  executors = λ a x e. cc;
  virtuals = λ a r e. cc;
  sound = λ k c e. cc;
}

handle-IsWellFormed_example :
    IsWellFormed (handle numbers packing python env modbus (preload "arm" end end) empty []).1
handle-IsWellFormed_example =
    handle-IsWellFormed numbers packing python env modbus (preload "arm" end end) empty []
      empty-IsWellFormed

abbrev arm_executor : ExecutorAsset ℕ
arm_executor = record {
  executor_name = "main";
  connection_key = "plc:502";
  action_mappings = set_temperature;
  safe_state_actions = cool_down;
}

abbrev arm_runtime : VirtualAssetRuntime ℕ
arm_runtime = record {
  register_image = (pos 100, pos 0) ∷ [];
  runtime_context = end;
  last_preload_ms = 5;
}

-- The service that the configuration gives.
abbrev configured : Service ℕ
configured = record {
  connections =
      ("plc:502", record { host = host; port = port; state = unconnected numbers env }) ∷ [];
  sensor_assets = ("arm", arm_sensors) ∷ [];
  sensor_asset_connections = ("arm", "plc:502") ∷ [];
  executor_assets = ("arm", arm_executor) ∷ [];
  virtual_assets = [];
  initialized = true;
}

abbrev preloaded_service : Service ℕ
preloaded_service = record configured { virtual_assets = ("arm", arm_runtime) ∷ [] }

configured-IsWellFormed : IsWellFormed configured
unfolding ensure_connection get put
configured-IsWellFormed = initialized-IsWellFormed _ true (
    add_executor_asset-IsWellFormed numbers env "arm" "main" executor_conf _ (
      add_sensor_asset-IsWellFormed numbers env host port "arm" arm_sensors empty
        empty-IsWellFormed))

preloaded-IsWellFormed : IsWellFormed preloaded_service
unfolding get put
preloaded-IsWellFormed =
    virtual-IsWellFormed configured "arm" arm_runtime configured-IsWellFormed (arm_sensors, refl)
      (arm_executor, refl)

runtime-Spared_example :
    Spared numbers packing python env modbus "arm" preloaded_service []
      (read_snapshot numbers packing python env modbus "arm" preloaded_service [])
    × Spared numbers packing python env modbus "arm" preloaded_service []
        (execute_actions numbers packing python env modbus "arm" cool_down preloaded_service [])
    × Spared numbers packing python env modbus "arm" preloaded_service []
        (safe_state numbers packing python env modbus "arm" preloaded_service [])
unfolding get
runtime-Spared_example =
    runtime-Spared numbers packing python env modbus "arm" preloaded_service [] cool_down
      arm_runtime refl refl

-- From the initial state, the first request loads the configuration.
loaded : initialize numbers env empty [] ≡ (done tt, configured, [])
unfolding initialize load_executor_assets load_assets ensure_connection ◌>>=◌ get put
loaded = refl

-- An execution on the device whose second write times out: after the reconnection both writes are
-- sent, the first one a second time.
repeated :
    (execute_actions numbers packing python env modbus "arm"
      (write_action (num (int (pos 100))) (pos 1) ∷ write_action (num (int (pos 100))) (pos 2) ∷ [])
      configured
      []).2
    ≡ pos 2 ∷ pos 1 ∷ pos 0 ∷ pos 1 ∷ []
unfolding execute_actions initialize on_device recover run_with_recovery perform normalize_actions
    each execute_low_level_action low_level_action translated lookup ◌>>=◌ get put
repeated = refl

-- The actions of an agent, translated by the mapping.
by_mapping :
    (execute_actions numbers packing python env modbus "arm"
      (field "action_type"
          (str "set_temperature")
          (field "params" (obj (field "value" (num (int (pos 30))) end)) end)
        ∷ [])
      configured
      []).2
    ≡ pos 30 ∷ []
unfolding execute_actions initialize on_device recover run_with_recovery perform normalize_actions
    each execute_low_level_action low_level_action translated lookup ◌>>=◌ get put
by_mapping = refl

execute-read_example :
    ((execute_actions numbers packing python env modbus "arm" cool_down preloaded_service []).0
      ≡ done (record { success = true; reason = none; connection_key = virtual_key "arm" }))
    × ((snapshot : Fields ℕ) × ((read_snapshot numbers packing python env modbus "arm"
            (execute_actions numbers packing python env modbus "arm" cool_down preloaded_service
              []).1
            (execute_actions numbers packing python env modbus "arm" cool_down preloaded_service
              []).2).0
          ≡ done (snapshot, virtual_key "arm"))
        × (lookup "temperature" snapshot ≡ some (num (int (pos 20)))))
unfolding get lookup
execute-read_example =
    execute-read numbers packing python env modbus "arm" (pos 20) preloaded_service []
      (str "modbus") arm_executor arm_runtime [] temperature [] (λ z. refl) refl
      preloaded-IsWellFormed refl refl refl refl ((refl, refl), tt) tt

handle-Answers_example :
    Answers numbers packing python env modbus "arm" cool_down configured []
      (get "arm" configured.executor_assets)
      (handle numbers packing python env modbus (execute "t" "arm" cool_down) configured [])
      (handle numbers packing python env modbus (safe "arm") configured [])
handle-Answers_example =
    handle-Answers numbers packing python env modbus "t" "arm" cool_down configured [] refl
      configured-IsWellFormed
