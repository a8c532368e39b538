-- ===== src/Plc/Service.antt =====
-- `PlcAdapterService`: the mappings of the assets, the connections, and the virtual runtimes. The
-- texts of its own exceptions are left out, or shortened to what does not vary.
use pcag.Core.Int.{pos}
use pcag.Plc.{Mapping}
use pcag.Plc.Actions.{Client, is_text, ActionMapping}
use pcag.Plc.Virtual.{Image}
use pcag.Base.{
  ℕ, String, Bool, true, false, not, ◌||◌, Option, none, some, List, [], ◌∷◌, str_eq, if◌then◌else◌,
}
use pcag.Base.Dict.{Dict, get, put}
use pcag.Core.Json.{
  obj, field, arr, cons, str, num, bool, cons, arr, str, int, num, Fields, bool, Arith, Json, null,
  end, nil,
}
use pcag.Plc.Recovery.{Connection, Opening, Outcome, ok, failed}

-- What lies behind the connections: the hosts and ports of `modbus` are where a client connects to.
pub record Modbus (F W : Type 0) : Type 0 where
  pub connect : Json F → Json F → W → Opening × W
  pub client : Json F → Json F → Client F W

pub record SensorAsset (F : Type 0) : Type 0 where
  pub source : Json F
  pub mappings : List (Mapping F)

-- sensor_mappings.yaml; what is missing is null.
pub record SensorConfig (F : Type 0) : Type 0 where
  pub host : Json F
  pub port : Json F
  pub assets : Dict (SensorAsset F)

-- An entry of `executors` in executor_mappings.yaml.
pub record ExecutorConf (F : Type 0) : Type 0 where
  pub type : Json F
  pub host : Json F
  pub port : Json F
  pub action_mappings : Dict (Dict (List (ActionMapping F)))
  pub safe_state_actions : Dict (List (Fields F))

pub record ExecutorConfig (F : Type 0) : Type 0 where
  pub executors : Dict (ExecutorConf F)
  pub asset_map : Dict String

-- `load_required_config` of the two files, which may raise, whether pymodbus is installed,
-- `f"{host}:{port}"`, and the clock.
pub record Environment (F W : Type 0) : Type 0 where
  pub pymodbus : Bool
  pub sensor_config : W → Outcome (SensorConfig F)
  pub executor_config : W → Outcome (ExecutorConfig F)
  pub key_of : Json F → Json F → String
  pub now : W → ℕ

pub record ManagedConnection (F : Type 0) : Type 0 where
  pub host : Json F
  pub port : Json F
  pub state : Connection

pub record VirtualAssetRuntime (F : Type 0) : Type 0 where
  pub register_image : Image
  pub runtime_context : Fields F
  pub last_preload_ms : ℕ

pub record ExecutorAsset (F : Type 0) : Type 0 where
  pub executor_name : String
  pub connection_key : String
  pub action_mappings : Dict (List (ActionMapping F))
  pub safe_state_actions : List (Fields F)

pub record Service (F : Type 0) : Type 0 where
  pub connections : Dict (ManagedConnection F)
  pub sensor_assets : Dict (SensorAsset F)
  pub sensor_asset_connections : Dict String
  pub executor_assets : Dict (ExecutorAsset F)
  pub virtual_assets : Dict (VirtualAssetRuntime F)
  pub initialized : Bool

-- What a method ends with; the handlers tell a KeyError from the other exceptions.
pub data Reply (A : Type 0) : Type 0 where
  done : A → Reply A
  key_error : Reply A
  error : String → Reply A

module _ (F W : Type 0) where
  abbrev pub M : Type 0 → Type 0
  M A = Service F → W → Reply A × Service F × W

module _ {F W : Type 0} where
  abbrev pub return : {A : Type 0} → A → M F W A
  return a s w = (done a, s, w)

  abbrev pub throw : {A : Type 0} → String → M F W A
  throw e s w = (error e, s, w)

  abbrev pub after :
      {A B : Type 0} → (A → M F W B) → Reply A × Service F × W → Reply B × Service F × W
  after k (done a, s, w) = k a s w
  after k (key_error, s, w) = (key_error, s, w)
  after k (error e, s, w) = (error e, s, w)

  infixl 5 ◌>>=◌
  unfoldable pub ◌>>=◌ : {A B : Type 0} → M F W A → (A → M F W B) → M F W B
  ◌>>=◌ m k s w = after k (m s w)

  abbrev pub or_key_error : {A : Type 0} → Option A → M F W A
  or_key_error none s w = (key_error, s, w)
  or_key_error (some a) s w = (done a, s, w)

  abbrev pub or_throw : {A : Type 0} → Outcome A → M F W A
  or_throw (ok a) s w = (done a, s, w)
  or_throw (failed e) s w = (error e, s, w)

  abbrev pub modify : (Service F → Service F) → M F W (Unit {0})
  modify f s w = (done tt, f s, w)

module _ {F W : Type 0} (arith : Arith F) (env : Environment F W) where
  -- `bool(value)`
  abbrev pub truthy : Json F → Bool
  truthy null = false
  truthy (bool b) = b
  truthy (num n) = not (arith.eqb n (int (pos 0)))
  truthy (str s) = not (str_eq s "")
  truthy (arr nil) = false
  truthy (arr (cons x xs)) = true
  truthy (obj end) = false
  truthy (obj (field k v fs)) = true

  abbrev pub unconnected : Connection
  unconnected = record { client = false; connected = false; last_error = none }

  abbrev pub with_connection :
      String → Json F → Json F → Option (ManagedConnection F) → Service F → Service F
  with_connection key host port none s = record s {
    connections = put key (record { host = host; port = port; state = unconnected }) s.connections;
  }
  with_connection key host port (some c) s = s

  -- `_ensure_connection`; the key is `env.key_of host port`.
  unfoldable pub ensure_connection : Json F → Json F → Service F → Service F
  ensure_connection host port s =
      let key = env.key_of host port in with_connection key host port (get key s.connections) s

  abbrev pub add_sensor_asset : Json F → Json F → String → SensorAsset F → Service F → Service F
  add_sensor_asset host port asset_id asset s =
      let s' = ensure_connection host port s in
      record s' {
        sensor_assets = put asset_id asset s'.sensor_assets;
        sensor_asset_connections = put asset_id (env.key_of host port) s'.sensor_asset_connections;
      }

  unfoldable pub load_assets : Json F → Json F → Dict (SensorAsset F) → Service F → Service F
  load_assets host port [] s = s
  load_assets host port ((asset_id, asset) ∷ rest) s = load_assets host port rest (
      if is_text (some asset.source) "modbus"
      then add_sensor_asset host port asset_id asset s
      else s)

  -- `_load_sensor_assets`
  abbrev pub load_sensor_assets : SensorConfig F → M F W (Unit {0})
  load_sensor_assets config =
      if not (truthy config.host) || not (truthy config.port)
      then throw "sensor_mappings.yaml must define modbus.host and modbus.port"
      else modify (load_assets config.host config.port config.assets)

  abbrev pub list_or_empty : {A : Type 0} → Option (List A) → List A
  list_or_empty none = []
  list_or_empty (some xs) = xs

  abbrev pub add_executor_asset : String → String → ExecutorConf F → Service F → Service F
  add_executor_asset asset_id name conf s =
      let s' = ensure_connection conf.host conf.port s in
      record s' {
        executor_assets =
            put asset_id
              (record {
                executor_name = name;
                connection_key = env.key_of conf.host conf.port;
                action_mappings = list_or_empty (get asset_id conf.action_mappings);
                safe_state_actions = list_or_empty (get asset_id conf.safe_state_actions);
              })
              s'.executor_assets;
      }

  abbrev pub add_executor : String → String → ExecutorConf F → M F W (Unit {0})
  add_executor asset_id name conf =
      if is_text (some conf.type) "modbus" || is_text (some conf.type) "plc_adapter"
      then (if not (truthy conf.host) || not (truthy conf.port)
          then throw "executor_mappings.yaml: an executor must define host and port"
          else modify (add_executor_asset asset_id name conf))
      else return tt

  abbrev pub add_named : String → String → Option (ExecutorConf F) → M F W (Unit {0})
  add_named asset_id name none = return tt
  add_named asset_id name (some conf) = add_executor asset_id name conf

  -- `_load_executor_assets`; an exception keeps the assets before it.
  unfoldable pub load_executor_assets : Dict (ExecutorConf F) → Dict String → M F W (Unit {0})
  load_executor_assets executors [] = return tt
  load_executor_assets executors ((asset_id, name) ∷ rest) = do
    _ ← add_named asset_id name (get name executors)
    load_executor_assets executors rest

  abbrev pub load_configs : M F W (Unit {0})
  load_configs s w =
      (do
        sensor_config ← or_throw (env.sensor_config w)
        executor_config ← or_throw (env.executor_config w)
        _ ← load_sensor_assets sensor_config
        _ ← load_executor_assets executor_config.executors executor_config.asset_map
        modify (λ s'. record s' { initialized = true }))
        s w

  -- `initialize`
  unfoldable pub initialize : M F W (Unit {0})
  initialize s w =
      if s.initialized
      then (done tt, s, w)
      else (if env.pymodbus then load_configs s w else (error "pymodbus not installed", s, w))

abbrev pub closed : Connection → Connection
closed c = record c { client = false; connected = false }

module _ {F : Type 0} where
  unfoldable pub close_all : Dict (ManagedConnection F) → Dict (ManagedConnection F)
  close_all [] = []
  close_all ((key, c) ∷ rest) = (key, record c { state = closed c.state }) ∷ close_all rest

  -- `shutdown`, where a close that raises is ignored.
  unfoldable pub shutdown : Service F → Service F
  shutdown s = record s {
    connections = close_all s.connections;
    virtual_assets = [];
    initialized = false;
  }

module _ {F W : Type 0} where
  abbrev pub connection_or_throw : Option (ManagedConnection F) → M F W (ManagedConnection F)
  connection_or_throw none s w = (error "Unknown PLC connection", s, w)
  connection_or_throw (some c) s w = (done c, s, w)

  -- `_get_connection`
  abbrev pub get_connection : String → M F W (ManagedConnection F)
  get_connection key s w = connection_or_throw (get key s.connections) s w
