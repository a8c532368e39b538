-- ===== src/Plc/Operations.antt =====
-- The methods of `PlcAdapterService` on an asset, and `get_health`.
use pcag.Plc.Virtual.{read_virtual_snapshot, preload_image, Image}
use pcag.Plc.Actions.{
  read_mappings, execute_low_level_action, apply_low_level_action, perform, Run, each, Client,
  Python,
}
use pcag.Plc.{Packing}
use Prim.Native.String
use pcag.Base.{
  String, Bool, true, false, not, Option, none, some, List, [], ◌∷◌, str_eq, if◌then◌else◌,
}
use pcag.Base.Dict.{Dict, get, put}
use pcag.Core.Json.{Fields, Json, Arith, lookup, null, end, obj}
use pcag.Plc.Recovery.{run_with_recovery, Connection, Outcome, ok, failed}
use pcag.Plc.Service.{
  error, modify, done, get_connection, Reply, or_key_error, initialize, throw, return,
  ManagedConnection, ExecutorAsset, SensorAsset, Service, M, VirtualAssetRuntime, Modbus,
  Environment, ◌>>=◌,
}

-- `(success, reason, connection_key)`
pub record Execution : Type 0 where
  pub success : Bool
  pub reason : Option String
  pub connection_key : String

pub record Preloaded (F : Type 0) : Type 0 where
  pub asset_id : String
  pub runtime_id : Json F
  pub connection_key : String
  pub current_state : Fields F

pub data Health : Type 0 where
  healthy degraded unhealthy : Health

-- `VirtualAssetRuntime.connection_key`
abbrev pub virtual_key : String → String
virtual_key asset_id = String.◌++◌ "virtual:" asset_id

abbrev pub executed : {A : Type 0} → String → Outcome A → Execution
executed key (ok a) = record { success = true; reason = none; connection_key = key }
executed key (failed e) = record { success = false; reason = some e; connection_key = key }

-- A text is false if it is empty.
abbrev pub has_error : Option String → Bool
has_error none = false
has_error (some e) = not (str_eq e "")

module _ {F : Type 0} where
  abbrev pub dictionary : Option (Json F) → Option (Fields F)
  dictionary (some (obj fs)) = some fs
  dictionary _ = none

  abbrev pub or_null : Option (Json F) → Json F
  or_null none = null
  or_null (some v) = v

  unfoldable pub any_error : Dict (ManagedConnection F) → Bool
  any_error [] = false
  any_error ((key, c) ∷ rest) = if has_error c.state.last_error then true else any_error rest

  -- A virtual runtime has no error.
  abbrev pub status_of : Dict (ManagedConnection F) → Dict (VirtualAssetRuntime F) → Health
  status_of [] [] = unhealthy
  status_of [] (r ∷ rs) = healthy
  status_of (c ∷ cs) rs = if any_error (c ∷ cs) then degraded else healthy

module _ {F W : Type 0} where
  abbrev pub snapshot_or : Option (Fields F) → M F W (Fields F)
  snapshot_or none = throw "a register is missing"
  snapshot_or (some snapshot) = return snapshot

  abbrev pub put_back :
      {A : Type 0}
      → String
      → ManagedConnection F
      → Service F
      → Outcome A × Connection × W
      → Outcome A × Service F × W
  put_back key c s (o, state, w) =
      (o, record s { connections = put key (record c { state = state }) s.connections }, w)

  abbrev pub raised : {A : Type 0} → Outcome A × Service F × W → Reply A × Service F × W
  raised (ok a, s, w) = (done a, s, w)
  raised (failed e, s, w) = (error e, s, w)

  abbrev pub with_image :
      String
      → VirtualAssetRuntime F
      → Service F
      → W
      → Outcome (Unit {0}) × Image
      → Reply Execution × Service F × W
  with_image asset_id runtime s w (o, image) = (
    done (executed (virtual_key asset_id) o),
    record s {
      virtual_assets = put asset_id (record runtime { register_image = image }) s.virtual_assets;
    },
    w,
  )

  -- The writes to a virtual runtime, of which those before an exception stay.
  abbrev pub on_virtual : String → VirtualAssetRuntime F → Run Image (Unit {0}) → M F W Execution
  on_virtual asset_id runtime writes s w =
      with_image asset_id runtime s w (writes runtime.register_image)

  abbrev pub reported :
      {A : Type 0} → String → Outcome A × Service F × W → Reply Execution × Service F × W
  reported key (o, s, w) = (done (executed key o), s, w)

  abbrev pub some_actions : List (Fields F) → M F W (Unit {0})
  some_actions [] = throw "No safe state actions configured"
  some_actions (a ∷ as') = return tt

  abbrev pub preloaded_image : Option Image → M F W Image
  preloaded_image none = throw "a value has no number"
  preloaded_image (some image) = return image

module _ {F W : Type 0} (arith : Arith F) (packing : Packing F) (python : Python F)
    (env : Environment F W) (modbus : Modbus F W) where
  -- `_read_virtual_snapshot`
  unfoldable pub virtual_snapshot : String → M F W (Fields F)
  virtual_snapshot asset_id s w =
      (do
        runtime ← or_key_error (get asset_id s.virtual_assets)
        sensor_asset ← or_key_error (get asset_id s.sensor_assets)
        snapshot_or (
            read_virtual_snapshot arith packing sensor_asset.mappings
              (dictionary (lookup "sensor_state_overlay" runtime.runtime_context))
              runtime.register_image))
        s w

  abbrev pub connect_text : ManagedConnection F → String
  connect_text c = String.◌++◌ "Failed to connect to " (env.key_of c.host c.port)

  -- `_run_with_recovery` on a connection, which is an object that the dictionary holds.
  unfoldable pub recover :
      {A : Type 0}
      → String
      → ManagedConnection F
      → (Client F W → Run W A)
      → Service F
      → W
      → Outcome A × Service F × W
  recover key c fn s w = put_back key c s (
      run_with_recovery (connect_text c) (modbus.connect c.host c.port)
        (fn (modbus.client c.host c.port)) c.state w)

  abbrev pub live_snapshot : String → SensorAsset F → M F W (Fields F × String)
  live_snapshot asset_id asset s w =
      (do
        key ← or_key_error (get asset_id s.sensor_asset_connections)
        c ← get_connection key
        snapshot ← λ s' w'. raised (
            recover key c (λ client. read_mappings python client arith packing asset.mappings end)
              s' w')
        return (snapshot, key))
        s w

  abbrev pub snapshot_of :
      String → SensorAsset F → Option (VirtualAssetRuntime F) → M F W (Fields F × String)
  snapshot_of asset_id asset none = live_snapshot asset_id asset
  snapshot_of asset_id asset (some runtime) = do
    snapshot ← virtual_snapshot asset_id
    return (snapshot, virtual_key asset_id)

  -- `read_snapshot`
  unfoldable pub read_snapshot : String → M F W (Fields F × String)
  read_snapshot asset_id = do
    _ ← initialize arith env
    λ s w.
        (do
          asset ← or_key_error (get asset_id s.sensor_assets)
          snapshot_of asset_id asset (get asset_id s.virtual_assets))
          s w

  unfoldable pub on_device :
      String → ManagedConnection F → (Client F W → Run W (Unit {0})) → M F W Execution
  on_device key c fn s w = reported key (recover key c fn s w)

  abbrev pub execute_on :
      String
      → ExecutorAsset F
      → List (Fields F)
      → ManagedConnection F
      → Option (VirtualAssetRuntime F)
      → M F W Execution
  execute_on asset_id asset actions c (some runtime) =
      on_virtual asset_id runtime
        (perform arith packing python (apply_low_level_action python) asset.action_mappings actions)
  execute_on asset_id asset actions c none = on_device asset.connection_key c (λ client.
      perform arith packing python (execute_low_level_action python client) asset.action_mappings
        actions)

  -- `execute_actions`
  unfoldable pub execute_actions : String → List (Fields F) → M F W Execution
  execute_actions asset_id actions = do
    _ ← initialize arith env
    λ s w.
        (do
          asset ← or_key_error (get asset_id s.executor_assets)
          c ← get_connection asset.connection_key
          execute_on asset_id asset actions c (get asset_id s.virtual_assets))
          s w

  abbrev pub safe_state_on :
      String → ExecutorAsset F → Option (VirtualAssetRuntime F) → M F W Execution
  safe_state_on asset_id asset (some runtime) =
      on_virtual asset_id runtime (each (apply_low_level_action python) asset.safe_state_actions)
  safe_state_on asset_id asset none = do
    c ← get_connection asset.connection_key
    on_device asset.connection_key c
        (λ client. each (execute_low_level_action python client) asset.safe_state_actions)

  -- `safe_state`, by its second definition, which replaces the first.
  unfoldable pub safe_state : String → M F W Execution
  safe_state asset_id = do
    _ ← initialize arith env
    λ s w.
        (do
          asset ← or_key_error (get asset_id s.executor_assets)
          _ ← some_actions asset.safe_state_actions
          safe_state_on asset_id asset (get asset_id s.virtual_assets))
          s w

  -- `preload_runtime`; a missing context or state is empty.
  unfoldable pub preload_runtime : String → Fields F → Fields F → M F W (Preloaded F)
  preload_runtime asset_id context initial = do
    _ ← initialize arith env
    λ s w.
        (do
          sensor_asset ← or_key_error (get asset_id s.sensor_assets)
          executor_asset ← or_key_error (get asset_id s.executor_assets)
          image ← preloaded_image (preload_image arith packing sensor_asset.mappings initial [])
          _ ← modify λ s'. record s' {
            virtual_assets =
                put asset_id
                  (record {
                    register_image = image;
                    runtime_context = context;
                    last_preload_ms = env.now w;
                  })
                  s'.virtual_assets;
          }
          snapshot ← virtual_snapshot asset_id
          return (record {
            asset_id = asset_id;
            runtime_id = or_null (lookup "runtime_id" context);
            connection_key = virtual_key asset_id;
            current_state = snapshot;
          }))
          s w

module _ {F W : Type 0} (arith : Arith F) (env : Environment F W) where
  -- The status of `get_health`.
  unfoldable pub get_health : M F W Health
  get_health = do
    _ ← initialize arith env
    λ s w. (done (status_of s.connections s.virtual_assets), s, w)
