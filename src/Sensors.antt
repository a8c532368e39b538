-- ===== src/Sensors.antt =====
-- pcag/apps/sensor_gateway/routes.py: the choice of a source for an asset, and the handler that
-- hashes what the source reads. `production` is the test of PCAG_ENV.
pub mod Snapshot
mod Tests
use pcag.Core.Hash.{compute_sensor_hash, Hashing}
use pcag.Base.{
  ◌>>=◌, ℕ, ◌+◌, ◌≤◌, ◌<◌, ◌≡◌, ◌≢◌, ◌↔◌, ◌⊎◌, inl, inr, refl, sym, ap, arith, zero, suc, String,
  Bool, true, false, not, ◌&&◌, ◌||◌, Option, none, some, List, [], ◌∷◌, ◌++◌, ◌∙◌, str_eq, eq_iff,
  if◌then◌else◌, Bool-cases, Option-cases, ltb, leb, ◌==◌,
}
use pcag.Base.Dict.{Dict, get, put}
use pcag.Core.Json.{Json, Fields, lookup, null, obj, end, field}

pub data Source : Type 0 where
  modbus mock isaac : Source

-- An entry of `assets` in sensor_mappings.yaml.
pub record AssetProps : Type 0 where
  pub source : Option String
  pub has_mappings : Bool

pub record Config : Type 0 where
  pub plc_adapter_url : Bool
  pub safety_cluster_url : Bool
  pub assets : Dict AssetProps

-- `CompositeSensorSource`, once it is initialized: the sources that it has, and the routes.
pub record Composite : Type 0 where
  pub sources : List Source
  pub asset_routing : Dict Source

-- `get_sensor_mappings` with `get_service_urls`, the sources and the clock; `none` is an exception.
pub record Plant (F W : Type 0) : Type 0 where
  pub config : W → Option Config
  pub read : Source → String → W → Option (Fields F) × W
  pub now : W → ℕ

pub record SensorSnapshotResponse (F : Type 0) : Type 0 where
  pub asset_id : String
  pub timestamp_ms : ℕ
  pub sensor_snapshot : Fields F
  pub sensor_snapshot_hash : String
  pub reliable : Bool

-- A response, or HTTPException(500, …).
pub data Response (F : Type 0) : Type 0 where
  snapshot : SensorSnapshotResponse F → Response F
  http_error : ℕ → Response F

-- Where the code looks for the route of an asset.
pub data Route : Type 0 where
  to : Source → Route
  forbidden nowhere : Route

abbrev pub auto_route : Bool → Route
auto_route true = to modbus
auto_route false = nowhere

abbrev pub named_route : Bool → String → Bool → Route
named_route production preferred has_mappings =
    if str_eq preferred "isaac"
    then to isaac
    else (if str_eq preferred "mock"
        then (if production then forbidden else to mock)
        else (if str_eq preferred "modbus" then to modbus else auto_route has_mappings))

-- A missing source is "auto".
abbrev pub route_of : Bool → AssetProps → Route
route_of production props =
    named_route production (elim props.source [ none ↦ "auto" | some s ↦ s ]) props.has_mappings

abbrev pub add_route : String → Route → Dict Source → Option (Dict Source)
add_route asset_id (to s) routing = some (put asset_id s routing)
add_route asset_id forbidden routing = none
add_route asset_id nowhere routing = some routing

-- The loop over the assets.
unfoldable pub build_routing : Bool → Dict AssetProps → Dict Source → Option (Dict Source)
build_routing production [] routing = some routing
build_routing production ((asset_id, props) ∷ rest) routing = do
  routing' ← add_route asset_id (route_of production props) routing
  build_routing production rest routing'

abbrev pub sources_of : Bool → List Source
sources_of true = modbus ∷ isaac ∷ []
sources_of false = modbus ∷ mock ∷ isaac ∷ []

-- `initialize`: both services must have a URL.
unfoldable pub initialize : Bool → Config → Option Composite
initialize production config =
    if config.plc_adapter_url && config.safety_cluster_url
    then (build_routing production config.assets [] >>= λ routing.
        some (record { sources = sources_of production; asset_routing = routing }))
    else none

abbrev pub same_source : Source → Source → Bool
same_source modbus modbus = true
same_source mock mock = true
same_source isaac isaac = true
same_source _ _ = false

unfoldable pub has_source : Source → List Source → Bool
has_source s [] = false
has_source s (t ∷ ts) = if same_source t s then true else has_source s ts

module _ {F : Type 0} where
  -- `d.pop(key, None)`
  unfoldable pub remove : String → Fields F → Fields F
  remove k end = end
  remove k (field j v fs) = if str_eq j k then fs else field j v (remove k fs)

  -- What is hashed: the payload, if it is a dictionary that is not empty, or else the data.
  abbrev pub hash_payload : Option (Json F) → Fields F → Json F
  hash_payload (some (obj (field k v fs))) sensor_data = obj (field k v fs)
  hash_payload _ sensor_data = obj sensor_data

  abbrev pub non_empty : Fields F → Bool
  non_empty end = false
  non_empty (field k v fs) = true

module _ {F W : Type 0} (hashing : Hashing F) (plant : Plant F W) (production : Bool) where
  -- `read_snapshot` of the composite.
  abbrev pub read_from : Composite → String → Option Source → W → Option (Fields F) × W
  read_from c asset_id none w = (none, w)
  read_from c asset_id (some s) w =
      if has_source s c.sources then plant.read s asset_id w else (none, w)

  unfoldable pub read_snapshot : Composite → String → W → Option (Fields F) × W
  read_snapshot c asset_id w = read_from c asset_id (get asset_id c.asset_routing) w

  abbrev pub response_of : String → Fields F → W → Response F
  response_of asset_id read w =
      let sensor_data = remove "__integrity_hash_payload" read in
      snapshot (record {
        asset_id = asset_id;
        timestamp_ms = plant.now w;
        sensor_snapshot = sensor_data;
        sensor_snapshot_hash =
            compute_sensor_hash hashing
              (hash_payload (lookup "__integrity_hash_payload" read) sensor_data);
        reliable = non_empty sensor_data;
      })

  abbrev pub answered : String → Option (Fields F) × W → Response F × W
  answered asset_id (none, w) = (http_error 500, w)
  answered asset_id (some read, w) = (response_of asset_id read w, w)

  -- `get_sensor_source`: the composite is made when it is first needed.
  abbrev pub get_sensor_source : Option Composite → W → Option Composite
  get_sensor_source (some c) w = some c
  get_sensor_source none w = plant.config w >>= λ config. initialize production config

  abbrev pub with_source : String → Option Composite → W → Response F × Option Composite × W
  with_source asset_id none w = (http_error 500, none, w)
  with_source asset_id (some c) w =
      let (r, w') = answered asset_id (read_snapshot c asset_id w) in (r, some c, w')

  -- `get_latest_snapshot`, with the global source before and after.
  unfoldable pub get_latest_snapshot :
      String → Option Composite → W → Response F × Option Composite × W
  get_latest_snapshot asset_id source w = with_source asset_id (get_sensor_source source w) w
