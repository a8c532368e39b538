-- ===== src/Ot/Manager.antt =====
-- pcag/apps/ot_interface/executor_manager.py: the executors by name, made when they are first asked
-- for. `X` is an executor of some plugin, `W` the world in which it is initialized; `production` is
-- the test of PCAG_ENV.
pub mod NoMock
mod Tests
use pcag.Base.{
  ℕ, ◌+◌, ◌≤◌, ◌<◌, ◌≡◌, ◌≢◌, ◌↔◌, ◌⊎◌, inl, inr, refl, sym, ap, arith, zero, suc, String, Bool,
  true, false, not, ◌&&◌, ◌||◌, Option, none, some, List, [], ◌∷◌, ◌++◌, ◌∙◌, str_eq, eq_iff,
  if◌then◌else◌, Bool-cases, Option-cases, ltb, leb, ◌==◌,
}
use pcag.Base.Dict.{Dict, get, put}

pub data Plugin : Type 0 where
  plc_adapter modbus mock : Plugin

-- An entry of `executors`; `empty` is a dictionary without keys.
pub record ExecutorConf (C : Type 0) : Type 0 where
  pub empty : Bool
  pub type : Option String
  pub config : Option C

pub record Config (C : Type 0) : Type 0 where
  pub asset_map : Dict String
  pub executors : Dict (ExecutorConf C)

pub record Instance (X : Type 0) : Type 0 where
  pub plugin : Plugin
  pub executor : X

-- `config` is `_config_cache`, once it is loaded.
pub record Manager (C X : Type 0) : Type 0 where
  pub instances : Dict (Instance X)
  pub config : Option (Config C)

pub data Error : Type 0 where
  not_loaded no_executor no_configuration mock_forbidden unknown_type failed_to_initialize : Error

pub data Answer (X : Type 0) : Type 0 where
  ok : Instance X → Answer X
  raised : Error → Answer X

-- `load_config`, the initialization of a plugin's executor with a configuration or with none, and
-- its shutdown, whose exceptions are ignored.
pub record Plugins (C X W : Type 0) : Type 0 where
  pub load_config : W → Option (Config C)
  pub initialize : Plugin → Option C → W → Option X × W
  pub shutdown : X → W → W

-- The calls of the manager, of which `get_executor` answers.
pub data Call : Type 0 where
  get_for : String → Call
  reset_all : Call

-- The class for a type; a missing type is "mock", which production forbids.
abbrev pub plugin_named : Bool → String → Plugin ⊎ Error
plugin_named production type =
    if str_eq type "plc_adapter"
    then inl plc_adapter
    else (if str_eq type "modbus"
        then inl modbus
        else (if str_eq type "mock"
            then (if production then inr mock_forbidden else inl mock)
            else inr unknown_type))

abbrev pub type_or_mock : Option String → String
type_or_mock none = "mock"
type_or_mock (some t) = t

module _ {C X W : Type 0} (plugins : Plugins C X W) (production : Bool) where
  abbrev pub initialized : String → Plugin → Manager C X → Option X × W → Answer X × Manager C X × W
  initialized name p m (none, w) = (raised failed_to_initialize, m, w)
  initialized name p m (some x, w) =
      let e : Instance X = record { plugin = p; executor = x } in
      (ok e, record m { instances = put name e m.instances }, w)

  abbrev pub create :
      String → Option C → Plugin ⊎ Error → Manager C X → W → Answer X × Manager C X × W
  create name config (inr e) m w = (raised e, m, w)
  create name config (inl p) m w = initialized name p m (plugins.initialize p config w)

  abbrev pub configured :
      String → Option (ExecutorConf C) → Manager C X → W → Answer X × Manager C X × W
  configured name none m w = (raised no_configuration, m, w)
  configured name (some c) m w =
      if c.empty
      then (raised no_configuration, m, w)
      else create name c.config (plugin_named production (type_or_mock c.type)) m w

  abbrev pub reused :
      String → Config C → Option (Instance X) → Manager C X → W → Answer X × Manager C X × W
  reused name config (some e) m w = (ok e, m, w)
  reused name config none m w = configured name (get name config.executors) m w

  abbrev pub for_name : Config C → Option String → Manager C X → W → Answer X × Manager C X × W
  for_name config none m w = (raised no_executor, m, w)
  for_name config (some name) m w =
      if str_eq name ""
      then (raised no_executor, m, w)
      else reused name config (get name m.instances) m w

  abbrev pub with_config : String → Option (Config C) → Manager C X → W → Answer X × Manager C X × W
  with_config asset_id none m w = (raised not_loaded, m, w)
  with_config asset_id (some config) m w =
      for_name config (get asset_id config.asset_map) (record m { config = some config }) w

  -- `_load_registry`
  abbrev pub load_registry : Manager C X → W → Option (Config C)
  load_registry m w = elim m.config [ none ↦ plugins.load_config w | some config ↦ some config ]

  unfoldable pub get_executor : String → Manager C X → W → Answer X × Manager C X × W
  get_executor asset_id m w = with_config asset_id (load_registry m w) m w

  unfoldable pub shutdown_all : Dict (Instance X) → W → W
  shutdown_all [] w = w
  shutdown_all ((name, e) ∷ rest) w = shutdown_all rest (plugins.shutdown e.executor w)

  unfoldable pub reset : Manager C X → W → Manager C X × W
  reset m w = (record m { instances = [] }, shutdown_all m.instances w)

  unfoldable pub run : List Call → Manager C X → W → List (Answer X) × Manager C X × W
  run [] m w = ([], m, w)
  run (get_for a ∷ calls) m w =
      let (r, m', w') = get_executor a m w in
      let (rs, m'', w'') = run calls m' w' in (r ∷ rs, m'', w'')
  run (reset_all ∷ calls) m w = let (m', w') = reset m w in run calls m' w'
