-- ===== src/Plc/Kept.antt =====
-- Every request keeps the service well-formed, and an asset that is known is always answered.
use pcag.Plc.Rules.{or_throw-Holds, Holds-bind}
use pcag.Plc.WellFormed.{
  WellFormed, load_executor_assets-Kept, load_assets-IsWellFormed, Kept, IsWellFormed,
}
use pcag.Core.Json.{Arith}
use pcag.Base.{
  subst, bound, ◌>>=◌, ◌≡◌, inl, inr, refl, sym, arith, String, Bool, true, false, not, ◌||◌, some,
  [], ◌∷◌, ◌∙◌, if◌then◌else◌, Bool-cases,
}
use pcag.Base.Dict.{get-put_cases, Dict, get, put, Has}
use pcag.Plc.Service.{
  load_assets, modify, throw, truthy, load_sensor_assets, SensorConfig, VirtualAssetRuntime,
  load_configs, closed, initialize, Environment, Service, ManagedConnection, shutdown, close_all,
  error,
}
use pcag.Plc.Recovery.{IsSound}

module _ {F : Type 0} where
  pub initialized-IsWellFormed :
      (s : Service F) (b : Bool) → IsWellFormed s → IsWellFormed (record s { initialized = b })
  initialized-IsWellFormed s b v = record {
    sensors = v.sensors;
    executors = v.executors;
    virtuals = v.virtuals;
    sound = v.sound;
  }

module _ {F W : Type 0} (arith : Arith F) (env : Environment F W) where
  load_sensor_assets-Kept :
      (config : SensorConfig F) (s : Service F) (w : W)
      → IsWellFormed s
      → Kept (load_sensor_assets arith env config s w)
  load_sensor_assets-Kept config s w v =
      elim (not (truthy arith env config.host) || not (truthy arith env config.port))
        as (λ b. Kept (
          (if b
              then throw "sensor_mappings.yaml must define modbus.host and modbus.port"
              else modify (load_assets arith env config.host config.port config.assets))
            s w)) [
              | true ↦ v
              | false ↦ load_assets-IsWellFormed arith env config.host config.port config.assets s v
            ]

  load_configs-Kept : (s : Service F) (w : W) → IsWellFormed s → Kept (load_configs arith env s w)
  load_configs-Kept s w v =
      Holds-bind WellFormed _ _ (or_throw-Holds WellFormed (env.sensor_config w) s w v)
        λ sensor_config s1 w1 v1.
          Holds-bind WellFormed _ _ (or_throw-Holds WellFormed (env.executor_config w) s1 w1 v1)
            λ executor_config s2 w2 v2.
              Holds-bind WellFormed _ _ (load_sensor_assets-Kept sensor_config s2 w2 v2)
                λ _ s3 w3 v3.
                  Holds-bind WellFormed _ _
                    (load_executor_assets-Kept arith env executor_config.executors
                      executor_config.asset_map s3 w3 v3)
                    λ _ s4 w4 v4. initialized-IsWellFormed s4 true v4

  pub initialize-Kept : (s : Service F) (w : W) → IsWellFormed s → Kept (initialize arith env s w)
  unfolding initialize
  initialize-Kept s w v = elim (Bool-cases s.initialized) [
    | inl e ↦ simp e v
    | inr e ↦
        simp e
          (elim env.pymodbus
            as (λ b.
              Kept (
                if b then load_configs arith env s w else (error "pymodbus not installed", s, w))) [
                  | true ↦ load_configs-Kept s w v
                  | false ↦ v
                ])
  ]

module _ {F : Type 0} where
  abbrev closed_at : ManagedConnection F → ManagedConnection F
  closed_at c = record c { state = closed c.state }

  get-close_all :
      (k : String) (d : Dict (ManagedConnection F))
      → get k (close_all d) ≡ (get k d >>= λ c. some (closed_at c))
  unfolding close_all get
  get-close_all k [] = refl
  get-close_all k ((j, c) ∷ d) = ground (arith, get-close_all k d)

  Has-close_all : (k : String) (d : Dict (ManagedConnection F)) → Has k d → Has k (close_all d)
  Has-close_all k d (c, e) = (closed_at c, get-close_all k d ∙ rw e refl)

  close_all-IsSound :
      (k : String) (d : Dict (ManagedConnection F)) (c : ManagedConnection F)
      → get k (close_all d) ≡ some c
      → IsSound c.state
  close_all-IsSound k d c e =
      let (c', p, q) = bound (get k d) closed_at c (sym (get-close_all k d) ∙ e) in
      subst (λ (x : ManagedConnection F). IsSound x.state) q (λ h. cc)

  pub shutdown-IsWellFormed : (s : Service F) → IsWellFormed s → IsWellFormed (shutdown s)
  unfolding shutdown get
  shutdown-IsWellFormed s v = record {
    sensors =
        λ a x e. let (key, p, q) = v.sensors a x e in (key, p, Has-close_all key s.connections q);
    executors = λ a x e. Has-close_all x.connection_key s.connections (v.executors a x e);
    virtuals = λ a r e. cc;
    sound = λ k c e. close_all-IsSound k s.connections c e;
  }

  pub virtual-IsWellFormed :
      (s : Service F) (a : String) (r : VirtualAssetRuntime F)
      → IsWellFormed s
      → Has a s.sensor_assets
      → Has a s.executor_assets
      → IsWellFormed (record s { virtual_assets = put a r s.virtual_assets })
  virtual-IsWellFormed s a r v p q = record {
    sensors = v.sensors;
    executors = v.executors;
    virtuals = λ b x e. elim (get-put_cases a b r x s.virtual_assets e) [
      | inl (same, _) ↦
          subst (λ (c : String). Has c s.sensor_assets × Has c s.executor_assets) same (p, q)
      | inr old ↦ v.virtuals b x old
    ];
    sound = v.sound;
  }
