-- ===== src/Plc/WellFormed.antt =====
-- The connections that the mappings of the assets name are there.
use pcag.Plc.Actions.{is_text}
use pcag.Core.Json.{Json, Arith}
use pcag.Plc.Rules.{Holds, Holds-bind}
use pcag.Plc.Recovery.{IsSound}
use pcag.Plc.Service.{
  return, modify, throw, truthy, add_named, add_executor_asset, add_sensor_asset, load_assets,
  load_executor_assets, ExecutorConf, unconnected, ensure_connection, Environment,
  VirtualAssetRuntime, ExecutorAsset, ManagedConnection, SensorAsset, Service,
}
use pcag.Base.{
  subst, ◌≡◌, inl, inr, refl, sym, String, true, false, not, ◌||◌, Option, none, some, [], ◌∷◌, ◌∙◌,
  str_eq, if◌then◌else◌, Bool-cases, Option-cases,
}
use pcag.Base.Dict.{
  get-put_other, Has, Has-put, Has-put_self, get-put_cases, Dict, get, put, get-put,
}

module _ {F : Type 0} where
  pub record IsWellFormed (s : Service F) : Type 0 where
    pub sensors :
        (a : String) (x : SensorAsset F)
        → get a s.sensor_assets ≡ some x
        → (key : String) × (get a s.sensor_asset_connections ≡ some key) × Has key s.connections
    pub executors :
        (a : String) (x : ExecutorAsset F)
        → get a s.executor_assets ≡ some x
        → Has x.connection_key s.connections
    pub virtuals :
        (a : String) (r : VirtualAssetRuntime F)
        → get a s.virtual_assets ≡ some r
        → Has a s.sensor_assets × Has a s.executor_assets
    pub sound :
        (k : String) (c : ManagedConnection F) → get k s.connections ≡ some c → IsSound c.state

  -- A change of the connections that keeps every key.
  connections-IsWellFormed :
      (s : Service F) (cs : Dict (ManagedConnection F))
      → IsWellFormed s
      → ((k : String) → Has k s.connections → Has k cs)
      → ((k : String) (c : ManagedConnection F) → get k cs ≡ some c → IsSound c.state)
      → IsWellFormed (record s { connections = cs })
  connections-IsWellFormed s cs v keep sound = record {
    sensors = λ a x e. let (key, p, q) = v.sensors a x e in (key, p, keep key q);
    executors = λ a x e. keep x.connection_key (v.executors a x e);
    virtuals = v.virtuals;
    sound = sound;
  }

  pub put_connection-IsWellFormed :
      (s : Service F) (key : String) (c : ManagedConnection F)
      → IsWellFormed s
      → IsSound c.state
      → IsWellFormed (record s { connections = put key c s.connections })
  put_connection-IsWellFormed s key c v h =
      connections-IsWellFormed s (put key c s.connections) v
        (λ k p. Has-put key k c s.connections p)
        (λ k c' e. elim (get-put_cases key k c c' s.connections e) [
          | inl (p, q) ↦ subst (λ (x : ManagedConnection F). IsSound x.state) q h
          | inr old ↦ v.sound k c' old
        ])

  abbrev pub WellFormed : {W : Type 0} → Service F → W → Type 0
  WellFormed s w = IsWellFormed s

  abbrev pub Kept : {A W : Type 0} → A × Service F × W → Type 0
  Kept r = Holds WellFormed r

module _ {F W : Type 0} (arith : Arith F) (env : Environment F W) where
  unconnected-IsSound : IsSound (unconnected arith env)
  unconnected-IsSound h = cc

  ensure_connection-IsWellFormed :
      (host port : Json F) (s : Service F)
      → IsWellFormed s
      → IsWellFormed (ensure_connection arith env host port s)
        × Has (env.key_of host port) (ensure_connection arith env host port s).connections
  unfolding ensure_connection
  ensure_connection-IsWellFormed host port s v =
      elim (Option-cases (get (env.key_of host port) s.connections)) [
        | inl e ↦ simp e (
          put_connection-IsWellFormed s (env.key_of host port) _ v unconnected-IsSound,
          Has-put_self (env.key_of host port) _ s.connections,
        )
        | inr (c, e) ↦ simp e (v, (c, refl))
      ]

  pub add_sensor_asset-IsWellFormed :
      (host port : Json F) (asset_id : String) (asset : SensorAsset F) (s : Service F)
      → IsWellFormed s
      → IsWellFormed (add_sensor_asset arith env host port asset_id asset s)
  add_sensor_asset-IsWellFormed host port asset_id asset s v =
      let (v', here) = ensure_connection-IsWellFormed host port s v in
      let s' = ensure_connection arith env host port s in
      let key = env.key_of host port in
      record {
        sensors = λ a x e. elim (Bool-cases (str_eq asset_id a)) [
          | inl t ↦ (key, get-put asset_id a key s'.sensor_asset_connections ∙ rw t refl, here)
          | inr t ↦
              let q : get a s'.sensor_assets ≡ some x =
                sym (get-put_other asset_id a asset s'.sensor_assets t) ∙ e in
              let (k, p, h) = v'.sensors a x q in
              (k, get-put asset_id a key s'.sensor_asset_connections ∙ rw t p, h)
        ];
        executors = v'.executors;
        virtuals = λ a r e.
            let (p, q) = v'.virtuals a r e in (Has-put asset_id a asset s'.sensor_assets p, q);
        sound = v'.sound;
      }

  pub load_assets-IsWellFormed :
      (host port : Json F) (assets : Dict (SensorAsset F)) (s : Service F)
      → IsWellFormed s
      → IsWellFormed (load_assets arith env host port assets s)
  unfolding load_assets
  load_assets-IsWellFormed host port [] s v = v
  load_assets-IsWellFormed host port ((asset_id, asset) ∷ rest) s v =
      load_assets-IsWellFormed host port rest _
        (elim (is_text (some asset.source) "modbus")
          as (λ b.
            IsWellFormed (if b then add_sensor_asset arith env host port asset_id asset s else s)) [
              | true ↦ add_sensor_asset-IsWellFormed host port asset_id asset s v
              | false ↦ v
            ])

  pub add_executor_asset-IsWellFormed :
      (asset_id name : String) (conf : ExecutorConf F) (s : Service F)
      → IsWellFormed s
      → IsWellFormed (add_executor_asset arith env asset_id name conf s)
  add_executor_asset-IsWellFormed asset_id name conf s v =
      let (v', here) = ensure_connection-IsWellFormed conf.host conf.port s v in
      let s' = ensure_connection arith env conf.host conf.port s in
      record {
        sensors = v'.sensors;
        executors = λ a x e. elim (get-put_cases asset_id a _ x s'.executor_assets e) [
          | inl (p, q) ↦ subst (λ (y : ExecutorAsset F). Has y.connection_key s'.connections) q here
          | inr old ↦ v'.executors a x old
        ];
        virtuals = λ a r e.
            let (p, q) = v'.virtuals a r e in (p, Has-put asset_id a _ s'.executor_assets q);
        sound = v'.sound;
      }

  add_named-Kept :
      (asset_id name : String) (conf : Option (ExecutorConf F)) (s : Service F) (w : W)
      → IsWellFormed s
      → Kept (add_named arith env asset_id name conf s w)
  add_named-Kept asset_id name none s w v = v
  add_named-Kept asset_id name (some conf) s w v =
      elim (is_text (some conf.type) "modbus" || is_text (some conf.type) "plc_adapter")
        as (λ b. Kept (
          (if b
              then (if not (truthy arith env conf.host) || not (truthy arith env conf.port)
                  then throw "executor_mappings.yaml: an executor must define host and port"
                  else modify (add_executor_asset arith env asset_id name conf))
              else return tt)
            s w)) [
              | false ↦ v
              | true ↦
                  elim (not (truthy arith env conf.host) || not (truthy arith env conf.port))
                    as (λ b. Kept (
                      (if b
                          then throw "executor_mappings.yaml: an executor must define host and port"
                          else modify (add_executor_asset arith env asset_id name conf))
                        s w)) [
                          | true ↦ v
                          | false ↦ add_executor_asset-IsWellFormed asset_id name conf s v
                        ]
            ]

  pub load_executor_assets-Kept :
      (executors : Dict (ExecutorConf F)) (assets : Dict String) (s : Service F) (w : W)
      → IsWellFormed s
      → Kept (load_executor_assets arith env executors assets s w)
  unfolding load_executor_assets
  load_executor_assets-Kept executors [] s w v = v
  load_executor_assets-Kept executors ((asset_id, name) ∷ rest) s w v =
      Holds-bind WellFormed _ _ (add_named-Kept asset_id name (get name executors) s w v)
        (λ _ s' w' v'. load_executor_assets-Kept executors rest s' w' v')
