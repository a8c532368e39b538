-- ===== src/Plc/Preserves.antt =====
-- Every request keeps the service well-formed.
use pcag.Plc.Rules.{
  some_actions-Holds, preloaded_image-Holds, raised-Holds, virtual_snapshot-Holds,
  or_key_error-Holds, get_connection-Holds, Holds-bind,
}
use pcag.Plc.Kept.{initialize-Kept, virtual-IsWellFormed}
use pcag.Plc.Operations.{
  connect_text, safe_state_on, get_health, live_snapshot, snapshot_of, execute_on, read_snapshot,
  on_device, execute_actions, safe_state, preload_runtime, recover, on_virtual,
}
use pcag.Plc.Virtual.{Image}
use pcag.Plc.WellFormed.{WellFormed, put_connection-IsWellFormed, Kept, IsWellFormed}
use pcag.Plc.{Packing}
use pcag.Plc.Actions.{apply_low_level_action, each, perform, Client, Python, Run}
use pcag.Core.Json.{Arith, Fields}
use pcag.Base.{◌≡◌, refl, String, Option, none, some, List}
use pcag.Base.Dict.{get}
use pcag.Plc.Service.{
  Reply, ExecutorAsset, SensorAsset, Modbus, Environment, Service, VirtualAssetRuntime,
  ManagedConnection, key_error, error, done,
}
use pcag.Plc.Recovery.{
  run_with_recovery, run_with_recovery-Recovered, Opening, IsSound, Recovered, Connection, Outcome,
  ok, failed,
}
use pcag.Plc.Routes.{
  respond, Request, Response, handle, health, preload, execute, safe, latest_snapshot,
}

Recovered-IsSound :
    {A W : Type 0} (why : String) (connect : W → Opening × W) (fn : Run W A)
    → (r : Outcome A × Connection × W) → Recovered why connect fn r
    → IsSound r.1
Recovered-IsSound why connect fn (ok a, c, w) h = h.1
Recovered-IsSound why connect fn (failed e, c, w) h = λ k. cc

module _ {F W : Type 0} where
  on_virtual-Kept :
      (a : String) (r : VirtualAssetRuntime F) (writes : Run Image (Unit {0})) (s : Service F)
      → (w : W) → IsWellFormed s
      → get a s.virtual_assets ≡ some r
      → Kept (on_virtual a r writes s w)
  on_virtual-Kept a r writes s w v e =
      let (p, q) = v.virtuals a r e in virtual-IsWellFormed s a _ v p q

module _ {F W : Type 0} (arith : Arith F) (packing : Packing F) (python : Python F)
    (env : Environment F W) (modbus : Modbus F W) where
  recover-IsWellFormed :
      {A : Type 0} (key : String) (c : ManagedConnection F) (fn : Client F W → Run W A)
      → (s : Service F) (w : W) → IsWellFormed s
      → IsSound c.state
      → IsWellFormed (recover arith packing python env modbus key c fn s w).1
  unfolding recover
  recover-IsWellFormed key c fn s w v h =
      let why = connect_text arith packing python env modbus c in
      let connect = modbus.connect c.host c.port in
      let f = fn (modbus.client c.host c.port) in
      put_connection-IsWellFormed s key _ v (
        Recovered-IsSound why connect f (run_with_recovery why connect f c.state w)
          (run_with_recovery-Recovered why connect f c.state w h))

  on_device-Kept :
      (key : String) (c : ManagedConnection F) (fn : Client F W → Run W (Unit {0}))
      → (s : Service F) (w : W) → IsWellFormed s
      → IsSound c.state
      → Kept (on_device arith packing python env modbus key c fn s w)
  unfolding on_device
  on_device-Kept key c fn s w v h = recover-IsWellFormed key c fn s w v h

  live_snapshot-Kept :
      (a : String) (x : SensorAsset F) (s : Service F) (w : W)
      → IsWellFormed s
      → Kept (live_snapshot arith packing python env modbus a x s w)
  live_snapshot-Kept a x s w v =
      or_key_error-Holds WellFormed (get a s.sensor_asset_connections) _ v λ key e.
        get_connection-Holds WellFormed key _ v λ c p.
          Holds-bind WellFormed _ _
            (raised-Holds WellFormed _ (recover-IsWellFormed key c _ s w v (v.sound key c p)))
            λ snapshot s' w' v'. v'

  snapshot_of-Kept :
      (a : String) (x : SensorAsset F) (o : Option (VirtualAssetRuntime F)) (s : Service F) (w : W)
      → IsWellFormed s
      → Kept (snapshot_of arith packing python env modbus a x o s w)
  snapshot_of-Kept a x none s w v = live_snapshot-Kept a x s w v
  snapshot_of-Kept a x (some r) s w v =
      Holds-bind WellFormed _ _
        (virtual_snapshot-Holds WellFormed arith packing python env modbus a s w v)
        λ snapshot s' w' v'. v'

  read_snapshot-Kept :
      (a : String) (s : Service F) (w : W)
      → IsWellFormed s
      → Kept (read_snapshot arith packing python env modbus a s w)
  unfolding read_snapshot
  read_snapshot-Kept a s w v =
      Holds-bind WellFormed _ _ (initialize-Kept arith env s w v) λ _ s1 w1 v1.
        or_key_error-Holds WellFormed (get a s1.sensor_assets) _ v1
          λ asset e. snapshot_of-Kept a asset (get a s1.virtual_assets) s1 w1 v1

  execute_on-Kept :
      (a : String) (x : ExecutorAsset F) (actions : List (Fields F)) (c : ManagedConnection F)
      → (o : Option (VirtualAssetRuntime F)) (s : Service F) (w : W) → IsWellFormed s
      → IsSound c.state
      → get a s.virtual_assets ≡ o
      → Kept (execute_on arith packing python env modbus a x actions c o s w)
  execute_on-Kept a x actions c none s w v h e = on_device-Kept x.connection_key c _ s w v h
  execute_on-Kept a x actions c (some r) s w v h e =
      on_virtual-Kept a r
        (perform arith packing python (apply_low_level_action python) x.action_mappings actions) s w
        v e

  execute_actions-Kept :
      (a : String) (actions : List (Fields F)) (s : Service F) (w : W)
      → IsWellFormed s
      → Kept (execute_actions arith packing python env modbus a actions s w)
  unfolding execute_actions
  execute_actions-Kept a actions s w v =
      Holds-bind WellFormed _ _ (initialize-Kept arith env s w v) λ _ s1 w1 v1.
        or_key_error-Holds WellFormed (get a s1.executor_assets) _ v1 λ asset e.
          get_connection-Holds WellFormed asset.connection_key _ v1 λ c p.
            execute_on-Kept a asset actions c (get a s1.virtual_assets) s1 w1 v1 (v1.sound _ c p)
              refl

  safe_state_on-Kept :
      (a : String) (x : ExecutorAsset F) (o : Option (VirtualAssetRuntime F)) (s : Service F)
      → (w : W) → IsWellFormed s
      → get a s.virtual_assets ≡ o
      → Kept (safe_state_on arith packing python env modbus a x o s w)
  safe_state_on-Kept a x none s w v e =
      get_connection-Holds WellFormed x.connection_key _ v
        λ c p. on_device-Kept x.connection_key c _ s w v (v.sound _ c p)
  safe_state_on-Kept a x (some r) s w v e =
      on_virtual-Kept a r (each (apply_low_level_action python) x.safe_state_actions) s w v e

  safe_state-Kept :
      (a : String) (s : Service F) (w : W)
      → IsWellFormed s
      → Kept (safe_state arith packing python env modbus a s w)
  unfolding safe_state
  safe_state-Kept a s w v =
      Holds-bind WellFormed _ _ (initialize-Kept arith env s w v) λ _ s1 w1 v1.
        or_key_error-Holds WellFormed (get a s1.executor_assets) _ v1 λ asset e.
          some_actions-Holds WellFormed asset.safe_state_actions _ v1
            (safe_state_on-Kept a asset (get a s1.virtual_assets) s1 w1 v1 refl)

  preload_runtime-Kept :
      (a : String) (context initial : Fields F) (s : Service F) (w : W)
      → IsWellFormed s
      → Kept (preload_runtime arith packing python env modbus a context initial s w)
  unfolding preload_runtime
  preload_runtime-Kept a context initial s w v =
      Holds-bind WellFormed _ _ (initialize-Kept arith env s w v) λ _ s1 w1 v1.
        or_key_error-Holds WellFormed (get a s1.sensor_assets) _ v1 λ asset e.
          or_key_error-Holds WellFormed (get a s1.executor_assets) _ v1 λ executor p.
            preloaded_image-Holds WellFormed _ _ v1 λ image.
              Holds-bind WellFormed _ _ (virtual-IsWellFormed s1 a _ v1 (asset, e) (executor, p))
                λ _ s2 w2 v2.
                  Holds-bind WellFormed _ _
                    (virtual_snapshot-Holds WellFormed arith packing python env modbus a s2 w2 v2)
                    λ snapshot s3 w3 v3. v3

  respond-Kept :
      {A : Type 0} (f : W → A → Response F) (r : Reply A × Service F × W)
      → Kept r
      → IsWellFormed (respond arith packing python env modbus f r).1
  respond-Kept f (done a, s, w) v = v
  respond-Kept f (key_error, s, w) v = v
  respond-Kept f (error e, s, w) v = v

  -- Every request, whatever the device and the configuration do, keeps the service well-formed:
  -- each mapped asset has a connection, each virtual runtime has both mappings, and each connection
  -- that counts as connected has a client and no error.
  pub handle-IsWellFormed :
      (request : Request F) (s : Service F) (w : W)
      → IsWellFormed s
      → IsWellFormed (handle arith packing python env modbus request s w).1
  unfolding handle get_health
  handle-IsWellFormed health s w v =
      respond-Kept _ _
        (Holds-bind WellFormed _ _ (initialize-Kept arith env s w v) λ _ s1 w1 v1. v1)
  handle-IsWellFormed (latest_snapshot a) s w v = respond-Kept _ _ (read_snapshot-Kept a s w v)
  handle-IsWellFormed (preload a context initial) s w v =
      respond-Kept _ _ (preload_runtime-Kept a context initial s w v)
  handle-IsWellFormed (execute t a actions) s w v =
      respond-Kept _ _ (execute_actions-Kept a actions s w v)
  handle-IsWellFormed (safe a) s w v = respond-Kept _ _ (safe_state-Kept a s w v)
