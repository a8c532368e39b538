-- ===== src/Plc/Isolation.antt =====
-- An asset that has a virtual runtime is driven without the hardware.
use pcag.Plc.Operations.{
  Execution, execute_on, safe_state, safe_state_on, snapshot_of, execute_actions, read_snapshot,
  on_virtual,
}
use pcag.Plc.Rules.{
  some_actions-Holds, get_connection-Holds, or_key_error-Holds, virtual_snapshot-Holds, Holds-bind,
  Holds,
}
use pcag.Plc.Virtual.{Image}
use pcag.Plc.{Packing}
use pcag.Plc.Actions.{perform, apply_low_level_action, each, Python, Run}
use pcag.Core.Json.{Fields, Arith}
use pcag.Base.{subst, ◌≡◌, refl, sym, arith, String, true, false, Option, none, some, List, str_eq}
use pcag.Base.Dict.{get-put_other, get}
use pcag.Plc.Service.{
  ManagedConnection, SensorAsset, ExecutorAsset, Modbus, Environment, initialize,
  VirtualAssetRuntime, Reply, M, Service, ◌>>=◌,
}

module _ {F W : Type 0} where
  -- The device and the connections are as before, and so are the mappings and the runtimes of the
  -- other assets.
  pub record Untouched (a : String) (s : Service F) (w : W) (s' : Service F) (w' : W) : Type 0 where
    pub device : w' ≡ w
    pub connections : s'.connections ≡ s.connections
    pub sensors : s'.sensor_assets ≡ s.sensor_assets
    pub executors : s'.executor_assets ≡ s.executor_assets
    pub others :
        (b : String) → str_eq a b ≡ false → get b s'.virtual_assets ≡ get b s.virtual_assets

  same : (a : String) (s : Service F) (w : W) → Untouched a s w s w
  same a s w = record {
    device = refl;
    connections = refl;
    sensors = refl;
    executors = refl;
    others = λ b h. refl;
  }

  on_virtual-Untouched :
      (a : String) (r : VirtualAssetRuntime F) (writes : Run Image (Unit {0})) (s : Service F)
      → (w : W) → Holds (Untouched a s w) (on_virtual a r writes s w)
  on_virtual-Untouched a r writes s w = record {
    device = refl;
    connections = refl;
    sensors = refl;
    executors = refl;
    others = λ b h. get-put_other a b _ s.virtual_assets h;
  }

  initialized-bind :
      {B : Type 0} (arith : Arith F) (env : Environment F W) (k : Unit {0} → M F W B)
      (s : Service F)
      → (w : W) → s.initialized ≡ true
      → (initialize arith env >>= k) s w ≡ k tt s w
  unfolding initialize ◌>>=◌
  initialized-bind arith env k s w e = simp e refl

module _ {F W : Type 0} (arith : Arith F) (packing : Packing F) (python : Python F)
    (env : Environment F W) (modbus : Modbus F W) (a : String) (s : Service F) (w : W) where
  abbrev pub Spared : {A : Type 0} → A × Service F × W → Type 0
  Spared r = Holds (Untouched a s w) r

  snapshot_of-Spared :
      (x : SensorAsset F) (o : Option (VirtualAssetRuntime F)) (r : VirtualAssetRuntime F)
      → o ≡ some r
      → Spared (snapshot_of arith packing python env modbus a x o s w)
  snapshot_of-Spared x none r e = cc
  snapshot_of-Spared x (some r') r e =
      Holds-bind (Untouched a s w) _ _
        (virtual_snapshot-Holds (Untouched a s w) arith packing python env modbus a s w
          (same a s w))
        λ snapshot s' w' v. v

  execute_on-Spared :
      (x : ExecutorAsset F) (actions : List (Fields F)) (c : ManagedConnection F)
      → (o : Option (VirtualAssetRuntime F)) (r : VirtualAssetRuntime F) → o ≡ some r
      → Spared (execute_on arith packing python env modbus a x actions c o s w)
  execute_on-Spared x actions c none r e = cc
  execute_on-Spared x actions c (some r') r e =
      on_virtual-Untouched a r'
        (perform arith packing python (apply_low_level_action python) x.action_mappings actions) s w

  safe_state_on-Spared :
      (x : ExecutorAsset F) (o : Option (VirtualAssetRuntime F)) (r : VirtualAssetRuntime F)
      → o ≡ some r
      → Spared (safe_state_on arith packing python env modbus a x o s w)
  safe_state_on-Spared x none r e = cc
  safe_state_on-Spared x (some r') r e =
      on_virtual-Untouched a r' (each (apply_low_level_action python) x.safe_state_actions) s w

  -- In an initialized service, a snapshot, an execution of any actions and the safe state of an
  -- asset that has a virtual runtime leave the device, the connections, the mappings and the
  -- runtimes of all other assets as they are.
  pub runtime-Spared :
      (actions : List (Fields F)) (r : VirtualAssetRuntime F)
      → s.initialized ≡ true
      → get a s.virtual_assets ≡ some r
      → Spared (read_snapshot arith packing python env modbus a s w)
        × Spared (execute_actions arith packing python env modbus a actions s w)
        × Spared (safe_state arith packing python env modbus a s w)
  unfolding read_snapshot execute_actions safe_state
  runtime-Spared actions r i e = (
    subst (λ (t : Reply (Fields F × String) × Service F × W). Spared t)
        (sym (initialized-bind arith env _ s w i))
        (or_key_error-Holds (Untouched a s w) (get a s.sensor_assets) _ (same a s w)
          λ asset p. snapshot_of-Spared asset (get a s.virtual_assets) r e),
    subst (λ (t : Reply Execution × Service F × W). Spared t)
        (sym (initialized-bind arith env _ s w i))
        (or_key_error-Holds (Untouched a s w) (get a s.executor_assets) _ (same a s w) λ asset p.
          get_connection-Holds (Untouched a s w) asset.connection_key _ (same a s w)
            λ c q. execute_on-Spared asset actions c (get a s.virtual_assets) r e),
    subst (λ (t : Reply Execution × Service F × W). Spared t)
        (sym (initialized-bind arith env _ s w i))
        (or_key_error-Holds (Untouched a s w) (get a s.executor_assets) _ (same a s w) λ asset p.
          some_actions-Holds (Untouched a s w) asset.safe_state_actions _ (same a s w)
            (safe_state_on-Spared asset (get a s.virtual_assets) r e)),
  )
