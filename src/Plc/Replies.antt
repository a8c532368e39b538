-- ===== src/Plc/Replies.antt =====
-- What /execute and /safe-state answer with: a failure of the device is part of an answer.
use pcag.Plc.WellFormed.{IsWellFormed}
use pcag.Plc.Operations.{
  recover, executed, safe_state_on, execute_on, Execution, on_device, safe_state, execute_actions,
}
use pcag.Plc.Recovery.{Outcome, ok, failed}
use pcag.Plc.Virtual.{Image}
use pcag.Plc.Operations.{virtual_key}
use pcag.Plc.Actions.{perform, each, apply_low_level_action, execute_low_level_action}
use pcag.Base.{false, subst, ap}
use pcag.Plc.Actions.{Run, Client, Python}
use pcag.Plc.{Packing}
use pcag.Core.Json.{Fields, Arith}
use pcag.Base.{◌≡◌, inl, inr, refl, String, true, Option, none, some, List, [], ◌∷◌, Option-cases}
use pcag.Base.Dict.{get}
use pcag.Plc.Service.{
  initialize, Service, ManagedConnection, VirtualAssetRuntime, ExecutorAsset, Reply, Modbus,
  Environment, key_error, error, done, ◌>>=◌,
}
use pcag.Plc.Routes.{
  execution_response, ExecutionResponse, respond, Response, handle, execute, execution, http_error,
  safe,
}

module _ {F W : Type 0} (arith : Arith F) (packing : Packing F) (python : Python F)
    (env : Environment F W) (modbus : Modbus F W) where
  -- What a run answers, and for which connection.
  abbrev pub IsDone : Reply Execution × Service F × W → String × Outcome (Unit {0}) → Type 0
  IsDone r (key, o) = r.0 ≡ done (executed key o)

  -- The response for a run: a failure is no success, with the text of the exception as the reason.
  abbrev pub reported_as : String → Outcome (Unit {0}) → W → ExecutionResponse
  reported_as key (ok u) w = record {
    success = true;
    executed_at_ms = some (env.now w);
    reason = none;
    connection_key = key;
  }
  reported_as key (failed e) w = record {
    success = false;
    executed_at_ms = none;
    reason = some e;
    connection_key = key;
  }

  abbrev pub IsReport : Response F × Service F × W → String × Outcome (Unit {0}) → Type 0
  IsReport r (key, o) = r.0 ≡ execution (reported_as key o r.2)

  -- How the actions end: on the image of the asset's virtual runtime, if it has one, and else on its
  -- connection, with one recovery.
  abbrev pub outcome_of :
      String
      → ExecutorAsset F
      → ManagedConnection F
      → Run Image (Unit {0})
      → (Client F W → Run W (Unit {0}))
      → Option (VirtualAssetRuntime F)
      → Service F
      → W
      → String × Outcome (Unit {0})
  outcome_of a y c on_image on_client (some runtime) s w =
      (virtual_key a, (on_image runtime.register_image).0)
  outcome_of a y c on_image on_client none s w = (
    y.connection_key,
    (recover arith packing python env modbus y.connection_key c on_client s w).0,
  )

  abbrev pub executed_outcome :
      String
      → ExecutorAsset F
      → ManagedConnection F
      → List (Fields F)
      → Service F
      → W
      → String × Outcome (Unit {0})
  executed_outcome a y c actions s w =
      outcome_of a y c
        (perform arith packing python (apply_low_level_action python) y.action_mappings actions)
        (λ client.
          perform arith packing python (execute_low_level_action python client) y.action_mappings
            actions)
        (get a s.virtual_assets) s w

  abbrev pub safe_outcome :
      String
      → ExecutorAsset F
      → ManagedConnection F
      → List (Fields F)
      → Service F
      → W
      → String × Outcome (Unit {0})
  safe_outcome a y c actions s w =
      outcome_of a y c (each (apply_low_level_action python) actions)
        (λ client. each (execute_low_level_action python client) actions) (get a s.virtual_assets) s
        w

  respond-done :
      (e : Execution) (key : String) (o : Outcome (Unit {0})) (s : Service F) (w : W)
      → done e ≡ done (executed key o)
      → IsReport
          (respond arith packing python env modbus
            (execution_response arith packing python env modbus)
            (done e, s, w))
          (key, o)
  respond-done e key (ok u) s w h =
      ap
        (λ r.
          (respond arith packing python env modbus
            (execution_response arith packing python env modbus) (r, s, w)).0)
        h
  respond-done e key (failed x) s w h =
      ap
        (λ r.
          (respond arith packing python env modbus
            (execution_response arith packing python env modbus) (r, s, w)).0)
        h

  respond-IsReport :
      (r : Reply Execution × Service F × W) (ko : String × Outcome (Unit {0}))
      → IsDone r ko
      → IsReport
          (respond arith packing python env modbus
            (execution_response arith packing python env modbus)
            r)
          ko
  respond-IsReport (done e, s, w) (key, o) h = respond-done e key o s w h
  respond-IsReport (key_error, s, w) (key, o) h = cc
  respond-IsReport (error e, s, w) (key, o) h = cc

  execute_on-IsDone :
      (a : String) (y : ExecutorAsset F) (actions : List (Fields F)) (c : ManagedConnection F)
      → (o : Option (VirtualAssetRuntime F)) (s : Service F) (w : W) → get a s.virtual_assets ≡ o
      → IsDone
          (execute_on arith packing python env modbus a y actions c o s w)
          (executed_outcome a y c actions s w)
  unfolding on_device
  execute_on-IsDone a y actions c none s w e = rw e refl
  execute_on-IsDone a y actions c (some r) s w e = rw e refl

  execute_actions-IsDone :
      (a : String) (actions : List (Fields F)) (s : Service F) (w : W) (y : ExecutorAsset F)
      (c : ManagedConnection F)
      → s.initialized ≡ true
      → get y.connection_key s.connections ≡ some c
      → get a s.executor_assets ≡ some y
      → IsDone
          (execute_actions arith packing python env modbus a actions s w)
          (executed_outcome a y c actions s w)
  unfolding execute_actions initialize ◌>>=◌
  execute_actions-IsDone a actions s w y c i ec ey =
      simp (i, ey, ec) (execute_on-IsDone a y actions c (get a s.virtual_assets) s w refl)

  safe_state_on-IsDone :
      (a : String) (y : ExecutorAsset F) (c : ManagedConnection F)
      (o : Option (VirtualAssetRuntime F)) (s : Service F) (w : W)
      → get y.connection_key s.connections ≡ some c
      → get a s.virtual_assets ≡ o
      → IsDone
          (safe_state_on arith packing python env modbus a y o s w)
          (safe_outcome a y c y.safe_state_actions s w)
  unfolding ◌>>=◌ on_device
  safe_state_on-IsDone a y c none s w ec e = rw (e, ec) refl
  safe_state_on-IsDone a y c (some r) s w ec e = rw e refl

  safe_state-IsDone :
      (a : String) (s : Service F) (w : W) (y : ExecutorAsset F) (c : ManagedConnection F)
      (first : Fields F) (others : List (Fields F))
      → s.initialized ≡ true
      → get y.connection_key s.connections ≡ some c
      → get a s.executor_assets ≡ some y
      → y.safe_state_actions ≡ first ∷ others
      → IsDone
          (safe_state arith packing python env modbus a s w)
          (safe_outcome a y c (first ∷ others) s w)
  unfolding safe_state initialize ◌>>=◌
  safe_state-IsDone a s w y c first others i ec ey e =
      let h =
        subst
          (λ (l : List (Fields F)).
            IsDone (safe_state_on arith packing python env modbus a y (get a s.virtual_assets) s w)
              (safe_outcome a y c l s w))
          e (safe_state_on-IsDone a y c (get a s.virtual_assets) s w ec refl) in
      simp (i, ey, e) h

  unmapped :
      (t a : String) (actions : List (Fields F)) (s : Service F) (w : W)
      → s.initialized ≡ true
      → get a s.executor_assets ≡ none
      → ((handle arith packing python env modbus (execute t a actions) s w).0 ≡ http_error 404)
        × ((handle arith packing python env modbus (safe a) s w).0 ≡ http_error 404)
  unfolding handle execute_actions safe_state initialize ◌>>=◌
  unmapped t a actions s w i e = simp (i, e) (refl, refl)

  abbrev pub SafeStateAnswer :
      String
      → ExecutorAsset F
      → ManagedConnection F
      → List (Fields F)
      → Service F
      → W
      → Response F × Service F × W
      → Type 0
  SafeStateAnswer a y c [] s w r = r.0 ≡ http_error 500
  SafeStateAnswer a y c (first ∷ others) s w r =
      IsReport r (safe_outcome a y c (first ∷ others) s w)

  -- The answers `r` and `q` of the two routes for the asset `a`.
  abbrev pub Answers :
      String
      → List (Fields F)
      → Service F
      → W
      → Option (ExecutorAsset F)
      → Response F × Service F × W
      → Response F × Service F × W
      → Type 0
  Answers a actions s w none r q = (r.0 ≡ http_error 404) × (q.0 ≡ http_error 404)
  Answers a actions s w (some y) r q =
      (c : ManagedConnection F) × (get y.connection_key s.connections ≡ some c)
      × IsReport r (executed_outcome a y c actions s w)
      × SafeStateAnswer a y c y.safe_state_actions s w q

  without_actions :
      (a : String) (s : Service F) (w : W) (y : ExecutorAsset F)
      → s.initialized ≡ true
      → get a s.executor_assets ≡ some y
      → y.safe_state_actions ≡ []
      → (handle arith packing python env modbus (safe a) s w).0 ≡ http_error 500
  unfolding handle safe_state initialize ◌>>=◌
  without_actions a s w y i ey e = simp (i, ey, e) refl

  safe-SafeStateAnswer :
      (a : String) (s : Service F) (w : W) (y : ExecutorAsset F) (c : ManagedConnection F)
      (actions : List (Fields F))
      → s.initialized ≡ true
      → get y.connection_key s.connections ≡ some c
      → get a s.executor_assets ≡ some y
      → y.safe_state_actions ≡ actions
      → SafeStateAnswer a y c actions s w (handle arith packing python env modbus (safe a) s w)
  unfolding handle
  safe-SafeStateAnswer a s w y c [] i ec ey e = without_actions a s w y i ey e
  safe-SafeStateAnswer a s w y c (first ∷ others) i ec ey e =
      respond-IsReport _ _ (safe_state-IsDone a s w y c first others i ec ey e)

  -- In an initialized well-formed service, /execute and /safe-state answer 404 for an asset without
  -- an executor mapping. For any other, /execute reports how the actions have ended, on the asset's
  -- virtual runtime or else on its connection: success, or no success and the text of the exception.
  -- So does /safe-state with the safe-state actions, unless the asset has none: then it answers 500.
  pub handle-Answers :
      (transaction_id a : String) (actions : List (Fields F)) (s : Service F) (w : W)
      → s.initialized ≡ true
      → IsWellFormed s
      → Answers a actions s w
          (get a s.executor_assets)
          (handle arith packing python env modbus (execute transaction_id a actions) s w)
          (handle arith packing python env modbus (safe a) s w)
  unfolding handle
  handle-Answers t a actions s w i v = elim (Option-cases (get a s.executor_assets)) [
    | inl e ↦ rw e (unmapped t a actions s w i e)
    | inr (y, e) ↦
        let (c, ec) = v.executors a y e in
        rw e (
          c,
          ec,
          respond-IsReport _ _ (execute_actions-IsDone a actions s w y c i ec e),
          safe-SafeStateAnswer a s w y c y.safe_state_actions i ec e refl,
        )
  ]
