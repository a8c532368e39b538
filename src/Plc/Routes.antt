-- ===== src/Plc/Routes.antt =====
-- The handlers of pcag/apps/plc_adapter/routes.py. The texts of the details are left out.
use pcag.Plc.Service.{key_error, error, done, Service, Reply, Modbus, Environment}
use pcag.Plc.Actions.{Python}
use pcag.Plc.{Packing}
use pcag.Core.Json.{Fields, Arith}
use pcag.Plc.Operations.{
  safe_state, execute_actions, preload_runtime, read_snapshot, get_health, Execution, Preloaded,
  Health,
}
use pcag.Base.{ℕ, String, Bool, true, false, Option, none, some, List}

pub data Request (F : Type 0) : Type 0 where
  health : Request F
  latest_snapshot : String → Request F
  preload : String → Fields F → Fields F → Request F
  execute : String → String → List (Fields F) → Request F
  safe : String → Request F

-- `PlcExecuteResponse` and `PlcSafeStateResponse`, less what the request has.
pub record ExecutionResponse : Type 0 where
  pub success : Bool
  pub executed_at_ms : Option ℕ
  pub reason : Option String
  pub connection_key : String

-- An answer, or the status of an HTTPException.
pub data Response (F : Type 0) : Type 0 where
  health_is : Health → Response F
  snapshot_is : Fields F → String → ℕ → Response F
  preloaded : Preloaded F → Response F
  execution : ExecutionResponse → Response F
  http_error : ℕ → Response F

module _ {F W : Type 0} (arith : Arith F) (packing : Packing F) (python : Python F)
    (env : Environment F W) (modbus : Modbus F W) where
  -- A KeyError is a 404, any other exception a 500; the answer may read the clock.
  abbrev pub respond :
      {A : Type 0} → (W → A → Response F) → Reply A × Service F × W → Response F × Service F × W
  respond answer_of (done a, s, w) = (answer_of w a, s, w)
  respond answer_of (key_error, s, w) = (http_error 404, s, w)
  respond answer_of (error e, s, w) = (http_error 500, s, w)

  abbrev pub executed_at : Bool → W → Option ℕ
  executed_at true w = some (env.now w)
  executed_at false w = none

  abbrev pub execution_response : W → Execution → Response F
  execution_response w e = execution (record {
    success = e.success;
    executed_at_ms = executed_at e.success w;
    reason = e.reason;
    connection_key = e.connection_key;
  })

  unfoldable pub handle : Request F → Service F → W → Response F × Service F × W
  handle health s w = respond (λ _ h. health_is h) (get_health arith env s w)
  handle (latest_snapshot asset_id) s w =
      respond (λ w' (r : Fields F × String). snapshot_is r.0 r.1 (env.now w'))
        (read_snapshot arith packing python env modbus asset_id s w)
  handle (preload asset_id context initial) s w =
      respond (λ _ p. preloaded p)
        (preload_runtime arith packing python env modbus asset_id context initial s w)
  handle (execute transaction_id asset_id actions) s w =
      respond execution_response
        (execute_actions arith packing python env modbus asset_id actions s w)
  handle (safe asset_id) s w =
      respond execution_response (safe_state arith packing python env modbus asset_id s w)
