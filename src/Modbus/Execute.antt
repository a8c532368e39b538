-- ===== src/Modbus/Execute.antt =====
-- `_translate_action`, `execute`, `safe_state` and `shutdown` of
-- pcag/plugins/executor/modbus_executor.py.
use pcag.Core.Int.{ℤ}
use pcag.Base.{String, Bool, true, false, ◌&&◌, Option, none, some, List, [], ◌∷◌, if◌then◌else◌}
use pcag.Base.Dict.{Dict, get}
use pcag.Core.Json.{str, arr, obj, end, Arith, Fields, Json, lookup}
use pcag.Plc.Actions.{ActionMapping, has, write_action}
use pcag.Modbus.{
  no_safe_state, execute_each, ensure_connected, execute_single_action, no_mapping, not_a_dict,
  Executor, then_do, unhashable, missing_param, done, value_error, Config, other_error, Client,
  Python, Attempt,
}

module _ {F : Type 0} (arith : Arith F) (python : Python F) where
  -- `int(float(raw_value) * scale)`
  abbrev pub scaled_value : ActionMapping F → Json F → Attempt ℤ
  scaled_value m v =
      then_do (python.float_of v)
        λ x. python.truncated (arith.mul x (elim m.scale [ none ↦ python.one | some s ↦ s ]))

  abbrev pub param_of : Fields F → String → Fields F → Attempt (Json F)
  param_of action name params = elim (lookup name params) [
    | none ↦ value_error (python.describe (missing_param name action))
    | some v ↦ done v
  ]

  unfoldable pub translated :
      Fields F → Fields F → List (ActionMapping F) → Attempt (List (Fields F))
  translated action params [] = done []
  translated action params (m ∷ ms) = then_do (param_of action m.param params) λ v.
      then_do (scaled_value m v)
        λ n. then_do (translated action params ms) λ rest. done (write_action m.register n ∷ rest)

  -- Parameters that are no dictionary fail at the first mapping, and not as a ValueError.
  abbrev pub with_params :
      Fields F → List (ActionMapping F) → Option (Json F) → Attempt (List (Fields F))
  with_params action ms none = translated action end ms
  with_params action ms (some (obj fs)) = translated action fs ms
  with_params action ms (some v) = other_error (python.describe (not_a_dict v))

  abbrev pub by_mappings :
      String → Fields F → Option (List (ActionMapping F)) → Attempt (List (Fields F))
  by_mappings asset action none = value_error (python.describe (no_mapping asset action))
  by_mappings asset action (some []) = value_error (python.describe (no_mapping asset action))
  by_mappings asset action (some (m ∷ ms)) = with_params action (m ∷ ms) (lookup "params" action)

  -- `asset_mappings.get(action_type, [])`: no key is a list or a dictionary.
  abbrev pub by_type :
      String
      → Fields F
      → Dict (List (ActionMapping F))
      → Option (Json F)
      → Attempt (List (Fields F))
  by_type asset action mappings none = by_mappings asset action (get "" mappings)
  by_type asset action mappings (some (str t)) = by_mappings asset action (get t mappings)
  by_type asset action mappings (some (arr vs)) =
      other_error (python.describe (unhashable (arr vs)))
  by_type asset action mappings (some (obj fs)) =
      other_error (python.describe (unhashable (obj fs)))
  by_type asset action mappings (some v) = by_mappings asset action none

  unfoldable pub translate_action : Config F → String → Fields F → Attempt (List (Fields F))
  translate_action config asset action =
      by_type asset action (elim (get asset config.action_mappings) [ none ↦ [] | some d ↦ d ])
        (lookup "action_type" action)

module _ {F : Type 0} where
  -- `"type" in action and "register" in action`
  abbrev pub is_low_level : Fields F → Bool
  is_low_level action = has (lookup "type" action) && has (lookup "register" action)

module _ {F W : Type 0} (arith : Arith F) (python : Python F) (client : Client F W)
    (config : Config F) where
  abbrev pub execute_translated : Attempt (List (Fields F)) → Executor W → Attempt Bool × Executor W
  execute_translated (done low) x = let (b, x') = execute_each python client low x in (done b, x')
  execute_translated (value_error e) x = (done false, record x { last_error = some e })
  execute_translated (other_error e) x = (other_error e, x)

  -- One turn of the loop, with `all_success` after it: the result of a low-level action is not
  -- looked at.
  unfoldable pub execute_one : String → Fields F → Executor W → Attempt Bool × Executor W
  execute_one asset action x =
      if is_low_level action
      then (done true, (execute_single_action python client action x).1)
      else execute_translated (translate_action arith python config asset action) x

  abbrev pub if_success :
      (Executor W → Attempt Bool × Executor W)
      → Attempt Bool × Executor W
      → Attempt Bool × Executor W
  if_success k (done true, x) = k x
  if_success k (done false, x) = (done false, x)
  if_success k (value_error e, x) = (value_error e, x)
  if_success k (other_error e, x) = (other_error e, x)

  unfoldable pub execute_loop : String → List (Fields F) → Executor W → Attempt Bool × Executor W
  execute_loop asset [] x = (done true, x)
  execute_loop asset (a ∷ as') x =
      if_success (λ x'. execute_loop asset as' x') (execute_one asset a x)

  abbrev pub if_connected :
      (Executor W → Attempt Bool × Executor W) → Bool × Executor W → Attempt Bool × Executor W
  if_connected k (true, x) = k x
  if_connected k (false, x) = (done false, x)

  unfoldable pub execute : String → List (Fields F) → Executor W → Attempt Bool × Executor W
  execute asset actions x =
      if_connected (execute_loop asset actions)
        (ensure_connected python client (record x { last_error = none }))

  abbrev pub safe_state_by :
      String → Option (List (Fields F)) → Executor W → Attempt Bool × Executor W
  safe_state_by asset (some (a ∷ as')) x = execute asset (a ∷ as') x
  safe_state_by asset _ x = (
    other_error (python.describe (no_safe_state asset)),
    record x { last_error = some (python.describe (no_safe_state asset)) },
  )

  -- `safe_state`, which raises when the asset has no actions.
  unfoldable pub safe_state : String → Executor W → Attempt Bool × Executor W
  safe_state asset x = safe_state_by asset (get asset config.safe_state_actions) x

module _ {F W : Type 0} (client : Client F W) where
  abbrev pub shut : Executor W → Attempt (Unit {0}) × W → Attempt (Unit {0}) × Executor W
  shut x (done u, w) = (done tt, record x { connected = false; world = w })
  shut x (value_error e, w) = (value_error e, record x { world = w })
  shut x (other_error e, w) = (other_error e, record x { world = w })

  abbrev pub shutdown : Executor W → Attempt (Unit {0}) × Executor W
  shutdown x = shut x (if x.has_client then client.close x.world else (done tt, x.world))
