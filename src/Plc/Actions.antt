-- ===== src/Plc/Actions.antt =====
-- The low-level actions of `_execute_low_level_action` and `_apply_low_level_action_to_virtual`, and
-- `_normalize_actions`, which makes them from an action of the agent. `Run S` is code on a state `S`,
-- which it may have changed when it raises.
use pcag.Plc.Virtual.{set_word, Image}
use pcag.Plc.{decode_registers, Mapping, Packing}
use pcag.Base.{
  ℕ, ◌+◌, arith, String, Bool, true, false, ◌&&◌, Option, none, some, List, [], ◌∷◌, str_eq,
  if◌then◌else◌,
}
use pcag.Base.Dict.{Dict, get}
use pcag.Core.Json.{
  null, nil, put_field, int, end, cons, num, Items, str, Number, obj, field, Arith, Json, Fields,
  lookup,
}
use pcag.Plc.Recovery.{Outcome, ok, failed}
use pcag.Core.Int.{ℤ, pos, ◌+ℤ◌}

-- What this code raises itself, with what its text is made of.
pub data Fault (F : Type 0) : Type 0 where
  missing_register missing_value missing_values unsupported no_mapping : Fields F → Fault F
  missing_param : String → Fields F → Fault F
  not_an_integer not_a_number not_iterable : Json F → Fault F
  not_finite : Number F → Fault F
  modbus_error short_answer : String → Fault F

-- What a call of the Modbus client ends with: an answer, an answer with `isError()`, or an exception.
pub data Answer (A : Type 0) : Type 0 where
  answer : A → Answer A
  error_answer exception : String → Answer A

-- Python's `int(value)`, `int(x)` of a number, and the iteration over a value, which may raise; and
-- the texts of the exceptions.
pub record Python (F : Type 0) : Type 0 where
  pub int_of : Json F → Option ℤ
  pub truncated : Number F → Option ℤ
  pub iterate : Json F → Option (Items F)
  pub describe : Fault F → String

abbrev pub Run : Type 0 → Type 0 → Type 0
Run S A = S → Outcome A × S

module _ {S : Type 0} where
  abbrev pub pure : {A : Type 0} → A → Run S A
  pure a s = (ok a, s)

  abbrev pub raise : {A : Type 0} → String → Run S A
  raise e s = (failed e, s)

  abbrev pub then_run : {A B : Type 0} → (A → Run S B) → Outcome A × S → Outcome B × S
  then_run k (ok a, s) = k a s
  then_run k (failed e, s) = (failed e, s)

  infixl 5 ◌>>=◌
  abbrev pub ◌>>=◌ : {A B : Type 0} → Run S A → (A → Run S B) → Run S B
  ◌>>=◌ m k s = then_run k (m s)

  abbrev pub or_raise : {A : Type 0} → String → Option A → Run S A
  or_raise e none = raise e
  or_raise e (some a) = pure a

-- An entry of `action_mappings`.
pub record ActionMapping (F : Type 0) : Type 0 where
  pub param : String
  pub register : Json F
  pub scale : Option (Number F)

module _ {F : Type 0} where
  -- `d.get(key)`, where None is no value.
  abbrev pub present : Option (Json F) → Option (Json F)
  present none = none
  present (some null) = none
  present (some v) = some v

  abbrev pub is_text : Option (Json F) → String → Bool
  is_text (some (str s)) t = str_eq s t
  is_text _ t = false

  abbrev pub has : Option (Json F) → Bool
  has none = false
  has (some v) = true

  abbrev pub fields_of : Option (Json F) → Fields F
  fields_of (some (obj fs)) = fs
  fields_of _ = end

  -- `action_mappings.get(action_type, [])`
  abbrev pub mappings_of : Option (Json F) → Dict (List (ActionMapping F)) → List (ActionMapping F)
  mappings_of (some (str t)) mappings = elim (get t mappings) [ none ↦ [] | some ms ↦ ms ]
  mappings_of (some _) mappings = []
  mappings_of none mappings = elim (get "" mappings) [ none ↦ [] | some ms ↦ ms ]

  abbrev pub write_action : Json F → ℤ → Fields F
  write_action register value =
      field "type" (str "write_register")
        (field "register" register (field "value" (num (int value)) end))

  -- What a low-level action does, by what the writes of one register and of several do.
  module _ {S : Type 0} (python : Python F)
      (write_register write_registers : Json F → Json F → Run S (Unit {0})) where
    abbrev pub with_value :
        Fault F → (Json F → Run S (Unit {0})) → Option (Json F) → Run S (Unit {0})
    with_value fault write none = raise (python.describe fault)
    with_value fault write (some v) = write v

    abbrev pub by_type : Fields F → Json F → Option (Json F) → Run S (Unit {0})
    by_type action register type =
        if is_text type "write_register"
        then with_value (missing_value action) (write_register register)
            (present (lookup "value" action))
        else (if is_text type "write_registers"
            then with_value (missing_values action) (write_registers register)
                (present (lookup "values" action))
            else raise (python.describe (unsupported action)))

    unfoldable pub low_level_action : Fields F → Run S (Unit {0})
    low_level_action action = elim (present (lookup "register" action)) [
      | none ↦ raise (python.describe (missing_register action))
      | some register ↦ by_type action register (lookup "type" action)
    ]

module _ {F S : Type 0} (one : Fields F → Run S (Unit {0})) where
  -- The loop over the low-level actions.
  unfoldable pub each : List (Fields F) → Run S (Unit {0})
  each [] = pure tt
  each (a ∷ as') = one a >>= λ _. each as'

module _ {F : Type 0} (arith : Arith F) (packing : Packing F) (python : Python F) where
  -- `int(float(params[name]) * mapping.get("scale", 1.0))`
  abbrev pub scaled_value : {S : Type 0} → ActionMapping F → Json F → Run S ℤ
  scaled_value m v = do
    x ← or_raise (python.describe (not_a_number v)) (packing.float_of v)
    let y = arith.mul x (elim m.scale [ none ↦ packing.one | some s ↦ s ])
    or_raise (python.describe (not_finite y)) (python.truncated y)

  unfoldable pub translated :
      {S : Type 0} → Fields F → Fields F → List (ActionMapping F) → Run S (List (Fields F))
  translated action params [] = pure []
  translated action params (m ∷ ms) = do
    v ← or_raise (python.describe (missing_param m.param action)) (lookup m.param params)
    n ← scaled_value m v
    rest ← translated action params ms
    pure (write_action m.register n ∷ rest)

  abbrev pub translate_by :
      {S : Type 0} → Fields F → List (ActionMapping F) → Run S (List (Fields F))
  translate_by action [] = raise (python.describe (no_mapping action))
  translate_by action (m ∷ ms) = translated action (fields_of (lookup "params" action)) (m ∷ ms)

  -- `_normalize_actions`: parameters that are no dictionary have none of the names.
  unfoldable pub normalize_actions :
      {S : Type 0} → Dict (List (ActionMapping F)) → Fields F → Run S (List (Fields F))
  normalize_actions mappings action =
      if has (lookup "type" action) && has (lookup "register" action)
      then pure (action ∷ [])
      else translate_by action (mappings_of (lookup "action_type" action) mappings)

  module _ {S : Type 0} (one : Fields F → Run S (Unit {0})) where
    -- The loops of `execute_actions`.
    unfoldable pub perform : Dict (List (ActionMapping F)) → List (Fields F) → Run S (Unit {0})
    perform mappings [] = pure tt
    perform mappings (a ∷ as') = do
      low ← normalize_actions mappings a
      _ ← each one low
      perform mappings as'

-- The writes to the image of a virtual runtime.
module _ {F : Type 0} (python : Python F) where
  unfoldable pub set_value : Json F → ℕ → Json F → Run Image (Unit {0})
  set_value register offset v = do
    w ← or_raise (python.describe (not_an_integer v)) (python.int_of v)
    r ← or_raise (python.describe (not_an_integer register)) (python.int_of register)
    λ image. (ok tt, set_word (r +ℤ pos offset) w image)

  unfoldable pub set_values : Json F → ℕ → Items F → Run Image (Unit {0})
  set_values register offset nil = pure tt
  set_values register offset (cons v vs) = do
    _ ← set_value register offset v
    set_values register (offset + 1) vs

  abbrev pub set_all : Json F → Json F → Run Image (Unit {0})
  set_all register values = do
    vs ← or_raise (python.describe (not_iterable values)) (python.iterate values)
    set_values register 0 vs

  -- `_apply_low_level_action_to_virtual`
  unfoldable pub apply_low_level_action : Fields F → Run Image (Unit {0})
  unfolding low_level_action
  apply_low_level_action = low_level_action python (λ r v. set_value r 0 v) set_all

-- The client of one connection.
pub record Client (F W : Type 0) : Type 0 where
  pub read_holding_registers : ℤ → ℕ → W → Answer (List ℤ) × W
  pub write_register : Json F → ℤ → W → Answer (Unit {0}) × W
  pub write_registers : Json F → Json F → W → Answer (Unit {0}) × W

module _ {F W : Type 0} (python : Python F) (client : Client F W) where
  abbrev pub checked : {A : Type 0} → Answer A × W → Outcome A × W
  checked (answer a, w) = (ok a, w)
  checked (error_answer e, w) = (failed (python.describe (modbus_error e)), w)
  checked (exception e, w) = (failed e, w)

  abbrev pub send_register : Json F → Json F → Run W (Unit {0})
  send_register register v = do
    n ← or_raise (python.describe (not_an_integer v)) (python.int_of v)
    λ w. checked (client.write_register register n w)

  -- `_execute_low_level_action`
  unfoldable pub execute_low_level_action : Fields F → Run W (Unit {0})
  unfolding low_level_action
  execute_low_level_action =
      low_level_action python send_register (λ r vs w. checked (client.write_registers r vs w))

  -- The loop of `read_snapshot`.
  unfoldable pub read_mappings :
      Arith F → Packing F → List (Mapping F) → Fields F → Run W (Fields F)
  read_mappings arith packing [] snapshot = pure snapshot
  read_mappings arith packing (m ∷ ms) snapshot = do
    words ← λ w. checked (client.read_holding_registers m.register m.register_count w)
    v ← or_raise (python.describe (short_answer m.field)) (decode_registers arith packing words m)
    read_mappings arith packing ms (put_field m.field (num v) snapshot)
