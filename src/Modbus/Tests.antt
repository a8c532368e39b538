-- ===== src/Modbus/Tests.antt =====
-- A device that takes the writes to the registers 1 and 2 alone, and counts every write it is sent.
use pcag.Base.Dict.{get}
use pcag.Modbus.Execute.{execute_loop, execute_one, translate_action, translated}
use pcag.Modbus.{execute_each, execute_single_action, write}
use pcag.Core.Json.{lookup}
use pcag.Base.{
  leb, ℕ, ◌+◌, ◌≡◌, refl, ◌>>=◌, String, true, false, none, some, [], ◌∷◌, if◌then◌else◌,
}
use pcag.Core.Samples.{naturals}
use pcag.Core.Int.{ℤ, pos}
use pcag.Core.Json.{lookup, num, str, obj, int, float, end, field, Fields, Json, Number}
use pcag.Plc.Actions.{ActionMapping, answer, error_answer, Answer}
use pcag.Modbus.{
  write, execute_single_action, execute_each, get, Attempt, Python, Client, Config, Executor, done,
  value_error, Problem,
}
use pcag.Modbus.Execute.{
  translated, translate_action, execute_one, execute_loop, execute, safe_state,
}
use pcag.Modbus.Reports.{safe_state-attempted, success-execute, success, plan, write_all, attempted}

abbrev integer : Json ℕ → Attempt ℤ
integer (num (int n)) = done n
integer (num (float n)) = done (pos n)
integer _ = value_error "no integer"

abbrev number : Json ℕ → Attempt (Number ℕ)
number (num n) = done n
number _ = value_error "no number"

abbrev truncate : Number ℕ → Attempt ℤ
truncate (int n) = done n
truncate (float n) = done (pos n)

abbrev text : Problem ℕ → String
text p = "problem"

abbrev python : Python ℕ
python = record {
  int_of = integer;
  float_of = number;
  truncated = truncate;
  pack_float = λ x. done (0, 1, 0, 2);
  one = int (pos 1);
  describe = text;
}

abbrev takes : Json ℕ → Answer (Unit {0})
takes (num (int (pos n))) = if leb n 2 then answer tt else error_answer "illegal data address"
takes _ = error_answer "illegal data address"

abbrev client : Client ℕ ℕ
client = record {
  installed = true;
  create = λ w. (done tt, w);
  close = λ w. (done tt, w);
  connect = λ w. (done true, w);
  write_register = λ r n w. (takes r, w + 1);
  write_registers = λ r vs w. (takes r, w + 1);
}

abbrev mapping : ℕ → ActionMapping ℕ
mapping n = record { param = "value"; register = num (int (pos n)); scale = none }

abbrev low_level : ℕ → Fields ℕ
low_level n =
    field "type" (str "write_register")
      (field "register" (num (int (pos n))) (field "value" (num (int (pos 0))) end))

abbrev set_heater : Fields ℕ
set_heater =
    field "action_type" (str "set_heater_output")
      (field "params" (obj (field "value" (num (int (pos 60))) end)) end)

-- The safe state of the reactor writes to a register that the device refuses.
abbrev config : Config ℕ
config = record {
  safe_state_actions = ("reactor", low_level 9 ∷ low_level 9 ∷ []) ∷ [];
  action_mappings =
      ("reactor", ("set_heater_output", mapping 1 ∷ mapping 2 ∷ []) ∷ ("open", mapping 9 ∷ []) ∷ [])
      ∷ [];
}

abbrev ready : Executor ℕ
ready = record { has_client = true; connected = true; last_error = none; world = 0 }

heater_set :
    success naturals python client config
      (execute naturals python client config "reactor" (set_heater ∷ []) ready)
    ≡ some 2
unfolding execute execute_loop execute_one translate_action translated execute_each
    execute_single_action write get lookup
heater_set = refl

unmapped :
    (execute naturals python client config "reactor"
      (field "action_type" (str "start") end ∷ [])
      ready).0
    ≡ done false
unfolding execute execute_loop execute_one translate_action translated execute_each
    execute_single_action write get lookup
unmapped = refl

-- Both writes of the safe state are refused, and the answer is True.
refused_safe_state :
    safe_state naturals python client config "reactor" ready
    ≡ (done true, record ready { last_error = some "problem"; world = 2 })
unfolding execute execute_loop execute_one safe_state execute_each execute_single_action write get
    lookup
refused_safe_state = refl

safe_state-attempted_example :
    safe_state naturals python client config "reactor" ready
    ≡ (done true, attempted naturals python client config (low_level 9 ∷ low_level 9 ∷ []) ready)
unfolding get lookup
safe_state-attempted_example =
    safe_state-attempted naturals python client config "reactor" (low_level 9) (low_level 9 ∷ [])
      ready refl refl (refl, (refl, tt))

success-execute_example :
    success naturals python client config
      (execute naturals python client config "reactor" (set_heater ∷ []) ready)
    ≡ (plan naturals python client config "reactor" (set_heater ∷ []) >>= λ low.
        write_all naturals python client config low 0)
unfolding lookup
success-execute_example =
    success-execute naturals python client config "reactor" (set_heater ∷ []) ready refl (refl, tt)
