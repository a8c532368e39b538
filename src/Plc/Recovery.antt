-- ===== src/Plc/Recovery.antt =====
-- `_connect`, `_mark_connection_failed` and `_run_with_recovery`: a connection is opened when it is
-- needed, and an operation that fails is tried once more on a new connection. The world `W` is what
-- lies behind the connection; a close changes nothing that counts.
use pcag.Base.{
  ◌≡◌, inl, inr, refl, String, Bool, true, false, ◌&&◌, Option, none, some, if◌then◌else◌,
  Bool-cases,
}

-- Of the client it counts whether there is one.
pub record Connection : Type 0 where
  pub client : Bool
  pub connected : Bool
  pub last_error : Option String

-- How `ModbusTcpClient(...).connect()` ends: True, False, or an exception.
pub data Opening : Type 0 where
  opened refused : Opening
  raises : String → Opening

pub data Outcome (A : Type 0) : Type 0 where
  ok : A → Outcome A
  failed : String → Outcome A

-- `_connect`, with the exception that it raises.
abbrev connected_by : String → Opening → Connection → Option String × Connection
connected_by why opened c = (none, record { client = true; connected = true; last_error = none })
connected_by why refused c =
    (some why, record { client = true; connected = false; last_error = some why })
connected_by why (raises e) c = (some e, record c { client = true })

abbrev pub mark_connection_failed : String → Connection → Connection
mark_connection_failed e c = record { client = false; connected = false; last_error = some e }

-- A connection that counts as connected has a client and no error.
abbrev pub IsSound : Connection → Type 0
IsSound c = c.connected ≡ true → (c.client ≡ true) × (c.last_error ≡ none)

module _ {W A : Type 0} (why : String) (connect : W → Opening × W) (fn : W → Outcome A × W) where
  abbrev second_error : Outcome A × W → Connection → Outcome A × Connection × W
  second_error (ok a, w) c = (ok a, c, w)
  second_error (failed e, w) c = (failed e, mark_connection_failed e c, w)

  abbrev after_reconnect : Option String → Connection → W → Outcome A × Connection × W
  after_reconnect none c w = second_error (fn w) c
  after_reconnect (some e) c w = (failed e, c, w)

  abbrev retry : Connection → W → Outcome A × Connection × W
  retry c w =
      let (o, w') = connect w in let (e, c') = connected_by why o c in after_reconnect e c' w'

  abbrev first_error : Outcome A × W → Connection → Outcome A × Connection × W
  first_error (ok a, w) c = (ok a, c, w)
  first_error (failed e, w) c = retry (mark_connection_failed e c) w

  abbrev attempt : Option String → Connection → W → Outcome A × Connection × W
  attempt none c w = first_error (fn w) c
  attempt (some e) c w = (failed e, c, w)

  unfoldable pub run_with_recovery : Connection → W → Outcome A × Connection × W
  run_with_recovery c w =
      if c.connected && c.client
      then attempt none c w
      else (let (o, w') = connect w in let (e, c') = connected_by why o c in attempt e c' w')

  abbrev pub Recovered : Outcome A × Connection × W → Type 0
  Recovered (ok a, c, w) = (c.connected ≡ true) × IsSound c
  Recovered (failed e, c, w) = c.connected ≡ false

  second_error-Recovered :
      (o : Outcome A × W) (c : Connection)
      → c.connected ≡ true
      → IsSound c
      → Recovered (second_error o c)
  second_error-Recovered (ok a, w) c h s = (h, s)
  second_error-Recovered (failed e, w) c h s = refl

  retry-Recovered :
      (o : Opening) (w : W) (e : String) (c : Connection)
      → Recovered (
          let (e', c') = connected_by why o (mark_connection_failed e c) in after_reconnect e' c' w)
  retry-Recovered opened w e c = second_error-Recovered (fn w) _ refl (λ h. (refl, refl))
  retry-Recovered refused w e c = refl
  retry-Recovered (raises x) w e c = refl

  first_error-Recovered :
      (o : Outcome A × W) (c : Connection)
      → c.connected ≡ true
      → IsSound c
      → Recovered (first_error o c)
  first_error-Recovered (ok a, w) c h s = (h, s)
  first_error-Recovered (failed e, w) c h s = retry-Recovered (connect w).0 (connect w).1 e c

  attempt-Recovered :
      (o : Opening) (c : Connection) (w : W)
      → c.connected ≡ false
      → Recovered (let (e, c') = connected_by why o c in attempt e c' w)
  attempt-Recovered opened c w h = first_error-Recovered (fn w) _ refl (λ k. (refl, refl))
  attempt-Recovered refused c w h = refl
  attempt-Recovered (raises e) c w h = h

  -- Whatever the device and the operation do, `_run_with_recovery` on a sound connection leaves it
  -- sound: after a result it is connected, with a client and no error; after an exception it is not
  -- connected, so the next operation opens it anew.
  pub run_with_recovery-Recovered :
      (c : Connection) (w : W) → IsSound c → Recovered (run_with_recovery c w)
  unfolding run_with_recovery
  run_with_recovery-Recovered c w s = elim (Bool-cases c.connected) [
    | inl h ↦ simp (h, (s h).0) (first_error-Recovered (fn w) c h s)
    | inr h ↦ simp h (attempt-Recovered (connect w).0 c (connect w).1 h)
  ]
