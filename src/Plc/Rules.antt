-- ===== src/Plc/Rules.antt =====
-- Rules for what holds of the state that a method leaves, whatever it answers.
use pcag.Plc.Actions.{Python}
use pcag.Plc.{Packing}
use pcag.Core.Json.{Arith, Fields}
use pcag.Plc.Operations.{raised, some_actions, snapshot_or, preloaded_image, virtual_snapshot}
use pcag.Plc.Virtual.{Image}
use pcag.Plc.Recovery.{failed, ok, Outcome}
use pcag.Base.{◌≡◌, refl, arith, String, Option, none, some, List, [], ◌∷◌}
use pcag.Base.Dict.{get}
use pcag.Plc.Service.{
  Modbus, Environment, connection_or_throw, after, or_key_error, get_connection, Reply, or_throw, M,
  ManagedConnection, Service, key_error, error, done, ◌>>=◌,
}

module _ {F W : Type 0} (P : Service F → W → Type 0) where
  abbrev pub Holds : {A : Type 0} → A × Service F × W → Type 0
  Holds (r, s, w) = P s w

  Holds-after :
      {A B : Type 0} (k : A → M F W B) (r : Reply A × Service F × W)
      → Holds r
      → ((a : A) (s : Service F) (w : W) → P s w → Holds (k a s w))
      → Holds (after k r)
  Holds-after k (done a, s, w) v h = h a s w v
  Holds-after k (key_error, s, w) v h = v
  Holds-after k (error e, s, w) v h = v

  pub Holds-bind :
      {A B : Type 0} (m : M F W A) (k : A → M F W B) {s : Service F} {w : W}
      → Holds (m s w)
      → ((a : A) (s' : Service F) (w' : W) → P s' w' → Holds (k a s' w'))
      → Holds ((m >>= k) s w)
  unfolding ◌>>=◌
  Holds-bind m k {s} {w} v h = Holds-after k (m s w) v h

  pub or_key_error-Holds :
      {A B : Type 0} (o : Option A) (k : A → M F W B) {s : Service F} {w : W}
      → P s w
      → ((a : A) → o ≡ some a → Holds (k a s w))
      → Holds ((or_key_error o >>= k) s w)
  unfolding ◌>>=◌
  or_key_error-Holds none k v h = v
  or_key_error-Holds (some a) k v h = h a refl

  pub or_throw-Holds :
      {A : Type 0} (o : Outcome A) (s : Service F) (w : W) → P s w → Holds (or_throw o s w)
  or_throw-Holds (ok a) s w v = v
  or_throw-Holds (failed e) s w v = v

  pub preloaded_image-Holds :
      {B : Type 0} (o : Option Image) (k : Image → M F W B) {s : Service F} {w : W}
      → P s w
      → ((image : Image) → Holds (k image s w))
      → Holds ((preloaded_image o >>= k) s w)
  unfolding ◌>>=◌
  preloaded_image-Holds none k v h = v
  preloaded_image-Holds (some image) k v h = h image

  connection_or_throw-Holds :
      {B : Type 0} (o : Option (ManagedConnection F)) (k : ManagedConnection F → M F W B)
      → {s : Service F} {w : W} → P s w
      → ((c : ManagedConnection F) → o ≡ some c → Holds (k c s w))
      → Holds (after k (connection_or_throw o s w))
  connection_or_throw-Holds none k v h = v
  connection_or_throw-Holds (some c) k v h = h c refl

  pub get_connection-Holds :
      {B : Type 0} (key : String) (k : ManagedConnection F → M F W B) {s : Service F} {w : W}
      → P s w
      → ((c : ManagedConnection F) → get key s.connections ≡ some c → Holds (k c s w))
      → Holds ((get_connection key >>= k) s w)
  unfolding ◌>>=◌
  get_connection-Holds key k {s} v h = connection_or_throw-Holds (get key s.connections) k v h

  pub some_actions-Holds :
      {B : Type 0} (actions : List (Fields F)) (k : Unit {0} → M F W B) {s : Service F} {w : W}
      → P s w
      → Holds (k tt s w)
      → Holds ((some_actions actions >>= k) s w)
  unfolding ◌>>=◌
  some_actions-Holds [] k v h = v
  some_actions-Holds (b ∷ bs) k v h = h

  pub snapshot_or-Holds :
      (o : Option (Fields F)) (s : Service F) (w : W) → P s w → Holds (snapshot_or o s w)
  snapshot_or-Holds none s w v = v
  snapshot_or-Holds (some x) s w v = v

  pub raised-Holds : {A : Type 0} (r : Outcome A × Service F × W) → Holds r → Holds (raised r)
  raised-Holds (ok a, s, w) v = v
  raised-Holds (failed e, s, w) v = v

  pub virtual_snapshot-Holds :
      (arith : Arith F) (packing : Packing F) (python : Python F) (env : Environment F W)
      → (modbus : Modbus F W) (a : String) (s : Service F) (w : W) → P s w
      → Holds (virtual_snapshot arith packing python env modbus a s w)
  unfolding virtual_snapshot
  virtual_snapshot-Holds arith packing python env modbus a s w v =
      or_key_error-Holds (get a s.virtual_assets) _ v λ runtime e.
        or_key_error-Holds (get a s.sensor_assets) _ v λ asset p. snapshot_or-Holds _ s w v
