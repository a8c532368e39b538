-- ===== src/Modbus/Reports.antt =====
-- What the executor of pcag/plugins/executor/modbus_executor.py reports, against the writes that the
-- device took.
use pcag.Base.{
  inr, inl, ◌≡◌, ◌>>=◌, refl, sym, ap, Bool, true, false, String, Option, none, some, List, [], ◌∷◌,
  ◌++◌, ◌∙◌, Option-cases,
}
use pcag.Base.Dict.{get}
use pcag.Core.Json.{Arith, Fields}
use pcag.Modbus.{
  Attempt, Python, Client, Config, Executor, done, value_error, other_error, after_write, write,
  execute_single_action, execute_each, if_sent,
}
use pcag.Modbus.Execute.{
  execute, execute_loop, execute_one, safe_state, is_low_level, translate_action, if_success,
  execute_translated,
}

module _ {F : Type 0} where
  abbrev pub AllAre : Bool → List (Fields F) → Type 0
  AllAre b [] = Unit {0}
  AllAre b (a ∷ as') = (is_low_level a ≡ b) × AllAre b as'

  abbrev pub translation : Attempt (List (Fields F)) → Option (List (Fields F))
  translation (done low) = some low
  translation (value_error e) = none
  translation (other_error e) = none

module _ {F W : Type 0} (arith : Arith F) (python : Python F) (client : Client F W)
    (config : Config F) where
  -- Every action attempted once, whatever the device says.
  abbrev pub attempted : List (Fields F) → Executor W → Executor W
  attempted [] x = x
  attempted (a ∷ as') x = attempted as' (execute_single_action python client a x).1

  -- The writes of all actions, if all can be translated.
  abbrev pub plan : String → List (Fields F) → Option (List (Fields F))
  plan asset [] = some []
  plan asset (a ∷ as') = translation (translate_action arith python config asset a) >>= λ low.
      plan asset as' >>= λ rest. some (low ++ rest)

  abbrev pub taken : Attempt Bool × W → Option W
  taken (done true, w) = some w
  taken (done false, w) = none
  taken (value_error e, w) = none
  taken (other_error e, w) = none

  -- The world after the writes, if the device took every one of them.
  abbrev pub write_all : List (Fields F) → W → Option W
  write_all [] w = some w
  write_all (a ∷ as') w = taken (write python client a w) >>= write_all as'

  abbrev pub success : Attempt Bool × Executor W → Option W
  success (done true, x) = some x.world
  success (done false, x) = none
  success (value_error e, x) = none
  success (other_error e, x) = none

  abbrev pub sent : Bool × Executor W → Option W
  sent (true, x) = some x.world
  sent (false, x) = none

  execute_loop-attempted :
      (asset : String) (actions : List (Fields F)) (x : Executor W)
      → AllAre true actions
      → execute_loop arith python client config asset actions x ≡ (done true, attempted actions x)
  unfolding execute_loop execute_one
  execute_loop-attempted asset [] x h = refl
  execute_loop-attempted asset (a ∷ as') x h = rw h.0 (execute_loop-attempted asset as' _ h.1)

  -- For any device: on a connected executor, the safe state of an asset whose configured actions are
  -- all low-level reports success, with every action attempted once.
  pub safe_state-attempted :
      (asset : String) (a : Fields F) (as' : List (Fields F)) (x : Executor W)
      → x.connected ≡ true
      → get asset config.safe_state_actions ≡ some (a ∷ as')
      → AllAre true (a ∷ as')
      → safe_state arith python client config asset x
        ≡ (done true, attempted (a ∷ as') (record x { last_error = none }))
  unfolding safe_state execute
  safe_state-attempted asset a as' x c e h = rw (e, c) (execute_loop-attempted asset (a ∷ as') _ h)

  write_all-append :
      (l m : List (Fields F)) (w : W) → write_all (l ++ m) w ≡ (write_all l w >>= write_all m)
  write_all-append [] m w = refl
  write_all-append (a ∷ l) m w = elim (Option-cases (taken (write python client a w))) [
    | inl e ↦ rw e refl
    | inr (w', e) ↦ rw e (write_all-append l m w')
  ]

  sent-after_write :
      (a : Fields F) (x : Executor W) (o : Attempt Bool × W) (k : Executor W → Bool × Executor W)
      (f : W → Option W)
      → ((y : Executor W) → sent (k y) ≡ f y.world)
      → sent (if_sent python client k (after_write python client a x o)) ≡ (taken o >>= f)
  sent-after_write a x (done true, w) k f h = h _
  sent-after_write a x (done false, w) k f h = refl
  sent-after_write a x (value_error e, w) k f h = refl
  sent-after_write a x (other_error e, w) k f h = refl

  sent-execute_each :
      (low : List (Fields F)) (x : Executor W)
      → sent (execute_each python client low x) ≡ write_all low x.world
  unfolding execute_each execute_single_action
  sent-execute_each [] x = refl
  sent-execute_each (a ∷ low) x =
      sent-after_write a x (write python client a x.world) (λ y. execute_each python client low y)
        (write_all low) (sent-execute_each low)

  after_each :
      (k : Executor W → Attempt Bool × Executor W) (f : W → Option W)
      → ((y : Executor W) → success (k y) ≡ f y.world)
      → (o : Bool × Executor W)
      → success (if_success arith python client config k (done o.0, o.1)) ≡ (sent o >>= f)
  after_each k f h (true, x) = h x
  after_each k f h (false, x) = refl

  after_translated :
      (k : Executor W → Attempt Bool × Executor W) (f : W → Option W)
      → ((y : Executor W) → success (k y) ≡ f y.world)
      → (t : Attempt (List (Fields F))) (x : Executor W)
      → success (
          if_success arith python client config k
            (execute_translated arith python client config t x))
        ≡ (translation t >>= λ low. write_all low x.world >>= f)
  after_translated k f h (done low) x =
      after_each k f h (execute_each python client low x)
      ∙ ap (λ (o : Option W). o >>= f) (sent-execute_each low x)
  after_translated k f h (value_error e) x = refl
  after_translated k f h (other_error e) x = refl

  nothing_after : (o : Option W) → ◌>>=◌ {B = W} o (λ w. none) ≡ none
  nothing_after none = refl
  nothing_after (some w) = refl

  planned_first :
      (low : List (Fields F)) (rest : Option (List (Fields F))) (w : W)
      → (write_all low w >>= λ w'. rest >>= λ l. write_all l w')
        ≡ ((rest >>= λ l. some (low ++ l)) >>= λ l. write_all l w)
  planned_first low none w = nothing_after (write_all low w)
  planned_first low (some l) w = sym (write_all-append low l w)

  planned_after :
      (t rest : Option (List (Fields F))) (w : W)
      → (t >>= λ low. write_all low w >>= λ w'. rest >>= λ l. write_all l w')
        ≡ ((t >>= λ low. rest >>= λ l. some (low ++ l)) >>= λ l. write_all l w)
  planned_after none rest w = refl
  planned_after (some low) rest w = planned_first low rest w

  success-execute_loop :
      (asset : String) (actions : List (Fields F)) (x : Executor W)
      → AllAre false actions
      → success (execute_loop arith python client config asset actions x)
        ≡ (plan asset actions >>= λ low. write_all low x.world)
  unfolding execute_loop execute_one
  success-execute_loop asset [] x h = refl
  success-execute_loop asset (a ∷ as') x h = rw h.0 (
      after_translated (λ y. execute_loop arith python client config asset as' y)
        (λ w. plan asset as' >>= λ low. write_all low w) (λ y. success-execute_loop asset as' y h.1)
        (translate_action arith python config asset a) x
      ∙ planned_after (translation (translate_action arith python config asset a)) (plan asset as')
          x.world)

  -- A connected executor given actions of which none is low-level reports success exactly if all of
  -- them can be translated and the device takes every write, in order; the world is then the one
  -- after these writes. It is so also with all translations made before the first write.
  pub success-execute :
      (asset : String) (actions : List (Fields F)) (x : Executor W)
      → x.connected ≡ true
      → AllAre false actions
      → success (execute arith python client config asset actions x)
        ≡ (plan asset actions >>= λ low. write_all low x.world)
  unfolding execute
  success-execute asset actions x c h = rw c (success-execute_loop asset actions _ h)
