-- ===== src/Gateway/Monad.antt =====
-- The gateway's coroutine: it may raise, it reads and changes the world by its calls, and the
-- trace, newest first, keeps them.
use pcag.Base.{String, List, ◌∷◌}
use pcag.Gateway.Types.{Effect}

pub data Result (A : Type 0) : Type 0 where
  done : A → Result A
  exception : String → Result A

abbrev pub Trace : Type 0 → Type 0
Trace F = List (Effect F)

module _ (F W : Type 0) where
  abbrev pub M : Type 0 → Type 0
  M A = W → Trace F → Result A × W × Trace F

module _ {F W : Type 0} where
  abbrev pub pure : {A : Type 0} → A → M F W A
  pure a w tr = (done a, w, tr)

  abbrev pub raise : {A : Type 0} → String → M F W A
  raise text w tr = (exception text, w, tr)

  infixl 5 ◌>>=◌
  unfoldable pub ◌>>=◌ : {A B : Type 0} → M F W A → (A → M F W B) → M F W B
  ◌>>=◌ m k w tr =
      let (r, w', tr') = m w tr in
      elim r [ done a ↦ k a w' tr' | exception text ↦ (exception text, w', tr') ]

  -- A call of a service: its answer goes into the trace.
  unfoldable pub call : {A : Type 0} → (W → A × W) → (A → Effect F) → M F W A
  call op effect w tr = let (a, w') = op w in (done a, w', effect a ∷ tr)

  -- A reading of the clock.
  unfoldable pub read : {A : Type 0} → (W → A × W) → M F W A
  read op w tr = let (a, w') = op w in (done a, w', tr)
