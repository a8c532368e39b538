-- ===== src/Gateway/Runs.antt =====
-- A rule for each way in which the gateway's coroutine is built, for any postcondition on its
-- result and its trace.
use pcag.Base.{ℕ, String, ◌≡◌, refl, Bool, true, false, Option, none, some, ◌∷◌, if◌then◌else◌}
use pcag.Core.Json.{Fields}
use pcag.Core.Hash.{Hashing}
use pcag.Gateway.Types.{Effect, logged, refused, Services}
use pcag.Gateway.Monad.{Result, done, exception, Trace, M, pure, raise, ◌>>=◌, call, read}
use pcag.Gateway.Helpers.{Position}
use pcag.Gateway.Commit.{event_at, next_position, append_effect, appended, log_evidence}

-- From the trace `tr`, in any world, `m` ends with a result and a trace that satisfy `Q`.
pub record Runs {F W A : Type 0} (Q : Result A → Trace F → Type 0) (tr : Trace F) (m : M F W A)
    : Type 0 where
  pub at : (w : W) → Q (m w tr).0 (m w tr).2

module _ {F W A : Type 0} {Q : Result A → Trace F → Type 0} (tr : Trace F) where
  pub Runs-pure : (a : A) → Q (done a) tr → Runs {W = W} Q tr (pure a)
  Runs-pure a q = record { at = λ w. q }

  pub Runs-raise : (text : String) → Q (exception text) tr → Runs {W = W} Q tr (raise text)
  Runs-raise text q = record { at = λ w. q }

  pub Runs-if :
      (b : Bool) (m n : M F W A)
      → (b ≡ true → Runs Q tr m)
      → (b ≡ false → Runs Q tr n)
      → Runs Q tr (if b then m else n)
  Runs-if true m n km kn = km refl
  Runs-if false m n km kn = kn refl

  pub Runs-call :
      {B : Type 0} (op : W → B × W) (effect : B → Effect F) (k : B → M F W A)
      → ((b : B) → Runs Q (effect b ∷ tr) (k b))
      → Runs Q tr (call op effect >>= k)
  unfolding ◌>>=◌ call
  Runs-call op effect k r = record { at = λ w. let (b, w') = op w in (r b).at w' }

  pub Runs-read :
      {B : Type 0} (op : W → B × W) (k : B → M F W A)
      → ((b : B) → Runs Q tr (k b))
      → Runs Q tr (read op >>= k)
  unfolding ◌>>=◌ read
  Runs-read op k r = record { at = λ w. let (b, w') = op w in (r b).at w' }

  -- An event that the ledger accepts moves the position on; one that it refuses ends the run.
  module _ (h : Hashing F) (v : Services F W) (tx : String) (p : Position) (stage : String)
      (payload : Fields F) where
    pub Runs-log :
        (k : Position → M F W A)
        → ((now : ℕ)
            → Runs Q
                (logged (event_at h v tx p stage payload now) ∷ tr)
                (k (next_position h v p payload)))
        → ((now : ℕ) (detail : String)
            → Q (exception detail) (refused (event_at h v tx p stage payload now) ∷ tr))
        → Runs Q tr (log_evidence h v tx p stage payload >>= k)
    unfolding ◌>>=◌ log_evidence call read
    Runs-log k good bad = record {
      at = λ w.
          let (now, w') = v.now w in
          let (answer, w'') = v.append (event_at h v tx p stage payload now) w' in
          (go now answer).at w'';
    }
      where
        go :
            (now : ℕ) (answer : Option String)
            → Runs Q
                (append_effect h v (event_at h v tx p stage payload now) answer ∷ tr)
                (appended h v p payload answer >>= k)
        go now none = record { at = (good now).at }
        go now (some detail) = record { at = λ w. bad now detail }
