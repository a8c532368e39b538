-- ===== src/Gateway/Gate.antt =====
-- What the gateway must have seen before it sends a COMMIT, and before it answers COMMITTED, and
-- that its last stage, COMMIT, keeps to it.
use pcag.Base.{
  ℕ, String, ◌≡◌, refl, Bool, true, false, ◌||◌, Option, none, some, [], ◌∷◌, str_eq, if◌then◌else◌,
  Bool-cases, inl, inr,
}
use pcag.Core.Int.{pos}
use pcag.Core.Json.{Fields, Arith}
use pcag.Core.Hash.{Hashing}
use pcag.Core.Integrity.{check_integrity}
use pcag.Ledger.Repository.{Event}
use pcag.Gateway.Types.{
  sent_abort, ControlRequest, ControlStatus, committed, aborted, error, ControlResponse, Call,
  raised, http_error, ok, Snapshot, SafetyResult, PrepareResult, CommitResult, AbortResult, logged,
  asked_policy, asked_snapshot, asked_profile, asked_safety, sent_prepare, sent_commit, Services,
}
use pcag.Gateway.Monad.{Result, done, exception, Trace, M, pure, ◌>>=◌}
use pcag.Gateway.Helpers.{Position, Context, abort_error, or_default}
use pcag.Gateway.Commit.{
  fault, log_evidence, after_commit_status, after_commit_abort, commit_failed, after_commit,
  commit_stage,
}
use pcag.Gateway.Execution.{reverify_hash}
use pcag.Gateway.Pipeline.{evidence_of}
use pcag.Gateway.Runs.{Runs, Runs-pure, Runs-call, Runs-log}

module _ {F W : Type 0} (h : Hashing F) (arith : Arith F) (v : Services F W) where
  -- The integrity stage has passed, on what the three services have answered.
  pub data Checked (c : Context F) : Trace F → Type 0 where
    checked :
        {received validated passed : Event F} (now : ℕ)
        → check_integrity arith (evidence_of h arith v c) (pos now) ≡ none
        → Checked c (
            logged passed
            ∷ asked_profile (ok c.profile)
            ∷ asked_snapshot (ok c.snapshot)
            ∷ asked_policy (ok c.active_version)
            ∷ logged validated
            ∷ logged received
            ∷ [])

  -- And then the Safety Cluster has found the actions safe.
  pub data Safe (c : Context F) : Trace F → Type 0 where
    safe :
        {tr : Trace F} {e : Event F} (r : SafetyResult F)
        → r.final_verdict ≡ "SAFE"
        → Checked c tr
        → Safe c (
            logged e
            ∷ asked_safety c.request.asset_id c.active_version
                c.request.proof_package.action_sequence c.snapshot.sensor_snapshot
                (ok r)
            ∷ tr)

  -- And then the OT Interface has granted the lock.
  pub data Locked (c : Context F) : Trace F → Type 0 where
    locked :
        {tr : Trace F} {e : Event F} (r : PrepareResult)
        → r.status ≡ "LOCK_GRANTED"
        → Safe c tr
        → Locked c (logged e ∷ sent_prepare c.request.transaction_id c.request.asset_id (ok r) ∷ tr)

  -- And then the sensors have been read again and their hash has not changed.
  pub data Reverified (c : Context F) : Trace F → Type 0 where
    reverified :
        {tr : Trace F} {e : Event F} (s : Snapshot F)
        → reverify_hash h v c s ≡ c.snapshot.sensor_snapshot_hash
        → Locked c tr
        → Reverified c (logged e ∷ asked_snapshot (ok s) ∷ tr)

  -- And then the OT Interface has acknowledged a COMMIT, and the ledger that.
  pub data Committed (c : Context F) : Trace F → Type 0 where
    acknowledged :
        {tr : Trace F} {e : Event F} (r : CommitResult)
        → (str_eq r.status "ALREADY_COMMITTED" || str_eq r.status "ACK") ≡ true
        → Reverified c tr
        → Committed c (
            logged e
            ∷ sent_commit c.request.transaction_id c.request.asset_id
                c.request.proof_package.action_sequence
                (ok r)
            ∷ tr)

  module _ (q : ControlRequest F) where
    -- Every COMMIT has been sent straight after the whole sequence of checks for the request, with
    -- its transaction, asset and actions.
    abbrev pub Guarded : Trace F → Type 0
    Guarded [] = Unit {0}
    Guarded (sent_commit tx asset actions r ∷ tr) =
        ((c : Context F) × (c.request ≡ q)
          × (tx ≡ c.request.transaction_id)
          × (asset ≡ c.request.asset_id)
          × (actions ≡ c.request.proof_package.action_sequence)
          × Reverified c tr)
        × Guarded tr
    Guarded (_ ∷ tr) = Guarded tr

    abbrev pub Ends : ControlStatus → Trace F → Type 0
    Ends committed tr = (c : Context F) × (c.request ≡ q) × Committed c tr
    Ends _ tr = Unit {0}

    -- A response COMMITTED ends a trace with an acknowledged COMMIT.
    abbrev pub Outcome : Result (ControlResponse F) → Trace F → Type 0
    Outcome (done a) tr = Ends a.status tr
    Outcome (exception text) tr = Unit {0}

    abbrev pub Gated : Result (ControlResponse F) → Trace F → Type 0
    Gated r tr = Guarded tr × Outcome r tr

    Ends-failed : (b : Bool) (tr : Trace F) → Ends (if b then aborted else error) tr
    Ends-failed true tr = tt
    Ends-failed false tr = tt

    module _ (tx : String) (tr : Trace F) (p : Position) (stage : String) (payload : Fields F)
        (g : Guarded tr) where
      pub gate-log :
          (k : Position → M F W (ControlResponse F))
          → ((p' : Position) (e : Event F) → Runs Gated (logged e ∷ tr) (k p'))
          → Runs Gated tr (log_evidence h v tx p stage payload >>= k)
      gate-log k r = Runs-log tr h v tx p stage payload k (λ now. r _ _) (λ now detail. (g, tt))

      pub gate-respond :
          (a : ControlResponse F)
          → ((e : Event F) → Ends a.status (logged e ∷ tr))
          → Runs Gated tr (log_evidence h v tx p stage payload >>= λ _. pure a)
      gate-respond a ends = gate-log (λ _. pure a) (λ p' e. Runs-pure _ a (g, ends e))

    module _ (c : Context F) (same : c.request ≡ q) where
      after_commit_status-Gated :
          (tr : Trace F) (p : Position) (r : CommitResult)
          → Reverified c tr
          → Guarded tr
          → Runs Gated
              (sent_commit c.request.transaction_id c.request.asset_id
                  c.request.proof_package.action_sequence
                  (ok r)
                ∷ tr)
              (after_commit_status h v c p r)
      unfolding after_commit_status
      after_commit_status-Gated tr p r f g =
          elim (Bool-cases (str_eq r.status "EXECUTION_FAILED")) [
            | inl e ↦ rw e (
                gate-respond c.request.transaction_id _ p _ _ ((c, same, refl, refl, refl, f), g) _
                  (λ ev. Ends-failed (or_default false r.safe_state_executed) _))
            | inr e ↦
                elim (Bool-cases (str_eq r.status "ALREADY_COMMITTED" || str_eq r.status "ACK")) [
                  | inl d ↦
                      rw (e, d)
                        (gate-respond c.request.transaction_id _ p _ _
                          ((c, same, refl, refl, refl, f), g) _
                          (λ ev. (c, same, acknowledged r d f)))
                  | inr d ↦
                      rw (e, d)
                        (gate-respond c.request.transaction_id _ p _ _
                          ((c, same, refl, refl, refl, f), g) _ (λ ev. tt))
                ]
          ]

      commit_failed-Gated :
          (tr : Trace F) (p : Position) (text : String)
          → Guarded tr
          → Runs Gated tr (commit_failed h v c p text)
      unfolding commit_failed after_commit_abort
      commit_failed-Gated tr p text g = Runs-call tr _ _ _ (λ a. go a (abort_error a) refl)
        where
          go :
              (a : Call AbortResult) (e : Option String)
              → abort_error a ≡ e
              → Runs Gated (sent_abort a ∷ tr) (after_commit_abort h v c p text a)
          go a (some t) e = rw (e, after_commit_abort) (Runs-pure _ _ (g, tt))
          go a none e =
              rw (e, after_commit_abort)
                (gate-respond c.request.transaction_id _ p _ _ g _ (λ ev. tt))

      after_commit-Gated :
          (tr : Trace F) (p : Position) (r : Call CommitResult)
          → Reverified c tr
          → Guarded tr
          → Runs Gated
              (sent_commit c.request.transaction_id c.request.asset_id
                  c.request.proof_package.action_sequence r
                ∷ tr)
              (after_commit h v c p r)
      unfolding after_commit
      after_commit-Gated tr p (raised text) f g =
          commit_failed-Gated _ p _ ((c, same, refl, refl, refl, f), g)
      after_commit-Gated tr p (http_error n d) f g =
          commit_failed-Gated _ p _ ((c, same, refl, refl, refl, f), g)
      after_commit-Gated tr p (ok r) f g = after_commit_status-Gated tr p r f g

      -- The stage COMMIT, once the sensors are reverified. An injected fault sends no COMMIT.
      pub commit_stage-Gated :
          (tr : Trace F) (p : Position)
          → Reverified c tr
          → Guarded tr
          → Runs Gated tr (commit_stage h v c p)
      unfolding commit_stage after_commit after_commit_status
      commit_stage-Gated tr p f g = elim (Bool-cases (fault h v c "commit_timeout")) [
        | inl e ↦ rw e (gate-respond c.request.transaction_id tr p _ _ g _ (λ ev. tt))
        | inr e ↦ elim (Bool-cases (fault h v c "commit_failed_recovered")) [
          | inl d ↦ rw (e, d) (gate-respond c.request.transaction_id tr p _ _ g _ (λ ev. tt))
          | inr d ↦ elim (Bool-cases (fault h v c "ot_interface_error")) [
            | inl b ↦ rw (e, d, b) (commit_failed-Gated tr p _ g)
            | inr b ↦ rw (e, d, b) (Runs-call tr _ _ _ (λ r. after_commit-Gated tr p r f g))
          ]
        ]
      ]
