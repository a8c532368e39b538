-- ===== src/Gateway/Guarded.antt =====
-- The gateway's stages before COMMIT let it be reached only through the whole sequence of checks.
use pcag.Base.{
  subst, ℕ, String, ◌≡◌, refl, Option, none, some, [], ◌∷◌, str_eq, eq_iff, Bool-cases, inl, inr,
}
use pcag.Core.Int.{pos}
use pcag.Core.Json.{Fields, Arith}
use pcag.Core.Hash.{Hashing}
use pcag.Core.Integrity.{Violation, check_integrity}
use pcag.Ledger.Repository.{Event}
use pcag.Gateway.Types.{
  committed, committed, ControlRequest, ControlResponse, Call, raised, http_error, ok, Snapshot,
  AssetProfile, SafetyResult, PrepareResult, AbortResult, logged, asked_policy, asked_snapshot,
  asked_profile, asked_safety, sent_prepare, Services,
}
use pcag.Gateway.Monad.{done, Trace}
use pcag.Gateway.Helpers.{Position, Context, abort_error, fault_enabled}
use pcag.Gateway.Execution.{
  after_reverify_abort, reverify_failed, compare_hashes, after_reverify, reverify_stage,
  reverify_hash, after_prepare, prepare_stage,
}
use pcag.Gateway.Pipeline.{
  evidence_of, after_safety, safety_stage, after_integrity, after_profile, after_snapshot,
  after_policy, submit_control_request,
}
use pcag.Gateway.Runs.{Runs, Runs-pure, Runs-raise, Runs-call, Runs-read}
use pcag.Gateway.Gate.{
  Committed, Checked, checked, Safe, safe, Locked, locked, reverified, Committed, Guarded, Ends,
  Outcome, Gated, gate-log, gate-respond, commit_stage-Gated,
}

module _ {F W : Type 0} (h : Hashing F) (arith : Arith F) (v : Services F W)
    (q : ControlRequest F) where
  module _ (c : Context F) (same : c.request ≡ q) where
    abbrev request_tx : String
    request_tx = c.request.transaction_id

    after_reverify_abort-Gated :
        (tr : Trace F) (p : Position) (code : String) (payload : Fields F) (a : Call AbortResult)
        → Guarded h arith v q tr
        → Runs (Gated h arith v q) tr (after_reverify_abort h v c p code payload a)
    unfolding after_reverify_abort
    after_reverify_abort-Gated tr p code payload a g = go (abort_error a) refl
      where
        go :
            (e : Option String)
            → abort_error a ≡ e
            → Runs (Gated h arith v q) tr (after_reverify_abort h v c p code payload a)
        go (some t) e = rw (e, after_reverify_abort) (Runs-pure _ _ (g, tt))
        go none e =
            rw (e, after_reverify_abort)
              (gate-respond h arith v q request_tx tr p _ _ g _ (λ ev. tt))

    reverify_failed-Gated :
        (tr : Trace F) (p : Position) (text : String)
        → Guarded h arith v q tr
        → Runs (Gated h arith v q) tr (reverify_failed h v c p text)
    unfolding reverify_failed
    reverify_failed-Gated tr p text g =
        Runs-call tr _ _ _ (λ a. after_reverify_abort-Gated _ p _ _ a g)

    after_reverify-Gated :
        (tr : Trace F) (p : Position) (s : Call (Snapshot F))
        → Locked h arith v c tr
        → Guarded h arith v q tr
        → Runs (Gated h arith v q) (asked_snapshot s ∷ tr) (after_reverify h v c p s)
    unfolding after_reverify compare_hashes
    after_reverify-Gated tr p (raised text) f g = reverify_failed-Gated _ p _ g
    after_reverify-Gated tr p (http_error n d) f g = reverify_failed-Gated _ p _ g
    after_reverify-Gated tr p (ok s) f g =
        elim (Bool-cases (str_eq (reverify_hash h v c s) c.snapshot.sensor_snapshot_hash)) [
          | inl e ↦ rw e (
              gate-log h arith v q request_tx _ p _ _ g _ (λ p' ev.
                commit_stage-Gated h arith v q c same _ p' (reverified s ((eq_iff _ _).0 e) f) g))
          | inr e ↦ rw e (Runs-call _ _ _ _ (λ a. after_reverify_abort-Gated _ p _ _ a g))
        ]

    after_prepare-Gated :
        (tr : Trace F) (p : Position) (r : Call PrepareResult)
        → Safe h arith v c tr
        → Guarded h arith v q tr
        → Runs
            (Gated h arith v q)
            (sent_prepare c.request.transaction_id c.request.asset_id r ∷ tr)
            (after_prepare h v c p r)
    unfolding after_prepare reverify_stage
    after_prepare-Gated tr p (raised text) f g = Runs-pure _ _ (g, tt)
    after_prepare-Gated tr p (http_error n d) f g = Runs-raise _ _ (g, tt)
    after_prepare-Gated tr p (ok r) f g = elim (Bool-cases (str_eq r.status "LOCK_GRANTED")) [
      | inl e ↦ rw e (
          gate-log h arith v q request_tx _ p _ _ g _ (λ p' ev.
            Runs-call _ _ _ _ (λ s. after_reverify-Gated _ p' s (locked r ((eq_iff _ _).0 e) f) g)))
      | inr e ↦ rw e (gate-respond h arith v q request_tx _ p _ _ g _ (λ ev. tt))
    ]

    prepare_stage-Gated :
        (tr : Trace F) (p : Position)
        → Safe h arith v c tr
        → Guarded h arith v q tr
        → Runs (Gated h arith v q) tr (prepare_stage h v c p)
    unfolding prepare_stage after_prepare
    prepare_stage-Gated tr p f g =
        elim (Bool-cases (fault_enabled c.request.proof_package.fault_injection "lock_denied")) [
          | inl e ↦ rw e (gate-respond h arith v q request_tx tr p _ _ g _ (λ ev. tt))
          | inr e ↦ rw e (Runs-call tr _ _ _ (λ r. after_prepare-Gated tr p r f g))
        ]

    after_safety-Gated :
        (tr : Trace F) (p : Position) (r : Call (SafetyResult F))
        → Checked h arith v c tr
        → Guarded h arith v q tr
        → Runs
            (Gated h arith v q)
            (asked_safety c.request.asset_id c.active_version
                c.request.proof_package.action_sequence c.snapshot.sensor_snapshot r
              ∷ tr)
            (after_safety h arith v c p r)
    unfolding after_safety
    after_safety-Gated tr p (raised text) f g = Runs-pure _ _ (g, tt)
    after_safety-Gated tr p (http_error n d) f g = Runs-pure _ _ (g, tt)
    after_safety-Gated tr p (ok r) f g = elim (Bool-cases (str_eq r.final_verdict "SAFE")) [
      | inl e ↦ rw e (
          gate-log h arith v q request_tx _ p _ _ g _
            (λ p' ev. prepare_stage-Gated _ p' (safe r ((eq_iff _ _).0 e) f) g))
      | inr e ↦ rw e (gate-respond h arith v q request_tx _ p _ _ g _ (λ ev. tt))
    ]

  -- From the answer of the policy's asset profile on: the context is complete.
  module _ (received validated : Event F) where
    after_profile-Gated :
        (version : String) (s : Snapshot F) (a : Call (AssetProfile F)) (p : Position)
        → Runs
            (Gated h arith v q)
            (asked_profile a
              ∷ asked_snapshot (ok s)
              ∷ asked_policy (ok version)
              ∷ logged validated
              ∷ logged received
              ∷ [])
            (after_profile h arith v q p version s a)
    unfolding after_profile after_integrity safety_stage
    after_profile-Gated version s (raised text) p = Runs-pure _ _ (tt, tt)
    after_profile-Gated version s (http_error n d) p = Runs-pure _ _ (tt, tt)
    after_profile-Gated version s (ok a) p =
        Runs-read _ _ _
          (λ now. go now (check_integrity arith (evidence_of h arith v c) (pos now)) refl)
      where
        c : Context F
        c = record { request = q; active_version = version; snapshot = s; profile = a }

        go :
            (now : ℕ) (o : Option Violation)
            → check_integrity arith (evidence_of h arith v c) (pos now) ≡ o
            → Runs
                (Gated h arith v q)
                (asked_profile (ok a)
                  ∷ asked_snapshot (ok s)
                  ∷ asked_policy (ok version)
                  ∷ logged validated
                  ∷ logged received
                  ∷ [])
                (after_integrity h arith v c p o)
        go now (some violation) e =
            gate-respond h arith v q q.transaction_id _ p _ _ tt _ (λ ev. tt)
        go now none e =
            gate-log h arith v q q.transaction_id _ p _ _ tt _ (λ p' ev.
              Runs-call _ _ _ _ (λ r. after_safety-Gated c refl _ p' r (checked now e) tt))

    after_snapshot-Gated :
        (version : String) (s : Call (Snapshot F)) (p : Position)
        → Runs
            (Gated h arith v q)
            (asked_snapshot s ∷ asked_policy (ok version) ∷ logged validated ∷ logged received ∷ [])
            (after_snapshot h arith v q p version s)
    unfolding after_snapshot
    after_snapshot-Gated version (raised text) p = Runs-pure _ _ (tt, tt)
    after_snapshot-Gated version (http_error n d) p = Runs-pure _ _ (tt, tt)
    after_snapshot-Gated version (ok s) p =
        Runs-call _ _ _ _ (λ a. after_profile-Gated version s a p)

    after_policy-Gated :
        (a : Call String) (p : Position)
        → Runs
            (Gated h arith v q)
            (asked_policy a ∷ logged validated ∷ logged received ∷ [])
            (after_policy h arith v q p a)
    unfolding after_policy
    after_policy-Gated (raised text) p = Runs-pure _ _ (tt, tt)
    after_policy-Gated (http_error n d) p = Runs-pure _ _ (tt, tt)
    after_policy-Gated (ok version) p = Runs-call _ _ _ _ (λ s. after_snapshot-Gated version s p)

  submit-Gated : Runs (Gated h arith v q) [] (submit_control_request h arith v q)
  unfolding submit_control_request
  submit-Gated = gate-log h arith v q q.transaction_id [] _ _ _ tt _ (λ p received.
      gate-log h arith v q q.transaction_id _ p _ _ tt _
        (λ p' validated. Runs-call _ _ _ _ (λ a. after_policy-Gated received validated a p')))

  -- Whatever the services answer: the gateway sends a COMMIT only with the request's transaction,
  -- asset and actions, and straight after the integrity check has passed on what the services
  -- answered, the Safety Cluster has answered SAFE for these actions, asset, policy version and
  -- sensors, the OT Interface has granted the transaction the lock of the asset, and the sensors,
  -- read again, have the same hash (the answered one, unless the request injects the mismatch
  -- fault), each of these steps recorded in the ledger.
  pub commit-Guarded : (w : W) → Guarded h arith v q ((submit_control_request h arith v q w []).2)
  commit-Guarded w = (submit-Gated.at w).0

  -- If the gateway answers COMMITTED, then its last call to a service but the ledger is the COMMIT,
  -- it followed that whole sequence of checks, and its answer was ACK or ALREADY_COMMITTED.
  pub committed_acknowledged :
      (w : W) (a : ControlResponse F)
      → (submit_control_request h arith v q w []).0 ≡ done a
      → a.status ≡ committed
      → (c : Context F) × (c.request ≡ q)
        × Committed h arith v c ((submit_control_request h arith v q w []).2)
  committed_acknowledged w a e s =
      let tr = (submit_control_request h arith v q w []).2 in
      subst (λ s. Ends h arith v q s tr) s
        (subst (λ r. Outcome h arith v q r tr) e (submit-Gated.at w).1)
