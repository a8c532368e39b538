-- ===== src/Gateway/Success.antt =====
-- A request that every service agrees to is committed.
use pcag.Base.{eq_refl, ℕ, String, ◌≡◌, refl, true, false, none, some, [], ◌∷◌, str_eq, sym, subst}
use pcag.Core.Int.{pos}
use pcag.Core.Json.{Fields, Arith, nil}
use pcag.Core.Text.{concat}
use pcag.Core.Hash.{Hashing}
use pcag.Core.Integrity.{check_integrity}
use pcag.Ledger.Repository.{Event}
use pcag.Gateway.Types.{
  ControlResponse, ok, SafetyResult, PrepareResult, CommitResult, Effect, logged, Services,
  committed,
}
use pcag.Gateway.Monad.{Result, done, Trace, M, ◌>>=◌, call, read}
use pcag.Gateway.Helpers.{Position, Context, response, fault_enabled, extract_runtime_context}
use pcag.Gateway.Commit.{
  event_at, next_position, append_effect, appended, log_evidence, commit_stage, after_commit,
  after_commit_status,
}
use pcag.Gateway.Execution.{
  lock_ttl, prepare_stage, after_prepare, reverify_stage, after_reverify, compare_hashes,
}
use pcag.Gateway.Pipeline.{
  evidence_of, after_safety, safety_stage, after_integrity, after_profile, after_snapshot,
  after_policy, submit_control_request,
}
use pcag.Gateway.Runs.{Runs, Runs-pure}

-- Every service agrees at any time: the ledger accepts each event, the package passes the integrity
-- check against what the services answer, the verdict is SAFE, the lock is granted, and COMMIT is
-- acknowledged.
pub record Agrees {F W : Type 0} (h : Hashing F) (arith : Arith F) (v : Services F W)
    (c : Context F) (verdict : SafetyResult F) (granted : PrepareResult) (executed : CommitResult)
    : Type 0 where
  pub append : (e : Event F) (w : W) → (v.append e w).0 ≡ none
  pub active_policy : (w : W) → (v.active_policy w).0 ≡ ok c.active_version
  pub latest_snapshot : (w : W) → (v.latest_snapshot c.request.asset_id w).0 ≡ ok c.snapshot
  pub asset_profile :
      (w : W) → (v.asset_profile c.active_version c.request.asset_id w).0 ≡ ok c.profile
  pub integrity : (w : W) → check_integrity arith (evidence_of h arith v c) (pos (v.now w).0) ≡ none
  pub validate :
      (w : W)
      → (v.validate c.request.transaction_id c.request.asset_id c.active_version
          c.request.proof_package.action_sequence c.snapshot.sensor_snapshot
          (extract_runtime_context c.request.proof_package.runtime_context)
          w).0
        ≡ ok verdict
  pub is_safe : str_eq verdict.final_verdict "SAFE" ≡ true
  pub prepare :
      (w : W)
      → (v.prepare c.request.transaction_id c.request.asset_id (lock_ttl h v c) w).0 ≡ ok granted
  pub is_granted : str_eq granted.status "LOCK_GRANTED" ≡ true
  pub commit :
      (w : W)
      → (v.commit c.request.transaction_id c.request.asset_id
          c.request.proof_package.action_sequence w).0
        ≡ ok executed
  pub is_ack : executed.status ≡ "ACK"
  pub no_fault :
      (family : String) → fault_enabled c.request.proof_package.fault_injection family ≡ false

module _ {F W A : Type 0} {Q : Result A → Trace F → Type 0} (tr : Trace F) where
  -- A call whose answer is known.
  Runs-answer :
      {B : Type 0} (op : W → B × W) (effect : B → Effect F) (k : B → M F W A) (b : B)
      → ((w : W) → (op w).0 ≡ b)
      → Runs Q (effect b ∷ tr) (k b)
      → Runs Q tr (call op effect >>= k)
  unfolding ◌>>=◌ call
  Runs-answer op effect k b e r = record {
    at = λ w.
        subst (λ b. Q ((k b (op w).1 (effect b ∷ tr)).0) ((k b (op w).1 (effect b ∷ tr)).2))
          (sym (e w)) (r.at (op w).1);
  }

  -- A reading of the clock, of which `P` holds.
  Runs-known :
      {B : Type 0} (op : W → B × W) (k : B → M F W A) (P : B → Type 0)
      → ((w : W) → P ((op w).0))
      → ((b : B) → P b → Runs Q tr (k b))
      → Runs Q tr (read op >>= k)
  unfolding ◌>>=◌ read
  Runs-known op k P e r = record { at = λ w. (r ((op w).0) (e w)).at ((op w).1) }

  -- An event that the ledger accepts.
  Runs-accepted :
      (h : Hashing F) (v : Services F W) (tx : String) (p : Position) (stage : String)
      (payload : Fields F) (k : Position → M F W A)
      → ((e : Event F) (w : W) → (v.append e w).0 ≡ none)
      → ((now : ℕ)
          → Runs Q
              (logged (event_at h v tx p stage payload now) ∷ tr)
              (k (next_position h v p payload)))
      → Runs Q tr (log_evidence h v tx p stage payload >>= k)
  unfolding ◌>>=◌ log_evidence call read
  Runs-accepted h v tx p stage payload k accepts r = record {
    at = λ w.
        let (now, w') = v.now w in
        let e = event_at h v tx p stage payload now in
        let w'' = (v.append e w').1 in
        subst
          (λ a.
            Q (((appended h v p payload a >>= k) w'' (append_effect h v e a ∷ tr)).0)
              (((appended h v p payload a >>= k) w'' (append_effect h v e a ∷ tr)).2))
          (sym (accepts e w')) ((r now).at w'');
  }

module _ {F W : Type 0} (h : Hashing F) (arith : Arith F) (v : Services F W) (c : Context F)
    (verdict : SafetyResult F) (granted : PrepareResult) (executed : CommitResult)
    (a : Agrees h arith v c verdict granted executed) where
  abbrev request_tx : String
  request_tx = c.request.transaction_id

  abbrev pub success : ControlResponse F
  success =
      response request_tx committed none (some (concat ("/v1/transactions/" ∷ request_tx ∷ []))) nil

  abbrev Succeeds : Result (ControlResponse F) → Trace F → Type 0
  Succeeds r tr = r ≡ done success

  commit_stage-Succeeds : (tr : Trace F) (p : Position) → Runs Succeeds tr (commit_stage h v c p)
  unfolding commit_stage after_commit after_commit_status
  commit_stage-Succeeds tr p =
      rw
        (
          a.no_fault "commit_timeout",
          a.no_fault "commit_failed_recovered",
          a.no_fault "ot_interface_error",
        )
        (Runs-answer tr _ _ _ (ok executed) a.commit (
          rw a.is_ack
            (Runs-accepted _ h v request_tx p _ _ _ a.append (λ now. Runs-pure _ success refl))))

  reverify_stage-Succeeds :
      (tr : Trace F) (p : Position) → Runs Succeeds tr (reverify_stage h v c p)
  unfolding reverify_stage after_reverify compare_hashes
  reverify_stage-Succeeds tr p = Runs-answer tr _ _ _ (ok c.snapshot) a.latest_snapshot (
      rw (a.no_fault "reverify_hash_mismatch") (
        rw (eq_refl c.snapshot.sensor_snapshot_hash)
          (Runs-accepted _ h v request_tx p _ _ _ a.append (λ now. commit_stage-Succeeds _ _))))

  prepare_stage-Succeeds : (tr : Trace F) (p : Position) → Runs Succeeds tr (prepare_stage h v c p)
  unfolding prepare_stage after_prepare
  prepare_stage-Succeeds tr p = rw (a.no_fault "lock_denied") (
      Runs-answer tr _ _ _ (ok granted) a.prepare (
        rw a.is_granted
          (Runs-accepted _ h v request_tx p _ _ _ a.append (λ now. reverify_stage-Succeeds _ _))))

  safety_stage-Succeeds :
      (tr : Trace F) (p : Position) → Runs Succeeds tr (safety_stage h arith v c p)
  unfolding safety_stage after_safety
  safety_stage-Succeeds tr p = Runs-answer tr _ _ _ (ok verdict) a.validate (
      rw a.is_safe
        (Runs-accepted _ h v request_tx p _ _ _ a.append (λ now. prepare_stage-Succeeds _ _)))

  after_profile-Succeeds :
      (tr : Trace F) (p : Position)
      → Runs Succeeds tr
          (after_profile h arith v c.request p c.active_version c.snapshot (ok c.profile))
  unfolding after_profile after_integrity
  after_profile-Succeeds tr p =
      Runs-known tr _ _ (λ now. check_integrity arith (evidence_of h arith v c) (pos now) ≡ none)
        a.integrity
        (λ now passes.
          rw passes
            (Runs-accepted _ h v request_tx p _ _ _ a.append (λ now'. safety_stage-Succeeds _ _)))

  submit-Succeeds : Runs Succeeds [] (submit_control_request h arith v c.request)
  unfolding submit_control_request after_policy after_snapshot
  submit-Succeeds = Runs-accepted _ h v request_tx _ _ _ _ a.append (λ now.
      Runs-accepted _ h v request_tx _ _ _ _ a.append (λ now'.
        Runs-answer _ _ _ _ (ok c.active_version) a.active_policy (
          Runs-answer _ _ _ _ (ok c.snapshot) a.latest_snapshot
            (Runs-answer _ _ _ _ (ok c.profile) a.asset_profile (after_profile-Succeeds _ _)))))

  -- If every service agrees and the request injects no fault, the gateway answers COMMITTED, with
  -- the reference to the transaction's evidence, from any state of the world.
  pub agreed-committed :
      (w : W) → (submit_control_request h arith v c.request w []).0 ≡ done success
  agreed-committed w = submit-Succeeds.at w
