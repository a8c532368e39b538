-- ===== src/Gateway/Linked.antt =====
-- The events that the ledger has accepted from one run of the gateway form one chain, and the
-- stages PREPARE, REVERIFY and COMMIT keep it, whatever the services answer.
use pcag.Base.{
  ℕ, ◌+◌, String, ◌≡◌, refl, ◌||◌, Option, none, some, [], ◌∷◌, str_eq, Bool-cases, inl, inr,
}
use pcag.Core.Json.{Fields, obj}
use pcag.Core.Hash.{Hashing, genesis_hash, compute_event_hash}
use pcag.Gateway.Types.{
  ControlResponse, Call, raised, http_error, ok, Snapshot, PrepareResult, CommitResult, AbortResult,
  logged, Services,
}
use pcag.Gateway.Monad.{Result, Trace, M, pure, ◌>>=◌}
use pcag.Gateway.Helpers.{Position, Context, abort_error}
use pcag.Gateway.Commit.{
  fault, event_at, next_position, log_evidence, after_commit_status, after_commit_abort,
  commit_failed, after_commit, commit_stage,
}
use pcag.Gateway.Execution.{
  after_reverify_abort, reverify_failed, compare_hashes, after_reverify, reverify_stage,
  after_prepare, prepare_stage,
}
use pcag.Gateway.Runs.{Runs, Runs-pure, Runs-raise, Runs-call, Runs-log}

module _ {F W : Type 0} (h : Hashing F) (v : Services F W) (tx : String) where
  -- The accepted events, newest first, are the transaction's, count down from the position, and
  -- chain back to the genesis hash.
  abbrev pub Linked : Trace F → Position → Type 0
  Linked [] p = (p.seq ≡ 0) × (p.prev_hash ≡ genesis_hash h)
  Linked (logged e ∷ tr) p =
      (e.transaction_id ≡ tx)
      × (p.seq ≡ e.sequence_no + 1)
      × (p.prev_hash ≡ e.event_hash)
      × ((fs : Fields F) × (e.payload ≡ obj fs))
      × (e.event_hash ≡ compute_event_hash h e.prev_hash e.payload)
      × Linked tr (record { seq = e.sequence_no; prev_hash = e.prev_hash })
  Linked (_ ∷ tr) p = Linked tr p

  abbrev pub IsLinked : {A : Type 0} → Result A → Trace F → Type 0
  IsLinked r tr = (p : Position) × Linked tr p

  -- An event at the position, and then whatever keeps the chain.
  module _ (tr : Trace F) (p : Position) (stage : String) (payload : Fields F)
      (l : Linked tr p) where
    pub log-then :
        (k : Position → M F W (ControlResponse F))
        → ((now : ℕ)
            → Linked
                (logged (event_at h v tx p stage payload now) ∷ tr)
                (next_position h v p payload)
            → Runs IsLinked
                (logged (event_at h v tx p stage payload now) ∷ tr)
                (k (next_position h v p payload)))
        → Runs IsLinked tr (log_evidence h v tx p stage payload >>= k)
    log-then k r =
        Runs-log tr h v tx p stage payload k
          (λ now. r now (refl, refl, refl, (payload, refl), refl, l)) (λ now detail. (p, l))

    pub log-respond :
        (a : ControlResponse F)
        → Runs IsLinked tr (log_evidence h v tx p stage payload >>= λ _. pure a)
    log-respond a = log-then (λ _. pure a) (λ now l'. Runs-pure _ a (_, l'))

module _ {F W : Type 0} (h : Hashing F) (v : Services F W) (c : Context F) where
  abbrev request_tx : String
  request_tx = c.request.transaction_id

  -- A stage keeps the chain.
  abbrev pub Keeps : (Position → M F W (ControlResponse F)) → Type 0
  Keeps stage =
      (tr : Trace F) (p : Position)
      → Linked h v request_tx tr p
      → Runs (IsLinked h v request_tx) tr (stage p)

  after_commit_status-Keeps : (r : CommitResult) → Keeps (λ p. after_commit_status h v c p r)
  unfolding after_commit_status
  after_commit_status-Keeps r tr p l = elim (Bool-cases (str_eq r.status "EXECUTION_FAILED")) [
    | inl e ↦ rw e (log-respond h v request_tx tr p _ _ l _)
    | inr e ↦ elim (Bool-cases (str_eq r.status "ALREADY_COMMITTED" || str_eq r.status "ACK")) [
      | inl d ↦ rw (e, d) (log-respond h v request_tx tr p _ _ l _)
      | inr d ↦ rw (e, d) (log-respond h v request_tx tr p _ _ l _)
    ]
  ]

  after_commit_abort-Keeps :
      (text : String) (a : Call AbortResult) → Keeps (λ p. after_commit_abort h v c p text a)
  unfolding after_commit_abort
  after_commit_abort-Keeps text a tr p l = go (abort_error a) refl
    where
      go :
          (e : Option String)
          → abort_error a ≡ e
          → Runs (IsLinked h v request_tx) tr (after_commit_abort h v c p text a)
      go (some t) e = rw (e, after_commit_abort) (Runs-pure tr _ (p, l))
      go none e = rw (e, after_commit_abort) (log-respond h v request_tx tr p _ _ l _)

  commit_failed-Keeps : (text : String) → Keeps (λ p. commit_failed h v c p text)
  unfolding commit_failed
  commit_failed-Keeps text tr p l = Runs-call tr _ _ _ (λ a. after_commit_abort-Keeps text a _ p l)

  after_commit-Keeps : (r : Call CommitResult) → Keeps (λ p. after_commit h v c p r)
  unfolding after_commit
  after_commit-Keeps (raised text) = commit_failed-Keeps _
  after_commit-Keeps (http_error n d) = commit_failed-Keeps _
  after_commit-Keeps (ok r) = after_commit_status-Keeps r

  commit_stage-Keeps : Keeps (commit_stage h v c)
  unfolding commit_stage
  commit_stage-Keeps tr p l = elim (Bool-cases (fault h v c "commit_timeout")) [
    | inl e ↦ rw e (after_commit-Keeps _ tr p l)
    | inr e ↦ elim (Bool-cases (fault h v c "commit_failed_recovered")) [
      | inl d ↦ rw (e, d) (after_commit-Keeps _ tr p l)
      | inr d ↦ elim (Bool-cases (fault h v c "ot_interface_error")) [
        | inl b ↦ rw (e, d, b) (after_commit-Keeps _ tr p l)
        | inr b ↦ rw (e, d, b) (Runs-call tr _ _ _ (λ r. after_commit-Keeps r _ p l))
      ]
    ]
  ]

  after_reverify_abort-Keeps :
      (code : String) (payload : Fields F) (a : Call AbortResult)
      → Keeps (λ p. after_reverify_abort h v c p code payload a)
  unfolding after_reverify_abort
  after_reverify_abort-Keeps code payload a tr p l = go (abort_error a) refl
    where
      go :
          (e : Option String)
          → abort_error a ≡ e
          → Runs (IsLinked h v request_tx) tr (after_reverify_abort h v c p code payload a)
      go (some t) e = rw (e, after_reverify_abort) (Runs-pure tr _ (p, l))
      go none e = rw (e, after_reverify_abort) (log-respond h v request_tx tr p _ _ l _)

  reverify_failed-Keeps : (text : String) → Keeps (λ p. reverify_failed h v c p text)
  unfolding reverify_failed
  reverify_failed-Keeps text tr p l =
      Runs-call tr _ _ _ (λ a. after_reverify_abort-Keeps _ _ a _ p l)

  compare_hashes-Keeps : (hash : String) → Keeps (λ p. compare_hashes h v c p hash)
  unfolding compare_hashes
  compare_hashes-Keeps hash tr p l =
      elim (Bool-cases (str_eq hash c.snapshot.sensor_snapshot_hash)) [
        | inl e ↦ rw e (log-then h v request_tx tr p _ _ l _ (λ now l'. commit_stage-Keeps _ _ l'))
        | inr e ↦ rw e (Runs-call tr _ _ _ (λ a. after_reverify_abort-Keeps _ _ a _ p l))
      ]

  after_reverify-Keeps : (s : Call (Snapshot F)) → Keeps (λ p. after_reverify h v c p s)
  unfolding after_reverify
  after_reverify-Keeps (raised text) = reverify_failed-Keeps _
  after_reverify-Keeps (http_error n d) = reverify_failed-Keeps _
  after_reverify-Keeps (ok s) = compare_hashes-Keeps _

  after_prepare-Keeps : (r : Call PrepareResult) → Keeps (λ p. after_prepare h v c p r)
  unfolding after_prepare reverify_stage
  after_prepare-Keeps (raised text) tr p l = Runs-pure tr _ (p, l)
  after_prepare-Keeps (http_error n d) tr p l = Runs-raise tr _ (p, l)
  after_prepare-Keeps (ok r) tr p l = elim (Bool-cases (str_eq r.status "LOCK_GRANTED")) [
    | inl e ↦ rw e (
        log-then h v request_tx tr p _ _ l _
          (λ now l'. Runs-call _ _ _ _ (λ s. after_reverify-Keeps s _ _ l')))
    | inr e ↦ rw e (log-respond h v request_tx tr p _ _ l _)
  ]

  pub prepare_stage-Keeps : Keeps (prepare_stage h v c)
  unfolding prepare_stage
  prepare_stage-Keeps tr p l = elim (Bool-cases (fault h v c "lock_denied")) [
    | inl e ↦ rw e (after_prepare-Keeps _ tr p l)
    | inr e ↦ rw e (Runs-call tr _ _ _ (λ r. after_prepare-Keeps r _ p l))
  ]
