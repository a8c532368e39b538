-- ===== src/Gateway/Evidence.antt =====
-- The evidence that the gateway leaves, from the first stage on, as the ledger checks it.
use pcag.Base.{
  ℕ, String, ◌≡◌, refl, true, Option, none, some, List, [], ◌∷◌, str_eq, Bool-cases, inl, inr, sym,
}
use pcag.Core.Json.{Json, Arith}
use pcag.Core.Hash.{Hashing, genesis_hash}
use pcag.Core.Integrity.{Violation}
use pcag.Ledger.Repository.{Event, verify_events}
use pcag.Ledger.Store.{Numbered}
use pcag.Ledger.Chain.{Chain, verify_events_iff}
use pcag.Gateway.Types.{
  sent_abort, sent_commit, sent_prepare, asked_policy, asked_safety, asked_profile, asked_snapshot,
  ControlRequest, ControlResponse, Call, raised, http_error, ok, Snapshot, AssetProfile,
  SafetyResult, logged, refused, Services,
}
use pcag.Gateway.Monad.{Trace, M}
use pcag.Gateway.Helpers.{Position, Context}
use pcag.Gateway.Pipeline.{
  after_safety, safety_stage, after_integrity, after_profile, after_snapshot, after_policy, start,
  submit_control_request,
}
use pcag.Gateway.Runs.{Runs, Runs-pure, Runs-call, Runs-read}
use pcag.Gateway.Linked.{Linked, IsLinked, log-then, log-respond, Keeps, prepare_stage-Keeps}

module _ {F W : Type 0} (h : Hashing F) (arith : Arith F) (v : Services F W) where
  after_safety-Keeps :
      (c : Context F) (r : Call (SafetyResult F)) → Keeps h v c (λ p. after_safety h arith v c p r)
  unfolding after_safety
  after_safety-Keeps c (raised text) tr p l = Runs-pure tr _ (p, l)
  after_safety-Keeps c (http_error n d) tr p l = Runs-pure tr _ (p, l)
  after_safety-Keeps c (ok r) tr p l = elim (Bool-cases (str_eq r.final_verdict "SAFE")) [
    | inl e ↦ rw e (
        log-then h v c.request.transaction_id tr p _ _ l _
          (λ now l'. prepare_stage-Keeps h v c _ _ l'))
    | inr e ↦ rw e (log-respond h v c.request.transaction_id tr p _ _ l _)
  ]

  after_integrity-Keeps :
      (c : Context F) (o : Option Violation) → Keeps h v c (λ p. after_integrity h arith v c p o)
  unfolding after_integrity safety_stage
  after_integrity-Keeps c (some violation) tr p l =
      log-respond h v c.request.transaction_id tr p _ _ l _
  after_integrity-Keeps c none tr p l =
      log-then h v c.request.transaction_id tr p _ _ l _
        (λ now l'. Runs-call _ _ _ _ (λ r. after_safety-Keeps c r _ _ l'))

  module _ (q : ControlRequest F) where
    abbrev KeepsFrom : (Position → M F W (ControlResponse F)) → Type 0
    KeepsFrom stage =
        (tr : Trace F) (p : Position)
        → Linked h v q.transaction_id tr p
        → Runs (IsLinked h v q.transaction_id) tr (stage p)

    after_profile-Keeps :
        (version : String) (s : Snapshot F) (a : Call (AssetProfile F))
        → KeepsFrom (λ p. after_profile h arith v q p version s a)
    unfolding after_profile
    after_profile-Keeps version s (raised text) tr p l = Runs-pure tr _ (p, l)
    after_profile-Keeps version s (http_error n d) tr p l = Runs-pure tr _ (p, l)
    after_profile-Keeps version s (ok a) tr p l =
        Runs-read tr _ _ (λ now. after_integrity-Keeps _ _ tr p l)

    after_snapshot-Keeps :
        (version : String) (s : Call (Snapshot F))
        → KeepsFrom (λ p. after_snapshot h arith v q p version s)
    unfolding after_snapshot
    after_snapshot-Keeps version (raised text) tr p l = Runs-pure tr _ (p, l)
    after_snapshot-Keeps version (http_error n d) tr p l = Runs-pure tr _ (p, l)
    after_snapshot-Keeps version (ok s) tr p l =
        Runs-call tr _ _ _ (λ a. after_profile-Keeps version s a _ p l)

    after_policy-Keeps : (a : Call String) → KeepsFrom (λ p. after_policy h arith v q p a)
    unfolding after_policy
    after_policy-Keeps (raised text) tr p l = Runs-pure tr _ (p, l)
    after_policy-Keeps (http_error n d) tr p l = Runs-pure tr _ (p, l)
    after_policy-Keeps (ok version) tr p l =
        Runs-call tr _ _ _ (λ s. after_snapshot-Keeps version s _ p l)

    submit-IsLinked : Runs (IsLinked h v q.transaction_id) [] (submit_control_request h arith v q)
    unfolding submit_control_request
    submit-IsLinked =
        log-then h v q.transaction_id [] (start h arith v) _ _ (refl, refl) _
          (λ now l.
            log-then h v q.transaction_id _ _ _ _ l _
              (λ now' l'. Runs-call _ _ _ _ (λ a. after_policy-Keeps a _ _ l')))

-- The accepted events of a trace, oldest first, before those that are given.
unfoldable pub history : {F : Type 0} → Trace F → List (Event F) → List (Event F)
history [] es = es
history (logged e ∷ tr) es = history tr (e ∷ es)
history (_ ∷ tr) es = history tr es

module _ {F W : Type 0} (h : Hashing F) (v : Services F W) (tx : String)
    (loads : String → Option (Json F)) where
  abbrev Recorded : String → ℕ → List (Event F) → Type 0
  Recorded prev n es = Chain h loads prev es × Numbered tx n es

  history-Recorded :
      (tr : Trace F) (p : Position) (es : List (Event F))
      → Linked h v tx tr p
      → Recorded p.prev_hash p.seq es
      → Recorded (genesis_hash h) 0 (history tr es)
  unfolding history
  history-Recorded [] p es l r = rw (sym l.0, sym l.1) r
  history-Recorded (logged e ∷ tr) p es (t, n, prev, (fs, o), hash, l) (c, k) =
      history-Recorded tr (record { seq = e.sequence_no; prev_hash = e.prev_hash }) (e ∷ es) l
        ((refl, rw o (rw (sym o) hash), rw (sym prev) c), (t, refl, rw (sym n) k))
  history-Recorded (asked_policy a ∷ tr) p es l r = history-Recorded tr p es l r
  history-Recorded (asked_snapshot a ∷ tr) p es l r = history-Recorded tr p es l r
  history-Recorded (asked_profile a ∷ tr) p es l r = history-Recorded tr p es l r
  history-Recorded (asked_safety asset version actions sensors a ∷ tr) p es l r =
      history-Recorded tr p es l r
  history-Recorded (sent_prepare j asset a ∷ tr) p es l r = history-Recorded tr p es l r
  history-Recorded (sent_commit j asset actions a ∷ tr) p es l r = history-Recorded tr p es l r
  history-Recorded (sent_abort a ∷ tr) p es l r = history-Recorded tr p es l r
  history-Recorded (refused e ∷ tr) p es l r = history-Recorded tr p es l r

-- Whatever the other services answer, and whether the run of the gateway ends with a response or
-- an exception: the events that the ledger has accepted from it, in their order, are the
-- request's transaction's, numbered from 0, and `verify_chain` accepts them.
pub evidence_verifies :
    {F W : Type 0} (h : Hashing F) (arith : Arith F) (v : Services F W)
    (loads : String → Option (Json F)) (q : ControlRequest F) (w : W)
    → (verify_events h loads (history ((submit_control_request h arith v q w []).2) []) ≡ true)
      × Numbered q.transaction_id 0 (history ((submit_control_request h arith v q w []).2) [])
evidence_verifies h arith v loads q w =
    let (p, l) = (submit-IsLinked h arith v q).at w in
    let (c, k) = history-Recorded h v q.transaction_id loads _ p [] l (tt, tt) in
    ((verify_events_iff h loads _).1 c, k)
