-- ===== src/Ot/Serve.antt =====
-- Runs of the OT interface: requests that are handled one after another, where the sessions of other
-- requests may call the state machine while a COMMIT executes. Each session runs as a whole. What a
-- finalization of an overlapping COMMIT answers is part of the run.
pub mod Once
use pcag.Base.{
  ◌++◌, ◌⊎◌, if◌then◌else◌, inr, inl, eq_iff, Bool-cases, ◌≤◌, ℕ, ◌+◌, String, ◌≡◌, refl, Bool,
  true, false, ◌&&◌, Option, some, List, [], ◌∷◌, arith, str_eq, weight,
}
use pcag.Ot.Repository.{TxStatus, Table}
use pcag.Ot.Service
use pcag.Ot.Service.{finalize_commit, check_commit_ready, FinalStatus, ReadyStatus}
use pcag.Ot.Routes
use pcag.Ot.Routes.{
  Executor, Ot, Http, ok, http_error, PrepareResponse, CommitStatus, ack, CommitResponse, CommitRun,
  AbortResponse, EstopResponse, commit,
}
use pcag.Ot.Commit.{commit-ack}
use pcag.Ot.Status.{status_of, finalize-committed}
use pcag.Ot.Permanent.{prepare-final, finalize_commit-final, abort-final, estop-final}

-- A method call of some session.
pub data Op : Type 0 where
  prepares : Option String → ℕ → String → String → ℕ → Op
  finalizes aborts : Option String → String → String → Op
  estops : Option String → String → Op

unfoldable pub apply_op : Op → Table → Table
apply_op (prepares fault now tx asset ttl) t = (Service.prepare fault now tx asset ttl t).1
apply_op (finalizes fault tx asset) t = (finalize_commit fault tx asset t).1
apply_op (aborts fault tx asset) t = (Service.abort fault tx asset t).1
apply_op (estops fault asset) t = (Service.estop fault asset t).1

unfoldable pub apply_ops : List Op → Table → Table
apply_ops [] t = t
apply_ops (op ∷ ops) t = apply_ops ops (apply_op op t)

-- A `CommitRun` whose other sessions call the state machine.
pub record Interleaving : Type 0 where
  pub ready_fault : Option String
  pub ready_now : ℕ
  pub others : List Op
  pub abort_fault : Option String
  pub final_fault : Option String
  pub ack_now : ℕ

abbrev pub run_of : Interleaving → CommitRun
run_of i = record {
  ready_fault = i.ready_fault;
  ready_now = i.ready_now;
  others = apply_ops i.others;
  abort_fault = i.abort_fault;
  final_fault = i.final_fault;
  ack_now = i.ack_now;
}

pub data Request (A : Type 0) : Type 0 where
  prepares : Option String → ℕ → String → String → ℕ → Request A
  commits : Interleaving → String → String → List A → Request A
  aborts : Option String → String → String → Request A
  estops : Option String → ℕ → String → Request A

pub data Response : Type 0 where
  finalized : String → String → FinalStatus → Response
  prepared : PrepareResponse → Response
  committed : String → String → Http CommitResponse → Response
  aborted : AbortResponse → Response
  stopped : EstopResponse → Response

abbrev status_is_ack : CommitStatus → Bool
status_is_ack CommitStatus.ack = true
status_is_ack _ = false

abbrev status_is_committed : FinalStatus → Bool
status_is_committed FinalStatus.committed = true
status_is_committed _ = false

-- An ACK of the transaction for the asset: COMMIT answers it, also one that overlaps with another,
-- exactly if its finalization answers COMMITTED.
abbrev pub is_ack : String → String → Response → Bool
is_ack tx asset (committed j b (Http.ok c)) =
    str_eq j tx && (str_eq b asset && status_is_ack c.status)
is_ack tx asset (finalized j b status) =
    str_eq j tx && (str_eq b asset && status_is_committed status)
is_ack tx asset _ = false

-- What the finalizations among some method calls answer.
abbrev pub answer_of : Op → Table → List Response
answer_of (finalizes fault tx asset) t =
    finalized tx asset (finalize_commit fault tx asset t).0.status ∷ []
answer_of _ t = []

unfoldable pub answers : List Op → Table → List Response
answers [] t = []
answers (op ∷ ops) t = answer_of op t ++ answers ops (apply_op op t)

abbrev pub is_ready : ReadyStatus → Bool
is_ready ReadyStatus.ready = true
is_ready _ = false

-- The answers that others get while a request is handled: a COMMIT that is ready executes meanwhile.
unfoldable pub meanwhile : {A : Type 0} → Request A → Table → List Response
meanwhile (Request.commits i tx asset actions) t =
    if is_ready (check_commit_ready i.ready_fault i.ready_now tx asset t).status
    then answers i.others t
    else []
meanwhile _ t = []

unfoldable pub acks : String → String → List Response → ℕ
acks tx asset [] = 0
acks tx asset (r ∷ rs) = weight (is_ack tx asset r) + acks tx asset rs

module _ {W A : Type 0} (x : Executor W A) where
  unfoldable pub handle : Request A → Ot W → Response × Ot W
  handle (Request.prepares fault now tx asset ttl) s =
      let (r, s') = Routes.prepare x fault now tx asset ttl s in (prepared r, s')
  handle (Request.commits i tx asset actions) s =
      let (r, s') = commit x (run_of i) tx asset actions s in (committed tx asset r, s')
  handle (Request.aborts fault tx asset) s =
      let (r, s') = Routes.abort x fault tx asset s in (aborted r, s')
  handle (Request.estops fault now asset) s =
      let (r, s') = Routes.estop x fault now asset s in (stopped r, s')

  unfoldable pub serve : List (Request A) → Ot W → List Response
  serve [] s = []
  serve (q ∷ qs) s = let (r, s') = handle q s in meanwhile q s.table ++ (r ∷ serve qs s')
