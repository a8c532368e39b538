-- ===== src/Memory.antt =====
-- pcag/core/services/tx_state_machine.py: the two-phase state machine in memory. Its dictionaries
-- are functions from keys; the time is what the time provider returns, in milliseconds.
mod Tests
use pcag.Base.{
  Option-cases, inl, inr, ℕ, ◌+◌, ◌≤◌, ◌≢◌, ◌≡◌, ◌↔◌, refl, String, Option, none, some, ltb, str_eq,
  eq_iff, arith, if◌then◌else◌,
}

pub data TxStatus : Type 0 where
  idle locked committed aborted : TxStatus

pub record Lock : Type 0 where
  pub tx_id : String
  pub expiry : ℕ

pub record Tx : Type 0 where
  pub status : TxStatus
  pub asset_id : String

pub record Machine : Type 0 where
  pub locks : String → Option Lock
  pub transactions : String → Option Tx

-- `d[key] = value`, or `del d[key]`.
abbrev put : {A : Type 0} → String → Option A → (String → Option A) → String → Option A
put key value d k = if str_eq k key then value else d k

pub data Reason : Type 0 where
  locked_by : String → Reason
  not_found already_aborted not_locked lock_lost lock_stolen cannot_abort_committed : Reason

pub data Reply : Type 0 where
  lock_granted : Reply
  lock_denied error : Reason → Reply
  committed already_committed aborted already_aborted estop_executed : Reply

-- A lock as a look at `now` finds it: an expired one is gone.
abbrev alive : ℕ → Option Lock → Option Lock
alive now none = none
alive now (some l) = if ltb l.expiry now then none else some l

unfoldable pub check_lock_expired : ℕ → String → Machine → Machine
check_lock_expired now asset m = record m { locks = put asset (alive now (m.locks asset)) m.locks }

-- `prepare` once the lock has been read.
abbrev prepare_locked : ℕ → String → String → ℕ → Option Lock → Machine → Reply × Machine
prepare_locked now tx asset ttl none m = (
  lock_granted,
  record {
    locks = put asset (some (record { tx_id = tx; expiry = now + ttl })) m.locks;
    transactions =
        put tx (some (record { status = TxStatus.locked; asset_id = asset })) m.transactions;
  },
)
prepare_locked now tx asset ttl (some l) m =
    if str_eq l.tx_id tx
    then (
      lock_granted,
      record m { locks = put asset (some (record l { expiry = now + ttl })) m.locks },
    )
    else (lock_denied (locked_by l.tx_id), m)

unfoldable pub prepare : ℕ → String → String → ℕ → Machine → Reply × Machine
unfolding check_lock_expired
prepare now tx asset ttl m =
    let m' = check_lock_expired now asset m in prepare_locked now tx asset ttl (m'.locks asset) m'

-- `commit` of a transaction that is LOCKED.
abbrev commit_locked : String → String → Tx → Option Lock → Machine → Reply × Machine
commit_locked tx asset t none m = (error lock_lost, m)
commit_locked tx asset t (some l) m =
    if str_eq l.tx_id tx
    then (
      Reply.committed,
      record {
        locks = put asset none m.locks;
        transactions = put tx (some (record t { status = TxStatus.committed })) m.transactions;
      },
    )
    else (error lock_stolen, m)

abbrev commit_found : String → String → Option Tx → Machine → Reply × Machine
commit_found tx asset none m = (error not_found, m)
commit_found tx asset (some t) m = elim t.status [
  | TxStatus.committed ↦ (already_committed, m)
  | TxStatus.aborted ↦ (error Reason.already_aborted, m)
  | TxStatus.locked ↦ commit_locked tx asset t (m.locks asset) m
  | TxStatus.idle ↦ (error not_locked, m)
]

unfoldable pub commit : ℕ → String → String → Machine → Reply × Machine
unfolding check_lock_expired
commit now tx asset m =
    let m' = check_lock_expired now asset m in commit_found tx asset (m'.transactions tx) m'

abbrev release : String → String → Option Lock → Machine → Machine
release tx asset none m = m
release tx asset (some l) m =
    if str_eq l.tx_id tx then record m { locks = put asset none m.locks } else m

abbrev abort_live : String → String → Tx → Machine → Reply × Machine
abort_live tx asset t m = (
  Reply.aborted,
  release tx asset (m.locks asset) (record m {
    transactions = put tx (some (record t { status = TxStatus.aborted })) m.transactions;
  }),
)

abbrev abort_found : String → String → Option Tx → Machine → Reply × Machine
abort_found tx asset none m = (error not_found, m)
abort_found tx asset (some t) m = elim t.status [
  | TxStatus.aborted ↦ (Reply.already_aborted, m)
  | TxStatus.committed ↦ (error cannot_abort_committed, m)
  | TxStatus.locked ↦ abort_live tx asset t m
  | TxStatus.idle ↦ abort_live tx asset t m
]

unfoldable abort : String → String → Machine → Reply × Machine
abort tx asset m = abort_found tx asset (m.transactions tx) m

unfoldable estop : String → Machine → Reply × Machine
estop asset m = (estop_executed, record m { locks = put asset none m.locks })

-- COMMIT answers COMMITTED exactly if the transaction is LOCKED and holds a lock on the asset that
-- has not expired.
pub commit_iff :
    (now : ℕ) (tx asset : String) (m : Machine)
    → ((commit now tx asset m).0 ≡ Reply.committed) ↔ (
        ((t : Tx) × (m.transactions tx ≡ some t) × (t.status ≡ TxStatus.locked))
        × ((l : Lock) × (m.locks asset ≡ some l) × (l.tx_id ≡ tx) × (now ≤ l.expiry)))
unfolding commit check_lock_expired
commit_iff now tx asset m = (forward, backward)
  where
    forward :
        (commit now tx asset m).0 ≡ Reply.committed
        → ((t : Tx) × (m.transactions tx ≡ some t) × (t.status ≡ TxStatus.locked))
          × ((l : Lock) × (m.locks asset ≡ some l) × (l.tx_id ≡ tx) × (now ≤ l.expiry))
    forward h = elim (Option-cases (m.transactions tx)) [
      | inl missing ↦ ground (arith, eq_iff asset asset)
      | inr (t, row) ↦ elim (Option-cases (m.locks asset)) [
        | inl free ↦ ground (arith, eq_iff asset asset)
        | inr (l, held) ↦ (
          (t, row, ground (arith, eq_iff asset asset)),
          (
            l,
            held,
            ground (arith, eq_iff asset asset, eq_iff l.tx_id tx),
            ground (arith, eq_iff asset asset),
          ),
        )
      ]
    ]

    backward :
        ((t : Tx) × (m.transactions tx ≡ some t) × (t.status ≡ TxStatus.locked))
          × ((l : Lock) × (m.locks asset ≡ some l) × (l.tx_id ≡ tx) × (now ≤ l.expiry))
        → (commit now tx asset m).0 ≡ Reply.committed
    backward ((t, row, s), (l, held, own, le)) =
        ground (arith, eq_iff asset asset, eq_iff l.tx_id tx)

-- Whatever its status is, COMMITTED and ABORTED included, a transaction that prepares an asset
-- without a lock is granted one, and within the lock's time COMMIT answers COMMITTED.
pub commits_again :
    (now later ttl : ℕ) (tx asset : String) (m : Machine)
    → m.locks asset ≡ none
    → later ≤ now + ttl
    → ((prepare now tx asset ttl m).0 ≡ lock_granted)
      × ((commit later tx asset (prepare now tx asset ttl m).1).0 ≡ Reply.committed)
unfolding prepare commit check_lock_expired
commits_again now later ttl tx asset m free le = ground (arith, eq_iff asset asset, eq_iff tx tx)
