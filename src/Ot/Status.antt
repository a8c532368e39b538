-- ===== src/Ot/Status.antt =====
-- The status of a transaction as the state machine sees it, and what each method needs and leaves.
use pcag.Base.{
  refl, Bool-cases, inl, inr, ℕ, String, ◌≡◌, ◌≢◌, true, Option, none, some, [], ◌∷◌, arith, str_eq,
  if◌then◌else◌,
}
use pcag.Ot.Repository.{TxStatus, TransactionRecord, Table, get_transaction, update_status}
use pcag.Ot.Service.{
  ReadyStatus, FinalStatus, AbortStatus, check_commit_ready, finalize_commit, abort, ready,
}

abbrev row_status : String → Option TransactionRecord → Option TxStatus
row_status asset none = none
row_status asset (some r) = if str_eq r.asset_id asset then some r.status else none

-- The status of the row of `tx`, if it is for `asset`.
unfoldable pub status_of : String → String → Table → Option TxStatus
status_of tx asset t = row_status asset (get_transaction tx t)

-- A status in place of the one that is there.
abbrev pub replaced : TxStatus → Option TxStatus → Option TxStatus
replaced s none = none
replaced s (some _) = some s

pub status-update_self :
    (tx asset : String) (s : TxStatus) (t : Table)
    → status_of tx asset (update_status tx s true t) ≡ replaced s (status_of tx asset t)
unfolding status_of get_transaction update_status
status-update_self tx asset s [] = refl
status-update_self tx asset s (q ∷ t) = elim (Bool-cases (str_eq q.transaction_id tx)) [
  | inl own ↦ rw (own, own) (ground arith)
  | inr other ↦ rw (other, other) (status-update_self tx asset s t)
]

pub ready_needs_locked :
    (fault : Option String) (now : ℕ) (tx asset : String) (t : Table)
    → (check_commit_ready fault now tx asset t).status ≡ ready
    → status_of tx asset t ≡ some TxStatus.locked
unfolding check_commit_ready status_of
ready_needs_locked (some exc) now tx asset t h = cc
ready_needs_locked none now tx asset t h = ground arith

module _ (fault : Option String) (tx asset : String) (t : Table) where
  pub finalize-committed :
      (finalize_commit fault tx asset t).0.status ≡ FinalStatus.committed
      → (status_of tx asset t ≡ some TxStatus.locked)
        × (status_of tx asset (finalize_commit fault tx asset t).1 ≡ some TxStatus.committed)
  unfolding finalize_commit status_of
  finalize-committed h = ground (arith, status-update_self tx asset TxStatus.committed t)

  pub abort-aborted :
      (abort fault tx asset t).0.status ≢ AbortStatus.abort_rejected
      → status_of tx asset (abort fault tx asset t).1 ≡ some TxStatus.aborted
  unfolding abort status_of
  abort-aborted h = ground (arith, status-update_self tx asset TxStatus.aborted t)

  pub abort-aborted_was :
      (abort fault tx asset t).0.status ≡ AbortStatus.aborted
      → status_of tx asset t ≢ some TxStatus.committed
  unfolding abort status_of
  abort-aborted_was h = ground arith

pub check-committed :
    (now : ℕ) (tx asset : String) (t : Table)
    → status_of tx asset t ≡ some TxStatus.committed
    → (check_commit_ready none now tx asset t).status ≡ ReadyStatus.already_committed
unfolding check_commit_ready status_of
check-committed now tx asset t h = ground arith
