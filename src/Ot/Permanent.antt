-- ===== src/Ot/Permanent.antt =====
-- COMMITTED and ABORTED are final: no method of the state machine, called for any transaction,
-- changes the status of a finished one.
use pcag.Base.{
  ℕ, ◌+◌, String, ◌≡◌, refl, Bool, true, false, Option, none, some, [], ◌∷◌, arith, str_eq, eq_iff,
  Bool-cases, inl, inr,
}
use pcag.Ot.Repository.{
  TxStatus, is_locked, TransactionRecord, Table, stopped, get_transaction, update_status,
  extend_lock, create_lock, abort_active_locks_for_asset,
}
use pcag.Ot.Service.{prepare, finalize_commit, abort, estop}
use pcag.Ot.Status.{status_of}

status-create :
    (tx asset j b : String) (e : ℕ) (t : Table) (s : TxStatus)
    → get_transaction j t ≡ none
    → status_of tx asset t ≡ some s
    → status_of tx asset (create_lock j b e t) ≡ some s
unfolding status_of get_transaction create_lock
status-create tx asset j b e t s new h = ground (arith, eq_iff j tx)

status-extend :
    (tx asset j : String) (e : ℕ) (t : Table)
    → status_of tx asset (extend_lock j e t) ≡ status_of tx asset t
unfolding status_of get_transaction extend_lock
status-extend tx asset j e [] = refl
status-extend tx asset j e (q ∷ t) = ground (arith, status-extend tx asset j e t)

status-update_ne :
    (tx asset j : String) (s : TxStatus) (c : Bool) (t : Table)
    → str_eq tx j ≡ false
    → status_of tx asset (update_status j s c t) ≡ status_of tx asset t
unfolding status_of get_transaction update_status
status-update_ne tx asset j s c [] h = refl
status-update_ne tx asset j s c (q ∷ t) h = ground (
  arith,
  status-update_ne tx asset j s c t h,
  eq_iff q.transaction_id tx,
  eq_iff q.transaction_id j,
  eq_iff tx j,
)

unfoldable pub stopped_option : String → Option TransactionRecord → Option TransactionRecord
stopped_option a none = none
stopped_option a (some r) = some (stopped a r)

pub get-estop :
    (tx a : String) (t : Table)
    → get_transaction tx (abort_active_locks_for_asset a t)
      ≡ stopped_option a (get_transaction tx t)
unfolding get_transaction abort_active_locks_for_asset stopped_option
get-estop tx a [] = refl
get-estop tx a (q ∷ t) = elim (Bool-cases (str_eq q.transaction_id tx)) [
  | inl own ↦ rw own refl
  | inr other ↦ rw other (get-estop tx a t)
]

status-estop :
    (tx asset a : String) (s : TxStatus) (t : Table)
    → is_locked s ≡ false
    → status_of tx asset t ≡ some s
    → status_of tx asset (abort_active_locks_for_asset a t) ≡ some s
unfolding status_of stopped_option
status-estop tx asset a s t k h = rw (get-estop tx a t) (ground arith)

-- A status that no method changes any more.
abbrev pub is_final : TxStatus → Bool
is_final TxStatus.committed = true
is_final TxStatus.aborted = true
is_final _ = false

module _ (tx asset : String) (s : TxStatus) (final : is_final s ≡ true) (t : Table)
    (row : status_of tx asset t ≡ some s) where
  pub prepare-final :
      (fault : Option String) (now : ℕ) (j b : String) (ttl : ℕ)
      → status_of tx asset (prepare fault now j b ttl t).1 ≡ some s
  unfolding prepare
  prepare-final fault now j b ttl =
      ground
        (arith, status-create tx asset j b (now + ttl) t s, status-extend tx asset j (now + ttl) t)

  pub estop-final :
      (fault : Option String) (b : String) → status_of tx asset (estop fault b t).1 ≡ some s
  unfolding estop
  estop-final fault b = ground (arith, status-estop tx asset b s t)

  pub abort-final :
      (fault : Option String) (j b : String) → status_of tx asset (abort fault j b t).1 ≡ some s
  unfolding abort status_of
  abort-final fault j b =
      ground (arith, eq_iff tx j, status-update_ne tx asset j TxStatus.aborted true t)

  pub finalize_commit-final :
      (fault : Option String) (j b : String)
      → status_of tx asset (finalize_commit fault j b t).1 ≡ some s
  unfolding finalize_commit status_of
  finalize_commit-final fault j b =
      ground (arith, eq_iff tx j, status-update_ne tx asset j TxStatus.committed true t)
