-- ===== src/Ot/Repository.antt =====
-- pcag/apps/ot_interface/repository.py over the table `transactions` of
-- pcag/core/database/models.py. A query or an update is a function of the table's rows. SQL gives a
-- table no order; the model lists the rows with the newest first.
use pcag.Base.{
  ℕ, String, Bool, true, false, ◌&&◌, Option, none, some, List, [], ◌∷◌, ltb, str_eq, if◌then◌else◌,
}

-- The column is a text; `other` stands for any that the code does not write.
pub data TxStatus : Type 0 where
  locked committed aborted : TxStatus
  other : String → TxStatus

abbrev pub is_locked : TxStatus → Bool
is_locked TxStatus.locked = true
is_locked _ = false

pub record TransactionRecord : Type 0 where
  pub transaction_id : String
  pub asset_id : String
  pub status : TxStatus
  pub lock_expires_at_ms : Option ℕ

abbrev pub Table : Type 0
Table = List TransactionRecord

-- `lock_expires_at_ms > now`, which NULL does not pass.
abbrev pub expires_after : Option ℕ → ℕ → Bool
expires_after none now = false
expires_after (some e) now = ltb now e

-- The conditions of the query in `get_active_lock`.
abbrev pub is_active : String → ℕ → TransactionRecord → Bool
is_active asset now r =
    str_eq r.asset_id asset && (is_locked r.status && expires_after r.lock_expires_at_ms now)

unfoldable pub get_active_lock : String → ℕ → Table → Option TransactionRecord
get_active_lock asset now [] = none
get_active_lock asset now (r ∷ t) =
    if is_active asset now r then some r else get_active_lock asset now t

unfoldable pub get_transaction : String → Table → Option TransactionRecord
get_transaction tx [] = none
get_transaction tx (r ∷ t) = if str_eq r.transaction_id tx then some r else get_transaction tx t

unfoldable pub create_lock : String → String → ℕ → Table → Table
create_lock tx asset expires t =
    record {
      transaction_id = tx;
      asset_id = asset;
      status = TxStatus.locked;
      lock_expires_at_ms = some expires;
    }
    ∷ t

unfoldable pub extend_lock : String → ℕ → Table → Table
extend_lock tx expires [] = []
extend_lock tx expires (r ∷ t) =
    (if str_eq r.transaction_id tx then record r { lock_expires_at_ms = some expires } else r)
    ∷ extend_lock tx expires t

-- The two values of `clear_lock`.
abbrev set_status : TxStatus → Bool → TransactionRecord → TransactionRecord
set_status s true r = record r { status = s; lock_expires_at_ms = some 0 }
set_status s false r = record r { status = s }

unfoldable pub update_status : String → TxStatus → Bool → Table → Table
update_status tx s clear_lock [] = []
update_status tx s clear_lock (r ∷ t) =
    (if str_eq r.transaction_id tx then set_status s clear_lock r else r)
    ∷ update_status tx s clear_lock t

-- The row as the UPDATE of `abort_active_locks_for_asset` leaves it.
abbrev pub stopped : String → TransactionRecord → TransactionRecord
stopped asset r =
    let hit = str_eq r.asset_id asset && is_locked r.status in
    record r {
      status = if hit then TxStatus.aborted else r.status;
      lock_expires_at_ms = if hit then some 0 else r.lock_expires_at_ms;
    }

unfoldable pub abort_active_locks_for_asset : String → Table → Table
abort_active_locks_for_asset asset [] = []
abort_active_locks_for_asset asset (r ∷ t) = stopped asset r ∷ abort_active_locks_for_asset asset t
