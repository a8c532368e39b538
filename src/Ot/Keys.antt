-- ===== src/Ot/Keys.antt =====
-- The primary key of the table `transactions`: how many rows an identifier has, and what the
-- row that `get_transaction` finds says of the others.
use pcag.Base.{ℕ, ◌≤◌, String, ◌≡◌, refl, Bool, true, false, none, some, [], ◌∷◌, arith, str_eq}
use pcag.Ot.Repository.{
  TxStatus, TransactionRecord, Table, is_active, get_active_lock, get_transaction, extend_lock,
  update_status, abort_active_locks_for_asset,
}
use pcag.Ot.Count.{count, has_id}

pub id-none : (tx : String) (t : Table) → get_transaction tx t ≡ none → count (has_id tx) t ≡ 0
unfolding get_transaction count
id-none tx [] h = refl
id-none tx (r ∷ t) h = ground (arith, id-none tx t)

pub id-extend :
    (j tx : String) (e : ℕ) (t : Table) → count (has_id j) (extend_lock tx e t) ≡ count (has_id j) t
unfolding extend_lock count
id-extend j tx e [] = refl
id-extend j tx e (r ∷ t) = ground (arith, id-extend j tx e t)

pub id-update :
    (j tx : String) (s : TxStatus) (c : Bool) (t : Table)
    → count (has_id j) (update_status tx s c t) ≡ count (has_id j) t
unfolding update_status count
id-update j tx s c [] = refl
id-update j tx s c (r ∷ t) = ground (arith, id-update j tx s c t)

pub id-estop :
    (j a : String) (t : Table)
    → count (has_id j) (abort_active_locks_for_asset a t) ≡ count (has_id j) t
unfolding abort_active_locks_for_asset count
id-estop j a [] = refl
id-estop j a (r ∷ t) = ground (arith, id-estop j a t)

-- An update by a key that no row has changes nothing.
extend-absent : (tx : String) (e : ℕ) (t : Table) → count (has_id tx) t ≡ 0 → extend_lock tx e t ≡ t
unfolding extend_lock count
extend-absent tx e [] h = refl
extend-absent tx e (r ∷ t) h = ground (arith, extend-absent tx e t)

-- The only row with the key is for another asset, so the locks of this one stay.
pub active-extend_other :
    (b : String) (now : ℕ) (tx : String) (e : ℕ) (t : Table) (r : TransactionRecord)
    → get_transaction tx t ≡ some r
    → str_eq r.asset_id b ≡ false
    → count (has_id tx) t ≤ 1
    → count (is_active b now) (extend_lock tx e t) ≡ count (is_active b now) t
unfolding get_transaction extend_lock count
active-extend_other b now tx e [] r h o le = refl
active-extend_other b now tx e (s ∷ t) r h o le =
    ground (arith, active-extend_other b now tx e t r, extend-absent tx e t)

-- A lock is a row of its transaction.
pub lock-has-row :
    (asset : String) (now : ℕ) (tx : String) (t : Table) (r : TransactionRecord)
    → get_active_lock asset now t ≡ some r
    → has_id tx r ≡ true
    → get_transaction tx t ≡ none
    → ⊥
unfolding get_active_lock get_transaction
lock-has-row asset now tx [] r h i n = cc
lock-has-row asset now tx (s ∷ t) r h i n = ground (arith, lock-has-row asset now tx t r)
