-- ===== src/Ot/Count.antt =====
-- How many rows of the table `transactions` pass a test, and how each statement of the repository
-- changes that number.
use pcag.Base.{
  ℕ, ◌+◌, ◌≤◌, String, ◌≡◌, refl, Bool, true, false, not, ◌&&◌, none, some, [], ◌∷◌, arith, str_eq,
  weight,
}
use pcag.Ot.Repository.{
  TxStatus, is_locked, TransactionRecord, Table, is_active, get_active_lock, extend_lock,
  update_status, abort_active_locks_for_asset,
}

unfoldable pub count : (TransactionRecord → Bool) → Table → ℕ
count p [] = 0
count p (r ∷ t) = weight (p r) + count p t

-- The rows with a primary key.
abbrev pub has_id : String → TransactionRecord → Bool
has_id tx r = str_eq r.transaction_id tx

-- The active locks of an asset that some other transaction holds.
abbrev pub is_foreign : String → ℕ → String → TransactionRecord → Bool
is_foreign asset now tx r = is_active asset now r && not (has_id tx r)

module _ (asset : String) (now : ℕ) where
  pub active-none :
      (t : Table) → get_active_lock asset now t ≡ none → count (is_active asset now) t ≡ 0
  unfolding get_active_lock count
  active-none [] h = refl
  active-none (r ∷ t) h = ground (arith, active-none t)

  pub foreign-le-active :
      (tx : String) (t : Table) → count (is_foreign asset now tx) t ≤ count (is_active asset now) t
  unfolding count
  foreign-le-active tx [] = omega arith
  foreign-le-active tx (r ∷ t) = ground (arith, foreign-le-active tx t)

  -- The lock that is found is the only one, so no other transaction holds one.
  pub foreign-own :
      (tx : String) (t : Table) (r : TransactionRecord)
      → get_active_lock asset now t ≡ some r
      → has_id tx r ≡ true
      → count (is_active asset now) t ≤ 1
      → count (is_foreign asset now tx) t ≡ 0
  unfolding get_active_lock count
  foreign-own tx [] r h own le = refl
  foreign-own tx (s ∷ t) r h own le = ground (arith, foreign-own tx t r, foreign-le-active tx t)

  pub active-extend :
      (tx : String) (e : ℕ) (t : Table)
      → count (is_active asset now) (extend_lock tx e t)
        ≤ count (is_foreign asset now tx) t + count (has_id tx) t
  unfolding extend_lock count
  active-extend tx e [] = omega arith
  active-extend tx e (r ∷ t) = ground (arith, active-extend tx e t)

  pub active-update :
      (tx : String) (s : TxStatus) (t : Table)
      → is_locked s ≡ false
      → count (is_active asset now) (update_status tx s true t) ≤ count (is_active asset now) t
  unfolding update_status count
  active-update tx s [] h = omega arith
  active-update tx s (r ∷ t) h = ground (arith, active-update tx s t h)

  pub active-estop :
      (a : String) (t : Table)
      → count (is_active asset now) (abort_active_locks_for_asset a t)
        ≤ count (is_active asset now) t
  unfolding abort_active_locks_for_asset count
  active-estop a [] = omega arith
  active-estop a (r ∷ t) = ground (arith, active-estop a t)

  -- Locks only expire as time goes on.
  pub active-later :
      (d : ℕ) (t : Table) → count (is_active asset (now + d)) t ≤ count (is_active asset now) t
  unfolding count
  active-later d [] = omega arith
  active-later d (r ∷ t) = ground (arith, active-later d t)

pub count-estop_self :
    (asset : String) (now : ℕ) (t : Table)
    → count (is_active asset now) (abort_active_locks_for_asset asset t) ≡ 0
unfolding abort_active_locks_for_asset count
count-estop_self asset now [] = refl
count-estop_self asset now (r ∷ t) = ground (arith, count-estop_self asset now t)
