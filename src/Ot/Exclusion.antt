-- ===== src/Ot/Exclusion.antt =====
-- Mutual exclusion: at every moment an asset has at most one active lock, and no operation of the
-- persistent state machine changes that.
use pcag.Base.{
  ℕ, ◌+◌, ◌≤◌, String, ◌≡◌, refl, true, false, Option, none, some, arith, str_eq, eq_iff,
  Bool-cases, Option-cases, inl, inr,
}
use pcag.Ot.Repository.{
  TxStatus, is_locked, Table, is_active, get_active_lock, get_transaction, create_lock, extend_lock,
  update_status, TransactionRecord,
}
use pcag.Ot.Service.{prepare, finalize_commit, abort, estop, prepare_found}
use pcag.Ot.Count.{
  count, has_id, is_foreign, active-none, foreign-le-active, foreign-own, active-extend,
  active-update, active-estop, active-later,
}
use pcag.Ot.Keys.{id-none, id-extend, id-update, id-estop, active-extend_other, lock-has-row}

-- No identifier has two rows, and at `now` no asset has two active locks.
pub record IsExclusive (now : ℕ) (t : Table) : Type 0 where
  pub unique : (tx : String) → count (has_id tx) t ≤ 1
  pub exclusive : (asset : String) → count (is_active asset now) t ≤ 1

pub IsExclusive-later : (now d : ℕ) (t : Table) → IsExclusive now t → IsExclusive (now + d) t
IsExclusive-later now d t v = record {
  unique = v.unique;
  exclusive = λ b. omega (arith, active-later b now d t, v.exclusive b);
}

-- A new lock on an asset without one.
create-IsExclusive :
    (now : ℕ) (tx asset : String) (e : ℕ) (t : Table)
    → get_active_lock asset now t ≡ none
    → get_transaction tx t ≡ none
    → IsExclusive now t
    → IsExclusive now (create_lock tx asset e t)
unfolding create_lock count
create-IsExclusive now tx asset e t free new v = record {
  unique = λ j. ground (arith, v.unique j, id-none tx t new, eq_iff tx j);
  exclusive = λ b. ground (arith, v.exclusive b, active-none asset now t free, eq_iff asset b);
}

-- The transaction that has the row of this asset renews its lock, which no other holds.
extend-IsExclusive :
    (now : ℕ) (tx asset : String) (e : ℕ) (t : Table) (r : TransactionRecord)
    → get_transaction tx t ≡ some r
    → str_eq r.asset_id asset ≡ true
    → count (is_foreign asset now tx) t ≡ 0
    → IsExclusive now t
    → IsExclusive now (extend_lock tx e t)
extend-IsExclusive now tx asset e t r row own free v = record {
  unique = λ j. omega (arith, v.unique j, id-extend j tx e t);
  exclusive = λ b. ground (
    arith,
    v.exclusive b,
    v.unique tx,
    active-extend asset now tx e t,
    active-extend_other b now tx e t r row,
    eq_iff r.asset_id asset,
    eq_iff r.asset_id b,
  );
}

update-IsExclusive :
    (now : ℕ) (tx : String) (s : TxStatus) (t : Table)
    → (is_locked s ≡ false)
    → IsExclusive now t
    → IsExclusive now (update_status tx s true t)
update-IsExclusive now tx s t h v = record {
  unique = λ j. omega (arith, v.unique j, id-update j tx s true t);
  exclusive = λ b. omega (arith, v.exclusive b, active-update b now tx s t h);
}

-- What `prepare` does once no other transaction can hold a lock on the asset.
prepare_found-IsExclusive :
    (now ttl : ℕ) (tx asset : String) (t : Table) (found : Option TransactionRecord)
    → get_transaction tx t ≡ found
    → count (is_foreign asset now tx) t ≡ 0
    → (found ≡ none → get_active_lock asset now t ≡ none)
    → IsExclusive now t
    → IsExclusive now (prepare_found tx asset (now + ttl) found t).1
prepare_found-IsExclusive now ttl tx asset t none row free lock v =
    create-IsExclusive now tx asset (now + ttl) t (lock refl) row v
prepare_found-IsExclusive now ttl tx asset t (some r) row free lock v =
    elim (Bool-cases (str_eq r.asset_id asset)) [
      | inl own ↦ elim (Bool-cases (is_locked r.status)) [
        | inl held ↦ rw (own, held) (extend-IsExclusive now tx asset (now + ttl) t r row own free v)
        | inr done ↦ rw (own, done) v
      ]
      | inr other ↦ rw other v
    ]

-- The state machine's operations keep the table exclusive, whatever the session raises: PREPARE
-- at the moment of the call, the other three at every moment.
pub prepare-IsExclusive :
    (fault : Option String) (now : ℕ) (tx asset : String) (ttl : ℕ) (t : Table)
    → IsExclusive now t
    → IsExclusive now (prepare fault now tx asset ttl t).1
unfolding prepare
prepare-IsExclusive (some exc) now tx asset ttl t v = v
prepare-IsExclusive none now tx asset ttl t v = elim (Option-cases (get_active_lock asset now t)) [
  | inl free ↦ rw free (
      prepare_found-IsExclusive now ttl tx asset t (get_transaction tx t) refl
        (omega (arith, foreign-le-active asset now tx t, active-none asset now t free)) (λ _. free)
        v)
  | inr (active, held) ↦ elim (Bool-cases (str_eq active.transaction_id tx)) [
    | inl own ↦
        rw (held, own)
          (prepare_found-IsExclusive now ttl tx asset t (get_transaction tx t) refl
            (foreign-own asset now tx t active held own (v.exclusive asset))
            (λ row. absurd (lock-has-row asset now tx t active held own row)) v)
    | inr other ↦ rw (held, other) v
  ]
]

module _ (fault : Option String) (now : ℕ) (tx asset : String) (t : Table)
    (v : IsExclusive now t) where
  pub finalize_commit-IsExclusive : IsExclusive now (finalize_commit fault tx asset t).1
  unfolding finalize_commit
  finalize_commit-IsExclusive =
      ground (arith, v, update-IsExclusive now tx TxStatus.committed t refl v)

  pub abort-IsExclusive : IsExclusive now (abort fault tx asset t).1
  unfolding abort
  abort-IsExclusive = ground (arith, v, update-IsExclusive now tx TxStatus.aborted t refl v)

pub estop-IsExclusive :
    (fault : Option String) (now : ℕ) (asset : String) (t : Table)
    → IsExclusive now t
    → IsExclusive now (estop fault asset t).1
unfolding estop
estop-IsExclusive (some exc) now asset t v = v
estop-IsExclusive none now asset t v = record {
  unique = λ j. omega (arith, v.unique j, id-estop j asset t);
  exclusive = λ b. omega (arith, v.exclusive b, active-estop b now asset t);
}
