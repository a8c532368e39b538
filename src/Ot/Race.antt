-- ===== src/Ot/Race.antt =====
-- PREPARE as its two halves, the queries and the write: two sessions can run the first halves
-- before either writes, since no database constraint or row lock ties them together.
use pcag.Base.{
  ℕ, ◌+◌, ◌<◌, String, ◌≡◌, ◌≢◌, ◌≢◌, Option, none, some, arith, str_eq, eq_iff, if◌then◌else◌,
}
use pcag.Ot.Repository.{
  is_locked, TransactionRecord, Table, is_active, get_active_lock, get_transaction, create_lock,
  extend_lock,
}
use pcag.Ot.Service.{lock_granted, prepare}
use pcag.Ot.Count.{count, active-none}

-- What a session has decided to write.
pub data Write : Type 0 where
  nothing create extend : Write

abbrev decide_found : String → Option TransactionRecord → Write
decide_found asset none = create
decide_found asset (some r) =
    if str_eq r.asset_id asset then (if is_locked r.status then extend else nothing) else nothing

abbrev decide_active : String → String → Option TransactionRecord → Option TransactionRecord → Write
decide_active tx asset none found = decide_found asset found
decide_active tx asset (some active) found =
    if str_eq active.transaction_id tx then decide_found asset found else nothing

-- The queries of `prepare`.
unfoldable pub decide : ℕ → String → String → Table → Write
decide now tx asset t = decide_active tx asset (get_active_lock asset now t) (get_transaction tx t)

-- The write of `prepare`, on the table as it is by then. (An INSERT of a key that is there would
-- raise; that takes two sessions of one transaction.)
unfoldable pub perform : Write → String → String → ℕ → Table → Table
perform nothing tx asset e t = t
perform create tx asset e t = create_lock tx asset e t
perform extend tx asset e t = extend_lock tx e t

-- Where nothing happens between the halves, they make up `prepare`.
pub perform-decide :
    (now : ℕ) (tx asset : String) (ttl : ℕ) (t : Table)
    → perform (decide now tx asset t) tx asset (now + ttl) t ≡ (prepare none now tx asset ttl t).1
unfolding decide perform prepare
perform-decide now tx asset ttl t = ground arith

-- Two transactions ask for one free asset, and both sessions query before either writes: each
-- PREPARE answers LOCK_GRANTED, and the asset has two active locks.
pub prepare_race :
    (now : ℕ) (a b asset : String) (ttl : ℕ) (t : Table)
    → a ≢ b
    → 0 < ttl
    → get_active_lock asset now t ≡ none
    → get_transaction a t ≡ none
    → get_transaction b t ≡ none
    → ((prepare none now a asset ttl t).0.status ≡ lock_granted)
      × ((prepare none now b asset ttl t).0.status ≡ lock_granted)
      × (count (is_active asset now) (
            perform
              (decide now b asset t)
              b
              asset
              (now + ttl)
              (perform (decide now a asset t) a asset (now + ttl) t))
          ≡ 2)
unfolding decide perform prepare create_lock count
prepare_race now a b asset ttl t ne pos free new_a new_b =
    ground (arith, active-none asset now t free, eq_iff asset asset)
