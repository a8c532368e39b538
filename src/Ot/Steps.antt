-- ===== src/Ot/Steps.antt =====
-- The OT database as a transition system for sessions that do not overlap: the methods of
-- `PersistentTxStateMachine` are its steps, in any order and by any callers, and time passes between
-- them. Nothing in the code keeps sessions apart; Race.antt has two that overlap.
use pcag.Base.{◌≡◌, true, some, ℕ, ◌+◌, ◌≤◌, String, Option, [], arith}
use pcag.Ot.Repository.{TxStatus, Table, is_active}
use pcag.Ot.Service.{prepare, finalize_commit, abort, estop}
use pcag.Ot.Count.{count}
use pcag.Ot.Status.{status_of}
use pcag.Ot.Permanent.{is_final, prepare-final, finalize_commit-final, abort-final, estop-final}
use pcag.Ot.Exclusion.{
  IsExclusive, IsExclusive-later, prepare-IsExclusive, finalize_commit-IsExclusive,
  abort-IsExclusive, estop-IsExclusive,
}

pub record Db : Type 0 where
  pub now : ℕ
  pub table : Table

abbrev pub empty : Db
empty = record { now = 0; table = [] }

-- One method call, whose session runs as a whole, with what it raises.
pub data Step (s : Db) : Db → Type 0 where
  tick : (d : ℕ) → Step s (record s { now = s.now + d })
  prepares :
      (fault : Option String) (tx asset : String) (ttl : ℕ)
      → Step s (record s { table = (prepare fault s.now tx asset ttl s.table).1 })
  finalizes :
      (fault : Option String) (tx asset : String)
      → Step s (record s { table = (finalize_commit fault tx asset s.table).1 })
  aborts :
      (fault : Option String) (tx asset : String)
      → Step s (record s { table = (abort fault tx asset s.table).1 })
  estops :
      (fault : Option String) (asset : String)
      → Step s (record s { table = (estop fault asset s.table).1 })

pub data Reach (s : Db) : Db → Type 0 where
  here : Reach s s
  next : {t u : Db} → Reach s t → Step t u → Reach s u

Step-IsExclusive : {s t : Db} → Step s t → IsExclusive s.now s.table → IsExclusive t.now t.table
Step-IsExclusive {s} (tick d) v = IsExclusive-later s.now d s.table v
Step-IsExclusive {s} (prepares fault tx asset ttl) v =
    prepare-IsExclusive fault s.now tx asset ttl s.table v
Step-IsExclusive {s} (finalizes fault tx asset) v =
    finalize_commit-IsExclusive fault s.now tx asset s.table v
Step-IsExclusive {s} (aborts fault tx asset) v = abort-IsExclusive fault s.now tx asset s.table v
Step-IsExclusive {s} (estops fault asset) v = estop-IsExclusive fault s.now asset s.table v

Reach-IsExclusive : {s t : Db} → IsExclusive s.now s.table → Reach s t → IsExclusive t.now t.table
Reach-IsExclusive v here = v
Reach-IsExclusive v (next r st) = Step-IsExclusive st (Reach-IsExclusive v r)

empty-IsExclusive : IsExclusive 0 []
unfolding count
empty-IsExclusive = record { unique = λ j. omega arith; exclusive = λ b. omega arith }

-- As long as no two sessions overlap: in every state that method calls, in any order, reach from the
-- empty database, an asset has at most one active lock.
pub mutual_exclusion :
    {s : Db} → Reach empty s → (asset : String) → count (is_active asset s.now) s.table ≤ 1
mutual_exclusion r asset = (Reach-IsExclusive empty-IsExclusive r).exclusive asset

module _ (tx asset : String) (status : TxStatus) (final : is_final status ≡ true) where
  abbrev Keeps : Db → Type 0
  Keeps s = status_of tx asset s.table ≡ some status

  Step-final : {s t : Db} → Step s t → Keeps s → Keeps t
  Step-final (tick d) h = h
  Step-final {s} (prepares fault j b ttl) h =
      prepare-final tx asset status final s.table h fault s.now j b ttl
  Step-final {s} (finalizes fault j b) h =
      finalize_commit-final tx asset status final s.table h fault j b
  Step-final {s} (aborts fault j b) h = abort-final tx asset status final s.table h fault j b
  Step-final {s} (estops fault b) h = estop-final tx asset status final s.table h fault b

  -- A transaction that is COMMITTED or ABORTED for its asset stays so, whatever methods are called
  -- after, for this or any other transaction, and whichever of their sessions raise.
  pub finished_stays :
      {s t : Db}
      → Reach s t
      → status_of tx asset s.table ≡ some status
      → status_of tx asset t.table ≡ some status
  finished_stays here h = h
  finished_stays (next r st) h = Step-final st (finished_stays r h)
