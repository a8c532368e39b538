-- ===== src/Memory/Tests.antt =====
-- Runs of the state machine in memory, for a transaction that has been committed.
use pcag.Base.{◌≡◌, ◌↔◌, ◌≤◌, none, some}
use pcag.Memory.{TxStatus, Tx, Lock, Machine, Reply, commit_iff, commit}

abbrev finished : Machine
finished = record {
  locks = λ asset. none;
  transactions = λ tx. some (record { status = TxStatus.committed; asset_id = "reactor" });
}

commit_iff_example : ((commit 1010 "a" "reactor" finished).0 ≡ Reply.committed) ↔ (
    ((t : Tx) × (finished.transactions "a" ≡ some t) × (t.status ≡ TxStatus.locked))
    × ((l : Lock) × (finished.locks "reactor" ≡ some l) × (l.tx_id ≡ "a") × (1010 ≤ l.expiry)))
commit_iff_example = commit_iff 1010 "a" "reactor" finished
