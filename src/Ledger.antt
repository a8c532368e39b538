-- ===== src/Ledger.antt =====
-- The evidence ledger (pcag/apps/evidence_ledger): an append-only table of hash-chained events.
pub mod Repository
pub mod Chain
pub mod Store
mod Tests
