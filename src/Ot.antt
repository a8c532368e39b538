-- ===== src/Ot.antt =====
-- The OT interface (pcag/apps/ot_interface): its table of transactions, the persistent two-phase
-- state machine over it, and the HTTP handlers that drive an executor.
pub mod Repository
pub mod Service
pub mod Count
pub mod Keys
pub mod Exclusion
pub mod Steps
pub mod Race
pub mod Routes
pub mod Status
pub mod Commit
pub mod Permanent
pub mod Estop
pub mod Serve
pub mod Manager
mod Tests
