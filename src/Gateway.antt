-- ===== src/Gateway.antt =====
-- The gateway (pcag/apps/gateway): the pipeline from a control request to its execution.
pub mod Types
pub mod Monad
pub mod Helpers
pub mod Commit
pub mod Execution
pub mod Pipeline
pub mod Runs
pub mod Linked
pub mod Evidence
pub mod Gate
pub mod Guarded
pub mod Success
mod Tests
