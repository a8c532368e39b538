-- ===== src/Core.antt =====
-- pcag/core: the utilities and services that several applications share.
pub mod Int
pub mod Json
pub mod Text
pub mod Canonicalize
pub mod Hash
pub mod Integrity
pub mod Consensus
pub mod AlternativeAction
pub mod Auth
pub mod Rules
pub mod Samples
mod Tests
pub mod Cbf
