-- ===== src/Audit.antt =====
-- The package noema/audit: the hash chain of audit blocks and its inclusion proofs.
pub mod Bytes
pub mod Chain
pub mod Examples
mod Tests
pub mod Proofs
pub mod Incremental
pub mod Logger
