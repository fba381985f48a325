-- ===== src/NeuroSymbolic.antt =====
-- The package noema/neurosymbolic: the loop in which hypotheses are generated, verified and refined.
pub mod Think
mod Tests
