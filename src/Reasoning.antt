-- ===== src/Reasoning.antt =====
-- The module noema/core/chain_of_thought.py: planning, scheduling and executing reasoning steps.
pub mod Plan
pub mod Levels
pub mod Step
pub mod Reflexion
mod Tests
