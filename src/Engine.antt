-- ===== src/Engine.antt =====
-- tests/common/engine_model.py: CocoIndex's tracking semantics around one DocumentHandler. A state
-- of `none` is NON_EXISTENCE.
pub mod Entry
pub mod Round
pub mod Batch
pub mod Outputs
pub mod Actions
pub mod Stages
pub mod Decision
pub mod Allowed
pub mod Converged
pub mod Sync
pub mod Machine
