-- ===== src/Target.antt =====
-- src/cogindex/_target.py: the two-level target.
pub mod Statediff
pub mod Reconcile
pub mod Apply
pub mod Dataset
