-- ===== src/Engine/Sync.antt =====
-- A whole sync: what it leaves of the tracking store and of the deployment, however it ends.
pub mod Applied
pub mod Site
pub mod Step
pub mod Outcome
pub mod Sound
pub mod Quiet
pub mod Returns
