-- ===== src/Spec.antt =====
-- src/cogindex/_spec.py: desired states.
pub mod Profile
pub mod Processing
pub mod Dataset
pub mod Document
