-- ===== src/Compat.antt =====
-- src/cogindex/_compat.py: what is computed from Cognee's settings.
pub mod Args
pub mod Config
pub mod Dimensions
pub mod Credentials
